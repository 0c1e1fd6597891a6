-- ===== src/Update/SubPage/Layout.antt =====
-- Where the builder of sub-pages puts the entries and the nodes.
use gdbx.Base.{
  ℕ, suc, ◌+◌, ◌-◌, ◌*◌, ◌%◌, ◌≤◌, ◌<◌, ◌≡◌, refl, ◌∙◌, ◌⊎◌, inl, inr, List, [], ◌∷◌, some, length,
  ok, arith, ge→ltb,
}
use gdbx.Bytes.{Bytes, read, word16, write8, write16, write32, write_list, store16}
use gdbx.Bytes.Loads.{
  load16_ok, slice_ok, store8_ok, store16_ok, store32_ok, copy_list_ok, word16-write16_self,
  word16-write_list_other, read_congr, read-get_or, write_list_inside, write_list_other,
  write16_other,
}
use gdbx.Page.Header.{page_header_size}
use gdbx.Node.Fields.{node_size}
use gdbx.Update.SubPage.{
  parse_value, parse_entries, node_data_size, node_position, write_value, write_values,
}

pub node_position-sum :
    (total : ℕ) (vs : List (List ℕ))
    → node_data_size vs ≤ total
    → node_position total vs + node_data_size vs ≡ total
unfolding node_position node_data_size
node_position-sum total [] h = omega arith
node_position-sum total (v ∷ vs) h = omega (arith, node_position-sum total vs (omega arith))

pub node_data_size-ge : (vs : List (List ℕ)) → length vs * 8 ≤ node_data_size vs
unfolding node_data_size
node_data_size-ge [] = omega arith
node_data_size-ge (v ∷ vs) = omega (arith, node_data_size-ge vs)

-- The node of a value is written inside the page, and nothing else.
record Written (d : Bytes) (pos : ℕ) (v : List ℕ) : Type 0 where
  after : Bytes
  run : write_value d pos v ≡ ok after
  same_size : after.size ≡ d.size
  frame : (x : ℕ) → (x < pos) ⊎ (pos + node_size + length v ≤ x) → after.at x ≡ d.at x
  sized : word16 after.at (pos + 6) ≡ length v
  value_there : read after.at (pos + 8) (length v) ≡ v

unfoldable header_bytes : (ℕ → ℕ) → ℕ → ℕ → ℕ → ℕ
header_bytes f pos n =
    write16 (write8 (write8 (write32 f pos 0) (pos + 4) 0) (pos + 5) 0) (pos + 6) n

header_bytes-frame :
    (f : ℕ → ℕ) (pos n x : ℕ) → (x < pos) ⊎ (pos + 8 ≤ x) → header_bytes f pos n x ≡ f x
unfolding header_bytes
header_bytes-frame f pos n x h = ground arith

header_bytes-sized :
    (f : ℕ → ℕ) (pos n : ℕ) → n < 65536 → word16 (header_bytes f pos n) (pos + 6) ≡ n
unfolding header_bytes
header_bytes-sized f pos n h =
    word16-write16_self (write8 (write8 (write32 f pos 0) (pos + 4) 0) (pos + 5) 0) (pos + 6) n h

value-Written :
    (d : Bytes) (pos : ℕ) (v : List ℕ)
    → pos + node_size + length v ≤ d.size
    → length v < 65536
    → Written d pos v
value-Written d pos v h small =
    let n : ℕ = length v in
    let d1 : Bytes = record d { at = write32 d.at pos 0 } in
    let d2 : Bytes = record d { at = write8 d1.at (pos + 4) 0 } in
    let d3 : Bytes = record d { at = write8 d2.at (pos + 5) 0 } in
    let d4 : Bytes = record d { at = write16 d3.at (pos + 6) n } in
    let e : n % 65536 ≡ n = omega arith in
    record {
      after = record d { at = write_list (header_bytes d.at pos n) (pos + 8) n v };
      run =
          unfold write_value header_bytes in
          rw (
            store32_ok d pos 0 (omega arith),
            store8_ok d1 (pos + 4) 0 (omega arith),
            store8_ok d2 (pos + 5) 0 (omega arith),
            e,
            store16_ok d3 (pos + 6) n (omega arith),
            copy_list_ok d4 (pos + node_size) v (omega arith),
          );
      same_size = refl;
      frame = λ x q.
          write_list_other (header_bytes d.at pos n) (pos + 8) n v x (ground arith)
          ∙ header_bytes-frame d.at pos n x (ground arith);
      sized =
          word16-write_list_other (header_bytes d.at pos n) (pos + 8) n v (pos + 6)
            (inl (omega arith))
          ∙ header_bytes-sized d.at pos n small;
      value_there =
          read-get_or (write_list (header_bytes d.at pos n) (pos + 8) n v) (pos + 8) n v refl
            (λ k lt. write_list_inside (header_bytes d.at pos n) (pos + 8) n v k lt);
    }

word16_congr : (f g : ℕ → ℕ) (i : ℕ) → f i ≡ g i → f (i + 1) ≡ g (i + 1) → word16 f i ≡ word16 g i
word16_congr f g i h k = rw (h, k)

-- A node of the value `v` at `pos`, to which entry `i` points.
record HasValue (d : Bytes) (i pos : ℕ) (v : List ℕ) : Type 0 where
  entry : word16 d.at (page_header_size + i * 2) ≡ pos - page_header_size
  past_header : page_header_size ≤ pos
  table_fits : page_header_size + i * 2 + 2 ≤ d.size
  node_fits : pos + 8 + length v ≤ d.size
  sized : word16 d.at (pos + 6) ≡ length v
  value_there : read d.at (pos + 8) (length v) ≡ v

HasValue-parse_entries :
    (d : Bytes) (i pos n : ℕ) (v : List ℕ) (vs : List (List ℕ))
    → HasValue d i pos v
    → parse_entries d (i + 1) n ≡ ok (some vs)
    → parse_entries d i (suc n) ≡ ok (some (v ∷ vs))
unfolding parse_entries parse_value
HasValue-parse_entries d i pos n v vs h rest =
    let at_pos : pos - page_header_size + page_header_size ≡ pos = omega (arith, h.past_header) in
    let len : pos + 8 + length v - (pos + 8) ≡ length v = omega arith in
    rw (
      ge→ltb d.size (page_header_size + i * 2 + 2) h.table_fits,
      load16_ok d (page_header_size + i * 2) (omega (arith, h.table_fits)),
      h.entry,
      at_pos,
      ge→ltb d.size (pos + 8) (omega (arith, h.node_fits)),
      load16_ok d (pos + 6) (omega (arith, h.node_fits)),
      h.sized,
      ge→ltb d.size (pos + 8 + length v) h.node_fits,
      slice_ok d (pos + 8) (pos + 8 + length v) (omega arith) h.node_fits,
      len,
      h.value_there,
      rest,
    )

-- The values are written, read back, and nothing else is written.
pub record Wrote (d : Bytes) (total i : ℕ) (vs : List (List ℕ)) : Type 0 where
  pub after : Bytes
  pub run : write_values total i vs d ≡ ok after
  pub same_size : after.size ≡ d.size
  pub frame :
      (x : ℕ)
      → (x < page_header_size + i * 2)
        ⊎ ((page_header_size + (i + length vs) * 2 ≤ x) × (x < node_position total vs))
      → after.at x ≡ d.at x
  pub parsed : parse_entries after i (length vs) ≡ ok (some vs)

pub values-Wrote :
    (d : Bytes) (total i : ℕ) (vs : List (List ℕ))
    → d.size ≡ total
    → page_header_size + (i + length vs) * 2 + node_data_size vs ≤ total
    → total ≤ 65556
    → Wrote d total i vs
unfolding write_values node_data_size
values-Wrote d total i [] e room few = record {
  after = d;
  run = refl;
  same_size = refl;
  frame = λ x h. refl;
  parsed = unfold parse_entries in refl;
}
values-Wrote d total i (v ∷ vs) e room few =
    let sum = node_position-sum total vs (omega arith) in
    let pos : ℕ = node_position total (v ∷ vs) in
    let here : pos + node_size + length v ≡ node_position total vs =
      unfold node_position in omega (arith, sum) in
    let below : page_header_size + (i + 1 + length vs) * 2 ≤ pos = omega (arith, sum, here) in
    let entry : (pos - page_header_size) % 65536 ≡ pos - page_header_size =
      omega (arith, here, sum) in
    let d1 : Bytes = record d {
      at = write16 d.at (page_header_size + i * 2) (pos - page_header_size);
    } in
    let w : Written d1 pos v =
      value-Written d1 pos v (omega (arith, here, sum)) (omega (arith, here, sum)) in
    let r : Wrote w.after total (i + 1) vs =
      values-Wrote w.after total (i + 1) vs (w.same_size ∙ e) (omega arith) few in
    let in_node : (x : ℕ) → pos ≤ x → x < pos + 8 + length v → r.after.at x ≡ w.after.at x =
      λ x h k. r.frame x (inr (omega (arith, below), omega (arith, here))) in
    let in_table : (x : ℕ) → x < page_header_size + (i + 1) * 2 → r.after.at x ≡ d1.at x =
      λ x h. r.frame x (inl h) ∙ w.frame x (inl (omega (arith, below))) in
    let size : r.after.size ≡ total = r.same_size ∙ w.same_size ∙ e in
    record {
      after = r.after;
      run =
          rw
            (
              store16_lem d (page_header_size + i * 2) (pos - page_header_size) entry
                  (omega (arith, e, below, here, sum)),
              w.run,
            )
            r.run;
      same_size = r.same_size ∙ w.same_size;
      frame = λ x h. elim h [
        | inl lt ↦
            in_table x (omega arith)
            ∙ write16_other d.at (page_header_size + i * 2) (pos - page_header_size) x (inl lt)
        | inr (ge, lt) ↦
            r.frame x (inr (omega arith, omega (arith, here)))
            ∙ w.frame x (inl lt)
            ∙ write16_other d.at (page_header_size + i * 2) (pos - page_header_size) x
                (inr (omega arith))
      ];
      parsed =
          HasValue-parse_entries r.after i pos (length vs) v vs
            (record {
              entry =
                  word16_congr r.after.at d1.at (page_header_size + i * 2)
                    (in_table (page_header_size + i * 2) (omega arith))
                    (in_table (page_header_size + i * 2 + 1) (omega arith))
                  ∙ word16-write16_self d.at (page_header_size + i * 2) (pos - page_header_size)
                      (omega (arith, here, sum));
              past_header = omega (arith, below);
              table_fits = omega (arith, size, below, here, sum);
              node_fits = omega (arith, size, here, sum);
              sized =
                  word16_congr r.after.at w.after.at (pos + 6)
                    (in_node (pos + 6) (omega arith) (omega arith))
                    (in_node (pos + 6 + 1) (omega arith) (omega arith))
                  ∙ w.sized;
              value_there =
                  read_congr r.after.at w.after.at (pos + 8) (pos + 8) (length v)
                    (λ k h. in_node (pos + 8 + k) (omega arith) (omega arith))
                  ∙ w.value_there;
            })
            r.parsed;
    }
  where
    store16_lem :
        (d : Bytes) (j v : ℕ)
        → v % 65536 ≡ v
        → j + 1 < d.size
        → store16 d j (v % 65536) ≡ ok (record d { at = write16 d.at j v })
    store16_lem d j v e h = rw e (store16_ok d j v h)
