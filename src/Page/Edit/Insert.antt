-- ===== src/Page/Edit/Insert.antt =====
-- `insertEntry` on a well-formed page with room for the node.
use gdbx.Base.{
  ℕ, suc, ◌+◌, ◌-◌, ◌*◌, ◌≤◌, ◌<◌, ◌≡◌, refl, ◌∙◌, true, ltb, List, ok, length, arith, ge→ltb,
  Bool-cases, inl, inr, ◌⊎◌, get_or, sub_ℕ_lt,
}
use gdbx.Bytes.{Bytes, word16}
use gdbx.Bytes.Loads.{
  word16-write16_self, word16-write16_other, read_congr, read-get_or, write16_other,
  write_move_other, write_list_other, write_list_inside,
}
use gdbx.Page.Entries.{num_entries}
use gdbx.Page.Shape.{
  lower, upper, count, offset_of, bytes_from, HasLayout, IsPage, num_entries-count, free_space-sub,
  position,
}
use gdbx.Page.Edit.{insert_entry_with_buf}
use gdbx.Page.Edit.Place.{
  new_upper, with_upper, with_node, with_gap, with_entry, placed, word-with_node, upper-with_node,
  word-with_gap, entry-with_gap, place_entry_ok,
}

-- `q` is `p` with `node` as its new entry `idx`: those from `idx` on are moved up by one, and each
-- entry keeps its bytes.
pub record Inserted (p : Bytes) (idx : ℕ) (node : List ℕ) (q : Bytes) : Type 0 where
  pub same_size : q.size ≡ p.size
  pub counted : count q ≡ count p + 1
  pub taken : upper q + length node ≡ upper p
  pub new_entry : bytes_from q (offset_of q idx) (length node) ≡ node
  pub before : (i n : ℕ) → i < idx → bytes_from q (offset_of q i) n ≡ bytes_from p (offset_of p i) n
  pub after :
      (i n : ℕ)
      → idx ≤ i
      → i < count p
      → bytes_from q (offset_of q (suc i)) n ≡ bytes_from p (offset_of p i) n
  pub page : IsPage q

module _ (p : Bytes) (idx : ℕ) (node : List ℕ) (v : IsPage p) (i_ok : idx ≤ count p)
    (filled : 0 < length node) (room : lower p + 2 + length node ≤ upper p) where
  l : HasLayout p
  l = v.layout

  word-placed_table :
      (j : ℕ)
      → (j + 1 < 20 + idx * 2) ⊎ (20 + idx * 2 + 1 < j)
      → 13 < j
      → word16 (placed p idx node).at j ≡ word16 (with_gap p idx node) j
  unfolding placed
  word-placed_table j h k =
      word16-write16_other (with_entry p idx node) 12 j (lower p + 2) (inr (omega (arith, k)))
      ∙ word16-write16_other (with_gap p idx node) (20 + idx * 2) j (new_upper p idx node) h

  lower-placed : lower (placed p idx node) ≡ lower p + 2
  unfolding placed
  lower-placed =
      word16-write16_self (with_entry p idx node) 12 (lower p + 2)
        (omega (arith, l.ordered, l.bounded, l.addressable, room))

  upper-placed : upper (placed p idx node) ≡ new_upper p idx node
  upper-placed =
      word-placed_table 14 (inl (omega arith)) (omega arith)
      ∙ word-with_gap p idx node l i_ok filled room 14 (omega arith)
      ∙ upper-with_node p idx node l i_ok filled room

  offset-placed_self : offset_of (placed p idx node) idx ≡ new_upper p idx node
  unfolding placed
  offset-placed_self =
      word16-write16_other (with_entry p idx node) 12 (20 + idx * 2) (lower p + 2)
        (inr (omega arith))
      ∙ word16-write16_self (with_gap p idx node) (20 + idx * 2) (new_upper p idx node)
          (omega (arith, l.bounded, l.addressable))

  offset-placed_before : (i : ℕ) → i < idx → offset_of (placed p idx node) i ≡ offset_of p i
  unfolding new_upper
  offset-placed_before i h =
      word-placed_table (20 + i * 2) (inl (omega arith)) (omega arith)
      ∙ word-with_gap p idx node l i_ok filled room (20 + i * 2) (omega arith)
      ∙ word-with_node p idx node l i_ok filled room (20 + i * 2)
          (inr (omega arith, omega (arith, room, i_ok, l.whole_entries)))

  offset-placed_after :
      (i : ℕ) → idx ≤ i → i < count p → offset_of (placed p idx node) (suc i) ≡ offset_of p i
  unfolding new_upper
  offset-placed_after i h k =
      word-placed_table (20 + suc i * 2) (inr (omega arith)) (omega arith)
      ∙ entry-with_gap p idx node l i_ok filled room i h k
      ∙ word-with_node p idx node l i_ok filled room (20 + i * 2)
          (inr (omega arith, omega (arith, room, l.whole_entries)))

  -- Behind the table the bytes are those that the copy of the node left.
  byte-placed :
      (x : ℕ) → new_upper p idx node + 20 ≤ x → (placed p idx node).at x ≡ with_node p idx node x
  unfolding placed
  byte-placed x h =
      let far : 20 + count p * 2 + 2 ≤ x = omega (arith, room, l.whole_entries) in
      write16_other (with_entry p idx node) 12 (lower p + 2) x (inr (omega arith))
      ∙ write16_other (with_gap p idx node) (20 + idx * 2) (new_upper p idx node) x
          (inr (omega (arith, i_ok)))
      ∙ elim (Bool-cases (ltb idx (count p))) [
        | inl e ↦
            rw (e, with_gap)
              (write_move_other (with_node p idx node) (20 + idx * 2 + 2) (20 + idx * 2)
                ((count p - idx) * 2) x (inr (omega (arith, i_ok))))
        | inr e ↦ rw (e, with_gap)
      ]

  -- The nodes that were there keep their bytes.
  byte-placed_old : (x : ℕ) → upper p + 20 ≤ x → (placed p idx node).at x ≡ p.at x
  unfolding with_node
  byte-placed_old x h =
      byte-placed x (omega arith)
      ∙ write_list_other (with_upper p idx node) (new_upper p idx node + 20) (length node) node x
          (inr (omega (arith, room)))
      ∙ write16_other p.at 14 (new_upper p idx node) x (inr (omega arith))

  byte-placed_new :
      (k : ℕ)
      → k < length node
      → (placed p idx node).at (new_upper p idx node + 20 + k) ≡ get_or node k 0
  unfolding with_node
  byte-placed_new k h =
      byte-placed (new_upper p idx node + 20 + k) (omega arith)
      ∙ write_list_inside (with_upper p idx node) (new_upper p idx node + 20) (length node) node k h

  entries-placed :
      (i : ℕ)
      → i < count (placed p idx node)
      → (new_upper p idx node ≤ offset_of (placed p idx node) i)
        × (offset_of (placed p idx node) i + 20 ≤ p.size)
  unfolding new_upper
  entries-placed i h = elim (position i idx) [
    | inl b ↦ omega (arith, offset-placed_before i b, v.entries i (omega (arith, i_ok)))
    | inr (inl e) ↦ rw e (omega (arith, offset-placed_self, l.bounded, filled, room))
    | inr (inr (j, e, b)) ↦
        let k : j < count p = omega (arith, lower-placed, rw e at h) in
        rw e (omega (arith, offset-placed_after j b k, v.entries j k))
  ]

  size-placed : (placed p idx node).size ≡ p.size
  unfolding placed
  size-placed = refl

  layout-placed : HasLayout (placed p idx node)
  unfolding new_upper placed
  layout-placed = record {
    header_fits = l.header_fits;
    addressable = l.addressable;
    whole_entries = omega (arith, lower-placed, l.whole_entries);
    ordered = omega (arith, lower-placed, upper-placed, room);
    bounded = omega (arith, upper-placed, l.bounded);
  }

  read_old :
      (off : ℕ) (n : ℕ) → upper p ≤ off → bytes_from (placed p idx node) off n ≡ bytes_from p off n
  read_old off n h =
      read_congr (placed p idx node).at p.at (off + 20) (off + 20) n
        (λ k lt. byte-placed_old (off + 20 + k) (omega arith))

  placed-Inserted : Inserted p idx node (placed p idx node)
  unfolding new_upper
  placed-Inserted = record {
    same_size = size-placed;
    counted = omega (arith, lower-placed, l.whole_entries);
    taken = omega (arith, upper-placed, room);
    new_entry = rw offset-placed_self (
        read-get_or (placed p idx node).at (new_upper p idx node + 20) (length node) node refl
          byte-placed_new);
    before = λ i n b.
        rw (offset-placed_before i b)
          (read_old (offset_of p i) n (v.entries i (omega (arith, i_ok))).0);
    after =
        λ i n b k. rw (offset-placed_after i b k) (read_old (offset_of p i) n (v.entries i k).0);
    page = record {
      layout = layout-placed;
      entries = λ i h. rw (upper-placed, size-placed) (entries-placed i h);
    };
  }

  -- On a well-formed page of at most 64 KB with room for a node of at least one byte and its entry,
  -- for an index of at most the number of entries, `insertEntry` (with or without a buffer) returns
  -- true without a panic, and leaves a page that is well-formed, has the node as its entry `idx`,
  -- and has the entries that were there, with their bytes, in order before and behind it.
  pub insert_entry_lem :
      (scratch : Bytes) (pooled : ℕ → ℕ)
      → (r : Bytes) × (insert_entry_with_buf p idx node scratch pooled ≡ ok (r, true))
        × Inserted p idx node r
  unfolding insert_entry_with_buf
  insert_entry_lem scratch pooled =
      let n : num_entries p ≡ count p = num_entries-count p l.header_fits in
      (
        placed p idx node,
        rw (
          n,
          ge→ltb (count p) idx i_ok,
          free_space-sub p l.header_fits,
          sub_ℕ_lt (upper p) (lower p) (2 + length node),
          ge→ltb (upper p) (lower p + (2 + length node)) (omega (arith, room)),
          place_entry_ok p idx node l i_ok filled room,
        ),
        placed-Inserted,
      )
