-- ===== src/Page/Edit/Relocate.antt =====
-- `updateEntry` where the new node is larger than the old one.
use native.Mathlib.Decide.{ℕ_discrete}
use gdbx.Base.{
  ℕ, ◌+◌, ◌-◌, ◌*◌, ◌≤◌, ◌<◌, ◌≡◌, ◌≢◌, refl, ◌∙◌, true, List, ok, length, arith, ge→ltb, gt→leb,
  inl, inr, ◌⊎◌, get_or, sub_ℕ_lt,
}
use gdbx.Bytes.{Bytes, word16, write16, write_list}
use gdbx.Bytes.Loads.{
  word16-write16_self, word16-write16_other, word16-write_list_other, read_congr, read-get_or,
  write16_other, write_list_other, write_list_inside, store16_ok, copy_list_ok,
}
use gdbx.Page.Header.{add16}
use gdbx.Page.Entries.{num_entries, calc_node_size}
use gdbx.Page.Shape.{
  lower, upper, count, offset_of, bytes_from, HasLayout, IsPage, num_entries-count, free_space-sub,
}
use gdbx.Page.Edit.{relocate_entry, update_entry}

-- `q` is `p` with `node` in place of its entry `idx`.
pub record Updated (p : Bytes) (idx : ℕ) (node : List ℕ) (q : Bytes) : Type 0 where
  pub same_size : q.size ≡ p.size
  pub same_count : count q ≡ count p
  pub taken : upper q + length node ≡ upper p
  pub new_entry : bytes_from q (offset_of q idx) (length node) ≡ node
  pub others :
      (i n : ℕ)
      → i < count p
      → i ≢ idx
      → bytes_from q (offset_of q i) n ≡ bytes_from p (offset_of p i) n
  pub page : IsPage q

module _ (p : Bytes) (idx : ℕ) (node : List ℕ) (v : IsPage p) (i_ok : idx < count p)
    (room : lower p + length node ≤ upper p) where
  l : HasLayout p
  l = v.layout

  new_upper : ℕ
  new_upper = upper p - length node

  with_upper : ℕ → ℕ
  unfolding new_upper
  with_upper = write16 p.at 14 new_upper

  with_node : ℕ → ℕ
  unfolding with_upper
  with_node = write_list with_upper (new_upper + 20) (length node) node

  moved : Bytes
  unfolding with_node
  moved = record p { at = write16 with_node (20 + idx * 2) new_upper }

  -- A word that is not written.
  word-moved :
      (j : ℕ)
      → (j + 1 < 20 + idx * 2) ⊎ (20 + idx * 2 + 1 < j)
      → j + 1 < new_upper + 20
      → (j + 1 < 14) ⊎ (15 < j)
      → word16 moved.at j ≡ word16 p.at j
  unfolding moved with_node with_upper
  word-moved j h k m =
      word16-write16_other with_node (20 + idx * 2) j new_upper h
      ∙ word16-write_list_other with_upper (new_upper + 20) (length node) node j (inl k)
      ∙ word16-write16_other p.at 14 j new_upper (ground arith)

  lower-moved : lower moved ≡ lower p
  unfolding new_upper
  lower-moved = word-moved 12 (inl (omega arith)) (omega (arith, room, i_ok)) (inl (omega arith))

  upper-moved : upper moved ≡ new_upper
  unfolding moved with_node with_upper new_upper
  upper-moved =
      word16-write16_other with_node (20 + idx * 2) 14 new_upper (inl (omega arith))
      ∙ word16-write_list_other with_upper (new_upper + 20) (length node) node 14
          (inl (omega (arith, room, i_ok)))
      ∙ word16-write16_self p.at 14 new_upper (omega (arith, l.bounded, l.addressable))

  offset-moved_self : offset_of moved idx ≡ new_upper
  unfolding moved new_upper
  offset-moved_self =
      word16-write16_self with_node (20 + idx * 2) new_upper
        (omega (arith, l.bounded, l.addressable))

  offset-moved : (i : ℕ) → i < count p → i ≢ idx → offset_of moved i ≡ offset_of p i
  unfolding new_upper
  offset-moved i h ne =
      word-moved (20 + i * 2) (ground arith) (omega (arith, room, h)) (inr (omega arith))

  -- Behind the table the bytes are those that the copy of the node left.
  byte-moved : (x : ℕ) → new_upper + 20 ≤ x → moved.at x ≡ with_node x
  unfolding moved new_upper
  byte-moved x h =
      write16_other with_node (20 + idx * 2) new_upper x (inr (omega (arith, room, i_ok)))

  byte-moved_old : (x : ℕ) → upper p + 20 ≤ x → moved.at x ≡ p.at x
  unfolding with_node with_upper new_upper
  byte-moved_old x h =
      byte-moved x (omega arith)
      ∙ write_list_other with_upper (new_upper + 20) (length node) node x
          (inr (omega (arith, room)))
      ∙ write16_other p.at 14 new_upper x (inr (omega arith))

  byte-moved_new : (k : ℕ) → k < length node → moved.at (new_upper + 20 + k) ≡ get_or node k 0
  unfolding with_node
  byte-moved_new k h =
      byte-moved (new_upper + 20 + k) (omega arith)
      ∙ write_list_inside with_upper (new_upper + 20) (length node) node k h

  size-moved : moved.size ≡ p.size
  unfolding moved
  size-moved = refl

  entries-moved :
      (i : ℕ) → i < count p → (new_upper ≤ offset_of moved i) × (offset_of moved i + 20 ≤ p.size)
  unfolding new_upper
  entries-moved i h = elim (ℕ_discrete i idx) [
    | yes e ↦ rw e (omega (arith, offset-moved_self, l.bounded))
    | no ne ↦ omega (arith, offset-moved i h ne, v.entries i h)
  ]

  moved-Updated : Updated p idx node moved
  unfolding new_upper moved
  moved-Updated = record {
    same_size = size-moved;
    same_count = omega (arith, lower-moved);
    taken = omega (arith, upper-moved, room);
    new_entry =
        rw offset-moved_self
          (read-get_or moved.at (new_upper + 20) (length node) node refl byte-moved_new);
    others = λ i n h ne. rw (offset-moved i h ne) (
        read_congr moved.at p.at (offset_of p i + 20) (offset_of p i + 20) n
          (λ k lt. byte-moved_old (offset_of p i + 20 + k) (omega (arith, v.entries i h))));
    page = record {
      layout = record {
        header_fits = l.header_fits;
        addressable = l.addressable;
        whole_entries = omega (arith, lower-moved, l.whole_entries);
        ordered = omega (arith, lower-moved, upper-moved, room);
        bounded = omega (arith, upper-moved, l.bounded);
      };
      entries =
          λ i h. rw (upper-moved, size-moved) (entries-moved i (omega (arith, lower-moved, h)));
    };
  }

  relocate_ok : 0 < length node → relocate_entry p idx node ≡ ok (moved, true)
  unfolding relocate_entry moved with_node with_upper new_upper
  relocate_ok filled =
      let at_nu : add16 new_upper 20 ≡ new_upper + 20 =
        omega (arith, l.bounded, l.addressable, room, filled) in
      rw (
        ge→ltb p.size 20 l.header_fits,
        ge→ltb (upper p) (lower p + length node) room,
        store16_ok p 14 new_upper (omega (arith, l.header_fits)),
        at_nu,
        copy_list_ok (record p { at = with_upper }) (new_upper + 20) node
            (omega (arith, l.bounded, room)),
        store16_ok (record p { at = with_node }) (20 + idx * 2) new_upper
            (omega (arith, l.bounded, room, i_ok)),
      )

  -- On a well-formed page of at most 64 KB, for an index in range whose node is of a known size, and a
  -- larger node that fits between the table and the nodes, `updateEntry` returns true without a panic,
  -- and leaves a well-formed page with as many entries, with the new node as that entry and the bytes
  -- of each other one as they were.
  pub update_entry_grows :
      (old : ℕ)
      → calc_node_size p idx ≡ ok old
      → old < length node
      → (r : Bytes) × (update_entry p idx node ≡ ok (r, true)) × Updated p idx node r
  unfolding update_entry
  update_entry_grows old known larger =
      let n : num_entries p ≡ count p = num_entries-count p l.header_fits in
      (
        moved,
        rw (
          n,
          gt→leb (count p) idx i_ok,
          known,
          gt→leb (length node) old larger,
          free_space-sub p l.header_fits,
          sub_ℕ_lt (upper p) (lower p) (length node - old),
          ge→ltb (upper p) (lower p + (length node - old)) (omega (arith, room)),
          relocate_ok (omega arith),
        ),
        moved-Updated,
      )
