-- ===== src/Page/Edit/Place.antt =====
-- What `insertEntry` leaves in a page that has room for the node.
use gdbx.Base.{
  ℕ, suc, ◌+◌, ◌-◌, ◌*◌, ◌%◌, ◌≤◌, ◌<◌, ◌≡◌, ap, ◌∙◌, true, false, ltb, if◌then◌else◌, List, ok,
  length, arith, lt→ltb, ge→ltb, Bool-cases, inl, inr, ◌⊎◌, ◌>>=◌,
}
use gdbx.Bytes.{Bytes, word16, write16, write_list, write_move, load16, store16}
use gdbx.Bytes.Loads.{
  load16_ok, store16_ok, copy_list_ok, copy_within_ok, word16-write16_self, word16-write16_other,
  word16-write_list_other, word16-write_move_other, word16-write_move_inside,
}
use gdbx.Page.Header.{page_header_size, add16, sub16}
use gdbx.Page.Shape.{lower, upper, count, HasLayout}
use gdbx.Page.Edit.{place_entry}

-- The table behind `idx` moved up by one entry.
abbrev pub shift_table : (ℕ → ℕ) → ℕ → ℕ → ℕ → ℕ
shift_table f n idx =
    if ltb idx n
    then write_move f (page_header_size + idx * 2 + 2) (page_header_size + idx * 2) ((n - idx) * 2)
    else f

-- The page behind each of the five writes.
module _ (p : Bytes) (idx : ℕ) (node : List ℕ) where
  unfoldable pub new_upper : ℕ
  new_upper = upper p - length node

  unfoldable pub with_upper : ℕ → ℕ
  unfolding new_upper
  with_upper = write16 p.at 14 new_upper

  unfoldable pub with_node : ℕ → ℕ
  unfolding with_upper
  with_node = write_list with_upper (new_upper + page_header_size) (length node) node

  unfoldable pub with_gap : ℕ → ℕ
  unfolding with_node
  with_gap = shift_table with_node (count p) idx

  unfoldable pub with_entry : ℕ → ℕ
  unfolding with_gap
  with_entry = write16 with_gap (page_header_size + idx * 2) new_upper

  unfoldable pub with_lower : ℕ → ℕ
  unfolding with_entry
  with_lower = write16 with_entry 12 (lower p + 2)

  unfoldable pub placed : Bytes
  unfolding with_lower
  placed = record p { at = with_lower }

module _ (p : Bytes) (idx : ℕ) (node : List ℕ) (l : HasLayout p) (i_ok : idx ≤ count p)
    (filled : 0 < length node) (room : lower p + 2 + length node ≤ upper p) where
  pub word-with_node :
      (j : ℕ)
      → (j + 1 < 14) ⊎ ((15 < j) × (j + 1 < new_upper p idx node + 20))
      → word16 (with_node p idx node) j ≡ word16 p.at j
  unfolding with_node
  word-with_node j h =
      word16-write_list_other (with_upper p idx node) (new_upper p idx node + 20) (length node) node
        j (ground arith)
      ∙ word16-write16_other p.at 14 j (new_upper p idx node) (ground arith)

  pub upper-with_node : word16 (with_node p idx node) 14 ≡ new_upper p idx node
  unfolding with_node
  upper-with_node =
      word16-write_list_other (with_upper p idx node) (new_upper p idx node + 20) (length node) node
        14 (inl (omega (arith, room, i_ok)))
      ∙ word16-write16_self p.at 14 (new_upper p idx node) (omega (arith, l.bounded, l.addressable))

  pub word-with_gap :
      (j : ℕ)
      → j + 1 < 20 + idx * 2 + 2
      → word16 (with_gap p idx node) j ≡ word16 (with_node p idx node) j
  unfolding with_gap
  word-with_gap j h = elim (Bool-cases (ltb idx (count p))) [
    | inl e ↦
        rw (e, with_gap)
          (word16-write_move_other (with_node p idx node) (20 + idx * 2 + 2) (20 + idx * 2)
            ((count p - idx) * 2) j (inl h))
    | inr e ↦ rw (e, with_gap)
  ]

  pub entry-with_gap :
      (j : ℕ)
      → idx ≤ j
      → j < count p
      → word16 (with_gap p idx node) (20 + suc j * 2) ≡ word16 (with_node p idx node) (20 + j * 2)
  unfolding with_gap
  entry-with_gap j h k =
      let back : 20 + idx * 2 + (20 + suc j * 2 - (20 + idx * 2 + 2)) ≡ 20 + j * 2 = omega arith in
      rw (lt→ltb idx (count p) (omega arith), with_gap)
        (word16-write_move_inside (with_node p idx node) (20 + idx * 2 + 2) (20 + idx * 2)
            ((count p - idx) * 2) (20 + suc j * 2) (omega arith) (omega arith)
          ∙ ap (word16 (with_node p idx node)) back)

  lower-with_entry : word16 (with_entry p idx node) 12 ≡ lower p
  unfolding with_entry
  lower-with_entry =
      word16-write16_other (with_gap p idx node) (20 + idx * 2) 12 (new_upper p idx node)
        (inl (omega arith))
      ∙ word-with_gap 12 (omega arith)
      ∙ word-with_node 12 (inl (omega arith))

  gap_of :
      ltb idx (count p) ≡ true
      → write_move (with_node p idx node) (20 + idx * 2 + 2) (20 + idx * 2) ((count p - idx) * 2)
        ≡ with_gap p idx node
  unfolding with_gap
  gap_of e = rw (e, with_gap)

  gap_of_last : ltb idx (count p) ≡ false → with_node p idx node ≡ with_gap p idx node
  unfolding with_gap
  gap_of_last e = rw (e, with_gap)

  -- The writes to the table and to `lower`.
  last_writes :
      {f : ℕ → ℕ}
      → f ≡ with_gap p idx node
      → (store16 (record p { at = f }) (20 + idx * 2) (new_upper p idx node) >>= λ p4.
          load16 p4 12 >>= λ low. store16 p4 12 (add16 low 2))
        ≡ ok (placed p idx node)
  unfolding placed
  last_writes {f} e =
      let low2 : add16 (lower p) 2 ≡ lower p + 2 =
        omega (arith, l.ordered, l.bounded, l.addressable) in
      rw
        (
          e,
          store16_ok (record p { at = with_gap p idx node }) (20 + idx * 2) (new_upper p idx node)
              (omega (arith, l.bounded, room, i_ok)),
          load16_ok (record p { at = with_entry p idx node }) 12 (omega (arith, l.header_fits)),
          lower-with_entry,
          low2,
        )
        (store16_ok (record p { at = with_entry p idx node }) 12 (lower p + 2)
          (omega (arith, l.header_fits)))

  -- With room for the node the writes succeed, and leave the page `placed`.
  pub place_entry_ok : place_entry p (count p) idx node ≡ ok (placed p idx node)
  unfolding place_entry with_node
  place_entry_ok =
      let nu : sub16 (upper p) (length node % 65536) ≡ new_upper p idx node =
        omega (arith, l.bounded, l.addressable, room) in
      let at_nu : add16 (new_upper p idx node) 20 ≡ new_upper p idx node + 20 =
        omega (arith, l.bounded, l.addressable, room) in
      rw
        (
          ge→ltb p.size 20 l.header_fits,
          nu,
          store16_ok p 14 (new_upper p idx node) (omega (arith, l.header_fits)),
          at_nu,
          copy_list_ok (record p { at = with_upper p idx node }) (new_upper p idx node + 20) node
              (omega (arith, l.bounded, room)),
        )
        (elim (Bool-cases (ltb idx (count p))) [
          | inl e ↦
              rw
                (
                  e,
                  copy_within_ok (record p { at = with_node p idx node }) (20 + idx * 2 + 2)
                      (20 + idx * 2) ((count p - idx) * 2) (omega (arith, l.bounded, room, i_ok))
                      (omega (arith, l.bounded, room, i_ok)),
                )
                (last_writes (gap_of e))
          | inr e ↦ rw e (last_writes (gap_of_last e))
        ])
