-- ===== src/Page/Edit/Remove.antt =====
-- `removeEntry` on a well-formed page.
use gdbx.Base.{
  ℕ, suc, ◌+◌, ◌-◌, ◌*◌, ◌≤◌, ◌<◌, ◌≡◌, refl, ap, ◌∙◌, true, false, ltb, if◌then◌else◌, ok, arith,
  lt→ltb, gt→leb, Bool-cases, inl, inr, ltb→lt,
}
use gdbx.Bytes.{Bytes, word16, write16, write_move}
use gdbx.Bytes.Loads.{
  load16_ok, store16_ok, copy_within_ok, word16-write16_self, word16-write16_other,
  word16-write_move_other, word16-write_move_inside, read_congr, write16_other, write_move_other,
}
use gdbx.Page.Header.{sub16}
use gdbx.Page.Entries.{num_entries}
use gdbx.Page.Shape.{
  lower, upper, count, offset_of, bytes_from, HasLayout, IsPage, num_entries-count,
}
use gdbx.Page.Edit.{shrink_table, remove_entry}

-- `q` is `p` without its entry `idx`: those behind it are moved down by one, and each entry that
-- stays keeps its bytes. The bytes of the removed node stay where they are, as a hole.
pub record Removed (p : Bytes) (idx : ℕ) (q : Bytes) : Type 0 where
  pub same_size : q.size ≡ p.size
  pub counted : count q + 1 ≡ count p
  pub same_upper : upper q ≡ upper p
  pub before : (i n : ℕ) → i < idx → bytes_from q (offset_of q i) n ≡ bytes_from p (offset_of p i) n
  pub after :
      (i n : ℕ)
      → idx ≤ i
      → i + 1 < count p
      → bytes_from q (offset_of q i) n ≡ bytes_from p (offset_of p (suc i)) n
  pub page : IsPage q

module _ (p : Bytes) (idx : ℕ) (v : IsPage p) (i_ok : idx < count p) where
  l : HasLayout p
  l = v.layout

  closed : ℕ → ℕ
  closed =
      if ltb idx (count p - 1)
      then write_move p.at (20 + idx * 2) (20 + idx * 2 + 2) ((count p - 1 - idx) * 2)
      else p.at

  removed : Bytes
  unfolding closed
  removed = record p { at = write16 closed 12 (lower p - 2) }

  word-closed_before : (j : ℕ) → j + 1 < 20 + idx * 2 → word16 closed j ≡ word16 p.at j
  unfolding closed
  word-closed_before j h = elim (Bool-cases (ltb idx (count p - 1))) [
    | inl e ↦
        rw (e, closed)
          (word16-write_move_other p.at (20 + idx * 2) (20 + idx * 2 + 2) ((count p - 1 - idx) * 2)
            j (inl h))
    | inr e ↦ rw (e, closed)
  ]

  word-closed_after :
      (j : ℕ)
      → idx ≤ j
      → j + 1 < count p
      → word16 closed (20 + j * 2) ≡ word16 p.at (20 + suc j * 2)
  unfolding closed
  word-closed_after j h k =
      let ahead : 20 + idx * 2 + 2 + (20 + j * 2 - (20 + idx * 2)) ≡ 20 + suc j * 2 = omega arith in
      rw (lt→ltb idx (count p - 1) (omega arith), closed)
        (word16-write_move_inside p.at (20 + idx * 2) (20 + idx * 2 + 2) ((count p - 1 - idx) * 2)
            (20 + j * 2) (omega arith) (omega arith)
          ∙ ap (word16 p.at) ahead)

  byte-removed : (x : ℕ) → upper p + 20 ≤ x → removed.at x ≡ p.at x
  unfolding removed
  byte-removed x h =
      write16_other closed 12 (lower p - 2) x (inr (omega arith))
      ∙ elim (Bool-cases (ltb idx (count p - 1))) [
        | inl e ↦
            rw (e, closed)
              (write_move_other p.at (20 + idx * 2) (20 + idx * 2 + 2) ((count p - 1 - idx) * 2) x
                (inr (omega (arith, l.ordered, l.whole_entries))))
        | inr e ↦ rw (e, closed)
      ]

  lower-removed : lower removed ≡ lower p - 2
  unfolding removed
  lower-removed =
      word16-write16_self closed 12 (lower p - 2)
        (omega (arith, l.ordered, l.bounded, l.addressable))

  upper-removed : upper removed ≡ upper p
  unfolding removed
  upper-removed =
      word16-write16_other closed 12 14 (lower p - 2) (inr (omega arith))
      ∙ word-closed_before 14 (omega arith)

  offset-removed_before : (i : ℕ) → i < idx → offset_of removed i ≡ offset_of p i
  unfolding removed
  offset-removed_before i h =
      word16-write16_other closed 12 (20 + i * 2) (lower p - 2) (inr (omega arith))
      ∙ word-closed_before (20 + i * 2) (omega arith)

  offset-removed_after :
      (i : ℕ) → idx ≤ i → i + 1 < count p → offset_of removed i ≡ offset_of p (suc i)
  unfolding removed
  offset-removed_after i h k =
      word16-write16_other closed 12 (20 + i * 2) (lower p - 2) (inr (omega arith))
      ∙ word-closed_after i h k

  read_old : (off n : ℕ) → upper p ≤ off → bytes_from removed off n ≡ bytes_from p off n
  read_old off n h =
      read_congr removed.at p.at (off + 20) (off + 20) n
        (λ k lt. byte-removed (off + 20 + k) (omega arith))

  layout-removed : HasLayout removed
  unfolding removed
  layout-removed = record {
    header_fits = l.header_fits;
    addressable = l.addressable;
    whole_entries = omega (arith, lower-removed, l.whole_entries);
    ordered = omega (arith, lower-removed, upper-removed, l.ordered);
    bounded = omega (arith, upper-removed, l.bounded);
  }

  entries-removed :
      (i : ℕ)
      → i < count removed
      → (upper p ≤ offset_of removed i) × (offset_of removed i + 20 ≤ p.size)
  entries-removed i h =
      let k : i + 1 < count p = omega (arith, lower-removed, l.whole_entries) in
      elim (Bool-cases (ltb i idx)) [
        | inl e ↦ rw (offset-removed_before i (ltb→lt i idx e)) (v.entries i (omega arith))
        | inr e ↦ rw (offset-removed_after i (ground arith) k) (v.entries (suc i) (omega arith))
      ]

  size-removed : removed.size ≡ p.size
  unfolding removed
  size-removed = refl

  removed-Removed : Removed p idx removed
  removed-Removed = record {
    same_size = size-removed;
    counted = omega (arith, lower-removed, l.whole_entries);
    same_upper = upper-removed;
    before = λ i n b.
        rw (offset-removed_before i b) (read_old (offset_of p i) n (v.entries i (omega arith)).0);
    after = λ i n b k.
        rw (offset-removed_after i b k)
          (read_old (offset_of p (suc i)) n (v.entries (suc i) (omega arith)).0);
    page = record {
      layout = layout-removed;
      entries = λ i h. rw (upper-removed, size-removed) (entries-removed i h);
    };
  }

  shrink_ok : {f : ℕ → ℕ} → f ≡ closed → shrink_table (record p { at = f }) 2 ≡ ok removed
  unfolding removed shrink_table
  shrink_ok {f} e =
      let low : word16 closed 12 ≡ lower p = word-closed_before 12 (omega arith) in
      let less : sub16 (lower p) 2 ≡ lower p - 2 =
        omega (arith, l.ordered, l.bounded, l.addressable) in
      rw (e, load16_ok (record p { at = closed }) 12 (omega (arith, l.header_fits)), low, less)
        (store16_ok (record p { at = closed }) 12 (lower p - 2) (omega (arith, l.header_fits)))

  closed_inside :
      ltb idx (count p - 1) ≡ true
      → write_move p.at (20 + idx * 2) (20 + idx * 2 + 2) ((count p - 1 - idx) * 2) ≡ closed
  unfolding closed
  closed_inside e = rw (e, closed)

  closed_last : ltb idx (count p - 1) ≡ false → p.at ≡ closed
  unfolding closed
  closed_last e = rw (e, closed)

  -- On a well-formed page `removeEntry` of an index in range returns true without a panic, and leaves
  -- a well-formed page with one entry less and the others, with their bytes, in order.
  pub remove_entry_lem : (r : Bytes) × (remove_entry p idx ≡ ok (r, true)) × Removed p idx r
  unfolding remove_entry
  remove_entry_lem =
      let n : num_entries p ≡ count p = num_entries-count p l.header_fits in
      (
        removed,
        rw (n, gt→leb (count p) idx i_ok)
            (elim (Bool-cases (ltb idx (count p - 1))) [
              | inl e ↦
                  rw
                    (
                      e,
                      copy_within_ok p (20 + idx * 2) (20 + idx * 2 + 2) ((count p - 1 - idx) * 2)
                          (omega (arith, l.ordered, l.bounded, l.whole_entries))
                          (omega (arith, l.ordered, l.bounded, l.whole_entries)),
                    )
                    (rw (shrink_ok (closed_inside e)))
              | inr e ↦ rw (e, shrink_ok (closed_last e))
            ]),
        removed-Removed,
      )
