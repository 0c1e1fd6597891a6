-- ===== src/Page/Edit/Truncate.antt =====
-- `removeEntriesFrom` on a well-formed page.
use gdbx.Base.{ℕ, ◌+◌, ◌-◌, ◌*◌, ◌%◌, ◌<◌, ◌≡◌, refl, ok, arith, gt→leb, inr}
use gdbx.Bytes.{Bytes, write16, word16}
use gdbx.Bytes.Loads.{
  load16_ok, store16_ok, word16-write16_self, word16-write16_other, read_congr, write16_other,
}
use gdbx.Page.Header.{sub16}
use gdbx.Page.Entries.{num_entries}
use gdbx.Page.Shape.{lower, count, offset_of, bytes_from, HasLayout, IsPage, num_entries-count}
use gdbx.Page.Edit.{shrink_table, remove_entries_from}

module _ (p : Bytes) (start : ℕ) (v : IsPage p) (start_ok : start < count p) where
  l : HasLayout p
  l = v.layout

  truncated : Bytes
  truncated = record p { at = write16 p.at 12 (start * 2) }

  word-truncated : (j : ℕ) → 13 < j → word16 truncated.at j ≡ word16 p.at j
  unfolding truncated
  word-truncated j h = word16-write16_other p.at 12 j (start * 2) (inr h)

  lower-truncated : lower truncated ≡ start * 2
  unfolding truncated
  lower-truncated =
      word16-write16_self p.at 12 (start * 2)
        (omega (arith, l.ordered, l.bounded, l.addressable, l.whole_entries))

  read-truncated : (off n : ℕ) → bytes_from truncated off n ≡ bytes_from p off n
  unfolding truncated
  read-truncated off n =
      read_congr truncated.at p.at (off + 20) (off + 20) n
        (λ k lt. write16_other p.at 12 (start * 2) (off + 20 + k) (inr (omega arith)))

  truncated-IsPage : IsPage truncated
  unfolding truncated
  truncated-IsPage = record {
    layout = record {
      header_fits = l.header_fits;
      addressable = l.addressable;
      whole_entries = omega (arith, lower-truncated);
      ordered = omega (arith, lower-truncated, word-truncated 14, l.ordered, l.whole_entries);
      bounded = omega (arith, word-truncated 14, l.bounded);
    };
    entries = λ i h. omega (
      arith,
      lower-truncated,
      word-truncated 14,
      word-truncated (20 + i * 2),
      v.entries i (omega (arith, lower-truncated)),
    );
  }

  -- On a well-formed page `removeEntriesFrom` of an index in range leaves, without a panic, a
  -- well-formed page with exactly the entries below that index, and their bytes.
  pub remove_entries_from_lem :
      (r : Bytes) × (remove_entries_from p start ≡ ok r)
      × (count r ≡ start)
      × ((i n : ℕ) → i < start → bytes_from r (offset_of r i) n ≡ bytes_from p (offset_of p i) n)
      × IsPage r
  unfolding remove_entries_from shrink_table
  remove_entries_from_lem =
      let n : num_entries p ≡ count p = num_entries-count p l.header_fits in
      let less : sub16 (lower p) ((count p - start) * 2 % 65536) ≡ start * 2 =
        omega (arith, l.ordered, l.bounded, l.addressable, l.whole_entries) in
      (
        truncated,
        rw (n, gt→leb (count p) start start_ok, load16_ok p 12 (omega (arith, l.header_fits)), less)
            (rw (store16_ok p 12 (start * 2) (omega (arith, l.header_fits)))
              (unfold truncated in refl)),
        omega (arith, lower-truncated),
        λ i k h. rw (word-truncated (20 + i * 2) (omega arith)) (read-truncated (offset_of p i) k),
        truncated-IsPage,
      )
