-- ===== src/Page/Header/Validate.antt =====
-- What `validate` accepts.
use gdbx.Base.{ℕ, ◌+◌, ◌*◌, ◌%◌, ◌≤◌, ◌<◌, ◌≡◌, refl, false, none, some, ok, arith, gt→leb, ge→ltb}
use gdbx.Bytes.Loads.{load16_ok}
use gdbx.Page.Shape.{count, offset_of, num_entries-count}
use gdbx.Page.Entries.{
  num_entries, entry_offset, entry_offset_fast, page_entry_offset_direct, page_num_entries_direct,
  page_entry_offset_unchecked,
}
use gdbx.Bytes.{Bytes, word16}
use gdbx.Page.Header.{
  page_header_size, flag_set, unknown_flags, page_large, validate, page_invalid_upper,
}

accepted :
    (p : Bytes) (page_size : ℕ)
    → page_size < 65536
    → word16 p.at 14 < 65516
    → flag_set (word16 p.at 10) page_large ≡ false
    → validate p page_size ≡ none
    → (page_header_size ≤ p.size)
      × (word16 p.at 12 ≤ word16 p.at 14)
      × (word16 p.at 14 + page_header_size ≤ page_size)
unfolding validate
accepted p page_size small low large e = ground arith

-- The offset that the entry has in the page, for each reader of the table, and where its field ends.
abbrev pub IsRead : Bytes → ℕ → ℕ → Type 0
IsRead p page_size idx =
    (entry_offset p idx ≡ ok ((offset_of p idx + page_header_size) % 65536))
    × (entry_offset_fast p idx ≡ entry_offset p idx)
    × (page_entry_offset_direct p idx ≡ entry_offset p idx)
    × (page_entry_offset_unchecked p idx ≡ entry_offset p idx)
    × (page_header_size + idx * 2 + 2 ≤ page_size)

-- For a page size below 64 KB that the slice has at least, a stored upper bound below 65516 and a page
-- other than a large one: where `validate` accepts the page, the four readers of its table read the
-- offset of each entry that `numEntries` counts. None of them panics, all have the same offset modulo
-- 2^16, and the field they read ends inside the page size.
pub validate_sound :
    (p : Bytes) (page_size idx : ℕ)
    → page_size < 65536
    → page_size ≤ p.size
    → word16 p.at 14 < 65516
    → flag_set (word16 p.at 10) page_large ≡ false
    → validate p page_size ≡ none
    → idx < num_entries p
    → IsRead p page_size idx
unfolding entry_offset entry_offset_fast page_entry_offset_direct page_num_entries_direct
    page_entry_offset_unchecked
validate_sound p page_size idx small inside low large e counted =
    let (fits, ordered, bounded) = accepted p page_size small low large e in
    let n : num_entries p ≡ count p = num_entries-count p fits in
    let less : idx < count p = rw (← n) counted in
    let field = load16_ok p (20 + idx * 2) (omega arith) in
    let size = load16_ok p 12 (omega arith) in
    rw (field, size, n, ge→ltb p.size 20 fits, gt→leb (count p) idx less)
      (refl, refl, refl, refl, omega arith)

-- A stored upper bound of 65516 or more passes the test on it by wrapping: for a slice with a whole
-- header, known flags and the table below that bound, `validate` accepts the page for each page size
-- below 64 KB that is at least the wrapped sum, although the bound lies past the page.
pub validate_wraps :
    (p : Bytes) (page_size : ℕ)
    → page_header_size ≤ p.size
    → page_size < 65536
    → flag_set (word16 p.at 10) unknown_flags ≡ false
    → word16 p.at 12 ≤ word16 p.at 14
    → 65516 ≤ word16 p.at 14
    → word16 p.at 14 < 65536
    → word16 p.at 14 + page_header_size ≤ page_size + 65536
    → (validate p page_size ≡ none) × (page_size < word16 p.at 14 + page_header_size)
unfolding validate
validate_wraps p page_size fits small known ordered high word room = ground arith

-- For the page size 65536, which is 0 as a `uint16`, `validate` refuses each page, other than a large
-- one, with a whole header, known flags and a stored upper bound below 65516.
pub validate_64k :
    (p : Bytes)
    → page_header_size ≤ p.size
    → flag_set (word16 p.at 10) unknown_flags ≡ false
    → flag_set (word16 p.at 10) page_large ≡ false
    → word16 p.at 14 < 65516
    → validate p 65536 ≡ some page_invalid_upper
unfolding validate
validate_64k p fits known large low = ground arith
