-- ===== src/Page/Header.antt =====
-- The page header and its checks: page.go, `pageHeader`, `init`, `validate`.
pub mod Init
pub mod Validate
use gdbx.Base.{
  ℕ, ◌+◌, ◌-◌, ◌*◌, ◌/◌, ◌%◌, ◌^◌, Bool, true, false, not, ltb, ◌==◌, if◌then◌else◌, bit_and,
  Option, none, some, Run, ok, panic, ◌>>=◌, checked,
}
use gdbx.Bytes.{Bytes, load8, load16, word16, word32, word64, store64, store32}

abbrev pub page_header_size : ℕ
page_header_size = 20

abbrev pub page_branch : ℕ
page_branch = 0x01

abbrev pub page_leaf : ℕ
page_leaf = 0x02

abbrev pub page_large : ℕ
page_large = 0x04

abbrev pub page_meta : ℕ
page_meta = 0x08

abbrev pub page_dupfix : ℕ
page_dupfix = 0x20

abbrev pub page_sub_p : ℕ
page_sub_p = 0x40

-- pageBranch | pageLeaf | pageLarge | pageMeta | pageDupfix | pageSubP
abbrev pub page_type_mask : ℕ
page_type_mask = 0x6f

-- The bits of a `uint16` that `validate` refuses: the complement of
-- pageTypeMask | pageSpilled | pageLoose | pageFrozen | pageLegacyDirty.
abbrev pub unknown_flags : ℕ
unknown_flags = 0x1f80

abbrev pub invalid_pgno : ℕ
invalid_pgno = 0xffff_ffff

-- `f & mask != 0`
unfoldable pub flag_set : ℕ → ℕ → Bool
flag_set f mask = not (bit_and f mask == 0)

-- a - b in `uint16`, for b ≤ 65536
abbrev pub sub16 : ℕ → ℕ → ℕ
sub16 a b = (a + 65536 - b) % 65536

abbrev pub add16 : ℕ → ℕ → ℕ
add16 a b = (a + b) % 65536

-- The fields of `pageHeader` as they stand in the first 20 bytes.
pub record PageHeader : Type 0 where
  pub txnid : ℕ
  pub dupfix_ksize : ℕ
  pub flags : ℕ
  pub lower : ℕ
  pub upper : ℕ
  pub page_no : ℕ

-- `none` is the nil pointer of a slice that is too short.
unfoldable pub header : Bytes → Option PageHeader
header p =
    if ltb p.size page_header_size
    then none
    else some (record {
      txnid = word64 p.at 0;
      dupfix_ksize = word16 p.at 8;
      flags = word16 p.at 10;
      lower = word16 p.at 12;
      upper = word16 p.at 14;
      page_no = word32 p.at 16;
    })

-- A field read through the pointer that `header` returns: nil panics.
abbrev pub deref {ℓ} : {A : Type ℓ} → Option A → Run A
deref none = panic
deref (some h) = ok h

unfoldable pub page_no : Bytes → Run ℕ
unfolding header
page_no p = do h ← deref (header p); ok h.page_no

unfoldable pub page_type : Bytes → Run ℕ
unfolding header
page_type p = do h ← deref (header p); ok (bit_and h.flags page_type_mask)

unfoldable pub is_branch : Bytes → Run Bool
unfolding header
is_branch p = do h ← deref (header p); ok (flag_set h.flags page_branch)

unfoldable pub is_leaf : Bytes → Run Bool
unfolding header
is_leaf p = do h ← deref (header p); ok (flag_set h.flags page_leaf)

unfoldable pub is_large : Bytes → Run Bool
unfolding header
is_large p = do h ← deref (header p); ok (flag_set h.flags page_large)

unfoldable pub is_meta : Bytes → Run Bool
unfolding header
is_meta p = do h ← deref (header p); ok (flag_set h.flags page_meta)

unfoldable pub is_dupfix : Bytes → Run Bool
unfolding header
is_dupfix p = do h ← deref (header p); ok (flag_set h.flags page_dupfix)

unfoldable pub is_sub_page : Bytes → Run Bool
unfolding header
is_sub_page p = do h ← deref (header p); ok (flag_set h.flags page_sub_p)

-- `uint32(h.Lower) | (uint32(h.Upper) << 16)`
unfoldable pub overflow_pages : Bytes → Run ℕ
unfolding header is_large
overflow_pages p = do
  large ← is_large p
  h ← deref (header p)
  ok (if large then h.lower + 65536 * h.upper else 1)

-- The two 16-bit halves stand side by side, at offset 12.
unfoldable pub set_overflow_pages : Bytes → ℕ → Run Bytes
unfolding header store32
set_overflow_pages p n = do _ ← deref (header p); store32 p 12 n

-- `_ = d[19]` comes first. The second write packs dupfix_ksize = 0, flags, lower = 0 and upper.
unfoldable pub init : Bytes → ℕ → ℕ → ℕ → Run Bytes
init p pno flags page_size = do
  _ ← load8 p 19
  d0 ← store64 p 0 0
  d1 ← store64 d0 8 (flags * 2 ^ 16 + sub16 page_size page_header_size * 2 ^ 48)
  store32 d1 16 pno

pub data PageError : Type 0 where
  page_too_small page_invalid_flags page_invalid_upper page_invalid_bounds : PageError

-- `none` is the nil error. Both sides of the test on `Upper` are `uint16`.
unfoldable pub validate : Bytes → ℕ → Option PageError
unfolding header
validate p page_size = elim (header p) [
  | none ↦ some page_too_small
  | some h ↦
      if flag_set h.flags unknown_flags
      then some page_invalid_flags
      else if flag_set h.flags page_large
      then none
      else if ltb (page_size % 65536) (add16 h.upper page_header_size)
      then some page_invalid_upper
      else if ltb h.upper h.lower
      then some page_invalid_bounds
      else none
]

-- Without the pointer: a slice that is too short has no flags.
unfoldable pub page_flags_direct : Bytes → Run ℕ
unfolding load16
page_flags_direct d = if ltb d.size page_header_size then ok 0 else load16 d 10

unfoldable pub page_is_leaf_direct : Bytes → Run Bool
unfolding page_flags_direct
page_is_leaf_direct d = do f ← page_flags_direct d; ok (flag_set f page_leaf)

unfoldable pub page_is_branch_direct : Bytes → Run Bool
unfolding page_flags_direct
page_is_branch_direct d = do f ← page_flags_direct d; ok (flag_set f page_branch)

unfoldable pub is_branch_fast : Bytes → Run Bool
unfolding load16
is_branch_fast p = do f ← load16 p 10; ok (flag_set f page_branch)

unfoldable pub is_leaf_fast : Bytes → Run Bool
unfolding load16
is_leaf_fast p = do f ← load16 p 10; ok (flag_set f page_leaf)
