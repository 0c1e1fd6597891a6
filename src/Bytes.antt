-- ===== src/Bytes.antt =====
-- Byte slices of the program: `[]byte`, with the little-endian reads and writes of endian_le.go and
-- Go's `copy`.
pub mod Loads
use gdbx.Base.{
  ℕ, zero, suc, ◌+◌, ◌-◌, ◌*◌, ◌/◌, ◌%◌, ◌≤◌, ◌<◌, ◌≡◌, refl, Bool, true, false, ◌&&◌, List, [],
  ◌∷◌, arith, ltb, leb, ◌==◌, if◌then◌else◌, length, get_or, Run, ok, panic, checked, min,
}

-- A slice is its length and its bytes; `at` past `size` is never read by a run.
pub record Bytes : Type 0 where
  pub size : ℕ
  pub at : ℕ → ℕ

-- Every cell holds a byte.
abbrev pub IsBytes : Bytes → Type 0
IsBytes d = (i : ℕ) → d.at i < 256

unfoldable pub load8 : Bytes → ℕ → Run ℕ
load8 d i = checked (ltb i d.size) (d.at i)

-- The value of two bytes, low byte first.
abbrev pub word16 : (ℕ → ℕ) → ℕ → ℕ
word16 f i = f i + 256 * f (i + 1)

abbrev pub word32 : (ℕ → ℕ) → ℕ → ℕ
word32 f i = f i + 256 * f (i + 1) + 65536 * f (i + 2) + 16777216 * f (i + 3)

unfoldable pub load16 : Bytes → ℕ → Run ℕ
load16 d i = checked (ltb (i + 1) d.size) (word16 d.at i)

unfoldable pub load32 : Bytes → ℕ → Run ℕ
load32 d i = checked (ltb (i + 3) d.size) (word32 d.at i)

-- The `n` bytes from `a` on.
unfoldable pub read : (ℕ → ℕ) → ℕ → ℕ → List ℕ
read f a zero = []
read f a (suc n) = f a ∷ read f (a + 1) n

-- `d[a:b]`
unfoldable pub slice : Bytes → ℕ → ℕ → Run (List ℕ)
slice d a b = checked (leb a b && leb b d.size) (read d.at a (b - a))

abbrev pub write8 : (ℕ → ℕ) → ℕ → ℕ → ℕ → ℕ
write8 f i v j = if j == i then v % 256 else f j

-- `d[i] = byte(v)`
unfoldable pub store8 : Bytes → ℕ → ℕ → Run Bytes
store8 d i v = checked (ltb i d.size) (record d { at = write8 d.at i v })

abbrev pub write16 : (ℕ → ℕ) → ℕ → ℕ → ℕ → ℕ
write16 f i v j = if j == i then v % 256 else if j == i + 1 then v / 256 % 256 else f j

-- `putUint16LE(d[i:], v)`
unfoldable pub store16 : Bytes → ℕ → ℕ → Run Bytes
store16 d i v = checked (ltb (i + 1) d.size) (record d { at = write16 d.at i v })

abbrev pub write32 : (ℕ → ℕ) → ℕ → ℕ → ℕ → ℕ
write32 f i v = write16 (write16 f i (v % 65536)) (i + 2) (v / 65536)

-- `putUint32LE(d[i:], v)`
unfoldable pub store32 : Bytes → ℕ → ℕ → Run Bytes
store32 d i v = checked (ltb (i + 3) d.size) (record d { at = write32 d.at i v })

abbrev pub word64 : (ℕ → ℕ) → ℕ → ℕ
word64 f i = word32 f i + 0x1_0000_0000 * word32 f (i + 4)

abbrev pub write64 : (ℕ → ℕ) → ℕ → ℕ → ℕ → ℕ
write64 f i v = write32 (write32 f i (v % 0x1_0000_0000)) (i + 4) (v / 0x1_0000_0000)

-- `putUint64LE(d[i:], v)`
unfoldable pub store64 : Bytes → ℕ → ℕ → Run Bytes
store64 d i v = checked (ltb (i + 7) d.size) (record d { at = write64 d.at i v })

abbrev pub write_list : (ℕ → ℕ) → ℕ → ℕ → List ℕ → ℕ → ℕ
write_list f a n src j = if leb a j && ltb j (a + n) then get_or src (j - a) 0 else f j

-- `copy(d[a:], src)`: as many bytes as there is room for.
unfoldable pub copy_list : Bytes → ℕ → List ℕ → Run Bytes
copy_list d a src =
    checked (leb a d.size) (record d { at = write_list d.at a (min (length src) (d.size - a)) src })

abbrev pub write_move : (ℕ → ℕ) → ℕ → ℕ → ℕ → ℕ → ℕ
write_move f dst src n j = if leb dst j && ltb j (dst + n) then f (src + (j - dst)) else f j

-- `copy(d[dst:], d[src:src+n])`: the regions may overlap, and the bytes read are the old ones.
unfoldable pub copy_within : Bytes → ℕ → ℕ → ℕ → Run Bytes
copy_within d dst src n =
    checked (leb dst d.size && leb (src + n) d.size)
      (record d { at = write_move d.at dst src (min n (d.size - dst)) })
