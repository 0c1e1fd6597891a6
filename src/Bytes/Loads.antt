-- ===== src/Bytes/Loads.antt =====
-- What the reads and writes of bytes do when they stay inside the slice.
use gdbx.Base.{
  ℕ, zero, suc, ◌+◌, ◌-◌, ◌≤◌, ◌<◌, ◌≡◌, refl, ap, ◌∙◌, List, [], ◌∷◌, arith, length, get_or, ok,
  panic, min, lt→ltb, le→leb, ◌⊎◌,
}
use gdbx.Bytes.{
  Bytes, load8, load16, load32, slice, read, word16, word32, write8, write16, write32, write64,
  store8, store16, store32, store64, copy_list, copy_within, write_list, write_move,
}

module _ (d : Bytes) where
  pub load8_ok : (i : ℕ) → i < d.size → load8 d i ≡ ok (d.at i)
  unfolding load8
  load8_ok i h = ground arith

  pub load16_ok : (i : ℕ) → i + 1 < d.size → load16 d i ≡ ok (word16 d.at i)
  unfolding load16
  load16_ok i h = ground arith

  pub load32_ok : (i : ℕ) → i + 3 < d.size → load32 d i ≡ ok (word32 d.at i)
  unfolding load32
  load32_ok i h = ground arith

  pub slice_ok : (a b : ℕ) → a ≤ b → b ≤ d.size → slice d a b ≡ ok (read d.at a (b - a))
  unfolding slice
  slice_ok a b h k = ground arith

  pub slice_panics : (a b : ℕ) → b < a → slice d a b ≡ panic
  unfolding slice
  slice_panics a b h = ground arith

  pub store8_ok : (i v : ℕ) → i < d.size → store8 d i v ≡ ok (record d { at = write8 d.at i v })
  unfolding store8
  store8_ok i v h = ground arith

  pub store16_ok :
      (i v : ℕ) → i + 1 < d.size → store16 d i v ≡ ok (record d { at = write16 d.at i v })
  unfolding store16
  store16_ok i v h = ground arith

  pub store32_ok :
      (i v : ℕ) → i + 3 < d.size → store32 d i v ≡ ok (record d { at = write32 d.at i v })
  unfolding store32
  store32_ok i v h = ground arith

  pub store64_ok :
      (i v : ℕ) → i + 7 < d.size → store64 d i v ≡ ok (record d { at = write64 d.at i v })
  unfolding store64
  store64_ok i v h = ground arith

  pub copy_list_ok :
      (a : ℕ) (src : List ℕ)
      → a + length src ≤ d.size
      → copy_list d a src ≡ ok (record d { at = write_list d.at a (length src) src })
  unfolding copy_list
  copy_list_ok a src h =
      let e : min (length src) (d.size - a) ≡ length src = omega arith in
      rw (e, le→leb a d.size (omega arith))

  pub copy_within_ok :
      (dst src n : ℕ)
      → dst + n ≤ d.size
      → src + n ≤ d.size
      → copy_within d dst src n ≡ ok (record d { at = write_move d.at dst src n })
  unfolding copy_within
  copy_within_ok dst src n h k =
      let e : min n (d.size - dst) ≡ n = omega arith in
      rw (e, le→leb dst d.size (omega arith), le→leb (src + n) d.size k)

-- What a write of two bytes leaves to be read.
pub word16-write16_self : (f : ℕ → ℕ) (i v : ℕ) → v < 65536 → word16 (write16 f i v) i ≡ v
word16-write16_self f i v h = ground arith

pub word16-write16_other :
    (f : ℕ → ℕ) (i j v : ℕ) → (j + 1 < i) ⊎ (i + 1 < j) → word16 (write16 f i v) j ≡ word16 f j
word16-write16_other f i j v h = ground arith

pub word32-write32_self : (f : ℕ → ℕ) (i v : ℕ) → v < 4294967296 → word32 (write32 f i v) i ≡ v
word32-write32_self f i v h = ground arith

-- Reading depends on the bytes of the range alone.
pub read_congr :
    (f g : ℕ → ℕ) (a b n : ℕ) → ((k : ℕ) → k < n → f (a + k) ≡ g (b + k)) → read f a n ≡ read g b n
unfolding read
read_congr f g a b zero h = refl
read_congr f g a b (suc n) h = ground (
  arith,
  h 0 (omega arith),
  read_congr f g (a + 1) (b + 1) n (λ k lt. rw (shift a k, shift b k) (h (suc k) (omega arith))),
)
  where
    shift : (x k : ℕ) → x + 1 + k ≡ x + suc k
    shift x k = omega arith

pub length-read : (f : ℕ → ℕ) (a n : ℕ) → length (read f a n) ≡ n
unfolding read
length-read f a zero = refl
length-read f a (suc n) = ap suc (length-read f (a + 1) n)

pub read-get_or :
    (f : ℕ → ℕ) (a n : ℕ) (src : List ℕ)
    → length src ≡ n
    → ((k : ℕ) → k < n → f (a + k) ≡ get_or src k 0)
    → read f a n ≡ src
unfolding read
read-get_or f a zero [] e h = refl
read-get_or f a zero (x ∷ src) e h = absurd (omega arith)
read-get_or f a (suc n) [] e h = absurd (omega arith)
read-get_or f a (suc n) (x ∷ src) e h = ground (
  arith,
  h 0 (omega arith),
  read-get_or f (a + 1) n src (omega arith) (λ k lt. rw (shift k) (h (suc k) (omega arith))),
)
  where
    shift : (k : ℕ) → a + 1 + k ≡ a + suc k
    shift k = omega arith

pub get_or-read : (f : ℕ → ℕ) (a n k : ℕ) → k < n → get_or (read f a n) k 0 ≡ f (a + k)
unfolding read
get_or-read f a zero k h = absurd (omega arith)
get_or-read f a (suc n) zero h = ap f (omega arith)
get_or-read f a (suc n) (suc k) h = get_or-read f (a + 1) n k (omega arith) ∙ ap f (omega arith)

pub word16-write_list_other :
    (f : ℕ → ℕ) (a n : ℕ) (src : List ℕ) (j : ℕ)
    → (j + 1 < a) ⊎ (a + n ≤ j)
    → word16 (write_list f a n src) j ≡ word16 f j
word16-write_list_other f a n src j h = ground arith

pub word16-write_move_other :
    (f : ℕ → ℕ) (dst src n j : ℕ)
    → (j + 1 < dst) ⊎ (dst + n ≤ j)
    → word16 (write_move f dst src n) j ≡ word16 f j
word16-write_move_other f dst src n j h = ground arith

pub word16-write_move_inside :
    (f : ℕ → ℕ) (dst src n j : ℕ)
    → dst ≤ j
    → j + 1 < dst + n
    → word16 (write_move f dst src n) j ≡ word16 f (src + (j - dst))
word16-write_move_inside f dst src n j h k =
    let e : src + (j + 1 - dst) ≡ src + (j - dst) + 1 = omega arith in
    rw (
      le→leb dst j h,
      le→leb dst (j + 1) (omega arith),
      lt→ltb j (dst + n) (omega arith),
      lt→ltb (j + 1) (dst + n) k,
      e,
    )

pub write16_other : (f : ℕ → ℕ) (i v x : ℕ) → (x < i) ⊎ (i + 1 < x) → write16 f i v x ≡ f x
write16_other f i v x h = ground arith

pub write_move_other :
    (f : ℕ → ℕ) (dst src n x : ℕ) → (x < dst) ⊎ (dst + n ≤ x) → write_move f dst src n x ≡ f x
write_move_other f dst src n x h = ground arith

pub write_list_other :
    (f : ℕ → ℕ) (a n : ℕ) (src : List ℕ) (x : ℕ)
    → (x < a) ⊎ (a + n ≤ x)
    → write_list f a n src x ≡ f x
write_list_other f a n src x h = ground arith

pub write_list_inside :
    (f : ℕ → ℕ) (a n : ℕ) (src : List ℕ) (k : ℕ)
    → k < n
    → write_list f a n src (a + k) ≡ get_or src k 0
write_list_inside f a n src k h =
    let e : a + k - a ≡ k = omega arith in
    rw (le→leb a (a + k) (omega arith), lt→ltb (a + k) (a + n) (omega arith), e)
