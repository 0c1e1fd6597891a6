-- ===== src/Spill/Bits.antt =====
-- Single bits of a word, by the digit recursion, and `bits.TrailingZeros64` of a complement.
use Prim.Native.Nat.{◌^◌}
use native.Mathlib.Nat.{pow-suc}
use gdbx.Base.{
  ℕ, zero, suc, ◌+◌, ◌-◌, ◌*◌, ◌/◌, ◌%◌, ◌≤◌, ◌<◌, ◌≡◌, ◌≢◌, Bool, true, false, ◌==◌, if◌then◌else◌,
  arith, Bool-cases, inl, inr,
}

-- `w & (1 << b) != 0`
unfoldable pub test_bit : ℕ → ℕ → Bool
test_bit w zero = w % 2 == 1
test_bit w (suc b) = test_bit (w / 2) b

-- `w | 1 << b`
unfoldable pub set_bit : ℕ → ℕ → ℕ
set_bit w zero = w / 2 * 2 + 1
set_bit w (suc b) = w % 2 + 2 * set_bit (w / 2) b

-- `w &^ 1 << b`
unfoldable pub clear_bit : ℕ → ℕ → ℕ
clear_bit w zero = w / 2 * 2
clear_bit w (suc b) = w % 2 + 2 * clear_bit (w / 2) b

-- The lowest of `n` bits that is 0, or n: `bits.TrailingZeros64(^w)` for n = 64.
unfoldable pub first_zero : ℕ → ℕ → ℕ
first_zero zero w = 0
first_zero (suc n) w = if w % 2 == 0 then 0 else suc (first_zero n (w / 2))

pub test_bit-set_bit :
    (w b c : ℕ) → test_bit (set_bit w b) c ≡ (if c == b then true else test_bit w c)
unfolding test_bit set_bit
test_bit-set_bit w zero zero = ground arith
test_bit-set_bit w zero (suc c) =
    let e : (w / 2 * 2 + 1) / 2 ≡ w / 2 = omega arith in rw e (ground arith)
test_bit-set_bit w (suc b) zero =
    let e : (w % 2 + 2 * set_bit (w / 2) b) % 2 ≡ w % 2 = omega arith in rw e (ground arith)
test_bit-set_bit w (suc b) (suc c) =
    let e : (w % 2 + 2 * set_bit (w / 2) b) / 2 ≡ set_bit (w / 2) b = omega arith in
    rw e (ground (arith, test_bit-set_bit (w / 2) b c))

pub test_bit-clear_bit :
    (w b c : ℕ) → test_bit (clear_bit w b) c ≡ (if c == b then false else test_bit w c)
unfolding test_bit clear_bit
test_bit-clear_bit w zero zero = ground arith
test_bit-clear_bit w zero (suc c) =
    let e : w / 2 * 2 / 2 ≡ w / 2 = omega arith in rw e (ground arith)
test_bit-clear_bit w (suc b) zero =
    let e : (w % 2 + 2 * clear_bit (w / 2) b) % 2 ≡ w % 2 = omega arith in rw e (ground arith)
test_bit-clear_bit w (suc b) (suc c) =
    let e : (w % 2 + 2 * clear_bit (w / 2) b) / 2 ≡ clear_bit (w / 2) b = omega arith in
    rw e (ground (arith, test_bit-clear_bit (w / 2) b c))

pub set_bit-lt : (n w b : ℕ) → w < 2 ^ n → b < n → set_bit w b < 2 ^ n
unfolding set_bit
set_bit-lt zero w b h k = absurd (omega arith)
set_bit-lt (suc n) w zero h k = omega (arith, pow-suc 2 n)
set_bit-lt (suc n) w (suc b) h k =
    omega (arith, pow-suc 2 n, set_bit-lt n (w / 2) b (omega (arith, pow-suc 2 n, h)) (omega arith))

pub clear_bit-le : (w b : ℕ) → clear_bit w b ≤ w
unfolding clear_bit
clear_bit-le w zero = omega arith
clear_bit-le w (suc b) = omega (arith, clear_bit-le (w / 2) b)

-- A word that is not all ones has a zero below its width, and the lowest is found.
pub first_zero-lt : (n w : ℕ) → w < 2 ^ n → w ≢ 2 ^ n - 1 → first_zero n w < n
unfolding first_zero
first_zero-lt zero w h k = absurd (k (omega arith))
first_zero-lt (suc n) w h k = elim (Bool-cases (w % 2 == 0)) [
  | inl e ↦ rw e (omega arith)
  | inr e ↦ rw e (
      let ih : first_zero n (w / 2) < n =
        first_zero-lt n (w / 2) (omega (arith, pow-suc 2 n, h))
          (λ q. k (let odd : w % 2 ≡ 1 = ground arith in omega (arith, pow-suc 2 n, q, h))) in
      omega arith)
]

pub test_bit-first_zero : (n w : ℕ) → first_zero n w < n → test_bit w (first_zero n w) ≡ false
unfolding first_zero test_bit
test_bit-first_zero zero w h = absurd (omega arith)
test_bit-first_zero (suc n) w h = elim (Bool-cases (w % 2 == 0)) [
  | inl e ↦ rw e (ground arith)
  | inr e ↦ rw e (test_bit-first_zero n (w / 2) (ground arith))
]

pub first_zero-le : (n w b : ℕ) → b < n → test_bit w b ≡ false → first_zero n w ≤ b
unfolding first_zero test_bit
first_zero-le zero w b h e = absurd (omega arith)
first_zero-le (suc n) w zero h e = ground arith
first_zero-le (suc n) w (suc b) h e = ground (arith, first_zero-le n (w / 2) b)

pow_pos : (n : ℕ) → 0 < 2 ^ n
pow_pos zero = omega arith
pow_pos (suc n) = omega (arith, pow-suc 2 n, pow_pos n)

pub test_bit_ones : (n b : ℕ) → b < n → test_bit (2 ^ n - 1) b ≡ true
unfolding test_bit
test_bit_ones zero b h = absurd (omega arith)
test_bit_ones (suc n) zero h =
    let e : (2 ^ suc n - 1) % 2 ≡ 1 = omega (arith, pow-suc 2 n, pow_pos n) in rw e
test_bit_ones (suc n) (suc b) h =
    let e : (2 ^ suc n - 1) / 2 ≡ 2 ^ n - 1 = omega (arith, pow-suc 2 n) in
    rw e (test_bit_ones n b (omega arith))

pub not_ones : (w b : ℕ) → b < 64 → test_bit w b ≡ false → w ≢ 2 ^ 64 - 1
not_ones w b h e q = let z : test_bit w b ≡ true = rw q (test_bit_ones 64 b h) in cc
