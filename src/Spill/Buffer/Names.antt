-- ===== src/Spill/Buffer/Names.antt =====
-- The file names of the segments of a spill buffer.
use gdbx.Base.{
  ℕ, zero, suc, ◌+◌, ◌-◌, ◌*◌, ◌/◌, ◌%◌, ◌^◌, ◌<◌, ◌==◌, false, ◌≡◌, refl, ◌∙◌, ap, List, [], ◌∷◌,
  ◌++◌, length, drop, ok, arith,
}
use gdbx.Spill.Buffer.{itoa_loop, itoa, segment_path}

-- The number that the digits continue.
abbrev pub decimal : ℕ → List ℕ → ℕ
decimal n [] = n
decimal n (d ∷ ds) = decimal (n * 10 + (d - 48)) ds

abbrev tens : ℕ → ℕ
tens zero = 1
tens (suc k) = 10 * tens k

digits_of :
    (rounds n : ℕ) (digits : List ℕ)
    → n < tens rounds
    → (r : List ℕ) × (itoa_loop rounds n digits ≡ ok r) × (decimal 0 r ≡ decimal n digits)
unfolding itoa_loop
digits_of zero zero digits h = (digits, refl, refl)
digits_of (suc rounds) zero digits h = (digits, refl, refl)
digits_of zero (suc n) digits h = absurd (omega arith)
digits_of (suc rounds) (suc n) digits h =
    let (r, e, d) = digits_of rounds (suc n / 10) ((48 + suc n % 10) ∷ digits) (omega arith) in
    let q : suc n / 10 * 10 + (48 + suc n % 10 - 48) ≡ suc n = omega arith in
    (r, e, d ∙ ap (λ k. decimal k digits) q)

itoa_lem : (n : ℕ) → n < 10 ^ 20 → (r : List ℕ) × (itoa n ≡ ok r) × (decimal 0 r ≡ n)
unfolding itoa
itoa_lem zero h = (48 ∷ [], refl, refl)
itoa_lem (suc n) h =
    let some_digit : (suc n == 0) ≡ false = ground arith in
    rw some_digit (digits_of 20 (suc n) [] h)

drop-append : (base rest : List ℕ) (c : ℕ) → drop (suc (length base)) (base ++ (c ∷ rest)) ≡ rest
drop-append [] rest c = refl
drop-append (x ∷ base) rest c = drop-append base rest c

drop_past : (base : List ℕ) → drop (suc (length base)) base ≡ []
drop_past [] = refl
drop_past (x ∷ base) = drop_past base

-- The number that a segment's path ends with, 0 for the base path itself.
abbrev pub segment_number : List ℕ → List ℕ → ℕ
segment_number base path = decimal 0 (drop (suc (length base)) path)

-- For an index below 10^20 the segment's path is made without a panic, and the index can be read off
-- it: two segments never share a file.
pub segment_path-number :
    (base : List ℕ) (i : ℕ)
    → i < 10 ^ 20
    → (path : List ℕ) × (segment_path base i ≡ ok path) × (segment_number base path ≡ i)
unfolding segment_path
segment_path-number base zero h = (base, refl, ap (decimal 0) (drop_past base))
segment_path-number base (suc i) h =
    let later : (suc i == 0) ≡ false = ground arith in
    let (digits, e, d) = itoa_lem (suc i) h in
    (base ++ (46 ∷ digits), rw (later, e), ap (decimal 0) (drop-append base digits 46) ∙ d)
