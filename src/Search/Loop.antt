-- ===== src/Search/Loop.antt =====
-- The loop of the searches, and the searches around it, where the answers of the comparison fall
-- from `more` to `less` along the indices.
use gdbx.Base.{
  ℕ, zero, suc, ◌+◌, ◌-◌, ◌/◌, ◌≤◌, ◌<◌, ◌≡◌, ◌≢◌, refl, Bool-cases, inl, inr, arith, ltb, ltb→lt,
  leb, Run, ok, ◌⊎◌,
}
use gdbx.Search.{Outcome, hit, gap, spent, search_loop}
use gdbx.Search.Order.{Side, less, same, more}

-- Each side with its equation.
pub side-cases : (s : Side) → (s ≡ less) ⊎ (s ≡ same) ⊎ (s ≡ more)
side-cases less = inl refl
side-cases same = inr (inl refl)
side-cases more = inr (inr refl)

-- What the loop has found between `low` and `high`.
abbrev pub Ends : (ℕ → Side) → ℕ → ℕ → Outcome → Type 0
Ends c low high (hit m) = (low ≤ m) × (m < high) × (c m ≡ same)
Ends c low high (gap l) =
    (low ≤ l)
    × (l ≤ high)
    × ((i : ℕ) → low ≤ i → i < l → c i ≡ more)
    × ((i : ℕ) → l ≤ i → i < high → c i ≡ less)
Ends c low high spent = ⊥

module _ (probe : ℕ → Run Side) (c : ℕ → Side) (n : ℕ)
    (answers : (i : ℕ) → i < n → probe i ≡ ok (c i))
    (falls : (i j : ℕ) → i < j → j < n → c i ≢ more → c j ≡ less) where
  -- What stands before a key that is not greater than the one sought is less than it.
  pub before : (i j : ℕ) → i < j → j < n → c j ≢ less → c i ≡ more
  before i j h k ne = elim (side-cases (c i)) [
    | inl e ↦ absurd (ne (falls i j h k (λ m. cc)))
    | inr (inl e) ↦ absurd (ne (falls i j h k (λ m. cc)))
    | inr (inr e) ↦ e
  ]

  pub up_to : (i j : ℕ) → i ≤ j → j < n → c j ≡ more → c i ≡ more
  up_to i j h k e = elim (Bool-cases (ltb i j)) [
    | inl lt ↦ before i j (ltb→lt i j lt) k (λ m. cc)
    | inr ge ↦ let same_index : i ≡ j = ground arith in rw same_index e
  ]

  pub from_on : (i j : ℕ) → i ≤ j → j < n → c i ≡ less → c j ≡ less
  from_on i j h k e = elim (Bool-cases (ltb i j)) [
    | inl lt ↦ falls i j (ltb→lt i j lt) k (λ m. cc)
    | inr ge ↦ let same_index : j ≡ i = ground arith in rw same_index e
  ]

  -- The bounds found in one half, for the whole.
  Ends-left :
      (low mid high : ℕ) (o : Outcome)
      → mid < high
      → high ≤ n
      → c mid ≡ less
      → Ends c low mid o
      → Ends c low high o
  Ends-left low mid high (hit m) h k e (a, b, d) = (a, omega arith, d)
  Ends-left low mid high (gap l) h k e (a, b, left, right) = (
    a,
    omega arith,
    left,
    λ i le lt. elim (Bool-cases (ltb i mid)) [
      | inl x ↦ right i le (ltb→lt i mid x)
      | inr x ↦ from_on mid i (ground arith) (omega arith) e
    ],
  )
  Ends-left low mid high spent h k e z = z

  Ends-right :
      (low mid high : ℕ) (o : Outcome)
      → low ≤ mid
      → mid < high
      → high ≤ n
      → c mid ≡ more
      → Ends c (mid + 1) high o
      → Ends c low high o
  Ends-right low mid high (hit m) w h k e (a, b, d) = (omega arith, b, d)
  Ends-right low mid high (gap l) w h k e (a, b, left, right) = (
    omega arith,
    b,
    λ i le lt. elim (Bool-cases (leb i mid)) [
      | inl x ↦ up_to i mid (ground arith) (omega arith) e
      | inr x ↦ left i (ground arith) lt
    ],
    right,
  )
  Ends-right low mid high spent w h k e z = z

  -- With fuel for the distance, the loop ends and splits the range.
  pub search_loop-Ends :
      (fuel low high : ℕ)
      → high - low < fuel
      → low ≤ high
      → high ≤ n
      → (o : Outcome) × (search_loop probe fuel low high ≡ ok o) × Ends c low high o
  unfolding search_loop
  search_loop-Ends zero low high f h k = absurd (omega arith)
  search_loop-Ends (suc fuel) low high f h k = elim (Bool-cases (ltb low high)) [
    | inr e ↦ (
      gap low,
      rw e,
      (omega arith, h, λ i a b. absurd (omega arith), λ i a b. absurd (ground arith)),
    )
    | inl e ↦
        let lt : low < high = ltb→lt low high e in
        let mid = (low + high - 1) / 2 in
        let m_lo : low ≤ mid = omega arith in
        let m_hi : mid < high = omega arith in
        let ask : probe mid ≡ ok (c mid) = answers mid (omega arith) in
        elim (side-cases (c mid)) [
          | inl s ↦
              let (o, run, ends) = search_loop-Ends fuel low mid (omega arith) m_lo (omega arith) in
              (o, rw (e, ask, s) run, Ends-left low mid high o m_hi k s ends)
          | inr (inl s) ↦ (hit mid, rw (e, ask, s), (m_lo, m_hi, s))
          | inr (inr s) ↦
              let (o, run, ends) =
                search_loop-Ends fuel (mid + 1) high (omega arith) (omega arith) k in
              (o, rw (e, ask, s) run, Ends-right low mid high o m_lo m_hi k s ends)
        ]
  ]
