-- ===== src/Search/Bounds.antt =====
-- What the two searches return, where the answers of the comparison fall along the indices.
use gdbx.Base.{
  ℕ, ◌-◌, ◌≤◌, ◌<◌, ◌≡◌, ◌≢◌, refl, Bool-cases, inl, inr, arith, ltb, leb, ltb→lt, gt→leb, false,
  Run, ok, some,
}
use gdbx.Search.{Outcome, hit, gap, spent, search_leaf, search_branch, leaf_result, branch_result}
use gdbx.Search.Order.{Side, less, same, more}
use gdbx.Search.Loop.{side-cases, Ends, search_loop-Ends, before, up_to, from_on}

-- `r` is the first of `n` indices whose answer is not `more`.
abbrev pub IsLowerBound : (ℕ → Side) → ℕ → ℕ → Type 0
IsLowerBound c n r =
    (r ≤ n) × ((i : ℕ) → i < r → c i ≡ more) × ((i : ℕ) → r ≤ i → i < n → c i ≢ more)

-- `r` is the last of `n` children whose separator is not greater; the first child has none.
abbrev pub IsChildFor : (ℕ → Side) → ℕ → ℕ → Type 0
IsChildFor c n r =
    (r < n) × ((i : ℕ) → 1 ≤ i → i ≤ r → c i ≢ less) × ((i : ℕ) → r < i → i < n → c i ≡ less)

module _ (probe : ℕ → Run Side) (c : ℕ → Side) (n : ℕ)
    (answers : (i : ℕ) → i < n → probe i ≡ ok (c i))
    (falls : (i j : ℕ) → i < j → j < n → c i ≢ more → c j ≡ less) where
  -- The bound that the loop leaves in the first n - 1 indices, where the last is greater.
  leaf_end :
      (o : Outcome)
      → 0 < n
      → c (n - 1) ≡ less
      → Ends c 0 (n - 1) o
      → (r : ℕ) × (leaf_result o ≡ some r) × IsLowerBound c n r
  leaf_end (hit m) pos e (a, b, d) = (
    m,
    refl,
    (
      omega arith,
      λ i h. before probe c n answers falls i m h (omega arith) (λ x. cc),
      λ i h k x. elim (Bool-cases (ltb m i)) [
        | inl lt ↦ let y : c i ≡ less = falls m i (ltb→lt m i lt) k (λ z. cc) in cc
        | inr ge ↦
            let same_index : i ≡ m = ground arith in let y : c i ≡ same = rw same_index d in cc
      ],
    ),
  )
  leaf_end (gap l) pos e (a, b, left, right) = (
    l,
    refl,
    (
      omega arith,
      λ i h. left i (omega arith) h,
      λ i h k x. elim (Bool-cases (ltb i (n - 1))) [
        | inl lt ↦ let y : c i ≡ less = right i h (ltb→lt i (n - 1) lt) in cc
        | inr ge ↦ let last : i ≡ n - 1 = ground arith in let y : c i ≡ less = rw last e in cc
      ],
    ),
  )
  leaf_end spent pos e z = absurd z

  pub search_leaf-IsLowerBound :
      0 < n → (r : ℕ) × (search_leaf probe n ≡ ok (some r)) × IsLowerBound c n r
  unfolding search_leaf
  search_leaf-IsLowerBound pos =
      let ask : probe (n - 1) ≡ ok (c (n - 1)) = answers (n - 1) (omega arith) in
      let some_keys : leb n 0 ≡ false = gt→leb n 0 pos in
      elim (side-cases (c (n - 1))) [
        | inr (inr e) ↦ (
          n,
          rw (some_keys, ask, e),
          (
            omega arith,
            λ i h. up_to probe c n answers falls i (n - 1) (omega arith) (omega arith) e,
            λ i h k. absurd (omega arith),
          ),
        )
        | inr (inl e) ↦ (
          n - 1,
          rw (some_keys, ask, e),
          (
            omega arith,
            λ i h. before probe c n answers falls i (n - 1) h (omega arith) (λ m. cc),
            λ i h k m. let last : i ≡ n - 1 = omega arith in let y : c i ≡ same = rw last e in cc,
          ),
        )
        | inl e ↦
            let (o, run, ends) =
              search_loop-Ends probe c n answers falls n 0 (n - 1) (omega arith) (omega arith)
                (omega arith) in
            let (r, result, bound) = leaf_end o pos e ends in
            (r, rw (some_keys, ask, e, run, result), bound)
      ]

  branch_end :
      (o : Outcome)
      → 1 < n
      → c (n - 1) ≡ less
      → Ends c 1 (n - 1) o
      → (r : ℕ) × (branch_result o ≡ some r) × IsChildFor c n r
  branch_end (hit m) pos e (a, b, d) = (
    m,
    refl,
    (
      omega arith,
      λ i h k x. elim (Bool-cases (ltb i m)) [
        | inl lt ↦
            let y : c i ≡ more =
              before probe c n answers falls i m (ltb→lt i m lt) (omega arith) (λ z. cc) in
            cc
        | inr ge ↦
            let same_index : i ≡ m = ground arith in let y : c i ≡ same = rw same_index d in cc
      ],
      λ i h k. falls m i h k (λ z. cc),
    ),
  )
  branch_end (gap l) pos e (a, b, left, right) = (
    l - 1,
    refl,
    (
      omega arith,
      λ i h k x. let y : c i ≡ more = left i h (omega arith) in cc,
      λ i h k. elim (Bool-cases (ltb i (n - 1))) [
        | inl lt ↦ right i (omega arith) (ltb→lt i (n - 1) lt)
        | inr ge ↦ let last : i ≡ n - 1 = ground arith in rw last e
      ],
    ),
  )
  branch_end spent pos e z = absurd z

  pub search_branch-IsChildFor :
      0 < n → (r : ℕ) × (search_branch probe n ≡ ok (some r)) × IsChildFor c n r
  unfolding search_branch
  search_branch-IsChildFor pos = elim (Bool-cases (leb n 1)) [
    | inl one ↦ (0, rw one, (pos, λ i h k. absurd (omega arith), λ i h k. absurd (ground arith)))
    | inr two ↦
        let lt : 1 < n = ground arith in
        let ask : probe (n - 1) ≡ ok (c (n - 1)) = answers (n - 1) (omega arith) in
        elim (side-cases (c (n - 1))) [
          | inr (inr e) ↦ (
            n - 1,
            rw (two, ask, e),
            (
              omega arith,
              λ i h k x.
                  let y : c i ≡ more = up_to probe c n answers falls i (n - 1) k (omega arith) e in
                  cc,
              λ i h k. absurd (omega arith),
            ),
          )
          | inr (inl e) ↦ (
            n - 1,
            rw (two, ask, e),
            (
              omega arith,
              λ i h k x.
                  let y : c (n - 1) ≡ less =
                    from_on probe c n answers falls i (n - 1) k (omega arith) x in
                  cc,
              λ i h k. absurd (omega arith),
            ),
          )
          | inl e ↦
              let (o, run, ends) =
                search_loop-Ends probe c n answers falls n 1 (n - 1) (omega arith) (omega arith)
                  (omega arith) in
              let (r, result, bound) = branch_end o lt e ends in
              (r, rw (two, ask, e, run, result), bound)
        ]
  ]
