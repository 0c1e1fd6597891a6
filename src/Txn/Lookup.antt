-- ===== src/Txn/Lookup.antt =====
-- `searchPageRawExact` on one page, and `directGetReadOnly` on a tree.
use native.Mathlib.Decide.{ℕ_discrete}
use gdbx.Base.{
  ℕ, zero, suc, ◌+◌, ◌-◌, ◌/◌, ◌≤◌, ◌<◌, ◌≡◌, ◌≢◌, refl, sym, ap, ◌∙◌, Bool, true, false,
  Bool-cases, ltb, ltb→lt, ◌==◌, if◌then◌else◌, List, arith, ok, Run, ◌>>=◌, some, inl, inr,
}
use gdbx.Bytes.{Bytes}
use gdbx.Page.Shape.{count, position}
use gdbx.Node.Variants.{key_bytes}
use gdbx.Search.{Outcome, hit, gap, spent, search_loop}
use gdbx.Search.Order.{Side, less, same, more}
use gdbx.Search.Loop.{Ends, search_loop-Ends, side-cases}
use gdbx.Txn.Get.{probe, leaf_exact, branch_exact, search_page_raw_exact}
use gdbx.Txn.Trees.{IsOrder, HasNodes, is_branch_page, branch_direct, count_direct, probe-ok}

branches :
    (r : Run Side) (at_hit : Run Outcome) {l l' m m' : Run Outcome}
    → l ≡ l'
    → m ≡ m'
    → (r >>= λ c. elim c as (λ _. Run Outcome) [ less ↦ l | same ↦ at_hit | more ↦ m ])
      ≡ (r >>= λ c. elim c as (λ _. Run Outcome) [ less ↦ l' | same ↦ at_hit | more ↦ m' ])
branches r at_hit {l' = l'} {m = m} e k =
    ap (λ x. r >>= λ c. elim c as (λ _. Run Outcome) [ less ↦ x | same ↦ at_hit | more ↦ m ]) e
    ∙ ap (λ x. r >>= λ c. elim c as (λ _. Run Outcome) [ less ↦ l' | same ↦ at_hit | more ↦ x ]) k

-- The loop depends on the answers between its bounds alone.
pub search_loop_congr :
    (a b : ℕ → Run Side) (fuel low high : ℕ)
    → ((i : ℕ) → low ≤ i → i < high → a i ≡ b i)
    → search_loop a fuel low high ≡ search_loop b fuel low high
unfolding search_loop
search_loop_congr a b zero low high h = refl
search_loop_congr a b (suc fuel) low high h = elim (Bool-cases (ltb low high)) [
  | inr e ↦ rw e
  | inl e ↦
      let lt : low < high = ltb→lt low high e in
      let mid : ℕ = (low + high - 1) / 2 in
      rw (e, h mid (omega arith) (omega arith))
        (branches (b mid) (ok (hit mid))
          (search_loop_congr a b fuel low mid (λ i p q. h i p (omega arith)))
          (search_loop_congr a b fuel (mid + 1) high (λ i p q. h i (omega arith) q)))
]

module _ (cmp : List ℕ → List ℕ → Side) (order : IsOrder cmp) (p : Bytes) (first : ℕ)
    (v : HasNodes cmp p first) (key : List ℕ) where
  -- The answers, with `more` below the first key.
  pub answer : ℕ → Side
  answer i = if ltb i first then more else cmp key (key_bytes p i)

  pub answer-at : (i : ℕ) → first ≤ i → answer i ≡ cmp key (key_bytes p i)
  unfolding answer
  answer-at i h = ground arith

  pub falls : (i j : ℕ) → i < j → j < count p → answer i ≢ more → answer j ≡ less
  unfolding answer
  falls i j h k ne = elim (Bool-cases (ltb i first)) [
    | inl e ↦ absurd (ne (rw e))
    | inr e ↦
        let up : cmp (key_bytes p i) (key_bytes p j) ≡ less = v.ascending i j (ground arith) h k in
        let ahead : ltb j first ≡ false = ground arith in
        rw ahead (elim (side-cases (cmp key (key_bytes p i))) [
          | inl l ↦ order.less_trans key (key_bytes p i) (key_bytes p j) l up
          | inr (inl s) ↦ order.same_less key (key_bytes p i) (key_bytes p j) s up
          | inr (inr m) ↦ absurd (ne (rw (e, m)))
        ])
  ]

  -- The loop of either page, from the first key on.
  pub loop-Ends :
      first ≤ count p
      → (o : Outcome) × (search_loop (probe cmp p key) (count p + 1) first (count p) ≡ ok o)
        × Ends answer first (count p) o
  loop-Ends h =
      let (o, run, ends) =
        search_loop-Ends (λ i. ok (answer i)) answer (count p) (λ i lt. refl) falls (count p + 1)
          first (count p) (omega arith) h (omega arith) in
      (
        o,
        search_loop_congr (probe cmp p key) (λ i. ok (answer i)) (count p + 1) first (count p)
              (λ i le lt. probe-ok cmp p first v key i lt ∙ ap ok (sym (answer-at i le)))
            ∙ run,
        ends,
      )

-- What a search on a page finds.
abbrev pub FindsLeaf : (List ℕ → List ℕ → Side) → Bytes → List ℕ → ℕ → Bool → Type 0
FindsLeaf cmp p key idx true = (idx < count p) × (cmp key (key_bytes p idx) ≡ same)
FindsLeaf cmp p key idx false = (i : ℕ) → i < count p → cmp key (key_bytes p i) ≢ same

abbrev pub FindsChild : (List ℕ → List ℕ → Side) → Bytes → List ℕ → ℕ → Type 0
FindsChild cmp p key r =
    (r < count p)
    × ((i : ℕ) → 1 ≤ i → i ≤ r → cmp key (key_bytes p i) ≢ less)
    × ((i : ℕ) → r < i → i < count p → cmp key (key_bytes p i) ≡ less)

module _ (cmp : List ℕ → List ℕ → Side) (order : IsOrder cmp) (p : Bytes) (key : List ℕ) where
  leaf_found :
      (v : HasNodes cmp p 0) (o : Outcome)
      → Ends (answer cmp order p 0 v key) 0 (count p) o
      → (idx : ℕ) × (exact : Bool) × (leaf_exact o ≡ some (idx, exact))
        × FindsLeaf cmp p key idx exact
  leaf_found v (hit m) (a, b, e) =
      (m, true, refl, (b, sym (answer-at cmp order p 0 v key m (omega arith)) ∙ e))
  leaf_found v (gap l) (a, b, left, right) = (
    l,
    false,
    refl,
    λ i h e. elim (Bool-cases (ltb i l)) [
      | inl x ↦
          let y : cmp key (key_bytes p i) ≡ more =
            sym (answer-at cmp order p 0 v key i (omega arith))
            ∙ left i (omega arith) (ltb→lt i l x) in
          cc
      | inr x ↦
          let y : cmp key (key_bytes p i) ≡ less =
            sym (answer-at cmp order p 0 v key i (omega arith)) ∙ right i (ground arith) h in
          cc
    ],
  )
  leaf_found v spent e = absurd e

  pub branch_found :
      (v : HasNodes cmp p 1) (o : Outcome)
      → 1 < count p
      → Ends (answer cmp order p 1 v key) 1 (count p) o
      → (idx : ℕ) × (exact : Bool) × (branch_exact o ≡ some (idx, exact)) × FindsChild cmp p key idx
  branch_found v (hit m) two (a, b, e) = (
    m,
    true,
    refl,
    (
      b,
      λ i h k x. elim (position i m) [
        | inl lt ↦
            let up : cmp (key_bytes p i) (key_bytes p m) ≡ less = v.ascending i m h lt b in
            let y : cmp key (key_bytes p m) ≡ less =
              order.less_trans key (key_bytes p i) (key_bytes p m) x up in
            let z : cmp key (key_bytes p m) ≡ same = sym (answer-at cmp order p 1 v key m a) ∙ e in
            cc
        | inr (inl q) ↦
            let z : cmp key (key_bytes p m) ≡ same = sym (answer-at cmp order p 1 v key m a) ∙ e in
            let y : cmp key (key_bytes p m) ≡ less = rw (← q) x in cc
        | inr (inr (j, q, le)) ↦ absurd (omega arith)
      ],
      λ i h k.
          sym (answer-at cmp order p 1 v key i (omega arith))
          ∙ falls cmp order p 1 v key m i h k (λ y. cc),
    ),
  )
  branch_found v (gap l) two (a, b, left, right) = (
    l - 1,
    false,
    refl,
    (
      omega arith,
      λ i h k x.
          let y : cmp key (key_bytes p i) ≡ more =
            sym (answer-at cmp order p 1 v key i h) ∙ left i h (omega arith) in
          cc,
      λ i h k. sym (answer-at cmp order p 1 v key i (omega arith)) ∙ right i (omega arith) k,
    ),
  )
  branch_found v spent two e = absurd e

  -- What the page's search returns of its loop.
  pub raw_empty :
      (first : ℕ) (v : HasNodes cmp p first)
      → count p ≡ 0
      → search_page_raw_exact cmp p key ≡ ok (some (0, false))
  unfolding search_page_raw_exact
  raw_empty first v z = rw (count_direct p v.header_fits, z)

  pub raw_leaf :
      (v : HasNodes cmp p 0) (o : Outcome)
      → is_branch_page p ≡ false
      → 0 < count p
      → search_loop (probe cmp p key) (count p + 1) 0 (count p) ≡ ok o
      → search_page_raw_exact cmp p key ≡ ok (leaf_exact o)
  unfolding search_page_raw_exact
  raw_leaf v o leaf pos run =
      let some_keys : (count p == 0) ≡ false = ground arith in
      rw (count_direct p v.header_fits, some_keys, branch_direct p v.header_fits, leaf, run)

  pub raw_only_child :
      (v : HasNodes cmp p 1)
      → is_branch_page p ≡ true
      → count p ≡ 1
      → search_page_raw_exact cmp p key ≡ ok (some (0, false))
  unfolding search_page_raw_exact
  raw_only_child v branch one =
      rw (count_direct p v.header_fits, one, branch_direct p v.header_fits, branch)

  pub raw_branch :
      (v : HasNodes cmp p 1) (o : Outcome)
      → is_branch_page p ≡ true
      → 1 < count p
      → search_loop (probe cmp p key) (count p + 1) 1 (count p) ≡ ok o
      → search_page_raw_exact cmp p key ≡ ok (branch_exact o)
  unfolding search_page_raw_exact
  raw_branch v o branch many run =
      let some_keys : (count p == 0) ≡ false = ground arith in
      let two : (count p == 1) ≡ false = ground arith in
      rw (count_direct p v.header_fits, some_keys, branch_direct p v.header_fits, branch, two, run)

  pub search_leaf_page :
      (v : HasNodes cmp p 0)
      → is_branch_page p ≡ false
      → (idx : ℕ) × (exact : Bool) × (search_page_raw_exact cmp p key ≡ ok (some (idx, exact)))
        × FindsLeaf cmp p key idx exact
  search_leaf_page v leaf = elim (ℕ_discrete (count p) 0) [
    | yes z ↦ (0, false, raw_empty 0 v z, λ i h. absurd (omega arith))
    | no nz ↦
        let (o, run, ends) = loop-Ends cmp order p 0 v key (omega arith) in
        let (idx, exact, result, found) = leaf_found v o ends in
        (idx, exact, raw_leaf v o leaf (omega arith) run ∙ ap ok result, found)
  ]

  pub search_branch_page :
      (v : HasNodes cmp p 1)
      → is_branch_page p ≡ true
      → 0 < count p
      → (idx : ℕ) × (exact : Bool) × (search_page_raw_exact cmp p key ≡ ok (some (idx, exact)))
        × FindsChild cmp p key idx
  search_branch_page v branch pos = elim (ℕ_discrete (count p) 1) [
    | yes one ↦ (
      0,
      false,
      raw_only_child v branch one,
      (pos, λ i h k. absurd (omega arith), λ i h k. absurd (omega arith)),
    )
    | no many ↦
        let (o, run, ends) = loop-Ends cmp order p 1 v key pos in
        let (idx, exact, result, found) = branch_found v o (omega arith) ends in
        (idx, exact, raw_branch v o branch (omega arith) run ∙ ap ok result, found)
  ]
