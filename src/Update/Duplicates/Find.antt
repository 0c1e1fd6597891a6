-- ===== src/Update/Duplicates/Find.antt =====
-- `hasDupValueInSubPage` and `getLastDupValueSubPage` against the values that the sub-page parses to.
use gdbx.Base.{
  ℕ, zero, suc, ◌+◌, ◌-◌, ◌/◌, ◌≤◌, ◌<◌, ◌≡◌, refl, ap, ◌∙◌, inl, inr, Bool-cases, List, [], ◌∷◌,
  Option, none, some, length, get_or, Run, ok, arith, ltb, leb, ltb→lt, false, true, ◌&&◌,
}
use native.Mathlib.Decide.{dec_lt, ℕ_discrete}
use gdbx.Bytes.{Bytes, word16}
use gdbx.Bytes.Loads.{load16_ok}
use gdbx.Page.Header.{page_header_size, page_dupfix, flag_set}
use gdbx.Search.Order.{Side, less, same, more}
use gdbx.Search.Loop.{side-cases}
use gdbx.Update.SubPage.{parse_sub_page_values}
use gdbx.Update.Duplicates.{entry_value, fixed_value, search_values, has_dup_value_in_sub_page}
use gdbx.Update.Duplicates.Entries.{Reads, entries-Reads, fixed-Reads}
use gdbx.Update.Duplicates.Insert.{IsOrder, is_same, AreAfter, IsSorted, has_value}

module _ (cmp : List ℕ → List ℕ → Side) where
  AreAfter-get_or :
      (v : List ℕ) (vs : List (List ℕ)) (j : ℕ)
      → AreAfter cmp v vs
      → j < length vs
      → cmp v (get_or vs j []) ≡ less
  AreAfter-get_or v [] j h lt = absurd (omega arith)
  AreAfter-get_or v (w ∷ ws) zero h lt = h.0
  AreAfter-get_or v (w ∷ ws) (suc j) h lt = AreAfter-get_or v ws j h.1 (omega arith)

  IsSorted-get_or :
      (vs : List (List ℕ)) (i j : ℕ)
      → IsSorted cmp vs
      → i < j
      → j < length vs
      → cmp (get_or vs i []) (get_or vs j []) ≡ less
  IsSorted-get_or [] i j h lt k = absurd (omega arith)
  IsSorted-get_or (v ∷ vs) i zero h lt k = absurd (omega arith)
  IsSorted-get_or (v ∷ vs) zero (suc j) h lt k = AreAfter-get_or v vs j h.0 (omega arith)
  IsSorted-get_or (v ∷ vs) (suc i) (suc j) h lt k =
      IsSorted-get_or vs i j h.1 (omega arith) (omega arith)

  has_value-there :
      (vs : List (List ℕ)) (x : List ℕ) (i : ℕ)
      → i < length vs
      → cmp (get_or vs i []) x ≡ same
      → has_value cmp vs x ≡ true
  has_value-there [] x i lt e = absurd (omega arith)
  has_value-there (v ∷ vs) x zero lt e = rw e
  has_value-there (v ∷ vs) x (suc i) lt e = elim (Bool-cases (is_same (cmp v x))) [
    | inl t ↦ rw t
    | inr f ↦ rw f (has_value-there vs x i (omega arith) e)
  ]

  has_value-absent :
      (vs : List (List ℕ)) (x : List ℕ)
      → ((i : ℕ) → i < length vs → is_same (cmp (get_or vs i []) x) ≡ false)
      → has_value cmp vs x ≡ false
  has_value-absent [] x h = refl
  has_value-absent (v ∷ vs) x h =
      rw (h 0 (omega arith)) (has_value-absent vs x (λ i lt. h (suc i) (omega arith)))

  module _ (order : IsOrder cmp) (value_of : ℕ → Run (Option (List ℕ))) (vs : List (List ℕ))
      (x : List ℕ) (r : Reads value_of 0 (length vs) vs) (sorted : IsSorted cmp vs) where
    abbrev side : ℕ → Side
    side i = cmp (get_or vs i []) x

    below : (i m : ℕ) → i ≤ m → m < length vs → side m ≡ less → side i ≡ less
    below i m h lt e = elim (ℕ_discrete i m) [
      | yes q ↦ rw q e
      | no ne ↦
          order.trans (get_or vs i []) (get_or vs m []) x
            (IsSorted-get_or vs i m sorted (omega arith) lt) e
    ]

    above : (i m : ℕ) → m ≤ i → i < length vs → side m ≡ more → side i ≡ more
    above i m h lt e = elim (ℕ_discrete i m) [
      | yes q ↦ rw q e
      | no ne ↦ order.unflip (get_or vs i []) x (
          order.trans x (get_or vs m []) (get_or vs i []) (order.flip (get_or vs m []) x e)
            (IsSorted-get_or vs m i sorted (omega arith) lt))
    ]

    -- The search ends within its rounds, with the answer that the values have.
    search_values-has_value :
        (fuel low high : ℕ)
        → high - low < fuel
        → low ≤ high
        → high ≤ length vs
        → ((i : ℕ) → i < low → side i ≡ less)
        → ((i : ℕ) → high ≤ i → i < length vs → side i ≡ more)
        → search_values cmp value_of x fuel low high ≡ ok (has_value cmp vs x)
    unfolding search_values
    search_values-has_value zero low high f h k lo hi = absurd (omega arith)
    search_values-has_value (suc fuel) low high f h k lo hi = elim (Bool-cases (ltb low high)) [
      | inr e ↦
          let gone = has_value-absent vs x (λ i lt. elim (dec_lt i low) [
            | yes l ↦ rw (lo i l)
            | no g ↦ rw (hi i (ground arith) lt)
          ]) in
          rw (e, gone)
      | inl e ↦
          let lt : low < high = ltb→lt low high e in
          let m : ℕ = (low + high - 1) / 2 in
          let ask : value_of m ≡ ok (some (get_or vs m [])) =
            ap value_of (omega arith) ∙ r.reads m (omega arith) in
          elim (side-cases (side m)) [
            | inl s ↦
                rw (e, ask, s)
                  (search_values-has_value fuel (m + 1) high (omega arith) (omega arith) k
                    (λ i q. below i m (omega arith) (omega arith) s) hi)
            | inr (inl s) ↦ rw (e, ask, s, has_value-there vs x m (omega arith) s)
            | inr (inr s) ↦
                rw (e, ask, s)
                  (search_values-has_value fuel low m (omega arith) (omega arith) (omega arith) lo
                    (λ i q b. above i m q b s))
          ]
    ]

pub has_dup-parse_sub_page_values :
    (cmp : List ℕ → List ℕ → Side) (d : Bytes) (vs : List (List ℕ)) (x : List ℕ)
    → IsOrder cmp
    → parse_sub_page_values d ≡ ok (some vs)
    → IsSorted cmp vs
    → has_dup_value_in_sub_page cmp d x ≡ ok (has_value cmp vs x)
unfolding parse_sub_page_values has_dup_value_in_sub_page
has_dup-parse_sub_page_values cmp d vs x order h sorted =
    elim (Bool-cases (ltb d.size page_header_size)) [
      | inl e ↦ absurd (let q : ok none ≡ ok (some vs) = rw e at h in cc)
      | inr e ↦
          let k : ℕ = word16 d.at 8 in
          let lower : ℕ = word16 d.at 12 in
          let a = load16_ok d 8 (ground arith) in
          let b = load16_ok d 10 (ground arith) in
          let c = load16_ok d 12 (ground arith) in
          elim (Bool-cases (flag_set (word16 d.at 10) page_dupfix && ltb 0 k && ltb k 65535)) [
            | inl f ↦
                let r = fixed-Reads d k 0 ((d.size - 20) / k) vs (rw (e, a, b, c, f) at h) in
                rw (e, a, b, c, f, ← r.measured)
                  (found cmp order (fixed_value d k) vs x (rw (← r.measured) at r) sorted)
            | inr f ↦
                let r = entries-Reads d 0 (lower / 2) vs (rw (e, a, b, c, f) at h) in
                elim (Bool-cases (leb lower 0)) [
                  | inl z ↦ rw (e, a, b, c, f, z) (has_none cmp vs x (r.measured ∙ ground arith))
                  | inr nz ↦
                      rw (e, a, b, c, f, nz, ← r.measured)
                        (found cmp order (entry_value d) vs x (rw (← r.measured) at r) sorted)
                ]
          ]
    ]
  where
    found :
        (cmp : List ℕ → List ℕ → Side)
        → IsOrder cmp
        → (value_of : ℕ → Run (Option (List ℕ))) → (vs : List (List ℕ)) (x : List ℕ)
        → Reads value_of 0 (length vs) vs
        → IsSorted cmp vs
        → search_values cmp value_of x (suc (length vs)) 0 (length vs) ≡ ok (has_value cmp vs x)
    found cmp order value_of vs x r sorted =
        search_values-has_value cmp order value_of vs x r sorted (suc (length vs)) 0 (length vs)
          (omega arith) (omega arith) (omega arith) (λ i lt. absurd (omega arith))
          (λ i q lt. absurd (omega arith))

    has_none :
        (cmp : List ℕ → List ℕ → Side) (vs : List (List ℕ)) (x : List ℕ)
        → length vs ≡ 0
        → ok false ≡ ok (has_value cmp vs x)
    has_none cmp [] x h = refl
    has_none cmp (v ∷ vs) x h = absurd (omega (arith, h))
