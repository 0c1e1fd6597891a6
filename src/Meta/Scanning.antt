-- ===== src/Meta/Scanning.antt =====
-- What the loop over the meta pages has found at each index.
use gdbx.Base.{
  ℕ, zero, suc, ◌+◌, ◌≤◌, ◌<◌, ◌≡◌, refl, ◌∙◌, Bool-cases, inl, inr, ◌⊎◌, ltb, ltb→lt,
  if◌then◌else◌, Option, none, some, arith, ge→ltb,
}
use gdbx.Meta.Format.{Meta, txn_id, is_steady}
use gdbx.Meta.Triple.{Scan, put, accepted, scan_page, scan}

-- The transaction id of a page that is accepted, and 0 for one that is not.
abbrev pub id_of : Option Meta → ℕ
id_of none = 0
id_of (some m) = txn_id m

-- The same, but 0 for a weak page as well.
abbrev pub steady_id_of : Option Meta → ℕ
steady_id_of none = 0
steady_id_of (some m) = if is_steady m then txn_id m else 0

-- `best` is an index below `n` at which `f` is greatest; there is none if `f` is 0 throughout.
abbrev pub IsArgMax : (ℕ → ℕ) → ℕ → Option ℕ → ℕ → Type 0
IsArgMax f n none max = (max ≡ 0) × ((j : ℕ) → j < n → f j ≡ 0)
IsArgMax f n (some r) max = (r < n) × (f r ≡ max) × (0 < max) × ((j : ℕ) → j < n → f j ≤ max)

pub last_or_before : (j n : ℕ) → j < suc n → (j < n) ⊎ (j ≡ n)
last_or_before j n h = elim (Bool-cases (ltb j n)) [
  | inl e ↦ inl (ltb→lt j n e)
  | inr e ↦ inr (ground arith)
]

IsArgMax-step :
    (f : ℕ → ℕ) (n : ℕ) (best : Option ℕ) (max : ℕ)
    → IsArgMax f n best max
    → IsArgMax f
        (suc n)
        (if ltb max (f n) then some n else best)
        (if ltb max (f n) then f n else max)
IsArgMax-step f n none max (zero_max, all_zero) = elim (Bool-cases (ltb max (f n))) [
  | inl e ↦ rw e (
    omega arith,
    refl,
    ltb→lt 0 (f n) (rw zero_max at e),
    λ j h. elim (last_or_before j n h) [
      | inl b ↦ omega (arith, all_zero j b)
      | inr b ↦ rw b (omega arith)
    ],
  )
  | inr e ↦ rw e (
    zero_max,
    λ j h. elim (last_or_before j n h) [ inl b ↦ all_zero j b | inr b ↦ rw b (ground arith) ],
  )
]
IsArgMax-step f n (some r) max (inside, at_max, pos, least) = elim (Bool-cases (ltb max (f n))) [
  | inl e ↦
      let more = ltb→lt max (f n) e in
      rw e (
        omega arith,
        refl,
        omega arith,
        λ j h. elim (last_or_before j n h) [
          | inl b ↦ omega (arith, least j b)
          | inr b ↦ rw b (omega arith)
        ],
      )
  | inr e ↦ rw e (
    omega arith,
    at_max,
    pos,
    λ j h. elim (last_or_before j n h) [ inl b ↦ least j b | inr b ↦ rw b (ground arith) ],
  )
]

-- What the scan knows after the pages below `n`.
pub record Scanned (pages : ℕ → Option Meta) (n : ℕ) (s : Scan) : Type 0 where
  pub kept : (j : ℕ) → j < n → s.triple.metas j ≡ accepted (pages j)
  pub ids : (j : ℕ) → j < n → s.triple.txnids j ≡ id_of (accepted (pages j))
  pub newest : IsArgMax (λ j. id_of (accepted (pages j))) n s.triple.recent s.max_txnid
  pub newest_steady :
      IsArgMax (λ j. steady_id_of (accepted (pages j))) n s.triple.steady s.max_steady_txnid

put_self {ℓ} : {A : Type ℓ} (a : ℕ → A) (i : ℕ) (v : A) → put a i v i ≡ v
put_self a i v = ground arith

put_ne {ℓ} : {A : Type ℓ} (a : ℕ → A) (i : ℕ) (v : A) (j : ℕ) → j < i → put a i v j ≡ a j
put_ne a i v j h = ground arith

scan_page-metas :
    (i : ℕ) (m : Option Meta) (s : Scan) → (scan_page i m s).triple.metas ≡ put s.triple.metas i m
unfolding scan_page
scan_page-metas i none s = refl
scan_page-metas i (some m) s = refl

scan_page-txnids :
    (i : ℕ) (m : Option Meta) (s : Scan)
    → (scan_page i m s).triple.txnids ≡ put s.triple.txnids i (id_of m)
unfolding scan_page
scan_page-txnids i none s = refl
scan_page-txnids i (some m) s = refl

scan_page-recent :
    (i : ℕ) (m : Option Meta) (s : Scan)
    → ((scan_page i m s).triple.recent
        ≡ (if ltb s.max_txnid (id_of m) then some i else s.triple.recent))
      × ((scan_page i m s).max_txnid ≡ (if ltb s.max_txnid (id_of m) then id_of m else s.max_txnid))
unfolding scan_page
scan_page-recent i none s =
    (rw (ge→ltb s.max_txnid 0 (omega arith)), rw (ge→ltb s.max_txnid 0 (omega arith)))
scan_page-recent i (some m) s = (refl, refl)

scan_page-steady :
    (i : ℕ) (m : Option Meta) (s : Scan)
    → ((scan_page i m s).triple.steady
        ≡ (if ltb s.max_steady_txnid (steady_id_of m) then some i else s.triple.steady))
      × ((scan_page i m s).max_steady_txnid ≡ (
          if ltb s.max_steady_txnid (steady_id_of m) then steady_id_of m else s.max_steady_txnid))
unfolding scan_page
scan_page-steady i none s =
    (rw (ge→ltb s.max_steady_txnid 0 (omega arith)), rw (ge→ltb s.max_steady_txnid 0 (omega arith)))
scan_page-steady i (some m) s = elim (Bool-cases (is_steady m)) [
  | inl e ↦ (rw e, rw e)
  | inr e ↦ (
    rw (e, ge→ltb s.max_steady_txnid 0 (omega arith)),
    rw (e, ge→ltb s.max_steady_txnid 0 (omega arith)),
  )
]

module _ (pages : ℕ → Option Meta) where
  scan_page-Scanned :
      (n : ℕ) (s : Scan)
      → Scanned pages n s
      → Scanned pages (suc n) (scan_page n (accepted (pages n)) s)
  scan_page-Scanned n s v = record {
    kept = λ j h. rw (scan_page-metas n (accepted (pages n)) s) (elim (last_or_before j n h) [
      | inl b ↦ put_ne s.triple.metas n (accepted (pages n)) j b ∙ v.kept j b
      | inr b ↦ rw b (put_self s.triple.metas n (accepted (pages n)))
    ]);
    ids = λ j h. rw (scan_page-txnids n (accepted (pages n)) s) (elim (last_or_before j n h) [
      | inl b ↦ put_ne s.triple.txnids n (id_of (accepted (pages n))) j b ∙ v.ids j b
      | inr b ↦ rw b (put_self s.triple.txnids n (id_of (accepted (pages n))))
    ]);
    newest =
        let (a, b) = scan_page-recent n (accepted (pages n)) s in
        rw (a, b)
          (IsArgMax-step (λ j. id_of (accepted (pages j))) n s.triple.recent s.max_txnid v.newest);
    newest_steady =
        let (a, b) = scan_page-steady n (accepted (pages n)) s in
        rw (a, b)
          (IsArgMax-step (λ j. steady_id_of (accepted (pages j))) n s.triple.steady
            s.max_steady_txnid v.newest_steady);
  }

  pub scan-Scanned :
      (i rounds n : ℕ) (s : Scan)
      → i + rounds ≡ n
      → Scanned pages i s
      → Scanned pages n (scan pages i rounds s)
  unfolding scan
  scan-Scanned i zero n s e v = rw (← e) (let z : i + 0 ≡ i = omega arith in rw z v)
  scan-Scanned i (suc rounds) n s e v =
      let next : i + 1 ≡ suc i = omega arith in
      scan-Scanned (i + 1) rounds n (scan_page i (accepted (pages i)) s) (omega arith)
        (rw next (scan_page-Scanned i s v))
