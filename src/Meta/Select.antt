-- ===== src/Meta/Select.antt =====
-- Which meta page is selected, and which is overwritten next.
use gdbx.Base.{
  ℕ, zero, suc, ◌+◌, ◌-◌, ◌≤◌, ◌<◌, ◌≡◌, ◌≢◌, refl, ap, ◌∙◌, Bool-cases, inl, inr, ◌⊎◌, ltb, ltb→lt,
  Option, none, some, arith,
}
use gdbx.Meta.Format.{Meta, txn_id}
use gdbx.Meta.Triple.{
  MetaTriple, Scan, num_metas, accepted, scan, settle_steady, finish, new_meta_triple, least_from,
  next_meta_index,
}
use gdbx.Meta.Scanning.{id_of, steady_id_of, IsArgMax, Scanned, scan-Scanned, last_or_before}

-- The triple of three pages: its arrays hold the pages that are accepted, `recent` is the one with the
-- greatest transaction id, and `steady` that among the steady ones, or `recent` if there is none.
pub record Selected (pages : ℕ → Option Meta) (t : MetaTriple) : Type 0 where
  pub kept : (j : ℕ) → j < num_metas → t.metas j ≡ accepted (pages j)
  pub ids : (j : ℕ) → j < num_metas → t.txnids j ≡ id_of (accepted (pages j))
  pub newest : ℕ
  pub recent_is : t.recent ≡ some newest
  pub newest_in : newest < num_metas
  pub newest_meta : Meta
  pub newest_accepted : accepted (pages newest) ≡ some newest_meta
  pub newest_pos : 0 < txn_id newest_meta
  pub greatest : (j : ℕ) → j < num_metas → id_of (accepted (pages j)) ≤ txn_id newest_meta
  pub stable : ℕ
  pub steady_is : t.steady ≡ some stable
  pub stable_choice :
      ((stable < num_metas)
        × (0 < steady_id_of (accepted (pages stable)))
        × ((j : ℕ)
            → j < num_metas
            → steady_id_of (accepted (pages j)) ≤ steady_id_of (accepted (pages stable))))
      ⊎ ((stable ≡ newest) × ((j : ℕ) → j < num_metas → steady_id_of (accepted (pages j)) ≡ 0))

-- A page with a positive id is accepted.
meta_of : (m : Option Meta) → 0 < id_of m → (x : Meta) × (m ≡ some x) × (txn_id x ≡ id_of m)
meta_of none h = absurd (omega arith)
meta_of (some x) h = (x, refl, refl)

steady_part :
    (pages : ℕ → Option Meta) (t : MetaTriple) (best : Option ℕ) (max r : ℕ)
    → t.steady ≡ best
    → t.recent ≡ some r
    → IsArgMax (λ j. steady_id_of (accepted (pages j))) num_metas best max
    → (s : ℕ) × ((settle_steady t).steady ≡ some s)
      × (((s < num_metas)
            × (0 < steady_id_of (accepted (pages s)))
            × ((j : ℕ)
                → j < num_metas
                → steady_id_of (accepted (pages j)) ≤ steady_id_of (accepted (pages s))))
          ⊎ ((s ≡ r) × ((j : ℕ) → j < num_metas → steady_id_of (accepted (pages j)) ≡ 0)))
unfolding settle_steady
steady_part pages t none max r e e' (z, all) = (r, ground arith, inr (refl, all))
steady_part pages t (some s) max r e e' (inside, at_max, pos, least) =
    (s, ground arith, inl (inside, rw at_max pos, λ j h. rw at_max (least j h)))

finish-none : (t : MetaTriple) → t.recent ≡ none → finish t ≡ none
unfolding finish
finish-none t e = ground arith

finish-some : (t : MetaTriple) (r : ℕ) → t.recent ≡ some r → finish t ≡ some (settle_steady t)
unfolding finish
finish-some t r e = elim (t.steady) as (λ x. finish t ≡ some (settle_steady t)) [
  | none ↦ ground arith
  | some k ↦ ground arith
]

module _ (pages : ℕ → Option Meta) where
  start : Scan
  start = record {
    triple = record { metas = λ _. none; txnids = λ _. 0; recent = none; steady = none };
    max_txnid = 0;
    max_steady_txnid = 0;
  }

  done : Scan
  unfolding start
  done = scan pages 0 num_metas start

  done-Scanned : Scanned pages num_metas done
  unfolding done
  done-Scanned = scan-Scanned pages 0 num_metas num_metas start (omega arith) (record {
    kept = λ j h. absurd (omega arith);
    ids = λ j h. absurd (omega arith);
    newest = (refl, λ j h. absurd (omega arith));
    newest_steady = (refl, λ j h. absurd (omega arith));
  })

  selected :
      (r : ℕ)
      → done.triple.recent ≡ some r
      → IsArgMax (λ j. id_of (accepted (pages j))) num_metas (some r) done.max_txnid
      → Selected pages (settle_steady done.triple)
  unfolding settle_steady
  selected r e (inside, at_max, pos, least) =
      let v = done-Scanned in
      let (x, acc, idx) = meta_of (accepted (pages r)) (rw at_max pos) in
      let (s, choice, why) =
        steady_part pages done.triple done.triple.steady done.max_steady_txnid r refl e
          v.newest_steady in
      record {
        kept = v.kept;
        ids = v.ids;
        newest = r;
        recent_is = e;
        newest_in = inside;
        newest_meta = x;
        newest_accepted = acc;
        newest_pos = omega (arith, idx, at_max, pos);
        greatest = λ j h. omega (arith, idx, at_max, least j h);
        stable = s;
        steady_is = choice;
        stable_choice = why;
      }

  new-done : new_meta_triple pages ≡ finish done.triple
  unfolding new_meta_triple done
  new-done = refl

  outcome :
      (best : Option ℕ)
      → done.triple.recent ≡ best
      → IsArgMax (λ j. id_of (accepted (pages j))) num_metas best done.max_txnid
      → ((new_meta_triple pages ≡ none)
          × ((j : ℕ) → j < num_metas → id_of (accepted (pages j)) ≡ 0))
        ⊎ ((t : MetaTriple) × (new_meta_triple pages ≡ some t) × Selected pages t)
  outcome none e (z, all) = inl (new-done ∙ finish-none done.triple e, all)
  outcome (some r) e v =
      inr (settle_steady done.triple, new-done ∙ finish-some done.triple r e, selected r e v)

  -- `newMetaTriple` fails exactly where no page is accepted with a transaction id above 0; otherwise
  -- its `recent` is an accepted page of the greatest transaction id of all accepted ones, and its
  -- `steady` an accepted steady page of the greatest id of those, or `recent` where no accepted page
  -- is steady with an id above 0.
  pub new_meta_triple_lem :
      ((new_meta_triple pages ≡ none) × ((j : ℕ) → j < num_metas → id_of (accepted (pages j)) ≡ 0))
      ⊎ ((t : MetaTriple) × (new_meta_triple pages ≡ some t) × Selected pages t)
  new_meta_triple_lem = outcome done.triple.recent refl done-Scanned.newest

least_from-IsLeast :
    (ids : ℕ → ℕ) (i rounds n best : ℕ)
    → i + rounds ≡ n
    → best < n
    → ((j : ℕ) → j < i → ids best ≤ ids j)
    → (least_from ids i rounds best < n)
      × ((j : ℕ) → j < n → ids (least_from ids i rounds best) ≤ ids j)
unfolding least_from
least_from-IsLeast ids i zero n best e h least = (h, λ j lt. least j (omega arith))
least_from-IsLeast ids i (suc rounds) n best e h least =
    elim (Bool-cases (ltb (ids i) (ids best))) [
      | inl x ↦ rw x (
          least_from-IsLeast ids (i + 1) rounds n i (omega arith) (omega arith) (λ j lt.
            let lt' = ltb→lt (ids i) (ids best) x in
            elim (last_or_before j i (omega arith)) [
              | inl b ↦ omega (arith, least j b)
              | inr b ↦ rw b (omega arith)
            ]))
      | inr x ↦ rw x (
          least_from-IsLeast ids (i + 1) rounds n best (omega arith) h (λ j lt.
            elim (last_or_before j i (omega arith)) [
              | inl b ↦ least j b
              | inr b ↦ rw b (ground arith)
            ]))
    ]

antisymm : {a b : ℕ} → a ≤ b → b ≤ a → a ≡ b
antisymm h k = omega arith

txnid_newest :
    (pages : ℕ → Option Meta) (t : MetaTriple) (s : Selected pages t)
    → t.txnids s.newest ≡ txn_id s.newest_meta
txnid_newest pages t s = s.ids s.newest s.newest_in ∙ ap id_of s.newest_accepted

-- Where some page has another transaction id than the most recent one, counting as 0 that of a page
-- that was not accepted: `nextMetaIndex` of the selected pages is the index of a page with the least
-- id, and not that of the most recent page, so the next update leaves that page as it is.
pub next_meta_index_lem :
    (pages : ℕ → Option Meta) (t : MetaTriple) (s : Selected pages t) (j : ℕ)
    → j < num_metas
    → id_of (accepted (pages j)) ≢ txn_id s.newest_meta
    → (next_meta_index t < num_metas)
      × ((k : ℕ)
          → k < num_metas
          → id_of (accepted (pages (next_meta_index t))) ≤ id_of (accepted (pages k)))
      × (next_meta_index t ≢ s.newest)
unfolding next_meta_index
next_meta_index_lem pages t s j h other =
    let (inside, least) =
      least_from-IsLeast t.txnids 1 (num_metas - 1) num_metas 0 (omega arith) (omega arith)
        (λ k lt. let z : k ≡ 0 = omega arith in rw z (omega arith)) in
    let i : ℕ = least_from t.txnids 1 (num_metas - 1) 0 in
    (
      inside,
      λ k lt. rw (← s.ids k lt, ← s.ids i inside) (least k lt),
      λ e.
          other (
            antisymm (s.greatest j h)
              (rw (← txnid_newest pages t s, ← e, ← s.ids j h) (least j h))),
    )
