-- ===== src/Fastmap/Probe.antt =====
-- The loop over the buckets.
use native.Mathlib.Nat.{mod_self, mod-eq_of_lt, mod-lt}
use gdbx.Base.{
  ℕ, zero, suc, ◌+◌, ◌≤◌, ◌<◌, ◌≡◌, refl, sym, ap, ◌∙◌, true, false, Bool-cases, lt→ltb, ◌==◌, List,
  length, get_or, arith, inl, inr, ◌⊎◌, Run, ok, panic,
}
use native.Mathlib.Decide.{dec_lt, ℕ_discrete}
use gdbx.Fastmap.Table.{Bucket, unused, masked, Probe, vacant, present, spent, probe}

abbrev pub bucket : List Bucket → ℕ → Bucket
bucket b i = get_or b i unused

-- The next index, or the first one behind the last.
pub next_index :
    (mask idx : ℕ)
    → idx < mask + 1
    → ((masked mask (idx + 1) ≡ idx + 1) × (idx + 1 < mask + 1))
      ⊎ ((masked mask (idx + 1) ≡ 0) × (idx ≡ mask))
next_index mask idx h = elim (dec_lt idx mask) [
  | yes lt ↦ inl (mod-eq_of_lt (omega arith), omega arith)
  | no ge ↦ let last : idx ≡ mask = omega arith in inr (rw last (mod_self (mask + 1)), last)
]

module _ (mask : ℕ) (b : List Bucket) (whole : length b ≡ mask + 1) where
  -- One round, by what stands in the bucket.
  probe_vacant :
      (fuel key idx : ℕ)
      → idx < mask + 1
      → (bucket b idx).used ≡ false
      → probe (suc fuel) b mask key idx ≡ ok (vacant idx)
  unfolding probe
  probe_vacant fuel key idx h e = rw (lt→ltb idx (length b) (omega (arith, whole)), e)

  probe_present :
      (fuel key idx : ℕ)
      → idx < mask + 1
      → (bucket b idx).used ≡ true
      → ((bucket b idx).key == key) ≡ true
      → probe (suc fuel) b mask key idx ≡ ok (present idx)
  unfolding probe
  probe_present fuel key idx h e k = rw (lt→ltb idx (length b) (omega (arith, whole)), e, k)

  probe_later :
      (fuel key idx : ℕ)
      → idx < mask + 1
      → (bucket b idx).used ≡ true
      → ((bucket b idx).key == key) ≡ false
      → probe (suc fuel) b mask key idx ≡ probe fuel b mask key (masked mask (idx + 1))
  unfolding probe
  probe_later fuel key idx h e k = rw (lt→ltb idx (length b) (omega (arith, whole)), e, k)

  abbrev pub Ends : ℕ → ℕ → ℕ → Probe → Type 0
  Ends fuel key idx (vacant i) = (i < mask + 1) × ((bucket b i).used ≡ false)
  Ends fuel key idx (present i) =
      (i < mask + 1) × ((bucket b i).used ≡ true) × (((bucket b i).key == key) ≡ true)
  Ends fuel key idx spent =
      ((i : ℕ) → i < mask + 1 → idx ≤ i → i < idx + fuel → (bucket b i).used ≡ true)
      × ((i : ℕ) → i < mask + 1 → i + (mask + 1) < idx + fuel → (bucket b i).used ≡ true)

  -- The rounds behind a bucket that another key uses.
  shift-Ends :
      (fuel key idx : ℕ) (p : Probe)
      → idx < mask + 1
      → (bucket b idx).used ≡ true
      → Ends fuel key (masked mask (idx + 1)) p
      → Ends (suc fuel) key idx p
  shift-Ends fuel key idx (vacant i) h e ends = ends
  shift-Ends fuel key idx (present i) h e ends = ends
  shift-Ends fuel key idx spent h e (up, around) = elim (next_index mask idx h) [
    | inl (next, in_table) ↦ (
      λ i lt low high. elim (ℕ_discrete i idx) [
        | yes q ↦ rw q e
        | no q ↦ up i lt (omega (arith, next)) (omega (arith, next))
      ],
      λ i lt high. around i lt (omega (arith, next)),
    )
    | inr (next, last) ↦ (
      λ i lt low high. let same_index : i ≡ idx = omega arith in rw same_index e,
      λ i lt high. up i lt (omega (arith, next)) (omega (arith, next)),
    )
  ]

  pub masked_lt : (x : ℕ) → masked mask x < mask + 1
  masked_lt x = mod-lt x (omega arith)

  pub probe-Ends :
      (fuel key idx : ℕ)
      → idx < mask + 1
      → (p : Probe) × (probe fuel b mask key idx ≡ ok p) × Ends fuel key idx p
  unfolding probe
  probe-Ends zero key idx h =
      (spent, refl, (λ i lt low high. absurd (omega arith), λ i lt high. absurd (omega arith)))
  probe-Ends (suc fuel) key idx h = elim (Bool-cases (bucket b idx).used) [
    | inr e ↦ (vacant idx, probe_vacant fuel key idx h e, (h, e))
    | inl e ↦ elim (Bool-cases ((bucket b idx).key == key)) [
      | inl k ↦ (present idx, probe_present fuel key idx h e k, (h, e, k))
      | inr k ↦
          let (p, run, ends) = probe-Ends fuel key (masked mask (idx + 1)) (masked_lt (idx + 1)) in
          (p, probe_later fuel key idx h e k ∙ run, shift-Ends fuel key idx p h e ends)
    ]
  ]

abbrev pub index_of : Run Probe → ℕ
index_of panic = 0
index_of (ok (vacant i)) = i
index_of (ok (present i)) = i
index_of (ok spent) = 0

-- A table with the same keys in the buckets that another one uses.
module _ (mask : ℕ) (b b' : List Bucket) (whole : length b ≡ mask + 1)
    (whole' : length b' ≡ mask + 1)
    (kept : (i : ℕ)
      → (bucket b i).used ≡ true
      → ((bucket b' i).used ≡ true) × ((bucket b' i).key ≡ (bucket b i).key))
    (key : ℕ) where
  pub present_kept :
      (fuel idx j : ℕ)
      → idx < mask + 1
      → probe fuel b mask key idx ≡ ok (present j)
      → probe fuel b' mask key idx ≡ ok (present j)
  unfolding probe
  present_kept zero idx j h e = absurd (cc)
  present_kept (suc fuel) idx j h e = elim (Bool-cases (bucket b idx).used) [
    | inr u ↦
        let stop : ok (vacant idx) ≡ ok (present j) =
          sym (probe_vacant mask b whole fuel key idx h u) ∙ e in
        absurd (cc)
    | inl u ↦
        let (u', same_key) = kept idx u in
        elim (Bool-cases ((bucket b idx).key == key)) [
          | inl k ↦
              probe_present mask b' whole' fuel key idx h u' (rw same_key k)
              ∙ sym (probe_present mask b whole fuel key idx h u k)
              ∙ e
          | inr k ↦
              probe_later mask b' whole' fuel key idx h u' (rw same_key k)
              ∙ present_kept fuel (masked mask (idx + 1)) j (masked_lt mask b whole (idx + 1))
                  (sym (probe_later mask b whole fuel key idx h u k) ∙ e)
        ]
  ]

  pub vacant_filled :
      (fuel idx j : ℕ)
      → idx < mask + 1
      → (bucket b' j).used ≡ true
      → ((bucket b' j).key == key) ≡ true
      → probe fuel b mask key idx ≡ ok (vacant j)
      → probe fuel b' mask key idx ≡ ok (present j)
  unfolding probe
  vacant_filled zero idx j h f g e = absurd (cc)
  vacant_filled (suc fuel) idx j h f g e = elim (Bool-cases (bucket b idx).used) [
    | inr u ↦
        let here : idx ≡ j = ap index_of (sym (probe_vacant mask b whole fuel key idx h u) ∙ e) in
        rw here (probe_present mask b' whole' fuel key j (rw here at h) f g)
    | inl u ↦
        let (u', same_key) = kept idx u in
        elim (Bool-cases ((bucket b idx).key == key)) [
          | inl k ↦
              let stop : ok (present idx) ≡ ok (vacant j) =
                sym (probe_present mask b whole fuel key idx h u k) ∙ e in
              absurd (cc)
          | inr k ↦
              probe_later mask b' whole' fuel key idx h u' (rw same_key k)
              ∙ vacant_filled fuel (masked mask (idx + 1)) j (masked_lt mask b whole (idx + 1)) f g
                  (sym (probe_later mask b whole fuel key idx h u k) ∙ e)
        ]
  ]
