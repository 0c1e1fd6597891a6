-- ===== src/Fastmap/Place.antt =====
-- A well-formed table, and what the loop of `Set` makes of it.
use gdbx.Base.{
  ℕ, zero, suc, ◌+◌, ◌<◌, ◌≡◌, true, false, Bool-cases, if◌then◌else◌, ◌==◌, List, [], ◌∷◌, length,
  set, arith, inl, inr, ◌⊎◌, some, ok,
}
use native.Mathlib.Decide.{dec_lt}
use gdbx.Fastmap.Table.{
  Bucket, Uint32Map, masked, hash, Probe, vacant, present, spent, probe_from_hash, get,
}
use gdbx.Fastmap.Probe.{bucket, Ends, probe-Ends, masked_lt}

unfoldable pub count_used : List Bucket → ℕ
count_used [] = 0
count_used (b ∷ rest) = (if b.used then 1 else 0) + count_used rest

free_bucket :
    (b : List Bucket)
    → count_used b < length b
    → (i : ℕ) × (i < length b) × ((bucket b i).used ≡ false)
unfolding count_used
free_bucket [] h = absurd (omega arith)
free_bucket (x ∷ rest) h = elim (Bool-cases x.used) [
  | inr e ↦ (0, omega arith, e)
  | inl e ↦
      let fewer : 1 + count_used rest < suc (length rest) = rw e at h in
      let (i, lt, free) = free_bucket rest (omega arith) in (suc i, omega (arith, lt), free)
]

pub count_used-set :
    (b : List Bucket) (i : ℕ) (x : Bucket)
    → i < length b
    → count_used (set b i x) + (if (bucket b i).used then 1 else 0)
      ≡ count_used b + (if x.used then 1 else 0)
unfolding count_used
count_used-set [] i x h = absurd (omega arith)
count_used-set (y ∷ rest) zero x h = omega arith
count_used-set (y ∷ rest) (suc i) x h = omega (arith, count_used-set rest i x (omega arith))

-- The mask fits the table, the count is that of the used buckets, one is not used, and the loop from the
-- hash of each stored key finds it.
pub record IsTable (m : Uint32Map) : Type 0 where
  pub whole : length m.buckets ≡ m.mask + 1
  pub counted : count_used m.buckets ≡ m.count
  pub room : m.count < length m.buckets
  pub found :
      (j : ℕ)
      → j < m.mask + 1
      → (bucket m.buckets j).used ≡ true
      → probe_from_hash m (bucket m.buckets j).key ≡ ok (present j)

-- Where the loop ends: at the key, or at a bucket that is not used, and then no bucket has the key.
abbrev pub Located : Uint32Map → ℕ → Type 0
Located m key =
    ((i : ℕ) × (i < m.mask + 1)
      × ((bucket m.buckets i).used ≡ true)
      × ((bucket m.buckets i).key ≡ key)
      × (probe_from_hash m key ≡ ok (present i)))
    ⊎ ((i : ℕ) × (i < m.mask + 1)
        × ((bucket m.buckets i).used ≡ false)
        × (probe_from_hash m key ≡ ok (vacant i)))

module _ (m : Uint32Map) (v : IsTable m) (key : ℕ) where
  pub home_lt : masked m.mask (hash key) < m.mask + 1
  home_lt = masked_lt m.mask m.buckets v.whole (hash key)

  pub locate : Located m key
  locate =
      let (p, run, ends) =
        probe-Ends m.mask m.buckets v.whole (length m.buckets) key (masked m.mask (hash key))
          home_lt in
      ended p run ends
    where
      ended :
          (p : Probe)
          → probe_from_hash m key ≡ ok p
          → Ends m.mask m.buckets v.whole (length m.buckets) key (masked m.mask (hash key)) p
          → Located m key
      ended (vacant i) run (h, e) = inr (i, h, e, run)
      ended (present i) run (h, e, k) = inl (i, h, e, ground arith, run)
      ended spent run (up, around) =
          let (i, lt, free) = free_bucket m.buckets (omega (arith, v.counted, v.room)) in
          let home = home_lt in
          let taken : (bucket m.buckets i).used ≡ true =
            elim (dec_lt i (masked m.mask (hash key))) [
              | yes low ↦ around i (omega (arith, lt, v.whole)) (omega (arith, low, v.whole))
              | no high ↦
                  up i (omega (arith, lt, v.whole)) (omega (arith, high)) (omega (arith, lt))
            ] in
          absurd (cc)

module _ (m : Uint32Map) (v : IsTable m) (key : ℕ) where
  pub get-present :
      (i : ℕ)
      → probe_from_hash m key ≡ ok (present i)
      → get m key ≡ ok (some (bucket m.buckets i).value)
  unfolding get
  get-present i e =
      let some_buckets : (length m.buckets == 0) ≡ false = let w = v.whole in ground arith in
      rw (some_buckets, e)

  pub get-vacant : (i : ℕ) → probe_from_hash m key ≡ ok (vacant i) → get m key ≡ ok (some 0)
  unfolding get
  get-vacant i e =
      let some_buckets : (length m.buckets == 0) ≡ false = let w = v.whole in ground arith in
      rw (some_buckets, e)
