-- ===== src/Fastmap/Grow.antt =====
-- `grow`, and `Set` in any table.
use native.Mathlib.Nat.{mod-eq_of_lt}
use gdbx.Base.{
  ℕ, zero, suc, ◌+◌, ◌-◌, ◌%◌, ◌^◌, ◌≤◌, ◌<◌, ◌≡◌, refl, sym, ap, subst, ◌∙◌, true, false,
  Bool-cases, if◌then◌else◌, ◌==◌, List, [], ◌∷◌, length, replicate, length-replicate,
  get_or-replicate, arith, inl, inr, Option, some, Run, ok,
}
use gdbx.Fastmap.Table.{Bucket, Uint32Map, unused, present, vacant, probe_from_hash, get}
use gdbx.Fastmap.Probe.{bucket, index_of}
use gdbx.Fastmap.Place.{IsTable, count_used, locate, get-present, get-vacant}

-- A table without entries.
module _ (size : ℕ) (pos : 0 < size) (addressable : size ≤ 2 ^ 32) where
  abbrev pub empty : Uint32Map
  empty = record { buckets = replicate size unused; count = 0; mask = (size - 1) % 2 ^ 32 }

  none_used : (n : ℕ) → count_used (replicate n unused) ≡ 0
  unfolding count_used
  none_used zero = refl
  none_used (suc n) = omega (arith, none_used n)

  empty-whole : length (replicate size unused) ≡ (size - 1) % 2 ^ 32 + 1
  empty-whole =
      let small : (size - 1) % 2 ^ 32 ≡ size - 1 = mod-eq_of_lt (omega arith) in
      length-replicate size unused ∙ omega (arith, small)

  pub empty-IsTable : IsTable empty
  empty-IsTable = record {
    whole = empty-whole;
    counted = none_used size;
    room = omega (arith, length-replicate size unused);
    found = λ j h u.
        let free : (bucket (replicate size unused) j).used ≡ false =
          ap (λ b. b.used) (get_or-replicate size j unused) in
        absurd (cc);
  }

  pub get-empty : (key : ℕ) → get empty key ≡ ok (some 0)
  get-empty key = elim (locate empty empty-IsTable key) [
    | inr (i, h, free, run) ↦ get-vacant empty empty-IsTable key i run
    | inl (i, h, u, k, run) ↦
        let free : (bucket (replicate size unused) i).used ≡ false =
          ap (λ b. b.used) (get_or-replicate size i unused) in
        absurd (cc)
  ]

-- What `Get` returns after the used buckets of a list are set in turn.
unfoldable pub held : List Bucket → ℕ → Run (Option ℕ) → Run (Option ℕ)
held [] key default = default
held (b ∷ rest) key default =
    held rest key
      (if b.used then (if b.key == key then ok (some b.value) else default) else default)

module _ (key : ℕ) (r : Run (Option ℕ)) where
  abbrev Agree : List Bucket → Type 0
  Agree b =
      (j : ℕ)
      → j < length b
      → (bucket b j).used ≡ true
      → (bucket b j).key ≡ key
      → ok (some (bucket b j).value) ≡ r

  -- A bucket that agrees, or that is of another key.
  held_step :
      (b : Bucket)
      → (b.used ≡ true → b.key ≡ key → ok (some b.value) ≡ r)
      → (if b.used then (if b.key == key then ok (some b.value) else r) else r) ≡ r
  held_step b h = elim (Bool-cases b.used) [
    | inr u ↦ rw u
    | inl u ↦ elim (Bool-cases (b.key == key)) [
      | inr k ↦ rw (u, k)
      | inl k ↦ rw (u, k) (h u (ground arith))
    ]
  ]

  held_stays : (b : List Bucket) → Agree b → held b key r ≡ r
  unfolding held
  held_stays [] h = refl
  held_stays (x ∷ rest) h =
      ap (held rest key) (held_step x (λ u k. h 0 (omega arith) u k))
      ∙ held_stays rest (λ j lt u k. h (suc j) (omega (arith, lt)) u k)

  held_hit :
      (b : List Bucket) (i : ℕ) (default : Run (Option ℕ))
      → Agree b
      → i < length b
      → (bucket b i).used ≡ true
      → (bucket b i).key ≡ key
      → held b key default ≡ r
  unfolding held
  held_hit [] i default h lt u k = absurd (omega (arith, lt))
  held_hit (x ∷ rest) zero default h lt u k =
      let same_key : (x.key == key) ≡ true = ground arith in
      rw (u, same_key, h 0 (omega arith) u k)
        (held_stays rest (λ j lt u k. h (suc j) (omega (arith, lt)) u k))
  held_hit (x ∷ rest) (suc i) default h lt u k =
      held_hit rest i _ (λ j lt u k. h (suc j) (omega (arith, lt)) u k) (omega (arith, lt)) u k

-- A well-formed table returns what its buckets hold.
pub held-get :
    (m : Uint32Map) → IsTable m → (key : ℕ) → held m.buckets key (ok (some 0)) ≡ get m key
held-get m v key = elim (locate m v key) [
  | inl (i, h, u, k, run) ↦
      held_hit key (ok (some (bucket m.buckets i).value)) m.buckets i (ok (some 0))
        (λ j lt u' k'.
          let found = v.found j (omega (arith, lt, v.whole)) u' in
          let same_index : j ≡ i =
            ap index_of (sym (subst (λ x. probe_from_hash m x ≡ ok (present j)) k' found) ∙ run) in
          ap (λ x. ok (some (bucket m.buckets x).value)) same_index)
        (omega (arith, h, v.whole)) u k
      ∙ sym (get-present m v key i run)
  | inr (i, h, free, run) ↦
      held_stays key (ok (some 0)) m.buckets (λ j lt u' k'.
        let clash : ok (present j) ≡ ok (vacant i) =
          sym (
            subst (λ x. probe_from_hash m x ≡ ok (present j)) k'
              (v.found j (omega (arith, lt, v.whole)) u'))
          ∙ run in
        absurd (cc))
      ∙ sym (get-vacant m v key i run)
]
