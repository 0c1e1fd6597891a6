-- ===== src/Fastmap/Write.antt =====
-- `Set` in a table with room: what `Get` returns afterwards.
use gdbx.Base.{
  ℕ, ◌+◌, ◌≤◌, ◌<◌, ◌≡◌, ◌≢◌, refl, sym, ap, subst, ◌∙◌, true, false, ◌==◌, List, length, set,
  get_or-set_self, get_or-set_ne, length-set, arith, inl, inr, ◌⊎◌, Option, some, Run, ok,
}
use native.Mathlib.Decide.{ℕ_discrete}
use gdbx.Fastmap.Table.{
  Bucket, Uint32Map, unused, masked, hash, vacant, present, probe, probe_from_hash, get, write_at,
  place,
}
use gdbx.Fastmap.Probe.{bucket, present_kept, vacant_filled}
use gdbx.Fastmap.Place.{
  IsTable, count_used, count_used-set, locate, home_lt, get-present, get-vacant,
}

-- The bucket that the loop ends at, before the write.
abbrev Slot : Uint32Map → ℕ → ℕ → Type 0
Slot m key i =
    (((bucket m.buckets i).used ≡ false) × (probe_from_hash m key ≡ ok (vacant i)))
    ⊎ (((bucket m.buckets i).used ≡ true)
        × ((bucket m.buckets i).key ≡ key)
        × (probe_from_hash m key ≡ ok (present i)))

-- The buckets after the write: the pair stands in bucket `i`, and the others are as they were.
record IsWritten (b b' : List Bucket) (i key value : ℕ) : Type 0 where
  same_length : length b' ≡ length b
  used_here : (bucket b' i).used ≡ true
  key_here : (bucket b' i).key ≡ key
  value_here : (bucket b' i).value ≡ value
  elsewhere : (j : ℕ) → j ≢ i → bucket b' j ≡ bucket b j

module _ (m : Uint32Map) (v : IsTable m) (key value i : ℕ) (slot : Slot m key i) (b' : List Bucket)
    (w : IsWritten m.buckets b' i key value) (n : ℕ) (counted : count_used b' ≡ n)
    (room : n < length m.buckets) where
  abbrev after : Uint32Map
  after = record m { buckets = b'; count = n }

  kept :
      (j : ℕ)
      → (bucket m.buckets j).used ≡ true
      → ((bucket b' j).used ≡ true) × ((bucket b' j).key ≡ (bucket m.buckets j).key)
  kept j u = elim (ℕ_discrete j i) [
    | no q ↦ let same_bucket = w.elsewhere j q in (rw same_bucket u, rw same_bucket)
    | yes q ↦ elim slot [
      | inl (free, e) ↦ let here : (bucket m.buckets j).used ≡ false = rw q free in absurd (cc)
      | inr (taken, k, e) ↦ (rw q w.used_here, rw q (w.key_here ∙ sym k))
    ]
  ]

  whole' : length b' ≡ m.mask + 1
  whole' = w.same_length ∙ v.whole

  still_present :
      (other j : ℕ)
      → probe_from_hash m other ≡ ok (present j)
      → probe_from_hash after other ≡ ok (present j)
  still_present other j e =
      ap (λ fuel. probe fuel b' m.mask other (masked m.mask (hash other))) w.same_length
      ∙ present_kept m.mask m.buckets b' v.whole whole' kept other (length m.buckets)
          (masked m.mask (hash other)) j (home_lt m v other) e

  now_present : probe_from_hash after key ≡ ok (present i)
  now_present = elim slot [
    | inr (taken, k, e) ↦ still_present key i e
    | inl (free, e) ↦
        let same_key : ((bucket b' i).key == key) ≡ true = let k = w.key_here in ground arith in
        ap (λ fuel. probe fuel b' m.mask key (masked m.mask (hash key))) w.same_length
        ∙ vacant_filled m.mask m.buckets b' v.whole whole' kept key (length m.buckets)
            (masked m.mask (hash key)) i (home_lt m v key) w.used_here same_key e
  ]

  found' :
      (j : ℕ)
      → j < m.mask + 1
      → (bucket b' j).used ≡ true
      → probe_from_hash after (bucket b' j).key ≡ ok (present j)
  found' j h u = elim (ℕ_discrete j i) [
    | yes q ↦ rw (q, w.key_here) now_present
    | no q ↦
        let same_bucket = w.elsewhere j q in
        rw same_bucket
          (still_present (bucket m.buckets j).key j (v.found j h (rw same_bucket at u)))
  ]

  after-IsTable : IsTable after
  after-IsTable = record {
    whole = whole';
    counted = counted;
    room = omega (arith, room, w.same_length);
    found = found';
  }

  get-written : get after key ≡ ok (some value)
  get-written =
      get-present after after-IsTable key i now_present ∙ ap (λ x. ok (some x)) w.value_here

  -- A bucket of another key is not the one that is written.
  not_here :
      (other j : ℕ)
      → other ≢ key
      → (bucket m.buckets j).used ≡ true
      → (bucket m.buckets j).key ≡ other
      → j ≢ i
  not_here other j ne u k q = elim slot [
    | inl (free, e) ↦ let here : (bucket m.buckets j).used ≡ false = rw q free in absurd (cc)
    | inr (taken, same_key, e) ↦
        absurd (ne (sym k ∙ ap (λ x. (bucket m.buckets x).key) q ∙ same_key))
  ]

  absent_after :
      (other j : ℕ)
      → other ≢ key
      → probe_from_hash m other ≡ ok (vacant j)
      → get after other ≡ ok (some 0)
  absent_after other j ne e = elim (locate after after-IsTable other) [
    | inr (k, h, free, run) ↦ get-vacant after after-IsTable other k run
    | inl (k, h, u, same_key, run) ↦
        let apart : k ≢ i = λ q. ne (sym same_key ∙ ap (λ x. (bucket b' x).key) q ∙ w.key_here) in
        let same_bucket = w.elsewhere k apart in
        let was : probe_from_hash m other ≡ ok (present k) =
          subst (λ x. probe_from_hash m x ≡ ok (present k)) (rw same_bucket at same_key)
            (v.found k h (rw same_bucket at u)) in
        let clash : ok (vacant j) ≡ ok (present k) = sym e ∙ was in absurd (cc)
  ]

  get-others : (other : ℕ) → other ≢ key → get after other ≡ get m other
  get-others other ne = elim (locate m v other) [
    | inl (j, h, u, k, run) ↦
        let same_bucket = w.elsewhere j (not_here other j ne u k) in
        get-present after after-IsTable other j (still_present other j run)
        ∙ ap (λ x. ok (some x.value)) same_bucket
        ∙ sym (get-present m v other j run)
    | inr (j, h, free, run) ↦ absent_after other j ne run ∙ sym (get-vacant m v other j run)
  ]

-- What `Set` leaves: a well-formed table of the same size that holds the pair, and otherwise the same.
abbrev pub Sets : Uint32Map → ℕ → ℕ → Run (Option Uint32Map) → Type 0
Sets m key value r =
    (m' : Uint32Map) × (r ≡ ok (some m'))
    × IsTable m'
    × (length m'.buckets ≡ length m.buckets)
    × (m'.count ≤ m.count + 1)
    × (get m' key ≡ ok (some value))
    × ((other : ℕ) → other ≢ key → get m' other ≡ get m other)

set-IsWritten :
    (b : List Bucket) (i : ℕ) (x : Bucket)
    → i < length b
    → x.used ≡ true
    → IsWritten b (set b i x) i x.key x.value
set-IsWritten b i x h u = record {
  same_length = length-set b i x;
  used_here = ap (λ y. y.used) (get_or-set_self b i x unused h) ∙ u;
  key_here = ap (λ y. y.key) (get_or-set_self b i x unused h);
  value_here = ap (λ y. y.value) (get_or-set_self b i x unused h);
  elsewhere = λ j ne. get_or-set_ne b i j x unused (λ e. ne (sym e));
}

-- The table with a used bucket of the key written at the slot of the key.
written-Sets :
    (m : Uint32Map) (i n : ℕ) (x : Bucket)
    → IsTable m
    → i < length m.buckets
    → x.used ≡ true
    → Slot m x.key i
    → count_used (set m.buckets i x) ≡ n
    → n ≤ m.count + 1
    → n < length m.buckets
    → Sets m x.key x.value (ok (some (record m { buckets = set m.buckets i x; count = n })))
written-Sets m i n x v h u slot counted more room =
    let w = set-IsWritten m.buckets i x h u in
    (
      record m { buckets = set m.buckets i x; count = n },
      refl,
      after-IsTable m v x.key x.value i slot (set m.buckets i x) w n counted room,
      length-set m.buckets i x,
      more,
      get-written m v x.key x.value i slot (set m.buckets i x) w n counted room,
      get-others m v x.key x.value i slot (set m.buckets i x) w n counted room,
    )

-- In a well-formed table in which a bucket is left beside the one that may be taken, the loop of `Set`
-- ends without a panic, and leaves a well-formed table of the same size, in which `Get` returns the
-- value for the key, and for each other key what it returned before.
pub place_lem :
    (m : Uint32Map) (key value : ℕ)
    → IsTable m
    → m.count + 1 < length m.buckets
    → Sets m key value (place m key value)
unfolding place write_at
place_lem m key value v room = elim (locate m v key) [
  | inr (i, h, free, run) ↦
      let here : i < length m.buckets = omega (arith, h, v.whole) in
      let x : Bucket = record { key = key; value = value; used = true } in
      let one_more : count_used (set m.buckets i x) ≡ m.count + 1 =
        omega (arith, rw free at (count_used-set m.buckets i x here), v.counted) in
      rw run
        (written-Sets m i (m.count + 1) x v here refl (inl (free, run)) one_more (omega arith) room)
  | inl (i, h, u, k, run) ↦
      let here : i < length m.buckets = omega (arith, h, v.whole) in
      let x : Bucket = record (bucket m.buckets i) { value = value } in
      let as_many : count_used (set m.buckets i x) ≡ m.count =
        omega (arith, count_used-set m.buckets i x here, v.counted) in
      let slot : Slot m x.key i = inr (u, refl, rw k run) in
      rw run (
        subst (λ stored. Sets m stored value (ok (some (record m { buckets = set m.buckets i x }))))
          k (written-Sets m i m.count x v here u slot as_many (omega arith) (omega (arith, room))))
]
