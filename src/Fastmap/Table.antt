-- ===== src/Fastmap/Table.antt =====
-- Open addressing with linear probing: fastmap/fastmap.go. A pointer is a number, nil is 0. The mask is
-- one less than a power of two, so `& m.mask` is the remainder by `m.mask + 1`.
use gdbx.Base.{
  ℕ, zero, suc, ◌+◌, ◌-◌, ◌*◌, ◌/◌, ◌%◌, ◌^◌, ltb, leb, ◌==◌, if◌then◌else◌, Bool, true, false,
  List, [], ◌∷◌, length, set, get_or, replicate, Option, none, some, Run, ok, ◌>>=◌, in_range,
}

pub record Bucket : Type 0 where
  pub key : ℕ
  pub value : ℕ
  pub used : Bool

pub record Uint32Map : Type 0 where
  pub buckets : List Bucket
  pub count : ℕ
  pub mask : ℕ

abbrev pub unused : Bucket
unused = record { key = 0; value = 0; used = false }

unfoldable pub hash : ℕ → ℕ
hash key = (key * 2654435769) % 2 ^ 32

abbrev pub masked : ℕ → ℕ → ℕ
masked mask x = x % (mask + 1)

-- How the loop of `Get` and `Set` ends: at a bucket that is not used, at the key, or without fuel.
pub data Probe : Type 0 where
  vacant : ℕ → Probe
  present : ℕ → Probe
  spent : Probe

unfoldable pub probe : ℕ → List Bucket → ℕ → ℕ → ℕ → Run Probe
probe zero buckets mask key idx = ok spent
probe (suc fuel) buckets mask key idx =
    let later = probe fuel buckets mask key (masked mask (idx + 1)) in
    let b = get_or buckets idx unused in
    in_range (ltb idx (length buckets)) >>= λ _.
    if b.used then (if b.key == key then ok (present idx) else later) else ok (vacant idx)

-- From the bucket of the hash, on fuel for each bucket.
abbrev pub probe_from_hash : Uint32Map → ℕ → Run Probe
probe_from_hash m key = probe (length m.buckets) m.buckets m.mask key (masked m.mask (hash key))

-- `none` is a loop without fuel.
unfoldable pub get : Uint32Map → ℕ → Run (Option ℕ)
get m key =
    if length m.buckets == 0
    then ok (some 0)
    else probe_from_hash m key >>= λ p. elim p [
      | vacant i ↦ ok (some 0)
      | present i ↦ ok (some ((get_or m.buckets i unused).value))
      | spent ↦ ok none
    ]

-- What the loop of `Set` writes.
unfoldable pub write_at : Uint32Map → ℕ → ℕ → Probe → Option Uint32Map
write_at m key value (vacant i) = some (record m {
  buckets = set m.buckets i (record { key = key; value = value; used = true });
  count = m.count + 1;
})
write_at m key value (present i) =
    some (record m {
      buckets = set m.buckets i (record (get_or m.buckets i unused) { value = value });
    })
write_at m key value spent = none

-- The loop of `Set`.
unfoldable pub place : Uint32Map → ℕ → ℕ → Run (Option Uint32Map)
place m key value = probe_from_hash m key >>= λ p. ok (write_at m key value p)

-- The loop of `grow` over the old buckets, by what is to be `Set`.
unfoldable pub move_all :
    (Uint32Map → ℕ → ℕ → Run (Option Uint32Map)) → List Bucket → Uint32Map → Run (Option Uint32Map)
move_all put [] m = ok (some m)
move_all put (b ∷ rest) m =
    if b.used
    then (put m b.key b.value >>= λ moved. elim moved [
      | none ↦ ok none
      | some m' ↦ move_all put rest m'
    ])
    else move_all put rest m

unfoldable pub grow :
    (Uint32Map → ℕ → ℕ → Run (Option Uint32Map)) → Uint32Map → Run (Option Uint32Map)
grow put m =
    let size = length m.buckets * 2 in
    move_all put m.buckets
      (record { buckets = replicate size unused; count = 0; mask = (size - 1) % 2 ^ 32 })

-- `Set` and `grow` call each other: the fuel is the depth of these calls.
unfoldable pub set_value : ℕ → Uint32Map → ℕ → ℕ → Run (Option Uint32Map)
set_value zero m key value = ok none
set_value (suc fuel) m key value =
    let grown = grow (set_value fuel) m in
    (if length m.buckets == 0
      then ok (some (record m { buckets = replicate 16 unused; mask = 15 }))
      else if leb (length m.buckets * 3 / 4) m.count
      then grown
      else ok (some m))
    >>= λ ready. elim ready [ none ↦ ok none | some m' ↦ place m' key value ]

unfoldable pub for_each {ℓ} : {A : Type ℓ} → (ℕ → ℕ → A → A) → List Bucket → A → A
for_each fn [] state = state
for_each fn (b ∷ rest) state = for_each fn rest (if b.used then fn b.key b.value state else state)

unfoldable pub clear : Uint32Map → Uint32Map
clear m = record m { buckets = replicate (length m.buckets) unused; count = 0 }

unfoldable pub len : Uint32Map → ℕ
len m = m.count
