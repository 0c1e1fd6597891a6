-- ===== src/Fastmap/Set.antt =====
-- `Set` in any table: the loop of `grow`, and the growth before the loop of `Set`.
use native.Mathlib.Decide.{dec_le, ℕ_discrete}
use gdbx.Base.{
  ℕ, suc, ◌+◌, ◌*◌, ◌/◌, ◌^◌, ◌≤◌, ◌<◌, ◌≡◌, ◌≢◌, refl, sym, ap, subst, ◌∙◌, true, false,
  Bool-cases, if◌then◌else◌, gt→leb, le→leb, ◌==◌, List, [], ◌∷◌, length, length-replicate,
  replicate, arith, inl, inr, ◌⊎◌, Option, some, Run, ok,
}
use gdbx.Fastmap.Table.{Bucket, Uint32Map, unused, get, place, move_all, grow, set_value}
use gdbx.Fastmap.Place.{IsTable, count_used}
use gdbx.Fastmap.Write.{place_lem}
use gdbx.Fastmap.Grow.{empty, empty-IsTable, get-empty, held, held-get}

-- Below three quarters of its buckets a table does not grow.
set_value-place :
    (fuel : ℕ) (m : Uint32Map) (key value : ℕ)
    → m.count < length m.buckets * 3 / 4
    → set_value (suc fuel) m key value ≡ place m key value
unfolding set_value
set_value-place fuel m key value low =
    let some_buckets : (length m.buckets == 0) ≡ false = ground arith in
    rw (some_buckets, gt→leb (length m.buckets * 3 / 4) m.count low)

-- The table after the used buckets of a list are set in turn.
abbrev Moves : Uint32Map → List Bucket → Run (Option Uint32Map) → Type 0
Moves m rest r =
    (m' : Uint32Map) × (r ≡ ok (some m'))
    × IsTable m'
    × (length m'.buckets ≡ length m.buckets)
    × (m'.count ≤ m.count + count_used rest)
    × ((key : ℕ) → get m' key ≡ held rest key (get m key))

-- One bucket that is set.
get_after :
    (m m' : Uint32Map) (b : Bucket)
    → get m' b.key ≡ ok (some b.value)
    → ((other : ℕ) → other ≢ b.key → get m' other ≡ get m other)
    → (key : ℕ) → get m' key ≡ (if b.key == key then ok (some b.value) else get m key)
get_after m m' b here others key = elim (ℕ_discrete b.key key) [
  | yes q ↦
      let same_key : (b.key == key) ≡ true = ground arith in
      rw same_key (subst (λ k. get m' k ≡ ok (some b.value)) q here)
  | no q ↦
      let apart : (b.key == key) ≡ false = ground arith in rw apart (others key (λ e. q (sym e)))
]

move_all-Moves :
    (fuel : ℕ) (rest : List Bucket) (m : Uint32Map)
    → IsTable m
    → m.count + count_used rest ≤ length m.buckets * 3 / 4
    → Moves m rest (move_all (set_value (suc fuel)) rest m)
unfolding move_all held count_used
move_all-Moves fuel [] m v low = (m, refl, v, refl, omega arith, λ key. refl)
move_all-Moves fuel (b ∷ rest) m v low = elim (Bool-cases b.used) [
  | inr u ↦
      let fewer : m.count + (0 + count_used rest) ≤ length m.buckets * 3 / 4 = rw u at low in
      let (m', run, v', size, few, same_values) = move_all-Moves fuel rest m v (omega arith) in
      rw u (m', run, v', size, omega (arith, few), same_values)
  | inl u ↦
      let fewer : m.count + (1 + count_used rest) ≤ length m.buckets * 3 / 4 = rw u at low in
      let (m1, run1, v1, size1, few1, here, others) = place_lem m b.key b.value v (omega arith) in
      let set1 : set_value (suc fuel) m b.key b.value ≡ ok (some m1) =
        set_value-place fuel m b.key b.value (omega arith) ∙ run1 in
      let (m2, run2, v2, size2, few2, values2) =
        move_all-Moves fuel rest m1 v1 (omega (arith, few1, size1, fewer)) in
      rw (u, set1)
        (
          m2,
          run2,
          v2,
          size2 ∙ size1,
          omega (arith, few1, few2),
          λ key. values2 key ∙ ap (held rest key) (get_after m m1 b here others key),
        )
]

-- The table of twice the size returns what the old one did.
grow-Moves :
    (fuel : ℕ) (m : Uint32Map)
    → IsTable m
    → length m.buckets * 2 ≤ 2 ^ 32
    → (m' : Uint32Map) × (grow (set_value (suc fuel)) m ≡ ok (some m'))
      × IsTable m'
      × (m'.count + 1 < length m'.buckets)
      × ((key : ℕ) → get m' key ≡ get m key)
unfolding grow
grow-Moves fuel m v addressable =
    let size = length m.buckets * 2 in
    let pos : 0 < size = omega (arith, v.room) in
    let long : length (replicate size unused) ≡ size = length-replicate size unused in
    let (m', run, v', same_size, few, values) =
      move_all-Moves fuel m.buckets (empty size pos addressable)
        (empty-IsTable size pos addressable) (omega (arith, v.counted, v.room, long)) in
    (
      m',
      run,
      v',
      omega (arith, few, same_size, long, v.counted, v.room),
      λ key.
          values key
          ∙ ap (held m.buckets key) (get-empty size pos addressable key)
          ∙ held-get m v key,
    )

-- A table that is ready for the loop of `Set`, and what that loop leaves.
abbrev pub Stores : Uint32Map → ℕ → ℕ → Run (Option Uint32Map) → Type 0
Stores m key value r =
    (m' : Uint32Map) × (r ≡ ok (some m'))
    × IsTable m'
    × (get m' key ≡ ok (some value))
    × ((other : ℕ) → other ≢ key → get m' other ≡ get m other)

place-Stores :
    (m ready : Uint32Map) (key value : ℕ)
    → IsTable ready
    → ready.count + 1 < length ready.buckets
    → ((other : ℕ) → get ready other ≡ get m other)
    → Stores m key value (place ready key value)
place-Stores m ready key value v room same_values =
    let (m', run, v', size, few, here, others) = place_lem ready key value v room in
    (m', run, v', here, λ other ne. others other ne ∙ same_values other)

-- A map that nothing was set in, or a well-formed table that can double.
abbrev pub IsMap : Uint32Map → Type 0
IsMap m =
    (((length m.buckets == 0) ≡ true) × (m.count ≡ 0))
    ⊎ (IsTable m × (length m.buckets * 2 ≤ 2 ^ 32))

get-unset : (m : Uint32Map) (key : ℕ) → (length m.buckets == 0) ≡ true → get m key ≡ ok (some 0)
unfolding get
get-unset m key e = rw e

-- The sixteen buckets of the first call.
first_table : Uint32Map
first_table = empty 16 (omega arith) (omega arith)

first-Stores :
    (m : Uint32Map) (key value : ℕ)
    → (length m.buckets == 0) ≡ true
    → Stores m key value (place first_table key value)
unfolding first_table
first-Stores m key value e =
    place-Stores m first_table key value (empty-IsTable 16 (omega arith) (omega arith))
      (omega arith)
      (λ other. get-empty 16 (omega arith) (omega arith) other ∙ sym (get-unset m other e))

first_call :
    (m : Uint32Map) (key value : ℕ)
    → (length m.buckets == 0) ≡ true
    → m.count ≡ 0
    → set_value 2 m key value ≡ place first_table key value
unfolding set_value first_table
first_call m key value no_buckets none_set = rw no_buckets (
    ap (λ n. place (record { buckets = replicate 16 unused; count = n; mask = 15 }) key value)
      none_set)

-- In a new map, or in a well-formed one that can double in 32 bits, `Set` ends without a panic, with
-- room made at most once: the calls of `Set` in `grow` do not grow again. It leaves a well-formed map,
-- in which `Get` returns the value for the key, and for each other key what it returned before.
pub set_value_lem :
    (m : Uint32Map) (key value : ℕ) → IsMap m → Stores m key value (set_value 2 m key value)
unfolding set_value
set_value_lem m key value (inl (no_buckets, none_set)) =
    subst (Stores m key value) (sym (first_call m key value no_buckets none_set))
      (first-Stores m key value no_buckets)
set_value_lem m key value (inr (v, addressable)) =
    elim (dec_le (length m.buckets * 3 / 4) m.count) [
      | yes full ↦
          let some_buckets : (length m.buckets == 0) ≡ false = let r = v.room in ground arith in
          let (m', run, v', room, same_values) = grow-Moves 0 m v addressable in
          rw (some_buckets, le→leb (length m.buckets * 3 / 4) m.count full, run)
            (place-Stores m m' key value v' room same_values)
      | no low ↦
          rw (set_value-place 1 m key value (omega arith))
            (place-Stores m m key value v (omega (arith, v.room)) (λ other. refl))
    ]
