-- ===== src/Tests/Maps.antt =====
-- A run on a map of two buckets that doubles.
use gdbx.Base.{ℕ, zero, suc, ◌<◌, ◌≡◌, refl, true, [], ◌∷◌, arith, ok, inr}
use gdbx.Fastmap.Table.{Uint32Map, unused, present, hash, probe, probe_from_hash, set_value}
use gdbx.Fastmap.Probe.{bucket}
use gdbx.Fastmap.Place.{IsTable, count_used}
use gdbx.Fastmap.Set.{Stores, set_value_lem}

-- The key 0 with the value 7.
abbrev two_buckets : Uint32Map
two_buckets = record {
  buckets = record { key = 0; value = 7; used = true } ∷ unused ∷ [];
  count = 1;
  mask = 1;
}

found :
    (j : ℕ)
    → j < 2
    → (bucket two_buckets.buckets j).used ≡ true
    → probe_from_hash two_buckets (bucket two_buckets.buckets j).key ≡ ok (present j)
unfolding probe hash
found zero h u = refl
found (suc zero) h u = absurd (cc)
found (suc (suc j)) h u = absurd (omega arith)

two_buckets-IsTable : IsTable two_buckets
unfolding count_used
two_buckets-IsTable = record { whole = refl; counted = refl; room = omega arith; found = found }

set_value_lem_example : Stores two_buckets 3 9 (set_value 2 two_buckets 3 9)
set_value_lem_example = set_value_lem two_buckets 3 9 (inr (two_buckets-IsTable, omega arith))
