-- ===== src/Search/Order.antt =====
-- `bytes.Compare`: the lexicographic order of byte slices.
use Prim.Native.Nat.{compare, Ordering}
use gdbx.Base.{ℕ, ◌≡◌, refl, List, [], ◌∷◌, arith}

pub data Side : Type 0 where
  less same more : Side

abbrev pub order_side : Ordering → Side → Side
order_side Ordering.lt rest = less
order_side Ordering.eq rest = rest
order_side Ordering.gt rest = more

unfoldable pub compare_bytes : List ℕ → List ℕ → Side
compare_bytes [] [] = same
compare_bytes [] (y ∷ ys) = less
compare_bytes (x ∷ xs) [] = more
compare_bytes (x ∷ xs) (y ∷ ys) = order_side (compare x y) (compare_bytes xs ys)

pub compare_bytes_refl : (a : List ℕ) → compare_bytes a a ≡ same
unfolding compare_bytes
compare_bytes_refl [] = refl
compare_bytes_refl (x ∷ a) = ground (arith, compare_bytes_refl a)

pub compare_bytes-same : (a b : List ℕ) → compare_bytes a b ≡ same → a ≡ b
unfolding compare_bytes
compare_bytes-same [] [] h = refl
compare_bytes-same [] (y ∷ b) h = cc
compare_bytes-same (x ∷ a) [] h = cc
compare_bytes-same (x ∷ a) (y ∷ b) h = ground (arith, compare_bytes-same a b)

pub compare_bytes_trans :
    (a b c : List ℕ)
    → compare_bytes a b ≡ less
    → compare_bytes b c ≡ less
    → compare_bytes a c ≡ less
unfolding compare_bytes
compare_bytes_trans [] b (z ∷ c) h k = refl
compare_bytes_trans [] [] [] h k = cc
compare_bytes_trans [] (y ∷ b) [] h k = cc
compare_bytes_trans (x ∷ a) [] c h k = cc
compare_bytes_trans (x ∷ a) (y ∷ b) [] h k = cc
compare_bytes_trans (x ∷ a) (y ∷ b) (z ∷ c) h k = ground (arith, compare_bytes_trans a b c)

pub compare_bytes_flip : (a b : List ℕ) → compare_bytes a b ≡ more → compare_bytes b a ≡ less
unfolding compare_bytes
compare_bytes_flip [] [] h = cc
compare_bytes_flip [] (y ∷ b) h = cc
compare_bytes_flip (x ∷ a) [] h = refl
compare_bytes_flip (x ∷ a) (y ∷ b) h = ground (arith, compare_bytes_flip a b)

pub compare_bytes_unflip : (a b : List ℕ) → compare_bytes b a ≡ less → compare_bytes a b ≡ more
unfolding compare_bytes
compare_bytes_unflip [] [] h = cc
compare_bytes_unflip [] (y ∷ b) h = cc
compare_bytes_unflip (x ∷ a) [] h = refl
compare_bytes_unflip (x ∷ a) (y ∷ b) h = ground (arith, compare_bytes_unflip a b)
