-- ===== src/Page/Split/Halves.antt =====
-- The two pages of a split, and that `splitPoint` finds one that fits if there is one.
use gdbx.Base.{
  ℕ, zero, suc, ◌+◌, ◌-◌, ◌*◌, ◌≤◌, ◌<◌, ◌≡◌, ◌≢◌, refl, Bool, true, false, Bool-cases, inl, inr,
  ltb, ltb→lt, ◌==◌, if◌then◌else◌, List, [], ◌∷◌, Option, none, some, arith, length, take, drop,
  length-take, length-drop, ◌⊎◌,
}
use gdbx.Page.Split.{
  sum, sum_first, split_fits, is_valid_split, try_delta, search_outward, middle, append_split,
  split_sizes,
}

sum_first-take : (n : ℕ) (xs : List ℕ) → sum (take n xs) ≡ sum_first n xs
unfolding sum sum_first
sum_first-take zero xs = refl
sum_first-take (suc n) [] = refl
sum_first-take (suc n) (x ∷ xs) = omega (arith, sum_first-take n xs)

sum_first-drop : (n : ℕ) (xs : List ℕ) → sum_first n xs + sum (drop n xs) ≡ sum xs
unfolding sum sum_first
sum_first-drop zero xs = omega arith
sum_first-drop (suc n) [] = refl
sum_first-drop (suc n) (x ∷ xs) = omega (arith, sum_first-drop n xs)

sum-cons : (x : ℕ) (xs : List ℕ) → sum (x ∷ xs) ≡ x + sum xs
unfolding sum
sum-cons x xs = refl

sum-nil : sum [] ≡ 0
unfolding sum
sum-nil = refl

-- The space that nodes of these sizes take, with an entry of two bytes each.
abbrev pub space : List ℕ → ℕ
space xs = length xs * 2 + sum xs

sum_first_all : (xs : List ℕ) → sum_first (length xs) xs ≡ sum xs
unfolding sum sum_first
sum_first_all [] = refl
sum_first_all (x ∷ xs) = omega (arith, sum_first_all xs)

module _ (sizes : List ℕ) (new_size insert_idx max_space : ℕ) where
  -- The sizes on the two pages of a split at `s`: the new node goes left if its index lies before the
  -- split, and at 0 it stands alone on the left.
  abbrev pub left_half : ℕ → List ℕ
  left_half s =
      if s == 0
      then new_size ∷ []
      else if ltb insert_idx s
      then new_size ∷ take s sizes
      else take s sizes

  abbrev pub right_half : ℕ → List ℕ
  right_half s =
      if s == 0 then sizes else if ltb insert_idx s then drop s sizes else new_size ∷ drop s sizes

  -- Both pages of the split hold something and have room for it.
  pub record Fits (s : ℕ) : Type 0 where
    pub in_range : s ≤ length sizes
    pub left_some : 0 < length (left_half s)
    pub right_some : 0 < length (right_half s)
    pub left_room : space (left_half s) ≤ max_space
    pub right_room : space (right_half s) ≤ max_space

  valid→Fits : (s : ℕ) → is_valid_split sizes new_size insert_idx max_space s ≡ true → Fits s
  unfolding is_valid_split split_fits
  valid→Fits s e = ground (
    arith,
    length-take s sizes,
    length-drop s sizes,
    sum_first-take s sizes,
    sum_first-drop s sizes,
    sum-cons new_size (take s sizes),
    sum-cons new_size (drop s sizes),
    sum-cons new_size [],
    sum-nil,
  )

  Fits→valid : (s : ℕ) → Fits s → is_valid_split sizes new_size insert_idx max_space s ≡ true
  unfolding is_valid_split split_fits
  Fits→valid s f = ground (
    arith,
    f.in_range,
    f.left_some,
    f.right_some,
    f.left_room,
    f.right_room,
    length-take s sizes,
    length-drop s sizes,
    sum_first-take s sizes,
    sum_first-drop s sizes,
    sum-cons new_size (take s sizes),
    sum-cons new_size (drop s sizes),
    sum-cons new_size [],
    sum-nil,
  )

  -- Whether a split at `s` fits, by the code's own test.
  valid : ℕ → Bool
  valid s = is_valid_split sizes new_size insert_idx max_space s

  try_delta_finds :
      (mid d s : ℕ) → try_delta sizes new_size insert_idx max_space mid d ≡ some s → valid s ≡ true
  unfolding try_delta valid
  try_delta_finds mid d s e = ground arith

  try_delta_misses :
      (mid d s : ℕ)
      → try_delta sizes new_size insert_idx max_space mid d ≡ none
      → s ≤ length sizes
      → (s + d ≡ mid) ⊎ (s ≡ mid + d)
      → valid s ≡ false
  unfolding try_delta valid
  try_delta_misses mid d s e h (inl q) = let w : s ≡ mid - d = omega arith in rw w (ground arith)
  try_delta_misses mid d s e h (inr q) = rw q (ground arith)

  search_outward_finds :
      (mid d rounds s : ℕ)
      → search_outward sizes new_size insert_idx max_space mid d rounds ≡ some s
      → valid s ≡ true
  unfolding search_outward
  search_outward_finds mid d zero s e = cc
  search_outward_finds mid d (suc rounds) s e =
      ground (arith, try_delta_finds mid d s, search_outward_finds mid (d + 1) rounds s)

  search_outward_misses :
      (mid d rounds k s : ℕ)
      → search_outward sizes new_size insert_idx max_space mid d rounds ≡ none
      → k < rounds
      → s ≤ length sizes
      → (s + (d + k) ≡ mid) ⊎ (s ≡ mid + (d + k))
      → valid s ≡ false
  unfolding search_outward
  search_outward_misses mid d zero k s e h b q = absurd (omega arith)
  search_outward_misses mid d (suc rounds) zero s e h b q =
      let same : d + 0 ≡ d = omega arith in try_delta_misses mid d s (ground arith) b (rw same at q)
  search_outward_misses mid d (suc rounds) (suc k) s e h b q =
      search_outward_misses mid (d + 1) rounds k s (ground arith) (omega arith) b
        (let next : d + suc k ≡ d + 1 + k = omega arith in rw next at q)

  append_split-valid :
      0 < length sizes
      → append_split sizes new_size insert_idx max_space ≡ true
      → valid (length sizes) ≡ true
  unfolding append_split valid is_valid_split split_fits
  append_split-valid h e = ground (arith, sum_first_all sizes)

  -- Every index up to the number of entries is at some distance from the middle.
  distance : (s mid : ℕ) → s ≢ mid → (k : ℕ) × ((s + (1 + k) ≡ mid) ⊎ (s ≡ mid + (1 + k)))
  distance s mid h = elim (Bool-cases (ltb s mid)) [
    | inl e ↦ let lt = ltb→lt s mid e in (mid - s - 1, inl (omega arith))
    | inr e ↦ (s - mid - 1, inr (ground arith))
  ]

  outward_valid :
      (mid v : ℕ) (o : Option ℕ)
      → search_outward sizes new_size insert_idx max_space mid 1 (length sizes) ≡ o
      → mid ≤ length sizes
      → v ≤ length sizes
      → valid v ≡ true
      → valid mid ≡ false
      → valid (elim o [ some s ↦ s | none ↦ mid ]) ≡ true
  outward_valid mid v (some s) e hm hv yv nm = search_outward_finds mid 1 (length sizes) s e
  outward_valid mid v none e hm hv yv nm =
      let apart : v ≢ mid = λ q. let z : valid mid ≡ true = rw (← q) yv in cc in
      let (k, q) = distance v mid apart in
      let no_v : valid v ≡ false =
        search_outward_misses mid 1 (length sizes) k v e (ground (arith, q)) hv q in
      cc

  raw : (s : ℕ) {b : Bool} → valid s ≡ b → is_valid_split sizes new_size insert_idx max_space s ≡ b
  unfolding valid
  raw s e = e

  middle-le : 0 < length sizes → middle sizes new_size insert_idx max_space ≤ length sizes
  middle-le pos = ground arith

  split_sizes-valid :
      (v : ℕ)
      → 0 < length sizes
      → v ≤ length sizes
      → valid v ≡ true
      → valid (split_sizes sizes new_size insert_idx max_space) ≡ true
  unfolding split_sizes
  split_sizes-valid v pos h e =
      let mid = middle sizes new_size insert_idx max_space in
      let some_nodes : (length sizes == 0) ≡ false = ground arith in
      elim (Bool-cases (append_split sizes new_size insert_idx max_space)) [
        | inl a ↦ rw (some_nodes, a) (append_split-valid pos a)
        | inr a ↦ elim (Bool-cases (valid mid)) [
          | inl m ↦ rw (some_nodes, a, raw mid m) m
          | inr m ↦
              rw (some_nodes, a, raw mid m)
                (outward_valid mid v
                  (search_outward sizes new_size insert_idx max_space mid 1 (length sizes)) refl
                  (middle-le pos) h e m)
        ]
      ]

  -- On a page with entries, if some split leaves two pages that hold something and have room for their
  -- nodes and entries, the index that the search of `splitPoint` returns is such a split.
  pub split_sizes-Fits :
      (v : ℕ) → 0 < length sizes → Fits v → Fits (split_sizes sizes new_size insert_idx max_space)
  unfolding valid
  split_sizes-Fits v pos f =
      valid→Fits (split_sizes sizes new_size insert_idx max_space)
        (split_sizes-valid v pos f.in_range (Fits→valid v f))
