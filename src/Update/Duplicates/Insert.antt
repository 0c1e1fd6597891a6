-- ===== src/Update/Duplicates/Insert.antt =====
-- Where `putDupSubPage` inserts a value: the values stay sorted.
use gdbx.Base.{
  ℕ, zero, suc, ◌+◌, ◌≡◌, refl, subst, sym, ap, ◌∙◌, inl, inr, Bool, true, false, ◌||◌, List, [],
  ◌∷◌, Option, none, some, arith,
}
use gdbx.Search.Order.{Side, less, same, more}
use gdbx.Search.Loop.{side-cases}
use gdbx.Update.Duplicates.{insert_position, insert_value}

-- A strict order of byte strings, whose `same` is symmetric.
pub record IsOrder (cmp : List ℕ → List ℕ → Side) : Type 0 where
  pub flip : (a b : List ℕ) → cmp a b ≡ more → cmp b a ≡ less
  pub unflip : (a b : List ℕ) → cmp b a ≡ less → cmp a b ≡ more
  pub trans : (a b c : List ℕ) → cmp a b ≡ less → cmp b c ≡ less → cmp a c ≡ less

abbrev pub is_same : Side → Bool
is_same less = false
is_same same = true
is_same more = false

module _ (cmp : List ℕ → List ℕ → Side) where
  abbrev pub AreAfter : List ℕ → List (List ℕ) → Type 0
  AreAfter v [] = Unit
  AreAfter v (w ∷ ws) = (cmp v w ≡ less) × AreAfter v ws

  abbrev pub IsSorted : List (List ℕ) → Type 0
  IsSorted [] = Unit
  IsSorted (v ∷ vs) = AreAfter v vs × IsSorted vs

  -- One of the values is the same as `x`.
  abbrev pub has_value : List (List ℕ) → List ℕ → Bool
  has_value [] x = false
  has_value (v ∷ vs) x = is_same (cmp v x) || has_value vs x

  -- What a position, from `i` on, says of the values: `none` that the value is one of them; a position
  -- that the value can stand there, and is then the only new one.
  abbrev pub Inserts : List (List ℕ) → List ℕ → ℕ → Option ℕ → Type 0
  Inserts vs value i none = has_value vs value ≡ true
  Inserts vs value i (some pos) =
      (k : ℕ) × (pos ≡ i + k)
      × IsSorted (insert_value vs k value)
      × ((x : List ℕ)
          → has_value (insert_value vs k value) x ≡ (is_same (cmp value x) || has_value vs x))

or_swap : (p q r : Bool) → (p || (q || r)) ≡ (q || (p || r))
or_swap true true r = refl
or_swap true false r = refl
or_swap false q r = refl

or_true : (p q : Bool) → q ≡ true → (p || q) ≡ true
or_true true q h = refl
or_true false q h = h

module _ (cmp : List ℕ → List ℕ → Side) (order : IsOrder cmp) where
  pub same_sym : (a b : List ℕ) → cmp a b ≡ same → cmp b a ≡ same
  same_sym a b h = elim (side-cases (cmp b a)) [
    | inl e ↦ absurd (let q : same ≡ more = sym h ∙ order.unflip a b e in cc)
    | inr (inl e) ↦ e
    | inr (inr e) ↦ absurd (let q : same ≡ less = sym h ∙ order.flip b a e in cc)
  ]

  AreAfter-trans :
      (a b : List ℕ) (vs : List (List ℕ)) → cmp a b ≡ less → AreAfter cmp b vs → AreAfter cmp a vs
  AreAfter-trans a b [] h k = tt
  AreAfter-trans a b (v ∷ vs) h k = (order.trans a b v h k.0, AreAfter-trans a b vs h k.1)

  insert_value-AreAfter :
      (a value : List ℕ) (vs : List (List ℕ)) (k : ℕ)
      → cmp a value ≡ less
      → AreAfter cmp a vs
      → AreAfter cmp a (insert_value vs k value)
  insert_value-AreAfter a value vs zero h after = (h, after)
  insert_value-AreAfter a value [] (suc k) h after = (h, tt)
  insert_value-AreAfter a value (v ∷ vs) (suc k) h after =
      (after.0, insert_value-AreAfter a value vs k h after.1)

  past_value :
      (v value : List ℕ) (vs : List (List ℕ)) (i : ℕ) (o : Option ℕ)
      → cmp v value ≡ less
      → AreAfter cmp v vs
      → Inserts cmp vs value (i + 1) o
      → Inserts cmp (v ∷ vs) value i o
  past_value v value vs i none h after has =
      or_true (is_same (cmp v value)) (has_value cmp vs value) has
  past_value v value vs i (some pos) h after (k, e, sorted, has) = (
    suc k,
    omega (arith, e),
    (insert_value-AreAfter v value vs k h after, sorted),
    λ x.
        ap (λ b. is_same (cmp v x) || b) (has x)
        ∙ or_swap (is_same (cmp v x)) (is_same (cmp value x)) (has_value cmp vs x),
  )

  -- In sorted values, no position is found only where the value is there; otherwise, with the value at
  -- the position, the values are sorted, and the value is the only new one.
  pub insert_position-Inserts :
      (value : List ℕ) (i : ℕ) (vs : List (List ℕ))
      → IsSorted cmp vs
      → Inserts cmp vs value i (insert_position cmp value i vs)
  unfolding insert_position
  insert_position-Inserts value i [] h = (0, omega arith, (tt, tt), λ x. refl)
  insert_position-Inserts value i (v ∷ vs) h = elim (side-cases (cmp value v)) [
    | inl e ↦
        let here : insert_position cmp value i (v ∷ vs) ≡ some i = rw e in
        subst (Inserts cmp (v ∷ vs) value i) (sym here)
          (0, omega arith, ((e, AreAfter-trans value v vs e h.0), h), λ x. refl)
    | inr (inl e) ↦
        let there : insert_position cmp value i (v ∷ vs) ≡ none = rw e in
        let first : is_same (cmp v value) ≡ true = rw (same_sym value v e) in
        subst (Inserts cmp (v ∷ vs) value i) (sym there) (rw first)
    | inr (inr e) ↦
        let later : insert_position cmp value i (v ∷ vs) ≡ insert_position cmp value (i + 1) vs =
          rw e in
        subst (Inserts cmp (v ∷ vs) value i) (sym later) (
          past_value v value vs i (insert_position cmp value (i + 1) vs) (order.flip value v e) h.0
            (insert_position-Inserts value (i + 1) vs h.1))
  ]
