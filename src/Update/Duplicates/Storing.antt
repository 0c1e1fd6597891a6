-- ===== src/Update/Duplicates/Storing.antt =====
-- A value put into a sub-page, as the search of the sub-page sees it.
use gdbx.Base.{
  ℕ, zero, suc, ◌+◌, ◌*◌, ◌/◌, ◌-◌, ◌≤◌, ◌<◌, ◌≡◌, refl, sym, ap, ◌∙◌, inl, inr, Bool-cases, true,
  false, ◌||◌, ◌&&◌, List, [], ◌∷◌, Option, none, some, length, get_or, Run, ok, ◌>>=◌, arith, ltb,
  ◌==◌,
}
use gdbx.Bytes.{Bytes, word16, slice}
use gdbx.Bytes.Loads.{load16_ok}
use gdbx.Page.Header.{page_header_size, page_dupfix, flag_set}
use gdbx.Search.Order.{Side}
use gdbx.Update.SubPage.{parse_sub_page_values, build_dup_sub_page, sub_page_size, node_data_size}
use gdbx.Update.SubPage.RoundTrip.{parse_sub_page_values-build_dup_sub_page}
use gdbx.Update.Duplicates.{
  has_dup_value_in_sub_page, insert_position, insert_value, last_dup_value, entry_value,
  fixed_value,
}
use gdbx.Update.Duplicates.Entries.{Reads, entries-Reads, fixed-Reads}
use gdbx.Update.Duplicates.Insert.{IsOrder, IsSorted, is_same, Inserts, insert_position-Inserts}
use gdbx.Update.Duplicates.Find.{has_dup-parse_sub_page_values}

-- The value is in the sub-page; or the sub-page that is built has it, and no other value more.
abbrev pub Puts : (List ℕ → List ℕ → Side) → Bytes → List (List ℕ) → List ℕ → Option ℕ → Type 0
Puts cmp d vs value none = has_dup_value_in_sub_page cmp d value ≡ ok true
Puts cmp d vs value (some pos) =
    (d' : Bytes) × (build_dup_sub_page (insert_value vs pos value) ≡ ok d')
    × (parse_sub_page_values d' ≡ ok (some (insert_value vs pos value)))
    × IsSorted cmp (insert_value vs pos value)
    × ((x : List ℕ)
        → has_dup_value_in_sub_page cmp d' x
          ≡ (has_dup_value_in_sub_page cmp d x >>= λ b. ok (is_same (cmp value x) || b)))

node_data_size-insert_value :
    (vs : List (List ℕ)) (pos : ℕ) (value : List ℕ)
    → node_data_size (insert_value vs pos value) ≡ node_data_size vs + 8 + length value
unfolding node_data_size
node_data_size-insert_value vs zero value = omega arith
node_data_size-insert_value [] (suc pos) value = omega arith
node_data_size-insert_value (v ∷ vs) (suc pos) value =
    omega (arith, node_data_size-insert_value vs pos value)

length-insert_value :
    (vs : List (List ℕ)) (pos : ℕ) (value : List ℕ)
    → length (insert_value vs pos value) ≡ length vs + 1
length-insert_value vs zero value = omega arith
length-insert_value [] (suc pos) value = refl
length-insert_value (v ∷ vs) (suc pos) value = omega (arith, length-insert_value vs pos value)

module _ (cmp : List ℕ → List ℕ → Side) (d : Bytes) (vs : List (List ℕ)) (value : List ℕ)
    (order : IsOrder cmp) (h : parse_sub_page_values d ≡ ok (some vs)) (sorted : IsSorted cmp vs)
    (room : sub_page_size vs + 10 + length value ≤ 65556) where
  put-Puts : (o : Option ℕ) → Inserts cmp vs value 0 o → Puts cmp d vs value o
  put-Puts none there = has_dup-parse_sub_page_values cmp d vs value order h sorted ∙ ap ok there
  put-Puts (some pos) (k, e, sorted', has) =
      let start : k ≡ pos = omega (arith, e) in
      let small : sub_page_size (insert_value vs pos value) ≤ 65556 =
        omega (arith, node_data_size-insert_value vs pos value, length-insert_value vs pos value) in
      let (d', built, size, parsed) =
        parse_sub_page_values-build_dup_sub_page (insert_value vs pos value) small in
      let now_sorted : IsSorted cmp (insert_value vs pos value) = rw (← start) sorted' in
      (
        d',
        built,
        parsed,
        now_sorted,
        λ x.
            has_dup-parse_sub_page_values cmp d' (insert_value vs pos value) x order parsed
              now_sorted
            ∙ ap ok (rw (← start) (has x))
            ∙ sym (
                ap (λ r. r >>= (λ b. ok (is_same (cmp value x) || b)))
                  (has_dup-parse_sub_page_values cmp d vs x order h sorted)),
      )

  -- For an order by which the values of a sub-page are sorted, and a value for which the size of their
  -- sub-page, the length of the value and ten make at most 65,556 bytes: where `putDupSubPage` takes
  -- the value for present, the search finds it; where it chooses a position, the new sub-page is built
  -- and read back, its values are sorted, and the search finds in it the new value and what it found
  -- before, and nothing else.
  pub insert_position-Puts : Puts cmp d vs value (insert_position cmp value 0 vs)
  insert_position-Puts =
      put-Puts (insert_position cmp value 0 vs)
        (insert_position-Inserts cmp order value 0 vs sorted)

last-Reads :
    (value_of : ℕ → Run (Option (List ℕ))) (n : ℕ) (vs : List (List ℕ))
    → Reads value_of 0 n vs
    → 0 < n
    → value_of (n - 1) ≡ ok (some (get_or vs (length vs - 1) []))
last-Reads value_of n vs r h =
    ap value_of (omega arith)
    ∙ r.reads (n - 1) (omega arith)
    ∙ ap (λ k. ok (some (get_or vs (k - 1) []))) (sym r.measured)

fixed_slice :
    (d : Bytes) (k i : ℕ) (v : List ℕ)
    → fixed_value d k i ≡ ok (some v)
    → (slice d (page_header_size + i * k) (page_header_size + i * k + k) >>= (λ w. ok (some w)))
      ≡ ok (some v)
unfolding fixed_value
fixed_slice d k i v h = elim (Bool-cases (ltb d.size (page_header_size + i * k + k))) [
  | inl e ↦ absurd (let q : ok none ≡ ok (some v) = rw e at h in cc)
  | inr e ↦ rw e at h
]

-- Whatever the sub-page, where `parseSubPageValues` returns a value or more,
-- `getLastDupValueSubPage` returns the last of them.
pub last_dup-parse_sub_page_values :
    (d : Bytes) (vs : List (List ℕ))
    → parse_sub_page_values d ≡ ok (some vs)
    → 0 < length vs
    → last_dup_value d ≡ ok (some (get_or vs (length vs - 1) []))
unfolding parse_sub_page_values last_dup_value
last_dup-parse_sub_page_values d vs h pos = elim (Bool-cases (ltb d.size page_header_size)) [
  | inl e ↦ absurd (let q : ok none ≡ ok (some vs) = rw e at h in cc)
  | inr e ↦
      let k : ℕ = word16 d.at 8 in
      let lower : ℕ = word16 d.at 12 in
      let a = load16_ok d 8 (ground arith) in
      let b = load16_ok d 10 (ground arith) in
      let c = load16_ok d 12 (ground arith) in
      elim (Bool-cases (flag_set (word16 d.at 10) page_dupfix && ltb 0 k && ltb k 65535)) [
        | inl f ↦
            let n : ℕ = (d.size - 20) / k in
            let r = fixed-Reads d k 0 n vs (rw (e, a, b, c, f) at h) in
            let some_value : (n == 0) ≡ false = ground (arith, r.measured) in
            rw (e, a, b, c, f, some_value)
              (fixed_slice d k (n - 1) (get_or vs (length vs - 1) [])
                (last-Reads (fixed_value d k) n vs r (omega (arith, r.measured))))
        | inr f ↦
            let r = entries-Reads d 0 (lower / 2) vs (rw (e, a, b, c, f) at h) in
            let some_value : (lower / 2 == 0) ≡ false = ground (arith, r.measured) in
            rw (e, a, b, c, f, some_value)
              (last-Reads (entry_value d) (lower / 2) vs r (omega (arith, r.measured)))
      ]
]
