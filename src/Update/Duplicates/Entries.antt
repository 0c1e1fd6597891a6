-- ===== src/Update/Duplicates/Entries.antt =====
-- The values that a sub-page parses to, read one at a time.
use gdbx.Base.{
  ℕ, zero, suc, ◌+◌, ◌*◌, ◌≤◌, ◌<◌, ◌≡◌, refl, sym, ap, ◌∙◌, inl, inr, Bool-cases, List, [], ◌∷◌,
  Option, none, some, length, get_or, Run, ok, panic, ◌>>=◌, arith, ge→ltb, ltb, leb, le→leb,
  leb→le,
}
use gdbx.Bytes.{Bytes, slice, word16}
use gdbx.Bytes.Loads.{load16_ok, slice_ok}
use gdbx.Page.Header.{page_header_size}
use gdbx.Update.SubPage.{Parsed, then_values, parse_fixed, parse_value, parse_entries}
use gdbx.Update.Duplicates.{entry_value, fixed_value}

-- The first value and the values after it.
record Parts (first : Run (Option (List ℕ))) (rest : Run Parsed) (us : List (List ℕ)) : Type 0 where
  v : List ℕ
  vs : List (List ℕ)
  whole : us ≡ v ∷ vs
  first_ok : first ≡ ok (some v)
  rest_ok : rest ≡ ok (some vs)

then_values-Parts :
    (rest : Run Parsed) (w : List ℕ) (us : List (List ℕ))
    → (rest >>= (λ ws. ok (then_values w ws))) ≡ ok (some us)
    → Parts (ok (some w)) rest us
then_values-Parts (ok (some ws)) w us h = record {
  v = w;
  vs = ws;
  whole =
      ap
        (λ r. elim r as (λ _. List (List ℕ)) [
          | ok o ↦ elim o as (λ _. List (List ℕ)) [ none ↦ [] | some x ↦ x ]
          | panic ↦ []
        ])
        (sym h);
  first_ok = refl;
  rest_ok = refl;
}
then_values-Parts (ok none) w us h = absurd (cc)
then_values-Parts panic w us h = absurd (cc)

parse_value-Parts :
    (d : Bytes) (i : ℕ) (rest : Run Parsed) (us : List (List ℕ))
    → page_header_size + i * 2 + 2 ≤ d.size
    → word16 d.at (page_header_size + i * 2) + page_header_size + 8 ≤ d.size
    → parse_value d (word16 d.at (page_header_size + i * 2) + page_header_size) rest ≡ ok (some us)
    → Parts (entry_value d i) rest us
unfolding parse_value entry_value
parse_value-Parts d i rest us table room h =
    let pos : ℕ = word16 d.at (page_header_size + i * 2) + page_header_size in
    let key_size : ℕ = word16 d.at (pos + 6) in
    let loaded = load16_ok d (pos + 6) (omega arith) in
    let entry = load16_ok d (page_header_size + i * 2) (omega arith) in
    let in_table = ge→ltb d.size (page_header_size + i * 2 + 2) table in
    let in_page = ge→ltb d.size (pos + 8) room in
    elim (Bool-cases (ltb d.size (pos + 8 + key_size))) [
      | inl e ↦ absurd (let q : ok none ≡ ok (some us) = rw (loaded, e) at h in cc)
      | inr e ↦
          let fits : pos + 8 + key_size ≤ d.size = ground arith in
          let cut = slice_ok d (pos + 8) (pos + 8 + key_size) (omega arith) fits in
          let p = then_values-Parts rest _ us (rw (loaded, e, cut) at h) in
          record {
            v = p.v;
            vs = p.vs;
            whole = p.whole;
            first_ok = rw (in_table, entry, in_page, loaded, e, cut) p.first_ok;
            rest_ok = p.rest_ok;
          }
    ]

parse_entries-Parts :
    (d : Bytes) (i n : ℕ) (us : List (List ℕ))
    → parse_entries d i (suc n) ≡ ok (some us)
    → Parts (entry_value d i) (parse_entries d (i + 1) n) us
unfolding parse_entries
parse_entries-Parts d i n us h = elim (Bool-cases (ltb d.size (page_header_size + i * 2 + 2))) [
  | inl e ↦ absurd (let q : ok none ≡ ok (some us) = rw e at h in cc)
  | inr e ↦
      let pos : ℕ = word16 d.at (page_header_size + i * 2) + page_header_size in
      let loaded = load16_ok d (page_header_size + i * 2) (ground arith) in
      elim (Bool-cases (ltb d.size (pos + 8))) [
        | inl far ↦ absurd (let q : ok none ≡ ok (some us) = rw (e, loaded, far) at h in cc)
        | inr near ↦
            parse_value-Parts d i (parse_entries d (i + 1) n) us (ground arith) (ground arith)
              (rw (e, loaded, near) at h)
      ]
]

parse_fixed-Parts :
    (d : Bytes) (k i n : ℕ) (us : List (List ℕ))
    → parse_fixed d k i (suc n) ≡ ok (some us)
    → Parts (fixed_value d k i) (parse_fixed d k (i + 1) n) us
unfolding parse_fixed fixed_value
parse_fixed-Parts d k i n us h =
    let a : ℕ = page_header_size + i * k in
    elim (Bool-cases (leb (a + k) d.size)) [
      | inl e ↦
          let fits : a + k ≤ d.size = leb→le (a + k) d.size e in
          let cut = slice_ok d a (a + k) (omega arith) fits in
          let p = then_values-Parts (parse_fixed d k (i + 1) n) _ us (rw cut at h) in
          record {
            v = p.v;
            vs = p.vs;
            whole = p.whole;
            first_ok = rw (ge→ltb d.size (a + k) fits, cut) p.first_ok;
            rest_ok = p.rest_ok;
          }
      | inr e ↦ absurd (
          let cut : slice d a (a + k) ≡ panic =
            unfold slice in rw (le→leb a (a + k) (omega arith), e) in
          let q = rw cut at h in cc)
    ]

-- `value_of` reads the values, one index each.
pub record Reads (value_of : ℕ → Run (Option (List ℕ))) (i n : ℕ) (us : List (List ℕ))
    : Type 0 where
  pub measured : length us ≡ n
  pub reads : (k : ℕ) → k < n → value_of (i + k) ≡ ok (some (get_or us k []))

Parts-Reads :
    (value_of : ℕ → Run (Option (List ℕ))) (i n : ℕ) (us : List (List ℕ)) (rest : Run Parsed)
    (p : Parts (value_of i) rest us)
    → Reads value_of (i + 1) n p.vs
    → Reads value_of i (suc n) us
Parts-Reads value_of i n us rest p r = record {
  measured = ap length p.whole ∙ ap suc r.measured;
  reads = each;
}
  where
    each : (k : ℕ) → k < suc n → value_of (i + k) ≡ ok (some (get_or us k []))
    each zero h = let start : i + 0 ≡ i = omega arith in rw (start, p.whole) p.first_ok
    each (suc k) h =
        let next : i + suc k ≡ i + 1 + k = omega arith in
        rw (next, p.whole) (r.reads k (omega arith))

no_values :
    (us : List (List ℕ)) → ◌≡◌ {A = Run Parsed} (ok (some [])) (ok (some us)) → length us ≡ 0
no_values [] h = refl
no_values (u ∷ us) h = absurd (cc)

pub entries-Reads :
    (d : Bytes) (i n : ℕ) (us : List (List ℕ))
    → parse_entries d i n ≡ ok (some us)
    → Reads (entry_value d) i n us
entries-Reads d i zero us h = record {
  measured = no_values us (unfold parse_entries in h);
  reads = λ k lt. absurd (omega arith);
}
entries-Reads d i (suc n) us h =
    let p = parse_entries-Parts d i n us h in
    Parts-Reads (entry_value d) i n us (parse_entries d (i + 1) n) p
      (entries-Reads d (i + 1) n p.vs p.rest_ok)

pub fixed-Reads :
    (d : Bytes) (k i n : ℕ) (us : List (List ℕ))
    → parse_fixed d k i n ≡ ok (some us)
    → Reads (fixed_value d k) i n us
fixed-Reads d k i zero us h = record {
  measured = no_values us (unfold parse_fixed in h);
  reads = λ k lt. absurd (omega arith);
}
fixed-Reads d k i (suc n) us h =
    let p = parse_fixed-Parts d k i n us h in
    Parts-Reads (fixed_value d k) i n us (parse_fixed d k (i + 1) n) p
      (fixed-Reads d k (i + 1) n p.vs p.rest_ok)
