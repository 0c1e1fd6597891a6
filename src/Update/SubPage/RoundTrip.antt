-- ===== src/Update/SubPage/RoundTrip.antt =====
-- A sub-page that is built holds the values, and its readers agree.
use gdbx.Base.{
  ℕ, zero, suc, ◌+◌, ◌-◌, ◌*◌, ◌/◌, ◌%◌, ◌≤◌, ◌<◌, ◌≡◌, refl, ap, ◌∙◌, inl, inr, Bool, Bool-cases,
  List, [], ◌∷◌, none, some, length, Run, ok, panic, ◌>>=◌, arith, ge→ltb, ltb, leb, le→leb, false,
  ◌&&◌, ◌==◌, ltb→lt, if◌then◌else◌,
}
use native.Mathlib.Decide.{ℕ_discrete}
use native.Mathlib.Nat.{div-eq_of_lt}
use gdbx.Bytes.{Bytes, read, load16, word16, write16, write64, write32}
use gdbx.Bytes.Loads.{load16_ok, slice_ok, store16_ok, store32_ok, store64_ok, word16-write16_self}
use gdbx.Page.Header.{page_header_size, page_dupfix, flag_set}
use gdbx.Txn.Mapping.{Got, value, corrupted}
use gdbx.Txn.Duplicates.{get_first_sub_page_value, value_at}
use gdbx.Update.SubPage.{
  Parsed, then_values, parse_fixed, parse_value, parse_entries, parse_sub_page_values,
  sub_page_size, write_sub_page_header, zeroed, build_dup_sub_page,
}
use gdbx.Update.SubPage.Layout.{Wrote, values-Wrote, node_data_size-ge}

-- The fields of a header for a table of `table` bytes.
record HasFields (d : Bytes) (table : ℕ) : Type 0 where
  no_ksize : word16 d.at 8 ≡ 65535
  leaf_flags : word16 d.at 10 ≡ 66
  lower : word16 d.at 12 ≡ table

header-HasFields :
    (total table : ℕ)
    → 20 ≤ total
    → table < 65536
    → (d : Bytes) × (write_sub_page_header (zeroed total) table ≡ ok d)
      × (d.size ≡ total)
      × HasFields d table
unfolding write_sub_page_header
header-HasFields total table h small =
    let d0 : Bytes = zeroed total in
    let d1 : Bytes = record d0 { at = write64 d0.at 0 0 } in
    let d2 : Bytes = record d1 { at = write16 d1.at 8 0xFFFF } in
    let d3 : Bytes = record d2 { at = write16 d2.at 10 66 } in
    let d4 : Bytes = record d3 { at = write16 d3.at 12 table } in
    let d5 : Bytes = record d4 { at = write16 d4.at 14 table } in
    let e : table % 65536 ≡ table = omega arith in
    (
      record d5 { at = write32 d5.at 16 0 },
      rw (
        store64_ok d0 0 0 (omega arith),
        store16_ok d1 8 0xFFFF (omega arith),
        store16_ok d2 10 66 (omega arith),
        e,
        store16_ok d3 12 table (omega arith),
        store16_ok d4 14 table (omega arith),
        store32_ok d5 16 0 (omega arith),
      ),
      refl,
      record {
        no_ksize = refl;
        leaf_flags = refl;
        lower = word16-write16_self d3.at 12 table small;
      },
    )

HasFields-parse_sub_page_values :
    (d : Bytes) (n : ℕ)
    → 20 ≤ d.size
    → HasFields d (n * 2)
    → parse_sub_page_values d ≡ parse_entries d 0 n
unfolding parse_sub_page_values flag_set
HasFields-parse_sub_page_values d n h f =
    let half : n * 2 / 2 ≡ n = omega arith in
    rw (
      ge→ltb d.size page_header_size h,
      load16_ok d 8 (omega arith),
      load16_ok d 10 (omega arith),
      load16_ok d 12 (omega arith),
      f.no_ksize,
      f.leaf_flags,
      f.lower,
      half,
    )

-- For values whose sub-page is at most 65,556 bytes, so that its offsets are of 16 bits, the sub-page is
-- built without a panic, has the size that its parts add up to, and `parseSubPageValues` reads back
-- exactly those values, in their order.
pub parse_sub_page_values-build_dup_sub_page :
    (vs : List (List ℕ))
    → sub_page_size vs ≤ 65556
    → (d : Bytes) × (build_dup_sub_page vs ≡ ok d)
      × (d.size ≡ sub_page_size vs)
      × (parse_sub_page_values d ≡ ok (some vs))
unfolding build_dup_sub_page
parse_sub_page_values-build_dup_sub_page vs h =
    let total : ℕ = sub_page_size vs in
    let (d0, head, size, fields) =
      header-HasFields total (length vs * 2) (omega arith) (omega (arith, node_data_size-ge vs)) in
    let w : Wrote d0 total 0 vs = values-Wrote d0 total 0 vs size (omega arith) h in
    let same : (x : ℕ) → x < 20 → w.after.at x ≡ d0.at x = λ x lt. w.frame x (inl (omega arith)) in
    let kept : HasFields w.after (length vs * 2) = record {
      no_ksize = rw (same 8 (omega arith), same 9 (omega arith)) fields.no_ksize;
      leaf_flags = rw (same 10 (omega arith), same 11 (omega arith)) fields.leaf_flags;
      lower = rw (same 12 (omega arith), same 13 (omega arith)) fields.lower;
    } in
    (
      w.after,
      rw head w.run,
      w.same_size ∙ size,
      HasFields-parse_sub_page_values w.after (length vs) (omega (arith, w.same_size, size)) kept
          ∙ w.parsed,
    )

-- The first of the values that a run parsed.
abbrev head_of : List ℕ → Run Parsed → List ℕ
head_of d (ok (some (v ∷ vs))) = v
head_of d (ok (some [])) = d
head_of d (ok none) = d
head_of d panic = d

then_values-head :
    (rest : Run Parsed) (w v : List ℕ) (vs : List (List ℕ))
    → (rest >>= (λ ws. ok (then_values w ws))) ≡ ok (some (v ∷ vs))
    → w ≡ v
then_values-head (ok (some ws)) w v vs h = ap (head_of []) h
then_values-head (ok none) w v vs h = absurd (cc)
then_values-head panic w v vs h = absurd (cc)

-- What `getFirstSubPageValue` does with a table of entries.
abbrev first_entry : Bytes → Run Got
first_entry d = if ltb d.size (page_header_size + 2) then ok corrupted else do
  stored ← load16 d page_header_size
  if ltb d.size (stored + page_header_size + 8)
      then ok corrupted
      else value_at d (stored + page_header_size)

parse_value-head :
    (d : Bytes) (pos : ℕ) (rest : Run Parsed) (v : List ℕ) (vs : List (List ℕ))
    → pos + 8 ≤ d.size
    → parse_value d pos rest ≡ ok (some (v ∷ vs))
    → value_at d pos ≡ ok (value v)
unfolding parse_value value_at
parse_value-head d pos rest v vs room h =
    let key_size : ℕ = word16 d.at (pos + 6) in
    let loaded = load16_ok d (pos + 6) (omega arith) in
    elim (Bool-cases (ltb d.size (pos + 8 + key_size))) [
      | inl e ↦ absurd (let q : ok none ≡ ok (some (v ∷ vs)) = rw (loaded, e) at h in cc)
      | inr e ↦
          let fits : pos + 8 + key_size ≤ d.size = ground arith in
          let cut = slice_ok d (pos + 8) (pos + 8 + key_size) (omega arith) fits in
          let q = rw (loaded, e, cut) at h in
          rw
            (
              loaded,
              le→leb (pos + 8 + key_size) d.size fits,
              le→leb (pos + 8) (pos + 8 + key_size) (omega arith),
            )
            (ap (λ w. ok (value w)) (then_values-head rest _ v vs q))
    ]

first_entry-head :
    (d : Bytes) (n : ℕ) (v : List ℕ) (vs : List (List ℕ))
    → parse_entries d 0 (suc n) ≡ ok (some (v ∷ vs))
    → first_entry d ≡ ok (value v)
unfolding parse_entries
first_entry-head d n v vs h = elim (Bool-cases (ltb d.size 22)) [
  | inl e ↦ absurd (let q : ok none ≡ ok (some (v ∷ vs)) = rw e at h in cc)
  | inr e ↦
      let stored : ℕ = word16 d.at 20 in
      let loaded = load16_ok d 20 (ground arith) in
      elim (Bool-cases (ltb d.size (stored + page_header_size + 8))) [
        | inl far ↦ absurd (let q : ok none ≡ ok (some (v ∷ vs)) = rw (e, loaded, far) at h in cc)
        | inr near ↦
            let q = rw (e, loaded, near) at h in
            rw (e, loaded, near)
              (parse_value-head d (stored + page_header_size) (parse_entries d 1 n) v vs
                (ground arith) q)
      ]
]

parse_fixed-head :
    (d : Bytes) (k n : ℕ) (v : List ℕ) (vs : List (List ℕ))
    → 20 ≤ d.size
    → 0 < k
    → (d.size - 20) / k ≡ n
    → parse_fixed d k 0 n ≡ ok (some (v ∷ vs))
    → (20 + k ≤ d.size) × (read d.at 20 k ≡ v)
unfolding parse_fixed
parse_fixed-head d k zero v vs h pos e run = absurd (cc)
parse_fixed-head d k (suc n) v vs h pos e run = elim (Bool-cases (ltb (d.size - 20) k)) [
  | inl lt ↦ absurd (let z = div-eq_of_lt (ltb→lt (d.size - 20) k lt) in omega (arith, e, z))
  | inr ge ↦
      let fits : 20 + k ≤ d.size = ground arith in
      let len : 20 + k - 20 ≡ k = omega arith in
      let start : 0 * k ≡ 0 = omega arith in
      let q = rw (start, slice_ok d 20 (20 + k) (omega arith) fits, len) at run in
      (fits, then_values-head (parse_fixed d k 1 n) (read d.at 20 k) v vs q)
]

no_entries : (d : Bytes) → parse_entries d 0 0 ≡ ok (some [])
unfolding parse_entries
no_entries d = refl

-- Whatever the sub-page, where `parseSubPageValues` of the updates returns a value or more, the
-- lookup's `getFirstSubPageValue` returns the first of them: the two readers agree.
pub get_first-parse_sub_page_values :
    (d : Bytes) (v : List ℕ) (vs : List (List ℕ))
    → parse_sub_page_values d ≡ ok (some (v ∷ vs))
    → get_first_sub_page_value d ≡ ok (value v)
unfolding parse_sub_page_values get_first_sub_page_value
get_first-parse_sub_page_values d v vs h = elim (Bool-cases (ltb d.size page_header_size)) [
  | inl e ↦ absurd (let q : ok none ≡ ok (some (v ∷ vs)) = rw e at h in cc)
  | inr e ↦
      let k : ℕ = word16 d.at 8 in
      let a = load16_ok d 8 (ground arith) in
      let b = load16_ok d 10 (ground arith) in
      let c = load16_ok d 12 (ground arith) in
      let fixed : Bool = flag_set (word16 d.at 10) page_dupfix && ltb 0 k && ltb k 65535 in
      elim (Bool-cases fixed) [
        | inl f ↦
            let (fits, got) =
              parse_fixed-head d k ((d.size - 20) / k) v vs (ground arith) (ground arith) refl
                (rw (e, a, b, c, f) at h) in
            let len : 20 + k - 20 ≡ k = omega arith in
            rw (e, a, b, c, f, le→leb (20 + k) d.size fits, le→leb 20 (20 + k) (omega arith), len)
              (ap (λ w. ok (value w)) got)
        | inr f ↦
            let lower : ℕ = word16 d.at 12 in
            elim (ℕ_discrete (lower / 2) 0) [
              | yes z ↦ absurd (let q = rw (e, a, b, c, f, z, no_entries d) at h in cc)
              | no nz ↦
                  let s : lower / 2 ≡ suc (lower / 2 - 1) = omega arith in
                  let some_entry : (lower / 2 == 0) ≡ false = ground arith in
                  let some_byte : leb lower 0 ≡ false = ground arith in
                  rw (e, a, b, c, f, some_entry, some_byte)
                    (first_entry-head d (lower / 2 - 1) v vs (rw (e, a, b, c, f, s) at h))
            ]
      ]
]
