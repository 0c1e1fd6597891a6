-- ===== src/Meta/Accept.antt =====
-- Which meta pages are accepted, and when a page is selected.
use gdbx.Base.{ℕ, ◌^◌, ◌<◌, ◌≡◌, ◌≢◌, ap, ◌∙◌, inl, inr, Option, none, some, arith}
use native.Mathlib.Decide.{ℕ_discrete}
use gdbx.Meta.Format.{Meta, txn_id, join, split, validate}
use gdbx.Meta.Triple.{MetaTriple, num_metas, accepted, new_meta_triple, recent_meta}
use gdbx.Meta.Scanning.{id_of}
use gdbx.Meta.Select.{Selected, new_meta_triple_lem}

pub join-split : (v : ℕ) → v < 2 ^ 64 → join (split v) ≡ v
join-split v h = omega arith

pub validate_same_magic :
    (m m' : Meta)
    → m'.magic_and_version ≡ m.magic_and_version
    → validate m ≡ none
    → join m'.txnid_a ≡ join m'.txnid_b
    → validate m' ≡ none
unfolding validate
validate_same_magic m m' e h c = ground arith

pub accepted_valid : (x : Option Meta) (m : Meta) → accepted x ≡ some m → validate m ≡ none
unfolding accepted
accepted_valid none m h = cc
accepted_valid (some y) m h = ground arith

pub accept : (m : Meta) → validate m ≡ none → accepted (some m) ≡ some m
unfolding accepted
accept m h = ground arith

pub reject : (m : Meta) → join m.txnid_a ≢ join m.txnid_b → accepted (some m) ≡ none
unfolding accepted validate
reject m h = ground arith

-- Every other page is older than the most recent one.
abbrev pub IsNewest : (ℕ → Option Meta) → ℕ → ℕ → Type 0
IsNewest pages newest id = (j : ℕ) → j < num_metas → j ≢ newest → id_of (accepted (pages j)) < id

pub recent_at : (t : MetaTriple) (r : ℕ) → t.recent ≡ some r → recent_meta t ≡ t.metas r
unfolding recent_meta
recent_at t r e = ground arith

-- A page that is accepted and newer than all others is the one that is selected.
pub selects :
    (pages : ℕ → Option Meta) (i : ℕ) (m : Meta)
    → i < num_metas
    → accepted (pages i) ≡ some m
    → 0 < txn_id m
    → IsNewest pages i (txn_id m)
    → (t : MetaTriple) × (new_meta_triple pages ≡ some t)
      × (recent_meta t ≡ some m)
      × ((s : Selected pages t) × (s.newest ≡ i))
selects pages i m h acc pos newest = elim (new_meta_triple_lem pages) [
  | inl (e, all) ↦ absurd (omega (arith, ap id_of acc, all i h, pos))
  | inr (t, e, s) ↦
      let at_i : s.newest ≡ i = elim (ℕ_discrete s.newest i) [
        | yes q ↦ q
        | no q ↦ absurd (
            omega (
              arith,
              newest s.newest s.newest_in q,
              ap id_of s.newest_accepted,
              ap id_of acc,
              s.greatest i h,
            ))
      ] in
      (
        t,
        e,
        recent_at t s.newest (s.recent_is) ∙ s.kept s.newest s.newest_in ∙ (rw at_i acc),
        (s, at_i),
      )
]
