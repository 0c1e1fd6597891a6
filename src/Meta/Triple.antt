-- ===== src/Meta/Triple.antt =====
-- The three meta pages together: `metaTriple` of meta.go. A page is what `readMeta` makes of it.
use gdbx.Base.{
  ℕ, zero, suc, ◌+◌, ◌-◌, Bool, true, false, ltb, ◌==◌, if◌then◌else◌, Option, none, some,
}
use gdbx.Meta.Format.{Meta, validate, txn_id, is_steady}

abbrev pub num_metas : ℕ
num_metas = 3

-- The arrays as functions of the index; -1 is `none`.
pub record MetaTriple : Type 0 where
  pub metas : ℕ → Option Meta
  pub txnids : ℕ → ℕ
  pub recent : Option ℕ
  pub steady : Option ℕ

-- The variables of the loop over the pages.
pub record Scan : Type 0 where
  pub triple : MetaTriple
  pub max_txnid : ℕ
  pub max_steady_txnid : ℕ

-- `a[i] = v`
abbrev pub put {ℓ} : {A : Type ℓ} → (ℕ → A) → ℕ → A → ℕ → A
put a i v j = if j == i then v else a j

-- A page that is read and passes `validate`.
unfoldable pub accepted : Option Meta → Option Meta
accepted none = none
accepted (some m) = elim (validate m) [ none ↦ some m | some e ↦ none ]

-- The body of the loop at index `i`. A page that is skipped leaves nil and 0 at its index: in
-- `newMetaTriple` as the arrays start, in `updateFromPages` by assignment.
unfoldable pub scan_page : ℕ → Option Meta → Scan → Scan
scan_page i none s =
    let t = s.triple in
    record s { triple = record t { metas = put t.metas i none; txnids = put t.txnids i 0 } }
scan_page i (some m) s =
    let t = s.triple in
    let id = txn_id m in
    let newer = ltb s.max_txnid id in
    let steadier = if is_steady m then ltb s.max_steady_txnid id else false in
    record {
      triple = record {
        metas = put t.metas i (some m);
        txnids = put t.txnids i id;
        recent = if newer then some i else t.recent;
        steady = if steadier then some i else t.steady;
      };
      max_txnid = if newer then id else s.max_txnid;
      max_steady_txnid = if steadier then id else s.max_steady_txnid;
    }

-- `rounds` pages from index `i` on.
unfoldable pub scan : (ℕ → Option Meta) → ℕ → ℕ → Scan → Scan
unfolding scan_page accepted
scan pages i zero s = s
scan pages i (suc rounds) s = scan pages (i + 1) rounds (scan_page i (accepted (pages i)) s)

-- "If no steady meta, use recent."
unfoldable pub settle_steady : MetaTriple → MetaTriple
settle_steady t = record t { steady = elim (t.steady) [ none ↦ t.recent | some i ↦ some i ] }

unfoldable pub scan_all : MetaTriple → (ℕ → Option Meta) → MetaTriple
unfolding scan
scan_all t pages =
    (scan pages 0 num_metas (record {
      triple = record t { recent = none; steady = none };
      max_txnid = 0;
      max_steady_txnid = 0;
    })).triple

-- What follows the loop: `none` is `errMetaNoValid`.
unfoldable pub finish : MetaTriple → Option MetaTriple
unfolding settle_steady
finish t = elim (t.recent) [ none ↦ none | some i ↦ some (settle_steady t) ]

unfoldable pub new_meta_triple : (ℕ → Option Meta) → Option MetaTriple
unfolding scan_all
new_meta_triple pages =
    finish
      (scan_all (record { metas = λ _. none; txnids = λ _. 0; recent = none; steady = none }) pages)

-- The triple as it is left, and whether the error is nil.
unfoldable pub update_from_pages : MetaTriple → (ℕ → Option Meta) → MetaTriple × Bool
unfolding scan_all finish
update_from_pages mt pages =
    let t = scan_all mt pages in
    elim (finish t) [ none ↦ (t, false) | some settled ↦ (settled, true) ]

unfoldable pub recent_meta : MetaTriple → Option Meta
recent_meta t = elim (t.recent) [ none ↦ none | some i ↦ t.metas i ]

unfoldable pub steady_meta : MetaTriple → Option Meta
steady_meta t = elim (t.steady) [ none ↦ none | some i ↦ t.metas i ]

-- The loop from index `i` on, with the least so far.
unfoldable pub least_from : (ℕ → ℕ) → ℕ → ℕ → ℕ → ℕ
least_from ids i zero best = best
least_from ids i (suc rounds) best =
    least_from ids (i + 1) rounds (if ltb (ids i) (ids best) then i else best)

unfoldable pub next_meta_index : MetaTriple → ℕ
unfolding least_from
next_meta_index t = least_from t.txnids 1 (num_metas - 1) 0
