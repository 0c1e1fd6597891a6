-- ===== src/Meta/Crash.antt =====
-- What a reader finds after each write of a commit.
use gdbx.Base.{ℕ, ◌^◌, ◌≤◌, ◌<◌, ◌≡◌, ◌≢◌, refl, ap, sym, ◌∙◌, Option, none, some, arith, get_elem?}
use native.Mathlib.Decide.{ℕ_discrete}
use gdbx.Meta.Format.{
  Meta, txn_id, join, split, validate, set_txnid, begin_meta_update, end_meta_update,
}
use gdbx.Meta.Triple.{
  MetaTriple, num_metas, put, accepted, new_meta_triple, recent_meta, next_meta_index,
}
use gdbx.Meta.Scanning.{id_of}
use gdbx.Meta.Select.{Selected, next_meta_index_lem}
use gdbx.Meta.Accept.{
  IsNewest, join-split, validate_same_magic, accepted_valid, accept, reject, recent_at, selects,
}
use gdbx.Meta.Update.{Commit, content, update_meta, write_map_states}

-- What the assignments of a commit leave in the copy of the recent page.
content-magic : (m : Meta) (x : Commit) → (content m x).magic_and_version ≡ m.magic_and_version
unfolding content
content-magic m x = ground arith

content-ids :
    (m : Meta) (x : Commit)
    → ((content m x).txnid_a ≡ split x.tid) × ((content m x).txnid_b ≡ split x.tid)
unfolding content
content-ids m x = ground arith

content-trees :
    (m : Meta) (x : Commit)
    → ((content m x).gc_tree ≡ x.gc_tree) × ((content m x).main_tree ≡ x.main_tree)
unfolding content
content-trees m x = ground arith

update_meta-some :
    (t : MetaTriple) (pages : ℕ → Option Meta) (x : Commit) (m : Meta)
    → recent_meta t ≡ some m
    → update_meta t pages x
      ≡ some (
        put pages (next_meta_index t) (some (begin_meta_update (content m x) x.tid)),
        put pages
            (next_meta_index t)
            (some (end_meta_update (begin_meta_update (content m x) x.tid) x.tid)),
      )
unfolding update_meta
update_meta-some t pages x m e = rw (e, update_meta)

put_self {ℓ} : {A : Type ℓ} (a : ℕ → A) (i : ℕ) (v : A) → put a i v i ≡ v
put_self a i v = ground arith

put_ne {ℓ} : {A : Type ℓ} (a : ℕ → A) (i : ℕ) (v : A) (j : ℕ) → j ≢ i → put a i v j ≡ a j
put_ne a i v j h = ground arith

module _ (pages : ℕ → Option Meta) (t : MetaTriple) (s : Selected pages t)
    (newest : IsNewest pages s.newest (txn_id s.newest_meta)) (x : Commit)
    (later : txn_id s.newest_meta < x.tid) (word : x.tid < 2 ^ 64) where
  other_page : (j : ℕ) × (j < num_metas) × (j ≢ s.newest)
  other_page = elim (ℕ_discrete s.newest 0) [
    | yes e ↦ (1, omega arith, λ q. omega arith)
    | no e ↦ (0, omega arith, λ q. e (sym q))
  ]

  slot : (next_meta_index t < num_metas) × (next_meta_index t ≢ s.newest)
  slot =
      let (j, h, ne) = other_page in
      let older : id_of (accepted (pages j)) < txn_id s.newest_meta = newest j h ne in
      let r = next_meta_index_lem pages t s j h (λ e. omega arith) in (r.0, r.2)

  -- Whatever stands in the page that is written, the others keep their ids.
  older_elsewhere :
      (m : Option Meta) (j : ℕ)
      → j < num_metas
      → j ≢ next_meta_index t
      → id_of (accepted (put pages (next_meta_index t) m j)) ≤ txn_id s.newest_meta
  older_elsewhere m j h ne = rw (put_ne pages (next_meta_index t) m j ne) (s.greatest j h)

  -- A page that is not accepted in its place leaves the old selection.
  survives :
      (m : Meta)
      → accepted (some m) ≡ none
      → (r : MetaTriple) × (new_meta_triple (put pages (next_meta_index t) (some m)) ≡ some r)
        × (recent_meta r ≡ some s.newest_meta)
  survives m torn =
      let i = next_meta_index t in
      let (r, e, q, _) =
        selects (put pages i (some m)) s.newest s.newest_meta s.newest_in
          (rw (put_ne pages i (some m) s.newest (λ w. slot.1 (sym w))) s.newest_accepted)
          s.newest_pos
          (λ j h ne. elim (ℕ_discrete j i) [
            | yes w ↦ rw (w, put_self pages i (some m), torn) s.newest_pos
            | no w ↦ rw (put_ne pages i (some m) j w) (newest j h ne)
          ]) in
      (r, e, q)

  -- A page that is accepted in its place with the new id is selected.
  takes_over :
      (m : Meta)
      → validate m ≡ none
      → txn_id m ≡ x.tid
      → (r : MetaTriple) × (new_meta_triple (put pages (next_meta_index t) (some m)) ≡ some r)
        × (recent_meta r ≡ some m)
        × ((s' : Selected (put pages (next_meta_index t) (some m)) r) × (s'.newest
              ≡ next_meta_index t))
  takes_over m valid id =
      let i = next_meta_index t in
      selects (put pages i (some m)) i m slot.0 (rw (put_self pages i (some m)) (accept m valid))
        (omega (arith, id, later))
        (λ j h ne. omega (arith, older_elsewhere (some m) j h ne, id, later))

  begun : Meta
  begun = begin_meta_update (content s.newest_meta x) x.tid

  ended : Meta
  unfolding begun
  ended = end_meta_update begun x.tid

  tid_ok : join (split x.tid) ≡ x.tid
  tid_ok = join-split x.tid word

  newest_valid : validate s.newest_meta ≡ none
  newest_valid = accepted_valid (pages s.newest) s.newest_meta s.newest_accepted

  begun_torn : accepted (some begun) ≡ none
  unfolding begun begin_meta_update
  begun_torn = reject begun (λ e. omega (arith, tid_ok, later, e))

  ended_ids : (ended.txnid_a ≡ split x.tid) × (ended.txnid_b ≡ split x.tid)
  unfolding ended begin_meta_update end_meta_update
  ended_ids = (refl, refl)

  ended_magic : ended.magic_and_version ≡ s.newest_meta.magic_and_version
  unfolding ended begin_meta_update end_meta_update
  ended_magic = content-magic s.newest_meta x

  ended_valid : validate ended ≡ none
  ended_valid =
      validate_same_magic s.newest_meta ended ended_magic newest_valid
        (ap join ended_ids.0 ∙ sym (ap join ended_ids.1))

  ended_trees : (ended.gc_tree ≡ x.gc_tree) × (ended.main_tree ≡ x.main_tree)
  unfolding ended begin_meta_update end_meta_update
  ended_trees = content-trees s.newest_meta x

  -- Where the most recent page is newer than the other two, and the transaction id is greater and below
  -- 2^64, `updateMeta` writes twice. A reader of the pages as the first write leaves them selects the
  -- page of the commit before, as it was. A reader after the second selects a page with the
  -- transaction's id and its two trees, and that page is again newer than the others.
  pub update_meta_atomic :
      (first second : ℕ → Option Meta) × (update_meta t pages x ≡ some (first, second))
      × ((r : MetaTriple) × (new_meta_triple first ≡ some r) × (recent_meta r ≡ some s.newest_meta))
      × ((r : MetaTriple) × (m : Meta) × (new_meta_triple second ≡ some r)
          × (recent_meta r ≡ some m)
          × (txn_id m ≡ x.tid)
          × (m.gc_tree ≡ x.gc_tree)
          × (m.main_tree ≡ x.main_tree)
          × IsNewest second (next_meta_index t) x.tid)
  unfolding ended
  update_meta_atomic =
      let recent : recent_meta t ≡ some s.newest_meta =
        recent_at t s.newest s.recent_is ∙ s.kept s.newest s.newest_in ∙ s.newest_accepted in
      let i = next_meta_index t in
      let id : txn_id ended ≡ x.tid = ap join ended_ids.0 ∙ tid_ok in
      let (r, e, q, _) = takes_over ended ended_valid id in
      (
        put pages i (some begun),
        put pages i (some ended),
        update_meta-some t pages x s.newest_meta recent,
        survives begun begun_torn,
        (
          r,
          ended,
          e,
          q,
          id,
          ended_trees.0,
          ended_trees.1,
          λ j h ne. omega (arith, older_elsewhere (some ended) j h ne, later),
        ),
      )

  -- Where the most recent page is newer than the other two, and the transaction id is greater and below
  -- 2^64, with WriteMap: the second of the states that the assignments go through in the mapping
  -- already carries the new transaction id in both places, so a reader selects it, although its two
  -- trees are still those of the commit before.
  pub write_map_torn :
      (m : Meta) × (get_elem? (write_map_states s.newest_meta x) 1 ≡ some m)
      × ((r : MetaTriple) × (new_meta_triple (put pages (next_meta_index t) (some m)) ≡ some r)
          × (recent_meta r ≡ some m))
      × (txn_id m ≡ x.tid)
      × (m.gc_tree ≡ s.newest_meta.gc_tree)
      × (m.main_tree ≡ s.newest_meta.main_tree)
  unfolding write_map_states
  write_map_torn =
      let m = set_txnid s.newest_meta x.tid in
      let valid : validate m ≡ none =
        validate_same_magic s.newest_meta m (unfold set_txnid in refl) newest_valid
          (unfold set_txnid in refl) in
      let (r, e, q, _) = takes_over m valid tid_ok in (m, refl, (r, e, q), tid_ok, refl, refl)
