-- ===== src/Meta/Update.antt =====
-- `updateMeta` of txn.go: the meta page of a commit, as a file write and in a writable mapping. The
-- pages are what a reader makes of the file.
use gdbx.Base.{
  ℕ, ◌+◌, ◌*◌, ◌/◌, ◌%◌, ◌^◌, Bool, not, ◌&&◌, ◌==◌, if◌then◌else◌, List, [], ◌∷◌, Option, none,
  some,
}
use gdbx.Page.Header.{flag_set}
use gdbx.Meta.Format.{
  Meta, Tree, set_txnid, set_sign_weak, set_sign_steady, begin_meta_update, end_meta_update,
}
use gdbx.Meta.Triple.{MetaTriple, put, recent_meta, next_meta_index}

-- What `updateMeta` reads of the transaction and of its environment.
pub record Commit : Type 0 where
  pub tid : ℕ
  pub gc_tree : Tree
  pub main_tree : Tree
  pub allocated_pg : ℕ
  pub page_bytes : ℕ
  pub sys_page_bytes : ℕ
  pub txn_flags : ℕ
  pub env_flags : ℕ

unfoldable pub align_to_sys_page_size : ℕ → ℕ → ℕ
align_to_sys_page_size sys size = if size % sys == 0 then size else (size / sys + 1) * sys

-- TxnNoSync is 0x10000, NoMetaSync is 0x40000.
unfoldable pub will_sync : Commit → Bool
will_sync x = not (flag_set x.txn_flags 0x10000) && not (flag_set x.env_flags 0x40000)

unfoldable pub aligned_pages : Commit → ℕ
unfolding align_to_sys_page_size
aligned_pages x =
    align_to_sys_page_size x.sys_page_bytes (x.allocated_pg * x.page_bytes) / x.page_bytes % 2 ^ 32

-- The copy of the recent meta page after each assignment in turn.
unfoldable pub with_trees : Meta → Commit → Meta
with_trees m x = record m { gc_tree = x.gc_tree; main_tree = x.main_tree }

unfoldable pub with_geometry : Meta → Commit → Meta
unfolding aligned_pages
with_geometry m x = record m {
  geometry = record (m.geometry) { now = aligned_pages x; next = aligned_pages x };
}

unfoldable pub with_sign : Meta → Commit → Meta
unfolding will_sync set_sign_weak set_sign_steady
with_sign m x = if will_sync x then set_sign_steady m else set_sign_weak m

unfoldable pub content : Meta → Commit → Meta
unfolding set_txnid with_trees with_geometry with_sign
content recent x = with_sign (with_geometry (with_trees (set_txnid recent x.tid) x) x) x

-- The pages after the first and after the second `WriteAt`; `none` is ErrCorrupted. The two writes
-- themselves are assumed to reach the file whole.
unfoldable pub update_meta :
    MetaTriple → (ℕ → Option Meta) → Commit → Option ((ℕ → Option Meta) × (ℕ → Option Meta))
update_meta t pages x = elim (recent_meta t) [
  | none ↦ none
  | some recent ↦
      let begun = begin_meta_update (content recent x) x.tid in
      let ended = end_meta_update begun x.tid in
      some (put pages (next_meta_index t) (some begun), put pages (next_meta_index t) (some ended))
]

-- With WriteMap the same statements write to the mapping, where each can be seen: the meta page after
-- each of them. The calls of `setTxnid`, `setSign`, `beginMetaUpdate` and `endMetaUpdate` are one state
-- each, as are the two assignments of the geometry: the states inside them are left out.
unfoldable pub write_map_states : Meta → Commit → List Meta
unfolding set_txnid with_trees with_geometry with_sign content begin_meta_update end_meta_update
write_map_states recent x =
    let m1 = set_txnid recent x.tid in
    let m2 = record m1 { gc_tree = x.gc_tree } in
    let m3 = with_trees m1 x in
    let m4 = with_geometry m3 x in
    let m5 = content recent x in
    let m6 = begin_meta_update m5 x.tid in
    recent ∷ m1 ∷ m2 ∷ m3 ∷ m4 ∷ m5 ∷ m6 ∷ end_meta_update m6 x.tid ∷ []
