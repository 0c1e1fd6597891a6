-- ===== src/Tests/Metas.antt =====
-- The selection of meta pages and the commit at three concrete pages.
use gdbx.Base.{
  ℕ, zero, suc, ◌≤◌, ◌<◌, ◌≡◌, ◌≢◌, refl, [], arith, Option, some, none, inl, ◌⊎◌, get_elem?,
}
use gdbx.Meta.Format.{
  Meta, Tree, txn_id, split, meta_data_magic, validate, magic_valid, version, is_consistent,
  is_steady, is_weak,
}
use gdbx.Meta.Triple.{
  MetaTriple, num_metas, put, accepted, new_meta_triple, recent_meta, next_meta_index,
}
use gdbx.Meta.Scanning.{id_of, steady_id_of}
use gdbx.Meta.Select.{Selected, new_meta_triple_lem, next_meta_index_lem}
use gdbx.Meta.Accept.{IsNewest}
use gdbx.Meta.Update.{Commit, update_meta, write_map_states}
use gdbx.Meta.Crash.{update_meta_atomic, write_map_torn}

abbrev empty_tree : Tree
empty_tree = record {
  flags = 0;
  height = 0;
  dupfix_size = 4096;
  root = 0xFFFF_FFFF;
  branch_pages = 0;
  leaf_pages = 0;
  large_pages = 0;
  sequence = 0;
  items = 0;
  mod_txnid = 0;
}

abbrev full_tree : Tree
full_tree = record empty_tree { height = 1; root = 3; leaf_pages = 1; items = 2; mod_txnid = 8 }

-- A steady meta page of a commit.
abbrev commit_page : ℕ → Meta
commit_page id = record {
  magic_and_version = split meta_data_magic;
  txnid_a = split id;
  reserve16 = 0;
  validator_id = 0;
  extra_page_hdr = 0;
  geometry = record { grow_pv = 0; shrink_pv = 0; lower = 3; db_pgsize = 100; now = 3; next = 3 };
  gc_tree = empty_tree;
  main_tree = empty_tree;
  canary = record { x = 0; y = 0; z = 0; v = 0 };
  sign = record { lo = 0xFFFF_FFFF; hi = 0xFFFF_FFFF };
  txnid_b = split id;
  pages_retired = split 0;
  boot_id = [];
  dxb_id = [];
}

abbrev three : ℕ → Option Meta
three zero = some (commit_page 5)
three (suc zero) = some (commit_page 7)
three (suc (suc i)) = some (commit_page 6)

abbrev three_ids : ℕ → ℕ
three_ids zero = 5
three_ids (suc zero) = 7
three_ids (suc (suc i)) = 6

abbrev triple : MetaTriple
triple = record { metas = three; txnids = three_ids; recent = some 1; steady = some 1 }

three-accepted : (j : ℕ) → j < num_metas → three j ≡ accepted (three j)
unfolding accepted validate magic_valid version is_consistent
three-accepted zero h = refl
three-accepted (suc zero) h = refl
three-accepted (suc (suc zero)) h = refl
three-accepted (suc (suc (suc j))) h = absurd (omega arith)

three_ids_of : (j : ℕ) → j < num_metas → three_ids j ≡ id_of (accepted (three j))
unfolding accepted validate magic_valid version is_consistent
three_ids_of zero h = refl
three_ids_of (suc zero) h = refl
three_ids_of (suc (suc zero)) h = refl
three_ids_of (suc (suc (suc j))) h = absurd (omega arith)

three_steady : (j : ℕ) → j < num_metas → steady_id_of (accepted (three j)) ≡ three_ids j
unfolding accepted validate magic_valid version is_consistent is_steady is_weak
three_steady zero h = refl
three_steady (suc zero) h = refl
three_steady (suc (suc zero)) h = refl
three_steady (suc (suc (suc j))) h = absurd (omega arith)

ids_le : (j : ℕ) → three_ids j ≤ 7
ids_le zero = omega arith
ids_le (suc zero) = omega arith
ids_le (suc (suc j)) = omega arith

ids_lt : (j : ℕ) → j ≢ 1 → three_ids j < 7
ids_lt zero h = omega arith
ids_lt (suc zero) h = absurd (h refl)
ids_lt (suc (suc j)) h = omega arith

selected : Selected three triple
selected = record {
  kept = three-accepted;
  ids = three_ids_of;
  newest = 1;
  recent_is = refl;
  newest_in = omega arith;
  newest_meta = commit_page 7;
  newest_accepted = unfold accepted validate magic_valid version is_consistent in refl;
  newest_pos = omega arith;
  greatest = λ j h. omega (arith, three_ids_of j h, ids_le j);
  stable = 1;
  steady_is = refl;
  stable_choice = inl (
    omega arith,
    omega (arith, three_steady 1 (omega arith)),
    λ j h. omega (arith, three_steady 1 (omega arith), three_steady j h, ids_le j),
  );
}

newest : IsNewest three 1 7
newest j h ne = omega (arith, three_ids_of j h, ids_lt j ne)

-- Transaction 8, with a sync.
abbrev commit : Commit
commit = record {
  tid = 8;
  gc_tree = empty_tree;
  main_tree = full_tree;
  allocated_pg = 4;
  page_bytes = 4096;
  sys_page_bytes = 4096;
  txn_flags = 0;
  env_flags = 0;
}

new_meta_triple_lem_example :
    ((new_meta_triple three ≡ none) × ((j : ℕ) → j < num_metas → id_of (accepted (three j)) ≡ 0))
    ⊎ ((t : MetaTriple) × (new_meta_triple three ≡ some t) × Selected three t)
new_meta_triple_lem_example = new_meta_triple_lem three

next_meta_index_lem_example :
    (next_meta_index triple < num_metas)
    × ((k : ℕ)
        → k < num_metas
        → id_of (accepted (three (next_meta_index triple))) ≤ id_of (accepted (three k)))
    × (next_meta_index triple ≢ selected.newest)
unfolding selected
next_meta_index_lem_example =
    next_meta_index_lem three triple selected 0 (omega arith)
      (λ e. omega (arith, e, three_ids_of 0 (omega arith)))

update_meta_atomic_example :
    (first second : ℕ → Option Meta) × (update_meta triple three commit ≡ some (first, second))
    × ((r : MetaTriple) × (new_meta_triple first ≡ some r) × (recent_meta r ≡ some (commit_page 7)))
    × ((r : MetaTriple) × (m : Meta) × (new_meta_triple second ≡ some r)
        × (recent_meta r ≡ some m)
        × (txn_id m ≡ 8)
        × (m.gc_tree ≡ empty_tree)
        × (m.main_tree ≡ full_tree)
        × IsNewest second (next_meta_index triple) 8)
unfolding selected
update_meta_atomic_example =
    update_meta_atomic three triple selected newest commit (omega arith) (omega arith)

write_map_torn_example :
    (m : Meta) × (get_elem? (write_map_states (commit_page 7) commit) 1 ≡ some m)
    × ((r : MetaTriple) × (new_meta_triple (put three (next_meta_index triple) (some m)) ≡ some r)
        × (recent_meta r ≡ some m))
    × (txn_id m ≡ 8)
    × (m.gc_tree ≡ empty_tree)
    × (m.main_tree ≡ empty_tree)
unfolding selected
write_map_torn_example =
    write_map_torn three triple selected newest commit (omega arith) (omega arith)
