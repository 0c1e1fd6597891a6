-- ===== src/Update/State.antt =====
-- The pages of a write transaction as a cursor changes them: `allocatePage`, `touchPage`,
-- `touchPageAt`, `updateChildPointer`, `markTreeDirty` of cursor_modify.go, in a database that is not
-- open in the mode that writes to the mapping (`isWriteMap`), so that a new page is a slot of the spill
-- buffer. A page in `dirty` is the shared struct of the tracker: the cursor's stack names it by its
-- number. `is_dirty` is the level's bit of `dirtyMask`. A failed allocation in the spill buffer panics
-- in the program, and here.
pub mod Touch
pub mod Path
pub mod Linking
pub mod Copies
pub mod Stepping
pub mod Level
pub mod Copying
use gdbx.Base.{
  ℕ, ◌+◌, ◌%◌, ◌^◌, ◌==◌, ltb, if◌then◌else◌, Bool, true, false, ◌&&◌, List, [], ◌∷◌, Option, none,
  some, length, Run, ok, panic, ◌>>=◌,
}
use gdbx.Bytes.{Bytes, read, store32, store64, copy_list}
use gdbx.Page.Header.{page_no}
use gdbx.Page.Entries.{entry_offset}
use gdbx.Meta.Format.{Tree}
use gdbx.Spill.Buffer.{Buffer, Slot, Region, Allocated, page, failed, allocate_slot}
use gdbx.Txn.Mapping.{page_slice}

-- What the program does not determine: the answers of the system to new segments, the bytes that a slot
-- has when it is handed out, and those of a buffer from the pool.
pub record System : Type 0 where
  pub creates : List ℕ → ℕ → Bool
  pub left_over : Region → ℕ → ℕ
  pub pooled : ℕ → ℕ

-- `free_pages` has the last element first.
pub record WriteTxn : Type 0 where
  pub page_bytes : ℕ
  pub txn_id : ℕ
  pub mmap_data : Bytes
  pub allocated_pg : ℕ
  pub free_pages : List ℕ
  pub spill : Buffer
  pub spill_slots : ℕ → Option Slot
  pub dirty : ℕ → Option Bytes
  pub compact_buf : Bytes

pub record PathLevel : Type 0 where
  pub page_no : ℕ
  pub idx : ℕ
  pub is_dirty : Bool

-- The stack has the top first.
pub record WriteCursor : Type 0 where
  pub txn : WriteTxn
  pub tree : Tree
  pub tree_dirty : Bool
  pub stack : List PathLevel

abbrev pub update {ℓ} : {A : Type ℓ} → (ℕ → Option A) → ℕ → A → ℕ → Option A
update f n a m = if m == n then some a else f m

abbrev pub put_dirty : WriteTxn → ℕ → Bytes → WriteTxn
put_dirty t n p = record t { dirty = update t.dirty n p }

abbrev pub dirty_or : Option Bytes → Run Bytes → Run Bytes
dirty_or (some p) mapped = ok p
dirty_or none mapped = mapped

-- The page of a number: the dirty one, or that of the mapping.
unfoldable pub page_of : WriteTxn → ℕ → Run Bytes
page_of t n = dirty_or (t.dirty n) (page_slice t.mmap_data t.page_bytes n)

abbrev pub mark_tree_dirty : WriteCursor → WriteCursor
mark_tree_dirty c = record c { tree_dirty = true }

-- The entry's child is `child`, unless the entry is out of range.
unfoldable pub update_child_pointer : Bytes → ℕ → ℕ → Run Bytes
update_child_pointer p idx child = do
  offset ← entry_offset p idx
  if offset == 0 && ltb 0 idx then ok p else store32 p offset child

module _ (sys : System) where
  abbrev pub slot_given : WriteTxn → ℕ → Allocated × Buffer → Run (Bytes × WriteTxn)
  slot_given t n (page region slot, spill) = ok (
    record { size = region.len; at = sys.left_over region },
    record t { spill = spill; spill_slots = update t.spill_slots n slot },
  )
  slot_given t n (failed e, spill) = panic

  -- A slot of the spill buffer for the page `n`.
  unfoldable pub new_slot : WriteTxn → ℕ → Run (Bytes × WriteTxn)
  new_slot t n = do r ← allocate_slot sys.creates t.spill; slot_given t n r

  -- The number for a new page.
  unfoldable pub next_page_no : WriteTxn → ℕ × WriteTxn
  next_page_no t = elim (t.free_pages) [
    | [] ↦ (t.allocated_pg, record t { allocated_pg = (t.allocated_pg + 1) % 2 ^ 32 })
    | n ∷ rest ↦ (n, record t { free_pages = rest })
  ]

  unfoldable pub allocate_page : WriteTxn → Run (ℕ × Bytes × WriteTxn)
  allocate_page t =
      let (n, t1) = next_page_no t in do (p, t2) ← new_slot t1 n; ok (n, p, put_dirty t2 n p)

  -- The new page takes the place of the level's page: in the tree, or in the page above.
  unfoldable pub link_page : WriteCursor → PathLevel → ℕ → List PathLevel → Run WriteCursor
  link_page c l new [] = ok (
      mark_tree_dirty (record c {
        tree = record (c.tree) { root = new; mod_txnid = c.txn.txn_id };
        stack = record { page_no = new; idx = l.idx; is_dirty = true } ∷ [];
      }))
  link_page c l new (par ∷ rest) = do
    p ← page_of c.txn par.page_no
    p' ← update_child_pointer p par.idx new
    ok (record c {
      txn = put_dirty c.txn par.page_no p';
      stack = record { page_no = new; idx = l.idx; is_dirty = true } ∷ par ∷ rest;
    })

  -- A page that the tracker has is used as it is; another one is copied to a new number.
  unfoldable pub copy_unless : Option Bytes → WriteCursor → PathLevel → ℕ → Bytes → Run WriteCursor
  copy_unless (some p) c l old orig =
      ok (record c { stack = record { page_no = old; idx = l.idx; is_dirty = true } ∷ c.stack })
  copy_unless none c l old orig = do
    let new = c.txn.allocated_pg
    (data_bytes, t) ← new_slot (record (c.txn) { allocated_pg = (new + 1) % 2 ^ 32 }) new
    d1 ← copy_list data_bytes 0 (read orig.at 0 orig.size)
    d2 ← store32 d1 16 new
    d3 ← store64 d2 0 c.txn.txn_id
    link_page (record c { txn = put_dirty t new d3 }) l new c.stack

  -- One round of the loop of `touchPageAt`; the stack of `c` is what is touched so far.
  unfoldable pub touch_level : WriteCursor → PathLevel → Run WriteCursor
  touch_level c l = do
    orig ← page_of c.txn l.page_no
    old ← page_no orig
    copy_unless (c.txn.dirty old) c l old orig

  -- From the highest dirty level on up to the top.
  unfoldable pub touch_levels : WriteCursor → List PathLevel → Run WriteCursor
  touch_levels c [] = ok (record c { stack = [] })
  touch_levels c (l ∷ rest) =
      let below = touch_levels c rest in
      if l.is_dirty then ok (record c { stack = l ∷ rest }) else (do c' ← below; touch_level c' l)

  unfoldable pub touch_page : WriteCursor → Run WriteCursor
  touch_page c = touch_levels c c.stack
