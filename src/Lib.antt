-- ===== src/Lib.antt =====
-- gdbx: a model of the storage core of an embedded key-value store with the file format of MDBX, and
-- the properties that make it correct.
--
-- A database file is a sequence of pages. The first three are meta pages, one of which names the roots
-- of the trees; a commit writes the next one of them. The other pages hold the nodes of B+ trees: a page
-- has a header, a table of offsets that grows up, and nodes that grow down from the end. Cursors search
-- a page by its table and move over the leaves by a stack of pages, and change a page by inserting,
-- removing and replacing entries, with a split where a page is full. Dirty pages may be held in a spill
-- buffer, whose slots a bitmap hands out. A reader holds a slot of the lock file, with the id of the
-- transaction that it reads.
--
-- The files, and the code each models (the comment above a definition names what differs):
--   Base, Base/*         Boolean tests on numbers, lists, runs that may panic, signed differences
--   Bytes                byte slices, endian_le.go, Go's slice expressions and copy
--   Page/Header          page.go: pageHeader, the flags, init, validate
--   Page/Entries         page.go: the entry table and the sizes of nodes
--   Page/Compact         page.go: compact, compactWithBuf
--   Page/CompactTo       page.go: compactTo
--   Page/Edit            page.go: insertEntry, removeEntry, removeEntriesFrom, updateEntry
--   Page/Split           page.go: splitPoint
--   Node/Object          node.go: the node object
--   Node/Direct, Raw, Unchecked, Fast   node.go: the accessors of these names
--   Search               search_other.go: binarySearchLeafN, binarySearchBranchN
--   Meta/Format, Trees   meta.go: one meta page, its validation and its two-phase update
--   Meta/Triple          meta.go: metaTriple
--   Meta/Update          txn.go: updateMeta; env.go: alignToSysPageSize
--   Txn/Mapping          txn.go: getLargeData; env.go: getPageData; what a read transaction sees
--   Txn/Duplicates       txn.go: getFirstSubPageValue, getFirstSubTreeValueReadOnly
--   Txn/Get, GetFast     txn.go: searchPageRawExact, directGetReadOnly; directGetReadOnlyFast
--   Cursor/State, Move   cursor.go: the stack, getCurrent, first, last, moveNext, movePrev
--   Cursor/Seek          cursor.go: search, searchPage, searchPageAsm
--   Lock/Table           lock.go: the readers' slots
--   Update/SubPage       cursor_modify.go: parseSubPageValues, buildDupSubPage, buildDupNode
--   Update/Duplicates    cursor_modify.go: hasDupValueInSubPage, getLastDupValueSubPage, putDupSubPage,
--                        convertToDupSubPage
--   Update/State         cursor_modify.go: allocatePage, touchPage, touchPageAt, updateChildPointer
--   Update/Split         cursor_modify.go: insertNode, insertNodeAt, createRoot, splitAndInsert,
--                        insertIntoParent, createNewRoot, buildBranchNode
--   Fastmap/Table        fastmap/fastmap.go: Uint32Map
--   Spill/Bitmap         spill/bitmap.go; Spill/Bits has its bit operations
--   Spill/Buffer         spill/spill.go
-- The other files hold lemmas, and Tests the theorems at concrete inputs.
--
-- How the code is read. A slice is its length and its bytes; its capacity is its length. A run is `ok`
-- with a value or `panic`, for each index and slice expression of the code. A method that changes a page
-- returns the page as it leaves it. Integers are natural numbers with the wrap-around of their width
-- written out: `add16` and `sub16` wrap at 2^16, and where the code computes in `int` nothing wraps.
-- Indices are natural numbers, so a test for a negative index has no counterpart. The pointer to a
-- header is nil for a slice that is too short, and its use then a panic. The buffer that compaction
-- takes from a pool is a parameter, the bytes it happens to hold. The destination of `compactTo` is a
-- page of its own.
--
-- Bounds and fuel. The loop of a search has as fuel the number of entries, which is at least the width of
-- the range it halves: the theorems on it say that it returns. The other loops on a page are recursions on the
-- number of their rounds. A page has at most 64 KB; the theorems on edits hold for each such size.
--
-- What a reader makes of a meta page in the file is a function from its index; a write replaces one
-- value of it, so a write is seen whole. Where the code writes to a mapped meta page, each statement is a
-- state of its own; the calls of setTxnid, setSignSteady, setSignWeak, beginMetaUpdate and endMetaUpdate
-- are one state each, and so are the two assignments of the geometry.
--
-- A read-only transaction has the mapping that was current when it began, and the current one, by which
-- it reads what lies past its own. The cache of page structs that getPage keeps is left out. The reads
-- of directGetReadOnlyFast are unsafe: one that ends outside the mapping is a panic. A loop down a tree
-- has fuel for its levels, and so has the loop of `first`; the theorems on them say that one more than
-- the height of the tree is enough. A cursor is its stack of pages and indices; what a method returns is
-- the entry or the error, and the cursor as it leaves it.
--
-- The integer map's mask is one less than a power of two, and `&` by it a remainder. Its loops have fuel
-- for each bucket, and `Set` and `grow`, which call each other, for two calls of `Set` one in another: the
-- theorem on `Set` says that this is enough.
--
-- An operation on the table of readers is one step, and any sequence of them is a run of the table: what
-- two processes do between the atomic reads and writes of one operation is not told apart.
--
-- The spill buffer is its segments, each a bitmap and the length of its mapping; a page is a region of a
-- mapping. Whether the calls of the system for a new segment succeed is a parameter, of the path and the
-- size. A cursor that writes has a stack of page numbers; a page that was changed is in the transaction's
-- map of dirty pages, through which the cursor and its stack see the same page, and a new page is a slot
-- of the spill buffer with the bytes that it happens to hold. The order of duplicates is a parameter, and
-- the theorems that need it ask for a strict order. The recursion of splits has one round for each level of the
-- stack and one more; the theorem on inserting says that this is enough.
--
-- Not modelled: the cursors' handling of duplicates and the state they have after a deletion (cursor.go,
-- isDupSort, afterDelete), so that a move here is one in a table without duplicates, by a cursor that has
-- deleted nothing; the lists of freed pages and nested write
-- transactions (txn.go), of the updates by cursors the mode that writes to the mapping, overflow pages, the
-- trees of duplicates and the deletions (cursor_modify.go, range_delete.go), the opening of the lock file
-- and the writer lock (lock.go), the reader table on Windows (lock_windows.go), the environment (env.go)
-- and named databases (dbi.go), which rest on the parts above or stand beside them; the
-- assembly of the search, which is not Go; mmap/ and the locks of a system, which are system calls;
-- errors.go, constants.go, version.go and compat.go, which hold no state.
pub mod Base
pub mod Bytes
pub mod Page
pub mod Node
pub mod Search
pub mod Meta
pub mod Txn
pub mod Cursor
pub mod Update
pub mod Lock
pub mod Fastmap
pub mod Tests
pub mod Spill
