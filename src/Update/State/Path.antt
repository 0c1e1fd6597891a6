-- ===== src/Update/State/Path.antt =====
-- The path of a cursor: each page on it has a pointer to the next one.
use gdbx.Base.{
  ℕ, ◌+◌, ◌^◌, ◌≤◌, ◌<◌, ◌≡◌, ◌≢◌, sym, ◌∙◌, true, false, List, [], ◌∷◌, Option, none, some, ok,
  arith, ◌==◌,
}
use gdbx.Bytes.{Bytes, word32}
use gdbx.Update.State.{System, WriteTxn, WriteCursor, PathLevel, put_dirty, page_of}
use gdbx.Update.State.Touch.{Points, Supplies}

-- The transaction sees the page `p` under the number `n`, which stands in its header.
pub record HasPage (t : WriteTxn) (n : ℕ) (p : Bytes) : Type 0 where
  pub seen : page_of t n ≡ ok p
  pub whole : p.size ≡ t.page_bytes
  pub numbered : word32 p.at 16 ≡ n

-- The entry points to a page, if one is meant: none is at the top of a whole path.
abbrev pub PointsTo : Bytes → ℕ → Option ℕ → Type 0
PointsTo p idx none = Unit
PointsTo p idx (some n) = Points p idx n

abbrev pub IsRoot : ℕ → Option ℕ → Type 0
IsRoot root none = Unit
IsRoot root (some n) = n ≡ root

-- From the root down these levels, the top of the stack first, the pointers lead to the page `o`.
abbrev pub Leads : WriteTxn → ℕ → List PathLevel → Option ℕ → Type 0
Leads t root [] o = IsRoot root o
Leads t root (l ∷ rest) o =
    (p : Bytes) × HasPage t l.page_no p × PointsTo p l.idx o × Leads t root rest (some l.page_no)

pub PointsTo-map :
    (p q : Bytes) (idx : ℕ) (o : Option ℕ)
    → ((i child : ℕ) → Points p i child → Points q i child)
    → PointsTo p idx o
    → PointsTo q idx o
PointsTo-map p q idx none f h = tt
PointsTo-map p q idx (some n) f h = f idx n h

abbrev pub Apart : ℕ → List PathLevel → Type 0
Apart x [] = Unit
Apart x (l ∷ rest) = (l.page_no ≢ x) × Apart x rest

abbrev pub AreDistinct : List PathLevel → Type 0
AreDistinct [] = Unit
AreDistinct (l ∷ rest) = Apart l.page_no rest × AreDistinct rest

abbrev pub AreBelow : ℕ → List PathLevel → Type 0
AreBelow b [] = Unit
AreBelow b (l ∷ rest) = (l.page_no < b) × AreBelow b rest

pub AreBelow-Apart : (b : ℕ) (stack : List PathLevel) → AreBelow b stack → Apart b stack
AreBelow-Apart b [] h = tt
AreBelow-Apart b (l ∷ rest) h = (λ e. absurd (omega (arith, e, h.0)), AreBelow-Apart b rest h.1)

pub AreBelow-mono :
    (b b' : ℕ) (stack : List PathLevel) → b ≤ b' → AreBelow b stack → AreBelow b' stack
AreBelow-mono b b' [] le h = tt
AreBelow-mono b b' (l ∷ rest) le h = (omega (arith, h.0), AreBelow-mono b b' rest le h.1)

-- A page that is written under another number is not seen.
pub HasPage-put_dirty :
    (t : WriteTxn) (y : ℕ) (q : Bytes) (x : ℕ) (p : Bytes)
    → x ≢ y
    → HasPage t x p
    → HasPage (put_dirty t y q) x p
unfolding page_of
HasPage-put_dirty t y q x p ne h =
    let apart : (x == y) ≡ false = ground arith in
    record { seen = rw apart h.seen; whole = h.whole; numbered = h.numbered }

pub put_dirty-HasPage :
    (t : WriteTxn) (y : ℕ) (q : Bytes)
    → q.size ≡ t.page_bytes
    → word32 q.at 16 ≡ y
    → HasPage (put_dirty t y q) y q
unfolding page_of
put_dirty-HasPage t y q size number =
    let self : (y == y) ≡ true = ground arith in
    record { seen = rw self; whole = size; numbered = number }

pub Leads-put_dirty :
    (t : WriteTxn) (y : ℕ) (q : Bytes) (root : ℕ) (stack : List PathLevel) (n : Option ℕ)
    → Apart y stack
    → Leads t root stack n
    → Leads (put_dirty t y q) root stack n
Leads-put_dirty t y q root [] n h e = e
Leads-put_dirty t y q root (l ∷ rest) n h (p, page, points, rest_leads) = (
  p,
  HasPage-put_dirty t y q l.page_no p h.0 page,
  points,
  Leads-put_dirty t y q root rest (some l.page_no) h.1 rest_leads,
)

-- The path leads to `n`, with room in the transaction for `k` pages more.
pub record Fits (sys : System) (c : WriteCursor) (stack : List PathLevel) (n : Option ℕ) (k : ℕ)
    : Type 0 where
  pub leads : Leads c.txn c.tree.root stack n
  pub below : AreBelow c.txn.allocated_pg stack
  pub distinct : AreDistinct stack
  pub supplies : Supplies sys c.txn k
  pub numbers : c.txn.allocated_pg + k < 2 ^ 32
  pub addressable : c.txn.page_bytes ≤ 65536

abbrev pub indices : List PathLevel → List ℕ
indices [] = []
indices (l ∷ rest) = l.idx ∷ indices rest

-- What a change of the pages of a path leaves as it was.
pub record Keeps (c : WriteCursor) (stack : List PathLevel) (c' : WriteCursor) : Type 0 where
  pub mapped : c'.txn.mmap_data ≡ c.txn.mmap_data
  pub same_bytes : c'.txn.page_bytes ≡ c.txn.page_bytes
  pub same_id : c'.txn.txn_id ≡ c.txn.txn_id
  pub grown : c.txn.allocated_pg ≤ c'.txn.allocated_pg
  pub others : (x : ℕ) → x < c.txn.allocated_pg → Apart x stack → c'.txn.dirty x ≡ c.txn.dirty x
  pub apart : (x : ℕ) → x < c.txn.allocated_pg → Apart x stack → Apart x c'.stack
  pub same_indices : indices c'.stack ≡ indices stack

pub HasPage-same :
    (t t' : WriteTxn) (n : ℕ) (p : Bytes)
    → page_of t' n ≡ page_of t n
    → t'.page_bytes ≡ t.page_bytes
    → HasPage t n p
    → HasPage t' n p
HasPage-same t t' n p e size h = record {
  seen = e ∙ h.seen;
  whole = h.whole ∙ sym size;
  numbered = h.numbered;
}

pub Leads-same :
    (t t' : WriteTxn) (root : ℕ) (stack : List PathLevel) (o : Option ℕ)
    → ((x : ℕ) → page_of t' x ≡ page_of t x)
    → t'.page_bytes ≡ t.page_bytes
    → Leads t root stack o
    → Leads t' root stack o
Leads-same t t' root [] o e size h = h
Leads-same t t' root (l ∷ rest) o e size (p, page, points, leads) = (
  p,
  HasPage-same t t' l.page_no p (e l.page_no) size page,
  points,
  Leads-same t t' root rest (some l.page_no) e size leads,
)
