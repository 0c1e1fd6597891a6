-- ===== src/Update/State/Copies.antt =====
-- The pages of a path, and the dirty pages that take their places.
use gdbx.Base.{
  ℕ, ◌≤◌, ◌<◌, ◌≡◌, ◌≢◌, refl, sym, ap, ◌∙◌, ◌⊎◌, inl, inr, Bool, true, false, List, [], ◌∷◌,
  Option, none, some, ok,
}
use gdbx.Bytes.{Bytes}
use gdbx.Update.State.{WriteTxn, PathLevel, page_of}
use gdbx.Update.State.Touch.{IsStamped, InBody, BesidePointer}
use gdbx.Update.State.Path.{PointsTo, Leads, Apart, AreBelow}

-- Each page of the path is in the tracker.
abbrev pub AreDirty : WriteTxn → List PathLevel → Type 0
AreDirty t [] = Unit
AreDirty t (l ∷ rest) = ((p : Bytes) × (t.dirty l.page_no ≡ some p)) × AreDirty t rest

-- A level that is flagged as dirty has its page, and those below it, in the tracker.
abbrev pub AreTracked : WriteTxn → List PathLevel → Type 0
AreTracked t [] = Unit
AreTracked t (l ∷ rest) = ((l.is_dirty ≡ false) ⊎ AreDirty t (l ∷ rest)) × AreTracked t rest

-- The bytes that a copy has from its page: all but the transaction id and the page number in the
-- header, and the entry's pointer to the next page of the path, where it has one.
abbrev pub IsKept : Option ℕ → Bytes → ℕ → ℕ → Type 0
IsKept none p idx x = InBody x
IsKept (some n) p idx x = InBody x × BesidePointer p idx x

-- The level `l` of the path has the page `p` in `t`. In `t'` its place is taken by the dirty page `q`
-- of `l'`: the page itself, if it was dirty, or one under a new number, with the transaction id.
pub record IsCopy (t t' : WriteTxn) (m : Option ℕ) (l l' : PathLevel) : Type 0 where
  pub p : Bytes
  pub q : Bytes
  pub original : page_of t l.page_no ≡ ok p
  pub pointing : PointsTo p l.idx m
  pub in_tracker : t'.dirty l'.page_no ≡ some q
  pub own :
      ((l'.page_no ≡ l.page_no) × (t.dirty l.page_no ≡ some p))
      ⊎ ((t.allocated_pg ≤ l'.page_no) × IsStamped p q t.txn_id)
  pub same_index : l'.idx ≡ l.idx
  pub same_size : q.size ≡ p.size
  pub same_bytes : (x : ℕ) → IsKept m p l.idx x → x < p.size → q.at x ≡ p.at x

abbrev pub AreCopies : WriteTxn → WriteTxn → Option ℕ → List PathLevel → List PathLevel → Type 0
AreCopies t t' m [] [] = Unit
AreCopies t t' m [] (l' ∷ rest') = ⊥
AreCopies t t' m (l ∷ rest) [] = ⊥
AreCopies t t' m (l ∷ rest) (l' ∷ rest') =
    IsCopy t t' m l l' × AreCopies t t' (some l.page_no) rest rest'

pub dirty_page :
    (t : WriteTxn) (n : ℕ) (p q : Bytes) → t.dirty n ≡ some q → page_of t n ≡ ok p → q ≡ p
unfolding page_of
dirty_page t n p q d h = let e : ok q ≡ ok p = rw d at h in cc

pub IsKept-InBody : (m : Option ℕ) (p : Bytes) (idx x : ℕ) → IsKept m p idx x → InBody x
IsKept-InBody none p idx x h = h
IsKept-InBody (some n) p idx x h = h.0

pub flagged-AreDirty :
    (t : WriteTxn) (l : PathLevel) (rest : List PathLevel)
    → l.is_dirty ≡ true
    → AreTracked t (l ∷ rest)
    → AreDirty t (l ∷ rest)
flagged-AreDirty t l rest e (inl clean, h) = absurd (cc)
flagged-AreDirty t l rest e (inr dirty, h) = dirty

pub IsCopy-refl :
    (t : WriteTxn) (m : Option ℕ) (l : PathLevel) (flag : Bool) (p q : Bytes)
    → page_of t l.page_no ≡ ok p
    → PointsTo p l.idx m
    → t.dirty l.page_no ≡ some q
    → IsCopy t t m l (record l { is_dirty = flag })
IsCopy-refl t m l flag p q seen points d =
    let e : t.dirty l.page_no ≡ some p = d ∙ ap some (dirty_page t l.page_no p q d seen) in
    record {
      p = p;
      q = p;
      original = seen;
      pointing = points;
      in_tracker = e;
      own = inl (refl, e);
      same_index = refl;
      same_size = refl;
      same_bytes = λ x k lt. refl;
    }

-- A dirty path is its own copy.
pub AreDirty-AreCopies :
    (t : WriteTxn) (root : ℕ) (m : Option ℕ) (stack : List PathLevel)
    → Leads t root stack m
    → AreDirty t stack
    → AreCopies t t m stack stack
AreDirty-AreCopies t root m [] leads h = tt
AreDirty-AreCopies t root m (l ∷ rest) (p, page, points, leads) ((q, d), h) = (
  IsCopy-refl t m l l.is_dirty p q page.seen points d,
  AreDirty-AreCopies t root (some l.page_no) rest leads h,
)

pub IsCopy-same :
    (t t1 t2 : WriteTxn) (m : Option ℕ) (l l' : PathLevel)
    → t2.dirty l'.page_no ≡ t1.dirty l'.page_no
    → IsCopy t t1 m l l'
    → IsCopy t t2 m l l'
IsCopy-same t t1 t2 m l l' e h = record {
  p = h.p;
  q = h.q;
  original = h.original;
  pointing = h.pointing;
  in_tracker = e ∙ h.in_tracker;
  own = h.own;
  same_index = h.same_index;
  same_size = h.same_size;
  same_bytes = h.same_bytes;
}

-- A change of the tracker under other numbers leaves the copies.
pub AreCopies-AreBelow :
    (t t1 t2 : WriteTxn) (b : ℕ) (m : Option ℕ) (stack stack' : List PathLevel)
    → ((x : ℕ) → x < b → t2.dirty x ≡ t1.dirty x)
    → AreBelow b stack'
    → AreCopies t t1 m stack stack'
    → AreCopies t t2 m stack stack'
AreCopies-AreBelow t t1 t2 b m [] [] e below h = tt
AreCopies-AreBelow t t1 t2 b m [] (l' ∷ rest') e below h = h
AreCopies-AreBelow t t1 t2 b m (l ∷ rest) [] e below h = h
AreCopies-AreBelow t t1 t2 b m (l ∷ rest) (l' ∷ rest') e below h = (
  IsCopy-same t t1 t2 m l l' (e l'.page_no below.0) h.0,
  AreCopies-AreBelow t t1 t2 b (some l.page_no) rest rest' e below.1 h.1,
)

pub AreCopies-Apart :
    (t t1 t2 : WriteTxn) (y : ℕ) (m : Option ℕ) (stack stack' : List PathLevel)
    → ((x : ℕ) → y ≢ x → t2.dirty x ≡ t1.dirty x)
    → Apart y stack'
    → AreCopies t t1 m stack stack'
    → AreCopies t t2 m stack stack'
AreCopies-Apart t t1 t2 y m [] [] e apart h = tt
AreCopies-Apart t t1 t2 y m [] (l' ∷ rest') e apart h = h
AreCopies-Apart t t1 t2 y m (l ∷ rest) [] e apart h = h
AreCopies-Apart t t1 t2 y m (l ∷ rest) (l' ∷ rest') e apart h = (
  IsCopy-same t t1 t2 m l l' (e l'.page_no (λ d. apart.0 (sym d))) h.0,
  AreCopies-Apart t t1 t2 y (some l.page_no) rest rest' e apart.1 h.1,
)
