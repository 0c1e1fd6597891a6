-- ===== src/Update/State/Stepping.antt =====
-- The copies of a path when one more level is touched.
use gdbx.Base.{
  ℕ, ◌+◌, ◌*◌, ◌≤◌, ◌<◌, ◌≡◌, sym, ap, ◌∙◌, ◌⊎◌, inl, inr, List, [], ◌∷◌, Option, some, arith,
}
use gdbx.Bytes.{Bytes, word16}
use gdbx.Update.State.{WriteTxn, WriteCursor, PathLevel, page_of}
use gdbx.Update.State.Touch.{Points, IsStamped, word16_congr}
use gdbx.Update.State.Path.{AreDistinct, AreBelow}
use gdbx.Update.State.Linking.{Repoints, Relinked}
use gdbx.Update.State.Copies.{
  AreCopies, IsCopy, IsKept, dirty_page, IsCopy-same, AreCopies-AreBelow, AreCopies-Apart,
}

-- The entry itself is among the bytes that are kept.
entry_kept :
    (p q : Bytes) (idx n : ℕ)
    → Points p idx n
    → ((x : ℕ) → IsKept (some n) p idx x → x < p.size → q.at x ≡ p.at x)
    → word16 q.at (20 + idx * 2) ≡ word16 p.at (20 + idx * 2)
entry_kept p q idx n h same =
    word16_congr q.at p.at (20 + idx * 2)
      (same (20 + idx * 2) (inr (omega arith), inl (omega (arith, h.counted, h.low)))
        (omega (arith, h.counted, h.low, h.fits)))
      (same (20 + idx * 2 + 1) (inr (omega arith), inl (omega (arith, h.counted, h.low)))
        (omega (arith, h.counted, h.low, h.fits)))

-- The pointer of a copy is written once more.
IsCopy-repointed :
    (t t1 t2 : WriteTxn) (n : ℕ) (l l' : PathLevel)
    → Repoints t1 t2 l'
    → IsCopy t t1 (some n) l l'
    → IsCopy t t2 (some n) l l'
IsCopy-repointed t t1 t2 n l l' (p, q, seen, dirty, size, bytes) h =
    let e : h.q ≡ p = dirty_page t1 l'.page_no p h.q h.in_tracker seen in
    let still : (x : ℕ) → IsKept (some n) h.p l.idx x → x < h.p.size → p.at x ≡ h.p.at x =
      λ x k lt. ap (λ d. d.at x) (sym e) ∙ h.same_bytes x k lt in
    let entry : word16 p.at (20 + l'.idx * 2) ≡ word16 h.p.at (20 + l.idx * 2) =
      ap (λ i. word16 p.at (20 + i * 2)) h.same_index ∙ entry_kept h.p p l.idx n h.pointing still in
    record {
      p = h.p;
      q = q;
      original = h.original;
      pointing = h.pointing;
      in_tracker = dirty;
      own = own_after h.own;
      same_index = h.same_index;
      same_size = size ∙ ap (λ d. d.size) (sym e) ∙ h.same_size;
      same_bytes = λ x k lt. bytes x (rw entry k.1) ∙ still x k lt;
    }
  where
    own_after :
        ((l'.page_no ≡ l.page_no) × (t.dirty l.page_no ≡ some h.p))
          ⊎ ((t.allocated_pg ≤ l'.page_no) × IsStamped h.p h.q t.txn_id)
        → ((l'.page_no ≡ l.page_no) × (t.dirty l.page_no ≡ some h.p))
          ⊎ ((t.allocated_pg ≤ l'.page_no) × IsStamped h.p q t.txn_id)
    own_after (inl same) = inl same
    own_after (inr (new, stamped)) = inr (
      new,
      λ x lt.
          bytes x (inl (omega arith))
          ∙ ap (λ d. d.at x) (sym (dirty_page t1 l'.page_no p h.q h.in_tracker seen))
          ∙ stamped x lt,
    )

-- The new pointer in the page on top leaves the copies.
pub AreCopies-Relinked :
    (t t1 t2 : WriteTxn) (n : ℕ) (stack stack' : List PathLevel)
    → AreDistinct stack'
    → Relinked t1 t2 stack'
    → AreCopies t t1 (some n) stack stack'
    → AreCopies t t2 (some n) stack stack'
AreCopies-Relinked t t1 t2 n [] [] apart r h = tt
AreCopies-Relinked t t1 t2 n [] (l' ∷ rest') apart r h = h
AreCopies-Relinked t t1 t2 n (l ∷ rest) [] apart r h = h
AreCopies-Relinked t t1 t2 n (l ∷ rest) (l' ∷ rest') apart (inl e) h = (
  IsCopy-same t t1 t2 (some n) l l' (e l'.page_no) h.0,
  AreCopies-Apart t t1 t2 l'.page_no (some l.page_no) rest rest' (λ x ne. e x) apart.0 h.1,
)
AreCopies-Relinked t t1 t2 n (l ∷ rest) (l' ∷ rest') apart (inr (top, e)) h = (
  IsCopy-repointed t t1 t2 n l l' top h.0,
  AreCopies-Apart t t1 t2 l'.page_no (some l.page_no) rest rest' e apart.0 h.1,
)

-- The level `l` is touched above the path: its page has a copy on top, and below at most a pointer is
-- written.
abbrev pub Stepped : WriteCursor → PathLevel → Option ℕ → WriteCursor → Type 0
Stepped c l m c' =
    (l' : PathLevel) × (t1 : WriteTxn) × (c'.stack ≡ l' ∷ c.stack)
    × IsCopy c.txn c'.txn m l l'
    × ((x : ℕ) → x < c.txn.allocated_pg → t1.dirty x ≡ c.txn.dirty x)
    × Relinked t1 c'.txn c.stack

pub AreCopies-Stepped :
    (c c1 c2 : WriteCursor) (l : PathLevel) (rest : List PathLevel) (m : Option ℕ)
    → page_of c1.txn l.page_no ≡ page_of c.txn l.page_no
    → c1.txn.dirty l.page_no ≡ c.txn.dirty l.page_no
    → c.txn.allocated_pg ≤ c1.txn.allocated_pg
    → c1.txn.txn_id ≡ c.txn.txn_id
    → AreBelow c1.txn.allocated_pg c1.stack
    → AreDistinct c1.stack
    → AreCopies c.txn c1.txn (some l.page_no) rest c1.stack
    → Stepped c1 l m c2
    → AreCopies c.txn c2.txn m (l ∷ rest) c2.stack
AreCopies-Stepped c c1 c2 l rest m seen dirty le ids below apart copies (l', t1, top, h, e, r) =
    rw top (
      record {
        p = h.p;
        q = h.q;
        original = sym seen ∙ h.original;
        pointing = h.pointing;
        in_tracker = h.in_tracker;
        own = own_before (h.own);
        same_index = h.same_index;
        same_size = h.same_size;
        same_bytes = h.same_bytes;
      },
      AreCopies-Relinked c.txn t1 c2.txn l.page_no rest c1.stack apart r (
          AreCopies-AreBelow c.txn c1.txn t1 c1.txn.allocated_pg (some l.page_no) rest c1.stack e
            below copies),
    )
  where
    own_before :
        ((l'.page_no ≡ l.page_no) × (c1.txn.dirty l.page_no ≡ some h.p))
          ⊎ ((c1.txn.allocated_pg ≤ l'.page_no) × IsStamped h.p h.q c1.txn.txn_id)
        → ((l'.page_no ≡ l.page_no) × (c.txn.dirty l.page_no ≡ some h.p))
          ⊎ ((c.txn.allocated_pg ≤ l'.page_no) × IsStamped h.p h.q c.txn.txn_id)
    own_before (inl (same, d)) = inl (same, sym dirty ∙ d)
    own_before (inr (new, stamped)) = inr (omega arith, rw (← ids) stamped)
