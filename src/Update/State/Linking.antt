-- ===== src/Update/State/Linking.antt =====
-- The pointer to a touched page, in the page above it.
use gdbx.Base.{
  ℕ, ◌+◌, ◌^◌, ◌≤◌, ◌<◌, ◌≡◌, ◌≢◌, refl, sym, ◌∙◌, ◌⊎◌, inl, inr, true, false, List, [], ◌∷◌,
  Option, some, ok, arith, ◌==◌, if◌then◌else◌,
}
use gdbx.Bytes.{Bytes}
use gdbx.Update.State.{System, WriteTxn, WriteCursor, PathLevel, put_dirty, page_of, link_page}
use gdbx.Update.State.Touch.{Supplies, BesidePointer, update_child_pointer_lem}
use gdbx.Update.State.Path.{
  HasPage, PointsTo, Leads, Apart, AreDistinct, AreBelow, HasPage-put_dirty, put_dirty-HasPage,
  Leads-put_dirty, Fits, indices,
}

-- The level's page is changed in the pointer of its entry only.
abbrev pub Repoints : WriteTxn → WriteTxn → PathLevel → Type 0
Repoints t t' l =
    (p q : Bytes) × (page_of t l.page_no ≡ ok p)
    × (t'.dirty l.page_no ≡ some q)
    × (q.size ≡ p.size)
    × ((x : ℕ) → BesidePointer p l.idx x → q.at x ≡ p.at x)

-- Of the tracker, at most the page on top of the stack is changed, in its pointer.
abbrev pub Relinked : WriteTxn → WriteTxn → List PathLevel → Type 0
Relinked t t' [] = (x : ℕ) → t'.dirty x ≡ t.dirty x
Relinked t t' (l ∷ rest) =
    ((x : ℕ) → t'.dirty x ≡ t.dirty x)
    ⊎ (Repoints t t' l × ((x : ℕ) → l.page_no ≢ x → t'.dirty x ≡ t.dirty x))

pub Relinked-refl : (t : WriteTxn) (stack : List PathLevel) → Relinked t t stack
Relinked-refl t [] = λ x. refl
Relinked-refl t (l ∷ rest) = inl (λ x. refl)

pub Relinked-others :
    (t t' : WriteTxn) (stack : List PathLevel) (x : ℕ)
    → Apart x stack
    → Relinked t t' stack
    → t'.dirty x ≡ t.dirty x
Relinked-others t t' [] x apart r = r x
Relinked-others t t' (l ∷ rest) x apart (inl e) = e x
Relinked-others t t' (l ∷ rest) x apart (inr (top, e)) = e x apart.0

-- The new page, on top of the stack, pointed at from below.
module _ (sys : System) (c : WriteCursor) (l : PathLevel) (new : ℕ) (d : Bytes) (m : Option ℕ)
    (k : ℕ) (there : HasPage c.txn new d) (points : PointsTo d l.idx m)
    (known : new < c.txn.allocated_pg) (supplies : Supplies sys c.txn k)
    (numbers : c.txn.allocated_pg + k < 2 ^ 32) (addressable : c.txn.page_bytes ≤ 65536) where
  abbrev pub Linked : List PathLevel → Type 0
  Linked stack =
      (c' : WriteCursor) × (link_page sys c l new stack ≡ ok c')
      × Fits sys c' c'.stack m k
      × ((x : ℕ) → x ≢ new → Apart x stack → (c'.txn.dirty x ≡ c.txn.dirty x) × Apart x c'.stack)
      × (c'.txn.mmap_data ≡ c.txn.mmap_data)
      × (c'.txn.page_bytes ≡ c.txn.page_bytes)
      × (c'.txn.allocated_pg ≡ c.txn.allocated_pg)
      × (indices c'.stack ≡ l.idx ∷ indices stack)
      × (c'.txn.txn_id ≡ c.txn.txn_id)
      × (c'.stack ≡ record { page_no = new; idx = l.idx; is_dirty = true } ∷ stack)
      × Relinked c.txn c'.txn stack

  pub link_page_lem :
      (stack : List PathLevel) (old : ℕ)
      → Leads c.txn c.tree.root stack (some old)
      → Apart new stack
      → AreDistinct stack
      → AreBelow c.txn.allocated_pg stack
      → Linked stack
  unfolding link_page
  link_page_lem [] old leads apart distinct below = (
    _,
    refl,
    record {
      leads = (d, there, points, refl);
      below = (known, tt);
      distinct = (tt, tt);
      supplies = supplies;
      numbers = numbers;
      addressable = addressable;
    },
    λ x ne h. (refl, (λ e. ne (sym e), tt)),
    refl,
    refl,
    refl,
    refl,
    refl,
    refl,
    λ x. refl,
  )
  link_page_lem (par ∷ rest) old (p, page, points_old, leads) apart distinct below =
      let (q, run, size, points_new, number, beside) =
        update_child_pointer_lem p par.idx old new (omega (arith, page.whole)) (omega arith)
          points_old in
      let t' : WriteTxn = put_dirty c.txn par.page_no q in
      (
        record c {
          txn = t';
          stack = record { page_no = new; idx = l.idx; is_dirty = true } ∷ par ∷ rest;
        },
        rw (page.seen, run),
        record {
          leads = (
            d,
            HasPage-put_dirty c.txn par.page_no q new d (λ e. apart.0 (sym e)) there,
            points,
            (
              q,
              put_dirty-HasPage c.txn par.page_no q (size ∙ page.whole) (number ∙ page.numbered),
              points_new,
              Leads-put_dirty c.txn par.page_no q c.tree.root rest (some par.page_no) distinct.0
                  leads,
            ),
          );
          below = (known, below);
          distinct = (apart, distinct);
          supplies = record {
            buffer = supplies.buffer;
            paged = supplies.paged;
            few = supplies.few;
            creates = supplies.creates;
            some_bytes = supplies.some_bytes;
          };
          numbers = numbers;
          addressable = addressable;
        },
        λ x ne h. (written_other x par.page_no q c.txn.dirty h.0, (λ e. ne (sym e), h)),
        refl,
        refl,
        refl,
        refl,
        refl,
        refl,
        inr (
          (p, q, page.seen, written_self par.page_no q c.txn.dirty, size, beside),
          λ x ne. written_other x par.page_no q c.txn.dirty ne,
        ),
      )
    where
      written_self :
          (x : ℕ) (q : Bytes) (f : ℕ → Option Bytes) → (if x == x then some q else f x) ≡ some q
      written_self x q f = let self : (x == x) ≡ true = ground arith in rw self refl

      written_other :
          (x y : ℕ) (q : Bytes) (f : ℕ → Option Bytes)
          → y ≢ x
          → (if x == y then some q else f x) ≡ f x
      written_other x y q f ne = let apart : (x == y) ≡ false = ground arith in rw apart
