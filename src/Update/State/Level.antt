-- ===== src/Update/State/Level.antt =====
-- One round of the loop of `touchPageAt`: a level's page is copied, or is in the tracker.
use gdbx.Base.{
  ℕ, suc, ◌+◌, ◌%◌, ◌^◌, ◌≤◌, ◌<◌, ◌≡◌, ◌≢◌, refl, sym, ap, ◌∙◌, inr, true, false, ◌∷◌, Option,
  none, some, Run, ok, arith, ◌==◌, if◌then◌else◌, ge→ltb,
}
use gdbx.Bytes.{Bytes, word32}
use gdbx.Update.State.{
  System, WriteTxn, WriteCursor, PathLevel, put_dirty, page_of, copy_unless, touch_level,
}
use gdbx.Update.State.Touch.{Supplies, new_slot_lem, copy_lem}
use gdbx.Update.State.Path.{
  HasPage, PointsTo, Leads, PointsTo-map, Apart, AreBelow-Apart, AreBelow-mono, put_dirty-HasPage,
  Leads-put_dirty, Fits, Keeps, Leads-same,
}
use gdbx.Update.State.Linking.{Relinked-refl, Relinked-others, link_page_lem}
use gdbx.Update.State.Copies.{IsKept-InBody, IsCopy-refl}
use gdbx.Update.State.Stepping.{Stepped}
use gdbx.Page.Header.{page_no}

page_no_lem : (p : Bytes) → 20 ≤ p.size → page_no p ≡ ok (word32 p.at 16)
unfolding page_no
page_no_lem p h = rw (ge→ltb p.size 20 h)

pub fewer : (sys : System) (t : WriteTxn) (k k' : ℕ) → k' ≤ k → Supplies sys t k → Supplies sys t k'
fewer sys t k k' le s = record {
  buffer = s.buffer;
  paged = s.paged;
  few = omega (arith, s.few);
  creates = s.creates;
  some_bytes = s.some_bytes;
}

-- The level is touched: the path, with it on top, leads to `m`.
abbrev pub TouchesLevel : System → WriteCursor → PathLevel → Option ℕ → ℕ → Run WriteCursor → Type 0
TouchesLevel sys c l m k r =
    (c' : WriteCursor) × (r ≡ ok c')
    × Fits sys c' c'.stack m k
    × Keeps c (l ∷ c.stack) c'
    × Stepped c l m c'

module _ (sys : System) where
  module _ (c : WriteCursor) (l : PathLevel) (m : Option ℕ) (k : ℕ) (p : Bytes)
      (f : Fits sys c c.stack (some l.page_no) (suc k)) (page : HasPage c.txn l.page_no p)
      (points : PointsTo p l.idx m) (known : l.page_no < c.txn.allocated_pg)
      (apart : Apart l.page_no c.stack) where
    abbrev new : ℕ
    new = c.txn.allocated_pg

    abbrev numbered : WriteTxn
    numbered = record (c.txn) { allocated_pg = (new + 1) % 2 ^ 32 }

    next : (new + 1) % 2 ^ 32 ≡ new + 1
    next = omega (arith, f.numbers)

    copied : TouchesLevel sys c l m k (copy_unless sys none c l l.page_no p)
    unfolding copy_unless page_of next
    copied =
        let sup : Supplies sys numbered (suc k) = record {
          buffer = f.supplies.buffer;
          paged = f.supplies.paged;
          few = f.supplies.few;
          creates = f.supplies.creates;
          some_bytes = f.supplies.some_bytes;
        } in
        let (d, b, slots, got, dsize, sup') = new_slot_lem sys numbered new k sup in
        let t2 : WriteTxn = record numbered { spill = b; spill_slots = slots } in
        let (d1, d2, d3, r1, r2, r3, size, number, pts, bytes, stamped) =
          copy_lem p d new c.txn.txn_id (dsize ∙ sym page.whole)
            (omega (arith, page.whole, f.supplies.some_bytes)) (omega (arith, f.numbers)) in
        let c1 : WriteCursor = record c { txn = put_dirty t2 new d3 } in
        let leads : Leads t2 c.tree.root c.stack (some l.page_no) =
          Leads-same c.txn t2 c.tree.root c.stack (some l.page_no) (λ x. refl) refl f.leads in
        let fresh : Apart new c.stack = AreBelow-Apart new c.stack f.below in
        let (c', run, fits, frame, mm, pb, al, ix, id, top, linked) =
          link_page_lem sys c1 l new d3 m k (put_dirty-HasPage t2 new d3 (size ∙ page.whole) number)
            (PointsTo-map p d3 l.idx m pts points) (omega (arith, f.numbers))
            (record {
              buffer = sup'.buffer;
              paged = sup'.paged;
              few = sup'.few;
              creates = sup'.creates;
              some_bytes = sup'.some_bytes;
            })
            (omega (arith, f.numbers)) f.addressable c.stack l.page_no
            (Leads-put_dirty t2 new d3 c.tree.root c.stack (some l.page_no) fresh leads) fresh
            f.distinct
            (AreBelow-mono new ((new + 1) % 2 ^ 32) c.stack (omega (arith, f.numbers)) f.below) in
        (
          c',
          rw (got, r1, r2, r3) run,
          fits,
          record {
            mapped = mm;
            same_bytes = pb;
            same_id = id;
            grown = omega (arith, al, f.numbers);
            others = λ x lt h.
                (frame x (λ e. absurd (omega arith)) h.1).0
                ∙ unwritten x new d3 c.txn.dirty (λ e. absurd (omega arith));
            apart = λ x lt h. (frame x (λ e. absurd (omega arith)) h.1).1;
            same_indices = ix;
          },
          (
            record { page_no = new; idx = l.idx; is_dirty = true },
            c1.txn,
            top,
            record {
              p = p;
              q = d3;
              original = page.seen;
              pointing = points;
              in_tracker =
                  Relinked-others c1.txn c'.txn c.stack new fresh linked
                  ∙ written new d3 c.txn.dirty;
              own = inr (omega arith, stamped);
              same_index = refl;
              same_size = size;
              same_bytes = λ x h lt. bytes x (IsKept-InBody m p l.idx x h) lt;
            },
            λ x lt. unwritten x new d3 c.txn.dirty (λ e. absurd (omega arith)),
            linked,
          ),
        )
      where
        written :
            (y : ℕ) (q : Bytes) (g : ℕ → Option Bytes) → (if y == y then some q else g y) ≡ some q
        written y q g = let self : (y == y) ≡ true = ground arith in rw self refl

        unwritten :
            (x y : ℕ) (q : Bytes) (g : ℕ → Option Bytes)
            → x ≢ y
            → (if x == y then some q else g x) ≡ g x
        unwritten x y q g ne = let other : (x == y) ≡ false = ground arith in rw other

    copy_unless_lem :
        (o : Option Bytes)
        → c.txn.dirty l.page_no ≡ o
        → TouchesLevel sys c l m k (copy_unless sys o c l l.page_no p)
    unfolding copy_unless
    copy_unless_lem none d = copied
    copy_unless_lem (some q) d = (
      record c { stack = record { page_no = l.page_no; idx = l.idx; is_dirty = true } ∷ c.stack },
      refl,
      record {
        leads = (p, page, points, f.leads);
        below = (known, f.below);
        distinct = (apart, f.distinct);
        supplies = fewer sys c.txn (suc k) k (omega arith) f.supplies;
        numbers = omega (arith, f.numbers);
        addressable = f.addressable;
      },
      record {
        mapped = refl;
        same_bytes = refl;
        same_id = refl;
        grown = omega arith;
        others = λ x lt h. refl;
        apart = λ x lt h. h;
        same_indices = refl;
      },
      (
        record { page_no = l.page_no; idx = l.idx; is_dirty = true },
        c.txn,
        refl,
        IsCopy-refl c.txn m l true p q page.seen points d,
        λ x lt. refl,
        Relinked-refl c.txn c.stack,
      ),
    )

    pub touch_level_lem : TouchesLevel sys c l m k (touch_level sys c l)
    unfolding touch_level
    touch_level_lem =
        let own : page_no p ≡ ok l.page_no =
          page_no_lem p (omega (arith, page.whole, f.supplies.some_bytes)) ∙ ap ok page.numbered in
        rw (page.seen, own) (copy_unless_lem (c.txn.dirty l.page_no) refl)
