-- ===== src/Cursor/Next.antt =====
-- `moveNext` against the entries ahead of the cursor.
use native.Mathlib.Decide.{dec_lt}
use gdbx.Base.{
  ℕ, zero, suc, ◌+◌, ◌≤◌, ◌<◌, ◌≡◌, refl, ap, sym, ◌∙◌, Bool, true, false, List, [], ◌∷◌, length,
  arith, Run, ok, panic, ◌>>=◌, Option, none, some, inl, inr, ◌⊎◌, lt→ltb, ge→ltb, ltb,
}
use gdbx.Page.Header.{is_branch_fast}
use gdbx.Page.Entries.{num_entries_fast}
use gdbx.Page.Shape.{count}
use gdbx.Txn.Mapping.{ReadTxn}
use gdbx.Cursor.State.{pointing, Level, Cursor, Entry, no_entry, entry_at, cursor_stack_size}
use gdbx.Cursor.Move.{next_loop, move_next, with_current, descend_left}
use gdbx.Cursor.Entries.{
  Position, ahead, ahead-cons, items-past, IsOnStack, IsPointing, IsGrown-fits,
  num_entries_fast-count, is_branch_fast-page,
}
use gdbx.Cursor.Descend.{
  left_top, left_rest, length-left_rest, left-IsOnStack, left-ahead, from_top, at_top,
  descend_left-left,
}

-- Two results made of one read.
pub some_after {ℓ κ} :
    {A : Type ℓ} {B : Type κ} (r : Run A) (f : A → B)
    → ((r >>= λ a. ok (f a)) >>= λ b. ok (some b)) ≡ (r >>= λ a. ok (some (f a)))
some_after panic f = refl
some_after (ok a) f = refl

-- One round of the loop.
next_round :
    (c : Cursor) (l : Level) (rest : List Level) (n : ℕ)
    → num_entries_fast l.page ≡ ok n
    → next_loop c (l ∷ rest) ≡ (elim (ltb (l.idx + 1) n) [
      | true ↦ is_branch_fast l.page >>= λ branch.
          let c' = record c { stack = record l { idx = l.idx + 1 } ∷ rest } in
          elim branch [
            | true ↦ descend_left c' >>= λ r. ok (some r)
            | false ↦ with_current c' >>= λ r. ok (some r)
          ]
      | false ↦ next_loop c rest
    ])
unfolding next_loop
next_round c l rest n e = rw e

-- Its two outcomes.
next_right :
    (c : Cursor) (l : Level) (rest : List Level) (branch : Bool)
    → num_entries_fast l.page ≡ ok (count l.page)
    → is_branch_fast l.page ≡ ok branch
    → l.idx + 1 < count l.page
    → next_loop c (l ∷ rest) ≡ (elim branch [
      | true ↦ descend_left (record c { stack = record l { idx = l.idx + 1 } ∷ rest }) >>= λ r.
          ok (some r)
      | false ↦ with_current (record c { stack = record l { idx = l.idx + 1 } ∷ rest }) >>= λ r.
          ok (some r)
    ])
next_right c l rest branch e b more =
    next_round c l rest (count l.page) e ∙ rw (lt→ltb (l.idx + 1) (count l.page) more, b)

next_up :
    (c : Cursor) (l : Level) (rest : List Level)
    → num_entries_fast l.page ≡ ok (count l.page)
    → count l.page ≤ l.idx + 1
    → next_loop c (l ∷ rest) ≡ next_loop c rest
next_up c l rest e past =
    next_round c l rest (count l.page) e ∙ rw (ge→ltb (l.idx + 1) (count l.page) past)

-- The cursor with the stack, pointing.
abbrev pub with_stack : Cursor → List Level → Cursor
with_stack c levels = record c { state = pointing; stack = levels }

-- `r` returns the entry at a leaf's node, with the cursor there; that node is the first of `ps`, the
-- others are ahead of it.
abbrev pub Arrives : ReadTxn → Cursor → List Position → Run (Option (Cursor × Entry)) → Type 0
Arrives t c ps r =
    (l : Level) × (rest : List Level) × (ps ≡ (l.page, l.idx) ∷ ahead t 0 (l ∷ rest))
    × IsOnStack t 0 (l ∷ rest)
    × (length (l ∷ rest) ≡ c.tree.height)
    × (r ≡ (entry_at t l.page l.idx >>= λ e. ok (some (with_stack c (l ∷ rest), e))))

module _ (t : ReadTxn) (c : Cursor) (of_txn : c.txn ≡ t) (same_map : c.mmap_data ≡ t.mmap_data)
    (low : c.tree.height ≤ cursor_stack_size) where
  pub current-Arrives :
      (l : Level) (rest : List Level)
      → IsOnStack t 0 (l ∷ rest)
      → length (l ∷ rest) ≡ c.tree.height
      → Arrives t c
          ((l.page, l.idx) ∷ ahead t 0 (l ∷ rest))
          (with_current (with_stack c (l ∷ rest)) >>= λ x. ok (some x))
  current-Arrives l rest s deep = (
    l,
    rest,
    refl,
    s,
    deep,
    ap (λ r. r >>= λ x. ok (some x)) (at_top t c of_txn same_map l rest)
        ∙ some_after (entry_at t l.page l.idx) (λ e. (with_stack c (l ∷ rest), e)),
  )

  -- Down to the left from the node that a level points at.
  down-Arrives :
      (k : ℕ) (l : Level) (rest : List Level)
      → IsOnStack t k (l ∷ rest)
      → k + length (l ∷ rest) ≡ c.tree.height
      → Arrives t c
          (from_top t k l rest)
          (descend_left (with_stack c (l ∷ rest)) >>= λ x. ok (some x))
  down-Arrives k l rest s deep =
      rw (left-ahead t k l rest s, descend_left-left t c of_txn same_map k l rest s deep low)
        (current-Arrives (left_top t k l) (left_rest t k l rest) (left-IsOnStack t k l rest s)
          (ap suc (length-left_rest t k l rest) ∙ omega (arith, deep)))

  -- The next node of a page at height `k`.
  step_right :
      (k : ℕ) (l : Level) (rest whole : List Level)
      → IsOnStack t k (l ∷ rest)
      → k + length (l ∷ rest) ≡ c.tree.height
      → l.idx + 1 < count l.page
      → Arrives t c (ahead t k (l ∷ rest)) (next_loop (with_stack c whole) (l ∷ rest))
  unfolding left_top left_rest
  step_right zero l rest whole (grown, lt, s) deep more =
      rw
        (
          next_right (with_stack c whole) l rest false (num_entries_fast-count l.page grown.0)
              (is_branch_fast-page l.page grown.0 ∙ ap ok grown.1) more,
          ahead-cons t 0 l rest,
          left-ahead t 0 (record l { idx = l.idx + 1 }) rest (grown, more, s),
        )
        (current-Arrives (record l { idx = l.idx + 1 }) rest (grown, more, s) (omega (arith, deep)))
  step_right (suc k) l rest whole (grown, lt, s) deep more =
      rw
        (
          next_right (with_stack c whole) l rest true (num_entries_fast-count l.page grown.0)
              (is_branch_fast-page l.page grown.0 ∙ ap ok grown.1) more,
          ahead-cons t (suc k) l rest,
        )
        (down-Arrives (suc k) (record l { idx = l.idx + 1 }) rest (grown, more, s) deep)

  pub next_loop-ahead :
      (k : ℕ) (levels whole : List Level)
      → IsOnStack t k levels
      → k + length levels ≡ c.tree.height
      → ((ahead t k levels ≡ []) × (next_loop (with_stack c whole) levels ≡ ok none))
        ⊎ Arrives t c (ahead t k levels) (next_loop (with_stack c whole) levels)
  unfolding ahead next_loop
  next_loop-ahead k [] whole s deep = inl (refl, refl)
  next_loop-ahead k (l ∷ rest) whole s deep = elim (dec_lt (l.idx + 1) (count l.page)) [
    | yes more ↦ inr (step_right k l rest whole s deep more)
    | no past ↦
        rw
          (
            next_up (with_stack c whole) l rest
                (num_entries_fast-count l.page (IsGrown-fits t k l.page s.0)) (omega arith),
            ahead-cons t k l rest,
            items-past t k l.page (l.idx + 1) (omega arith),
          )
          (next_loop-ahead (suc k) rest whole s.2 (omega (arith, deep)))
  ]

-- What `moveNext` makes of the result of the loop.
after_loop : Cursor → Run (Option (Cursor × Entry)) → Run (Option (Cursor × Entry))
after_loop c loop =
    loop >>= λ r. elim r [ none ↦ ok (some (c, no_entry)) | some result ↦ ok (some result) ]

move_next-loop :
    (fuel : ℕ) (c : Cursor)
    → c.state ≡ pointing
    → move_next fuel c ≡ after_loop c (next_loop (with_stack c c.stack) c.stack)
unfolding move_next after_loop
move_next-loop fuel c points =
    ap (λ s. move_next fuel (record c { state = s })) points
    ∙ ap (λ s. after_loop (record c { state = s }) (next_loop (with_stack c c.stack) c.stack))
        (sym points)

after_loop-found :
    (c : Cursor) (r : Run Entry) (c' : Cursor)
    → after_loop c (r >>= λ e. ok (some (c', e))) ≡ (r >>= λ e. ok (some (c', e)))
unfolding after_loop
after_loop-found c panic c' = refl
after_loop-found c (ok e) c' = refl

-- For a cursor that points at a leaf of a tree of at most 32 levels, `moveNext` returns the entry of the
-- first node ahead of it, and leaves it there with the others ahead; where none is ahead it returns the
-- error that there is none, and leaves the cursor as it was.
pub move_next-ahead :
    (t : ReadTxn) (c : Cursor) (fuel : ℕ)
    → IsPointing t c
    → c.tree.height ≤ cursor_stack_size
    → ((ahead t 0 c.stack ≡ []) × (move_next fuel c ≡ ok (some (c, no_entry))))
      ⊎ Arrives t c (ahead t 0 c.stack) (move_next fuel c)
unfolding after_loop
move_next-ahead t c fuel v low =
    let start = move_next-loop fuel c v.points in
    elim (next_loop-ahead t c v.of_txn v.same_map low 0 c.stack c.stack v.levels
      (omega (arith, v.deep))) [
        | inl (end, e) ↦ inl (end, start ∙ ap (after_loop c) e)
        | inr (l, rest, order, s, deep, e) ↦ inr (
          l,
          rest,
          order,
          s,
          deep,
          start
              ∙ ap (after_loop c) e
              ∙ after_loop-found c (entry_at t l.page l.idx) (with_stack c (l ∷ rest)),
        )
      ]
