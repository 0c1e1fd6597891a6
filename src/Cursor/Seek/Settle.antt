-- ===== src/Cursor/Seek/Settle.antt =====
-- The end of a search on a leaf: the entries before the cursor, and those from it on.
use mathlib.Core.List.{append_assoc}
use native.Mathlib.Decide.{dec_lt}
use gdbx.Base.{
  ℕ, ◌+◌, ◌-◌, ◌≤◌, ◌<◌, ◌≡◌, refl, sym, ap, subst, ◌∙◌, Bool, true, false, List, [], ◌∷◌, ◌++◌,
  length, arith, Run, ok, ◌>>=◌, Option, some, inl, inr, ◌⊎◌, gt→leb, le→leb, lt→ltb, ◌||◌,
}
use gdbx.Bytes.{Bytes}
use gdbx.Page.Shape.{count}
use gdbx.Node.Direct.{node_get_key_direct}
use gdbx.Node.Variants.{key_bytes, key_accessors}
use gdbx.Search.Order.{Side, compare_bytes}
use gdbx.Search.Bounds.{IsLowerBound}
use gdbx.Txn.Mapping.{ReadTxn}
use gdbx.Txn.Trees.{HasNodes}
use gdbx.Cursor.State.{Level, Cursor, Entry, no_entry, cursor_stack_size}
use gdbx.Cursor.Move.{move_next, with_current}
use gdbx.Cursor.Entries.{
  Position, items, ahead, ahead-cons, items-leaf, items-past, IsOnStack, IsPointing,
  num_entries_fast-count,
}
use gdbx.Cursor.Next.{Arrives, with_stack, current-Arrives, move_next-ahead}
use gdbx.Cursor.First.{first_of, starting}
use gdbx.Cursor.Sorted.{All, All-append, IsBelow, IsFrom, items-split, items-All}
use gdbx.Cursor.Seek.{settle, settle_on, is_same, or_nil}

-- `ps` in two parts, the keys less than the one sought and those that are not; `r` returns the first
-- entry of the second part, with the cursor there, or that there is none.
abbrev pub Seeks :
    ReadTxn → Cursor → List ℕ → List Position → Run (Option (Cursor × Entry)) → Type 0
Seeks t c key ps r =
    (before : List Position) × (after : List Position) × (ps ≡ before ++ after)
    × All (IsBelow key) before
    × All (IsFrom key) after
    × (((after ≡ []) × ((c' : Cursor) × (r ≡ ok (some (c', no_entry))))) ⊎ Arrives t c after r)

either_true : (b : Bool) → (b || true) ≡ true
either_true true = refl
either_true false = refl

module _ (cmp : List ℕ → List ℕ → Side) (t : ReadTxn) (c : Cursor) (of_txn : c.txn ≡ t)
    (same_map : c.mmap_data ≡ t.mmap_data) (low : c.tree.height ≤ cursor_stack_size) (key : List ℕ)
    (fuel : ℕ) (q : Bytes) (v : HasNodes compare_bytes q 0) (small : q.size < 65536)
    (rest : List Level) where
  to_settle_on :
      (idx : ℕ)
      → settle cmp true fuel (starting c (first_of q ∷ rest)) key true idx
        ≡ settle_on cmp true fuel (starting c (first_of q ∷ rest)) key true q rest idx (count q)
  unfolding settle
  to_settle_on idx = rw (num_entries_fast-count q v.header_fits)

  settle_on-inside :
      (idx n : ℕ) (found : Option (List ℕ))
      → node_get_key_direct q idx ≡ ok found
      → idx < n
      → settle_on cmp true fuel (starting c (first_of q ∷ rest)) key true q rest idx n
        ≡ (with_current (with_stack c (record { page = q; idx = idx } ∷ rest)) >>= λ r. ok (some r))
  unfolding settle_on
  settle_on-inside idx n found e lt =
      rw (gt→leb n idx lt, e, either_true (is_same (cmp key (or_nil found))))

  settle_on-past :
      (idx n : ℕ)
      → 0 < n
      → n ≤ idx
      → settle_on cmp true fuel (starting c (first_of q ∷ rest)) key true q rest idx n
        ≡ move_next fuel (with_stack c (record { page = q; idx = n - 1 } ∷ rest))
  unfolding settle_on
  settle_on-past idx n pos past = rw (le→leb n idx past, lt→ltb 0 n pos)

  settle-inside :
      (idx : ℕ)
      → idx < count q
      → settle cmp true fuel (starting c (first_of q ∷ rest)) key true idx
        ≡ (with_current (with_stack c (record { page = q; idx = idx } ∷ rest)) >>= λ r. ok (some r))
  settle-inside idx lt =
      let k = v.inside idx lt in
      to_settle_on idx
      ∙ settle_on-inside idx (count q) (some (key_bytes q idx))
          (key_accessors q idx k (omega (arith, k.key_fits))).0 lt

  settle-past :
      (idx : ℕ)
      → 0 < count q
      → count q ≤ idx
      → settle cmp true fuel (starting c (first_of q ∷ rest)) key true idx
        ≡ move_next fuel (with_stack c (record { page = q; idx = count q - 1 } ∷ rest))
  settle-past idx pos past = to_settle_on idx ∙ settle_on-past idx (count q) pos past

  -- The nodes of the leaf before an index that bounds the key.
  leaf-IsBelow :
      (idx : ℕ)
      → IsLowerBound (λ i. compare_bytes key (key_bytes q i)) (count q) idx
      → All (IsBelow key) (items t 0 q 0 idx)
  leaf-IsBelow idx bound = items-All t (IsBelow key) q 0 idx (λ j a b. bound.1 j (omega arith))

  leaf-IsFrom :
      (idx : ℕ)
      → IsLowerBound (λ i. compare_bytes key (key_bytes q i)) (count q) idx
      → All (IsFrom key) (items t 0 q idx (count q - idx))
  leaf-IsFrom idx bound =
      items-All t (IsFrom key) q idx (count q - idx) (λ j a b. bound.2 j a (omega arith))

  parts :
      (idx : ℕ)
      → idx ≤ count q
      → items t 0 q 0 (count q) ++ ahead t 1 rest
        ≡ items t 0 q 0 idx ++ (items t 0 q idx (count q - idx) ++ ahead t 1 rest)
  parts idx le =
      let total : count q ≡ idx + (count q - idx) = omega arith in
      let start : 0 + idx ≡ idx = omega arith in
      ap (λ n. items t 0 q 0 n ++ ahead t 1 rest) total
      ∙ ap (λ ps. ps ++ ahead t 1 rest) (items-split t 0 q 0 idx (count q - idx))
      ∙ append_assoc (items t 0 q 0 idx) (items t 0 q (0 + idx) (count q - idx)) (ahead t 1 rest)
      ∙ ap (λ i. items t 0 q 0 idx ++ (items t 0 q i (count q - idx) ++ ahead t 1 rest)) start

  inside-Arrives :
      (idx : ℕ)
      → IsOnStack t 0 (first_of q ∷ rest)
      → length (first_of q ∷ rest) ≡ c.tree.height
      → idx < count q
      → Arrives t c
          (items t 0 q idx (count q - idx) ++ ahead t 1 rest)
          (settle cmp true fuel (starting c (first_of q ∷ rest)) key true idx)
  inside-Arrives idx s deep lt =
      let order : (q, idx) ∷ ahead t 0 (record { page = q; idx = idx } ∷ rest)
          ≡ items t 0 q idx (count q - idx) ++ ahead t 1 rest =
        ap (λ ps. (q, idx) ∷ ps) (ahead-cons t 0 (record { page = q; idx = idx }) rest)
        ∙ ap (λ ps. ps ++ ahead t 1 rest) (sym (items-leaf t q idx lt)) in
      subst
        (λ ps. Arrives t c ps (settle cmp true fuel (starting c (first_of q ∷ rest)) key true idx))
        order
        (rw (settle-inside idx lt) (
          current-Arrives t c of_txn same_map low (record { page = q; idx = idx }) rest
            (s.0, lt, s.2) deep))

  moves_on :
      (idx : ℕ)
      → IsOnStack t 0 (first_of q ∷ rest)
      → length (first_of q ∷ rest) ≡ c.tree.height
      → count q ≤ idx
      → ((items t 0 q idx (count q - idx) ++ ahead t 1 rest ≡ [])
          × ((c' : Cursor) × (settle cmp true fuel (starting c (first_of q ∷ rest)) key true idx
                ≡ ok (some (c', no_entry)))))
        ⊎ Arrives t c
            (items t 0 q idx (count q - idx) ++ ahead t 1 rest)
            (settle cmp true fuel (starting c (first_of q ∷ rest)) key true idx)
  moves_on idx s deep past =
      let pos : 0 < count q = s.1 in
      let at_last : Level = record { page = q; idx = count q - 1 } in
      let last_point : IsPointing t (with_stack c (at_last ∷ rest)) = record {
        of_txn = of_txn;
        same_map = same_map;
        points = refl;
        deep = deep;
        levels = (s.0, omega arith, s.2);
      } in
      let none_left : ahead t 0 (at_last ∷ rest) ≡ ahead t 1 rest =
        ahead-cons t 0 at_last rest
        ∙ ap (λ ps. ps ++ ahead t 1 rest) (items-past t 0 q (count q - 1 + 1) (omega arith)) in
      rw (items-past t 0 q idx past, settle-past idx pos past)
        (elim (move_next-ahead t (with_stack c (at_last ∷ rest)) fuel last_point low) [
          | inl (end, e) ↦ inl (sym none_left ∙ end, (with_stack c (at_last ∷ rest), e))
          | inr arrives ↦ inr (
              subst (λ ps. Arrives t c ps (move_next fuel (with_stack c (at_last ∷ rest))))
                none_left arrives)
        ])

  pub settle-Seeks :
      (idx : ℕ)
      → IsOnStack t 0 (first_of q ∷ rest)
      → length (first_of q ∷ rest) ≡ c.tree.height
      → IsLowerBound (λ i. compare_bytes key (key_bytes q i)) (count q) idx
      → All (IsFrom key) (ahead t 1 rest)
      → Seeks t c key
          (items t 0 q 0 (count q) ++ ahead t 1 rest)
          (settle cmp true fuel (starting c (first_of q ∷ rest)) key true idx)
  settle-Seeks idx s deep bound later = (
    items t 0 q 0 idx,
    items t 0 q idx (count q - idx) ++ ahead t 1 rest,
    parts idx bound.0,
    leaf-IsBelow idx bound,
    All-append (IsFrom key) (items t 0 q idx (count q - idx)) (ahead t 1 rest)
        (leaf-IsFrom idx bound) later,
    elim (dec_lt idx (count q)) [
      | yes lt ↦ inr (inside-Arrives idx s deep lt)
      | no past ↦ moves_on idx s deep (omega arith)
    ],
  )
