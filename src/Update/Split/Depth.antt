-- ===== src/Update/Split/Depth.antt =====
-- The splits end: each one works on the pages above the one before.
use gdbx.Base.{
  ℕ, zero, suc, ◌+◌, ◌≡◌, ◌≢◌, refl, subst, sym, ◌∙◌, Bool, true, false, List, [], ◌∷◌, Option,
  none, some, length, Run, ok, panic, ◌>>=◌, arith, if◌then◌else◌, ◌%◌, ◌^◌, ◌==◌, ◌||◌,
}
use gdbx.Bytes.{Bytes, read, copy_list, store32, store64}
use gdbx.Page.Edit.{insert_entry, insert_entry_with_buf}
use gdbx.Page.Split.{split_point}
use gdbx.Node.Direct.{node_get_key_direct}
use gdbx.Update.Duplicates.{list_of}
use gdbx.Page.Header.{is_leaf, page_no, page_type, page_leaf, invalid_pgno}
use gdbx.Update.State.{
  System, WriteCursor, PathLevel, page_of, new_slot, allocate_page, update_child_pointer, link_page,
  copy_unless, touch_level, touch_levels, touch_page, put_dirty,
}
use gdbx.Update.Split.{
  build_branch_node, create_new_root, init_page, split_page, put_page, count_split, Done, done,
  error, spent, Halves, halves, broken, Splitting, parent_result, insert_into_top,
  insert_into_parent, with_separator, after_split, split_top, split_and_insert, insert_result,
  insert_node_at, root_result, create_root, insert_touched, insert_on, insert_node,
}

-- A property of the value that a run ends with, if it does.
abbrev pub Leaves {ℓ} : {A : Type ℓ} → (A → Type 0) → Run A → Type 0
Leaves P (ok a) = P a
Leaves P panic = Unit

module _ {ℓ κ} {A : Type ℓ} {B : Type κ} where
  pub bind-Leaves :
      (P : A → Type 0) (Q : B → Type 0) (r : Run A) (f : A → Run B)
      → Leaves P r
      → ((a : A) → P a → Leaves Q (f a))
      → Leaves Q (r >>= f)
  bind-Leaves P Q (ok a) f h k = k a h
  bind-Leaves P Q panic f h k = tt

  pub then-Leaves :
      (Q : B → Type 0) (r : Run A) (f : A → Run B) → ((a : A) → Leaves Q (f a)) → Leaves Q (r >>= f)
  then-Leaves Q (ok a) f k = k a
  then-Leaves Q panic f k = tt

pub if-Leaves {ℓ} :
    {A : Type ℓ} (P : A → Type 0) (b : Bool) (x y : Run A)
    → Leaves P x
    → Leaves P y
    → Leaves P (if b then x else y)
if-Leaves P true x y h k = h
if-Leaves P false x y h k = k

-- The cursor stands as deep.
abbrev pub IsDeep : ℕ → WriteCursor → Type 0
IsDeep n c = length c.stack ≡ n

abbrev IsEnded : Done → Type 0
IsEnded (done c) = Unit
IsEnded (error e c) = Unit
IsEnded spent = ⊥

module _ (sys : System) where
  link_page-IsDeep :
      (c : WriteCursor) (l : PathLevel) (new : ℕ) (stack : List PathLevel)
      → Leaves (IsDeep (suc (length stack))) (link_page sys c l new stack)
  unfolding link_page
  link_page-IsDeep c l new [] = refl
  link_page-IsDeep c l new (par ∷ rest) =
      then-Leaves (IsDeep (suc (suc (length rest)))) (page_of c.txn par.page_no) _ (λ p.
        then-Leaves (IsDeep (suc (suc (length rest)))) (update_child_pointer p par.idx new) _
          (λ q. refl))

  copy_unless-IsDeep :
      (o : Option Bytes) (c : WriteCursor) (l : PathLevel) (old : ℕ) (orig : Bytes)
      → Leaves (IsDeep (suc (length c.stack))) (copy_unless sys o c l old orig)
  unfolding copy_unless
  copy_unless-IsDeep (some p) c l old orig = refl
  copy_unless-IsDeep none c l old orig =
      let Q = IsDeep (suc (length c.stack)) in
      let new = c.txn.allocated_pg in
      then-Leaves Q (new_slot sys (record (c.txn) { allocated_pg = (new + 1) % 2 ^ 32 }) new) _
        (λ s. then-Leaves Q (copy_list s.0 0 (read orig.at 0 orig.size)) _ (λ d1.
          then-Leaves Q (store32 d1 16 new) _ (λ d2.
            then-Leaves Q (store64 d2 0 c.txn.txn_id) _
              (λ d3. link_page-IsDeep (record c { txn = put_dirty s.1 new d3 }) l new c.stack))))

  touch_level-IsDeep :
      (c : WriteCursor) (l : PathLevel) (n : ℕ)
      → length c.stack ≡ n
      → Leaves (IsDeep (suc n)) (touch_level sys c l)
  unfolding touch_level
  touch_level-IsDeep c l n h = then-Leaves (IsDeep (suc n)) (page_of c.txn l.page_no) _ (λ orig.
      then-Leaves (IsDeep (suc n)) (page_no orig) _ (λ old.
        subst (λ k. Leaves (IsDeep (suc k)) (copy_unless sys (c.txn.dirty old) c l old orig)) h
          (copy_unless-IsDeep (c.txn.dirty old) c l old orig)))

  touch_levels-IsDeep :
      (c : WriteCursor) (stack : List PathLevel)
      → Leaves (IsDeep (length stack)) (touch_levels sys c stack)
  unfolding touch_levels
  touch_levels-IsDeep c [] = refl
  touch_levels-IsDeep c (l ∷ rest) =
      if-Leaves (IsDeep (suc (length rest))) (l.is_dirty) (ok (record c { stack = l ∷ rest }))
        (touch_levels sys c rest >>= (λ c'. touch_level sys c' l)) refl
        (bind-Leaves (IsDeep (length rest)) (IsDeep (suc (length rest))) (touch_levels sys c rest)
          (λ c'. touch_level sys c' l) (touch_levels-IsDeep c rest)
          (λ c' h. touch_level-IsDeep c' l (length rest) h))

  module _ (split : Splitting) (n : ℕ)
      (ends : (c : WriteCursor) (idx : ℕ) (node : List ℕ) (is_update : Bool)
        → length c.stack ≡ n
        → Leaves IsEnded (split c idx node is_update)) where
    parent_result-IsEnded :
        (c : WriteCursor) (par : PathLevel) (idx : ℕ) (node : List ℕ) (r : Bytes × Bool)
        → length c.stack ≡ n
        → Leaves IsEnded (parent_result sys split c par idx node r)
    parent_result-IsEnded c par idx node (q, true) h = tt
    parent_result-IsEnded c par idx node (q, false) h = ends _ idx node false h

    insert_into_top-IsEnded :
        (c : WriteCursor) (right : ℕ) (sep : List ℕ) (stack : List PathLevel)
        → length c.stack ≡ n
        → Leaves IsEnded (insert_into_top sys split c right sep stack)
    unfolding insert_into_top
    insert_into_top-IsEnded c right sep [] h = tt
    insert_into_top-IsEnded c right sep (par ∷ rest) h =
        then-Leaves IsEnded (page_of c.txn par.page_no) _ (λ p.
          then-Leaves IsEnded (build_branch_node sep right) _ (λ node.
            then-Leaves IsEnded (insert_entry p (par.idx + 1) (list_of node) sys.pooled) _
              (λ r. parent_result-IsEnded c par (par.idx + 1) (list_of node) r h)))

    insert_into_parent-IsEnded :
        (c : WriteCursor) (left right : ℕ) (sep : List ℕ) (above : List PathLevel)
        → length above ≡ n
        → Leaves IsEnded (insert_into_parent sys split c left right sep above)
    unfolding insert_into_parent touch_page
    insert_into_parent-IsEnded c left right sep [] h =
        then-Leaves IsEnded (create_new_root sys c left right sep) _ (λ c'. tt)
    insert_into_parent-IsEnded c left right sep (par ∷ rest) h =
        bind-Leaves (IsDeep (suc (length rest))) IsEnded
          (touch_levels sys (record c { stack = par ∷ rest }) (par ∷ rest)) _
          (touch_levels-IsDeep (record c { stack = par ∷ rest }) (par ∷ rest))
          (λ c' deep. insert_into_top-IsEnded c' right sep c'.stack (deep ∙ h))

    with_separator-IsEnded :
        (c : WriteCursor) (left new : ℕ) (above : List PathLevel) (sep : Option (List ℕ))
        → length above ≡ n
        → Leaves IsEnded (with_separator sys split c left new above sep)
    with_separator-IsEnded c left new above none h = tt
    with_separator-IsEnded c left new above (some sep) h =
        insert_into_parent-IsEnded c left new sep above h

    after_split-IsEnded :
        (c : WriteCursor) (l : PathLevel) (new : ℕ) (is_update : Bool) (above : List PathLevel)
        (h : Halves)
        → length above ≡ n
        → Leaves IsEnded (after_split sys split c l new is_update above h)
    after_split-IsEnded c l new is_update above (broken e p q) h = tt
    after_split-IsEnded c l new is_update above (halves p q) h =
        then-Leaves IsEnded (is_leaf p) _ (λ leaf.
          then-Leaves IsEnded (node_get_key_direct q 0) _ (λ sep.
            then-Leaves IsEnded (page_no p) _ (λ left.
              with_separator-IsEnded
                (count_split (put_page (put_page c l.page_no p) new q) leaf is_update) left new
                above sep h)))

    split_top-IsEnded :
        (c : WriteCursor) (idx : ℕ) (node : List ℕ) (is_update : Bool) (stack : List PathLevel)
        → length stack ≡ suc n
        → Leaves IsEnded (split_top sys split c idx node is_update stack)
    unfolding split_top
    split_top-IsEnded c idx node is_update [] h = tt
    split_top-IsEnded c idx node is_update (l ∷ above) h =
        then-Leaves IsEnded (page_of c.txn l.page_no) _ (λ p.
          then-Leaves IsEnded (split_point p (length node) idx) _ (λ s.
            then-Leaves IsEnded (allocate_page sys c.txn) _ (λ f.
              then-Leaves IsEnded (page_type p) _ (λ kind.
                then-Leaves IsEnded (init_page f.2 f.1 f.0 kind) _ (λ q.
                  then-Leaves IsEnded (split_page sys.pooled (f.2).compact_buf s idx node p q) _
                    (λ half.
                      after_split-IsEnded (record c { txn = f.2 }) l f.0 is_update above half
                        (omega (arith, h))))))))

  split_nothing :
      (split : Splitting) (c : WriteCursor) (idx : ℕ) (node : List ℕ) (is_update : Bool)
      → Leaves IsEnded (split_top sys split c idx node is_update [])
  unfolding split_top
  split_nothing split c idx node is_update = tt

  nothing : (stack : List PathLevel) → length stack ≡ 0 → stack ≡ []
  nothing [] h = refl
  nothing (l ∷ above) h = absurd (omega arith)

  split_and_insert-IsEnded :
      (n : ℕ) (c : WriteCursor) (idx : ℕ) (node : List ℕ) (is_update : Bool)
      → length c.stack ≡ n
      → Leaves IsEnded (split_and_insert sys (suc n) c idx node is_update)
  unfolding split_and_insert
  split_and_insert-IsEnded zero c idx node is_update h =
      subst
        (λ stack. Leaves IsEnded (split_top sys (λ _ _ _ _. ok spent) c idx node is_update stack))
        (sym (nothing c.stack h)) (split_nothing (λ _ _ _ _. ok spent) c idx node is_update)
  split_and_insert-IsEnded (suc n) c idx node is_update h =
      split_top-IsEnded (split_and_insert sys (suc n)) n (split_and_insert-IsEnded n) c idx node
        is_update c.stack h

  insert_result-IsEnded :
      (c : WriteCursor) (l : PathLevel) (above : List PathLevel) (idx : ℕ) (node : List ℕ)
      (is_update : Bool) (r : Bytes × Bool)
      → length c.stack ≡ suc (length above)
      → Leaves IsEnded (insert_result sys c l above idx node is_update r)
  insert_result-IsEnded c l above idx node is_update (q, true) h = tt
  insert_result-IsEnded c l above idx node is_update (q, false) h =
      split_and_insert-IsEnded (suc (length above)) (put_page c l.page_no q) idx node is_update h

  insert_node_at-IsEnded :
      (c : WriteCursor) (idx : ℕ) (node : List ℕ) (is_update : Bool) (stack : List PathLevel)
      → length c.stack ≡ length stack
      → Leaves IsEnded (insert_node_at sys c idx node is_update stack)
  unfolding insert_node_at
  insert_node_at-IsEnded c idx node is_update [] h = tt
  insert_node_at-IsEnded c idx node is_update (l ∷ above) h =
      then-Leaves IsEnded (page_of c.txn l.page_no) _ (λ p.
        then-Leaves IsEnded (insert_entry_with_buf p idx node c.txn.compact_buf sys.pooled) _
          (λ r. insert_result-IsEnded c l above idx node is_update r h))

  root_result-IsEnded :
      (c : WriteCursor) (n : ℕ) (r : Bytes × Bool) → Leaves IsEnded (root_result sys c n r)
  root_result-IsEnded c n (p, true) = tt
  root_result-IsEnded c n (p, false) = tt

  create_root-IsEnded : (c : WriteCursor) (node : List ℕ) → Leaves IsEnded (create_root sys c node)
  unfolding create_root
  create_root-IsEnded c node = then-Leaves IsEnded (allocate_page sys c.txn) _ (λ f.
      then-Leaves IsEnded (init_page f.2 f.1 f.0 page_leaf) _ (λ p.
        then-Leaves IsEnded (insert_entry p 0 node sys.pooled) _
          (λ r. root_result-IsEnded (record c { txn = f.2 }) f.0 r)))

  insert_touched-IsEnded :
      (c : WriteCursor) (node : List ℕ) (stack : List PathLevel)
      → length c.stack ≡ length stack
      → Leaves IsEnded (insert_touched sys c node stack)
  insert_touched-IsEnded c node [] h = tt
  insert_touched-IsEnded c node (l ∷ above) h =
      insert_node_at-IsEnded c l.idx node false (l ∷ above) h

  insert_on-IsEnded :
      (c : WriteCursor) (node : List ℕ) (stack : List PathLevel)
      → Leaves IsEnded (insert_on sys c node stack)
  insert_on-IsEnded c node [] = tt
  insert_on-IsEnded c node (l ∷ above) =
      then-Leaves IsEnded (touch_page sys c) _ (λ c'. insert_touched-IsEnded c' node c'.stack refl)

  -- Whatever the tree, the pages and the answers of the system, inserting a node never comes to the end
  -- of its rounds: each split works on the pages above the one before it, so that one round per level of
  -- the cursor's stack, and one more, are enough.
  pub insert_node-IsEnded : (c : WriteCursor) (node : List ℕ) → insert_node sys c node ≢ ok spent
  unfolding insert_node
  insert_node-IsEnded c node h = subst (Leaves IsEnded) h (
      if-Leaves IsEnded (c.tree.root == invalid_pgno || c.tree.items == 0) (create_root sys c node)
        (insert_on sys c node c.stack) (create_root-IsEnded c node)
        (insert_on-IsEnded c node c.stack))
