-- ===== src/Tree/Sub.antt =====
-- The sub-trees that lead to some transactions (pkg/ark-lib/tree/tx_tree.go).
use arkd.Base.{
  ℕ, ◌≤◌, ◌≡◌, ◌∙◌, ap, refl, sym, subst, String, Bool, true, false, not, List, [], ◌∷◌, ◌++◌, none,
  some, if◌then◌else◌, arith, Bool-cases, inl, inr, All,
}
use arkd.Tree.{
  Psbt, TxTree, node, Children, no_child, child, root, count, has_txid, or_nothing, build_sub_tree,
  build_sub_children, tree_leaves, children_leaves,
}
use arkd.Tree.Validation.{IsTreeTx, IsChild, IsValid, AreValid}

module _ (targets : List String) where
  -- Some transaction of the tree is a target.
  unfoldable mutual
    pub leads : TxTree → Bool
    leads (node p cs) = if has_txid p.tx_id targets then true else lead cs

    pub lead : Children → Bool
    lead no_child = false
    lead (child i t cs) = if leads t then true else lead cs

  -- A transaction that is a target.
  abbrev pub IsTarget : Psbt → Type 0
  IsTarget p = has_txid p.tx_id targets ≡ true

  -- The targets of the tree that are not below another target, in the order of the tree.
  unfoldable mutual
    pub first_targets : TxTree → List Psbt
    first_targets (node p cs) =
        let below = first_targets_of cs in if has_txid p.tx_id targets then p ∷ [] else below

    pub first_targets_of : Children → List Psbt
    first_targets_of no_child = []
    first_targets_of (child i t cs) = first_targets t ++ first_targets_of cs

  abbrev is_empty : Children → Bool
  is_empty no_child = true
  is_empty (child i t cs) = false

  mutual
    unfolding build_sub_tree leads

    found : (t : TxTree) → leads t ≡ false → build_sub_tree targets t ≡ none
    found (node p cs) h =
        let away : has_txid p.tx_id targets ≡ false = ground arith in
        let below : lead cs ≡ false = ground arith in rw (away, found_children cs below) refl

    found_children : (cs : Children) → lead cs ≡ false → build_sub_children targets cs ≡ no_child
    found_children no_child h = refl
    found_children (child i t cs) h =
        let here : leads t ≡ false = ground arith in
        let below : lead cs ≡ false = ground arith in
        rw (found t here, found_children cs below) refl

  -- A tree that leads to no target has no first one.
  mutual
    unfolding leads first_targets

    first_targets-nil : (t : TxTree) → leads t ≡ false → first_targets t ≡ []
    first_targets-nil (node p cs) h =
        let away : has_txid p.tx_id targets ≡ false = ground arith in
        let below : lead cs ≡ false = ground arith in rw away (first_targets_of-nil cs below)

    first_targets_of-nil : (cs : Children) → lead cs ≡ false → first_targets_of cs ≡ []
    first_targets_of-nil no_child h = refl
    first_targets_of-nil (child i t cs) h =
        let here : leads t ≡ false = ground arith in
        let below : lead cs ≡ false = ground arith in
        rw (first_targets-nil t here, first_targets_of-nil cs below) refl

  or_nothing-cons :
      (p : Psbt) (cs : Children) → is_empty cs ≡ false → or_nothing p cs ≡ some (node p cs)
  or_nothing-cons p no_child h = absurd (ground arith)
  or_nothing-cons p (child i t cs) h = refl

  children_leaves-append :
      (p : Psbt) (cs : Children)
      → is_empty cs ≡ false
      → tree_leaves (node p cs) ≡ children_leaves cs
  unfolding tree_leaves
  children_leaves-append p no_child h = absurd (ground arith)
  children_leaves-append p (child i t cs) h = refl

  All-append : (xs ys : List Psbt) → All IsTarget xs → All IsTarget ys → All IsTarget (xs ++ ys)
  All-append [] ys h h' = h'
  All-append (x ∷ xs) ys (a, h) h' = (a, All-append xs ys h h')

  -- What a sub-tree is: the same transaction, with the first targets as its leaves, and valid where the
  -- tree is.
  pub record IsSubTree (t s : TxTree) : Type 0 where
    pub same_root : root s ≡ root t
    pub reaches : tree_leaves s ≡ first_targets t
    pub targeted : All IsTarget (tree_leaves s)
    pub valid : IsValid t → IsValid s

  IsTreeTx-le : (p : Psbt) (m n : ℕ) → m ≤ n → IsTreeTx p n → IsTreeTx p m
  IsTreeTx-le p m n le h = record {
    version = h.version;
    one_input = h.one_input;
    few_children = omega (arith, h.few_children);
  }

  -- What the kept children are.
  record AreSub (cs ss : Children) : Type 0 where
    some_of : is_empty ss ≡ not (lead cs)
    reaches : children_leaves ss ≡ first_targets_of cs
    targeted : All IsTarget (children_leaves ss)
    fewer : count ss ≤ count cs
    valid : (p : Psbt) → AreValid p cs → AreValid p ss

  AreSub-skip :
      (i : ℕ) (t : TxTree) (cs ss : Children)
      → leads t ≡ false
      → AreSub cs ss
      → AreSub (child i t cs) ss
  unfolding leads IsValid first_targets
  AreSub-skip i t cs ss away h = record {
    some_of = ground (arith, h.some_of, away);
    reaches =
        ap (λ l. l ++ children_leaves ss) (sym (first_targets-nil t away))
        ∙ ap (λ l. first_targets t ++ l) h.reaches;
    targeted = h.targeted;
    fewer = omega (arith, h.fewer);
    valid = λ p (a, b, c). h.valid p c;
  }

  AreSub-keep :
      (i : ℕ) (t s : TxTree) (cs ss : Children)
      → leads t ≡ true
      → IsSubTree t s
      → AreSub cs ss
      → AreSub (child i t cs) (child i s ss)
  unfolding leads IsValid tree_leaves first_targets
  AreSub-keep i t s cs ss here h h' = record {
    some_of = ground (arith, here);
    reaches =
        ap (λ l. l ++ children_leaves ss) h.reaches ∙ ap (λ l. first_targets t ++ l) h'.reaches;
    targeted = All-append (tree_leaves s) (children_leaves ss) h.targeted h'.targeted;
    fewer = omega (arith, h'.fewer);
    valid = λ p (a, b, c). (subst (IsChild p i) (sym h.same_root) a, h.valid b, h'.valid p c);
  }

  mutual
    unfolding build_sub_tree leads tree_leaves IsValid first_targets

    sub :
        (t : TxTree)
        → leads t ≡ true
        → (s : TxTree) × (build_sub_tree targets t ≡ some s) × IsSubTree t s
    sub (node p cs) h =
        let ss = build_sub_children targets cs in
        elim (Bool-cases (has_txid p.tx_id targets)) [
          | inl here ↦ (
            node p no_child,
            rw here refl,
            record {
              same_root = refl;
              reaches = rw here refl;
              targeted = (here, tt);
              valid = λ (a, b). (IsTreeTx-le p 0 _ (omega arith) a, tt);
            },
          )
          | inr away ↦
              let below : lead cs ≡ true = ground arith in
              let kept = sub_children cs in
              let more : is_empty ss ≡ false = ground (arith, kept.some_of, below) in
              (
                node p ss,
                rw (away, or_nothing-cons p ss more) refl,
                record {
                  same_root = refl;
                  reaches = rw away (children_leaves-append p ss more ∙ kept.reaches);
                  targeted = rw (children_leaves-append p ss more) kept.targeted;
                  valid =
                      λ (a, b). (IsTreeTx-le p (count ss) (count cs) kept.fewer a, kept.valid p b);
                },
              )
        ]

    sub_children : (cs : Children) → AreSub cs (build_sub_children targets cs)
    sub_children no_child = record {
      some_of = refl;
      reaches = refl;
      targeted = tt;
      fewer = omega arith;
      valid = λ p v. v;
    }
    sub_children (child i t cs) =
        let kept = sub_children cs in
        elim (Bool-cases (leads t)) [
          | inl here ↦
              let (s, e, is_sub) = sub t here in
              rw e (AreSub-keep i t s cs (build_sub_children targets cs) here is_sub kept)
          | inr away ↦
              rw (found t away) (AreSub-skip i t cs (build_sub_children targets cs) away kept)
        ]
