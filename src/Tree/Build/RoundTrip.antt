-- ===== src/Tree/Build/RoundTrip.antt =====
-- The tree that is checked from the nodes of a serialised one (pkg/ark-lib/tree/tx_tree.go).
use mathlib.Core.List.{append_assoc, append-nil}
use arkd.Base.{
  ℕ, zero, suc, ◌+◌, ◌≤◌, ◌≡◌, ◌∙◌, refl, sym, ap, subst, String, true, false, List, [], ◌∷◌, ◌++◌,
  Option, none, some, str_eq, eq_iff, if◌then◌else◌, arith, Bool-cases, inl, inr,
}
use arkd.Base.Results.{ok, >>=-eq-ok}
use arkd.Base.Maps.{insert, has}
use arkd.Domain.Types.{FlatTxTree, TxTreeNode}
use arkd.Tree.{TxTree, Psbt, Children, child, no_child, node, root}
use arkd.Tree.Build.{
  DecodedTxTreeNode, Nodes, node_at, child_txids, from_encoded, serialize_tree, serialize_children,
  build_children, build_tree, decode_nodes,
}

-- The nodes of a tree, in the order of `Serialize`.
unfoldable mutual
  pub entries : TxTree → Nodes
  entries (node p cs) =
      entries_children cs ++ (p.tx_id, record { tx = p; txids = child_txids cs }) ∷ []

  pub entries_children : Children → Nodes
  entries_children no_child = []
  entries_children (child i t cs) = entries t ++ entries_children cs

-- No two nodes have the same txid.
unfoldable pub AreDistinct : Nodes → Type 0
AreDistinct [] = Unit
AreDistinct ((k, n) ∷ m) = (has k m ≡ false) × AreDistinct m

unfoldable mutual
  pub depth : TxTree → ℕ
  depth (node p cs) = suc (depth_children cs)

  pub depth_children : Children → ℕ
  depth_children no_child = 0
  depth_children (child i t cs) = depth t + depth_children cs

pub has-append :
    (k : String) (xs ys : Nodes) → has k (xs ++ ys) ≡ (if has k xs then true else has k ys)
has-append k [] ys = refl
has-append k ((j, n) ∷ xs) ys = ground (arith, has-append k xs ys)

-- A node of a list of distinct ones is at its txid.
node_at-append :
    (pre post : Nodes) (k : String) (n : DecodedTxTreeNode)
    → AreDistinct (pre ++ (k, n) ∷ post)
    → node_at k (pre ++ (k, n) ∷ post) ≡ some n
unfolding AreDistinct
node_at-append [] post k n h = ground (arith, eq_iff k k)
node_at-append ((j, x) ∷ pre) post k n (new, h) =
    let ih = node_at-append pre post k n h in
    elim (Bool-cases (str_eq j k)) [
      | inl e ↦
          let e' : has k (pre ++ (k, n) ∷ post) ≡ false =
            subst (λ (s : String). has s (pre ++ (k, n) ∷ post) ≡ false) ((eq_iff j k).0 e) new in
          absurd (ground (arith, e', has-append k pre ((k, n) ∷ post), eq_iff k k))
      | inr e ↦ rw e ih
    ]

module _ (m : Nodes) where
  -- Every transaction of the tree is at its txid, with the txids of its children.
  unfoldable mutual
    pub IsStored : TxTree → Type 0
    IsStored (node p cs) =
        (node_at p.tx_id m ≡ some (record { tx = p; txids = child_txids cs })) × AreStored cs

    pub AreStored : Children → Type 0
    AreStored no_child = Unit
    AreStored (child i t cs) = IsStored t × AreStored cs

  mutual
    unfolding IsStored depth build_tree build_children

    rebuilt :
        (t : TxTree) (fuel : ℕ)
        → IsStored t
        → depth t ≤ fuel
        → build_tree m fuel (root t).tx_id ≡ some (some t)
    rebuilt (node p cs) zero h le = absurd (omega arith)
    rebuilt (node p cs) (suc fuel) (at, below) le =
        let e = rebuilt_children cs fuel below (omega arith) in rw at (rw e refl)

    rebuilt_children :
        (cs : Children) (fuel : ℕ)
        → AreStored cs
        → depth_children cs ≤ fuel
        → build_children (build_tree m fuel) (child_txids cs) ≡ some cs
    rebuilt_children no_child fuel h le = refl
    rebuilt_children (child i t cs) fuel (here, below) le =
        let e = rebuilt t fuel here (omega arith) in
        let e' = rebuilt_children cs fuel below (omega arith) in rw (e, e') refl

mutual
  unfolding IsStored entries

  pub stored :
      (t : TxTree) (m pre post : Nodes)
      → m ≡ pre ++ (entries t ++ post)
      → AreDistinct m
      → IsStored m t
  stored (node p cs) m pre post e h =
      let before = entries_children cs in
      let n : DecodedTxTreeNode = record { tx = p; txids = child_txids cs } in
      let e1 : m ≡ pre ++ (before ++ (p.tx_id, n) ∷ post) =
        e ∙ ap (λ l. pre ++ l) (append_assoc before ((p.tx_id, n) ∷ []) post) in
      let e2 : m ≡ (pre ++ before) ++ (p.tx_id, n) ∷ post =
        e1 ∙ sym (append_assoc pre before ((p.tx_id, n) ∷ post)) in
      let at = node_at-append (pre ++ before) post p.tx_id n (subst AreDistinct e2 h) in
      (
        subst (λ l. node_at p.tx_id l ≡ some n) (sym e2) at,
        stored_children cs m pre ((p.tx_id, n) ∷ post) e1 h,
      )

  stored_children :
      (cs : Children) (m pre post : Nodes)
      → m ≡ pre ++ (entries_children cs ++ post)
      → AreDistinct m
      → AreStored m cs
  stored_children no_child m pre post e h = tt
  stored_children (child i t cs) m pre post e h =
      let e1 : m ≡ pre ++ (entries t ++ (entries_children cs ++ post)) =
        e ∙ ap (λ l. pre ++ l) (append_assoc (entries t) (entries_children cs) post) in
      let e2 : m ≡ (pre ++ entries t) ++ (entries_children cs ++ post) =
        e1 ∙ sym (append_assoc pre (entries t) (entries_children cs ++ post)) in
      (
        stored t m pre (entries_children cs ++ post) e1 h,
        stored_children cs m (pre ++ entries t) post e2 h,
      )

insert-has :
    (k : String) (n : DecodedTxTreeNode) (m : Nodes)
    → has k m ≡ false
    → insert k n m ≡ m ++ (k, n) ∷ []
insert-has k n [] h = refl
insert-has k n ((j, x) ∷ m) h = ground (arith, insert-has k n m (ground arith))

-- The first of the nodes after some distinct ones is not among them.
pub has-AreDistinct :
    (m : Nodes) (k : String) (n : DecodedTxTreeNode) (post : Nodes)
    → AreDistinct (m ++ (k, n) ∷ post)
    → has k m ≡ false
unfolding AreDistinct
has-AreDistinct [] k n post h = refl
has-AreDistinct ((j, x) ∷ m) k n post (new, h) =
    let ih = has-AreDistinct m k n post h in
    elim (Bool-cases (str_eq j k)) [
      | inl e ↦
          let e' : has k (m ++ (k, n) ∷ post) ≡ false =
            subst (λ (s : String). has s (m ++ (k, n) ∷ post) ≡ false) ((eq_iff j k).0 e) new in
          absurd (ground (arith, e', has-append k m ((k, n) ∷ post), eq_iff k k))
      | inr e ↦ rw e ih
    ]

module _ (encode : Psbt → Option String) (decode : String → Option Psbt) where
  -- What is encoded is decoded.
  unfoldable pub IsCodec : Type 0
  IsCodec = (p : Psbt) (s : String) → encode p ≡ some s → decode s ≡ some p

  from_encoded-ok :
      (o : Option String) (p : Psbt) (txids : List (ℕ × String)) (n : TxTreeNode)
      → from_encoded o p txids ≡ ok n
      → (s : String) × (o ≡ some s) × (n ≡ record { txid = p.tx_id; tx = s; children = txids })
  from_encoded-ok none p txids n h = absurd (ground arith)
  from_encoded-ok (some s) p txids n h = (s, refl, ground arith)

  decode_nodes-cons :
      (p : Psbt) (s : String) (txids : List (ℕ × String)) (rest : FlatTxTree) (m : Nodes)
      → IsCodec
      → encode p ≡ some s
      → has p.tx_id m ≡ false
      → decode_nodes decode (record { txid = p.tx_id; tx = s; children = txids } ∷ rest) m
        ≡ decode_nodes decode rest (m ++ (p.tx_id, record { tx = p; txids = txids }) ∷ [])
  unfolding decode_nodes IsCodec
  decode_nodes-cons p s txids rest m codec enc new = rw (codec p s enc) (
      ap (λ l. decode_nodes decode rest l)
        (insert-has p.tx_id (record { tx = p; txids = txids }) m new))

  mutual
    unfolding serialize_tree entries decode_nodes

    decoded :
        (t : TxTree) (ns rest : FlatTxTree) (m post : Nodes)
        → IsCodec
        → serialize_tree encode t ≡ ok ns
        → AreDistinct (m ++ (entries t ++ post))
        → decode_nodes decode (ns ++ rest) m ≡ decode_nodes decode rest (m ++ entries t)
    decoded (node p cs) ns rest m post codec h d =
        let (first, e, h1) = >>=-eq-ok (serialize_children encode cs) _ h in
        let (n, e', h2) = >>=-eq-ok (from_encoded (encode p) p (child_txids cs)) _ h1 in
        let (s, enc, is) = from_encoded-ok (encode p) p (child_txids cs) n e' in
        let before = entries_children cs in
        let x : String × DecodedTxTreeNode = (p.tx_id, record { tx = p; txids = child_txids cs }) in
        let d1 : AreDistinct (m ++ (before ++ x ∷ post)) =
          subst (λ l. AreDistinct (m ++ l)) (append_assoc before (x ∷ []) post) d in
        let d2 : AreDistinct ((m ++ before) ++ x ∷ post) =
          subst AreDistinct (sym (append_assoc m before (x ∷ post))) d1 in
        let same : first ++ n ∷ [] ≡ ns = ground (arith, h2) in
        let split : ns ++ rest ≡ first ++ n ∷ rest =
          sym (ap (λ l. l ++ rest) same) ∙ append_assoc first (n ∷ []) rest in
        let new = has-AreDistinct (m ++ before) p.tx_id _ post d2 in
        ap (λ l. decode_nodes decode l m) split
        ∙ decoded_children cs first (n ∷ rest) m (x ∷ post) codec e d1
        ∙ ap (λ k. decode_nodes decode (k ∷ rest) (m ++ before)) is
        ∙ decode_nodes-cons p s (child_txids cs) rest (m ++ before) codec enc new
        ∙ ap (decode_nodes decode rest) (append_assoc m before (x ∷ []))

    decoded_children :
        (cs : Children) (ns rest : FlatTxTree) (m post : Nodes)
        → IsCodec
        → serialize_children encode cs ≡ ok ns
        → AreDistinct (m ++ (entries_children cs ++ post))
        → decode_nodes decode (ns ++ rest) m ≡ decode_nodes decode rest (m ++ entries_children cs)
    decoded_children no_child ns rest m post codec h d =
        let none_left : ns ≡ [] = ground (arith, h) in
        ap (λ l. decode_nodes decode (l ++ rest) m) none_left
        ∙ ap (decode_nodes decode rest) (sym (append-nil m))
    decoded_children (child i t cs) ns rest m post codec h d =
        let (first, e, h1) = >>=-eq-ok (serialize_tree encode t) _ h in
        let (second, e', h2) = >>=-eq-ok (serialize_children encode cs) _ h1 in
        let d1 : AreDistinct (m ++ (entries t ++ (entries_children cs ++ post))) =
          subst (λ l. AreDistinct (m ++ l)) (append_assoc (entries t) (entries_children cs) post)
            d in
        let d2 : AreDistinct ((m ++ entries t) ++ (entries_children cs ++ post)) =
          subst AreDistinct (sym (append_assoc m (entries t) (entries_children cs ++ post))) d1 in
        let same : first ++ second ≡ ns = ground (arith, h2) in
        let split : ns ++ rest ≡ first ++ (second ++ rest) =
          sym (ap (λ l. l ++ rest) same) ∙ append_assoc first second rest in
        ap (λ l. decode_nodes decode l m) split
        ∙ decoded t first (second ++ rest) m (entries_children cs ++ post) codec e d1
        ∙ decoded_children cs second rest (m ++ entries t) post codec e' d2
        ∙ ap (decode_nodes decode rest) (append_assoc m (entries t) (entries_children cs))

  -- The nodes of a serialised tree are decoded to the tree's, from which it is checked again.
  pub build_tree-serialize_tree :
      (t : TxTree) (ns : FlatTxTree) (fuel : ℕ)
      → IsCodec
      → AreDistinct (entries t)
      → serialize_tree encode t ≡ ok ns
      → depth t ≤ fuel
      → (decode_nodes decode ns [] ≡ ok (entries t))
        × (build_tree (entries t) fuel (root t).tx_id ≡ some (some t))
  unfolding decode_nodes
  build_tree-serialize_tree t ns fuel codec d h le =
      let e = append-nil (entries t) in
      let d' : AreDistinct ([] ++ (entries t ++ [])) = subst AreDistinct (sym e) d in
      let whole = ap (λ l. decode_nodes decode l []) (sym (append-nil ns)) in
      (
        whole ∙ decoded t ns [] [] [] codec h d',
        rebuilt (entries t) t fuel (stored t (entries t) [] [] (sym e) d) le,
      )
