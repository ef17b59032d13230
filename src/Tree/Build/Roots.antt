-- ===== src/Tree/Build/Roots.antt =====
-- `NewTxTree` of a serialised tree (pkg/ark-lib/tree/tx_tree.go).
use mathlib.Core.List.{append-nil}
use arkd.Base.{
  ℕ, ◌≤◌, ◌≡◌, ◌∙◌, refl, sym, ap, subst, String, true, false, ◌||◌, ◌==◌, [], ◌∷◌, ◌++◌, Option,
  some, str_eq, eq_iff, length, length-append, arith, Bool-cases, inl, inr,
}
use arkd.Base.Results.{ok, >>=-eq-ok}
use arkd.Base.Maps.{has}
use arkd.Domain.Types.{FlatTxTree}
use arkd.Tree.{TxTree, Psbt, Children, child, no_child, node, root, count_nodes, count_children}
use arkd.Tree.Build.{
  DecodedTxTreeNode, Nodes, node_at, child_txids, from_encoded, serialize_tree, serialize_children,
  has_child, is_child, root_txids, new_tx_tree,
}
use arkd.Tree.Build.RoundTrip.{
  entries, entries_children, AreDistinct, depth, IsStored, AreStored, stored, IsCodec,
  build_tree-serialize_tree, has-append, has-AreDistinct,
}

is_child-append :
    (k : String) (xs ys : Nodes) → is_child k (xs ++ ys) ≡ (is_child k xs || is_child k ys)
is_child-append k [] ys = refl
is_child-append k ((j, n) ∷ xs) ys = ground (arith, is_child-append k xs ys)

root_txids-append :
    (all xs ys : Nodes) → root_txids all (xs ++ ys) ≡ root_txids all xs ++ root_txids all ys
root_txids-append all [] ys = refl
root_txids-append all ((j, n) ∷ xs) ys = ground (arith, root_txids-append all xs ys)

-- A child of a stored node is a child.
is_child-node_at :
    (m : Nodes) (k j : String) (n : DecodedTxTreeNode)
    → node_at j m ≡ some n
    → str_eq j k ≡ false
    → has_child k n.txids ≡ true
    → is_child k m ≡ true
is_child-node_at [] k j n at away h = absurd (ground arith)
is_child-node_at ((i, x) ∷ m) k j n at away h = elim (Bool-cases (str_eq i j)) [
  | inl e ↦
      let same : i ≡ j = (eq_iff i j).0 e in
      let away' : str_eq i k ≡ false = subst (λ (s : String). str_eq s k ≡ false) (sym same) away in
      let here : x ≡ n = ground (arith, at, e) in
      ground (arith, away', ap (λ (y : DecodedTxTreeNode). has_child k y.txids) here, h)
  | inr e ↦ ground (arith, is_child-node_at m k j n (ground (arith, at, e)) away h)
]

-- The children's txids are among their nodes.
has-child_txids :
    (cs : Children) (k : String)
    → has_child k (child_txids cs) ≡ true
    → has k (entries_children cs) ≡ true
unfolding entries
has-child_txids no_child k h = absurd (ground arith)
has-child_txids (child i (node p ds) cs) k h =
    let x : String × DecodedTxTreeNode = (p.tx_id, record { tx = p; txids = child_txids ds }) in
    let a = has-append k (entries_children ds ++ x ∷ []) (entries_children cs) in
    let b = has-append k (entries_children ds) (x ∷ []) in
    ground (arith, a, b, has-child_txids cs k)

-- No node has the root as a child.
mutual
  unfolding entries

  not_child : (k : String) (t : TxTree) → has k (entries t) ≡ false → is_child k (entries t) ≡ false
  not_child k (node p cs) h =
      let x : String × DecodedTxTreeNode = (p.tx_id, record { tx = p; txids = child_txids cs }) in
      ground (
        arith,
        has-append k (entries_children cs) (x ∷ []),
        is_child-append k (entries_children cs) (x ∷ []),
        not_children k cs,
        has-child_txids cs k,
      )

  not_children :
      (k : String) (cs : Children)
      → has k (entries_children cs) ≡ false
      → is_child k (entries_children cs) ≡ false
  not_children k no_child h = refl
  not_children k (child i t cs) h = ground (
    arith,
    has-append k (entries t) (entries_children cs),
    is_child-append k (entries t) (entries_children cs),
    not_child k t,
    not_children k cs,
  )

AreDistinct-append : (xs ys : Nodes) → AreDistinct (xs ++ ys) → AreDistinct xs × AreDistinct ys
unfolding AreDistinct
AreDistinct-append [] ys h = (tt, h)
AreDistinct-append ((k, n) ∷ xs) ys (new, h) =
    let (a, b) = AreDistinct-append xs ys h in ((ground (arith, has-append k xs ys), a), b)

-- A txid that is not in a map is not one that is.
apart : (j k : String) (m : Nodes) → has j m ≡ false → has k m ≡ true → str_eq j k ≡ false
apart j k m h h' = elim (Bool-cases (str_eq j k)) [
  | inl e ↦
      absurd (ground (arith, subst (λ (s : String). has s m ≡ false) ((eq_iff j k).0 e) h, h'))
  | inr e ↦ e
]

module _ (all : Nodes) where
  -- The children, or the last of them, of a stored node.
  record IsParent (j : String) (cs : Children) : Type 0 where
    n : DecodedTxTreeNode
    at : node_at j all ≡ some n
    its : (k : String) → has_child k (child_txids cs) ≡ true → has_child k n.txids ≡ true
    away : (k : String) → has_child k (child_txids cs) ≡ true → str_eq j k ≡ false

  IsParent-tail :
      (j : String) (i : ℕ) (t : TxTree) (cs : Children) → IsParent j (child i t cs) → IsParent j cs
  IsParent-tail j i t cs h = record {
    n = h.n;
    at = h.at;
    its = λ k e. h.its k (ground arith);
    away = λ k e. h.away k (ground arith);
  }

  -- No txid below a node is a root.
  no_root :
      (j : String) (cs : Children)
      → IsParent j cs
      → AreStored all cs
      → AreDistinct (entries_children cs)
      → root_txids all (entries_children cs) ≡ []
  unfolding entries IsStored
  no_root j no_child h st d = refl
  no_root j (child i (node p ds) cs) h ((at, below), st) d =
      let x : String × DecodedTxTreeNode = (p.tx_id, record { tx = p; txids = child_txids ds }) in
      let (d1, d2) = AreDistinct-append (entries_children ds ++ x ∷ []) (entries_children cs) d in
      let (d3, d4) = AreDistinct-append (entries_children ds) (x ∷ []) d1 in
      let new = has-AreDistinct (entries_children ds) p.tx_id _ [] d1 in
      let mine : IsParent p.tx_id ds = record {
        n = record { tx = p; txids = child_txids ds };
        at = at;
        its = λ k e. e;
        away = λ k e. apart p.tx_id k (entries_children ds) new (has-child_txids ds k e);
      } in
      let first : has_child p.tx_id (child_txids (child i (node p ds) cs)) ≡ true =
        ground (arith, eq_iff p.tx_id p.tx_id) in
      let taken =
        is_child-node_at all p.tx_id j h.n h.at (h.away p.tx_id first) (h.its p.tx_id first) in
      let inside = no_root p.tx_id ds mine below d3 in
      let after = no_root j cs (IsParent-tail j i (node p ds) cs h) st d2 in
      root_txids-append all (entries_children ds ++ x ∷ []) (entries_children cs)
      ∙ ap (λ l. l ++ root_txids all (entries_children cs))
          (root_txids-append all (entries_children ds) (x ∷ []))
      ∙ rw (inside, taken) after

-- The root of a tree is the one root of its nodes.
root_txids-entries :
    (t : TxTree)
    → AreDistinct (entries t)
    → root_txids (entries t) (entries t) ≡ (root t).tx_id ∷ []
unfolding entries IsStored
root_txids-entries (node p cs) d =
    let t = node p cs in
    let x : String × DecodedTxTreeNode = (p.tx_id, record { tx = p; txids = child_txids cs }) in
    let (d1, d2) = AreDistinct-append (entries_children cs) (x ∷ []) d in
    let new = has-AreDistinct (entries_children cs) p.tx_id _ [] d in
    let (at, below) = stored t (entries t) [] [] (sym (append-nil (entries t))) d in
    let mine : IsParent (entries t) p.tx_id cs = record {
      n = record { tx = p; txids = child_txids cs };
      at = at;
      its = λ k e. e;
      away = λ k e. apart p.tx_id k (entries_children cs) new (has-child_txids cs k e);
    } in
    let free : is_child p.tx_id (entries t) ≡ false = ground (
      arith,
      is_child-append p.tx_id (entries_children cs) (x ∷ []),
      not_children p.tx_id cs new,
      eq_iff p.tx_id p.tx_id,
    ) in
    root_txids-append (entries t) (entries_children cs) (x ∷ [])
    ∙ rw (no_root (entries t) p.tx_id cs mine below d1, free) refl

mutual
  unfolding serialize_tree count_nodes

  length_tree :
      (encode : Psbt → Option String) (t : TxTree) (ns : FlatTxTree)
      → serialize_tree encode t ≡ ok ns
      → length ns ≡ count_nodes t
  length_tree encode (node p cs) ns h =
      let (first, e, h1) = >>=-eq-ok (serialize_children encode cs) _ h in
      let (n, e', h2) = >>=-eq-ok (from_encoded (encode p) p (child_txids cs)) _ h1 in
      let same : first ++ n ∷ [] ≡ ns = ground (arith, h2) in
      omega (arith, ap length same, length-append first (n ∷ []), length_children encode cs first e)

  length_children :
      (encode : Psbt → Option String) (cs : Children) (ns : FlatTxTree)
      → serialize_children encode cs ≡ ok ns
      → length ns ≡ count_children cs
  length_children encode no_child ns h =
      let none_left : ns ≡ [] = ground (arith, h) in ap length none_left
  length_children encode (child i t cs) ns h =
      let (first, e, h1) = >>=-eq-ok (serialize_tree encode t) _ h in
      let (second, e', h2) = >>=-eq-ok (serialize_children encode cs) _ h1 in
      let same : first ++ second ≡ ns = ground (arith, h2) in
      omega (
        arith,
        ap length same,
        length-append first second,
        length_tree encode t first e,
        length_children encode cs second e',
      )

count_nodes_pos : (t : TxTree) → 1 ≤ count_nodes t
unfolding count_nodes
count_nodes_pos (node p cs) = omega arith

-- If what is encoded is decoded, and no two transactions of a tree have the same txid, then `NewTxTree` of
-- the nodes that `Serialize` returns is the tree; the fuel that is enough is the sum of the numbers of
-- levels below the root, and one.
pub new_tx_tree-serialize_tree :
    (encode : Psbt → Option String) (decode : String → Option Psbt) (t : TxTree) (ns : FlatTxTree)
    (fuel : ℕ)
    → IsCodec encode decode
    → AreDistinct (entries t)
    → serialize_tree encode t ≡ ok ns
    → depth t ≤ fuel
    → new_tx_tree decode fuel ns ≡ some (ok t)
unfolding new_tx_tree
new_tx_tree-serialize_tree encode decode t [] fuel codec d h le =
    absurd (omega (arith, length_tree encode t [] h, count_nodes_pos t))
new_tx_tree-serialize_tree encode decode t (n ∷ ns) fuel codec d h le =
    let (e, e') = build_tree-serialize_tree encode decode t (n ∷ ns) fuel codec d h le in
    let len = length_tree encode t (n ∷ ns) h in
    let same : (count_nodes t == length (n ∷ ns)) ≡ true = ground (arith, len) in
    rw e (rw (root_txids-entries t d) (rw e' (rw same refl)))
