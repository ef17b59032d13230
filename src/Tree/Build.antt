-- ===== src/Tree/Build.antt =====
-- pkg/ark-lib/tree/tx_tree.go: the flat representation of a tree, and the tree of a flat representation.
-- `buildTree` follows the children with no bound, so it is a function on fuel, and `none` is that the fuel
-- ran out. The decoding and the encoding of a transaction are parameters.
pub mod Fuel
pub mod RoundTrip
pub mod Roots
use arkd.Base.{
  ℕ, zero, suc, String, Bool, true, false, List, [], ◌∷◌, ◌++◌, Option, none, some, ◌==◌, str_eq,
  if◌then◌else◌, length,
}
use arkd.Base.Results.{Result, ok, err, ◌>>=◌}
use arkd.Base.Maps.{insert}
use arkd.Domain.Types.{TxTreeNode, FlatTxTree}
use arkd.Tree.{
  Psbt, TxTree, node, Children, no_child, child, TreeError, no_root_found, multiple_roots_found,
  subtree_not_found, number_of_nodes, missing_tx_tree, failed_to_decode, failed_to_encode, root,
  count_nodes,
}

pub record DecodedTxTreeNode : Type 0 where
  pub tx : Psbt
  pub txids : List (ℕ × String)

abbrev pub Nodes : Type 0
Nodes = List (String × DecodedTxTreeNode)

-- The txids of the children, by the index of the output.
abbrev pub child_txids : Children → List (ℕ × String)
child_txids no_child = []
child_txids (child i t cs) = (i, (root t).tx_id) ∷ child_txids cs

abbrev pub from_encoded : Option String → Psbt → List (ℕ × String) → Result TreeError TxTreeNode
from_encoded none p txids = err failed_to_encode
from_encoded (some s) p txids = ok (record { txid = p.tx_id; tx = s; children = txids })

module _ (encode : Psbt → Option String) where
  abbrev pub serialize_node : TxTree → Result TreeError TxTreeNode
  serialize_node (node p cs) = from_encoded (encode p) p (child_txids cs)

  -- The method `Serialize`: the nodes of the children come before their parent's.
  unfoldable mutual
    pub serialize_tree : TxTree → Result TreeError FlatTxTree
    serialize_tree (node p cs) =
        let nodes = serialize_children cs in
        nodes >>= λ ns. serialize_node (node p cs) >>= λ n. ok (ns ++ n ∷ [])

    pub serialize_children : Children → Result TreeError FlatTxTree
    serialize_children no_child = ok []
    serialize_children (child i t cs) =
        let first = serialize_tree t in
        let rest = serialize_children cs in first >>= λ ns. rest >>= λ ms. ok (ns ++ ms)

-- `nodesByTxid[txid]`
abbrev pub node_at : String → Nodes → Option DecodedTxTreeNode
node_at k [] = none
node_at k ((j, n) ∷ m) = if str_eq j k then some n else node_at k m

-- The method `hasChild`, on the children of a node.
abbrev pub has_child : String → List (ℕ × String) → Bool
has_child txid [] = false
has_child txid ((i, c) ∷ cs) = if str_eq c txid then true else has_child txid cs

-- Whether a node other than its own has the txid as a child.
abbrev pub is_child : String → Nodes → Bool
is_child txid [] = false
is_child txid ((j, n) ∷ m) =
    if str_eq j txid
    then is_child txid m
    else if has_child txid n.txids
    then true
    else is_child txid m

-- The txids of the nodes that are not the child of another one.
abbrev pub root_txids : Nodes → Nodes → List String
root_txids all [] = []
root_txids all ((j, n) ∷ m) = if is_child j all then root_txids all m else j ∷ root_txids all m

-- A child whose node is missing is left out.
abbrev pub add_built : ℕ → Option (Option TxTree) → Option Children → Option Children
add_built i none cs = none
add_built i (some none) cs = cs
add_built i (some (some t)) none = none
add_built i (some (some t)) (some cs) = some (child i t cs)

pub build_children : (String → Option (Option TxTree)) → List (ℕ × String) → Option Children
build_children build [] = some no_child
build_children build ((i, c) ∷ cs) = add_built i (build c) (build_children build cs)

abbrev pub with_children : Psbt → Option Children → Option (Option TxTree)
with_children p none = none
with_children p (some cs) = some (some (node p cs))

abbrev pub build_node :
    (String → Option (Option TxTree)) → Option DecodedTxTreeNode → Option (Option TxTree)
build_node build none = some none
build_node build (some n) = with_children n.tx (build_children build n.txids)

-- The function `buildTree`; `some none` is the nil tree.
pub build_tree : Nodes → ℕ → String → Option (Option TxTree)
build_tree m zero txid = none
build_tree m (suc fuel) txid = build_node (build_tree m fuel) (node_at txid m)

module _ (decode : String → Option Psbt) where
  abbrev pub store : Option Psbt → List (ℕ × String) → Nodes → Result TreeError Nodes
  store none txids m = err failed_to_decode
  store (some p) txids m = ok (insert p.tx_id (record { tx = p; txids = txids }) m)

  -- The loop of `NewTxTree` that decodes the nodes.
  unfoldable pub decode_nodes : FlatTxTree → Nodes → Result TreeError Nodes
  decode_nodes [] m = ok m
  decode_nodes (n ∷ ns) m = store (decode n.tx) n.children m >>= λ m'. decode_nodes ns m'

  -- The check of the tree that is checked.
  abbrev pub checked : ℕ → Option (Option TxTree) → Option (Result TreeError TxTree)
  checked n none = none
  checked n (some none) = some (err subtree_not_found)
  checked n (some (some t)) = some (if count_nodes t == n then ok t else err number_of_nodes)

  abbrev pub from_root : ℕ → Nodes → ℕ → List String → Option (Result TreeError TxTree)
  from_root fuel m n [] = some (err no_root_found)
  from_root fuel m n (r ∷ []) = checked n (build_tree m fuel r)
  from_root fuel m n (r ∷ s ∷ rs) = some (err multiple_roots_found)

  abbrev pub from_nodes : ℕ → ℕ → Result TreeError Nodes → Option (Result TreeError TxTree)
  from_nodes fuel n (err e) = some (err e)
  from_nodes fuel n (ok m) = from_root fuel m n (root_txids m m)

  -- The function `NewTxTree`.
  pub new_tx_tree : ℕ → FlatTxTree → Option (Result TreeError TxTree)
  new_tx_tree fuel [] = some (err missing_tx_tree)
  new_tx_tree fuel (n ∷ ns) = from_nodes fuel (length (n ∷ ns)) (decode_nodes (n ∷ ns) [])
