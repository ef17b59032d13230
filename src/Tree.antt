-- ===== src/Tree.antt =====
-- pkg/ark-lib/tree/tx_tree.go: trees of transactions. The decoding and the encoding of a transaction are
-- parameters. Amounts are the 64 bits of an int64, as a number below 2^64. The children of a node, a map
-- in the code, are a list in the order of its iteration. A node without a transaction, `Find`,
-- `FindInput` and `Apply` are left out.
pub mod Validation
pub mod Value
pub mod Sub
pub mod Build
mod Examples
use arkd.Base.{
  ℕ, zero, suc, ◌+◌, ◌-◌, ◌%◌, ◌^◌, String, Bool, true, false, not, ◌&&◌, List, [], ◌∷◌, ◌++◌,
  Option, none, some, ltb, leb, ◌==◌, str_eq, if◌then◌else◌, is_nil, length, get_elem?,
}
use arkd.Base.Results.{Result, ok, err, ◌>>=◌}
use arkd.Base.Maps.{insert, has}
use arkd.Domain.Types.{TxTreeNode, FlatTxTree}

-- wire.OutPoint of the one input.
pub record Previous : Type 0 where
  pub hash : String
  pub index : ℕ

-- What the trees read of a psbt.Packet: the txid, the version, the inputs' outpoints and the
-- outputs' values.
pub record Psbt : Type 0 where
  pub tx_id : String
  pub version : ℕ
  pub tx_in : List Previous
  pub tx_out : List ℕ

mutual
  pub data TxTree : Type 0 where
    node : Psbt → Children → TxTree

  -- The children, each with the index of the output that it spends.
  pub data Children : Type 0 where
    no_child : Children
    child : ℕ → TxTree → Children → Children

pub data TreeError : Type 0 where
  unexpected_version : TreeError
  unexpected_number_of_inputs : TreeError
  unexpected_number_of_children : TreeError
  output_index_out_of_bounds : TreeError
  not_output_of_parent : TreeError
  sum_not_equal_to_output : TreeError
  no_txids_provided : TreeError
  missing_tx_tree : TreeError
  failed_to_decode : TreeError
  failed_to_encode : TreeError
  no_root_found : TreeError
  multiple_roots_found : TreeError
  subtree_not_found : TreeError
  number_of_nodes : TreeError

abbrev pub root : TxTree → Psbt
root (node p cs) = p

abbrev pub children_of : TxTree → Children
children_of (node p cs) = cs

abbrev pub count : Children → ℕ
count no_child = 0
count (child i t cs) = suc (count cs)

unfoldable mutual
  pub count_nodes : TxTree → ℕ
  count_nodes (node p cs) = suc (count_children cs)

  pub count_children : Children → ℕ
  count_children no_child = 0
  count_children (child i t cs) = count_nodes t + count_children cs

unfoldable mutual
  pub tree_leaves : TxTree → List Psbt
  tree_leaves (node p no_child) = p ∷ []
  tree_leaves (node p (child i t cs)) = tree_leaves t ++ children_leaves cs

  pub children_leaves : Children → List Psbt
  children_leaves no_child = []
  children_leaves (child i t cs) = tree_leaves t ++ children_leaves cs

-- `sum += value`, for each of the values.
pub sum64_from : ℕ → List ℕ → ℕ
sum64_from sum [] = sum
sum64_from sum (v ∷ vs) = sum64_from ((sum + v) % 2 ^ 64) vs

abbrev pub or_error : Option TreeError → Option TreeError → Option TreeError
or_error (some e) later = some e
or_error none later = later

-- Whether the first input is an output of a transaction.
abbrev pub spends : Psbt → ℕ → List Previous → Bool
spends p i [] = false
spends p i (o ∷ os) = str_eq o.hash p.tx_id && (o.index == i)

-- The check of a child's own transaction against its parent's.
abbrev pub check_child : Psbt → ℕ → Psbt → Option TreeError
check_child p i c =
    if not (spends p i c.tx_in) then some not_output_of_parent else elim (get_elem? p.tx_out i) [
      | some v ↦ if sum64_from 0 c.tx_out == v then none else some sum_not_equal_to_output
      | none ↦ some output_index_out_of_bounds
    ]

-- The checks of one transaction, where the uint32 number of outputs less one wraps around.
abbrev pub check_root : Psbt → ℕ → Option TreeError
check_root p nb_children =
    let nb_of_outputs = length p.tx_out % 2 ^ 32 in
    if not (p.version == 3)
    then some unexpected_version
    else if not (length p.tx_in % 2 ^ 32 == 1)
    then some unexpected_number_of_inputs
    else if ltb ((nb_of_outputs + (2 ^ 32 - 1)) % 2 ^ 32) nb_children
    then some unexpected_number_of_children
    else none

-- The method `Validate`; `none` is no error.
unfoldable mutual
  pub validate_tree : TxTree → Option TreeError
  validate_tree (node p cs) = or_error (check_root p (count cs)) (validate_children p cs)

  pub validate_children : Psbt → Children → Option TreeError
  validate_children p no_child = none
  validate_children p (child i t cs) =
      let inside = validate_tree t in
      let rest = validate_children p cs in
      if leb (length p.tx_out % 2 ^ 32) i
      then some output_index_out_of_bounds
      else or_error inside (or_error (check_child p i (root t)) rest)

abbrev pub has_txid : String → List String → Bool
has_txid id [] = false
has_txid id (x ∷ xs) = if str_eq x id then true else has_txid id xs

-- A child that is kept if its sub-tree leads to a target.
abbrev pub add_child : ℕ → Option TxTree → Children → Children
add_child i none cs = cs
add_child i (some t) cs = child i t cs

abbrev pub or_nothing : Psbt → Children → Option TxTree
or_nothing p no_child = none
or_nothing p (child i t cs) = some (node p (child i t cs))

unfoldable mutual
  pub build_sub_tree : List String → TxTree → Option TxTree
  build_sub_tree targets (node p cs) =
      let below = build_sub_children targets cs in
      if has_txid p.tx_id targets then some (node p no_child) else or_nothing p below

  pub build_sub_children : List String → Children → Children
  build_sub_children targets no_child = no_child
  build_sub_children targets (child i t cs) =
      add_child i (build_sub_tree targets t) (build_sub_children targets cs)

-- The method `SubTree`; `ok none` is the nil tree.
abbrev pub sub_tree : List String → TxTree → Result TreeError (Option TxTree)
sub_tree [] t = err no_txids_provided
sub_tree (x ∷ xs) t = ok (build_sub_tree (x ∷ xs) t)
