-- ===== src/Tree/Examples.antt =====
-- A root with two outputs, and a child that spends the first one.
use arkd.Base.{
  ℕ, ◌%◌, ◌^◌, ◌≤◌, ◌<◌, ◌≡◌, ◌↔◌, refl, ap, subst, String, Bool, true, ◌&&◌, List, [], ◌∷◌, Option,
  none, some, ◌==◌, str_eq, eq_iff, if◌then◌else◌, is_nil, arith, Bool-cases, inl, inr,
}
use arkd.Base.Results.{ok}
use arkd.Domain.Types.{FlatTxTree}
use arkd.Tree.{Psbt, TxTree, node, no_child, child, validate_tree, sum64_from}
use arkd.Tree.Validation.{IsValid, sum, validate_tree-IsValid}
use arkd.Tree.Value.{IsKeyed, unspent, unspent-validate_tree}
use arkd.Tree.Build.{Nodes, has_child, decode_nodes, serialize_tree, new_tx_tree}
use arkd.Tree.Build.Fuel.{IsRanked, IsEndless, new_tx_tree-IsEndless}
use arkd.Tree.Build.RoundTrip.{IsCodec, AreDistinct, entries, depth}
use arkd.Tree.Build.Roots.{new_tx_tree-serialize_tree}

abbrev root_tx : Psbt
root_tx = record {
  tx_id = "r";
  version = 3;
  tx_in = record { hash = "b"; index = 0 } ∷ [];
  tx_out = 900 ∷ 100 ∷ 0 ∷ [];
}

abbrev leaf_tx : Psbt
leaf_tx = record {
  tx_id = "l";
  version = 3;
  tx_in = record { hash = "r"; index = 0 } ∷ [];
  tx_out = 900 ∷ 0 ∷ [];
}

abbrev tree : TxTree
tree = node root_tx (child 0 (node leaf_tx no_child) no_child)

validate_tree-IsValid_example : (validate_tree tree ≡ none) ↔ IsValid tree
validate_tree-IsValid_example = validate_tree-IsValid tree

accepted : validate_tree tree ≡ none
unfolding validate_tree sum64_from
accepted = refl

keyed : IsKeyed tree
unfolding IsKeyed
keyed = (refl, tt, tt)

unspent-validate_tree_example : unspent tree % 2 ^ 64 ≡ sum (900 ∷ 100 ∷ 0 ∷ []) % 2 ^ 64
unspent-validate_tree_example = unspent-validate_tree tree keyed accepted

-- A transaction with no inputs and no outputs, written as its txid.
abbrev bare : String → Psbt
bare s = record { tx_id = s; version = 3; tx_in = []; tx_out = [] }

abbrev encode : Psbt → Option String
encode p = if (p.version == 3) && (is_nil p.tx_in && is_nil p.tx_out) then some p.tx_id else none

abbrev decode : String → Option Psbt
decode s = some (bare s)

is_nil-eq {ℓ} : {A : Type ℓ} (xs : List A) → is_nil xs ≡ true → xs ≡ []
is_nil-eq [] h = refl
is_nil-eq (x ∷ xs) h = absurd (ground arith)

codec : IsCodec encode decode
unfolding IsCodec
codec p s h =
    let version : p.version ≡ 3 = ground (arith, h) in
    let tx_in : p.tx_in ≡ [] = is_nil-eq p.tx_in (ground (arith, h)) in
    let tx_out : p.tx_out ≡ [] = is_nil-eq p.tx_out (ground (arith, h)) in
    let tx_id : s ≡ p.tx_id = ground (arith, h) in cc

abbrev bare_tree : TxTree
bare_tree = node (bare "r") (child 0 (node (bare "l") no_child) no_child)

abbrev flat : FlatTxTree
flat =
    record { txid = "l"; tx = "l"; children = [] }
    ∷ record { txid = "r"; tx = "r"; children = (0, "l") ∷ [] }
    ∷ []

distinct : AreDistinct (entries bare_tree)
unfolding AreDistinct entries
distinct = (refl, (refl, tt))

serialized : serialize_tree encode bare_tree ≡ ok flat
unfolding serialize_tree
serialized = refl

deep : depth bare_tree ≤ 2
unfolding depth
deep = omega arith

new_tx_tree-serialize_tree_example : new_tx_tree decode 2 flat ≡ some (ok bare_tree)
new_tx_tree-serialize_tree_example =
    new_tx_tree-serialize_tree encode decode bare_tree flat 2 codec distinct serialized deep

abbrev nodes : Nodes
nodes =
    ("l", record { tx = bare "l"; txids = [] })
    ∷ ("r", record { tx = bare "r"; txids = (0, "l") ∷ [] })
    ∷ []

abbrev rank : String → ℕ
rank s = if str_eq s "r" then 1 else 0

ranked : IsRanked nodes rank
unfolding IsRanked
ranked txid n at c h = elim (Bool-cases (str_eq "l" txid)) [
  | inl e ↦
      let leaf : n.txids ≡ [] = ground (arith, at, e) in
      absurd (ground (arith, ap (λ l. has_child c l) leaf, h))
  | inr e ↦ elim (Bool-cases (str_eq "r" txid)) [
    | inr e' ↦ absurd (ground (arith, at, e, e'))
    | inl e' ↦
        let one : n.txids ≡ (0, "l") ∷ [] = ground (arith, at, e, e') in
        let l : "l" ≡ c = ground (arith, ap (λ l. has_child c l) one, h, eq_iff "l" c) in
        let r : "r" ≡ txid = (eq_iff "r" txid).0 e' in
        subst (λ x. rank x < rank txid) l (subst (λ x. rank "l" < rank x) r (omega arith))
  ]
]

-- A root with a child that is its own child.
abbrev endless : FlatTxTree
endless =
    record { txid = "r"; tx = "r"; children = (0, "l") ∷ [] }
    ∷ record { txid = "l"; tx = "l"; children = (0, "l") ∷ [] }
    ∷ []

abbrev endless_nodes : Nodes
endless_nodes =
    ("r", record { tx = bare "r"; txids = (0, "l") ∷ [] })
    ∷ ("l", record { tx = bare "l"; txids = (0, "l") ∷ [] })
    ∷ []

abbrev on : String → Bool
on s = if str_eq s "r" then true else str_eq s "l"

nodes-IsEndless : IsEndless endless_nodes on
unfolding IsEndless
nodes-IsEndless txid h = elim (Bool-cases (str_eq "r" txid)) [
  | inl e ↦ (record { tx = bare "r"; txids = (0, "l") ∷ [] }, "l", rw e refl, refl, refl)
  | inr e ↦
      let l : str_eq "l" txid ≡ true =
        ground (arith, h, e, eq_iff "r" txid, eq_iff txid "r", eq_iff "l" txid, eq_iff txid "l") in
      (record { tx = bare "l"; txids = (0, "l") ∷ [] }, "l", rw (e, l) refl, refl, refl)
]

decoded : decode_nodes decode endless [] ≡ ok endless_nodes
unfolding decode_nodes
decoded = refl

new_tx_tree-IsEndless_example : new_tx_tree decode 100 endless ≡ none
new_tx_tree-IsEndless_example =
    new_tx_tree-IsEndless decode endless endless_nodes "r" on decoded refl nodes-IsEndless refl 100
