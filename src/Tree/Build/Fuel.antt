-- ===== src/Tree/Build/Fuel.antt =====
-- Where `buildTree` ends, and where it does not (pkg/ark-lib/tree/tx_tree.go).
use arkd.Base.{
  ℕ, zero, suc, ◌<◌, ◌≡◌, ◌≢◌, refl, ap, String, Bool, true, List, [], ◌∷◌, Option, none, some,
  str_eq, eq_iff, arith, Bool-cases, Option-cases, inl, inr,
}
use arkd.Base.Results.{ok}
use arkd.Domain.Types.{FlatTxTree}
use arkd.Tree.{TxTree, Psbt, Children, child, no_child, node}
use arkd.Tree.Build.{
  DecodedTxTreeNode, Nodes, node_at, has_child, root_txids, add_built, build_children, build_tree,
  decode_nodes, new_tx_tree,
}

module _ (m : Nodes) (rank : String → ℕ) where
  -- Every child of a node has a lower rank than the node.
  unfoldable pub IsRanked : Type 0
  IsRanked =
      (txid : String) (n : DecodedTxTreeNode)
      → node_at txid m ≡ some n
      → (c : String) → has_child c n.txids ≡ true
      → rank c < rank txid

  added_child :
      (i : ℕ) (o : Option TxTree) (ts : Children)
      → (us : Children) × (add_built i (some o) (some ts) ≡ some us)
  added_child i none ts = (ts, refl)
  added_child i (some t) ts = (child i t ts, refl)

  builds_children :
      (build : String → Option (Option TxTree)) (cs : List (ℕ × String))
      → ((c : String) → has_child c cs ≡ true → (o : Option TxTree) × (build c ≡ some o))
      → (ts : Children) × (build_children build cs ≡ some ts)
  unfolding build_children
  builds_children build [] h = (no_child, refl)
  builds_children build ((i, c) ∷ cs) h =
      let (ts, e) = builds_children build cs (λ d k. h d (ground (arith, k))) in
      let (o, e') = h c (ground (arith, eq_iff c c)) in rw (e, e') (added_child i o ts)

  builds :
      IsRanked
      → (fuel : ℕ) (txid : String) → rank txid < fuel
      → (o : Option TxTree) × (build_tree m fuel txid ≡ some o)
  unfolding build_tree IsRanked
  builds h zero txid lt = absurd (omega arith)
  builds h (suc fuel) txid lt = elim (Option-cases (node_at txid m)) [
    | inl missing ↦ (none, rw missing refl)
    | inr (n, e) ↦
        let (ts, e') =
          builds_children (build_tree m fuel) n.txids
            (λ c k. builds h fuel c (omega (arith, h txid n e c k))) in
        (some (node n.tx ts), rw e (rw e' refl))
  ]

  -- Where every child of a node has a lower rank than the node, `buildTree` ends: fuel above the rank of
  -- a txid is enough for it.
  pub build_tree-IsRanked :
      IsRanked → (fuel : ℕ) (txid : String) → rank txid < fuel → build_tree m fuel txid ≢ none
  build_tree-IsRanked h fuel txid lt =
      let (o, e) = builds h fuel txid lt in λ k. ground (arith, e, k)

module _ (m : Nodes) (on : String → Bool) where
  -- Some txids of which each is of a node with a child among them.
  unfoldable pub IsEndless : Type 0
  IsEndless =
      (txid : String)
      → on txid ≡ true
      → (n : DecodedTxTreeNode) × (c : String) × (node_at txid m ≡ some n)
        × (has_child c n.txids ≡ true)
        × (on c ≡ true)

  starved_add :
      (i : ℕ) (b : Option (Option TxTree)) (cs : Option Children)
      → cs ≡ none
      → add_built i b cs ≡ none
  starved_add i none cs e = refl
  starved_add i (some none) cs e = e
  starved_add i (some (some t)) none e = refl
  starved_add i (some (some t)) (some ts) e = absurd (ground arith)

  starved_children :
      (build : String → Option (Option TxTree)) (c : String) (cs : List (ℕ × String))
      → build c ≡ none
      → has_child c cs ≡ true
      → build_children build cs ≡ none
  unfolding build_children
  starved_children build c [] e h = absurd (ground arith)
  starved_children build c ((i, d) ∷ cs) e h = elim (Bool-cases (str_eq d c)) [
    | inl here ↦ let same : d ≡ c = (eq_iff d c).0 here in rw (ap build same, e) refl
    | inr there ↦ starved_add i (build d) _ (starved_children build c cs e (ground arith))
  ]

  starved : IsEndless → (fuel : ℕ) (txid : String) → on txid ≡ true → build_tree m fuel txid ≡ none
  unfolding build_tree IsEndless
  starved h zero txid k = refl
  starved h (suc fuel) txid k =
      let (n, c, e, i, k') = h txid k in
      let none_left = starved_children (build_tree m fuel) c n.txids (starved h fuel c k') i in
      rw e (rw none_left refl)

empty_nodes :
    (decode : String → Option Psbt) (m : Nodes) → decode_nodes decode [] [] ≡ ok m → m ≡ []
unfolding decode_nodes
empty_nodes decode m h = ground (arith, h)

-- Where the one root that `NewTxTree` finds is among txids of which each is of a node with a child among
-- them, no fuel is enough: the code does not return.
pub new_tx_tree-IsEndless :
    (decode : String → Option Psbt) (flat : FlatTxTree) (m : Nodes) (r : String)
    (on : String → Bool)
    → decode_nodes decode flat [] ≡ ok m
    → root_txids m m ≡ r ∷ []
    → IsEndless m on
    → on r ≡ true
    → (fuel : ℕ) → new_tx_tree decode fuel flat ≡ none
unfolding new_tx_tree
new_tx_tree-IsEndless decode [] m r on d one h k fuel =
    let e : m ≡ [] = empty_nodes decode m d in
    absurd (ground (arith, ap (λ x. root_txids x x) e, one))
new_tx_tree-IsEndless decode (n ∷ ns) m r on d one h k fuel =
    rw d (rw one (rw (starved m on h fuel r k) refl))
