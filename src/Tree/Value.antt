-- ===== src/Tree/Value.antt =====
-- The value of the outputs that a tree leaves unspent (pkg/ark-lib/tree/tx_tree.go).
use arkd.Base.{
  ℕ, zero, suc, ◌+◌, ◌%◌, ◌^◌, ◌<◌, ◌≡◌, ◌∙◌, refl, sym, ap, Bool, true, false, List, [], ◌∷◌, none,
  some, ◌==◌, if◌then◌else◌, get_elem?, arith,
}
use arkd.Tree.{Psbt, TxTree, node, Children, no_child, child, root, validate_tree}
use arkd.Tree.Validation.{sum, IsValid, AreValid, validate_tree-IsValid}

abbrev pub has_key : ℕ → Children → Bool
has_key k no_child = false
has_key k (child i t cs) = if i == k then true else has_key k cs

-- The children of every node have different indexes, as the keys of a map do.
unfoldable mutual
  pub IsKeyed : TxTree → Type 0
  IsKeyed (node p cs) = AreKeyed cs

  pub AreKeyed : Children → Type 0
  AreKeyed no_child = Unit
  AreKeyed (child i t cs) = (has_key i cs ≡ false) × IsKeyed t × AreKeyed cs

-- The value of the outputs, from an index on, that no child spends.
pub remaining : ℕ → Children → List ℕ → ℕ
remaining k cs [] = 0
remaining k cs (v ∷ vs) =
    let rest = remaining (suc k) cs vs in if has_key k cs then rest else v + rest

-- The value of all the outputs of a tree that no transaction of it spends.
unfoldable mutual
  pub unspent : TxTree → ℕ
  unspent (node p cs) = remaining 0 cs p.tx_out + unspent_children cs

  pub unspent_children : Children → ℕ
  unspent_children no_child = 0
  unspent_children (child i t cs) = unspent t + unspent_children cs

remaining-no_child : (k : ℕ) (vs : List ℕ) → remaining k no_child vs ≡ sum vs
unfolding remaining sum
remaining-no_child k [] = refl
remaining-no_child k (v ∷ vs) = omega (arith, remaining-no_child (suc k) vs)

-- A child changes nothing for the outputs after its own.
remaining_past :
    (k i : ℕ) (t : TxTree) (cs : Children) (vs : List ℕ)
    → i < k
    → remaining k (child i t cs) vs ≡ remaining k cs vs
unfolding remaining
remaining_past k i t cs [] lt = refl
remaining_past k i t cs (v ∷ vs) lt =
    let ih = remaining_past (suc k) i t cs vs (omega arith) in ground (arith, ih)

-- A child takes the value of its output.
remaining-child :
    (k j i : ℕ) (t : TxTree) (cs : Children) (vs : List ℕ) (v : ℕ)
    → i ≡ k + j
    → get_elem? vs j ≡ some v
    → has_key i cs ≡ false
    → remaining k cs vs ≡ remaining k (child i t cs) vs + v
unfolding remaining
remaining-child k j i t cs [] v e at new = absurd (ground arith)
remaining-child k zero i t cs (w ∷ ws) v e at new =
    let here : i ≡ k = omega arith in
    let new' : has_key k cs ≡ false = ap (λ x. has_key x cs) (sym here) ∙ new in
    ground (arith, remaining_past (suc k) i t cs ws (omega arith), new', here)
remaining-child k (suc j) i t cs (w ∷ ws) v e at new =
    let ih = remaining-child (suc k) j i t cs ws v (omega arith) at new in ground (arith, ih)

mutual
  unfolding unspent IsValid IsKeyed

  conserved :
      (t : TxTree) → IsValid t → IsKeyed t → unspent t % 2 ^ 64 ≡ sum (root t).tx_out % 2 ^ 64
  conserved (node p cs) (a, b) h = conserved_children p cs b h

  conserved_children :
      (p : Psbt) (cs : Children)
      → AreValid p cs
      → AreKeyed cs
      → (remaining 0 cs p.tx_out + unspent_children cs) % 2 ^ 64 ≡ sum p.tx_out % 2 ^ 64
  conserved_children p no_child a h = omega (arith, remaining-no_child 0 p.tx_out)
  conserved_children p (child i t cs) (a, b, c) (new, k, ks) =
      let taken =
        remaining-child 0 i i t cs p.tx_out (sum (root t).tx_out % 2 ^ 64) (omega arith) a.value
          new in
      omega (arith, taken, conserved t b k, conserved_children p cs c ks)

-- In a tree that `Validate` accepts, the outputs that no transaction of the tree spends add up to the
-- outputs of its root, modulo 2^64.
pub unspent-validate_tree :
    (t : TxTree)
    → IsKeyed t
    → validate_tree t ≡ none
    → unspent t % 2 ^ 64 ≡ sum (root t).tx_out % 2 ^ 64
unspent-validate_tree t keys h = conserved t ((validate_tree-IsValid t).0 h) keys
