-- ===== src/Tree/Validation.antt =====
-- What `Validate` accepts (pkg/ark-lib/tree/tx_tree.go).
use arkd.Base.{
  ℕ, zero, suc, ◌+◌, ◌-◌, ◌%◌, ◌^◌, ◌≤◌, ◌<◌, ◌≡◌, ◌∙◌, ◌↔◌, refl, sym, ap, true, false, List, [],
  ◌∷◌, Option, none, some, leb, eq_iff, length, get_elem?, arith, Bool-cases, Option-cases, inl,
  inr,
}
use arkd.Tree.{
  Previous, Psbt, TxTree, node, Children, no_child, child, TreeError, root, count, sum64_from,
  or_error, spends, check_child, check_root, validate_tree, validate_children,
}

unfoldable pub sum : List ℕ → ℕ
sum [] = 0
sum (v ∷ vs) = v + sum vs

sum64_from_lem : (acc : ℕ) (vs : List ℕ) → sum64_from acc vs % 2 ^ 64 ≡ (acc + sum vs) % 2 ^ 64
unfolding sum64_from sum
sum64_from_lem acc [] = omega arith
sum64_from_lem acc (v ∷ vs) = omega (arith, sum64_from_lem ((acc + v) % 2 ^ 64) vs)

sum64_from_lt : (acc : ℕ) (vs : List ℕ) → acc < 2 ^ 64 → sum64_from acc vs < 2 ^ 64
unfolding sum64_from
sum64_from_lt acc [] h = h
sum64_from_lt acc (v ∷ vs) h = sum64_from_lt ((acc + v) % 2 ^ 64) vs (omega arith)

pub sum64 : (vs : List ℕ) → sum64_from 0 vs ≡ sum vs % 2 ^ 64
sum64 vs = omega (arith, sum64_from_lem 0 vs, sum64_from_lt 0 vs (omega arith))

-- A transaction of a tree: version 3, one input, and no more children than outputs without the anchor.
pub record IsTreeTx (p : Psbt) (nb_children : ℕ) : Type 0 where
  pub version : p.version ≡ 3
  pub one_input : length p.tx_in % 2 ^ 32 ≡ 1
  pub few_children : nb_children ≤ (length p.tx_out % 2 ^ 32 + (2 ^ 32 - 1)) % 2 ^ 32

-- A child spends, with its first input, the output of its parent that its index says, and its outputs
-- have the value of that output.
pub record IsChild (p : Psbt) (i : ℕ) (c : Psbt) : Type 0 where
  pub in_range : i < length p.tx_out % 2 ^ 32
  pub spent : Previous
  pub others : List Previous
  pub input : c.tx_in ≡ spent ∷ others
  pub hash : spent.hash ≡ p.tx_id
  pub index : spent.index ≡ i
  pub value : get_elem? p.tx_out i ≡ some (sum c.tx_out % 2 ^ 64)

unfoldable mutual
  pub IsValid : TxTree → Type 0
  IsValid (node p cs) = IsTreeTx p (count cs) × AreValid p cs

  pub AreValid : Psbt → Children → Type 0
  AreValid p no_child = Unit
  AreValid p (child i t cs) = IsChild p i (root t) × IsValid t × AreValid p cs

spends_iff :
    (p : Psbt) (i : ℕ) (os : List Previous)
    → spends p i os ≡ true
    → (o : Previous) × (rest : List Previous) × (os ≡ o ∷ rest) × (o.hash ≡ p.tx_id) × (o.index ≡ i)
spends_iff p i [] h = absurd (ground arith)
spends_iff p i (o ∷ os) h = (o, os, refl, ground (arith, eq_iff o.hash p.tx_id), ground arith)

spends-cons :
    (p : Psbt) (o : Previous) (os : List Previous)
    → o.hash ≡ p.tx_id
    → spends p o.index (o ∷ os) ≡ true
spends-cons p o os h = ground (arith, eq_iff o.hash p.tx_id)

get_elem?-lt : (vs : List ℕ) (i : ℕ) (v : ℕ) → get_elem? vs i ≡ some v → i < length vs
get_elem?-lt [] i v h = absurd (ground arith)
get_elem?-lt (w ∷ ws) zero v h = omega arith
get_elem?-lt (w ∷ ws) (suc i) v h = omega (arith, get_elem?-lt ws i v h)

IsChild-check_child :
    (p : Psbt) (i : ℕ) (c : Psbt)
    → i < length p.tx_out % 2 ^ 32
    → check_child p i c ≡ none
    → IsChild p i c
IsChild-check_child p i c lt h = elim (Bool-cases (spends p i c.tx_in)) [
  | inr away ↦ absurd (ground (arith, h, away))
  | inl ours ↦
      let (o, os, e, hash, index) = spends_iff p i c.tx_in ours in
      elim (Option-cases (get_elem? p.tx_out i)) [
        | inl out ↦ absurd (ground (arith, h, ours, out))
        | inr (v, at) ↦
            let same : sum64_from 0 c.tx_out ≡ v = ground (arith, h, ours, at) in
            record {
              in_range = lt;
              spent = o;
              others = os;
              input = e;
              hash = hash;
              index = index;
              value = at ∙ ap some (sym same ∙ sum64 c.tx_out);
            }
      ]
]

check_child-IsChild : (p : Psbt) (i : ℕ) (c : Psbt) → IsChild p i c → check_child p i c ≡ none
check_child-IsChild p i c h =
    let ours : spends p i c.tx_in ≡ true =
      rw h.input (ground (arith, h.hash, h.index, eq_iff h.spent.hash p.tx_id)) in
    let s = sum64 c.tx_out in rw (ours, h.value) (ground (arith, s))

IsTreeTx-check_root : (p : Psbt) (n : ℕ) → check_root p n ≡ none → IsTreeTx p n
IsTreeTx-check_root p n h = record {
  version = ground (arith, h);
  one_input = ground (arith, h);
  few_children = ground (arith, h);
}

check_root-IsTreeTx : (p : Psbt) (n : ℕ) → IsTreeTx p n → check_root p n ≡ none
check_root-IsTreeTx p n h = ground (arith, h.version, h.one_input, h.few_children)

or_error-none : (a b : Option TreeError) → or_error a b ≡ none → (a ≡ none) × (b ≡ none)
or_error-none (some e) b h = absurd (ground arith)
or_error-none none b h = (refl, h)

mutual
  unfolding validate_tree IsValid

  valid : (t : TxTree) → validate_tree t ≡ none → IsValid t
  valid (node p cs) h =
      let (a, b) = or_error-none (check_root p (count cs)) (validate_children p cs) h in
      (IsTreeTx-check_root p (count cs) a, are_valid p cs b)

  are_valid : (p : Psbt) (cs : Children) → validate_children p cs ≡ none → AreValid p cs
  are_valid p no_child h = tt
  are_valid p (child i t cs) h = elim (Bool-cases (leb (length p.tx_out % 2 ^ 32) i)) [
    | inl out ↦ absurd (ground (arith, h, out))
    | inr within ↦
        let h' : or_error (validate_tree t)
              (or_error (check_child p i (root t)) (validate_children p cs))
            ≡ none =
          ground (arith, h, within) in
        let (a, b) = or_error-none _ _ h' in
        let (c, d) = or_error-none _ _ b in
        (IsChild-check_child p i (root t) (ground arith) c, valid t a, are_valid p cs d)
  ]

mutual
  unfolding validate_tree IsValid

  validates : (t : TxTree) → IsValid t → validate_tree t ≡ none
  validates (node p cs) (a, b) = rw (check_root-IsTreeTx p (count cs) a) (validates_children p cs b)

  validates_children : (p : Psbt) (cs : Children) → AreValid p cs → validate_children p cs ≡ none
  validates_children p no_child h = refl
  validates_children p (child i t cs) (a, b, c) =
      let within : leb (length p.tx_out % 2 ^ 32) i ≡ false = ground (arith, a.in_range) in
      rw (within, validates t b, check_child-IsChild p i (root t) a) (validates_children p cs c)

-- `Validate` accepts a tree exactly if every transaction of it has version 3, one input and not more
-- children than outputs less one (lengths are counted modulo 2^32, and so is the difference), and every
-- child spends with its first input the output of its parent that its index says, and has outputs that
-- add up, modulo 2^64, to the value of that output.
pub validate_tree-IsValid : (t : TxTree) → (validate_tree t ≡ none) ↔ IsValid t
validate_tree-IsValid t = (valid t, validates t)
