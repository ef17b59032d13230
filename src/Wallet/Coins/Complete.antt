-- ===== src/Wallet/Coins/Complete.antt =====
-- What the search of `branchAndBound` does not miss
-- (pkg/arkd-wallet/core/application/wallet/coinselect.go).
use arkd.Base.{
  ℕ, ◌+◌, ◌-◌, ◌≤◌, ◌≡◌, ◌∙◌, refl, ap, false, List, [], ◌∷◌, ◌++◌, some, length, length-append,
  ◌==◌, arith, Bool-cases, Option-cases, inl, inr, ◌⊎◌,
}
use arkd.Wallet.Coins.{Coin, suffix, dfs}
use arkd.Wallet.Coins.BranchBound.{
  Picks, nothing, take, omit, suffix-Picks, pruned, included, dfs_include, dfs_omit, dfs_hit,
  dfs-pruned,
}

-- The number of selections among the coins.
pub subsets : List Coin → ℕ
subsets [] = 1
subsets (c ∷ cs) = subsets cs + subsets cs

subsets_pos : (cs : List Coin) → 1 ≤ subsets cs
unfolding subsets
subsets_pos [] = omega arith
subsets_pos (c ∷ cs) = omega (arith, subsets_pos cs)

subsets_cons : (c : Coin) (cs : List Coin) → subsets (c ∷ cs) ≡ subsets cs + subsets cs
unfolding subsets
subsets_cons c cs = refl

-- A search over some coins uses fewer tries than there are selections.
dfs_tries :
    (target max tries sum : ℕ) (picked coins : List Coin)
    → tries + 1 ≤ (dfs target max tries sum picked coins).1 + subsets coins
dfs_tries target max tries sum picked [] = unfold dfs subsets in omega arith
dfs_tries target max tries sum picked (c ∷ cs) =
    let n = subsets_cons c cs in
    let n' = subsets_pos cs in
    let inside = dfs_tries target max (tries - 1) (sum + c.value) (picked ++ c ∷ []) cs in
    let left = (included target max tries sum picked c cs).1 in
    let outside = dfs_tries target max left sum picked cs in
    elim (Bool-cases (sum == target)) [
      | inl hit ↦ rw (dfs_hit target max tries sum picked c cs hit) (omega arith)
      | inr miss ↦ elim (Bool-cases (pruned target max tries sum picked c cs)) [
        | inl out ↦ rw (dfs-pruned target max tries sum picked c cs miss out) (omega arith)
        | inr on ↦ elim (Option-cases (included target max tries sum picked c cs).0) [
          | inl nothing_found ↦
              rw (dfs_omit target max tries sum picked c cs miss on nothing_found) (omega arith)
          | inr (found, e) ↦
              rw (dfs_include target max tries sum picked c cs found miss on e) (omega arith)
        ]
      ]
    ]

Picks-cases :
    {wanted cs : List Coin} {c : Coin}
    → Picks wanted (c ∷ cs)
    → ((w : List Coin) × (wanted ≡ c ∷ w) × Picks w cs) ⊎ Picks wanted cs
Picks-cases (take c {some_of = w} p) = inl (w, refl, p)
Picks-cases (omit c p) = inr p

Picks-none : {wanted : List Coin} → Picks wanted [] → wanted ≡ []
Picks-none nothing = refl

-- A search that is not at its target is not given up where the wanted coins are still ahead.
not_pruned :
    (target max tries sum : ℕ) (picked wanted : List Coin) (c : Coin) (cs : List Coin)
    → (sum == target) ≡ false
    → Picks wanted (c ∷ cs)
    → sum + suffix wanted ≡ target
    → length picked + length wanted ≤ max
    → subsets (c ∷ cs) ≤ tries
    → pruned target max tries sum picked c cs ≡ false
unfolding suffix
not_pruned target max tries sum picked [] c cs miss p e few enough = absurd (ground arith)
not_pruned target max tries sum picked (w ∷ ws) c cs miss p e few enough =
    let n = subsets_pos (c ∷ cs) in let more = suffix-Picks p in ground arith

suffix_next :
    (sum target : ℕ) (c : Coin) (wanted w : List Coin)
    → wanted ≡ c ∷ w
    → sum + suffix wanted ≡ target
    → sum + c.value + suffix w ≡ target
unfolding suffix
suffix_next sum target c wanted w same e =
    let all : suffix wanted ≡ c.value + suffix w = ap suffix same in omega arith

few_next :
    (max : ℕ) (picked wanted w : List Coin) (c : Coin)
    → wanted ≡ c ∷ w
    → length picked + length wanted ≤ max
    → length (picked ++ c ∷ []) + length w ≤ max
few_next max picked wanted w c same few =
    let all : length wanted ≡ length (c ∷ w) = ap length same in
    omega (arith, length-append picked (c ∷ []))

abbrev pub IsFound : ℕ → ℕ → ℕ → ℕ → List Coin → List Coin → Type 0
IsFound target max tries sum picked coins =
    (found : List Coin) × ((dfs target max tries sum picked coins).0 ≡ some found)

pub dfs_complete :
    (target max tries sum : ℕ) (picked coins wanted : List Coin)
    → Picks wanted coins
    → sum + suffix wanted ≡ target
    → length picked + length wanted ≤ max
    → subsets coins ≤ tries
    → IsFound target max tries sum picked coins
dfs_complete target max tries sum picked [] wanted p e few enough =
    unfold dfs suffix in
    let none_left : suffix wanted ≡ 0 = ap suffix (Picks-none p) in (picked, ground arith)
dfs_complete target max tries sum picked (c ∷ cs) wanted p e few enough =
    let n = subsets_cons c cs in
    let n' = subsets_pos cs in
    let left = (included target max tries sum picked c cs).1 in
    elim (Bool-cases (sum == target)) [
      | inl hit ↦ (picked, ap (λ r. r.0) (dfs_hit target max tries sum picked c cs hit))
      | inr miss ↦
          let on = not_pruned target max tries sum picked wanted c cs miss p e few enough in
          elim (Option-cases (included target max tries sum picked c cs).0) [
            | inr (found, e') ↦ (
              found,
              ap (λ r. r.0) (dfs_include target max tries sum picked c cs found miss on e'),
            )
            | inl nothing_found ↦
                let out = dfs_omit target max tries sum picked c cs miss on nothing_found in
                elim (Picks-cases p) [
                  | inl (w, same, p') ↦
                      let (found, e') =
                        dfs_complete target max (tries - 1) (sum + c.value) (picked ++ c ∷ []) cs w
                          p' (suffix_next sum target c wanted w same e)
                          (few_next max picked wanted w c same few) (omega arith) in
                      absurd (ground arith)
                  | inr p' ↦
                      let tried =
                        dfs_tries target max (tries - 1) (sum + c.value) (picked ++ c ∷ []) cs in
                      let (found, e') =
                        dfs_complete target max left sum picked cs wanted p' e few (omega arith) in
                      (found, ap (λ r. r.0) out ∙ e')
                ]
          ]
    ]
