-- ===== src/Wallet/Coins.antt =====
-- pkg/arkd-wallet/core/application/wallet/coinselect.go: the selection of the coins that pay an amount.
-- Amounts are not negative (a coin that costs more than its value is left out before the selection), and
-- do not add up to 2^63. Sorting and the selector of the fewest coins belong to libraries, and are
-- parameters.
pub mod Consolidate
pub mod BranchBound
pub mod Complete
pub mod Select
use arkd.Base.{
  ℕ, zero, suc, ◌+◌, ◌-◌, String, Bool, true, false, ◌||◌, List, [], ◌∷◌, ◌++◌, Option, none, some,
  ltb, leb, ◌==◌, if◌then◌else◌, is_nil, length,
}
use arkd.Wallet.{Utxo}

-- The types `coin` and `effectiveValueCoin`: the utxo, and the value that the selection reads.
pub record Coin : Type 0 where
  pub utxo : Utxo
  pub value : ℕ

abbrev pub max_inputs : ℕ
max_inputs = 500

abbrev pub bnb_max_tries : ℕ
bnb_max_tries = 100_000

-- `change == 0 || change >= minChange`, where `change` is what the sum has over the target.
abbrev pub is_enough : ℕ → ℕ → ℕ → Bool
is_enough target min_change sum = sum == target || leb (target + min_change) sum

-- The loop of `consolidate`, with the coins pushed so far and their sum.
unfoldable pub consolidate_from : ℕ → ℕ → ℕ → List Coin → ℕ → List Coin → Option (List Coin)
consolidate_from target min_change max chosen sum [] = none
consolidate_from target min_change max chosen sum (c ∷ cs) =
    let rest = consolidate_from target min_change max (chosen ++ c ∷ []) (sum + c.value) cs in
    if leb max (length chosen)
    then none
    else if is_enough target min_change (sum + c.value)
    then some (chosen ++ c ∷ [])
    else rest

-- `suffix[i]`: what the remaining coins add up to.
unfoldable pub suffix : List Coin → ℕ
suffix [] = 0
suffix (c ∷ cs) = c.value + suffix cs

-- The inner `dfs`, over the coins from the index on. It returns what it found and the tries that are
-- left, which the source keeps in a variable around it.
pub dfs : ℕ → ℕ → ℕ → ℕ → List Coin → List Coin → Option (List Coin) × ℕ
dfs target max tries sum picked [] = (if sum == target then some picked else none, tries)
dfs target max tries sum picked (c ∷ cs) =
    let omit = λ (t : ℕ). dfs target max t sum picked cs in
    let include = dfs target max (tries - 1) (sum + c.value) (picked ++ c ∷ []) cs in
    let branches : Option (List Coin) × ℕ = elim include.0 [
      | some found ↦ (some found, include.1)
      | none ↦ omit include.1
    ] in
    if sum == target
    then (some picked, tries)
    else if tries == 0
        || ltb target sum
        || leb max (length picked)
        || ltb (sum + (c.value + suffix cs)) target
    then (none, tries)
    else branches

module _ (smallest_first largest_first : List Coin → List Coin)
    (min_number : ℕ → ℕ → ℕ → List Coin → Option (List Coin)) where
  unfoldable pub consolidate : ℕ → ℕ → ℕ → List Coin → Option (List Coin)
  consolidate target min_change max coins =
      consolidate_from target min_change max [] 0 (smallest_first coins)

  pub branch_and_bound : ℕ → ℕ → List Coin → Option (List Coin)
  branch_and_bound target max coins = (dfs target max bnb_max_tries 0 [] (largest_first coins)).0

  -- The first selection that there is.
  abbrev pub first_of : Option (List Coin) → Option (List Coin) → Option (List Coin)
  first_of (some cs) later = some cs
  first_of none later = later

  -- The method of `economicalCoinSelector`; `none` is the error that no selection is available.
  unfoldable pub economical : ℕ → ℕ → List Coin → Option (List Coin)
  economical min_change target coins = first_of (min_number max_inputs min_change target coins) (
      first_of (branch_and_bound target max_inputs coins)
        (consolidate target min_change max_inputs coins))

  -- The method of `consolidateFirstCoinSelector`.
  unfoldable pub consolidate_first : ℕ → ℕ → List Coin → Option (List Coin)
  consolidate_first min_change target coins =
      first_of (consolidate target min_change max_inputs coins) (
        first_of (branch_and_bound target max_inputs coins)
          (min_number max_inputs min_change target coins))
