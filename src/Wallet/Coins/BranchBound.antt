-- ===== src/Wallet/Coins/BranchBound.antt =====
-- The search of `branchAndBound` (pkg/arkd-wallet/core/application/wallet/coinselect.go).
use mathlib.Core.List.{append_assoc, append-nil}
use arkd.Base.{
  ℕ, ◌+◌, ◌-◌, ◌≤◌, ◌≡◌, ◌∙◌, sym, Bool, true, false, ◌||◌, List, [], ◌∷◌, ◌++◌, Option, none, some,
  length, length-append, leb, ltb, ◌==◌, arith, Bool-cases, Option-cases, inl, inr,
}
use arkd.Wallet.Coins.{Coin, suffix, dfs}

-- Some of the coins of a list, in its order.
pub data Picks : List Coin → List Coin → Type 0 where
  nothing : Picks [] []
  take : (c : Coin) {some_of cs : List Coin} → Picks some_of cs → Picks (c ∷ some_of) (c ∷ cs)
  omit : (c : Coin) {some_of cs : List Coin} → Picks some_of cs → Picks some_of (c ∷ cs)

Picks-nil : (cs : List Coin) → Picks [] cs
Picks-nil [] = nothing
Picks-nil (c ∷ cs) = omit c (Picks-nil cs)

pub suffix-Picks : {some_of cs : List Coin} → Picks some_of cs → suffix some_of ≤ suffix cs
unfolding suffix
suffix-Picks nothing = omega arith
suffix-Picks (take c p) = omega (arith, suffix-Picks p)
suffix-Picks (omit c p) = omega (arith, suffix-Picks p)

-- What the search adds to the coins that are picked already.
pub record Found (target max sum : ℕ) (picked coins found : List Coin) : Type 0 where
  pub added : List Coin
  pub parts : found ≡ picked ++ added
  pub picks : Picks added coins
  pub exact : sum + suffix added ≡ target
  pub few : length found ≤ max

now-Found :
    (target max sum : ℕ) (picked coins found : List Coin)
    → sum ≡ target
    → length picked ≤ max
    → found ≡ picked
    → Found target max sum picked coins found
unfolding suffix
now-Found target max sum picked coins found e few same = record {
  added = [];
  parts = same ∙ sym (append-nil picked);
  picks = Picks-nil coins;
  exact = omega arith;
  few = rw same few;
}

-- Why the search gives a branch up.
abbrev pub pruned : ℕ → ℕ → ℕ → ℕ → List Coin → Coin → List Coin → Bool
pruned target max tries sum picked c cs =
    tries == 0
    || ltb target sum
    || leb max (length picked)
    || ltb (sum + (c.value + suffix cs)) target

module _ (target max tries sum : ℕ) (picked : List Coin) (c : Coin) (cs : List Coin) where
  -- The search with the first coin, and the tries it leaves.
  abbrev pub included : Option (List Coin) × ℕ
  included = dfs target max (tries - 1) (sum + c.value) (picked ++ c ∷ []) cs

  pub dfs_include :
      (found : List Coin)
      → (sum == target) ≡ false
      → pruned target max tries sum picked c cs ≡ false
      → included.0 ≡ some found
      → dfs target max tries sum picked (c ∷ cs) ≡ (some found, included.1)
  unfolding dfs
  dfs_include found miss on e = rw (miss, on, e)

  pub dfs_omit :
      (sum == target) ≡ false
      → pruned target max tries sum picked c cs ≡ false
      → included.0 ≡ none
      → dfs target max tries sum picked (c ∷ cs) ≡ dfs target max included.1 sum picked cs
  unfolding dfs
  dfs_omit miss on e = rw (miss, on, e)

  pub dfs_hit :
      (sum == target) ≡ true → dfs target max tries sum picked (c ∷ cs) ≡ (some picked, tries)
  unfolding dfs
  dfs_hit hit = rw hit

  pub dfs-pruned :
      (sum == target) ≡ false
      → pruned target max tries sum picked c cs ≡ true
      → dfs target max tries sum picked (c ∷ cs) ≡ (none, tries)
  unfolding dfs
  dfs-pruned miss out = rw (miss, out)

suffix_take :
    (sum target : ℕ) (c : Coin) (added : List Coin)
    → sum + c.value + suffix added ≡ target
    → sum + suffix (c ∷ added) ≡ target
unfolding suffix
suffix_take sum target c added e = omega (arith, e)

pub dfs-Found :
    (target max tries sum : ℕ) (picked coins found : List Coin)
    → length picked ≤ max
    → (dfs target max tries sum picked coins).0 ≡ some found
    → Found target max sum picked coins found
dfs-Found target max tries sum picked [] found few h =
    unfold dfs in now-Found target max sum picked [] found (ground arith) few (ground arith)
dfs-Found target max tries sum picked (c ∷ cs) found few h = elim (Bool-cases (sum == target)) [
  | inl hit ↦
      now-Found target max sum picked (c ∷ cs) found (ground arith) few
        (ground (arith, dfs_hit target max tries sum picked c cs hit))
  | inr miss ↦ elim (Bool-cases (pruned target max tries sum picked c cs)) [
    | inl out ↦ absurd (ground (arith, dfs-pruned target max tries sum picked c cs miss out))
    | inr on ↦ elim (Option-cases (included target max tries sum picked c cs).0) [
      | inl nothing_found ↦
          let e = dfs_omit target max tries sum picked c cs miss on nothing_found in
          let left = (included target max tries sum picked c cs).1 in
          let f = dfs-Found target max left sum picked cs found few (rw (← e) h) in
          record {
            added = f.added;
            parts = f.parts;
            picks = omit c f.picks;
            exact = f.exact;
            few = f.few;
          }
      | inr (found', e') ↦
          let e = dfs_include target max tries sum picked c cs found' miss on e' in
          let n = length-append picked (c ∷ []) in
          let same : found' ≡ found = ground arith in
          let f =
            dfs-Found target max (tries - 1) (sum + c.value) (picked ++ c ∷ []) cs found
              (ground arith) (rw (← same) e') in
          record {
            added = c ∷ f.added;
            parts = f.parts ∙ append_assoc picked (c ∷ []) f.added;
            picks = take c f.picks;
            exact = suffix_take sum target c f.added f.exact;
            few = f.few;
          }
    ]
  ]
]
