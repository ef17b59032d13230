-- ===== src/Wallet/Coins/Select.antt =====
-- The two selectors of pkg/arkd-wallet/core/application/wallet/coinselect.go.
use mathlib.Core.List.{Perm, perm_middle}
use mathlib.Core.List.Perm
use arkd.Base.{
  ℕ, ◌+◌, ◌≤◌, ◌<◌, ◌≡◌, ◌∙◌, refl, sym, ap, subst, true, List, [], ◌∷◌, ◌++◌, Option, none, some,
  length, arith, ◌⊎◌, inl, inr,
}
use arkd.Wallet.Coins.{
  Coin, max_inputs, bnb_max_tries, is_enough, suffix, consolidate_from, consolidate,
  branch_and_bound, economical, consolidate_first, first_of,
}
use arkd.Wallet.Coins.Consolidate.{consolidate_from-IsPrefixFor, consolidate_from-first}
use arkd.Wallet.Coins.BranchBound.{Picks, dfs-Found}
use arkd.Wallet.Coins.Complete.{dfs_complete, subsets}

-- Coins of the given ones, each used once, at most `max`, that add up to the target or to the target
-- with at least the least change.
pub record IsSelection (target min_change max : ℕ) (coins chosen : List Coin) : Type 0 where
  pub others : List Coin
  pub parts : Perm (chosen ++ others) coins
  pub enough : is_enough target min_change (suffix chosen) ≡ true
  pub few : length chosen ≤ max

-- The coins that are left out.
left_out : {some_of cs : List Coin} → Picks some_of cs → List Coin
left_out Picks.nothing = []
left_out (Picks.take c p) = left_out p
left_out (Picks.omit c p) = c ∷ left_out p

Picks-Perm : {some_of cs : List Coin} (p : Picks some_of cs) → Perm (some_of ++ left_out p) cs
unfolding left_out
Picks-Perm Picks.nothing = Perm.nil
Picks-Perm (Picks.take c p) = Perm.cons c (Picks-Perm p)
Picks-Perm (Picks.omit c {some_of = w} p) =
    Perm.trans (perm_middle w (left_out p)) (Perm.cons c (Picks-Perm p))

module _ (smallest_first largest_first : List Coin → List Coin)
    (min_number : ℕ → ℕ → ℕ → List Coin → Option (List Coin)) where
  -- What the libraries say of the sorts, and of the selector of the fewest coins.
  pub record IsDocumented : Type 0 where
    pub smallest : (coins : List Coin) → Perm (smallest_first coins) coins
    pub largest : (coins : List Coin) → Perm (largest_first coins) coins
    pub fewest :
        (max min_change target : ℕ) (coins chosen : List Coin)
        → min_number max min_change target coins ≡ some chosen
        → IsSelection target min_change max coins chosen

  consolidate-IsSelection :
      IsDocumented
      → (target min_change max : ℕ) (coins chosen : List Coin)
      → consolidate smallest_first largest_first min_number target min_change max coins
        ≡ some chosen
      → IsSelection target min_change max coins chosen
  unfolding consolidate
  consolidate-IsSelection doc target min_change max coins chosen h =
      let f =
        consolidate_from-IsPrefixFor target min_change max (smallest_first coins) []
          (smallest_first coins) 0 chosen refl (unfold suffix in refl) h in
      record {
        others = f.left;
        parts = subst (λ l. Perm l coins) f.split (doc.smallest coins);
        enough = f.enough;
        few = f.few;
      }

  branch_and_bound-IsSelection :
      IsDocumented
      → (target min_change max : ℕ) (coins chosen : List Coin)
      → branch_and_bound smallest_first largest_first min_number target max coins ≡ some chosen
      → IsSelection target min_change max coins chosen
  unfolding branch_and_bound
  branch_and_bound-IsSelection doc target min_change max coins chosen h =
      let f =
        dfs-Found target max bnb_max_tries 0 [] (largest_first coins) chosen (omega arith) h in
      let same : chosen ≡ f.added = f.parts in
      let sum : suffix chosen ≡ suffix f.added = ap suffix same in
      record {
        others = left_out f.picks;
        parts =
            Perm.trans
              (subst (λ l. Perm (l ++ left_out f.picks) (largest_first coins)) (sym same)
                (Picks-Perm f.picks))
              (doc.largest coins);
        enough = ground (arith, f.exact);
        few = f.few;
      }

  first_of-some :
      {P : List Coin → Type 0} (a b : Option (List Coin))
      → ((l : List Coin) → a ≡ some l → P l)
      → ((l : List Coin) → b ≡ some l → P l)
      → (l : List Coin) → first_of smallest_first largest_first min_number a b ≡ some l
      → P l
  first_of-some (some x) b f g l h = f l h
  first_of-some none b f g l h = g l h

  -- Where the sorts and the selector of the fewest coins are as documented, the coins that either of the
  -- two selectors returns are coins of the wallet, each one used once, and at most 500; they add up to
  -- the target exactly, or to the target and at least the least change.
  pub economical-IsSelection :
      IsDocumented
      → (min_change target : ℕ) (coins chosen : List Coin)
      → (economical smallest_first largest_first min_number min_change target coins ≡ some chosen)
        ⊎ (consolidate_first smallest_first largest_first min_number min_change target coins
            ≡ some chosen)
      → IsSelection target min_change max_inputs coins chosen
  unfolding economical consolidate_first
  economical-IsSelection doc min_change target coins chosen h =
      let a = consolidate-IsSelection doc target min_change max_inputs coins in
      let b = branch_and_bound-IsSelection doc target min_change max_inputs coins in
      let c = doc.fewest max_inputs min_change target coins in
      elim h [
        | inl e ↦ first_of-some _ _ c (first_of-some _ _ b a) chosen e
        | inr e ↦ first_of-some _ _ a (first_of-some _ _ b c) chosen e
      ]

  first_of-IsSome :
      (a b : Option (List Coin))
      → ((l : List Coin) × (a ≡ some l)) ⊎ ((l : List Coin) × (b ≡ some l))
      → (l : List Coin) × (first_of smallest_first largest_first min_number a b ≡ some l)
  first_of-IsSome (some x) b h = (x, refl)
  first_of-IsSome none b (inl (l, e)) = absurd (ground arith)
  first_of-IsSome none b (inr h) = h

  -- Some coins of the wallet, largest first, are the target exactly, and the search through all the
  -- selections of the coins is within its tries.
  pub record HasExact (target : ℕ) (coins : List Coin) : Type 0 where
    pub wanted : List Coin
    pub picks : Picks wanted (largest_first coins)
    pub exact : suffix wanted ≡ target
    pub few : length wanted ≤ max_inputs
    pub tried : subsets (largest_first coins) ≤ bnb_max_tries

  -- The smallest coins, up to some coin, are enough.
  pub record HasPrefix (min_change target : ℕ) (coins : List Coin) : Type 0 where
    pub before : List Coin
    pub after : List Coin
    pub last : Coin
    pub split : smallest_first coins ≡ before ++ last ∷ after
    pub few : length before < max_inputs
    pub enough : is_enough target min_change (suffix before + last.value) ≡ true

  branch_and_bound-HasExact :
      (target : ℕ) (coins : List Coin)
      → HasExact target coins
      → (l : List Coin) × (branch_and_bound smallest_first largest_first min_number target
            max_inputs coins
          ≡ some l)
  unfolding branch_and_bound
  branch_and_bound-HasExact target coins h =
      dfs_complete target max_inputs bnb_max_tries 0 [] (largest_first coins) h.wanted h.picks
        (omega (arith, h.exact)) (omega (arith, h.few)) h.tried

  consolidate-HasPrefix :
      (min_change target : ℕ) (coins : List Coin)
      → HasPrefix min_change target coins
      → (l : List Coin) × (consolidate smallest_first largest_first min_number target min_change
            max_inputs coins
          ≡ some l)
  unfolding consolidate
  consolidate-HasPrefix min_change target coins h =
      let (found, e, short) =
        consolidate_from-first target min_change max_inputs [] 0 h.before h.after h.last
          (omega (arith, h.few)) (ground (arith, h.enough)) in
      (found, ap (consolidate_from target min_change max_inputs [] 0) h.split ∙ e)

  -- Both selectors select coins, whatever the selector of the fewest coins does, if some coins of the
  -- wallet are the target exactly and there are few enough coins for the search to see every
  -- selection, or if the smallest coins up to some coin, at most 500, are enough.
  pub economical-total :
      (min_change target : ℕ) (coins : List Coin)
      → HasExact target coins ⊎ HasPrefix min_change target coins
      → ((l : List Coin) × (economical smallest_first largest_first min_number min_change target
              coins
            ≡ some l))
        × ((l : List Coin) × (consolidate_first smallest_first largest_first min_number min_change
                target coins
              ≡ some l))
  unfolding economical consolidate_first
  economical-total min_change target coins (inl h) =
      let b = branch_and_bound-HasExact target coins h in
      (
        first_of-IsSome _ _ (inr (first_of-IsSome _ _ (inl b))),
        first_of-IsSome _ _ (inr (first_of-IsSome _ _ (inl b))),
      )
  economical-total min_change target coins (inr h) =
      let a = consolidate-HasPrefix min_change target coins h in
      (first_of-IsSome _ _ (inr (first_of-IsSome _ _ (inr a))), first_of-IsSome _ _ (inl a))
