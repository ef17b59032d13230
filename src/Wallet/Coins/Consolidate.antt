-- ===== src/Wallet/Coins/Consolidate.antt =====
-- The loop of `consolidate` (pkg/arkd-wallet/core/application/wallet/coinselect.go).
use mathlib.Core.List.{append_assoc}
use arkd.Base.{
  ℕ, ◌+◌, ◌≤◌, ◌<◌, ◌≡◌, ◌∙◌, sym, true, List, [], ◌∷◌, ◌++◌, some, length, length-append, leb,
  arith, Bool-cases, inl, inr,
}
use arkd.Wallet.Coins.{Coin, is_enough, consolidate_from, suffix}

pub suffix-append : (xs ys : List Coin) → suffix (xs ++ ys) ≡ suffix xs + suffix ys
unfolding suffix
suffix-append [] ys = omega arith
suffix-append (x ∷ xs) ys = omega (arith, suffix-append xs ys)

-- The coins are the first ones of the list, they are enough, and at most `max`.
pub record IsPrefixFor (target min_change max : ℕ) (coins found : List Coin) : Type 0 where
  pub left : List Coin
  pub split : coins ≡ found ++ left
  pub enough : is_enough target min_change (suffix found) ≡ true
  pub few : length found ≤ max

module _ (target min_change max : ℕ) (coins : List Coin) where
  pub consolidate_from-IsPrefixFor :
      (chosen rest : List Coin) (sum : ℕ) (found : List Coin)
      → coins ≡ chosen ++ rest
      → sum ≡ suffix chosen
      → consolidate_from target min_change max chosen sum rest ≡ some found
      → IsPrefixFor target min_change max coins found
  unfolding consolidate_from
  consolidate_from-IsPrefixFor chosen [] sum found e s h = cc
  consolidate_from-IsPrefixFor chosen (c ∷ cs) sum found e s h =
      let e' : coins ≡ (chosen ++ c ∷ []) ++ cs = e ∙ sym (append_assoc chosen (c ∷ []) cs) in
      let s' : sum + c.value ≡ suffix (chosen ++ c ∷ []) =
        unfold suffix in omega (arith, suffix-append chosen (c ∷ [])) in
      let n = length-append chosen (c ∷ []) in
      elim (Bool-cases (leb max (length chosen))) [
        | inl full ↦ absurd (ground arith)
        | inr room ↦ elim (Bool-cases (is_enough target min_change (sum + c.value))) [
          | inl enough ↦
              let same : found ≡ chosen ++ c ∷ [] = ground arith in
              record {
                left = cs;
                split = rw same e';
                enough = rw (same, ← s') enough;
                few = rw same (ground arith);
              }
          | inr more ↦
              consolidate_from-IsPrefixFor (chosen ++ c ∷ []) cs (sum + c.value) found e' s'
                (ground arith)
        ]
      ]

-- If the coins before some coin, and it, are enough and at most `max`, then coins are found, and no more
-- than those.
pub consolidate_from-first :
    (target min_change max : ℕ) (chosen : List Coin) (sum : ℕ) (pre post : List Coin) (c : Coin)
    → length chosen + length pre < max
    → is_enough target min_change (sum + (suffix pre + c.value)) ≡ true
    → (found : List Coin) × (consolidate_from target min_change max chosen sum (pre ++ c ∷ post)
        ≡ some found)
      × (length found ≤ length chosen + (length pre + 1))
unfolding consolidate_from suffix
consolidate_from-first target min_change max chosen sum [] post c few enough =
    (chosen ++ c ∷ [], ground arith, omega (arith, length-append chosen (c ∷ [])))
consolidate_from-first target min_change max chosen sum (d ∷ pre) post c few enough =
    let n = length-append chosen (d ∷ []) in
    elim (Bool-cases (is_enough target min_change (sum + d.value))) [
      | inl done ↦ (chosen ++ d ∷ [], ground arith, omega arith)
      | inr more ↦
          let same : sum + d.value + (suffix pre + c.value)
              ≡ sum + (d.value + suffix pre + c.value) =
            omega arith in
          let (found, e, short) =
            consolidate_from-first target min_change max (chosen ++ d ∷ []) (sum + d.value) pre post
              c (omega arith) (rw same enough) in
          (found, ground arith, omega arith)
    ]
