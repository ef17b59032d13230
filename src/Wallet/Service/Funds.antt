-- ===== src/Wallet/Service/Funds.antt =====
-- The coins of a transaction and of a withdrawal (pkg/arkd-wallet/core/application/wallet/service.go).
use arkd.Base.{
  ℕ, ◌+◌, ◌-◌, ◌*◌, ◌%◌, ◌^◌, ◌≤◌, ◌<◌, ◌≡◌, ◌∙◌, refl, ap, subst, String, Bool, true, List, [],
  ◌∷◌, Option, none, some, map, ◌==◌, length, arith, inl, inr,
}
use arkd.Base.Results.{ok}
use arkd.Wallet.{OutPoint, Utxo}
use arkd.Wallet.Coins.{Coin, is_enough, max_inputs, suffix, consolidate_first}
use arkd.Wallet.Coins.Select.{IsSelection, IsDocumented, economical-IsSelection}
use arkd.Wallet.Locker.{Locks, get}
use arkd.Wallet.Service.{
  Conversions, available, affordable, total_value, utxo_of, returned, selected, sub64, select_coins,
  select_coins_for_withdraw,
}
use arkd.Wallet.Service.Loops.{
  all, IsPart, value_sum, value_sum-IsPart, total_value_lem, spendable, worth_it, available_lem,
  affordable_lem, spend, afford,
}
use arkd.Wallet.Service.Chosen.{
  Agrees-nil, all-map, all-all, IsPart-map, all-chosen, value_sum-chosen, is_exact, IsFloat,
  map-returned, all-IsPart,
}

-- Utxos of the given ones, each used once, that may be spent, at most 500, and their sum.
pub record IsFunded (may_spend : Utxo → Bool) (utxos chosen : List Utxo) (total : ℕ) : Type 0 where
  pub part : IsPart chosen utxos
  pub free : all may_spend chosen ≡ true
  pub sum : total ≡ value_sum chosen
  pub few : length chosen ≤ max_inputs

length-map : (cs : List Coin) → length (map utxo_of cs) ≡ length cs
length-map [] = refl
length-map (c ∷ cs) = omega (arith, length-map cs)

selected-ok :
    (f : Coin → Utxo) (o : Option (List Coin)) (chosen : List Utxo) (total : ℕ)
    → selected f o ≡ ok (chosen, total)
    → (cs : List Coin) × (o ≡ some cs) × (chosen ≡ map f cs) × (total ≡ total_value 0 (map f cs))
selected-ok f none chosen total h = absurd (ground arith)
selected-ok f (some cs) chosen total h = (cs, refl, ground arith, ground arith)

-- What a selection among coins of the utxos is.
funded :
    (f : Coin → Bool) (g : Utxo → Bool) (utxos : List Utxo) (coins cs : List Coin)
    (chosen : List Utxo) (total target min_change : ℕ)
    → ((c : Coin) → f c ≡ true → g c.utxo ≡ true)
    → IsPart (map utxo_of coins) utxos
    → all f coins ≡ true
    → value_sum utxos < 2 ^ 64
    → IsSelection target min_change max_inputs coins cs
    → chosen ≡ map utxo_of cs
    → total ≡ total_value 0 (map utxo_of cs)
    → IsFunded g utxos chosen total
funded f g utxos coins cs chosen total target min_change sub part usable fits s e e' =
    let mine = IsPart-map cs s.others coins utxos s.parts part in
    let used = all-chosen f cs s.others coins s.parts usable in
    let below = value_sum-IsPart (map utxo_of cs) utxos mine in
    rw e (record {
      part = mine;
      free = all-map f g utxo_of cs sub used;
      sum = e' ∙ total_value_lem 0 (map utxo_of cs) (omega arith) ∙ omega arith;
      few = omega (arith, length-map cs, s.few);
    })

module _ (smallest_first largest_first : List Coin → List Coin)
    (min_number : ℕ → ℕ → ℕ → List Coin → Option (List Coin)) where
  -- If a float64 holds every natural number up to 2^53, no utxo of the explorer has a higher value
  -- or a script that is not the encoding of its bytes, their sum is below 2^64, and the amount with
  -- the least change below 2^63, then the utxos that fund the amount are the explorer's, with their
  -- values and scripts, each one used once, and at most 500. None is locked; one that is not
  -- confirmed is of a transaction that the explorer knows and that has not version 3, and there is
  -- none where only confirmed ones are asked for. The total is their sum, and it is the amount, or
  -- the amount and at least the least change.
  pub select_coins-IsFunded :
      IsDocumented smallest_first largest_first min_number
      → (conv : Conversions) (utxos chosen : List Utxo) (total : ℕ)
        (explorer : String → Option Bool) (clock : OutPoint → ℕ) (amount : ℕ)
        (confirmed_only : Bool) (min_change : ℕ) (m : Locks)
      → IsFloat conv
      → all (is_exact conv) utxos ≡ true
      → value_sum utxos < 2 ^ 64
      → amount + min_change < 2 ^ 63
      → (select_coins smallest_first largest_first min_number conv true
          (some utxos)
          explorer
          clock
          amount
          confirmed_only
          min_change
          m).0
        ≡ ok (chosen, total)
      → IsFunded (spendable explorer confirmed_only (get clock m).0) utxos chosen total
        × (is_enough amount min_change total ≡ true)
  unfolding select_coins
  select_coins-IsFunded doc conv utxos chosen total explorer clock amount confirmed_only min_change
        m float exact fits small h =
      let locked = (get clock m).0 in
      let coins = available explorer confirmed_only locked [] utxos in
      let (part, usable) =
        available_lem explorer confirmed_only locked [] utxos (Agrees-nil explorer) in
      let (cs, e, f', f'') = selected-ok (returned conv) _ chosen total h in
      let s =
        economical-IsSelection smallest_first largest_first min_number doc min_change amount coins
          cs (inl e) in
      let used =
        all-chosen (spend explorer confirmed_only locked) cs s.others coins s.parts usable in
      let as_they_are =
        map-returned conv cs float
          (all-all _ (λ c. c.value == c.utxo.value) cs (λ c h. ground arith) used)
          (all-IsPart (is_exact conv) (map utxo_of cs) utxos
            (IsPart-map cs s.others coins utxos s.parts part) exact) in
      let e' : chosen ≡ map utxo_of cs = f' ∙ as_they_are in
      let e'' : total ≡ total_value 0 (map utxo_of cs) = f'' ∙ ap (total_value 0) as_they_are in
      let f =
        funded (spend explorer confirmed_only locked) (spendable explorer confirmed_only locked)
          utxos coins cs chosen total amount min_change (λ c h. ground arith) part usable fits s e'
          e'' in
      let same : total ≡ suffix cs =
        let e0 = all-all _ (λ c. c.utxo.value == c.value + 0) cs (λ c h. ground arith) used in
        omega (arith, f.sum, ap value_sum e', value_sum-chosen 0 cs e0) in
      (f, rw same s.enough)

  -- The utxos that fund a withdrawal are the explorer's, each one used once, and at most 500; none is
  -- locked, and each is worth more than it costs. If the estimate of the fee for one input is not above the
  -- one for two inputs, and this one not above twice the other, then their sum is at least the amount with
  -- the fee for one input and, for every other input, the difference of the two estimates.
  pub select_coins_for_withdraw-IsFunded :
      IsDocumented smallest_first largest_first min_number
      → (utxos chosen : List Utxo) (total : ℕ) (estimate_fee : ℕ → ℕ) (clock : OutPoint → ℕ)
        (amount : ℕ) (m : Locks)
      → value_sum utxos < 2 ^ 64
      → estimate_fee 1 ≤ estimate_fee 2
      → estimate_fee 2 ≤ estimate_fee 1 + estimate_fee 1
      → amount + estimate_fee 1 < 2 ^ 63
      → (select_coins_for_withdraw smallest_first largest_first min_number true
          (some utxos)
          estimate_fee
          clock
          amount
          m).0
        ≡ ok (chosen, total)
      → IsFunded (worth_it (estimate_fee 2 - estimate_fee 1) (get clock m).0) utxos chosen total
        × (amount + estimate_fee 1 + (estimate_fee 2 - estimate_fee 1) * length chosen
            ≤ total + (estimate_fee 2 - estimate_fee 1))
  unfolding select_coins_for_withdraw
  select_coins_for_withdraw-IsFunded doc utxos chosen total estimate_fee clock amount m fits up down
        small h =
      let locked = (get clock m).0 in
      let fee = estimate_fee 1 in
      let per_input = estimate_fee 2 - estimate_fee 1 in
      let input_is : sub64 (estimate_fee 2) (estimate_fee 1) ≡ per_input = omega arith in
      let base_is : sub64 (estimate_fee 1) per_input ≡ fee - per_input = omega arith in
      let target_is : (amount + (fee - per_input)) % 2 ^ 64 ≡ amount + (fee - per_input) =
        omega arith in
      let coins = affordable per_input locked utxos in
      let (part, usable) = affordable_lem per_input locked utxos in
      let h1 =
        subst
          (λ (p : ℕ).
            selected utxo_of (
              consolidate_first smallest_first largest_first min_number 0
                ((amount + sub64 (estimate_fee 1) p) % 2 ^ 64) (affordable p locked utxos))
            ≡ ok (chosen, total))
          input_is h in
      let h' =
        subst
          (λ (t : ℕ).
            selected utxo_of (consolidate_first smallest_first largest_first min_number 0 t coins)
            ≡ ok (chosen, total))
          (ap (λ (b : ℕ). (amount + b) % 2 ^ 64) base_is ∙ target_is) h1 in
      let (cs, e, e', e'') = selected-ok utxo_of _ chosen total h' in
      let s =
        economical-IsSelection smallest_first largest_first min_number doc 0
          (amount + (fee - per_input)) coins cs (inr e) in
      let used = all-chosen (afford per_input locked) cs s.others coins s.parts usable in
      let f =
        funded (afford per_input locked) (worth_it per_input locked) utxos coins cs chosen total
          (amount + (fee - per_input)) 0 (λ c h. ground arith) part usable fits s e' e'' in
      let used' =
        all-all _ (λ c. c.utxo.value == c.value + per_input) cs (λ c h. ground arith) used in
      let sum = value_sum-chosen per_input cs used' in
      let n : length chosen ≡ length cs = ap length e' ∙ length-map cs in
      let cost : per_input * length chosen ≡ per_input * length cs = ap (λ k. per_input * k) n in
      let enough : amount + (fee - per_input) ≤ suffix cs = ground (arith, s.enough) in
      (f, omega (arith, f.sum, ap value_sum e', sum, cost))
