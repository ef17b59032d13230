-- ===== src/Domain/Intent/Amounts.antt =====
-- The sums and counts of internal/core/domain/intent.go, against their plain definitions.
use mathlib.Core.List.{flat_map}
use arkd.Base.{
  ℕ, ◌+◌, ◌%◌, ◌^◌, ◌≡◌, ◌↔◌, refl, true, false, List, [], ◌∷◌, ◌++◌, All, arith, map,
  if◌then◌else◌,
}
use arkd.Domain.Types.{Vtxo, requires_forfeit}
use arkd.Domain.Intent.{
  Intent, Receiver, sum_inputs, sum_receivers, total_input_amount, total_output_amount,
  count_inputs, count_from, count_spent_vtxos, is_onchain, any_offchain, has_offchain_receiver,
  have_only_onchain_output,
}

abbrev pub sum : List ℕ → ℕ
sum [] = 0
sum (x ∷ xs) = x + sum xs

sum_receivers-mod :
    (tot : ℕ) (rs : List Receiver)
    → sum_receivers (tot % 2 ^ 64) rs ≡ (tot + sum (map (λ r. r.amount) rs)) % 2 ^ 64
unfolding sum_receivers
sum_receivers-mod tot [] = omega arith
sum_receivers-mod tot (r ∷ rs) =
    let step : (tot % 2 ^ 64 + r.amount) % 2 ^ 64 ≡ (tot + r.amount) % 2 ^ 64 = omega arith in
    rw step (omega (arith, sum_receivers-mod (tot + r.amount) rs))

sum_inputs-mod :
    (tot : ℕ) (vs : List Vtxo)
    → sum_inputs (tot % 2 ^ 64) vs ≡ (tot + sum (map (λ v. v.amount) vs)) % 2 ^ 64
unfolding sum_inputs
sum_inputs-mod tot [] = omega arith
sum_inputs-mod tot (v ∷ vs) =
    let step : (tot % 2 ^ 64 + v.amount) % 2 ^ 64 ≡ (tot + v.amount) % 2 ^ 64 = omega arith in
    rw step (omega (arith, sum_inputs-mod (tot + v.amount) vs))

-- The totals of the inputs and of the outputs are the sums of the amounts modulo 2^64.
pub totals-mod :
    (i : Intent)
    → (total_input_amount i ≡ sum (map (λ v. v.amount) i.inputs) % 2 ^ 64)
      × (total_output_amount i ≡ sum (map (λ r. r.amount) i.receivers) % 2 ^ 64)
unfolding total_output_amount total_input_amount
totals-mod i =
    (omega (arith, sum_inputs-mod 0 i.inputs), omega (arith, sum_receivers-mod 0 i.receivers))

-- How many of the vtxos are neither swept nor a note nor unrolled.
unfoldable pub needing_forfeit : List Vtxo → ℕ
needing_forfeit [] = 0
needing_forfeit (v ∷ vs) = (if requires_forfeit v then 1 else 0) + needing_forfeit vs

count_inputs-add : (n : ℕ) (vs : List Vtxo) → count_inputs n vs ≡ n + needing_forfeit vs
unfolding count_inputs needing_forfeit
count_inputs-add n [] = omega arith
count_inputs-add n (v ∷ vs) = ground (arith, count_inputs-add n vs, count_inputs-add (n + 1) vs)

needing_forfeit-append :
    (xs ys : List Vtxo) → needing_forfeit (xs ++ ys) ≡ needing_forfeit xs + needing_forfeit ys
unfolding needing_forfeit
needing_forfeit-append [] ys = omega arith
needing_forfeit-append (x ∷ xs) ys = omega (arith, needing_forfeit-append xs ys)

count_from-add :
    (n : ℕ) (is : List Intent)
    → count_from n is ≡ n + needing_forfeit (flat_map (λ (i : Intent). i.inputs) is)
unfolding count_from needing_forfeit flat_map
count_from-add n [] = omega arith
count_from-add n (i ∷ is) = omega (
  arith,
  count_inputs-add n i.inputs,
  count_from-add (count_inputs n i.inputs) is,
  needing_forfeit-append i.inputs (flat_map (λ (j : Intent). j.inputs) is),
)

-- The count over the intents is the number of all their inputs that need a forfeit tx.
pub count_spent_vtxos_lem :
    (is : List Intent)
    → count_spent_vtxos is ≡ needing_forfeit (flat_map (λ (i : Intent). i.inputs) is)
unfolding count_spent_vtxos
count_spent_vtxos_lem is = omega (arith, count_from-add 0 is)

any_offchain_iff :
    (rs : List Receiver) → (any_offchain rs ≡ false) ↔ All (λ r. is_onchain r ≡ true) rs
unfolding any_offchain
any_offchain_iff [] = (λ h. tt, λ h. refl)
any_offchain_iff (r ∷ rs) =
    (λ h. ground (arith, (any_offchain_iff rs).0), λ h. ground (arith, (any_offchain_iff rs).1 h.1))

-- Intents have only onchain outputs exactly if every receiver of every one of them is onchain.
pub have_only_onchain_output_iff :
    (is : List Intent)
    → (have_only_onchain_output is ≡ true)
      ↔ All (λ (i : Intent). All (λ r. is_onchain r ≡ true) i.receivers) is
unfolding have_only_onchain_output has_offchain_receiver
have_only_onchain_output_iff [] = (λ h. tt, λ h. refl)
have_only_onchain_output_iff (i ∷ is) = (
  λ h. ground (arith, (any_offchain_iff i.receivers).0, (have_only_onchain_output_iff is).0),
  λ h.
      ground (arith, (any_offchain_iff i.receivers).1 h.0, (have_only_onchain_output_iff is).1 h.1),
)
