-- ===== src/Domain/Intent.antt =====
-- internal/core/domain/intent.go: what a user asks of a round.
pub mod Amounts
pub mod Validation
mod Examples
use arkd.Base.{
  ℕ, ◌+◌, ◌%◌, ◌^◌, String, Bool, true, false, not, ◌&&◌, ◌||◌, List, [], ◌∷◌, ◌++◌, Option, none,
  some, ◌==◌, if◌then◌else◌, is_nil,
}
use arkd.Domain.Types.{Vtxo, is_empty, requires_forfeit}

pub record Receiver : Type 0 where
  pub amount : ℕ  -- uint64
  pub onchain_address : String
  pub pub_key : String

pub record Intent : Type 0 where
  pub id : String
  pub inputs : List Vtxo
  pub receivers : List Receiver
  pub proof : String
  pub message : String
  pub txid : String
  pub leaf_tx_extension : String

pub data IntentError : Type 0 where
  missing_id missing_proof missing_message missing_txid missing_outputs : IntentError
  missing_receiver_destination missing_receiver_amount : IntentError

pub is_onchain : Receiver → Bool
is_onchain r = not (is_empty r.onchain_address)

-- The loop over the receivers; `none` is Go's nil error.
unfoldable pub validate_receivers : List Receiver → Option IntentError
validate_receivers [] = none
validate_receivers (r ∷ rs) =
    let rest = validate_receivers rs in
    if is_empty r.onchain_address && is_empty r.pub_key
    then some missing_receiver_destination
    else if r.amount == 0
    then some missing_receiver_amount
    else rest

unfoldable pub validate : Bool → Intent → Option IntentError
validate ignore_outs i =
    if is_empty i.id
    then some missing_id
    else if is_empty i.proof
    then some missing_proof
    else if is_empty i.message
    then some missing_message
    else if is_empty i.txid
    then some missing_txid
    else if ignore_outs
    then none
    else if is_nil i.receivers
    then some missing_outputs
    else validate_receivers i.receivers

-- The first argument is the id that `uuid.New` draws.
pub data NewIntent : Type 0 where
  created : Intent → NewIntent
  rejected : IntentError → NewIntent

abbrev checked : Intent → Option IntentError → NewIntent
checked i none = created i
checked i (some e) = rejected e

pub new_intent : String → String → String → String → List Vtxo → String → NewIntent
unfolding validate
new_intent uuid proof_txid proof message inputs leaf_tx_extension =
    let i : Intent = record {
      id = uuid;
      inputs = inputs;
      receivers = [];
      proof = proof;
      message = message;
      txid = proof_txid;
      leaf_tx_extension = leaf_tx_extension;
    } in
    checked i (validate true i)

-- `after` is the intent with the new receivers, `before` the one without them.
abbrev keep_if_valid : Intent → Intent → Option IntentError → Intent × Option IntentError
keep_if_valid before after none = (after, none)
keep_if_valid before after (some e) = (before, some e)

-- The deferred function cuts the appended receivers off again when the validation fails.
pub add_receivers : Intent → List Receiver → Intent × Option IntentError
unfolding validate
add_receivers i receivers =
    let j : Intent = record i { receivers = i.receivers ++ receivers } in
    keep_if_valid i j (validate false j)

-- The sums are uint64 and wrap.
pub sum_inputs : ℕ → List Vtxo → ℕ
sum_inputs tot [] = tot
sum_inputs tot (v ∷ vs) = sum_inputs ((tot + v.amount) % 2 ^ 64) vs

pub total_input_amount : Intent → ℕ
unfolding sum_inputs
total_input_amount i = sum_inputs 0 i.inputs

pub sum_receivers : ℕ → List Receiver → ℕ
sum_receivers tot [] = tot
sum_receivers tot (r ∷ rs) = sum_receivers ((tot + r.amount) % 2 ^ 64) rs

pub total_output_amount : Intent → ℕ
unfolding sum_receivers
total_output_amount i = sum_receivers 0 i.receivers

pub any_offchain : List Receiver → Bool
unfolding is_onchain
any_offchain [] = false
any_offchain (r ∷ rs) = not (is_onchain r) || any_offchain rs

pub has_offchain_receiver : Intent → Bool
unfolding any_offchain
has_offchain_receiver i = any_offchain i.receivers

pub count_inputs : ℕ → List Vtxo → ℕ
unfolding requires_forfeit
count_inputs count [] = count
count_inputs count (v ∷ vs) = count_inputs (if requires_forfeit v then count + 1 else count) vs

pub count_from : ℕ → List Intent → ℕ
unfolding count_inputs
count_from count [] = count
count_from count (i ∷ is) = count_from (count_inputs count i.inputs) is

-- How many inputs of the intents need a forfeit tx.
pub count_spent_vtxos : List Intent → ℕ
unfolding count_from
count_spent_vtxos is = count_from 0 is

pub have_only_onchain_output : List Intent → Bool
unfolding has_offchain_receiver
have_only_onchain_output [] = true
have_only_onchain_output (i ∷ is) =
    let rest = have_only_onchain_output is in if has_offchain_receiver i then false else rest
