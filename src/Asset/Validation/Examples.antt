-- ===== src/Asset/Validation/Examples.antt =====
-- A transaction that moves an asset and issues another one, which is its own control asset.
use arkd.Base.{◌≤◌, ◌≡◌, ◌⊎◌, refl, String, [], ◌∷◌, Option, none, some, All, is_nil, if◌then◌else◌}
use arkd.Base.Results.{Result, ok, err}
use arkd.Asset.{AssetError}
use arkd.Asset.Bytes.{
  Bytes, replicate, eq_bytes, put_uvarint, serialize_uint16, serialize_var_uint, swap, swap_loop,
  reverse_bytes, serialize_tx_hash, write_all,
}
use arkd.Asset.Ids.{zero_asset_id, validate_id, serialize_id, serialize_ref}
use arkd.Asset.Inputs.{
  validate_input, serialize_input, serialize_inputs, seen_before, validate_inputs_from,
  validate_inputs,
}
use arkd.Asset.Outputs.{
  validate_output, serialize_output, validate_outputs_from, validate_outputs, serialize_outputs,
}
use arkd.Asset.Group.{
  AssetGroup, safe_sum, is_reissuance, presence, optional_bytes, optional_metadata, write_group,
}
use arkd.Asset.Packet.{Packet, serialize_packet}
use arkd.Asset.Tx.{Tx, Prevouts, has_prefix, contains}
use arkd.Asset.Validation.{
  Token, id_string, is_sub_dust_script, validate_tx_group, validate_tx_groups, validate_carried,
  validate_asset_transaction,
}
use arkd.Asset.Validation.Held.{held}
use arkd.Asset.Validation.Conservation.{ControlSpent, validate_asset_transaction-conserves}
use arkd.Asset.Validation.Coverage.{
  Declared, Carries, validate_asset_transaction-declares, validate_asset_transaction-Carries,
}
use arkd.Asset.Validation.Issuance.{Controlled, validate_asset_transaction-Controlled}
use arkd.Asset.Validation.Targets.{IsAssignable, validate_asset_transaction-IsAssignable}

-- Names for the ids of the example, in the place of the hexadecimal encoding.
abbrev hex : Bytes → String
hex b = if is_nil b then "" else "07"

abbrev tx_hash : Tx → Bytes
tx_hash tx = replicate 32 5

-- A tokeniser of scripts of single-byte opcodes.
abbrev next : Bytes → Option Token
next [] = none
next (b ∷ rest) = some (b, (none, rest))

abbrev moved : AssetGroup
moved = record {
  asset_id = some (record { txid = replicate 32 7; index = 3 });
  control_asset = none;
  outputs = record { type = 1; vout = 0; amount = 5 } ∷ [];
  inputs = record { type = 1; vin = 1; txid = replicate 32 0; amount = 5 } ∷ [];
  metadata = [];
}

abbrev issued : AssetGroup
issued = record {
  asset_id = none;
  control_asset = some (record { type = 2; asset_id = zero_asset_id; group_index = 1 });
  outputs = record { type = 1; vout = 0; amount = 9 } ∷ [];
  inputs = [];
  metadata = [];
}

abbrev packet : Packet
packet = moved ∷ issued ∷ []

abbrev written : Result AssetError Bytes → Bytes
written (ok b) = b
written (err e) = []

abbrev spending : Bytes → Tx
spending b = record { tx_in = 2; tx_out = (81 ∷ 32 ∷ []) ∷ (106 ∷ 3 ∷ b) ∷ [] }

abbrev prevouts : Prevouts
prevouts = (1, record { asset_id = "07"; amount = 5 } ∷ []) ∷ []

abbrev tx : Tx
tx = spending (written (serialize_packet packet))

is_valid : validate_asset_transaction hex tx_hash next tx packet prevouts none ≡ none
unfolding eq_bytes put_uvarint serialize_uint16 serialize_var_uint swap swap_loop reverse_bytes
    serialize_tx_hash write_all validate_id serialize_id serialize_ref serialize_input
    serialize_inputs seen_before validate_output serialize_output validate_outputs_from
    validate_outputs serialize_outputs presence optional_bytes optional_metadata write_group
    safe_sum is_reissuance serialize_packet has_prefix contains id_string is_sub_dust_script
    validate_tx_group validate_tx_groups validate_carried validate_asset_transaction
is_valid = refl

validate_asset_transaction-conserves_example :
    (5 ≤ held (id_string hex tx_hash next (record { txid = replicate 32 7; index = 3 })) prevouts)
    ⊎ ControlSpent hex tx_hash next tx packet none prevouts
        (id_string hex tx_hash next (record { txid = replicate 32 7; index = 3 }))
unfolding safe_sum validate_inputs validate_inputs_from seen_before validate_input
validate_asset_transaction-conserves_example =
    validate_asset_transaction-conserves hex tx_hash next tx packet prevouts none 0 moved
      (record { txid = replicate 32 7; index = 3 }) is_valid refl refl refl

validate_asset_transaction-declares_example :
    All (λ p. All (Declared hex tx_hash next packet p.0) p.1) prevouts
validate_asset_transaction-declares_example =
    validate_asset_transaction-declares hex tx_hash next tx packet prevouts none is_valid

validate_asset_transaction-Carries_example :
    (b : Bytes) × (serialize_packet packet ≡ ok b) × Carries b tx.tx_out
validate_asset_transaction-Carries_example =
    validate_asset_transaction-Carries hex tx_hash next tx packet prevouts none is_valid refl

validate_asset_transaction-Controlled_example :
    Controlled hex tx_hash next packet none issued.control_asset
validate_asset_transaction-Controlled_example =
    validate_asset_transaction-Controlled hex tx_hash next tx packet prevouts none 1 issued is_valid
      refl refl

validate_asset_transaction-IsAssignable_example :
    All (IsAssignable hex tx_hash next tx.tx_out) moved.outputs
validate_asset_transaction-IsAssignable_example =
    validate_asset_transaction-IsAssignable hex tx_hash next tx packet prevouts none 0 moved
      is_valid refl
