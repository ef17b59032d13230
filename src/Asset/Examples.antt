-- ===== src/Asset/Examples.antt =====
-- A packet that issues an asset under the control of another, and spends two inputs of one vin.
use arkd.Base.{◌≡◌, refl, List, [], ◌∷◌, none, some, arith, All}
use arkd.Base.Results.{Result, ok, err}
use arkd.Asset.{AssetError, duplicate_vin}
use arkd.Asset.Bytes.{
  Bytes, replicate, eq_bytes, put_uvarint, serialize_uint16, serialize_var_uint,
  serialize_var_slice, swap, swap_loop, reverse_bytes, serialize_tx_hash, write_all,
}
use arkd.Asset.Ids.{
  AssetId, AssetRef, zero_asset_id, validate_id, serialize_id, validate_ref, serialize_ref,
}
use arkd.Asset.Ids.RoundTrip.{by_group}
use arkd.Asset.Inputs.{
  AssetInput, validate_input, serialize_input, serialize_inputs, seen_before, validate_inputs_from,
  validate_inputs,
}
use arkd.Asset.Inputs.RoundTrip.{IsInput, local_input}
use arkd.Asset.Outputs.{
  AssetOutput, validate_output, serialize_output, validate_outputs_from, validate_outputs,
  serialize_outputs,
}
use arkd.Asset.Outputs.RoundTrip.{IsOutput}
use arkd.Asset.Metadata.{Metadata, validate_metadata, serialize_metadata, serialize_metadata_list}
use arkd.Asset.Metadata.RoundTrip.{IsMetadata}
use arkd.Asset.Group.{
  AssetGroup, first_error, validate_optional, or_else, validate_kind, validate_group, presence,
  optional_bytes, optional_metadata, write_group,
}
use arkd.Asset.Group.RoundTrip.{IsGroup}
use arkd.Asset.Packet.{
  Packet, eq_id, was_seen, remember, out_of_range, validate_groups, validate_packet,
  serialize_packet, new_packet_from_bytes,
}
use arkd.Asset.Packet.RoundTrip.{new_packet_from_bytes-serialize_packet}

-- What was written, and nothing where the writer failed.
abbrev written : Result AssetError Bytes → Bytes
written (ok b) = b
written (err e) = []

abbrev hash : Bytes
hash = 1 ∷ replicate 31 7

abbrev spent : AssetId
spent = record { txid = hash; index = 3 }

abbrev by_first : AssetRef
by_first = record { type = 2; asset_id = zero_asset_id; group_index = 1 }

abbrev outs : List AssetOutput
outs = record { type = 1; vout = 0; amount = 300 } ∷ record { type = 1; vout = 2; amount = 5 } ∷ []

abbrev ins : List AssetInput
ins =
    record { type = 1; vin = 4; txid = replicate 32 0; amount = 200 }
    ∷ record { type = 1; vin = 4; txid = replicate 32 0; amount = 100 }
    ∷ []

abbrev mds : List Metadata
mds = record { key = 9 ∷ []; value = 8 ∷ 8 ∷ [] } ∷ []

abbrev issued : AssetGroup
issued = record {
  asset_id = none;
  control_asset = some by_first;
  outputs = outs;
  inputs = [];
  metadata = mds;
}

abbrev moved : AssetGroup
moved = record {
  asset_id = some spent;
  control_asset = none;
  outputs = outs;
  inputs = ins;
  metadata = [];
}

abbrev packet : Packet
packet = issued ∷ moved ∷ []

abbrev outs-IsOutput : All IsOutput outs
outs-IsOutput = (
  record { local_output = refl; vout_fits = omega arith; amount_fits = omega arith },
  (record { local_output = refl; vout_fits = omega arith; amount_fits = omega arith }, tt),
)

abbrev ins-IsInput : All IsInput ins
ins-IsInput = (
  local_input 4 200 (omega arith) (omega arith),
  (local_input 4 100 (omega arith) (omega arith), tt),
)

abbrev mds-IsMetadata : All IsMetadata mds
mds-IsMetadata = (record { key_fits = omega arith; value_fits = omega arith }, tt)

abbrev issued-IsGroup : IsGroup issued
issued-IsGroup = record {
  id_fits = tt;
  control_fits = by_group 1 (omega arith);
  inputs_fit = tt;
  few_inputs = omega arith;
  outputs_fit = outs-IsOutput;
  few_outputs = omega arith;
  metadata_fit = mds-IsMetadata;
  few_metadata = omega arith;
}

abbrev moved-IsGroup : IsGroup moved
moved-IsGroup = record {
  id_fits = (refl, omega arith);
  control_fits = tt;
  inputs_fit = ins-IsInput;
  few_inputs = omega arith;
  outputs_fit = outs-IsOutput;
  few_outputs = omega arith;
  metadata_fit = tt;
  few_metadata = omega arith;
}

new_packet_from_bytes-serialize_packet_example :
    new_packet_from_bytes (written (serialize_packet packet)) ≡ err duplicate_vin
unfolding eq_bytes put_uvarint serialize_uint16 serialize_var_uint serialize_var_slice swap
    swap_loop reverse_bytes serialize_tx_hash write_all validate_id serialize_id validate_ref
    serialize_ref validate_input serialize_input serialize_inputs seen_before validate_inputs_from
    validate_inputs validate_output serialize_output validate_outputs_from validate_outputs
    serialize_outputs validate_metadata serialize_metadata serialize_metadata_list first_error
    validate_optional or_else validate_kind validate_group presence optional_bytes optional_metadata
    write_group eq_id was_seen remember out_of_range validate_groups validate_packet
    serialize_packet
new_packet_from_bytes-serialize_packet_example =
    new_packet_from_bytes-serialize_packet packet (written (serialize_packet packet))
      (issued-IsGroup, (moved-IsGroup, tt)) refl refl
