-- ===== src/Asset/Group.antt =====
-- pkg/ark-lib/asset/asset_group.go: the inputs and outputs of one asset in a packet.
pub mod RoundTrip
use arkd.Base.{
  ℕ, ◌+◌, ◌/◌, ◌%◌, ◌^◌, Bool, true, false, not, ◌&&◌, List, [], ◌∷◌, ◌++◌, Option, none, some, ltb,
  ◌==◌, if◌then◌else◌, is_nil, map,
}
use arkd.Base.Results.{Result, ok, err, ◌>>=◌}
use arkd.Asset.{
  AssetError, missing_data, empty_group, issuance_with_inputs, control_asset_of_existing, accepted,
}
use arkd.Asset.Bytes.{Bytes, Read, read_byte}
use arkd.Asset.Ids.{
  AssetId, AssetRef, validate_id, serialize_id, new_asset_id_from_reader, validate_ref,
  serialize_ref, new_asset_ref_from_reader,
}
use arkd.Asset.Inputs.{
  AssetInput, input_intent, validate_input, serialize_inputs, new_asset_inputs_from_reader,
}
use arkd.Asset.Outputs.{
  AssetOutput, validate_output, serialize_outputs, new_asset_outputs_from_reader,
}
use arkd.Asset.Metadata.{
  Metadata, validate_metadata, serialize_metadata_list, new_metadata_list_from_reader,
}

pub record AssetGroup : Type 0 where
  pub asset_id : Option AssetId
  pub control_asset : Option AssetRef
  pub outputs : List AssetOutput
  pub inputs : List AssetInput
  pub metadata : List Metadata

-- `x != nil`
abbrev pub is_some {ℓ} : {A : Type ℓ} → Option A → Bool
is_some none = false
is_some (some x) = true

abbrev pub is_issuance : AssetGroup → Bool
is_issuance g = not (is_some g.asset_id)

-- `safeSumUint64`: the sum is a big integer, and does not wrap.
unfoldable pub safe_sum : List ℕ → ℕ
safe_sum [] = 0
safe_sum (x ∷ xs) = x + safe_sum xs

unfoldable pub is_reissuance : AssetGroup → Bool
is_reissuance g =
    not (is_issuance g)
    && ltb (safe_sum (map (λ i. i.amount) g.inputs)) (safe_sum (map (λ o. o.amount) g.outputs))

-- The first error of a loop that validates every item.
unfoldable pub first_error {ℓ} : {A : Type ℓ} → (A → Option AssetError) → List A → Option AssetError
first_error f [] = none
first_error f (x ∷ xs) = let rest = first_error f xs in elim (f x) [ none ↦ rest | some e ↦ some e ]

unfoldable pub validate_optional {ℓ} :
    {A : Type ℓ} → (A → Option AssetError) → Option A → Option AssetError
validate_optional f none = none
validate_optional f (some x) = f x

-- The first of two errors.
unfoldable pub or_else : Option AssetError → Option AssetError → Option AssetError
or_else none later = later
or_else (some e) later = some e

-- Inputs on an issuance, or a control asset on another group.
unfoldable pub validate_kind : AssetGroup → Option AssetError
validate_kind g =
    if is_issuance g
    then (if is_nil g.inputs then none else some issuance_with_inputs)
    else if is_some g.control_asset
    then some control_asset_of_existing
    else none

unfoldable pub validate_group : AssetGroup → Option AssetError
unfolding or_else
validate_group g =
    if is_issuance g && is_nil g.inputs && is_nil g.outputs
    then some empty_group
    else or_else (validate_optional validate_id g.asset_id) (
        or_else (validate_optional validate_ref g.control_asset) (
          or_else (validate_kind g) (
            or_else (first_error validate_input g.inputs) (
              or_else (first_error validate_output g.outputs)
                (first_error validate_metadata g.metadata)))))

pub new_asset_group : AssetGroup → Result AssetError AssetGroup
new_asset_group g = accepted (validate_group g) g

-- The masks of the presence byte are its three lowest bits, so their `|` is a sum.
unfoldable pub presence : AssetGroup → ℕ
presence g =
    (if is_some g.asset_id then 1 else 0)
    + (if is_some g.control_asset then 2 else 0)
    + (if is_nil g.metadata then 0 else 4)

-- `byte & (1 << k) != 0`
has_bit : ℕ → ℕ → Bool
has_bit byte k = byte / 2 ^ k % 2 == 1

unfoldable pub optional_bytes {ℓ} : {A : Type ℓ} → (A → Bytes) → Option A → Bytes
optional_bytes f none = []
optional_bytes f (some x) = f x

unfoldable pub optional_metadata : List Metadata → Result AssetError Bytes
optional_metadata [] = ok []
optional_metadata (md ∷ mds) = serialize_metadata_list (md ∷ mds)

-- `serialize`, without the validation of `Serialize`.
unfoldable pub write_group : AssetGroup → Result AssetError Bytes
write_group g = do
  mds ← optional_metadata g.metadata
  ins ← serialize_inputs g.inputs
  outs ← serialize_outputs g.outputs
  let head = optional_bytes serialize_id g.asset_id
  let control = optional_bytes serialize_ref g.control_asset
  ok (presence g ∷ (head ++ (control ++ (mds ++ (ins ++ outs)))))

pub serialize_group : AssetGroup → Result AssetError Bytes
serialize_group g = do g' ← accepted (validate_group g) g; write_group g'

read_optional : {A : Type 0} → Bool → (Bytes → Read A) → Bytes → Read (Option A)
read_optional false read r = ok (none, r)
read_optional true read r = do (x, r') ← read r; ok (some x, r')

read_metadata : Bool → Bytes → Read (List Metadata)
read_metadata false r = ok ([], r)
read_metadata true r = new_metadata_list_from_reader r

pub new_asset_group_from_reader : Bytes → Read AssetGroup
new_asset_group_from_reader r = do
  (flags, r₁) ← read_byte r
  (asset_id, r₂) ← read_optional (has_bit flags 0) new_asset_id_from_reader r₁
  (control_asset, r₃) ← read_optional (has_bit flags 1) new_asset_ref_from_reader r₂
  (metadata, r₄) ← read_metadata (has_bit flags 2) r₃
  (inputs, r₅) ← new_asset_inputs_from_reader r₄
  (outputs, r₆) ← new_asset_outputs_from_reader r₅
  let g : AssetGroup = record {
    asset_id = asset_id;
    control_asset = control_asset;
    outputs = outputs;
    inputs = inputs;
    metadata = metadata;
  }
  accepted (validate_group g) (g, r₆)

-- The group in a batch leaf: its inputs are replaced by one intent input.
unfoldable pub to_batch_leaf_asset_group : Bytes → AssetGroup → AssetGroup
to_batch_leaf_asset_group intent_txid g = record g {
  inputs = record { type = input_intent; vin = 0; txid = intent_txid; amount = 0 } ∷ [];
}
