-- ===== src/Asset/Inputs.antt =====
-- pkg/ark-lib/asset/asset_input.go: the amounts of an asset that a transaction consumes.
pub mod RoundTrip
use arkd.Base.{
  ℕ, Bool, true, false, not, ◌||◌, List, [], ◌∷◌, ◌++◌, Option, none, some, ltb, ◌==◌,
  if◌then◌else◌, is_nil, length,
}
use arkd.Base.Results.{Result, ok, err, ◌>>=◌}
use arkd.Asset.{
  AssetError, missing_data, input_type_unspecified, missing_input_txid, invalid_input_txid_length,
  duplicate_vin, mixed_input_types, too_many_inputs, input_type_unknown, accepted, on_eof,
}
use arkd.Asset.Bytes.{
  Bytes, Read, eq_bytes, read_byte, serialize_uint16, deserialize_uint16, serialize_var_uint,
  deserialize_var_uint, serialize_tx_hash, deserialize_tx_hash, write_all, read_n,
}
use arkd.Asset.Ids.{empty_tx_hash}

abbrev pub input_unspecified : ℕ
input_unspecified = 0

abbrev pub input_local : ℕ
input_local = 1

abbrev pub input_intent : ℕ
input_intent = 2

pub record AssetInput : Type 0 where
  pub type : ℕ  -- uint8
  pub vin : ℕ  -- uint16
  pub txid : Bytes
  pub amount : ℕ  -- uint64

abbrev pub max_asset_input_count : ℕ
max_asset_input_count = 1000

unfoldable pub validate_input : AssetInput → Option AssetError
validate_input i =
    if i.type == input_local
    then none
    else if i.type == input_intent
    then (if eq_bytes i.txid empty_tx_hash then some missing_input_txid else none)
    else if i.type == input_unspecified
    then some input_type_unspecified
    else some (input_type_unknown i.type)

pub new_asset_input : ℕ → ℕ → Result AssetError AssetInput
new_asset_input index amount =
    let i : AssetInput = record {
      type = input_local;
      vin = index;
      txid = empty_tx_hash;
      amount = amount;
    } in
    accepted (validate_input i) i

-- On an unknown type the type byte is written all the same, before the error is returned.
unfoldable pub serialize_input : AssetInput → Result AssetError Bytes
serialize_input i =
    if i.type == input_local
    then ok (i.type ∷ (serialize_uint16 i.vin ++ serialize_var_uint i.amount))
    else if i.type == input_intent
    then ok (
        i.type
        ∷ (serialize_tx_hash i.txid ++ (serialize_uint16 i.vin ++ serialize_var_uint i.amount)))
    else if i.type == input_unspecified
    then err input_type_unspecified
    else err (input_type_unknown i.type)

unfoldable pub serialize_inputs : List AssetInput → Result AssetError Bytes
serialize_inputs ins = do
  bs ← write_all serialize_input ins
  ok (serialize_var_uint (length ins) ++ bs)

-- `_, ok := m[vin]`
unfoldable pub seen_before : ℕ → List ℕ → Bool
seen_before v [] = false
seen_before v (w ∷ ws) = v == w || seen_before v ws

-- The loop of `AssetInputs.validate`, with the vins so far and the type of the first input.
unfoldable pub validate_inputs_from : List ℕ → ℕ → List AssetInput → Option AssetError
validate_inputs_from seen in_type [] = none
validate_inputs_from seen in_type (i ∷ ins) =
    let first = if in_type == input_unspecified then i.type else in_type in
    let rest = validate_inputs_from (i.vin ∷ seen) first ins in
    if seen_before i.vin seen
    then some duplicate_vin
    else if not (i.type == first)
    then some mixed_input_types
    else elim (validate_input i) [ none ↦ rest | some e ↦ some e ]

unfoldable pub validate_inputs : List AssetInput → Option AssetError
validate_inputs ins = validate_inputs_from [] input_unspecified ins

-- The fields that the type byte announces.
read_input_fields : ℕ → Bytes → Read AssetInput
read_input_fields typ r =
    let local_input : Read AssetInput = do
      (index, r') ← deserialize_uint16 r
      (amount, r'') ← deserialize_var_uint r'
      ok (record { type = typ; vin = index; txid = empty_tx_hash; amount = amount }, r'')
    in let intent_input : Read AssetInput = do
      (txid, r') ← on_eof invalid_input_txid_length (deserialize_tx_hash r)
      (index, r'') ← deserialize_uint16 r'
      (amount, r''') ← deserialize_var_uint r''
      ok (record { type = typ; vin = index; txid = txid; amount = amount }, r''')
      in if typ == input_local
        then local_input
        else if typ == input_intent
        then intent_input
        else if typ == input_unspecified
        then err input_type_unspecified
        else err (input_type_unknown typ)

pub new_asset_input_from_reader : Bytes → Read AssetInput
new_asset_input_from_reader r = do
  (typ, r') ← read_byte r
  (i, r'') ← read_input_fields typ r'
  accepted (validate_input i) (i, r'')

pub new_asset_inputs_from_reader : Bytes → Read (List AssetInput)
new_asset_inputs_from_reader r = do
  (count, r') ← deserialize_var_uint r
  let items : Read (List AssetInput) = do
    (ins, r'') ← read_n new_asset_input_from_reader count r'
    accepted (validate_inputs ins) (ins, r'')
  if count == 0
      then ok ([], r')
      else if ltb max_asset_input_count count
      then err too_many_inputs
      else items
