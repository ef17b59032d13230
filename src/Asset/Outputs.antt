-- ===== src/Asset/Outputs.antt =====
-- pkg/ark-lib/asset/asset_output.go: the amounts of an asset that a transaction assigns.
pub mod RoundTrip
use arkd.Base.{ℕ, List, [], ◌∷◌, ◌++◌, Option, none, some, ltb, ◌==◌, if◌then◌else◌, length}
use arkd.Base.Results.{Result, ok, err, ◌>>=◌}
use arkd.Asset.{
  AssetError, output_type_unspecified, invalid_vout_length, zero_amount, duplicate_vout,
  too_many_outputs, output_type_unknown, accepted, on_eof,
}
use arkd.Asset.Bytes.{
  Bytes, Read, read_byte, serialize_uint16, deserialize_uint16, serialize_var_uint,
  deserialize_var_uint, write_all, read_n,
}
use arkd.Asset.Inputs.{seen_before}

abbrev pub output_unspecified : ℕ
output_unspecified = 0

abbrev pub output_local : ℕ
output_local = 1

pub record AssetOutput : Type 0 where
  pub type : ℕ  -- uint8
  pub vout : ℕ  -- uint16
  pub amount : ℕ  -- uint64

abbrev pub max_asset_output_count : ℕ
max_asset_output_count = 1000

unfoldable pub validate_output : AssetOutput → Option AssetError
validate_output o = if o.amount == 0 then some zero_amount else none

pub new_asset_output : ℕ → ℕ → Result AssetError AssetOutput
new_asset_output vout amount =
    let o : AssetOutput = record { type = output_local; vout = vout; amount = amount } in
    accepted (validate_output o) o

unfoldable pub serialize_output : AssetOutput → Bytes
serialize_output o = o.type ∷ (serialize_uint16 o.vout ++ serialize_var_uint o.amount)

-- The loop of `AssetOutputs.validate`, with the vouts so far.
unfoldable pub validate_outputs_from : List ℕ → List AssetOutput → Option AssetError
validate_outputs_from seen [] = none
validate_outputs_from seen (o ∷ outs) =
    let rest = validate_outputs_from (o.vout ∷ seen) outs in
    if seen_before o.vout seen
    then some duplicate_vout
    else elim (validate_output o) [ none ↦ rest | some e ↦ some e ]

unfoldable pub validate_outputs : List AssetOutput → Option AssetError
validate_outputs outs = validate_outputs_from [] outs

-- Unlike the inputs, the outputs are validated as a list before they are written.
unfoldable pub serialize_outputs : List AssetOutput → Result AssetError Bytes
serialize_outputs outs = do
  outs' ← accepted (validate_outputs outs) outs
  bs ← write_all (λ o. ok (serialize_output o)) outs'
  ok (serialize_var_uint (length outs') ++ bs)

read_output_fields : Bytes → Read AssetOutput
read_output_fields r = do
  (index, r') ← on_eof invalid_vout_length (deserialize_uint16 r)
  (amount, r'') ← deserialize_var_uint r'
  o ← new_asset_output index amount
  ok (o, r'')

pub new_asset_output_from_reader : Bytes → Read AssetOutput
new_asset_output_from_reader r = do
  (typ, r') ← read_byte r
  if typ == output_local
      then read_output_fields r'
      else if typ == output_unspecified
      then err output_type_unspecified
      else err (output_type_unknown typ)

pub new_asset_outputs_from_reader : Bytes → Read (List AssetOutput)
new_asset_outputs_from_reader r = do
  (count, r') ← deserialize_var_uint r
  let items : Read (List AssetOutput) = do
    (outs, r'') ← read_n new_asset_output_from_reader count r'
    accepted (validate_outputs outs) (outs, r'')
  if count == 0
      then ok ([], r')
      else if ltb max_asset_output_count count
      then err too_many_outputs
      else items
