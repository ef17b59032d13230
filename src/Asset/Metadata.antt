-- ===== src/Asset/Metadata.antt =====
-- pkg/ark-lib/asset/metadata.go: key-value pairs attached to an asset group.
pub mod RoundTrip
use arkd.Base.{ℕ, List, [], ◌∷◌, ◌++◌, Option, none, some, ltb, if◌then◌else◌, is_nil, length}
use arkd.Base.Results.{Result, ok, err, ◌>>=◌}
use arkd.Asset.{
  AssetError, missing_key, missing_value, invalid_metadata_length, too_many_metadata, accepted,
  on_eof,
}
use arkd.Asset.Bytes.{
  Bytes, Read, serialize_var_uint, deserialize_var_uint, serialize_var_slice, deserialize_var_slice,
  write_all, read_n,
}

pub record Metadata : Type 0 where
  pub key : Bytes
  pub value : Bytes

abbrev pub max_asset_metadata_list_count : ℕ
max_asset_metadata_list_count = 1000

unfoldable pub validate_metadata : Metadata → Option AssetError
validate_metadata md =
    if is_nil md.key then some missing_key else if is_nil md.value then some missing_value else none

unfoldable pub serialize_metadata : Metadata → Bytes
serialize_metadata md = serialize_var_slice md.key ++ serialize_var_slice md.value

unfoldable pub validate_metadata_list : List Metadata → Option AssetError
validate_metadata_list [] = none
validate_metadata_list (md ∷ mds) =
    let rest = validate_metadata_list mds in
    elim (validate_metadata md) [ none ↦ rest | some e ↦ some e ]

unfoldable pub serialize_metadata_list : List Metadata → Result AssetError Bytes
serialize_metadata_list mds = do
  bs ← write_all (λ md. ok (serialize_metadata md)) mds
  ok (serialize_var_uint (length mds) ++ bs)

pub new_metadata_from_reader : Bytes → Read Metadata
new_metadata_from_reader r = do
  (key, r') ← on_eof invalid_metadata_length (deserialize_var_slice r)
  (value, r'') ← on_eof invalid_metadata_length (deserialize_var_slice r')
  let md : Metadata = record { key = key; value = value }
  accepted (validate_metadata md) (md, r'')

pub new_metadata_list_from_reader : Bytes → Read (List Metadata)
new_metadata_list_from_reader r = do
  (count, r') ← deserialize_var_uint r
  let items : Read (List Metadata) = do
    (mds, r'') ← read_n new_metadata_from_reader count r'
    accepted (validate_metadata_list mds) (mds, r'')
  if ltb max_asset_metadata_list_count count then err too_many_metadata else items
