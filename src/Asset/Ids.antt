-- ===== src/Asset/Ids.antt =====
-- pkg/ark-lib/asset/asset_id.go and asset_ref.go: the id of an asset, and a reference to an asset by
-- its id or by the index of a group of the same packet.
pub mod RoundTrip
use arkd.Base.{
  ℕ, Bool, true, false, List, [], ◌∷◌, ◌++◌, Option, none, some, ltb, ◌==◌, if◌then◌else◌, is_nil,
  length,
}
use arkd.Base.Results.{Result, ok, err, ◌>>=◌}
use arkd.Asset.{
  AssetError, missing_data, invalid_asset_id_length, empty_txid, ref_type_unspecified,
  ref_type_unknown, invalid_ref_length, accepted, on_eof,
}
use arkd.Asset.Bytes.{
  Bytes, Read, replicate, eq_bytes, hash_size, read_byte, serialize_uint16, deserialize_uint16,
  serialize_tx_hash, deserialize_tx_hash,
}

abbrev pub asset_id_size : ℕ
asset_id_size = 34

-- The hash of zeros.
abbrev pub empty_tx_hash : Bytes
empty_tx_hash = replicate hash_size 0

pub record AssetId : Type 0 where
  pub txid : Bytes
  pub index : ℕ  -- uint16

-- `AssetId{}`
abbrev pub zero_asset_id : AssetId
zero_asset_id = record { txid = empty_tx_hash; index = 0 }

unfoldable pub validate_id : AssetId → Option AssetError
validate_id a = if eq_bytes a.txid empty_tx_hash then some empty_txid else none

unfoldable pub serialize_id : AssetId → Bytes
serialize_id a = serialize_tx_hash a.txid ++ serialize_uint16 a.index

pub new_asset_id_from_reader : Bytes → Read AssetId
new_asset_id_from_reader r =
    let body : Read AssetId = do
      (txid, r') ← deserialize_tx_hash r
      (index, r'') ← deserialize_uint16 r'
      let a : AssetId = record { txid = txid; index = index }
      accepted (validate_id a) (a, r'')
    in if ltb (length r) asset_id_size then err invalid_asset_id_length else body

pub new_asset_id_from_bytes : Bytes → Read AssetId
new_asset_id_from_bytes buf = if is_nil buf then err missing_data else new_asset_id_from_reader buf

abbrev pub asset_ref_unspecified : ℕ
asset_ref_unspecified = 0

abbrev pub asset_ref_by_id : ℕ
asset_ref_by_id = 1

abbrev pub asset_ref_by_group : ℕ
asset_ref_by_group = 2

pub record AssetRef : Type 0 where
  pub type : ℕ  -- uint8
  pub asset_id : AssetId
  pub group_index : ℕ  -- uint16

unfoldable pub validate_ref : AssetRef → Option AssetError
validate_ref ref =
    if ref.type == asset_ref_by_id
    then validate_id ref.asset_id
    else if ref.type == asset_ref_by_group
    then none
    else if ref.type == asset_ref_unspecified
    then some ref_type_unspecified
    else some (ref_type_unknown ref.type)

unfoldable pub serialize_ref : AssetRef → Bytes
serialize_ref ref =
    ref.type
    ∷ (if ref.type == asset_ref_by_id
        then serialize_id ref.asset_id
        else if ref.type == asset_ref_by_group
        then serialize_uint16 ref.group_index
        else [])

-- The payload that the type byte announces.
read_ref_payload : ℕ → Bytes → Read AssetRef
read_ref_payload typ r =
    let by_id : Read AssetRef = do
      (asset_id, r') ← new_asset_id_from_reader r
      ok (record { type = typ; asset_id = asset_id; group_index = 0 }, r')
    in let by_group : Read AssetRef = do
      (group_index, r') ← on_eof invalid_ref_length (deserialize_uint16 r)
      ok (record { type = typ; asset_id = zero_asset_id; group_index = group_index }, r')
      in if typ == asset_ref_by_id
        then by_id
        else if typ == asset_ref_by_group
        then by_group
        else if typ == asset_ref_unspecified
        then err ref_type_unspecified
        else err (ref_type_unknown typ)

pub new_asset_ref_from_reader : Bytes → Read AssetRef
unfolding read_ref_payload
new_asset_ref_from_reader r = do
  (typ, r') ← read_byte r
  (ref, r'') ← read_ref_payload typ r'
  accepted (validate_ref ref) (ref, r'')

pub new_asset_ref_from_bytes : Bytes → Read AssetRef
new_asset_ref_from_bytes buf =
    if is_nil buf then err missing_data else new_asset_ref_from_reader buf
