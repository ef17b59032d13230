-- ===== src/Asset/Ids/RoundTrip.antt =====
-- Round trips of ids and references (pkg/ark-lib/asset/asset_id.go and asset_ref.go).
use mathlib.Core.List.{append_assoc}
use arkd.Base.{ℕ, ◌<◌, ◌^◌, ◌≡◌, ◌++◌, none, false, ltb, length, length-append, arith}
use arkd.Base.Results.{ok}
use arkd.Asset.Bytes.{Bytes, serialize_tx_hash, read_byte, serialize_uint16}
use arkd.Asset.Bytes.Varint.{deserialize-serialize_uint16}
use arkd.Asset.Bytes.Reverse.{length-reverse_bytes}
use arkd.Asset.Bytes.Lists.{deserialize-serialize_tx_hash}
use arkd.Asset.Ids.{
  AssetId, AssetRef, zero_asset_id, validate_id, serialize_id, new_asset_id_from_reader,
  validate_ref, serialize_ref, new_asset_ref_from_reader,
}

length-serialize_id : (a : AssetId) → length a.txid ≡ 32 → length (serialize_id a) ≡ 34
unfolding serialize_id serialize_tx_hash serialize_uint16
length-serialize_id a h = ground (
  arith,
  length-append (serialize_tx_hash a.txid) (serialize_uint16 a.index),
  length-reverse_bytes a.txid,
)

abbrev pub IsId : AssetId → Type 0
IsId a = (length a.txid ≡ 32) × (a.index < 2 ^ 16)

-- A valid id with a hash of 32 bytes and an index that fits a uint16 is read back as it was
-- written.
pub new_asset_id_from_reader-serialize_id :
    (a : AssetId) (rest : Bytes)
    → IsId a
    → validate_id a ≡ none
    → new_asset_id_from_reader (serialize_id a ++ rest) ≡ ok (a, rest)
unfolding new_asset_id_from_reader
new_asset_id_from_reader-serialize_id a rest h v = rw (
  long,
  parts,
  deserialize-serialize_tx_hash a.txid (serialize_uint16 a.index ++ rest) h.0,
  deserialize-serialize_uint16 a.index rest h.1,
  v,
)
  where
    long : ltb (length (serialize_id a ++ rest)) 34 ≡ false
    long = ground (arith, length-serialize_id a h.0, length-append (serialize_id a) rest)

    parts : serialize_id a ++ rest ≡ serialize_tx_hash a.txid ++ (serialize_uint16 a.index ++ rest)
    parts = unfold serialize_id in append_assoc (serialize_tx_hash a.txid) _ rest

-- The fields that the type of a reference does not use are zero.
pub data IsRef : AssetRef → Type 0 where
  by_id : (a : AssetId) → IsId a → IsRef (record { type = 1; asset_id = a; group_index = 0 })
  by_group :
      (i : ℕ) → i < 2 ^ 16 → IsRef (record { type = 2; asset_id = zero_asset_id; group_index = i })

-- A valid reference by id or by group, whose other field is zero and whose numbers fit their
-- types, is read back as it was written.
pub new_asset_ref_from_reader-serialize_ref :
    {ref : AssetRef} (rest : Bytes)
    → IsRef ref
    → validate_ref ref ≡ none
    → new_asset_ref_from_reader (serialize_ref ref ++ rest) ≡ ok (ref, rest)
unfolding new_asset_ref_from_reader serialize_ref read_byte validate_ref
new_asset_ref_from_reader-serialize_ref rest (by_id a h) v =
    rw (new_asset_id_from_reader-serialize_id a rest h v, v)
new_asset_ref_from_reader-serialize_ref rest (by_group i h) v =
    rw (deserialize-serialize_uint16 i rest h)
