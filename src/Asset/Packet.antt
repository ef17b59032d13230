-- ===== src/Asset/Packet.antt =====
-- pkg/ark-lib/asset/packet.go: the groups that a transaction carries.
pub mod RoundTrip
pub mod Leaf
use arkd.Base.{
  ℕ, Bool, true, false, not, ◌&&◌, ◌||◌, List, [], ◌∷◌, ◌++◌, Option, none, some, ltb, leb, ◌==◌,
  if◌then◌else◌, is_nil, length, map,
}
use arkd.Base.Results.{Result, ok, err, ◌>>=◌}
use arkd.Asset.{
  AssetError, missing_assets, too_many_groups, duplicate_group, control_index_out_of_range,
  bytes_left, accepted,
}
use arkd.Asset.Bytes.{
  Bytes, Read, eq_bytes, serialize_var_uint, deserialize_var_uint, write_all, read_n,
}
use arkd.Asset.Ids.{AssetId, AssetRef, asset_ref_by_group}
use arkd.Asset.Group.{
  AssetGroup, validate_group, write_group, new_asset_group_from_reader, to_batch_leaf_asset_group,
}

abbrev pub Packet : Type 0
Packet = List AssetGroup

abbrev pub max_asset_group_count : ℕ
max_asset_group_count = 1000

unfoldable pub eq_id : AssetId → AssetId → Bool
eq_id a b = eq_bytes a.txid b.txid && a.index == b.index

-- `_, ok := seen[*asset.AssetId]`
unfoldable pub was_seen : Option AssetId → List AssetId → Bool
was_seen none seen = false
was_seen (some a) [] = false
was_seen (some a) (b ∷ seen) = eq_id a b || was_seen (some a) seen

unfoldable pub remember : Option AssetId → List AssetId → List AssetId
remember none seen = seen
remember (some a) seen = a ∷ seen

-- Whether a control asset refers to a group that is not in the packet.
unfoldable pub out_of_range : ℕ → Option AssetRef → Bool
out_of_range n none = false
out_of_range n (some ref) = ref.type == asset_ref_by_group && leb n ref.group_index

-- The loop of `validate` over the groups of a packet of `n`, with the ids so far.
unfoldable pub validate_groups : ℕ → List AssetId → Packet → Option AssetError
validate_groups n seen [] = none
validate_groups n seen (g ∷ gs) =
    let rest = validate_groups n (remember g.asset_id seen) gs in
    let range = if out_of_range n g.control_asset then some control_index_out_of_range else rest in
    if was_seen g.asset_id seen
    then some duplicate_group
    else elim (validate_group g) [ none ↦ range | some e ↦ some e ]

unfoldable pub validate_packet : Packet → Option AssetError
validate_packet p =
    if is_nil p
    then some missing_assets
    else if ltb max_asset_group_count (length p)
    then some too_many_groups
    else validate_groups (length p) [] p

pub new_packet : List AssetGroup → Result AssetError Packet
new_packet groups = accepted (validate_packet groups) groups

-- An empty packet is written as no bytes.
unfoldable pub serialize_packet : Packet → Result AssetError Bytes
serialize_packet [] = ok []
serialize_packet (g ∷ gs) = do
  bs ← write_all write_group (g ∷ gs)
  ok (serialize_var_uint (length (g ∷ gs)) ++ bs)

pub new_packet_from_bytes : Bytes → Result AssetError Packet
new_packet_from_bytes buf = do
  (count, r) ← deserialize_var_uint buf
  let items : Result AssetError Packet = do
    (p, r') ← read_n new_asset_group_from_reader count r
    if is_nil r' then accepted (validate_packet p) p else err (bytes_left (length r'))
  if ltb max_asset_group_count count then err too_many_groups else items

unfoldable pub leaf_tx_packet : Bytes → Packet → Packet
leaf_tx_packet intent_txid p = map (to_batch_leaf_asset_group intent_txid) p
