-- ===== src/Asset/Packet/RoundTrip.antt =====
-- The round trip of packets (pkg/ark-lib/asset/packet.go).
use mathlib.Core.List.{append_assoc, append-nil}
use arkd.Base.{
  ℕ, ◌≤◌, ◌≡◌, false, List, [], ◌∷◌, ◌++◌, Option, none, length, arith, All, ltb, Option-cases, inl,
  inr,
}
use arkd.Base.Results.{ok, >>=-eq-ok}
use arkd.Asset.{AssetError, accepted}
use arkd.Asset.Bytes.{Bytes, write_all, read_n, serialize_var_uint}
use arkd.Asset.Bytes.Varint.{deserialize-serialize_var_uint}
use arkd.Asset.Ids.{AssetId}
use arkd.Asset.Inputs.{validate_inputs}
use arkd.Asset.Group.{
  AssetGroup, validate_group, first_error, write_group, new_asset_group_from_reader,
}
use arkd.Asset.Group.RoundTrip.{
  IsGroup, first_error-nil, first_error-valid, first_error-failed,
  new_asset_group_from_reader-write_group,
}
use arkd.Asset.Packet.{
  Packet, validate_groups, validate_packet, serialize_packet, new_packet_from_bytes, remember,
}

-- The list validation of the inputs, which `AssetGroup.validate` leaves out.
abbrev pub list_error : AssetGroup → Option AssetError
list_error g = validate_inputs g.inputs

groups_valid :
    (n : ℕ) (seen : List AssetId) (p : Packet)
    → validate_groups n seen p ≡ none
    → All (λ g. validate_group g ≡ none) p
unfolding validate_groups
groups_valid n seen [] h = tt
groups_valid n seen (g ∷ gs) h = ground (arith, groups_valid n (remember g.asset_id seen) gs)

packet_valid : (p : Packet) → validate_packet p ≡ none → All (λ g. validate_group g ≡ none) p
unfolding validate_packet
packet_valid p h = ground (arith, groups_valid (length p) [] p)

packet_few : (p : Packet) → validate_packet p ≡ none → length p ≤ 1000
unfolding validate_packet
packet_few p h = ground arith

-- The groups are read back up to the first whose input list fails its validation.
read_groups :
    (p : Packet) (b rest : Bytes)
    → All IsGroup p
    → All (λ g. validate_group g ≡ none) p
    → write_all write_group p ≡ ok b
    → read_n new_asset_group_from_reader (length p) (b ++ rest)
      ≡ accepted (first_error list_error p) (p, rest)
unfolding read_n write_all
read_groups [] b rest h v e = ground (arith, first_error-nil list_error)
read_groups (g ∷ gs) b rest (h, hs) (v, vs) e =
    let (b₁, e₁, e') = >>=-eq-ok (write_group g) _ e in
    let (b₂, e₂, e₃) = >>=-eq-ok (write_all write_group gs) _ e' in
    let parts : b₁ ++ b₂ ≡ b = cc in
    rw (← parts, append_assoc, new_asset_group_from_reader-write_group g b₁ (b₂ ++ rest) h v e₁)
      (elim (Option-cases (list_error g)) [
        | inr (x, found) ↦ rw (first_error-failed list_error g gs found, found)
        | inl none_found ↦
            rw
              (
                first_error-valid list_error g gs none_found,
                none_found,
                read_groups gs b₂ rest hs vs e₂,
              )
              (elim (Option-cases (first_error list_error gs)) [
                | inr (y, later) ↦ rw later
                | inl all_valid ↦ rw all_valid
              ])
      ])

-- For a packet that `NewPacket` accepts, with lists of at most 1000 items and fields of the widths
-- of their Go types: from what `Serialize` wrote of it, `NewPacketFromBytes` returns the packet if
-- the input list of every group passes the validation of lists, and otherwise the error of the
-- first list that fails it.
pub new_packet_from_bytes-serialize_packet :
    (p : Packet) (b : Bytes)
    → All IsGroup p
    → validate_packet p ≡ none
    → serialize_packet p ≡ ok b
    → new_packet_from_bytes b ≡ accepted (first_error list_error p) p
unfolding new_packet_from_bytes serialize_packet
new_packet_from_bytes-serialize_packet [] b h v e = absurd (unfold validate_packet in cc)
new_packet_from_bytes-serialize_packet (g ∷ gs) b h v e =
    let p : Packet = g ∷ gs in
    let (bs, e₁, e₂) = >>=-eq-ok (write_all write_group p) _ e in
    let parts : serialize_var_uint (length p) ++ bs ≡ b = cc in
    let n : length p ≤ 1000 = packet_few p v in
    let few : ltb 1000 (length p) ≡ false = ground arith in
    rw
      (
        ← parts,
        deserialize-serialize_var_uint (length p) bs (omega arith),
        ← append-nil bs,
        read_groups p bs [] h (packet_valid p v) e₁,
        few,
      )
      (elim (Option-cases (first_error list_error p)) [
        | inr (x, found) ↦ rw found
        | inl none_found ↦ rw (none_found, v)
      ])
