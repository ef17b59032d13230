-- ===== src/Asset/Packet/Leaf.antt =====
-- The packet of a batch leaf (`LeafTxPacket` of pkg/ark-lib/asset/packet.go) and its validity.
use arkd.Base.{ℕ, ◌≡◌, ◌↔◌, refl, false, List, [], ◌∷◌, none, length, arith, All}
use arkd.Asset.Bytes.{Bytes, eq_bytes}
use arkd.Asset.Ids.{AssetId, empty_tx_hash}
use arkd.Asset.Inputs.{validate_input}
use arkd.Asset.Group.{
  AssetGroup, is_issuance, validate_group, validate_kind, or_else, first_error,
  to_batch_leaf_asset_group,
}
use arkd.Asset.Packet.{Packet, validate_groups, validate_packet, remember, leaf_tx_packet}

leaf-validate_group :
    (t : Bytes) (g : AssetGroup)
    → eq_bytes t empty_tx_hash ≡ false
    → validate_group g ≡ none
    → (validate_group (to_batch_leaf_asset_group t g) ≡ none) ↔ (is_issuance g ≡ false)
unfolding validate_group validate_kind or_else to_batch_leaf_asset_group first_error validate_input
leaf-validate_group t g h v = ground arith

leaf-validate_groups :
    (t : Bytes) (n : ℕ) (seen : List AssetId) (p : Packet)
    → eq_bytes t empty_tx_hash ≡ false
    → validate_groups n seen p ≡ none
    → (validate_groups n seen (leaf_tx_packet t p) ≡ none) ↔ All (λ g. is_issuance g ≡ false) p
unfolding leaf_tx_packet validate_groups to_batch_leaf_asset_group
leaf-validate_groups t n seen [] h v = (λ _. tt, λ _. refl)
leaf-validate_groups t n seen (g ∷ gs) h v =
    ground (arith, leaf-validate_group t g, leaf-validate_groups t n (remember g.asset_id seen) gs)

length-leaf_tx_packet : (t : Bytes) (p : Packet) → length (leaf_tx_packet t p) ≡ length p
unfolding leaf_tx_packet
length-leaf_tx_packet t [] = refl
length-leaf_tx_packet t (g ∷ gs) = omega (arith, length-leaf_tx_packet t gs)

-- The batch leaf's form of a valid packet, with an intent whose txid is not zero, is a valid packet
-- exactly if no group is an issuance.
pub leaf_tx_packet-valid_iff :
    (t : Bytes) (p : Packet)
    → eq_bytes t empty_tx_hash ≡ false
    → validate_packet p ≡ none
    → (validate_packet (leaf_tx_packet t p) ≡ none) ↔ All (λ g. is_issuance g ≡ false) p
unfolding validate_packet
leaf_tx_packet-valid_iff t p h v =
    ground (arith, length-leaf_tx_packet t p, leaf-validate_groups t (length p) [] p)
