-- ===== src/Asset/Validation/Issuance.antt =====
-- The control asset of an issuance (`validateIssuance` of pkg/ark-lib/asset/tx_validation.go).
use arkd.Base.{
  ℕ, ◌≡◌, refl, String, true, Option, none, some, ◌==◌, get_elem?, arith, Option-cases, Bool-cases,
  inl, inr,
}
use arkd.Asset.Bytes.{Bytes}
use arkd.Asset.Ids.{AssetId, AssetRef}
use arkd.Asset.Group.{AssetGroup, is_issuance}
use arkd.Asset.Packet.{Packet}
use arkd.Asset.Tx.{Tx, AssetSource, Prevouts, issued_by_group}
use arkd.Asset.Validation.{
  Token, id_string, exists_by_id, validate_issuance, validate_tx_group, validate_asset_transaction,
}
use arkd.Asset.Validation.Groups.{packet_group_at, all_checked}

module _ (hex : Bytes → String) (tx_hash : Tx → Bytes) (next : Bytes → Option Token) where
  -- Where the control asset of an issuance comes from.
  pub data Controlled (packet : Packet) (src : Option AssetSource) : Option AssetRef → Type 0 where
    uncontrolled : Controlled packet src none
    by_id :
        (ref : AssetRef) (s : AssetSource)
        → ref.type ≡ 1
        → src ≡ some s
        → s.asset_exists (id_string hex tx_hash next ref.asset_id) ≡ true
        → Controlled packet src (some ref)
    by_group :
        (ref : AssetRef) (g : AssetGroup)
        → ref.type ≡ 2
        → get_elem? packet ref.group_index ≡ some g
        → is_issuance g ≡ true
        → Controlled packet src (some ref)

  existing :
      (a : AssetId) (src : Option AssetSource)
      → exists_by_id hex tx_hash next a src ≡ none
      → (s : AssetSource) × (src ≡ some s) × (s.asset_exists (id_string hex tx_hash next a) ≡ true)
  existing a none h = cc
  existing a (some s) h = (s, refl, ground arith)

  ref-Controlled :
      (packet : Packet) (src : Option AssetSource) (g : AssetGroup) (o : Option AssetRef)
      → g.control_asset ≡ o
      → validate_issuance hex tx_hash next packet g src ≡ none
      → Controlled packet src o
  ref-Controlled packet src g none e h = uncontrolled
  ref-Controlled packet src g (some ref) e h = elim (Bool-cases (ref.type == 1)) [
    | inl is_id ↦
        let (s, given, there) = existing ref.asset_id src (ground arith) in
        by_id ref s (ground arith) given there
    | inr not_id ↦
        let in_packet : issued_by_group packet ref.group_index ≡ none = ground arith in
        elim (Option-cases (get_elem? packet ref.group_index)) [
          | inl missing ↦ absurd (ground arith)
          | inr (f, at) ↦ by_group ref f (ground arith) at (ground arith)
        ]
  ]

  -- In a validated transaction, an issuance has no control asset, or one by id that the given
  -- source knows, or one by the index of a group of the packet that is an issuance.
  pub validate_asset_transaction-Controlled :
      (tx : Tx) (packet : Packet) (ps : Prevouts) (src : Option AssetSource) (k : ℕ)
      (g : AssetGroup)
      → validate_asset_transaction hex tx_hash next tx packet ps src ≡ none
      → get_elem? packet k ≡ some g
      → is_issuance g ≡ true
      → Controlled packet src g.control_asset
  unfolding validate_tx_group
  validate_asset_transaction-Controlled tx packet ps src k g h at issued =
      let group =
        packet_group_at hex tx_hash next tx packet ps src k g
          (all_checked hex tx_hash next tx packet ps src h) at in
      ref-Controlled packet src g g.control_asset refl (ground arith)
