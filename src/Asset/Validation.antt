-- ===== src/Asset/Validation.antt =====
-- pkg/ark-lib/asset/tx_validation.go: an asset packet against the transaction that carries it, and
-- `IsSubDustScript` of pkg/ark-lib/script/script.go. The hash of a transaction, the hexadecimal
-- encoding and the tokeniser of scripts belong to libraries, and are parameters.
pub mod Held
pub mod Groups
pub mod Conservation
pub mod Coverage
pub mod Issuance
pub mod Targets
mod Examples
use arkd.Base.{
  ℕ, suc, ◌+◌, ◌%◌, ◌^◌, String, Bool, true, false, not, ◌&&◌, ◌||◌, List, [], ◌∷◌, Option, none,
  some, ltb, leb, ◌==◌, if◌then◌else◌, is_nil, length, str_eq, get_elem?,
}
use arkd.Base.Results.{Result, ok, err}
use arkd.Asset.{Asset}
use arkd.Asset.Bytes.{Bytes, eq_bytes}
use arkd.Asset.Ids.{AssetId, AssetRef, serialize_id, asset_ref_by_id, asset_ref_by_group}
use arkd.Asset.Inputs.{AssetInput, input_intent, seen_before}
use arkd.Asset.Outputs.{AssetOutput}
use arkd.Asset.Group.{AssetGroup, is_issuance, is_reissuance}
use arkd.Asset.Packet.{Packet, serialize_packet}
use arkd.Asset.Tx.{
  Tx, TxError, AssetSource, Prevouts, asset_validation_failed, control_asset_invalid,
  asset_not_found, asset_input_invalid, asset_output_invalid, assets_at, op_return, find_packet,
  issued_by_group, input_of, loop, Scan, scan_outputs, is_anchor, check_held, or_else,
}

-- A library's token of a script: its opcode, its data, and what follows it.
abbrev pub Token : Type 0
Token = ℕ × (Option Bytes × Bytes)

module _ (hex : Bytes → String) (tx_hash : Tx → Bytes) (next : Bytes → Option Token) where
  pub is_sub_dust_script : Bytes → Bool
  is_sub_dust_script script = elim (next script) [
    | none ↦ false
    | some (opcode, (data₁, rest)) ↦ (opcode == op_return) && (elim (next rest) [
      | none ↦ false
      | some (opcode₂, (none, rest₂)) ↦ false
      | some (opcode₂, (some bs, rest₂)) ↦ length bs == 32
    ])
  ]

  -- `String`: the writer of `Serialize` never fails, and neither validates the id.
  pub id_string : AssetId → String
  id_string a = hex (serialize_id a)

  abbrev pub has_id : String → Option AssetId → Bool
  has_id id none = false
  has_id id (some a) = str_eq (id_string a) id

  abbrev pub find_asset_group_by_asset_id : Packet → String → Option AssetGroup
  find_asset_group_by_asset_id [] id = none
  find_asset_group_by_asset_id (g ∷ gs) id =
      if has_id id g.asset_id then some g else find_asset_group_by_asset_id gs id

  abbrev pub control_spent : Packet → String → Option TxError
  control_spent packet control = elim (find_asset_group_by_asset_id packet control) [
    | none ↦ some asset_not_found
    | some g ↦ if is_nil g.inputs then some control_asset_invalid else none
  ]

  abbrev pub validate_reissuance : Packet → String → Option AssetSource → Option TxError
  validate_reissuance packet id none = some asset_validation_failed
  validate_reissuance packet id (some src) = elim (src.get_control_asset id) [
    | none ↦ some asset_validation_failed
    | some control ↦
        if str_eq control "" then some control_asset_invalid else control_spent packet control
  ]

  abbrev pub exists_by_id : AssetId → Option AssetSource → Option TxError
  exists_by_id a none = some asset_validation_failed
  exists_by_id a (some src) =
      if src.asset_exists (id_string a) then none else some asset_validation_failed

  abbrev pub validate_issuance : Packet → AssetGroup → Option AssetSource → Option TxError
  validate_issuance packet g src = elim g.control_asset [
    | none ↦ none
    | some ref ↦
        if ref.type == asset_ref_by_id
        then exists_by_id ref.asset_id src
        else if ref.type == asset_ref_by_group
        then issued_by_group packet ref.group_index
        else some asset_validation_failed
  ]

  abbrev pub validate_input_asset : Packet → ℕ → Asset → Option TxError
  validate_input_asset packet v a = elim (find_asset_group_by_asset_id packet a.asset_id) [
    | none ↦ some asset_not_found
    | some g ↦ input_of (v % 2 ^ 16) a.amount g.inputs
  ]

  abbrev pub validate_input_assets : Prevouts → Packet → Option TxError
  validate_input_assets prevouts packet =
      loop (λ p. loop (validate_input_asset packet p.0) p.1) prevouts

  abbrev pub validate_group_output : List Bytes → Scan → AssetOutput → Option TxError
  validate_group_output scripts s o = elim (get_elem? scripts o.vout) [
    | none ↦ some asset_output_invalid
    | some script ↦
        if is_anchor o.vout s.anchor_index
        then some asset_output_invalid
        else if seen_before o.vout s.op_return_outputs && not (is_sub_dust_script script)
        then some asset_output_invalid
        else none
  ]

  abbrev pub validate_group_outputs : Tx → AssetGroup → Option TxError
  validate_group_outputs tx g =
      let s = scan_outputs 0 tx.tx_out (record { anchor_index = none; op_return_outputs = [] }) in
      loop (validate_group_output tx.tx_out s) g.outputs

  abbrev pub validate_group_input : Tx → String → Prevouts → AssetInput → Option TxError
  validate_group_input tx id prevouts i =
      let held : Option TxError = elim (assets_at i.vin prevouts) [
        | none ↦ some asset_input_invalid
        | some assets ↦ check_held id i.amount assets
      ] in
      if i.type == input_intent || leb tx.tx_in i.vin then some asset_input_invalid else held

  abbrev pub validate_group_inputs : Tx → String → Prevouts → AssetGroup → Option TxError
  validate_group_inputs tx id prevouts g = loop (validate_group_input tx id prevouts) g.inputs

  -- The id of the group at an index: an issuance takes that of the transaction.
  abbrev pub group_id : Tx → ℕ → AssetGroup → String
  group_id tx k g = elim g.asset_id [
    | none ↦ id_string (record { txid = tx_hash tx; index = k % 2 ^ 16 })
    | some a ↦ id_string a
  ]

  -- The body of the loop over the groups.
  pub validate_tx_group :
      Tx → Packet → Prevouts → Option AssetSource → ℕ → AssetGroup → Option TxError
  validate_tx_group tx packet prevouts src k g =
      let id = group_id tx k g in
      or_else (if is_issuance g then validate_issuance packet g src else none) (
        or_else (if is_reissuance g then validate_reissuance packet id src else none)
          (or_else (validate_group_outputs tx g) (validate_group_inputs tx id prevouts g)))

  pub validate_tx_groups :
      Tx → Packet → Prevouts → Option AssetSource → ℕ → List AssetGroup → Option TxError
  validate_tx_groups tx packet prevouts src k [] = none
  validate_tx_groups tx packet prevouts src k (g ∷ gs) =
      let rest = validate_tx_groups tx packet prevouts src (suc k) gs in
      or_else (validate_tx_group tx packet prevouts src k g) rest

  -- A packet in an output with OP_RETURN, or no packet and no asset spent.
  pub validate_carried : Tx → Packet → Prevouts → Option TxError
  validate_carried tx [] prevouts = if is_nil prevouts then none else some asset_validation_failed
  validate_carried tx (g ∷ gs) prevouts = elim (serialize_packet (g ∷ gs)) [
    | err e ↦ some asset_validation_failed
    | ok b ↦ if find_packet b tx.tx_out then none else some asset_validation_failed
  ]

  pub validate_asset_transaction : Tx → Packet → Prevouts → Option AssetSource → Option TxError
  validate_asset_transaction tx packet prevouts src =
      or_else (validate_carried tx packet prevouts) (
        or_else (validate_input_assets prevouts packet)
          (validate_tx_groups tx packet prevouts src 0 packet))
