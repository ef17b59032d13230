-- ===== src/Asset/Validation/Groups.antt =====
-- What the checks of the groups say of a group and its inputs (pkg/ark-lib/asset/tx_validation.go).
use arkd.Base.{
  ℕ, ◌+◌, ◌<◌, ◌==◌, ◌≡◌, inl, inr, refl, String, true, false, List, [], ◌∷◌, Option, none, some,
  All, eq_iff, get_elem?, subst, zero, suc, arith, Option-cases, Bool-cases,
}
use arkd.Asset.{Asset}
use arkd.Asset.Bytes.{Bytes}
use arkd.Asset.Ids.{AssetId}
use arkd.Asset.Inputs.{AssetInput, input_intent}
use arkd.Asset.Group.{AssetGroup}
use arkd.Asset.Packet.{Packet}
use arkd.Asset.Tx.{Tx, AssetSource, Prevouts, assets_at, check_held}
use arkd.Asset.Validation.{
  Token, has_id, id_string, find_asset_group_by_asset_id, validate_group_input,
  validate_group_inputs, validate_tx_group, validate_tx_groups, validate_asset_transaction,
}
use arkd.Asset.Validation.Held.{IsHeld, check_held-amount_of, check_held-holds, holds}

-- An input of the transaction whose prevout holds an asset of the id.
abbrev pub Spends : String → Prevouts → AssetInput → Type 0
Spends id ps i =
    (assets : List Asset) × ((assets_at i.vin ps ≡ some assets) × (holds id assets ≡ true))

module _ (hex : Bytes → String) (tx_hash : Tx → Bytes) (next : Bytes → Option Token) where
  input-IsHeld :
      (tx : Tx) (id : String) (ps : Prevouts) (i : AssetInput)
      → validate_group_input hex tx_hash next tx id ps i ≡ none
      → IsHeld id ps i × Spends id ps i
  input-IsHeld tx id ps i h = elim (Option-cases (assets_at i.vin ps)) [
    | inl missing ↦ absurd (ground arith)
    | inr (assets, at) ↦
        let ok_held : check_held id i.amount assets ≡ none = ground arith in
        (
          (assets, (at, check_held-amount_of id i.amount assets ok_held)),
          (assets, (at, check_held-holds id i.amount assets ok_held)),
        )
  ]

  pub inputs-IsHeld :
      (tx : Tx) (id : String) (ps : Prevouts) (ins : List AssetInput)
      → All (λ i. validate_group_input hex tx_hash next tx id ps i ≡ none) ins
      → All (IsHeld id ps) ins
  inputs-IsHeld tx id ps [] h = tt
  inputs-IsHeld tx id ps (i ∷ ins) (h, hs) =
      ((input-IsHeld tx id ps i h).0, inputs-IsHeld tx id ps ins hs)

  -- The group at an index passed the checks of a group.
  group_at :
      (tx : Tx) (packet : Packet) (ps : Prevouts) (src : Option AssetSource) (j : ℕ)
      (gs : List AssetGroup) (k : ℕ) (g : AssetGroup)
      → validate_tx_groups hex tx_hash next tx packet ps src j gs ≡ none
      → get_elem? gs k ≡ some g
      → validate_tx_group hex tx_hash next tx packet ps src (j + k) g ≡ none
  unfolding validate_tx_groups
  group_at tx packet ps src j [] k g h e = cc
  group_at tx packet ps src j (f ∷ gs) zero g h e = ground arith
  group_at tx packet ps src j (f ∷ gs) (suc k) g h e =
      let rest = group_at tx packet ps src (suc j) gs k g (ground arith) e in
      subst (λ n. validate_tx_group hex tx_hash next tx packet ps src n g ≡ none) (omega arith) rest

  pub packet_group_at :
      (tx : Tx) (packet : Packet) (ps : Prevouts) (src : Option AssetSource) (k : ℕ)
      (g : AssetGroup)
      → validate_tx_groups hex tx_hash next tx packet ps src 0 packet ≡ none
      → get_elem? packet k ≡ some g
      → validate_tx_group hex tx_hash next tx packet ps src k g ≡ none
  packet_group_at tx packet ps src k g h e =
      subst (λ n. validate_tx_group hex tx_hash next tx packet ps src n g ≡ none) (omega arith)
        (group_at tx packet ps src 0 packet k g h e)

  pub find-get_elem? :
      (gs : List AssetGroup) (id : String) {g : AssetGroup}
      → find_asset_group_by_asset_id hex tx_hash next gs id ≡ some g
      → (k : ℕ) × ((get_elem? gs k ≡ some g) × (has_id hex tx_hash next id g.asset_id ≡ true))
  find-get_elem? [] id h = cc
  find-get_elem? (g ∷ gs) id h = elim (Bool-cases (has_id hex tx_hash next id g.asset_id)) [
    | inl found ↦ (0, (ground arith, ground arith))
    | inr other ↦ let (k, (at, same)) = find-get_elem? gs id (ground arith) in (suc k, (at, same))
  ]

  -- A group with an id, once it passed: its inputs are held, and a reissuance is controlled.
  pub checked_inputs :
      (tx : Tx) (packet : Packet) (ps : Prevouts) (src : Option AssetSource) (k : ℕ)
      (g : AssetGroup) (a : AssetId)
      → validate_tx_group hex tx_hash next tx packet ps src k g ≡ none
      → g.asset_id ≡ some a
      → validate_group_inputs hex tx_hash next tx (id_string hex tx_hash next a) ps g ≡ none
  unfolding validate_tx_group
  checked_inputs tx packet ps src k g a h same = ground arith

  -- An input that passed is local, is one of the transaction, and spends the asset.
  pub input-Spends :
      (tx : Tx) (id : String) (ps : Prevouts) (i : AssetInput)
      → validate_group_input hex tx_hash next tx id ps i ≡ none
      → ((i.type == input_intent) ≡ false) × (i.vin < tx.tx_in) × Spends id ps i
  input-Spends tx id ps i h = (ground arith, ground arith, (input-IsHeld tx id ps i h).1)

  pub has_id-id_string :
      (id : String) (o : Option AssetId)
      → has_id hex tx_hash next id o ≡ true
      → (a : AssetId) × ((o ≡ some a) × (id_string hex tx_hash next a ≡ id))
  has_id-id_string id none h = cc
  has_id-id_string id (some a) h = (a, (refl, (eq_iff (id_string hex tx_hash next a) id).0 h))

  pub all_checked :
      (tx : Tx) (packet : Packet) (ps : Prevouts) (src : Option AssetSource)
      → validate_asset_transaction hex tx_hash next tx packet ps src ≡ none
      → validate_tx_groups hex tx_hash next tx packet ps src 0 packet ≡ none
  unfolding validate_asset_transaction
  all_checked tx packet ps src h = ground arith
