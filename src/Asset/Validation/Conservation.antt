-- ===== src/Asset/Validation/Conservation.antt =====
-- Conservation of amounts under pkg/ark-lib/asset/tx_validation.go.
use arkd.Base.{
  ℕ, ◌≤◌, ◌<◌, ◌==◌, sym, ◌≡◌, ◌⊎◌, inl, inr, refl, String, true, false, List, [], ◌∷◌, Option,
  none, some, All, is_nil, get_elem?, subst, arith, map, Option-cases, Bool-cases,
}
use arkd.Asset.Bytes.{Bytes}
use arkd.Asset.Ids.{AssetId}
use arkd.Asset.Inputs.{AssetInput, input_intent, validate_inputs}
use arkd.Asset.Group.{AssetGroup, safe_sum, is_reissuance}
use arkd.Asset.Packet.{Packet}
use arkd.Asset.Tx.{Tx, AssetSource, Prevouts}
use arkd.Asset.Validation.{
  Token, validate_reissuance, id_string, find_asset_group_by_asset_id, validate_group_input,
  validate_tx_group, validate_tx_groups, validate_asset_transaction,
}
use arkd.Asset.Validation.Held.{held, sum-held, loop-All, validate_inputs-DistinctVins}
use arkd.Asset.Validation.Groups.{
  Spends, inputs-IsHeld, packet_group_at, find-get_elem?, checked_inputs, has_id-id_string,
  input-Spends, all_checked,
}

module _ (hex : Bytes → String) (tx_hash : Tx → Bytes) (next : Bytes → Option Token) where
  -- The source names a control asset of the id, the packet has a group of it, and an input of that
  -- group, which is local and an input of the transaction, spends it.
  pub record ControlSpent (tx : Tx) (packet : Packet) (src : Option AssetSource) (ps : Prevouts)
      (id : String) : Type 0 where
    pub source : AssetSource
    pub given : src ≡ some source
    pub control : AssetId
    pub controls : source.get_control_asset id ≡ some (id_string hex tx_hash next control)
    pub position : ℕ
    pub group : AssetGroup
    pub grouped : get_elem? packet position ≡ some group
    pub of_control : group.asset_id ≡ some control
    pub index : ℕ
    pub input : AssetInput
    pub listed : get_elem? group.inputs index ≡ some input
    pub is_local : (input.type == input_intent) ≡ false
    pub in_tx : input.vin < tx.tx_in
    pub spent : Spends (id_string hex tx_hash next control) ps input

  checked_reissuance :
      (tx : Tx) (packet : Packet) (ps : Prevouts) (src : Option AssetSource) (k : ℕ)
      (g : AssetGroup) (a : AssetId)
      → validate_tx_group hex tx_hash next tx packet ps src k g ≡ none
      → g.asset_id ≡ some a
      → is_reissuance g ≡ true
      → validate_reissuance hex tx_hash next packet (id_string hex tx_hash next a) src ≡ none
  unfolding validate_tx_group
  checked_reissuance tx packet ps src k g a h same again = ground arith

  -- What a validated reissuance knows of its control asset.
  reissuance-control :
      (packet : Packet) (id : String) (src : Option AssetSource)
      → validate_reissuance hex tx_hash next packet id src ≡ none
      → (s : AssetSource) × (c : String) × (g : AssetGroup) × (src ≡ some s)
        × (s.get_control_asset id ≡ some c)
        × (find_asset_group_by_asset_id hex tx_hash next packet c ≡ some g)
        × (is_nil g.inputs ≡ false)
  reissuance-control packet id none h = cc
  reissuance-control packet id (some s) h = elim (Option-cases (s.get_control_asset id)) [
    | inl missing ↦ absurd (ground arith)
    | inr (c, named) ↦
        elim (Option-cases (find_asset_group_by_asset_id hex tx_hash next packet c)) [
          | inl missing ↦ absurd (ground arith)
          | inr (g, found) ↦ (s, c, g, refl, named, found, ground arith)
        ]
  ]

  first-Spends :
      (tx : Tx) (id : String) (ps : Prevouts) (ins : List AssetInput)
      → All (λ i. validate_group_input hex tx_hash next tx id ps i ≡ none) ins
      → is_nil ins ≡ false
      → (i : AssetInput) × (get_elem? ins 0 ≡ some i)
        × ((i.type == input_intent) ≡ false)
        × (i.vin < tx.tx_in)
        × Spends id ps i
  first-Spends tx id ps [] h full = cc
  first-Spends tx id ps (i ∷ ins) (h, hs) full =
      let (is_local, in_tx, spent) = input-Spends hex tx_hash next tx id ps i h in
      (i, refl, is_local, in_tx, spent)

  reissuance-ControlSpent :
      (tx : Tx) (packet : Packet) (ps : Prevouts) (src : Option AssetSource) (id : String)
      → validate_tx_groups hex tx_hash next tx packet ps src 0 packet ≡ none
      → validate_reissuance hex tx_hash next packet id src ≡ none
      → ControlSpent tx packet src ps id
  reissuance-ControlSpent tx packet ps src id all h =
      let (s, c, g, given, named, found, full) = reissuance-control packet id src h in
      let (k, (at, same)) = find-get_elem? hex tx_hash next packet c found in
      let (a, (has, is_c)) = has_id-id_string hex tx_hash next c g.asset_id same in
      let checked =
        checked_inputs hex tx_hash next tx packet ps src k g a
          (packet_group_at hex tx_hash next tx packet ps src k g all at) has in
      let checks =
        loop-All (validate_group_input hex tx_hash next tx (id_string hex tx_hash next a) ps)
          g.inputs checked in
      let (i, listed, is_local, in_tx, spent) =
        first-Spends tx (id_string hex tx_hash next a) ps g.inputs checks full in
      record {
        source = s;
        given = given;
        control = a;
        controls = subst (λ n. s.get_control_asset id ≡ some n) (sym is_c) named;
        position = k;
        group = g;
        grouped = at;
        of_control = has;
        index = 0;
        input = i;
        listed = listed;
        is_local = is_local;
        in_tx = in_tx;
        spent = spent;
      }

  -- Without a reissuance the outputs amount to no more than the inputs.
  not_reissued :
      (g : AssetGroup) (a : AssetId)
      → g.asset_id ≡ some a
      → is_reissuance g ≡ false
      → safe_sum (map (λ o. o.amount) g.outputs) ≤ safe_sum (map (λ i. i.amount) g.inputs)
  unfolding is_reissuance
  not_reissued g a same h = ground arith

  -- For every hexadecimal encoding, transaction hash and script tokeniser: in a validated
  -- transaction, if the input list of a group of an issued asset passes its own validation, then
  -- the outputs of the group amount to no more than the prevouts hold of that asset, or the source
  -- names a control asset of it, the packet has a group of that control asset, and an input of that
  -- group, which is local and an input of the transaction, spends the control asset.
  pub validate_asset_transaction-conserves :
      (tx : Tx) (packet : Packet) (ps : Prevouts) (src : Option AssetSource) (k : ℕ)
      (g : AssetGroup) (a : AssetId)
      → validate_asset_transaction hex tx_hash next tx packet ps src ≡ none
      → get_elem? packet k ≡ some g
      → g.asset_id ≡ some a
      → validate_inputs g.inputs ≡ none
      → (safe_sum (map (λ o. o.amount) g.outputs) ≤ held (id_string hex tx_hash next a) ps)
        ⊎ ControlSpent tx packet src ps (id_string hex tx_hash next a)
  validate_asset_transaction-conserves tx packet ps src k g a h at same valid =
      let all = all_checked hex tx_hash next tx packet ps src h in
      let group = packet_group_at hex tx_hash next tx packet ps src k g all at in
      let id = id_string hex tx_hash next a in
      let checks =
        loop-All (validate_group_input hex tx_hash next tx id ps) g.inputs
          (checked_inputs hex tx_hash next tx packet ps src k g a group same) in
      elim (Bool-cases (is_reissuance g)) [
        | inl again ↦ inr (
            reissuance-ControlSpent tx packet ps src id all
              (checked_reissuance tx packet ps src k g a group same again))
        | inr never ↦
            let distinct =
              validate_inputs-DistinctVins [] 0 g.inputs (unfold validate_inputs in valid) in
            let bound =
              sum-held id ps g.inputs distinct
                (inputs-IsHeld hex tx_hash next tx id ps g.inputs checks) in
            inl (omega (arith, bound, not_reissued g a same never))
      ]
