-- ===== src/Asset/Validation/Targets.antt =====
-- The outputs that a group assigns to (`validateGroupOutputs` of
-- pkg/ark-lib/asset/tx_validation.go).
use arkd.Base.{
  ℕ, zero, suc, ◌+◌, ◌<◌, ◌≡◌, ◌⊎◌, refl, String, Bool, true, false, not, ◌&&◌, List, [], ◌∷◌,
  Option, none, some, All, get_elem?, arith, Option-cases, Bool-cases, inl, inr, subst,
}
use arkd.Asset.Bytes.{Bytes, eq_bytes}
use arkd.Asset.Inputs.{seen_before}
use arkd.Asset.Outputs.{AssetOutput}
use arkd.Asset.Group.{AssetGroup}
use arkd.Asset.Packet.{Packet}
use arkd.Asset.Tx.{
  Tx, AssetSource, Prevouts, anchor_pk_script, is_op_return, Scan, scan_output, scan_outputs,
  is_anchor,
}
use arkd.Asset.Validation.{
  Token, is_sub_dust_script, validate_group_output, validate_group_outputs, validate_tx_group,
  validate_asset_transaction,
}
use arkd.Asset.Validation.Held.{loop-All}
use arkd.Asset.Validation.Groups.{packet_group_at, all_checked}

abbrev pub is_anchor_script : Bytes → Bool
is_anchor_script script = eq_bytes script anchor_pk_script

-- An anchor at an index.
abbrev pub AnchorAt : List Bytes → ℕ → Type 0
AnchorAt scripts w = (s : Bytes) × (get_elem? scripts w ≡ some s) × (is_anchor_script s ≡ true)

scan_outputs-keeps :
    (v i : ℕ) (scripts : List Bytes) (s : Scan)
    → seen_before v s.op_return_outputs ≡ true
    → seen_before v (scan_outputs i scripts s).op_return_outputs ≡ true
unfolding seen_before
scan_outputs-keeps v i [] s h = h
scan_outputs-keeps v i (x ∷ scripts) s h =
    scan_outputs-keeps v (suc i) scripts (scan_output i x s) (ground arith)

scan_outputs-op_return :
    (i k : ℕ) (scripts : List Bytes) (s : Scan) (script : Bytes)
    → get_elem? scripts k ≡ some script
    → is_anchor_script script ≡ false
    → is_op_return script ≡ true
    → seen_before (i + k) (scan_outputs i scripts s).op_return_outputs ≡ true
scan_outputs-op_return i k [] s script at a o = cc
scan_outputs-op_return i zero (x ∷ scripts) s script at a o =
    scan_outputs-keeps (i + 0) (suc i) scripts (scan_output i x s)
      (unfold seen_before in ground arith)
scan_outputs-op_return i (suc k) (x ∷ scripts) s script at a o =
    subst
      (λ n.
        seen_before n (scan_outputs (suc i) scripts (scan_output i x s)).op_return_outputs ≡ true)
      (omega arith) (scan_outputs-op_return (suc i) k scripts (scan_output i x s) script at a o)

-- The anchor that was found stays, or another one follows.
scan_outputs-anchor :
    (i : ℕ) (scripts : List Bytes) (s : Scan)
    → ((scan_outputs i scripts s).anchor_index ≡ s.anchor_index) ⊎ ((w : ℕ) × AnchorAt scripts w)
scan_outputs-anchor i [] s = inl refl
scan_outputs-anchor i (x ∷ scripts) s = elim (Bool-cases (is_anchor_script x)) [
  | inl anchor ↦ inr (0, (x, refl, anchor))
  | inr other ↦ elim (scan_outputs-anchor (suc i) scripts (scan_output i x s)) [
    | inl same ↦ inl (ground arith)
    | inr (w, later) ↦ inr (suc w, later)
  ]
]

scan_outputs-last :
    (i k : ℕ) (scripts : List Bytes) (s : Scan)
    → AnchorAt scripts k
    → ((scan_outputs i scripts s).anchor_index ≡ some (i + k))
      ⊎ ((w : ℕ) × (k < w) × AnchorAt scripts w)
scan_outputs-last i k [] s (x, at, anchor) = cc
scan_outputs-last i zero (y ∷ scripts) s (x, at, anchor) =
    elim (scan_outputs-anchor (suc i) scripts (scan_output i y s)) [
      | inl same ↦ inl (ground arith)
      | inr (w, later) ↦ inr (suc w, omega arith, later)
    ]
scan_outputs-last i (suc k) (y ∷ scripts) s (x, at, anchor) =
    elim (scan_outputs-last (suc i) k scripts (scan_output i y s) (x, at, anchor)) [
      | inl same ↦ inl (ground arith)
      | inr (w, after, later) ↦ inr (suc w, omega arith, later)
    ]

anchor-not_op_return : (s : Bytes) → is_anchor_script s ≡ true → is_op_return s ≡ false
unfolding eq_bytes
anchor-not_op_return [] h = cc
anchor-not_op_return (b ∷ bs) h = ground arith

module _ (hex : Bytes → String) (tx_hash : Tx → Bytes) (next : Bytes → Option Token) where
  -- The output exists. It is no OP_RETURN output, unless it is one of a sub-dust vtxo, and it is no
  -- anchor, unless another anchor follows it.
  pub record IsAssignable (scripts : List Bytes) (o : AssetOutput) : Type 0 where
    pub script : Bytes
    pub exists_at : get_elem? scripts o.vout ≡ some script
    pub holds_assets :
        (is_op_return script ≡ false) ⊎ (is_sub_dust_script hex tx_hash next script ≡ true)
    pub not_last_anchor :
        (is_anchor_script script ≡ false) ⊎ ((w : ℕ) × (o.vout < w) × AnchorAt scripts w)

  abbrev start : Scan
  start = record { anchor_index = none; op_return_outputs = [] }

  not_op_return :
      (scripts : List Bytes) (v : ℕ) (script : Bytes)
      → get_elem? scripts v ≡ some script
      → (seen_before v (scan_outputs 0 scripts start).op_return_outputs
          && not (is_sub_dust_script hex tx_hash next script))
        ≡ false
      → (is_op_return script ≡ false) ⊎ (is_sub_dust_script hex tx_hash next script ≡ true)
  not_op_return scripts v script at h = elim (Bool-cases (is_op_return script)) [
    | inr other ↦ inl other
    | inl op ↦
        let plain : is_anchor_script script ≡ false = ground (arith, anchor-not_op_return script) in
        let seen : seen_before v (scan_outputs 0 scripts start).op_return_outputs ≡ true =
          subst (λ n. seen_before n (scan_outputs 0 scripts start).op_return_outputs ≡ true)
            (omega arith) (scan_outputs-op_return 0 v scripts start script at plain op) in
        inr (ground arith)
  ]

  no_last_anchor :
      (scripts : List Bytes) (v : ℕ) (script : Bytes)
      → get_elem? scripts v ≡ some script
      → is_anchor v (scan_outputs 0 scripts start).anchor_index ≡ false
      → (is_anchor_script script ≡ false) ⊎ ((w : ℕ) × (v < w) × AnchorAt scripts w)
  no_last_anchor scripts v script at h = elim (Bool-cases (is_anchor_script script)) [
    | inr other ↦ inl other
    | inl anchor ↦ elim (scan_outputs-last 0 v scripts start (script, at, anchor)) [
      | inl last ↦ absurd (ground arith)
      | inr later ↦ inr later
    ]
  ]

  output-IsAssignable :
      (scripts : List Bytes) (o : AssetOutput)
      → validate_group_output hex tx_hash next scripts (scan_outputs 0 scripts start) o ≡ none
      → IsAssignable scripts o
  output-IsAssignable scripts o h = elim (Option-cases (get_elem? scripts o.vout)) [
    | inl missing ↦ absurd (ground arith)
    | inr (script, at) ↦ record {
      script = script;
      exists_at = at;
      holds_assets = not_op_return scripts o.vout script at (ground arith);
      not_last_anchor = no_last_anchor scripts o.vout script at (ground arith);
    }
  ]

  outputs-IsAssignable :
      (scripts : List Bytes) (outs : List AssetOutput)
      → All
          (λ o.
            validate_group_output hex tx_hash next scripts (scan_outputs 0 scripts start) o ≡ none)
          outs
      → All (IsAssignable scripts) outs
  outputs-IsAssignable scripts [] h = tt
  outputs-IsAssignable scripts (o ∷ outs) (h, hs) =
      (output-IsAssignable scripts o h, outputs-IsAssignable scripts outs hs)

  checked_outputs :
      (tx : Tx) (packet : Packet) (ps : Prevouts) (src : Option AssetSource) (k : ℕ)
      (g : AssetGroup)
      → validate_tx_group hex tx_hash next tx packet ps src k g ≡ none
      → validate_group_outputs hex tx_hash next tx g ≡ none
  unfolding validate_tx_group
  checked_outputs tx packet ps src k g h = ground arith

  -- In a validated transaction, every output that a group assigns to exists; it has no OP_RETURN,
  -- or has the script of a sub-dust vtxo; and it is no anchor, or an anchor that another anchor
  -- follows.
  pub validate_asset_transaction-IsAssignable :
      (tx : Tx) (packet : Packet) (ps : Prevouts) (src : Option AssetSource) (k : ℕ)
      (g : AssetGroup)
      → validate_asset_transaction hex tx_hash next tx packet ps src ≡ none
      → get_elem? packet k ≡ some g
      → All (IsAssignable tx.tx_out) g.outputs
  validate_asset_transaction-IsAssignable tx packet ps src k g h at =
      let group =
        packet_group_at hex tx_hash next tx packet ps src k g
          (all_checked hex tx_hash next tx packet ps src h) at in
      let checked = checked_outputs tx packet ps src k g group in
      outputs-IsAssignable tx.tx_out g.outputs (
        loop-All (validate_group_output hex tx_hash next tx.tx_out (scan_outputs 0 tx.tx_out start))
          g.outputs checked)
