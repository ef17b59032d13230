-- ===== src/Asset/Validation/Coverage.antt =====
-- What a validated transaction declares and carries (pkg/ark-lib/asset/tx_validation.go).
use arkd.Base.{
  ℕ, suc, ◌%◌, ◌^◌, ◌≡◌, refl, ap, String, true, false, ◌&&◌, List, [], ◌∷◌, ◌++◌, Option, none,
  some, All, ◌==◌, get_elem?, arith, Option-cases, Bool-cases, inl, inr, is_nil,
}
use arkd.Base.Results.{ok, Result-cases}
use arkd.Asset.{Asset}
use arkd.Asset.Bytes.{Bytes}
use arkd.Asset.Inputs.{AssetInput}
use arkd.Asset.Group.{AssetGroup}
use arkd.Asset.Packet.{Packet, serialize_packet}
use arkd.Asset.Tx.{
  Tx, AssetSource, Prevouts, is_op_return, contains, has_prefix, find_packet, input_of, loop,
}
use arkd.Asset.Validation.{
  Token, find_asset_group_by_asset_id, validate_input_asset, validate_input_assets,
  validate_carried, validate_asset_transaction,
}
use arkd.Asset.Validation.Held.{loop-All}

-- An input of the list has the vin and the amount.
abbrev pub HasInput : ℕ → ℕ → List AssetInput → Type 0
HasInput vin amount ins =
    (k : ℕ) × (i : AssetInput) × (get_elem? ins k ≡ some i) × (i.vin ≡ vin) × (i.amount ≡ amount)

input_of-HasInput :
    (vin amount : ℕ) (ins : List AssetInput)
    → input_of vin amount ins ≡ none
    → HasInput vin amount ins
input_of-HasInput vin amount [] h = cc
input_of-HasInput vin amount (i ∷ ins) h = elim (Bool-cases (i.vin == vin)) [
  | inl same ↦ (0, i, ground arith, ground arith, ground arith)
  | inr other ↦
      let (k, j, at, v, a) = input_of-HasInput vin amount ins (ground arith) in (suc k, j, at, v, a)
]

-- The bytes stand somewhere in the buffer.
abbrev pub IsInfix : Bytes → Bytes → Type 0
IsInfix sub buf = (before : Bytes) × (after : Bytes) × (buf ≡ before ++ (sub ++ after))

has_prefix-append :
    (buf sub : Bytes) → has_prefix buf sub ≡ true → (after : Bytes) × (buf ≡ sub ++ after)
unfolding has_prefix
has_prefix-append buf [] h = (buf, refl)
has_prefix-append [] (p ∷ ps) h = cc
has_prefix-append (b ∷ bs) (p ∷ ps) h =
    let (after, e) = has_prefix-append bs ps (ground arith) in
    let same : b ≡ p = ground arith in (after, cc)

pub contains-IsInfix : (buf sub : Bytes) → contains buf sub ≡ true → IsInfix sub buf
unfolding contains
contains-IsInfix [] [] h = ([], [], refl)
contains-IsInfix [] (s ∷ sub) h = cc
contains-IsInfix (b ∷ bs) sub h = elim (Bool-cases (has_prefix (b ∷ bs) sub)) [
  | inl starts ↦ let (after, e) = has_prefix-append (b ∷ bs) sub starts in ([], after, e)
  | inr other ↦
      let (before, after, e) = contains-IsInfix bs sub (ground arith) in
      (b ∷ before, after, ap (◌∷◌ b) e)
]

-- An output with OP_RETURN that has the bytes in its script.
abbrev pub Carries : Bytes → List Bytes → Type 0
Carries b scripts =
    (k : ℕ) × (script : Bytes) × (get_elem? scripts k ≡ some script)
    × (is_op_return script ≡ true)
    × IsInfix b script

find_packet-Carries :
    (b : Bytes) (scripts : List Bytes) → find_packet b scripts ≡ true → Carries b scripts
find_packet-Carries b [] h = cc
find_packet-Carries b (s ∷ scripts) h = elim (Bool-cases (is_op_return s && contains s b)) [
  | inl found ↦ (0, s, refl, ground arith, contains-IsInfix s b (ground arith))
  | inr other ↦
      let (k, script, at, op, inside) = find_packet-Carries b scripts (ground arith) in
      (suc k, script, at, op, inside)
]

module _ (hex : Bytes → String) (tx_hash : Tx → Bytes) (next : Bytes → Option Token) where
  -- The packet has a group with the id of the asset, and that an input of the vin and the amount. A
  -- vin has 16 bits, so the index of the input is taken modulo 2^16.
  abbrev pub Declared : Packet → ℕ → Asset → Type 0
  Declared packet v a =
      (g : AssetGroup) × (find_asset_group_by_asset_id hex tx_hash next packet a.asset_id ≡ some g)
      × HasInput (v % 2 ^ 16) a.amount g.inputs

  input_asset-Declared :
      (packet : Packet) (v : ℕ) (a : Asset)
      → validate_input_asset hex tx_hash next packet v a ≡ none
      → Declared packet v a
  input_asset-Declared packet v a h =
      elim (Option-cases (find_asset_group_by_asset_id hex tx_hash next packet a.asset_id)) [
        | inl missing ↦ absurd (ground arith)
        | inr (g, found) ↦ (g, found, input_of-HasInput _ _ g.inputs (ground arith))
      ]

  assets-Declared :
      (packet : Packet) (v : ℕ) (assets : List Asset)
      → All (λ a. validate_input_asset hex tx_hash next packet v a ≡ none) assets
      → All (Declared packet v) assets
  assets-Declared packet v [] h = tt
  assets-Declared packet v (a ∷ assets) (h, hs) =
      (input_asset-Declared packet v a h, assets-Declared packet v assets hs)

  prevouts-Declared :
      (packet : Packet) (ps : Prevouts)
      → All (λ p. loop (validate_input_asset hex tx_hash next packet p.0) p.1 ≡ none) ps
      → All (λ p. All (Declared packet p.0) p.1) ps
  prevouts-Declared packet [] h = tt
  prevouts-Declared packet ((v, assets) ∷ ps) (h, hs) = (
    assets-Declared packet v assets
        (loop-All (validate_input_asset hex tx_hash next packet v) assets h),
    prevouts-Declared packet ps hs,
  )

  -- In a validated transaction, every asset that a prevout holds is declared by the packet: the
  -- packet has a group with its id, and the first such group has an input with the index of the
  -- prevout, modulo 2^16, and with the amount.
  pub validate_asset_transaction-declares :
      (tx : Tx) (packet : Packet) (ps : Prevouts) (src : Option AssetSource)
      → validate_asset_transaction hex tx_hash next tx packet ps src ≡ none
      → All (λ p. All (Declared packet p.0) p.1) ps
  unfolding validate_asset_transaction
  validate_asset_transaction-declares tx packet ps src h =
      let all : validate_input_assets hex tx_hash next ps packet ≡ none = ground arith in
      prevouts-Declared packet ps
        (loop-All (λ p. loop (validate_input_asset hex tx_hash next packet p.0) p.1) ps all)

  -- In a validated transaction with a packet that is not empty, the packet is serialised, and the
  -- script of an output with OP_RETURN has those bytes in it.
  pub validate_asset_transaction-Carries :
      (tx : Tx) (packet : Packet) (ps : Prevouts) (src : Option AssetSource)
      → validate_asset_transaction hex tx_hash next tx packet ps src ≡ none
      → is_nil packet ≡ false
      → (b : Bytes) × (serialize_packet packet ≡ ok b) × Carries b tx.tx_out
  unfolding validate_asset_transaction validate_carried
  validate_asset_transaction-Carries tx [] ps src h full = cc
  validate_asset_transaction-Carries tx (g ∷ gs) ps src h full =
      elim (Result-cases (serialize_packet (g ∷ gs))) [
        | inl (b, written) ↦ (b, written, find_packet-Carries b tx.tx_out (ground arith))
        | inr (e, failed) ↦ absurd (ground arith)
      ]
