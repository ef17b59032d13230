-- ===== src/Asset/Tx.antt =====
-- pkg/ark-lib/asset/tx_validation.go: the transaction, the source of assets and the loops of the
-- validation that need nothing of a library.
use arkd.Base.{
  ℕ, suc, String, Bool, true, false, ◌&&◌, ◌||◌, List, [], ◌∷◌, Option, none, some, ◌==◌,
  if◌then◌else◌, is_nil, str_eq, get_elem?,
}
use arkd.Asset.{Asset}
use arkd.Asset.Bytes.{Bytes, eq_bytes}
use arkd.Asset.Inputs.{AssetInput}
use arkd.Asset.Group.{is_issuance}
use arkd.Asset.Packet.{Packet}

-- What the validation reads of a `wire.MsgTx`: the number of inputs and the output scripts.
pub record Tx : Type 0 where
  pub tx_in : ℕ
  pub tx_out : List Bytes

-- The codes of the errors, without their messages and metadata.
pub data TxError : Type 0 where
  asset_validation_failed control_asset_invalid asset_not_found : TxError
  asset_input_invalid asset_output_invalid : TxError

-- The lookup of issued assets. A lookup of a control asset may fail, and "" stands for none.
pub record AssetSource : Type 0 where
  pub get_control_asset : String → Option String
  pub asset_exists : String → Bool

-- `map[int][]Asset`, in the order in which the map is iterated.
abbrev pub Prevouts : Type 0
Prevouts = List (ℕ × List Asset)

abbrev pub assets_at : ℕ → Prevouts → Option (List Asset)
assets_at v [] = none
assets_at v ((w, assets) ∷ ps) = if v == w then some assets else assets_at v ps

abbrev pub op_return : ℕ
op_return = 106

-- `bytes.HasPrefix(script, []byte{txscript.OP_RETURN})`
abbrev pub is_op_return : Bytes → Bool
is_op_return [] = false
is_op_return (b ∷ bs) = b == op_return

-- `bytes.HasPrefix` and `bytes.Contains`
unfoldable pub has_prefix : Bytes → Bytes → Bool
has_prefix buf [] = true
has_prefix [] (p ∷ ps) = false
has_prefix (b ∷ bs) (p ∷ ps) = b == p && has_prefix bs ps

unfoldable pub contains : Bytes → Bytes → Bool
unfolding has_prefix
contains [] sub = is_nil sub
contains (b ∷ bs) sub = has_prefix (b ∷ bs) sub || contains bs sub

abbrev pub anchor_pk_script : Bytes
anchor_pk_script = 81 ∷ 2 ∷ 78 ∷ 115 ∷ []

-- The loop that looks for the packet in the outputs.
abbrev pub find_packet : Bytes → List Bytes → Bool
find_packet packet [] = false
find_packet packet (script ∷ scripts) =
    (is_op_return script && contains script packet) || find_packet packet scripts

abbrev pub issued_by_group : Packet → ℕ → Option TxError
issued_by_group packet i = elim (get_elem? packet i) [
  | none ↦ some asset_validation_failed
  | some g ↦ if is_issuance g then none else some asset_validation_failed
]

-- The inner loop of `validateInputAssets`: the first input of the vin has the amount.
abbrev pub input_of : ℕ → ℕ → List AssetInput → Option TxError
input_of vin amount [] = some asset_input_invalid
input_of vin amount (i ∷ ins) =
    let rest = input_of vin amount ins in
    if i.vin == vin then (if i.amount == amount then none else some asset_input_invalid) else rest

-- The first error of a loop whose body may return one.
abbrev pub loop {ℓ} : {A : Type ℓ} → (A → Option TxError) → List A → Option TxError
loop f [] = none
loop f (x ∷ xs) = let rest = loop f xs in elim (f x) [ none ↦ rest | some e ↦ some e ]

-- The scan of the outputs: the last anchor, and the outputs with OP_RETURN that are none.
pub record Scan : Type 0 where
  pub anchor_index : Option ℕ
  pub op_return_outputs : List ℕ

abbrev pub scan_output : ℕ → Bytes → Scan → Scan
scan_output i script s =
    if eq_bytes script anchor_pk_script
    then record s { anchor_index = some i }
    else if is_op_return script
    then record s { op_return_outputs = i ∷ s.op_return_outputs }
    else s

abbrev pub scan_outputs : ℕ → List Bytes → Scan → Scan
scan_outputs i [] s = s
scan_outputs i (script ∷ scripts) s = scan_outputs (suc i) scripts (scan_output i script s)

abbrev pub is_anchor : ℕ → Option ℕ → Bool
is_anchor v none = false
is_anchor v (some i) = v == i

-- The first of the assets with the id has the amount.
abbrev pub check_held : String → ℕ → List Asset → Option TxError
check_held id amount [] = some asset_input_invalid
check_held id amount (a ∷ assets) =
    let rest = check_held id amount assets in
    if str_eq a.asset_id id
    then (if a.amount == amount then none else some asset_input_invalid)
    else rest

abbrev pub or_else : Option TxError → Option TxError → Option TxError
or_else none later = later
or_else (some e) later = some e
