-- ===== src/Asset/Inputs/RoundTrip.antt =====
-- The round trip of asset inputs (pkg/ark-lib/asset/asset_input.go).
use mathlib.Core.List.{append_assoc}
use arkd.Base.{
  ℕ, ◌≤◌, ◌<◌, ◌^◌, ◌≡◌, refl, List, [], ◌∷◌, ◌++◌, none, length, arith, All, ltb, ◌==◌,
  if◌then◌else◌, false,
}
use arkd.Base.Results.{ok, >>=-eq-ok}
use arkd.Asset.{accepted}
use arkd.Asset.Bytes.{
  Bytes, read_byte, serialize_tx_hash, serialize_var_uint, serialize_uint16, write_all, read_n,
}
use arkd.Asset.Bytes.Varint.{deserialize-serialize_uint16, deserialize-serialize_var_uint}
use arkd.Asset.Bytes.Lists.{deserialize-serialize_tx_hash, ReadsBack, read_n-write_all}
use arkd.Asset.Ids.{empty_tx_hash}
use arkd.Asset.Inputs.{
  AssetInput, validate_input, serialize_input, serialize_inputs, validate_inputs,
  validate_inputs_from, read_input_fields, new_asset_input_from_reader,
  new_asset_inputs_from_reader,
}

-- A local input has no txid, and the numbers have their width.
pub data IsInput : AssetInput → Type 0 where
  local_input :
      (v a : ℕ)
      → v < 2 ^ 16
      → a < 2 ^ 64
      → IsInput (record { type = 1; vin = v; txid = empty_tx_hash; amount = a })
  intent_input :
      (v a : ℕ) (h : Bytes)
      → v < 2 ^ 16
      → a < 2 ^ 64
      → length h ≡ 32
      → IsInput (record { type = 2; vin = v; txid = h; amount = a })

input-ReadsBack :
    {i : AssetInput}
    → IsInput i
    → validate_input i ≡ none
    → ReadsBack serialize_input new_asset_input_from_reader i
unfolding serialize_input new_asset_input_from_reader read_input_fields read_byte
input-ReadsBack (local_input v a hv ha) valid b rest e =
    let parts : 1 ∷ (serialize_uint16 v ++ serialize_var_uint a) ≡ b = cc in
    rw (
      ← parts,
      append_assoc,
      deserialize-serialize_uint16 v (serialize_var_uint a ++ rest) hv,
      deserialize-serialize_var_uint a rest ha,
      valid,
    )
input-ReadsBack (intent_input v a h hv ha hh) valid b rest e =
    let parts : 2 ∷ (serialize_tx_hash h ++ (serialize_uint16 v ++ serialize_var_uint a)) ≡ b =
      cc in
    rw (
      ← parts,
      append_assoc,
      append_assoc,
      deserialize-serialize_tx_hash h (serialize_uint16 v ++ (serialize_var_uint a ++ rest)) hh,
      deserialize-serialize_uint16 v (serialize_var_uint a ++ rest) hv,
      deserialize-serialize_var_uint a rest ha,
      valid,
    )

inputs_valid :
    (seen : List ℕ) (t : ℕ) (ins : List AssetInput)
    → validate_inputs_from seen t ins ≡ none
    → All (λ i. validate_input i ≡ none) ins
unfolding validate_inputs_from
inputs_valid seen t [] h = tt
inputs_valid seen t (i ∷ ins) h =
    ground (arith, inputs_valid (i.vin ∷ seen) (if t == 0 then i.type else t) ins)

all-ReadsBack :
    (ins : List AssetInput)
    → All IsInput ins
    → All (λ i. validate_input i ≡ none) ins
    → All (ReadsBack serialize_input new_asset_input_from_reader) ins
all-ReadsBack [] h v = tt
all-ReadsBack (i ∷ ins) (h, hs) (v, vs) = (input-ReadsBack h v, all-ReadsBack ins hs vs)

read_items :
    (ins : List AssetInput) (b rest : Bytes)
    → All IsInput ins
    → All (λ i. validate_input i ≡ none) ins
    → write_all serialize_input ins ≡ ok b
    → read_n new_asset_input_from_reader (length ins) (b ++ rest) ≡ ok (ins, rest)
read_items ins b rest h v e =
    read_n-write_all serialize_input new_asset_input_from_reader ins b rest (all-ReadsBack ins h v)
      e

-- For at most 1000 inputs that are valid one by one, with numbers of their widths, a hash of 32
-- bytes on an intent input and none on a local one: the reader runs the validation of the list on
-- what was written, and returns the list or the error of that validation.
pub new_asset_inputs_from_reader-serialize_inputs :
    (ins : List AssetInput) (b rest : Bytes)
    → All IsInput ins
    → All (λ i. validate_input i ≡ none) ins
    → length ins ≤ 1000
    → serialize_inputs ins ≡ ok b
    → new_asset_inputs_from_reader (b ++ rest) ≡ accepted (validate_inputs ins) (ins, rest)
unfolding new_asset_inputs_from_reader serialize_inputs
new_asset_inputs_from_reader-serialize_inputs [] b rest h v n e =
    let parts : serialize_var_uint 0 ++ [] ≡ b = unfold write_all in cc in
    rw (← parts, append_assoc, deserialize-serialize_var_uint 0 rest (omega arith))
      (unfold validate_inputs validate_inputs_from in refl)
new_asset_inputs_from_reader-serialize_inputs (i ∷ is) b rest h v n e =
    let (bs, e₁, e₂) = >>=-eq-ok (write_all serialize_input (i ∷ is)) _ e in
    let count : ℕ = length (i ∷ is) in
    let parts : serialize_var_uint count ++ bs ≡ b = cc in
    let some_given : (count == 0) ≡ false = ground arith in
    let few : ltb 1000 count ≡ false = ground arith in
    rw (
      ← parts,
      append_assoc,
      deserialize-serialize_var_uint count (bs ++ rest) (omega arith),
      some_given,
      few,
      read_items (i ∷ is) bs rest h v e₁,
    )

-- A list of inputs that passes the validation of the list passes that of every input.
pub validate_inputs-valid :
    (ins : List AssetInput) → validate_inputs ins ≡ none → All (λ i. validate_input i ≡ none) ins
unfolding validate_inputs
validate_inputs-valid ins h = inputs_valid [] 0 ins h
