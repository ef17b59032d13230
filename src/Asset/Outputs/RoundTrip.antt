-- ===== src/Asset/Outputs/RoundTrip.antt =====
-- The round trip of asset outputs (pkg/ark-lib/asset/asset_output.go).
use mathlib.Core.List.{append_assoc}
use arkd.Base.{
  ℕ, ◌≤◌, ◌<◌, ◌^◌, ◌≡◌, List, [], ◌∷◌, ◌++◌, none, length, arith, All, ltb, ◌==◌, false,
}
use arkd.Base.Results.{ok, ◌>>=◌, >>=-eq-ok}
use arkd.Asset.Bytes.{Bytes, read_byte, serialize_var_uint, serialize_uint16, write_all}
use arkd.Asset.Bytes.Varint.{deserialize-serialize_uint16, deserialize-serialize_var_uint}
use arkd.Asset.Bytes.Lists.{ReadsBack, read_n-write_all}
use arkd.Asset.Outputs.{
  AssetOutput, validate_output, new_asset_output, serialize_output, serialize_outputs,
  validate_outputs, validate_outputs_from, read_output_fields, new_asset_output_from_reader,
  new_asset_outputs_from_reader,
}

pub record IsOutput (o : AssetOutput) : Type 0 where
  pub local_output : o.type ≡ 1
  pub vout_fits : o.vout < 2 ^ 16
  pub amount_fits : o.amount < 2 ^ 64

output-ReadsBack :
    (o : AssetOutput)
    → IsOutput o
    → validate_output o ≡ none
    → ReadsBack (λ x. ok (serialize_output x)) new_asset_output_from_reader o
unfolding serialize_output new_asset_output_from_reader read_output_fields read_byte
    new_asset_output
output-ReadsBack o h valid b rest e =
    let parts : 1 ∷ (serialize_uint16 o.vout ++ serialize_var_uint o.amount) ≡ b =
      cc (h.local_output) in
    let same : record { type = 1; vout = o.vout; amount = o.amount } ≡ o = ground arith in
    rw (
      ← parts,
      append_assoc,
      deserialize-serialize_uint16 o.vout (serialize_var_uint o.amount ++ rest) h.vout_fits,
      deserialize-serialize_var_uint o.amount rest h.amount_fits,
      same,
      valid,
    )

outputs_valid :
    (seen : List ℕ) (outs : List AssetOutput)
    → validate_outputs_from seen outs ≡ none
    → All (λ o. validate_output o ≡ none) outs
unfolding validate_outputs_from
outputs_valid seen [] h = tt
outputs_valid seen (o ∷ outs) h = ground (arith, outputs_valid (o.vout ∷ seen) outs)

all-ReadsBack :
    (outs : List AssetOutput)
    → All IsOutput outs
    → All (λ o. validate_output o ≡ none) outs
    → All (ReadsBack (λ x. ok (serialize_output x)) new_asset_output_from_reader) outs
all-ReadsBack [] h v = tt
all-ReadsBack (o ∷ outs) (h, hs) (v, vs) = (output-ReadsBack o h v, all-ReadsBack outs hs vs)

-- Whatever list was written of at most 1000 outputs, all local and with numbers of their widths,
-- is read back.
pub new_asset_outputs_from_reader-serialize_outputs :
    (outs : List AssetOutput) (b rest : Bytes)
    → All IsOutput outs
    → length outs ≤ 1000
    → serialize_outputs outs ≡ ok b
    → new_asset_outputs_from_reader (b ++ rest) ≡ ok (outs, rest)
unfolding new_asset_outputs_from_reader serialize_outputs
new_asset_outputs_from_reader-serialize_outputs [] b rest h n e =
    let parts : serialize_var_uint 0 ++ [] ≡ b =
      unfold write_all validate_outputs validate_outputs_from in cc in
    rw (← parts, append_assoc, deserialize-serialize_var_uint 0 rest (omega arith))
new_asset_outputs_from_reader-serialize_outputs (o ∷ os) b rest h n e =
    let outs : List AssetOutput = o ∷ os in
    let valid : validate_outputs outs ≡ none = ground arith in
    let written : (write_all (λ x. ok (serialize_output x)) outs >>= λ bs.
    ok (serialize_var_uint (length outs) ++ bs))
        ≡ ok b =
      rw valid at e in
    let (bs, e₁, e₂) = >>=-eq-ok (write_all (λ x. ok (serialize_output x)) outs) _ written in
    let parts : serialize_var_uint (length outs) ++ bs ≡ b = cc in
    let some_given : (length outs == 0) ≡ false = ground arith in
    let few : ltb 1000 (length outs) ≡ false = ground arith in
    let items =
      read_n-write_all (λ x. ok (serialize_output x)) new_asset_output_from_reader outs bs rest
        (all-ReadsBack outs h (outputs_valid [] outs (unfold validate_outputs in valid))) e₁ in
    rw (
      ← parts,
      append_assoc,
      deserialize-serialize_var_uint (length outs) (bs ++ rest) (omega arith),
      some_given,
      few,
      items,
      valid,
    )
