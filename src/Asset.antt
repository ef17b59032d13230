-- ===== src/Asset.antt =====
-- pkg/ark-lib/asset: the asset packet that a transaction carries in an OP_RETURN output.
-- A byte slice, a hash and the rest of a `bytes.Reader` are lists of numbers.
pub mod Bytes
pub mod Ids
pub mod Inputs
pub mod Outputs
pub mod Metadata
pub mod Group
pub mod Packet
pub mod Tx
pub mod Validation
mod Examples
use arkd.Base.{ℕ, String, Option, none, some}
use arkd.Base.Results.{Result, ok, err}

-- An amount of an asset held by a transaction input.
pub record Asset : Type 0 where
  pub asset_id : String
  pub amount : ℕ  -- uint64

-- The errors of the package. The first three are those of Go's `io` and `binary` packages.
pub data AssetError : Type 0 where
  eof unexpected_eof varint_overflow : AssetError
  missing_data : AssetError
  invalid_asset_id_length empty_txid : AssetError
  ref_type_unspecified invalid_ref_length : AssetError
  ref_type_unknown : ℕ → AssetError
  input_type_unspecified missing_input_txid invalid_input_txid_length duplicate_vin : AssetError
  mixed_input_types too_many_inputs : AssetError
  input_type_unknown : ℕ → AssetError
  output_type_unspecified invalid_vout_length zero_amount duplicate_vout too_many_outputs :
      AssetError
  output_type_unknown : ℕ → AssetError
  missing_key missing_value invalid_metadata_length too_many_metadata : AssetError
  empty_group issuance_with_inputs control_asset_of_existing : AssetError
  missing_assets too_many_groups duplicate_group control_index_out_of_range : AssetError
  bytes_left : ℕ → AssetError

-- `if err := x.validate(); err != nil { return err }`, where `none` is Go's nil error.
abbrev pub accepted {ℓ} : {A : Type ℓ} → Option AssetError → A → Result AssetError A
accepted none a = ok a
accepted (some e) a = err e

-- `if errors.Is(err, io.EOF)`: another error in the place of EOF.
abbrev pub on_eof {ℓ} : {A : Type ℓ} → AssetError → Result AssetError A → Result AssetError A
on_eof e (err eof) = err e
on_eof e m = m
