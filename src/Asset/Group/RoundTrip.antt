-- ===== src/Asset/Group/RoundTrip.antt =====
-- The round trip of asset groups (pkg/ark-lib/asset/asset_group.go).
use mathlib.Core.List.{append_assoc}
use arkd.Base.{
  ◌≤◌, ◌≡◌, ◌∙◌, refl, List, [], ◌∷◌, ◌++◌, Option, none, some, length, arith, All, is_nil, not,
  Option-cases, inl, inr,
}
use arkd.Base.Results.{ok, ◌>>=◌, >>=-eq-ok}
use arkd.Asset.{AssetError, accepted}
use arkd.Asset.Bytes.{Bytes, Read, read_byte}
use arkd.Asset.Ids.{
  AssetId, AssetRef, validate_id, serialize_id, new_asset_id_from_reader, validate_ref,
  serialize_ref, new_asset_ref_from_reader,
}
use arkd.Asset.Ids.RoundTrip.{
  IsId, IsRef, new_asset_id_from_reader-serialize_id, new_asset_ref_from_reader-serialize_ref,
}
use arkd.Asset.Inputs.{AssetInput, validate_input, validate_inputs, serialize_inputs}
use arkd.Asset.Inputs.RoundTrip.{IsInput, new_asset_inputs_from_reader-serialize_inputs}
use arkd.Asset.Outputs.{serialize_outputs, new_asset_outputs_from_reader}
use arkd.Asset.Outputs.RoundTrip.{IsOutput, new_asset_outputs_from_reader-serialize_outputs}
use arkd.Asset.Metadata.{Metadata, validate_metadata, validate_metadata_list}
use arkd.Asset.Metadata.RoundTrip.{
  IsMetadata, new_metadata_list_from_reader-serialize_metadata_list,
}
use arkd.Asset.Group.{
  AssetGroup, is_some, validate_group, validate_optional, first_error, validate_kind, presence,
  has_bit, optional_bytes, optional_metadata, write_group, read_optional, read_metadata,
  new_asset_group_from_reader,
}

abbrev pub Optional {ℓ κ} : {A : Type ℓ} → (A → Type κ) → Option A → Type κ
Optional P none = Unit {κ}
Optional P (some x) = P x

-- The fields of a group have the widths of their types, and its lists are within the limits.
pub record IsGroup (g : AssetGroup) : Type 0 where
  pub id_fits : Optional IsId g.asset_id
  pub control_fits : Optional IsRef g.control_asset
  pub inputs_fit : All IsInput g.inputs
  pub few_inputs : length g.inputs ≤ 1000
  pub outputs_fit : All IsOutput g.outputs
  pub few_outputs : length g.outputs ≤ 1000
  pub metadata_fit : All IsMetadata g.metadata
  pub few_metadata : length g.metadata ≤ 1000

-- What the presence byte says of the three optional parts.
presence-bits :
    (g : AssetGroup)
    → (has_bit (presence g) 0 ≡ is_some g.asset_id)
      × (has_bit (presence g) 1 ≡ is_some g.control_asset)
      × (has_bit (presence g) 2 ≡ not (is_nil g.metadata))
unfolding presence has_bit
presence-bits g = ground arith

read_optional-back :
    {A : Type 0} (f : A → Bytes) (g : Bytes → Read A) (o : Option A) (rest : Bytes)
    → Optional (λ x. g (f x ++ rest) ≡ ok (x, rest)) o
    → read_optional (is_some o) g (optional_bytes f o ++ rest) ≡ ok (o, rest)
unfolding read_optional optional_bytes
read_optional-back f g none rest h = refl
read_optional-back f g (some x) rest h = rw h

id-back :
    (o : Option AssetId) (rest : Bytes)
    → Optional IsId o
    → validate_optional validate_id o ≡ none
    → Optional (λ x. new_asset_id_from_reader (serialize_id x ++ rest) ≡ ok (x, rest)) o
unfolding validate_optional
id-back none rest h v = tt
id-back (some a) rest h v = new_asset_id_from_reader-serialize_id a rest h v

ref-back :
    (o : Option AssetRef) (rest : Bytes)
    → Optional IsRef o
    → validate_optional validate_ref o ≡ none
    → Optional (λ x. new_asset_ref_from_reader (serialize_ref x ++ rest) ≡ ok (x, rest)) o
unfolding validate_optional
ref-back none rest h v = tt
ref-back (some a) rest h v = new_asset_ref_from_reader-serialize_ref rest h v

pub first_error-valid {ℓ} :
    {A : Type ℓ} (f : A → Option AssetError) (x : A) (xs : List A)
    → f x ≡ none
    → first_error f (x ∷ xs) ≡ first_error f xs
unfolding first_error
first_error-valid f x xs h = ground arith

pub first_error-failed {ℓ} :
    {A : Type ℓ} (f : A → Option AssetError) (x : A) (xs : List A) {e : AssetError}
    → f x ≡ some e
    → first_error f (x ∷ xs) ≡ some e
unfolding first_error
first_error-failed f x xs h = ground arith

pub first_error-nil {ℓ} : {A : Type ℓ} (f : A → Option AssetError) → first_error f [] ≡ none
unfolding first_error
first_error-nil f = refl

pub first_error-All {ℓ} :
    {A : Type ℓ} (f : A → Option AssetError) (xs : List A)
    → first_error f xs ≡ none
    → All (λ x. f x ≡ none) xs
unfolding first_error
first_error-All f [] h = tt
first_error-All f (x ∷ xs) h = ground (arith, first_error-All f xs)

validate_metadata_list-first_error :
    (mds : List Metadata) → validate_metadata_list mds ≡ first_error validate_metadata mds
unfolding first_error validate_metadata_list
validate_metadata_list-first_error [] = refl
validate_metadata_list-first_error (md ∷ mds) =
    ground (arith, validate_metadata_list-first_error mds)

-- The parts of the validation of a group.
record Parts (g : AssetGroup) : Type 0 where
  pub id_valid : validate_optional validate_id g.asset_id ≡ none
  pub control_valid : validate_optional validate_ref g.control_asset ≡ none
  pub kind_valid : validate_kind g ≡ none
  pub inputs_valid : All (λ i. validate_input i ≡ none) g.inputs
  pub metadata_valid : first_error validate_metadata g.metadata ≡ none

validate_group-Parts : (g : AssetGroup) → validate_group g ≡ none → Parts g
unfolding validate_group
validate_group-Parts g h = ground (arith, first_error-All validate_input g.inputs)

metadata-back :
    (mds : List Metadata) (b rest : Bytes)
    → All IsMetadata mds
    → first_error validate_metadata mds ≡ none
    → length mds ≤ 1000
    → optional_metadata mds ≡ ok b
    → read_metadata (not (is_nil mds)) (b ++ rest) ≡ ok (mds, rest)
unfolding read_metadata optional_metadata
metadata-back [] b rest h v n e = let empty : [] ≡ b = cc in rw (← empty)
metadata-back (md ∷ mds) b rest h v n e =
    new_metadata_list_from_reader-serialize_metadata_list (md ∷ mds) b rest h
      (validate_metadata_list-first_error (md ∷ mds) ∙ v) n e

-- What the reader does after the inputs.
abbrev finish : AssetGroup → List AssetInput × Bytes → Read AssetGroup
finish g ins = do
  os ← new_asset_outputs_from_reader ins.1
  let read : AssetGroup = record g { outputs = os.0; inputs = ins.0 }
  accepted (validate_group read) (read, os.1)

finish-outputs :
    (g : AssetGroup) (outs rest : Bytes)
    → IsGroup g
    → validate_group g ≡ none
    → serialize_outputs g.outputs ≡ ok outs
    → (accepted (validate_inputs g.inputs) (g.inputs, outs ++ rest) >>= finish g)
      ≡ accepted (validate_inputs g.inputs) (g, rest)
finish-outputs g outs rest h v e = elim (Option-cases (validate_inputs g.inputs)) [
  | inl none_found ↦ rw (
    none_found,
    new_asset_outputs_from_reader-serialize_outputs g.outputs outs rest h.outputs_fit h.few_outputs
        e,
    v,
  )
  | inr (x, found) ↦ rw found
]

-- For a valid group, with lists of at most 1000 items and fields of the widths of their Go types:
-- what was written is read back up to the validation of its input list, which only the reader
-- makes. The group is returned if that passes, and its error if not.
pub new_asset_group_from_reader-write_group :
    (g : AssetGroup) (b rest : Bytes)
    → IsGroup g
    → validate_group g ≡ none
    → write_group g ≡ ok b
    → new_asset_group_from_reader (b ++ rest) ≡ accepted (validate_inputs g.inputs) (g, rest)
unfolding new_asset_group_from_reader write_group read_byte
new_asset_group_from_reader-write_group g b rest h v e =
    let p = validate_group-Parts g v in
    let (mds, e₁, m₁) = >>=-eq-ok (optional_metadata g.metadata) _ e in
    let (ins, e₂, m₂) = >>=-eq-ok (serialize_inputs g.inputs) _ m₁ in
    let (outs, e₃, m₃) = >>=-eq-ok (serialize_outputs g.outputs) _ m₂ in
    let head = optional_bytes serialize_id g.asset_id in
    let control = optional_bytes serialize_ref g.control_asset in
    let parts : presence g ∷ (head ++ (control ++ (mds ++ (ins ++ outs)))) ≡ b = cc in
    let bits = presence-bits g in
    rw
      (
        ← parts,
        append_assoc,
        append_assoc,
        append_assoc,
        append_assoc,
        bits.0,
        read_optional-back serialize_id new_asset_id_from_reader g.asset_id
            (control ++ (mds ++ (ins ++ (outs ++ rest))))
            (id-back g.asset_id _ h.id_fits p.id_valid),
        bits.1,
        read_optional-back serialize_ref new_asset_ref_from_reader g.control_asset
            (mds ++ (ins ++ (outs ++ rest)))
            (ref-back g.control_asset _ h.control_fits p.control_valid),
        bits.2,
        metadata-back g.metadata mds (ins ++ (outs ++ rest)) h.metadata_fit p.metadata_valid
            h.few_metadata e₁,
        new_asset_inputs_from_reader-serialize_inputs g.inputs ins (outs ++ rest) h.inputs_fit
            p.inputs_valid h.few_inputs e₂,
      )
      (finish-outputs g outs rest h v e₃)
