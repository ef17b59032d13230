-- ===== src/Asset/Metadata/RoundTrip.antt =====
-- The round trip of metadata (pkg/ark-lib/asset/metadata.go).
use mathlib.Core.List.{append_assoc}
use arkd.Base.{
  ◌≤◌, ◌<◌, ◌^◌, ◌≡◌, List, [], ◌∷◌, ◌++◌, none, length, arith, All, ltb, false, is_nil,
}
use arkd.Base.Results.{ok, >>=-eq-ok}
use arkd.Asset.Bytes.{Bytes, serialize_var_uint, serialize_var_slice, write_all}
use arkd.Asset.Bytes.Varint.{deserialize-serialize_var_uint}
use arkd.Asset.Bytes.Lists.{ReadsBack, read_n-write_all, deserialize-serialize_var_slice}
use arkd.Asset.Metadata.{
  Metadata, validate_metadata, serialize_metadata, validate_metadata_list, serialize_metadata_list,
  new_metadata_from_reader, new_metadata_list_from_reader,
}

-- The lengths are 64-bit numbers.
pub record IsMetadata (md : Metadata) : Type 0 where
  pub key_fits : length md.key < 2 ^ 64
  pub value_fits : length md.value < 2 ^ 64

metadata-ReadsBack :
    (md : Metadata)
    → IsMetadata md
    → validate_metadata md ≡ none
    → ReadsBack (λ x. ok (serialize_metadata x)) new_metadata_from_reader md
unfolding serialize_metadata new_metadata_from_reader
metadata-ReadsBack md h valid b rest e =
    let parts : serialize_var_slice md.key ++ serialize_var_slice md.value ≡ b = cc in
    let key_given : is_nil md.key ≡ false = unfold validate_metadata in ground arith in
    let value_given : is_nil md.value ≡ false = unfold validate_metadata in ground arith in
    rw (
      ← parts,
      append_assoc,
      deserialize-serialize_var_slice md.key (serialize_var_slice md.value ++ rest) key_given
          h.key_fits,
      deserialize-serialize_var_slice md.value rest value_given h.value_fits,
      valid,
    )

all-ReadsBack :
    (mds : List Metadata)
    → All IsMetadata mds
    → validate_metadata_list mds ≡ none
    → All (ReadsBack (λ x. ok (serialize_metadata x)) new_metadata_from_reader) mds
unfolding validate_metadata_list
all-ReadsBack [] h v = tt
all-ReadsBack (md ∷ mds) (h, hs) v =
    (metadata-ReadsBack md h (ground arith), all-ReadsBack mds hs (ground arith))

-- At most 1000 valid entries, with lengths that fit a uint64, are read back as they were written.
pub new_metadata_list_from_reader-serialize_metadata_list :
    (mds : List Metadata) (b rest : Bytes)
    → All IsMetadata mds
    → validate_metadata_list mds ≡ none
    → length mds ≤ 1000
    → serialize_metadata_list mds ≡ ok b
    → new_metadata_list_from_reader (b ++ rest) ≡ ok (mds, rest)
unfolding new_metadata_list_from_reader serialize_metadata_list
new_metadata_list_from_reader-serialize_metadata_list mds b rest h v n e =
    let (bs, e₁, e₂) = >>=-eq-ok (write_all (λ md. ok (serialize_metadata md)) mds) _ e in
    let parts : serialize_var_uint (length mds) ++ bs ≡ b = cc in
    let few : ltb 1000 (length mds) ≡ false = ground arith in
    let items =
      read_n-write_all (λ md. ok (serialize_metadata md)) new_metadata_from_reader mds bs rest
        (all-ReadsBack mds h v) e₁ in
    rw (
      ← parts,
      append_assoc,
      deserialize-serialize_var_uint (length mds) (bs ++ rest) (omega arith),
      few,
      items,
      v,
    )
