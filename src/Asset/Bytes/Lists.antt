-- ===== src/Asset/Bytes/Lists.antt =====
-- Round trips of slices, hashes and lists of items (pkg/ark-lib/asset/utils.go).
use mathlib.Core.List.{append_assoc}
use arkd.Base.{
  ℕ, ◌<◌, ◌^◌, ◌≡◌, refl, ap, List, [], ◌∷◌, ◌++◌, length, length-append, arith, All, is_nil, false,
}
use arkd.Base.Results.{Result, ok, >>=-eq-ok}
use arkd.Asset.{AssetError}
use arkd.Asset.Bytes.{
  Bytes, Read, take, drop, deserialize_slice, serialize_var_slice, deserialize_var_slice,
  serialize_tx_hash, deserialize_tx_hash, reverse_bytes, write_all, read_n, hash_size,
}
use arkd.Asset.Bytes.Varint.{deserialize-serialize_var_uint}
use arkd.Asset.Bytes.Reverse.{length-reverse_bytes, reverse_bytes-reverse_bytes}

pub take-append : (xs ys : Bytes) → take (length xs) (xs ++ ys) ≡ xs
take-append [] ys = refl
take-append (x ∷ xs) ys = ap (◌∷◌ x) (take-append xs ys)

pub drop-append : (xs ys : Bytes) → drop (length xs) (xs ++ ys) ≡ ys
drop-append [] ys = refl
drop-append (x ∷ xs) ys = drop-append xs ys

pub deserialize_slice-append :
    (n : ℕ) (xs rest : Bytes) → length xs ≡ n → deserialize_slice (xs ++ rest) n ≡ ok (xs, rest)
unfolding deserialize_slice
deserialize_slice-append n xs rest h =
    rw (← h) (ground (arith, length-append xs rest, take-append xs rest, drop-append xs rest))

pub is_nil-append : (xs ys : Bytes) → is_nil xs ≡ false → is_nil (xs ++ ys) ≡ false
is_nil-append [] ys h = cc
is_nil-append (x ∷ xs) ys h = refl

-- A slice that is not empty is read back as it was written.
pub deserialize-serialize_var_slice :
    (buf rest : Bytes)
    → is_nil buf ≡ false
    → length buf < 2 ^ 64
    → deserialize_var_slice (serialize_var_slice buf ++ rest) ≡ ok (buf, rest)
unfolding deserialize_var_slice serialize_var_slice
deserialize-serialize_var_slice buf rest h fits =
    rw (append_assoc, deserialize-serialize_var_uint (length buf) (buf ++ rest) fits)
      (ground (
        arith,
        length-append buf rest,
        take-append buf rest,
        drop-append buf rest,
        is_nil-append buf rest,
      ))

pub deserialize-serialize_tx_hash :
    (hash rest : Bytes)
    → length hash ≡ hash_size
    → deserialize_tx_hash (serialize_tx_hash hash ++ rest) ≡ ok (hash, rest)
unfolding deserialize_tx_hash serialize_tx_hash
deserialize-serialize_tx_hash hash rest h = rw (
  deserialize_slice-append 32 (reverse_bytes hash) rest (omega (arith, length-reverse_bytes hash)),
  reverse_bytes-reverse_bytes hash,
)

module _ {A : Type 0} (f : A → Result AssetError Bytes) (g : Bytes → Read A) where
  -- What `f` wrote for an item, `g` reads back, and it leaves what follows.
  abbrev pub ReadsBack : A → Type 0
  ReadsBack x = (b rest : Bytes) → f x ≡ ok b → g (b ++ rest) ≡ ok (x, rest)

  pub read_n-write_all :
      (xs : List A) (b rest : Bytes)
      → All ReadsBack xs
      → write_all f xs ≡ ok b
      → read_n g (length xs) (b ++ rest) ≡ ok (xs, rest)
  unfolding write_all read_n
  read_n-write_all [] b rest h e = ground arith
  read_n-write_all (x ∷ xs) b rest (h, hs) e =
      let (b₁, e₁, e') = >>=-eq-ok (f x) _ e in
      let (b₂, e₂, e₃) = >>=-eq-ok (write_all f xs) _ e' in
      let parts : b₁ ++ b₂ ≡ b = cc in
      rw (← parts, append_assoc, h b₁ (b₂ ++ rest) e₁, read_n-write_all xs b₂ rest hs e₂)
