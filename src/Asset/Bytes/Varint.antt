-- ===== src/Asset/Bytes/Varint.antt =====
-- Round trips of integers (pkg/ark-lib/asset/utils.go).
use native.Mathlib.Nat.{div-add-mod}
use arkd.Base.{
  ℕ, zero, suc, ◌+◌, ◌*◌, ◌/◌, ◌%◌, ◌^◌, ◌<◌, ◌≤◌, ◌≡◌, ap, ◌++◌, [], ◌∷◌, ◌&&◌, ◌==◌, ltb, length,
  Bool-cases, inl, inr, arith,
}
use arkd.Base.Results.{ok}
use arkd.Asset.Bytes.{
  Bytes, put_uvarint, read_uvarint, serialize_var_uint, deserialize_var_uint, serialize_uint16,
  deserialize_uint16,
}

-- `x` in units of `m`, split into its lowest seven bits and the others.
split : (x v m : ℕ) → x + v % 128 * m + v / 128 * (m * 128) ≡ x + v * m
split x v m = omega (arith, ap (λ (t : ℕ). t * m) (div-add-mod v 128))

read_uvarint-put_uvarint :
    (k x m v : ℕ) (rest : Bytes)
    → v < 2 * 128 ^ k
    → read_uvarint (suc k) x m (put_uvarint k v ++ rest) ≡ ok (x + v * m, rest)
unfolding read_uvarint put_uvarint
read_uvarint-put_uvarint zero x m v rest h = ground arith
read_uvarint-put_uvarint (suc k) x m v rest h = ground (
  arith,
  split x v m,
  read_uvarint-put_uvarint k (x + v % 128 * m) (m * 128) (v / 128) rest (omega arith),
)

-- A uint64 is read back as it was written, and what follows it is left.
pub deserialize-serialize_var_uint :
    (v : ℕ) (rest : Bytes)
    → v < 2 ^ 64
    → deserialize_var_uint (serialize_var_uint v ++ rest) ≡ ok (v, rest)
unfolding deserialize_var_uint serialize_var_uint
deserialize-serialize_var_uint v rest h =
    ground (arith, read_uvarint-put_uvarint 9 0 1 v rest (omega arith))

pub deserialize-serialize_uint16 :
    (v : ℕ) (rest : Bytes)
    → v < 2 ^ 16
    → deserialize_uint16 (serialize_uint16 v ++ rest) ≡ ok (v, rest)
unfolding deserialize_uint16 serialize_uint16
deserialize-serialize_uint16 v rest h = ground arith

-- Reading leaves no more bytes than there were.
read_uvarint-length :
    (k x m : ℕ) (r : Bytes) (v : ℕ) (left : Bytes)
    → read_uvarint k x m r ≡ ok (v, left)
    → length left ≤ length r
unfolding read_uvarint
read_uvarint-length zero x m r v left e = absurd (ground (arith, e))
read_uvarint-length (suc k) x m [] v left e = absurd (ground (arith, e))
read_uvarint-length (suc k) x m (b ∷ r) v left e = elim (Bool-cases (ltb b 128)) [
  | inr more ↦
      omega (
        arith,
        read_uvarint-length k (x + b % 128 * m) (m * 128) r v left (ground (arith, e, more)),
      )
  | inl last ↦ elim (Bool-cases (k == 0 && ltb 1 b)) [
    | inl over ↦ absurd (ground (arith, e, last, over))
    | inr fits ↦
        let same : r ≡ left = ground (arith, e, last, fits) in omega (arith, ap length same)
  ]
]

pub deserialize_var_uint-length :
    (r : Bytes) (v : ℕ) (left : Bytes)
    → deserialize_var_uint r ≡ ok (v, left)
    → length left ≤ length r
unfolding deserialize_var_uint
deserialize_var_uint-length r v left e = read_uvarint-length 10 0 1 r v left e
