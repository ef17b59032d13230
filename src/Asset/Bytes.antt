-- ===== src/Asset/Bytes.antt =====
-- pkg/ark-lib/asset/utils.go: integers, slices and hashes as bytes, written and read.
-- A reader that reads returns what it read and the bytes that are left.
pub mod Varint
pub mod Reverse
pub mod Lists
use arkd.Base.{
  ℕ, zero, suc, ◌+◌, ◌-◌, ◌*◌, ◌/◌, ◌%◌, Bool, true, false, ◌&&◌, ◌||◌, List, [], ◌∷◌, ◌++◌, ltb,
  ◌==◌, if◌then◌else◌, is_nil, length,
}
use arkd.Base.Results.{Result, ok, err, ◌>>=◌}
use arkd.Asset.{AssetError, eof, unexpected_eof, varint_overflow}

abbrev pub Bytes : Type 0
Bytes = List ℕ

-- What a deserialisation returns.
abbrev pub Read : Type 0 → Type 0
Read A = Result AssetError (A × Bytes)

module _ {ℓ} {A : Type ℓ} where
  abbrev pub take : ℕ → List A → List A
  take zero xs = []
  take (suc n) [] = []
  take (suc n) (x ∷ xs) = x ∷ take n xs

  abbrev pub drop : ℕ → List A → List A
  drop zero xs = xs
  drop (suc n) [] = []
  drop (suc n) (x ∷ xs) = drop n xs

  abbrev pub replicate : ℕ → A → List A
  replicate zero a = []
  replicate (suc n) a = a ∷ replicate n a

-- `bytes.Equal`
unfoldable pub eq_bytes : Bytes → Bytes → Bool
eq_bytes [] [] = true
eq_bytes (x ∷ xs) (y ∷ ys) = x == y && eq_bytes xs ys
eq_bytes _ _ = false

-- `r.ReadByte`
unfoldable pub read_byte : Bytes → Read ℕ
read_byte [] = err eof
read_byte (b ∷ r) = ok (b, r)

unfoldable pub serialize_uint16 : ℕ → Bytes
serialize_uint16 v = v % 256 ∷ v / 256 % 256 ∷ []

unfoldable pub deserialize_uint16 : Bytes → Read ℕ
deserialize_uint16 (a ∷ b ∷ r) = ok (a + 256 * b, r)
deserialize_uint16 _ = err eof

-- `binary.PutUvarint`: seven bits to a byte, lowest first, and the top bit where more follow. The
-- first argument is the number of bytes that may follow; nine are enough for a uint64.
unfoldable pub put_uvarint : ℕ → ℕ → Bytes
put_uvarint zero x = x % 256 ∷ []
put_uvarint (suc k) x =
    let more = (x % 128 + 128) ∷ put_uvarint k (x / 128) in if ltb x 128 then x ∷ [] else more

unfoldable pub serialize_var_uint : ℕ → Bytes
serialize_var_uint x = put_uvarint 9 x

-- `binary.ReadUvarint` with `k` rounds left, at the bits of weight `m` and above: `x | b << s` is
-- `x + b * m`, since `x` is below `m`. A last byte above 1 does not fit a uint64.
read_uvarint : ℕ → ℕ → ℕ → Bytes → Read ℕ
read_uvarint zero x m r = err varint_overflow
read_uvarint (suc k) x m [] = err (if m == 1 then eof else unexpected_eof)
read_uvarint (suc k) x m (b ∷ r) =
    let more = read_uvarint k (x + b % 128 * m) (m * 128) r in
    if ltb b 128
    then (if k == 0 && ltb 1 b then err varint_overflow else ok (x + b * m, r))
    else more

pub deserialize_var_uint : Bytes → Read ℕ
deserialize_var_uint r = read_uvarint 10 0 1 r

unfoldable pub deserialize_slice : Bytes → ℕ → Read Bytes
deserialize_slice r size = if ltb (length r) size then err eof else ok (take size r, drop size r)

unfoldable pub serialize_var_slice : Bytes → Bytes
serialize_var_slice buf = serialize_var_uint (length buf) ++ buf

-- `Read` on an exhausted reader returns EOF, also where no byte is asked for.
pub deserialize_var_slice : Bytes → Read Bytes
deserialize_var_slice r = do
  (l, r') ← deserialize_var_uint r
  if ltb (length r') l || is_nil r' then err eof else ok (take l r', drop l r')

abbrev pub get_or : Bytes → ℕ → ℕ
get_or [] i = 0
get_or (x ∷ xs) zero = x
get_or (x ∷ xs) (suc i) = get_or xs i

abbrev set : Bytes → ℕ → ℕ → Bytes
set [] i v = []
set (x ∷ xs) zero v = v ∷ xs
set (x ∷ xs) (suc i) v = x ∷ set xs i v

-- `buf[i], buf[j] = buf[j], buf[i]`
unfoldable pub swap : ℕ → ℕ → Bytes → Bytes
swap i j buf = set (set buf i (get_or buf j)) j (get_or buf i)

-- The loop of `reverseBytes` with `n` rounds left, at the index `i`.
unfoldable pub swap_loop : ℕ → ℕ → Bytes → Bytes
swap_loop zero i buf = buf
swap_loop (suc n) i buf = swap_loop n (i + 1) (swap i (length buf - 1 - i) buf)

unfoldable pub reverse_bytes : Bytes → Bytes
reverse_bytes buf = swap_loop (length buf / 2) 0 buf

abbrev pub hash_size : ℕ
hash_size = 32

unfoldable pub serialize_tx_hash : Bytes → Bytes
serialize_tx_hash hash = reverse_bytes hash

unfoldable pub deserialize_tx_hash : Bytes → Read Bytes
deserialize_tx_hash r = do (buf, r') ← deserialize_slice r hash_size; ok (reverse_bytes buf, r')

-- The loops of the list codecs: every item written in turn, and `n` items read in turn.
module _ {A : Type 0} where
  unfoldable pub write_all : (A → Result AssetError Bytes) → List A → Result AssetError Bytes
  write_all f [] = ok []
  write_all f (x ∷ xs) = do b ← f x; bs ← write_all f xs; ok (b ++ bs)

  unfoldable pub read_n : (Bytes → Read A) → ℕ → Bytes → Read (List A)
  read_n g zero r = ok ([], r)
  read_n g (suc n) r = do (x, r') ← g r; (xs, r'') ← read_n g n r'; ok (x ∷ xs, r'')
