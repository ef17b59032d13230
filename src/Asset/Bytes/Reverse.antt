-- ===== src/Asset/Bytes/Reverse.antt =====
-- The swaps in place of `reverseBytes` (pkg/ark-lib/asset/utils.go), byte by byte.
use arkd.Base.{
  ℕ, zero, suc, ◌+◌, ◌-◌, ◌*◌, ◌/◌, ◌≤◌, ◌<◌, ◌≡◌, refl, ap, Bool, ◌&&◌, ◌||◌, [], ◌∷◌, ltb, leb,
  ◌==◌, if◌then◌else◌, length, arith,
}
use arkd.Asset.Bytes.{Bytes, get_or, set, swap, swap_loop, reverse_bytes}

length-set : (xs : Bytes) (i v : ℕ) → length (set xs i v) ≡ length xs
length-set [] i v = refl
length-set (x ∷ xs) zero v = refl
length-set (x ∷ xs) (suc i) v = ap suc (length-set xs i v)

get_or-set :
    (xs : Bytes) (i v j : ℕ)
    → i < length xs
    → get_or (set xs i v) j ≡ (if i == j then v else get_or xs j)
get_or-set [] i v j h = absurd (omega arith)
get_or-set (x ∷ xs) zero v zero h = refl
get_or-set (x ∷ xs) zero v (suc j) h = ground arith
get_or-set (x ∷ xs) (suc i) v zero h = ground arith
get_or-set (x ∷ xs) (suc i) v (suc j) h = ground (arith, get_or-set xs i v j)

length-swap : (i j : ℕ) (xs : Bytes) → length (swap i j xs) ≡ length xs
unfolding swap
length-swap i j xs =
    omega
      (arith, length-set (set xs i (get_or xs j)) j (get_or xs i), length-set xs i (get_or xs j))

get_or-swap :
    (i j k : ℕ) (xs : Bytes)
    → i < length xs
    → j < length xs
    → get_or (swap i j xs) k
      ≡ (if j == k then get_or xs i else if i == k then get_or xs j else get_or xs k)
unfolding swap
get_or-swap i j k xs h l = ground (
  arith,
  get_or-set xs i (get_or xs j) k,
  get_or-set (set xs i (get_or xs j)) j (get_or xs i) k,
  length-set xs i (get_or xs j),
)

-- Whether `n` rounds from `i` on reach the place `k` of `len`, from either end.
abbrev reached : ℕ → ℕ → ℕ → ℕ → Bool
reached n i len k = (leb i k && ltb k (i + n)) || (leb i (len - 1 - k) && ltb (len - 1 - k) (i + n))

length-swap_loop : (n i : ℕ) (xs : Bytes) → length (swap_loop n i xs) ≡ length xs
unfolding swap_loop
length-swap_loop zero i xs = refl
length-swap_loop (suc n) i xs =
    let next = swap i (length xs - 1 - i) xs in
    omega (arith, length-swap_loop n (i + 1) next, length-swap i (length xs - 1 - i) xs)

get_or-swap_loop :
    (n i k : ℕ) (xs : Bytes)
    → 2 * (i + n) ≤ length xs
    → k < length xs
    → get_or (swap_loop n i xs) k
      ≡ (if reached n i (length xs) k then get_or xs (length xs - 1 - k) else get_or xs k)
unfolding swap_loop
get_or-swap_loop zero i k xs h l = ground arith
get_or-swap_loop (suc n) i k xs h l =
    let j = length xs - 1 - i in
    ground (
      arith,
      get_or-swap_loop n (i + 1) k (swap i j xs),
      length-swap i j xs,
      get_or-swap i j k xs,
      get_or-swap i j (length xs - 1 - k) xs,
    )

pub length-reverse_bytes : (xs : Bytes) → length (reverse_bytes xs) ≡ length xs
unfolding reverse_bytes
length-reverse_bytes xs = length-swap_loop (length xs / 2) 0 xs

-- Below the length, `reverseBytes` puts at every place the byte that stood at the mirrored place.
pub get_or-reverse_bytes :
    (xs : Bytes) (k : ℕ)
    → k < length xs
    → get_or (reverse_bytes xs) k ≡ get_or xs (length xs - 1 - k)
unfolding reverse_bytes
get_or-reverse_bytes xs k h = ground (arith, get_or-swap_loop (length xs / 2) 0 k xs)

eq_of_get_or :
    (xs ys : Bytes)
    → length xs ≡ length ys
    → ((k : ℕ) → k < length xs → get_or xs k ≡ get_or ys k)
    → xs ≡ ys
eq_of_get_or [] [] l h = refl
eq_of_get_or [] (y ∷ ys) l h = absurd (omega arith)
eq_of_get_or (x ∷ xs) [] l h = absurd (omega arith)
eq_of_get_or (x ∷ xs) (y ∷ ys) l h =
    cc (h 0 (omega arith), eq_of_get_or xs ys (omega arith) (λ k p. h (suc k) (omega arith)))

-- `reverseBytes` undoes itself.
pub reverse_bytes-reverse_bytes : (xs : Bytes) → reverse_bytes (reverse_bytes xs) ≡ xs
reverse_bytes-reverse_bytes xs = eq_of_get_or _ _ (omega (arith, length-reverse_bytes)) same
  where
    same :
        (k : ℕ)
        → k < length (reverse_bytes (reverse_bytes xs))
        → get_or (reverse_bytes (reverse_bytes xs)) k ≡ get_or xs k
    same k h = ground (
      arith,
      length-reverse_bytes xs,
      length-reverse_bytes (reverse_bytes xs),
      get_or-reverse_bytes (reverse_bytes xs) k,
      get_or-reverse_bytes xs (length xs - 1 - k),
    )
