-- ===== src/Wallet/Service/Chosen.antt =====
-- The utxos of chosen coins (pkg/arkd-wallet/core/application/wallet/service.go).
use mathlib.Core.List.{Perm, append_assoc}
use mathlib.Core.List.Perm
use arkd.Base.{
  ℕ, ◌+◌, ◌*◌, ◌≡◌, ◌∙◌, refl, ap, subst, String, Bool, true, List, [], ◌∷◌, ◌++◌, Option, map,
  ◌==◌, length, arith, ◌^◌, ◌≤◌, ◌&&◌, leb, str_eq, eq_iff,
}
use native.Mathlib.Nat.{mul-suc, mul-zero}
use arkd.Wallet.{Utxo}
use arkd.Wallet.Coins.{Coin, suffix}
use arkd.Wallet.Service.{utxo_of, Conversions, pk_script, returned}
use arkd.Wallet.Service.Loops.{all, all-Perm, all-append, value_sum, IsPart, Agrees}

pub Agrees-nil : (explorer : String → Option Bool) → Agrees explorer []
unfolding Agrees
Agrees-nil explorer k v h = absurd (ground arith)

pub all-map {ℓ κ} :
    {A : Type ℓ} {B : Type κ} (f : A → Bool) (g : B → Bool) (h : A → B) (xs : List A)
    → ((x : A) → f x ≡ true → g (h x) ≡ true)
    → all f xs ≡ true
    → all g (map h xs) ≡ true
unfolding all
all-map f g h [] sub e = refl
all-map f g h (x ∷ xs) sub e =
    ground (arith, sub x (ground arith), all-map f g h xs sub (ground arith), e)

pub all-all {ℓ} :
    {A : Type ℓ} (f g : A → Bool) (xs : List A)
    → ((x : A) → f x ≡ true → g x ≡ true)
    → all f xs ≡ true
    → all g xs ≡ true
unfolding all
all-all f g [] sub e = refl
all-all f g (x ∷ xs) sub e =
    ground (arith, sub x (ground arith), all-all f g xs sub (ground arith), e)

map_both : (cs ds : List Coin) → map utxo_of (cs ++ ds) ≡ map utxo_of cs ++ map utxo_of ds
map_both [] ds = refl
map_both (c ∷ cs) ds = ap (λ l. c.utxo ∷ l) (map_both cs ds)

-- A part of a part of the utxos.
pub IsPart-map :
    (chosen others coins : List Coin) (us : List Utxo)
    → Perm (chosen ++ others) coins
    → IsPart (map utxo_of coins) us
    → IsPart (map utxo_of chosen) us
unfolding IsPart
IsPart-map chosen others coins us p (left, q) =
    let e : map utxo_of (chosen ++ others) ++ left
        ≡ map utxo_of chosen ++ (map utxo_of others ++ left) =
      ap (λ l. l ++ left) (map_both chosen others)
      ∙ append_assoc (map utxo_of chosen) (map utxo_of others) left in
    (
      map utxo_of others ++ left,
      subst (λ l. Perm l us) e (Perm.trans (Perm.append_right left (Perm.map utxo_of p)) q),
    )

pub all-chosen {ℓ} :
    {A : Type ℓ} (f : A → Bool) (chosen others coins : List A)
    → Perm (chosen ++ others) coins
    → all f coins ≡ true
    → all f chosen ≡ true
all-chosen f chosen others coins p h = ground (arith, all-Perm f p, all-append f chosen others, h)

-- The values of the utxos of some coins.
pub value_sum-chosen :
    (per_input : ℕ) (chosen : List Coin)
    → all (λ c. c.utxo.value == c.value + per_input) chosen ≡ true
    → value_sum (map utxo_of chosen) ≡ suffix chosen + per_input * length chosen
unfolding value_sum suffix all
value_sum-chosen per_input [] h = omega (arith, mul-zero per_input)
value_sum-chosen per_input (c ∷ cs) h =
    let e : c.utxo.value ≡ c.value + per_input = ground (arith, h) in
    let n = mul-suc per_input (length cs) in
    omega (arith, value_sum-chosen per_input cs (ground (arith, h)))

-- A utxo whose value a float64 holds, and whose script is the encoding of its own bytes.
abbrev pub is_exact : Conversions → Utxo → Bool
is_exact conv u = leb u.value (2 ^ 53) && str_eq (conv.encode_hex (pk_script conv u)) u.script

-- A float64 holds every natural number up to 2^53.
abbrev pub IsFloat : Conversions → Type 0
IsFloat conv = (v : ℕ) → v ≤ 2 ^ 53 → conv.to_satoshi v ≡ v

returned-utxo_of :
    (conv : Conversions) (c : Coin)
    → IsFloat conv
    → c.value ≡ c.utxo.value
    → is_exact conv c.utxo ≡ true
    → returned conv c ≡ utxo_of c
returned-utxo_of conv c float whole exact =
    let value : conv.to_satoshi c.value ≡ c.utxo.value = float c.value (ground arith) ∙ whole in
    let script : conv.encode_hex (pk_script conv c.utxo) ≡ c.utxo.script =
      ground (arith, eq_iff (conv.encode_hex (pk_script conv c.utxo)) c.utxo.script) in
    cc

-- Exact utxos are returned as they are.
pub map-returned :
    (conv : Conversions) (cs : List Coin)
    → IsFloat conv
    → all (λ c. c.value == c.utxo.value) cs ≡ true
    → all (is_exact conv) (map utxo_of cs) ≡ true
    → map (returned conv) cs ≡ map utxo_of cs
unfolding all
map-returned conv [] float whole exact = refl
map-returned conv (c ∷ cs) float whole exact =
    let first = returned-utxo_of conv c float (ground arith) (ground (arith, exact)) in
    let rest = map-returned conv cs float (ground (arith, whole)) (ground (arith, exact)) in cc

-- A part of exact utxos is exact.
pub all-IsPart :
    (f : Utxo → Bool) (some_of us : List Utxo)
    → IsPart some_of us
    → all f us ≡ true
    → all f some_of ≡ true
unfolding IsPart
all-IsPart f some_of us (others, p) h = all-chosen f some_of others us p h
