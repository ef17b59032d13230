-- ===== src/Wallet/Service/Loops.antt =====
-- The loops of `selectCoins` and `selectCoinsForWithdraw`
-- (pkg/arkd-wallet/core/application/wallet/service.go).
use mathlib.Core.Logic.{∥∥₁_elim}
use mathlib.Core.Bool.{Bool-set}
use mathlib.Core.List.{Perm, Permᴰ, perm_middle}
use mathlib.Core.List.Perm
use arkd.Base.{
  ℕ, ◌+◌, ◌%◌, ◌^◌, ◌≤◌, ◌⊎◌, ◌<◌, ◌≡◌, ◌∙◌, refl, ap, String, Bool, true, false, not, ◌&&◌, ◌||◌,
  List, [], ◌∷◌, ◌++◌, Option, none, some, map, ltb, leb, ◌==◌, str_eq, eq_iff, if◌then◌else◌,
  arith, Bool-cases, Option-cases, inl, inr,
}
use native.Mathlib.Nat.{ℕ_set}
use arkd.Base.Maps.{insert}
use arkd.Wallet.{OutPoint, Utxo}
use arkd.Wallet.Coins.{Coin}
use arkd.Wallet.Locker.{is_locked}
use arkd.Wallet.Service.{cached, find_truc, available, affordable, total_value, utxo_of}

-- Every element passes the test.
unfoldable pub all {ℓ} : {A : Type ℓ} → (A → Bool) → List A → Bool
all f [] = true
all f (x ∷ xs) = f x && all f xs

all_cons {ℓ} :
    {A : Type ℓ} (f : A → Bool) (x : A) (xs : List A)
    → f x ≡ true
    → all f xs ≡ true
    → all f (x ∷ xs) ≡ true
unfolding all
all_cons f x xs h h' = ground (arith, h, h')

all_nil {ℓ} : {A : Type ℓ} (f : A → Bool) → all f [] ≡ true
unfolding all
all_nil f = refl

all-Permᴰ {ℓ} : {A : Type ℓ} (f : A → Bool) {xs ys : List A} → Permᴰ xs ys → all f xs ≡ all f ys
unfolding all
all-Permᴰ f Permᴰ.nil = refl
all-Permᴰ f (Permᴰ.cons e p) = ground (arith, ap f e, all-Permᴰ f p)
all-Permᴰ f (Permᴰ.swap e e') = ground (arith, ap f e, ap f e')
all-Permᴰ f (Permᴰ.trans p q) = all-Permᴰ f p ∙ all-Permᴰ f q

pub all-Perm {ℓ} : {A : Type ℓ} (f : A → Bool) {xs ys : List A} → Perm xs ys → all f xs ≡ all f ys
all-Perm f {xs} {ys} p = ∥∥₁_elim p (Bool-set (all f xs) (all f ys)) (all-Permᴰ f)

pub all-append {ℓ} :
    {A : Type ℓ} (f : A → Bool) (xs ys : List A) → all f (xs ++ ys) ≡ all f xs && all f ys
unfolding all
all-append f [] ys = refl
all-append f (x ∷ xs) ys = ground (arith, all-append f xs ys)

unfoldable pub value_sum : List Utxo → ℕ
value_sum [] = 0
value_sum (u ∷ us) = u.value + value_sum us

pub value_sum-append : (us vs : List Utxo) → value_sum (us ++ vs) ≡ value_sum us + value_sum vs
unfolding value_sum
value_sum-append [] vs = omega arith
value_sum-append (u ∷ us) vs = omega (arith, value_sum-append us vs)

value_sum-Permᴰ : {us vs : List Utxo} → Permᴰ us vs → value_sum us ≡ value_sum vs
unfolding value_sum
value_sum-Permᴰ Permᴰ.nil = refl
value_sum-Permᴰ (Permᴰ.cons e p) = omega (arith, ap (λ (u : Utxo). u.value) e, value_sum-Permᴰ p)
value_sum-Permᴰ (Permᴰ.swap e e') =
    omega (arith, ap (λ (u : Utxo). u.value) e, ap (λ (u : Utxo). u.value) e')
value_sum-Permᴰ (Permᴰ.trans p q) = value_sum-Permᴰ p ∙ value_sum-Permᴰ q

pub total_value_lem :
    (total : ℕ) (us : List Utxo)
    → total + value_sum us < 2 ^ 64
    → total_value total us ≡ total + value_sum us
unfolding total_value value_sum
total_value_lem total [] h = omega arith
total_value_lem total (u ∷ us) h =
    let now : (total + u.value) % 2 ^ 64 ≡ total + u.value = omega arith in
    omega (arith, total_value_lem ((total + u.value) % 2 ^ 64) us (omega arith))

value_sum-Perm : {us vs : List Utxo} → Perm us vs → value_sum us ≡ value_sum vs
value_sum-Perm {us} {vs} p = ∥∥₁_elim p (ℕ_set (value_sum us) (value_sum vs)) value_sum-Permᴰ

-- Some of the utxos, each used once.
unfoldable pub IsPart : List Utxo → List Utxo → Type 0
IsPart some_of us = (others : List Utxo) × Perm (some_of ++ others) us

pub value_sum-IsPart :
    (some_of us : List Utxo) → IsPart some_of us → value_sum some_of ≤ value_sum us
unfolding IsPart
value_sum-IsPart some_of us (others, p) =
    omega (arith, value_sum-append some_of others, value_sum-Perm p)

no-IsPart : IsPart [] []
unfolding IsPart
no-IsPart = ([], Perm.nil)

take-IsPart :
    (u : Utxo) (some_of us : List Utxo) → IsPart some_of us → IsPart (u ∷ some_of) (u ∷ us)
unfolding IsPart
take-IsPart u some_of us (others, p) = (others, Perm.cons u p)

skip-IsPart : (u : Utxo) (some_of us : List Utxo) → IsPart some_of us → IsPart some_of (u ∷ us)
unfolding IsPart
skip-IsPart u some_of us (others, p) =
    (u ∷ others, Perm.trans (perm_middle some_of others) (Perm.cons u p))

abbrev pub says_not_truc : Option Bool → Bool
says_not_truc none = false
says_not_truc (some b) = not b

-- A utxo that `selectCoins` may spend: it is not locked, and it is confirmed, or it is of a transaction
-- that the explorer knows and that has not version 3.
abbrev pub spendable : (String → Option Bool) → Bool → List OutPoint → Utxo → Bool
spendable explorer confirmed_only locked u =
    not (is_locked u.outpoint locked)
    && (not (u.confirmations == 0)
        || (not confirmed_only && says_not_truc (explorer u.outpoint.hash)))

-- A utxo that `selectCoinsForWithdraw` may spend.
abbrev pub worth_it : ℕ → List OutPoint → Utxo → Bool
worth_it per_input locked u = not (is_locked u.outpoint locked) && ltb per_input u.value

-- The cache has what the explorer answers.
unfoldable pub Agrees : (String → Option Bool) → List (String × Bool) → Type 0
Agrees explorer cache = (k : String) (v : Bool) → cached k cache ≡ some v → explorer k ≡ some v

cached-insert :
    (k j : String) (v : Bool) (m : List (String × Bool))
    → cached j (insert k v m) ≡ (if str_eq k j then some v else cached j m)
cached-insert k j v [] = refl
cached-insert k j v ((i, w) ∷ m) =
    ground (arith, eq_iff i k, eq_iff i j, eq_iff k j, cached-insert k j v m)

find_truc-Agrees :
    (explorer : String → Option Bool) (txid : String) (cache : List (String × Bool))
    → Agrees explorer cache
    → ((find_truc explorer txid cache).0 ≡ explorer txid)
      × Agrees explorer (find_truc explorer txid cache).1
unfolding Agrees
find_truc-Agrees explorer txid cache h = elim (Option-cases (cached txid cache)) [
  | inr (v, e) ↦ rw e (ground (arith, h txid v e), h)
  | inl e ↦ elim (Option-cases (explorer txid)) [
    | inl n ↦ rw (e, n) (refl, h)
    | inr (v, s) ↦
        rw (e, s)
          (refl, λ j w c. ground (arith, cached-insert txid j v cache, eq_iff txid j, h j w, s))
  ]
]

module _ (explorer : String → Option Bool) (confirmed_only : Bool) (locked : List OutPoint) where
  available-cons :
      (cache : List (String × Bool)) (u : Utxo) (us : List Utxo)
      → Agrees explorer cache
      → (later : List (String × Bool)) × Agrees explorer later
        × ((available explorer confirmed_only locked cache (u ∷ us)
              ≡ available explorer confirmed_only locked later us)
            ⊎ ((spendable explorer confirmed_only locked u ≡ true)
                × (available explorer confirmed_only locked cache (u ∷ us)
                    ≡ record { utxo = u; value = u.value }
                      ∷ available explorer confirmed_only locked later us)))
  unfolding available
  available-cons cache u us h =
      let (says, later) = find_truc-Agrees explorer u.outpoint.hash cache h in
      elim (Bool-cases (confirmed_only && (u.confirmations == 0))) [
        | inl a ↦ (cache, h, inl (rw a refl))
        | inr a ↦ elim (Bool-cases (u.confirmations == 0)) [
          | inr b ↦ (cache, h, ground arith)
          | inl b ↦ elim (Option-cases (find_truc explorer u.outpoint.hash cache).0) [
            | inl s ↦ (cache, h, inl (rw (a, b, s) refl))
            | inr (true, s) ↦ (_, later, inl (rw (a, b, s) refl))
            | inr (false, s) ↦ (_, later, ground (arith, says))
          ]
        ]
      ]

  abbrev pub spend : Coin → Bool
  spend c = spendable explorer confirmed_only locked c.utxo && (c.value == c.utxo.value)

  -- The coins that `selectCoins` may choose from.
  pub available_lem :
      (cache : List (String × Bool)) (us : List Utxo)
      → Agrees explorer cache
      → IsPart (map utxo_of (available explorer confirmed_only locked cache us)) us
        × (all spend (available explorer confirmed_only locked cache us) ≡ true)
  available_lem cache [] h = unfold available in (no-IsPart, all_nil spend)
  available_lem cache (u ∷ us) h =
      let (later, h', how) = available-cons cache u us h in
      let (part, ok) = available_lem later us h' in
      elim how [
        | inl e ↦ rw e (skip-IsPart u _ us part, ok)
        | inr (s, e) ↦ rw e (take-IsPart u _ us part, all_cons spend _ _ (ground (arith, s)) ok)
      ]

module _ (per_input : ℕ) (locked : List OutPoint) where
  abbrev pub afford : Coin → Bool
  afford c = worth_it per_input locked c.utxo && (c.utxo.value == c.value + per_input)

  -- The coins that `selectCoinsForWithdraw` may choose from.
  pub affordable_lem :
      (us : List Utxo)
      → IsPart (map utxo_of (affordable per_input locked us)) us
        × (all afford (affordable per_input locked us) ≡ true)
  unfolding affordable
  affordable_lem [] = (no-IsPart, all_nil afford)
  affordable_lem (u ∷ us) =
      let (part, ok) = affordable_lem us in
      elim (Bool-cases (is_locked u.outpoint locked || leb u.value per_input)) [
        | inl e ↦ rw e (skip-IsPart u _ us part, ok)
        | inr e ↦ rw e (take-IsPart u _ us part, all_cons afford _ _ (ground (arith, e)) ok)
      ]
