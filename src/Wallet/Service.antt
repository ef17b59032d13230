-- ===== src/Wallet/Service.antt =====
-- pkg/arkd-wallet/core/application/wallet/service.go: the coins that fund a transaction and a withdrawal.
-- The explorer's answers, the estimate of a fee, and the conversions of the values and scripts that
-- `selectCoins` returns are parameters. An amount in satoshi is a number below 2^63, so that it is the
-- same number as a signed amount, and the total wraps at 2^64.
pub mod Loops
pub mod Chosen
pub mod Funds
pub mod Exclusive
use arkd.Base.{
  ℕ, ◌+◌, ◌-◌, ◌%◌, ◌^◌, String, Bool, true, false, not, ◌&&◌, ◌||◌, List, [], ◌∷◌, ◌++◌, Option,
  none, some, map, ltb, leb, ◌==◌, str_eq, if◌then◌else◌,
}
use arkd.Base.Results.{Result, ok, err}
use arkd.Base.Maps.{insert}
use arkd.Wallet.{OutPoint, Utxo}
use arkd.Wallet.Coins.{Coin, economical, consolidate_first}
use arkd.Wallet.Locker.{Locks, is_locked, get, lock}

pub data SelectError : Type 0 where
  wallet_locked : SelectError
  explorer_failed : SelectError
  no_selection_available : SelectError

-- `txCache[txid]`
abbrev pub cached : String → List (String × Bool) → Option Bool
cached k [] = none
cached k ((j, v) ∷ m) = if str_eq j k then some v else cached k m

-- Whether the transaction of an unconfirmed utxo has version 3, from the cache (the last argument) or
-- from the explorer, and the cache; `none` where the explorer fails or its transaction cannot be parsed.
abbrev pub ask : String → List (String × Bool) → Option Bool → Option Bool × List (String × Bool)
ask txid cache none = (none, cache)
ask txid cache (some v) = (some v, insert txid v cache)

abbrev pub or_ask :
    Option Bool → String → List (String × Bool) → Option Bool → Option Bool × List (String × Bool)
or_ask answer txid cache (some v) = (some v, cache)
or_ask answer txid cache none = ask txid cache answer

abbrev pub find_truc :
    (String → Option Bool) → String → List (String × Bool) → Option Bool × List (String × Bool)
find_truc explorer txid cache = or_ask (explorer txid) txid cache (cached txid cache)

-- The loop of `selectCoins` that leaves out the utxos that cannot be spent.
unfoldable pub available :
    (String → Option Bool) → Bool → List OutPoint → List (String × Bool) → List Utxo → List Coin
available explorer confirmed_only locked cache [] = []
available explorer confirmed_only locked cache (u ∷ us) =
    let skip = available explorer confirmed_only locked cache us in
    let seen = find_truc explorer u.outpoint.hash cache in
    let skip_seen = available explorer confirmed_only locked seen.1 us in
    let coin : Coin = record { utxo = u; value = u.value } in
    if confirmed_only && (u.confirmations == 0)
    then skip
    else if u.confirmations == 0
    then elim seen.0 [
      | none ↦ skip
      | some true ↦ skip_seen
      | some false ↦ if is_locked u.outpoint locked then skip_seen else coin ∷ skip_seen
    ]
    else if is_locked u.outpoint locked
    then skip
    else coin ∷ skip

-- `totalValue`
unfoldable pub total_value : ℕ → List Utxo → ℕ
total_value total [] = total
total_value total (u ∷ us) = total_value ((total + u.value) % 2 ^ 64) us

abbrev pub utxo_of : Coin → Utxo
utxo_of c = c.utxo

abbrev pub outpoint_of : Utxo → OutPoint
outpoint_of u = u.outpoint

abbrev pub default_min_change_amount : ℕ
default_min_change_amount = 330

-- The conversions of the libraries: `uint64(v.ToUnit(AmountSatoshi))`, which goes through a float64,
-- and `DecodeString` and `EncodeToString` of hex.
pub record Conversions : Type 0 where
  pub to_satoshi : ℕ → ℕ
  pub decode_hex : String → Option (List ℕ)
  pub encode_hex : List ℕ → String

-- `PkScript`, which drops the error of the decoding.
abbrev pub or_empty : Option (List ℕ) → List ℕ
or_empty none = []
or_empty (some script) = script

abbrev pub pk_script : Conversions → Utxo → List ℕ
pk_script conv u = or_empty (conv.decode_hex u.script)

-- What `selectCoins` returns for a coin.
abbrev pub returned : Conversions → Coin → Utxo
returned conv c = record {
  outpoint = c.utxo.outpoint;
  value = conv.to_satoshi c.value;
  script = conv.encode_hex (pk_script conv c.utxo);
  confirmations = c.utxo.confirmations;
}

-- The result of a selection, with what it returns for a coin.
abbrev pub selected : (Coin → Utxo) → Option (List Coin) → Result SelectError (List Utxo × ℕ)
selected f none = err no_selection_available
selected f (some coins) = ok (map f coins, total_value 0 (map f coins))

-- The loop of `selectCoinsForWithdraw`.
unfoldable pub affordable : ℕ → List OutPoint → List Utxo → List Coin
affordable per_input locked [] = []
affordable per_input locked (u ∷ us) =
    let rest = affordable per_input locked us in
    let coin : Coin = record { utxo = u; value = u.value - per_input } in
    if is_locked u.outpoint locked || leb u.value per_input then rest else coin ∷ rest

-- The difference of two uint64.
abbrev pub sub64 : ℕ → ℕ → ℕ
sub64 a b = (a + 2 ^ 64 - b) % 2 ^ 64

-- What `SelectUtxos` does with the result of `selectCoins`. `lock` reads its own clocks, and its error is
-- ignored.
abbrev pub lock_chosen :
    (OutPoint → ℕ)
    → ℕ
    → ℕ
    → ℕ
    → Result SelectError (List Utxo × ℕ)
    → Locks
    → Result SelectError (List Utxo × ℕ) × Locks
lock_chosen clock now expiry amount (err e) left = (err e, left)
lock_chosen clock now expiry amount (ok (chosen, total)) left =
    (ok (chosen, sub64 total amount), (lock expiry clock now (map outpoint_of chosen) left).1)

module _ (smallest_first largest_first : List Coin → List Coin)
    (min_number : ℕ → ℕ → ℕ → List Coin → Option (List Coin)) where
  -- The method `selectCoins`. The first argument is whether the wallet has its keys, the second one the
  -- utxos that the explorer returns. The second result is what `get` leaves of the locks.
  unfoldable pub select_coins :
      Conversions
      → Bool
      → Option (List Utxo)
      → (String → Option Bool)
      → (OutPoint → ℕ)
      → ℕ
      → Bool
      → ℕ
      → Locks
      → Result SelectError (List Utxo × ℕ) × Locks
  select_coins conv false utxos explorer clock amount confirmed_only min_change m =
      (err wallet_locked, m)
  select_coins conv true none explorer clock amount confirmed_only min_change m =
      (err explorer_failed, m)
  select_coins conv true (some utxos) explorer clock amount confirmed_only min_change m =
      let locked = get clock m in
      let coins = available explorer confirmed_only locked.0 [] utxos in
      (
        selected (returned conv)
            (economical smallest_first largest_first min_number min_change amount coins),
        locked.1,
      )

  -- The method `selectCoinsForWithdraw`, with the estimate of the fee for a number of inputs.
  unfoldable pub select_coins_for_withdraw :
      Bool
      → Option (List Utxo)
      → (ℕ → ℕ)
      → (OutPoint → ℕ)
      → ℕ
      → Locks
      → Result SelectError (List Utxo × ℕ) × Locks
  select_coins_for_withdraw false utxos estimate_fee clock amount m = (err wallet_locked, m)
  select_coins_for_withdraw true none estimate_fee clock amount m = (err explorer_failed, m)
  select_coins_for_withdraw true (some utxos) estimate_fee clock amount m =
      let locked = get clock m in
      let per_input = sub64 (estimate_fee 2) (estimate_fee 1) in
      let base = sub64 (estimate_fee 1) per_input in
      let coins = affordable per_input locked.0 utxos in
      let target = (amount + base) % 2 ^ 64 in
      (
        selected utxo_of (consolidate_first smallest_first largest_first min_number 0 target coins),
        locked.1,
      )

  -- The method `SelectUtxos`: the utxos that `selectCoins` returns, and the change.
  unfoldable pub select_utxos :
      Conversions
      → Bool
      → Option (List Utxo)
      → (String → Option Bool)
      → (OutPoint → ℕ)
      → (OutPoint → ℕ)
      → ℕ
      → ℕ
      → ℕ
      → Bool
      → Locks
      → Result SelectError (List Utxo × ℕ) × Locks
  select_utxos conv unlocked utxos explorer clock clock' now expiry amount confirmed_only m =
      let r =
        select_coins conv unlocked utxos explorer clock amount confirmed_only
          default_min_change_amount m in
      lock_chosen clock' now expiry amount r.0 r.1
