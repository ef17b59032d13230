-- ===== src/Wallet/Examples.antt =====
-- Three coins, and the locks of two outpoints.
use mathlib.Core.List.{Perm}
use mathlib.Core.List.Perm
use arkd.Base.{
  ℕ, ◌+◌, ◌-◌, ◌*◌, ◌/◌, ◌^◌, leb, ◌≡◌, subst, ◌≤◌, ◌<◌, inr, refl, Bool, true, false, String, List,
  [], ◌∷◌, Option, none, some, arith, length, if◌then◌else◌, str_eq, is_nil,
}
use arkd.Base.Results.{ok}
use arkd.Wallet.{OutPoint, Utxo, same_outpoint-eq}
use arkd.Wallet.Coins.{
  Coin, consolidate, is_enough, suffix, consolidate_from, economical, consolidate_first,
}
use arkd.Wallet.Coins.Consolidate.{consolidate_from-IsPrefixFor}
use arkd.Wallet.Coins.Select.{IsDocumented, HasPrefix, economical-total}
use arkd.Wallet.Locker.{Locks, lookup, is_locked, get, lock, commit, unlock}
use arkd.Wallet.Locker.Calls.{Calls, lookup-Calls, lock-unlock, commit-commit}
use arkd.Wallet.Locker.Entries.{IsMap}
use arkd.Wallet.Service.{
  Conversions, available, affordable, total_value, select_coins, select_coins_for_withdraw,
  select_utxos,
}
use arkd.Wallet.Service.Chosen.{is_exact}
use arkd.Wallet.Service.Loops.{all, value_sum, spendable, worth_it}
use arkd.Wallet.Service.Funds.{IsFunded, select_coins-IsFunded, select_coins_for_withdraw-IsFunded}

abbrev a : OutPoint
a = record { hash = "a"; index = 0 }

abbrev b : OutPoint
b = record { hash = "b"; index = 1 }

abbrev utxo : OutPoint → ℕ → Utxo
utxo o v = record { outpoint = o; value = v; script = "s"; confirmations = 3 }

abbrev coin : OutPoint → ℕ → Coin
coin o v = record { utxo = utxo o v; value = v }

-- Coins that come sorted are their own order, and the first ones are the fewest here.
abbrev as_is : List Coin → List Coin
as_is cs = cs

abbrev first_ones : ℕ → ℕ → ℕ → List Coin → Option (List Coin)
first_ones max min_change target cs = consolidate_from target min_change max [] 0 cs

abbrev coins : List Coin
coins = coin a 700 ∷ coin b 1000 ∷ []

documented : IsDocumented as_is as_is first_ones
unfolding suffix
documented = record {
  smallest = λ cs. Perm.refl cs;
  largest = λ cs. Perm.refl cs;
  fewest = λ max min_change target cs chosen h.
      let f = consolidate_from-IsPrefixFor target min_change max cs [] cs 0 chosen refl refl h in
      record {
        others = f.left;
        parts = subst (λ l. Perm l cs) f.split (Perm.refl cs);
        enough = f.enough;
        few = f.few;
      };
}

economical-coins : economical as_is as_is first_ones 330 1300 coins ≡ some coins
unfolding economical consolidate_from
economical-coins = refl

has_prefix : HasPrefix as_is as_is first_ones 330 1300 coins
unfolding suffix
has_prefix = record {
  before = coin a 700 ∷ [];
  after = [];
  last = coin b 1000;
  split = refl;
  few = omega arith;
  enough = refl;
}

economical-total_example :
    ((l : List Coin) × (economical as_is as_is first_ones 330 1300 coins ≡ some l))
    × ((l : List Coin) × (consolidate_first as_is as_is first_ones 330 1300 coins ≡ some l))
economical-total_example = economical-total as_is as_is first_ones 330 1300 coins (inr has_prefix)

abbrev at : ℕ → OutPoint → ℕ
at t o = t

-- The outpoint `a` is locked until 10.
abbrev locks : Locks
locks = (a, 10) ∷ []

locks-IsMap : IsMap locks
unfolding IsMap
locks-IsMap = (refl, tt)

-- An interrupted call for `a` and `b` that took its snapshot while `a` was locked, and a call for `b`.
abbrev between : Locks
between = (commit 5 4 (a ∷ []) (a ∷ b ∷ []) locks).1

abbrev later : Locks
later = (lock 5 (at 3) 4 (b ∷ []) between).1

lookup-Calls_example :
    (lookup a later ≡ some 10)
    × ((lock 5 (at 6) 6 (a ∷ []) later).0 ≡ false)
    × ((commit 5 6 (get (at 6) later).0 (a ∷ []) []).0 ≡ false)
lookup-Calls_example =
    lookup-Calls a 10
      (Calls.commits 5 4 (a ∷ []) (a ∷ b ∷ []) (λ i. refl)
        (Calls.locks 5 (at 3) 4 (b ∷ []) (omega arith) (Calls.done later)))
      locks-IsMap refl 5 (at 6) 6 (a ∷ []) [] (omega arith) refl

lock-unlock_example : (lock 5 (at 6) 6 (a ∷ []) (unlock (a ∷ []) locks)).0 ≡ true
lock-unlock_example = lock-unlock 5 (at 6) 6 (a ∷ []) locks locks-IsMap

only_b : (o : OutPoint) → is_locked o (b ∷ []) ≡ true → lookup o locks ≡ none
only_b o i = subst (λ x. lookup x locks ≡ none) (same_outpoint-eq b o (ground arith)) refl

commit-commit_example :
    ((commit 5 4 (get (at 3) locks).0 (b ∷ []) (get (at 3) (get (at 3) locks).1).1).0 ≡ true)
    × ((commit 5 4
          (get (at 3) (get (at 3) locks).1).0
          (b ∷ [])
          (commit 5 4 (get (at 3) locks).0 (b ∷ []) (get (at 3) (get (at 3) locks).1).1).1).0
        ≡ true)
commit-commit_example = commit-commit 5 (at 3) (at 3) 4 4 (b ∷ []) locks locks-IsMap only_b

abbrev known : String → Option Bool
known txid = some false

-- Only `s` is a script here, and an odd number above 2^53 is rounded.
abbrev conv : Conversions
conv = record {
  to_satoshi = λ v. if leb v (2 ^ 53) then v else v / 2 * 2;
  decode_hex = λ script. if str_eq script "s" then some (5 ∷ []) else none;
  encode_hex = λ script. if is_nil script then "" else "s";
}

abbrev utxos : List Utxo
utxos = utxo a 700 ∷ utxo b 1000 ∷ []

utxos_exact : all (is_exact conv) utxos ≡ true
unfolding all
utxos_exact = refl

utxos_small : value_sum utxos < 2 ^ 64
unfolding value_sum
utxos_small = omega arith

selects_b :
    (select_coins as_is as_is first_ones conv true (some utxos) known (at 3) 600 false 330 locks).0
    ≡ ok (utxo b 1000 ∷ [], 1000)
unfolding select_coins economical consolidate_from available get total_value
selects_b = refl

select_coins-IsFunded_example :
    IsFunded (spendable known false (get (at 3) locks).0) utxos (utxo b 1000 ∷ []) 1000
    × (is_enough 600 330 1000 ≡ true)
select_coins-IsFunded_example =
    select_coins-IsFunded as_is as_is first_ones documented conv utxos (utxo b 1000 ∷ []) 1000 known
      (at 3) 600 false 330 locks (λ v h. ground arith) utxos_exact utxos_small (omega arith)
      selects_b

-- 100 for the transaction, and 20 for each input.
abbrev fee : ℕ → ℕ
fee n = 100 + 20 * n

withdraws :
    (select_coins_for_withdraw as_is as_is first_ones true (some utxos) fee (at 3) 1200 []).0
    ≡ ok (utxos, 1700)
unfolding select_coins_for_withdraw consolidate_first consolidate consolidate_from affordable get
    total_value
withdraws = refl

select_coins_for_withdraw-IsFunded_example :
    IsFunded (worth_it (fee 2 - fee 1) (get (at 3) []).0) utxos utxos 1700
    × (1200 + fee 1 + (fee 2 - fee 1) * length utxos ≤ 1700 + (fee 2 - fee 1))
select_coins_for_withdraw-IsFunded_example =
    select_coins_for_withdraw-IsFunded as_is as_is first_ones documented utxos utxos 1700 fee (at 3)
      1200 [] utxos_small (omega arith) (omega arith) (omega arith) withdraws

selects_and_locks :
    (select_utxos as_is as_is first_ones conv true
      (some utxos)
      known
      (at 3)
      (at 3)
      4
      5
      600
      false
      locks).0
    ≡ ok (utxo b 1000 ∷ [], 400)
unfolding select_utxos select_coins economical consolidate_from available get total_value
selects_and_locks = refl
