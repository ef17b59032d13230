-- ===== src/Wallet/Service/Exclusive.antt =====
-- `SelectUtxos` with the locks that it leaves (pkg/arkd-wallet/core/application/wallet/service.go).
use arkd.Base.{
  ℕ, ◌+◌, ◌≡◌, ◌≤◌, ◌<◌, ◌^◌, ◌∙◌, sym, ap, subst, String, Bool, true, false, List, [], ◌∷◌, Option,
  some, map, arith, Bool-cases, inl, inr,
}
use arkd.Base.Results.{Result, ok, err}
use arkd.Wallet.{OutPoint, Utxo, same_outpoint, same_outpoint-eq}
use arkd.Wallet.Coins.{Coin}
use arkd.Wallet.Coins.Select.{IsDocumented}
use arkd.Wallet.Locker.{Locks, is_locked, lookup, get, lock}
use arkd.Wallet.Locker.Entries.{IsMap, get-IsMap, is_locked-get, is_some, alive}
use arkd.Wallet.Locker.Uninterrupted.{lock_lem, LocksAll, Refuses, not_some, snapshot}
use arkd.Wallet.Locker.Calls.{alive_held}
use arkd.Wallet.Service.{
  SelectError, Conversions, outpoint_of, lock_chosen, select_coins, select_utxos,
  default_min_change_amount,
}
use arkd.Wallet.Service.Loops.{all, value_sum, spendable}
use arkd.Wallet.Service.Chosen.{is_exact, IsFloat}
use arkd.Wallet.Service.Funds.{select_coins-IsFunded}

-- What may be spent is not locked.
not_locked :
    (explorer : String → Option Bool) (confirmed_only : Bool) (locked : List OutPoint)
    (o : OutPoint) (chosen : List Utxo)
    → all (spendable explorer confirmed_only locked) chosen ≡ true
    → is_locked o (map outpoint_of chosen) ≡ true
    → is_locked o locked ≡ false
unfolding all
not_locked explorer confirmed_only locked o [] h i = absurd (ground arith)
not_locked explorer confirmed_only locked o (u ∷ us) h i =
    elim (Bool-cases (same_outpoint u.outpoint o)) [
      | inl e ↦
          subst (λ x. is_locked x locked ≡ false) (same_outpoint-eq u.outpoint o e) (ground arith)
      | inr e ↦ not_locked explorer confirmed_only locked o us (ground arith) (ground arith)
    ]

-- Locks that are free of some outpoints take them all.
lock-free :
    (clock clock' : OutPoint → ℕ) (now expiry : ℕ) (outs : List OutPoint) (m : Locks)
    → IsMap m
    → ((o : OutPoint) → is_locked o outs ≡ true → is_locked o (get clock m).0 ≡ false)
    → (o : OutPoint) → is_locked o outs ≡ true
    → lookup o (lock expiry clock' now outs (get clock m).1).1 ≡ some (now + expiry)
unfolding LocksAll Refuses
lock-free clock clock' now expiry outs m h free o i =
    elim (lock_lem expiry clock' now outs (get clock m).1 (get-IsMap clock m h)) [
      | inl (k, (taken, kept)) ↦ (taken o i).1
      | inr (k, ((p, j, locked), kept)) ↦
          let gone = not_some _ (sym (is_locked-get clock p m) ∙ free p j) in
          absurd (locked (ap (alive (clock' p)) gone))
    ]

lock_chosen-ok :
    (clock : OutPoint → ℕ) (now expiry amount : ℕ) (r : Result SelectError (List Utxo × ℕ))
    (left : Locks) (chosen : List Utxo) (change : ℕ)
    → (lock_chosen clock now expiry amount r left).0 ≡ ok (chosen, change)
    → (total : ℕ) × (r ≡ ok (chosen, total))
      × ((lock_chosen clock now expiry amount r left).1
          ≡ (lock expiry clock now (map outpoint_of chosen) left).1)
lock_chosen-ok clock now expiry amount (err e) left chosen change h = absurd (ground arith)
lock_chosen-ok clock now expiry amount (ok (c, total)) left chosen change h =
    let e : c ≡ chosen = ground arith in
    (
      total,
      ap (λ x. ok (x, total)) e,
      ap (λ x. (lock expiry clock now (map outpoint_of x) left).1) e,
    )

module _ (smallest_first largest_first : List Coin → List Coin)
    (min_number : ℕ → ℕ → ℕ → List Coin → Option (List Coin))
    (doc : IsDocumented smallest_first largest_first min_number) (conv : Conversions)
    (float : IsFloat conv) (utxos chosen : List Utxo) (exact : all (is_exact conv) utxos ≡ true)
    (change : ℕ) (explorer : String → Option Bool) (clock clock' : OutPoint → ℕ)
    (now expiry amount : ℕ) (confirmed_only : Bool) (m : Locks) (map_m : IsMap m)
    (fits : value_sum utxos < 2 ^ 64) (small : amount + default_min_change_amount < 2 ^ 63) where
  -- `SelectUtxos`, where no other call comes between its two calls of the locker, leaves each utxo that it
  -- returns locked until the time of the lock plus the expiry.
  pub lookup-select_utxos :
      (select_utxos smallest_first largest_first min_number conv true
          (some utxos)
          explorer
          clock
          clock'
          now
          expiry
          amount
          confirmed_only
          m).0
        ≡ ok (chosen, change)
      → (o : OutPoint) → is_locked o (map outpoint_of chosen) ≡ true
      → lookup o
          (select_utxos smallest_first largest_first min_number conv true
            (some utxos)
            explorer
            clock
            clock'
            now
            expiry
            amount
            confirmed_only
            m).1
        ≡ some (now + expiry)
  unfolding select_utxos select_coins
  lookup-select_utxos h o i =
      let (total, e, e') = lock_chosen-ok clock' now expiry amount _ _ chosen change h in
      let f =
        select_coins-IsFunded smallest_first largest_first min_number doc conv utxos chosen total
          explorer clock amount confirmed_only default_min_change_amount m float exact fits small
          e in
      let free = λ (o : OutPoint) (i : is_locked o (map outpoint_of chosen) ≡ true).
        not_locked explorer confirmed_only (get clock m).0 o chosen f.0.free i in
      ap (lookup o) e' ∙ lock-free clock clock' now expiry (map outpoint_of chosen) m map_m free o i

  -- `SelectUtxos` does not return a utxo that is locked until a time that its clock has not passed.
  pub is_locked-select_utxos :
      (select_utxos smallest_first largest_first min_number conv true
          (some utxos)
          explorer
          clock
          clock'
          now
          expiry
          amount
          confirmed_only
          m).0
        ≡ ok (chosen, change)
      → (o : OutPoint) (until : ℕ) → lookup o m ≡ some until
      → clock o ≤ until
      → is_locked o (map outpoint_of chosen) ≡ false
  unfolding select_utxos
  is_locked-select_utxos h o until held le =
      let (total, e, e') = lock_chosen-ok clock' now expiry amount _ _ chosen change h in
      let f =
        select_coins-IsFunded smallest_first largest_first min_number doc conv utxos chosen total
          explorer clock amount confirmed_only default_min_change_amount m float exact fits small
          e in
      let in_snapshot : is_locked o (get clock m).0 ≡ true =
        snapshot clock o m map_m ∙ ap is_some (alive_held o until (clock o) (lookup o m) held le) in
      elim (Bool-cases (is_locked o (map outpoint_of chosen))) [
        | inl i ↦ absurd (
            ground (
              arith,
              not_locked explorer confirmed_only (get clock m).0 o chosen f.0.free i,
              in_snapshot,
            ))
        | inr i ↦ i
      ]
