-- ===== src/Wallet/Locker/Uninterrupted.antt =====
-- A call of `lock` that nothing interrupts between its two critical sections
-- (pkg/arkd-wallet/core/application/wallet/outpoint_locker.go).
use arkd.Base.{
  ℕ, ◌+◌, ◌≡◌, ◌≢◌, ◌∙◌, refl, sym, ap, true, false, List, [], ◌∷◌, Option, none, some, arith, inl,
  inr, ◌⊎◌,
}
use arkd.Wallet.{OutPoint}
use arkd.Wallet.Locker.{Locks, lookup, is_locked, get, lock}
use arkd.Wallet.Locker.Entries.{
  IsMap, alive, is_some, lookup-get, is_locked-get, any_locked_cases, lookup-assign_all,
}

-- What a call of `lock` shows of the locks before it and after it.
unfoldable pub LocksAll : ℕ → (OutPoint → ℕ) → ℕ → List OutPoint → Locks → Locks → Type 0
LocksAll expiry clock now outs m m' =
    ((o : OutPoint)
      → is_locked o outs ≡ true
      → (alive (clock o) (lookup o m) ≡ none) × (lookup o m' ≡ some (now + expiry)))
    × ((o : OutPoint)
        → is_locked o outs ≡ false
        → alive (clock o) (lookup o m') ≡ alive (clock o) (lookup o m))

unfoldable pub Refuses : (OutPoint → ℕ) → List OutPoint → Locks → Locks → Type 0
Refuses clock outs m m' =
    ((o : OutPoint) × (is_locked o outs ≡ true) × (alive (clock o) (lookup o m) ≢ none))
    × ((o : OutPoint) → lookup o m' ≡ alive (clock o) (lookup o m))

alive-alive : (t : ℕ) (e : Option ℕ) → alive t (alive t e) ≡ alive t e
alive-alive t none = refl
alive-alive t (some u) = ground arith

-- The snapshot has the outpoints that are locked.
pub snapshot :
    (clock : OutPoint → ℕ) (o : OutPoint) (m : Locks)
    → IsMap m
    → is_locked o (get clock m).0 ≡ is_some (alive (clock o) (lookup o m))
snapshot clock o m h = is_locked-get clock o m ∙ ap is_some (lookup-get clock o m h)

pub not_some : (e : Option ℕ) → is_some e ≡ false → e ≡ none
not_some none h = refl
not_some (some u) h = absurd (ground arith)

some_not : (e : Option ℕ) → is_some e ≡ true → e ≢ none
some_not none h = absurd (ground arith)
some_not (some u) h = λ k. ground (arith, k)

-- A call of `lock` that is not interrupted either locks all of its outpoints until its time plus the
-- expiry, where none of them was locked, and keeps every other lock that has not expired; or it is
-- refused, where one of its outpoints is locked, and it changes no lock but the expired ones.
pub lock_lem :
    (expiry : ℕ) (clock : OutPoint → ℕ) (now : ℕ) (outs : List OutPoint) (m : Locks)
    → IsMap m
    → (((lock expiry clock now outs m).0 ≡ true)
        × LocksAll expiry clock now outs m (lock expiry clock now outs m).1)
      ⊎ (((lock expiry clock now outs m).0 ≡ false)
          × Refuses clock outs m (lock expiry clock now outs m).1)
unfolding LocksAll Refuses
lock_lem expiry clock now [] m h = inl (refl, (λ o i. absurd (ground arith), λ o i. refl))
lock_lem expiry clock now (p ∷ ps) m h =
    let outs = p ∷ ps in
    let left = (get clock m).1 in
    let t = now + expiry in
    elim (any_locked_cases (get clock m).0 outs) [
      | inl (a, o, i, s) ↦ rw a (
          inr (
            refl,
            ((o, i, some_not _ (sym (snapshot clock o m h) ∙ s)), λ q. lookup-get clock q m h),
          ))
      | inr (a, f) ↦ rw a (
          inl (
            refl,
            (
              λ o i. (
                not_some _ (sym (snapshot clock o m h) ∙ f o i),
                ground (arith, lookup-assign_all o outs t left, i),
              ),
              λ o i. ground (
                arith,
                lookup-assign_all o outs t left,
                i,
                lookup-get clock o m h,
                alive-alive (clock o) (lookup o m),
              ),
            ),
          ))
    ]
