-- ===== src/Wallet/Locker/Calls.antt =====
-- Sequences of calls of the outpoint locker, and two calls of `lock` that run at the same time
-- (pkg/arkd-wallet/core/application/wallet/outpoint_locker.go).
use arkd.Base.{
  ℕ, ◌+◌, ◌≡◌, ◌≤◌, ◌∙◌, refl, ap, true, false, List, [], ◌∷◌, Option, none, some, arith,
  Bool-cases, inl, inr,
}
use arkd.Wallet.{OutPoint}
use arkd.Wallet.Locker.{Locks, lookup, is_locked, get, any_locked, commit, lock, unlock}
use arkd.Wallet.Locker.Entries.{
  IsMap, alive, is_some, lookup-get, get-IsMap, assign_all-IsMap, unlock-IsMap, any_locked_cases,
  lookup-assign_all, lookup-unlock,
}
use arkd.Wallet.Locker.Uninterrupted.{LocksAll, Refuses, snapshot, lock_lem}

-- Calls of the locker while an outpoint is locked: it is not unlocked, and no clock that is read for it is
-- past its time. The critical sections of a call of `lock` that is interrupted are `lists` and `commits`,
-- and where such a call asks for the outpoint, its snapshot has it.
pub data Calls (o : OutPoint) (until : ℕ) : Locks → Locks → Type 0 where
  done : (m : Locks) → Calls o until m m
  lists :
      {m n : Locks} (clock : OutPoint → ℕ)
      → clock o ≤ until
      → Calls o until (get clock m).1 n
      → Calls o until m n
  locks :
      {m n : Locks} (expiry : ℕ) (clock : OutPoint → ℕ) (now : ℕ) (outs : List OutPoint)
      → clock o ≤ until
      → Calls o until (lock expiry clock now outs m).1 n
      → Calls o until m n
  commits :
      {m n : Locks} (expiry now : ℕ) (seen outs : List OutPoint)
      → (is_locked o outs ≡ true → is_locked o seen ≡ true)
      → Calls o until (commit expiry now seen outs m).1 n
      → Calls o until m n
  unlocks :
      {m n : Locks} (outs : List OutPoint)
      → is_locked o outs ≡ false
      → Calls o until (unlock outs m) n
      → Calls o until m n

commit-IsMap :
    (expiry now : ℕ) (seen outs : List OutPoint) (m : Locks)
    → IsMap m
    → IsMap (commit expiry now seen outs m).1
commit-IsMap expiry now seen outs m h = elim (Bool-cases (any_locked seen outs)) [
  | inl a ↦ rw a h
  | inr a ↦ rw a (assign_all-IsMap outs (now + expiry) m h)
]

lock-IsMap :
    (expiry : ℕ) (clock : OutPoint → ℕ) (now : ℕ) (outs : List OutPoint) (m : Locks)
    → IsMap m
    → IsMap (lock expiry clock now outs m).1
lock-IsMap expiry clock now [] m h = h
lock-IsMap expiry clock now (p ∷ ps) m h = elim (Bool-cases (any_locked (get clock m).0 (p ∷ ps))) [
  | inl a ↦ rw a (get-IsMap clock m h)
  | inr a ↦ rw a (assign_all-IsMap (p ∷ ps) (now + expiry) (get clock m).1 (get-IsMap clock m h))
]

module _ (o : OutPoint) (until : ℕ) where
  pub alive_held : (t : ℕ) (e : Option ℕ) → e ≡ some until → t ≤ until → alive t e ≡ some until
  alive_held t none h le = absurd (ground (arith, h))
  alive_held t (some u) h le = ground (arith, h)

  alive_was : (t : ℕ) (e : Option ℕ) → alive t e ≡ some until → e ≡ some until
  alive_was t none h = h
  alive_was t (some u) h = ground (arith, h)

  refused :
      (expiry : ℕ) (clock : OutPoint → ℕ) (now : ℕ) (outs : List OutPoint) (m : Locks)
      → IsMap m
      → lookup o m ≡ some until
      → clock o ≤ until
      → (lookup o (lock expiry clock now outs m).1 ≡ some until)
        × (is_locked o outs ≡ true → (lock expiry clock now outs m).0 ≡ false)
  unfolding LocksAll Refuses
  refused expiry clock now outs m h held le =
      let now_held = alive_held (clock o) (lookup o m) held le in
      elim (lock_lem expiry clock now outs m h) [
        | inl (k, (taken, kept)) ↦ elim (Bool-cases (is_locked o outs)) [
          | inl i ↦ absurd (ground (arith, (taken o i).0, now_held))
          | inr i ↦
              (alive_was (clock o) _ (kept o i ∙ now_held), λ i'. absurd (ground (arith, i, i')))
        ]
        | inr (k, (why, kept)) ↦ (kept o ∙ now_held, λ i. k)
      ]

  -- A commit that does not ask for the outpoint, or whose snapshot has it, keeps its lock.
  commit-held :
      (expiry now : ℕ) (seen outs : List OutPoint) (m : Locks)
      → (is_locked o outs ≡ true → is_locked o seen ≡ true)
      → lookup o (commit expiry now seen outs m).1 ≡ lookup o m
  commit-held expiry now seen outs m has = elim (any_locked_cases seen outs) [
    | inl (a, _, _, _) ↦ rw a refl
    | inr (a, f) ↦ elim (Bool-cases (is_locked o outs)) [
      | inl i ↦ absurd (ground (arith, has i, f o i))
      | inr i ↦ rw a (ground (arith, lookup-assign_all o outs (now + expiry) m, i))
    ]
  ]

  commit-refused :
      (expiry now : ℕ) (seen outs : List OutPoint) (m : Locks)
      → is_locked o outs ≡ true
      → is_locked o seen ≡ true
      → (commit expiry now seen outs m).0 ≡ false
  commit-refused expiry now seen outs m i s = elim (any_locked_cases seen outs) [
    | inl (a, _, _, _) ↦ rw a refl
    | inr (a, f) ↦ absurd (ground (arith, f o i, s))
  ]

  -- While an outpoint is locked, its lock is kept until the same time through calls, and critical
  -- sections of interrupted calls, that do not unlock it and read clocks that are not past this
  -- time, where an interrupted call of `lock` that asks for it commits with a snapshot that has it.
  -- Then a call of `lock` that asks for it is refused, and if it is interrupted, whatever the locks
  -- are when it commits.
  pub lookup-Calls :
      {m n : Locks}
      → Calls o until m n
      → IsMap m
      → lookup o m ≡ some until
      → (expiry : ℕ) (clock : OutPoint → ℕ) (now : ℕ) (outs : List OutPoint) (later : Locks)
      → clock o ≤ until
      → is_locked o outs ≡ true
      → (lookup o n ≡ some until)
        × ((lock expiry clock now outs n).0 ≡ false)
        × ((commit expiry now (get clock n).0 outs later).0 ≡ false)
  lookup-Calls (Calls.done m) h held expiry clock now outs later le i =
      let seen : is_locked o (get clock m).0 ≡ true =
        snapshot clock o m h ∙ ap is_some (alive_held (clock o) (lookup o m) held le) in
      (
        held,
        (refused expiry clock now outs m h held le).1 i,
        commit-refused expiry now (get clock m).0 outs later i seen,
      )
  lookup-Calls {m} (Calls.commits x t seen os has r) h held expiry clock now outs later le i =
      lookup-Calls r (commit-IsMap x t seen os m h) (commit-held x t seen os m has ∙ held) expiry
        clock now outs later le i
  lookup-Calls {m} (Calls.lists c le' r) h held expiry clock now outs later le i =
      let held' = lookup-get c o m h ∙ alive_held (c o) (lookup o m) held le' in
      lookup-Calls r (get-IsMap c m h) held' expiry clock now outs later le i
  lookup-Calls {m} (Calls.locks x c t os le' r) h held expiry clock now outs later le i =
      lookup-Calls r (lock-IsMap x c t os m h) (refused x c t os m h held le').0 expiry clock now
        outs later le i
  lookup-Calls {m} (Calls.unlocks os away r) h held expiry clock now outs later le i =
      let held' : lookup o (unlock os m) ≡ some until =
        ground (arith, lookup-unlock o os m, away, held) in
      lookup-Calls r (unlock-IsMap os m h) held' expiry clock now outs later le i

-- Outpoints that have been unlocked can be locked again at once.
pub lock-unlock :
    (expiry : ℕ) (clock : OutPoint → ℕ) (now : ℕ) (outs : List OutPoint) (m : Locks)
    → IsMap m
    → (lock expiry clock now outs (unlock outs m)).0 ≡ true
unfolding Refuses
lock-unlock expiry clock now outs m h =
    elim (lock_lem expiry clock now outs (unlock outs m) (unlock-IsMap outs m h)) [
      | inl (k, more) ↦ k
      | inr (k, ((o, i, locked), kept)) ↦
          let e : lookup o (unlock outs m) ≡ none = ground (arith, lookup-unlock o outs m, i) in
          absurd (locked (ap (alive (clock o)) e))
    ]

free_commit :
    (expiry : ℕ) (clock : OutPoint → ℕ) (now : ℕ) (outs : List OutPoint) (m later : Locks)
    → IsMap m
    → ((o : OutPoint) → is_locked o outs ≡ true → lookup o m ≡ none)
    → (commit expiry now (get clock m).0 outs later).0 ≡ true
free_commit expiry clock now outs m later h free = elim (any_locked_cases (get clock m).0 outs) [
  | inl (a, o, i, s) ↦
      let e : is_some (alive (clock o) (lookup o m)) ≡ false =
        ap (λ x. is_some (alive (clock o) x)) (free o i) in
      absurd (ground (arith, snapshot clock o m h, e, s))
  | inr (a, f) ↦ rw a refl
]

-- Two calls of `lock` for outpoints that are not locked, of which each runs its first critical section
-- before either runs its second one, both succeed: the second one commits to a snapshot that does not
-- have the first one's locks.
pub commit-commit :
    (expiry : ℕ) (clock clock' : OutPoint → ℕ) (now now' : ℕ) (outs : List OutPoint) (m : Locks)
    → IsMap m
    → ((o : OutPoint) → is_locked o outs ≡ true → lookup o m ≡ none)
    → ((commit expiry now (get clock m).0 outs (get clock' (get clock m).1).1).0 ≡ true)
      × ((commit expiry now'
            (get clock' (get clock m).1).0
            outs
            (commit expiry now (get clock m).0 outs (get clock' (get clock m).1).1).1).0
          ≡ true)
commit-commit expiry clock clock' now now' outs m h free =
    let first = free_commit expiry clock now outs m (get clock' (get clock m).1).1 h free in
    let left = (get clock m).1 in
    let free' : (o : OutPoint) → is_locked o outs ≡ true → lookup o left ≡ none =
      λ o i. lookup-get clock o m h ∙ ap (alive (clock o)) (free o i) in
    (first, free_commit expiry clock' now' outs left _ (get-IsMap clock m h) free')
