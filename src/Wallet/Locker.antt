-- ===== src/Wallet/Locker.antt =====
-- pkg/arkd-wallet/core/application/wallet/outpoint_locker.go: the outpoints that are locked, with the time
-- until which they are. A call of `lock` has two critical sections, `get` and `commit`, and reads the
-- clock at each entry in the first one and once in the second.
pub mod Entries
pub mod Uninterrupted
pub mod Calls
use arkd.Base.{
  ℕ, ◌+◌, Bool, true, false, List, [], ◌∷◌, Option, none, some, ltb, if◌then◌else◌, is_nil,
}
use arkd.Wallet.{OutPoint, same_outpoint}

-- The field `lockedOutpoints`.
abbrev pub Locks : Type 0
Locks = List (OutPoint × ℕ)

abbrev pub lookup : OutPoint → Locks → Option ℕ
lookup o [] = none
lookup o ((p, t) ∷ m) = if same_outpoint p o then some t else lookup o m

-- `m[o] = t`
abbrev pub assign : OutPoint → ℕ → Locks → Locks
assign o t [] = (o, t) ∷ []
assign o t ((p, u) ∷ m) = if same_outpoint p o then (p, t) ∷ m else (p, u) ∷ assign o t m

-- `delete(m, o)`
abbrev pub delete : OutPoint → Locks → Locks
delete o [] = []
delete o ((p, u) ∷ m) = if same_outpoint p o then delete o m else (p, u) ∷ delete o m

abbrev pub is_locked : OutPoint → List OutPoint → Bool
is_locked o [] = false
is_locked o (p ∷ ps) = if same_outpoint p o then true else is_locked o ps

-- The method `get`: the outpoints that are still locked, and the locks without those that have expired.
-- The clock is read for each outpoint.
unfoldable pub get : (OutPoint → ℕ) → Locks → List OutPoint × Locks
get clock [] = ([], [])
get clock ((o, until) ∷ m) =
    let rest = get clock m in
    if ltb until (clock o) then rest else (o ∷ rest.0, (o, until) ∷ rest.1)

-- Whether some outpoint is in the snapshot.
abbrev pub any_locked : List OutPoint → List OutPoint → Bool
any_locked snapshot [] = false
any_locked snapshot (o ∷ outs) = if is_locked o snapshot then true else any_locked snapshot outs

unfoldable pub assign_all : List OutPoint → ℕ → Locks → Locks
assign_all [] t m = m
assign_all (o ∷ outs) t m = assign_all outs t (assign o t m)

-- What `lock` does once it has the mutex again: whether it locks the outpoints, and the locks.
abbrev pub commit : ℕ → ℕ → List OutPoint → List OutPoint → Locks → Bool × Locks
commit expiry now snapshot outs m =
    if any_locked snapshot outs then (false, m) else (true, assign_all outs (now + expiry) m)

-- The method `lock`, not interrupted between its critical sections; `false` is its error.
abbrev pub lock : ℕ → (OutPoint → ℕ) → ℕ → List OutPoint → Locks → Bool × Locks
lock expiry clock now [] m = (true, m)
lock expiry clock now (o ∷ outs) m = commit expiry now (get clock m).0 (o ∷ outs) (get clock m).1

-- The method `unlock`.
unfoldable pub unlock : List OutPoint → Locks → Locks
unlock [] m = m
unlock (o ∷ outs) m = unlock outs (delete o m)
