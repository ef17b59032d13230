-- ===== src/Tokens/Shared.antt =====
-- The one expiry of the outpoints that `add` of internal/core/application/token_cache.go writes.
use arkd.Base.{ℕ, ◌≡◌, refl, List, [], ◌∷◌, some, All, arith}
use arkd.Domain.Types.{Outpoint}
use arkd.Tokens.{Expiries, assign_outpoint, assign_each, first_expiry}

-- There is an outpoint, and all of them have the expiry.
abbrev pub IsSharedAt : ℕ → Expiries → Type 0
IsSharedAt t m = (first_expiry m ≡ some t) × All (λ e. e.1 ≡ t) m

shared-assign_outpoint :
    (o : Outpoint) (t : ℕ) (m : Expiries)
    → All (λ e. e.1 ≡ t) m
    → IsSharedAt t (assign_outpoint o t m)
shared-assign_outpoint o t [] h = (refl, (refl, tt))
shared-assign_outpoint o t ((p, u) ∷ m) (e, h) = ground (arith, shared-assign_outpoint o t m h)

shared-assign_each :
    (os : List Outpoint) (t : ℕ) (m : Expiries) → IsSharedAt t m → IsSharedAt t (assign_each os t m)
unfolding assign_each
shared-assign_each [] t m h = h
shared-assign_each (o ∷ os) t m (f, h) =
    shared-assign_each os t (assign_outpoint o t m) (shared-assign_outpoint o t m h)

pub shared-assign_all :
    (o : Outpoint) (os : List Outpoint) (t : ℕ) → IsSharedAt t (assign_each (o ∷ os) t [])
unfolding assign_each
shared-assign_all o os t = shared-assign_each os t (assign_outpoint o t []) (refl, (refl, tt))
