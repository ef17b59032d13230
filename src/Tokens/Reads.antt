-- ===== src/Tokens/Reads.antt =====
-- What the reads of internal/core/application/token_cache.go answer after a sweep, and after the issue of
-- a token.
use arkd.Base.{
  ℕ, ◌+◌, ◌≡◌, ◌≤◌, refl, inl, inr, String, Bool, true, false, not, List, [], ◌∷◌, Option, none,
  some, ltb, eq_iff, if◌then◌else◌, arith, Bool-cases, Option-cases,
}
use arkd.Base.Maps.{find, find-insert, IsMap, find-has, has-none, has-find}
use arkd.Domain.Types.{Outpoint}
use arkd.Tokens.Shared.{shared-assign_all}
use arkd.Tokens.{
  Expiries, TokenCache, assign_each, add, first_expiry, is_expired, get_outpoints, get_txids,
  sweep_expired, list_selected, list_by_hash, list, if_not_expired, entry_if_live,
  create_auth_token,
}

abbrev pub is_found {ℓ} : {A : Type ℓ} → Option A → Bool
is_found none = false
is_found (some a) = true

-- Whether the entry of a hash has expired.
abbrev pub is_stale : ℕ → Option Expiries → Bool
is_stale now none = false
is_stale now (some m) = is_expired now (first_expiry m)

-- A token that is issued is found at that time exactly if no entry of its hash was in the cache that
-- had expired and was not swept yet: such an entry is neither found nor replaced.
pub get_outpoints-create_auth_token :
    (duration : ℕ) (hash : String) (o : Outpoint) (os : List Outpoint) (now : ℕ) (c : TokenCache)
    → is_found (get_outpoints now hash (create_auth_token duration hash (o ∷ os) now c).1)
      ≡ not (is_stale now (find hash c))
unfolding create_auth_token get_outpoints add
get_outpoints-create_auth_token duration hash o os now c = elim (Option-cases (find hash c)) [
  | inl e ↦
      let fresh : ltb (now + duration) now ≡ false = ground arith in
      rw
        (
          e,
          find-has hash c e,
          find-insert hash (assign_each (o ∷ os) (now + duration) []) c,
          (shared-assign_all o os (now + duration)).0,
          fresh,
        )
        refl
  | inr (m, e) ↦ elim (Bool-cases (is_expired now (first_expiry m))) [
    | inl old ↦ rw (e, old, has-find hash m c e, e, old) refl
    | inr live ↦ rw (e, live, e, live) refl
  ]
]

find-sweep_expired :
    (now : ℕ) (h : String) (c : TokenCache)
    → IsMap c
    → find h (sweep_expired now c) ≡ (if is_stale now (find h c) then none else find h c)
unfolding sweep_expired
find-sweep_expired now h [] u = refl
find-sweep_expired now h ((j, m) ∷ c) (new, u) =
    ground (arith, find-sweep_expired now h c u, has-none h c, eq_iff j h)

-- What has expired at the time of a sweep has expired at a later read.
stale-later :
    (now later : ℕ) (o : Option Expiries)
    → now ≤ later
    → is_stale now o ≡ true
    → is_stale later o ≡ true
stale-later now later none h s = s
stale-later now later (some []) h s = s
stale-later now later (some ((o, t) ∷ m)) h s = ground (arith, h)

if_not_expired-stale {ℓ} :
    {A : Type ℓ} (now later : ℕ) (f : Expiries → A) (o : Option Expiries)
    → now ≤ later
    → if_not_expired later f (if is_stale now o then none else o) ≡ if_not_expired later f o
if_not_expired-stale now later f none h = refl
if_not_expired-stale now later f (some m) h = elim (Bool-cases (is_expired now (first_expiry m))) [
  | inl old ↦ rw (old, stale-later now later (some m) h old) refl
  | inr live ↦ rw live refl
]

entry_if_live-stale :
    (now later : ℕ) (hash : String) (o : Option Expiries)
    → now ≤ later
    → entry_if_live later hash (if is_stale now o then none else o) ≡ entry_if_live later hash o
entry_if_live-stale now later hash none h = refl
entry_if_live-stale now later hash (some []) h = refl
entry_if_live-stale now later hash (some ((o, t) ∷ m)) h = ground (arith, h)

list_selected-sweep_expired :
    (now later : ℕ) (outpoint txid : String) (c : TokenCache)
    → now ≤ later
    → list_selected later outpoint txid (sweep_expired now c) ≡ list_selected later outpoint txid c
unfolding list_selected sweep_expired
list_selected-sweep_expired now later outpoint txid [] h = refl
list_selected-sweep_expired now later outpoint txid ((j, []) ∷ c) h =
    list_selected-sweep_expired now later outpoint txid c h
list_selected-sweep_expired now later outpoint txid ((j, (o, t) ∷ m) ∷ c) h =
    ground (arith, list_selected-sweep_expired now later outpoint txid c h)

pub sweep_unseen :
    (now later : ℕ) (hash outpoint txid : String) (c : TokenCache)
    → IsMap c
    → now ≤ later
    → (get_outpoints later hash (sweep_expired now c) ≡ get_outpoints later hash c)
      × (get_txids later hash (sweep_expired now c) ≡ get_txids later hash c)
      × (list later hash outpoint txid (sweep_expired now c) ≡ list later hash outpoint txid c)
unfolding get_outpoints get_txids list list_by_hash
sweep_unseen now later hash outpoint txid c u h = (
  rw (find-sweep_expired now hash c u) (if_not_expired-stale now later _ (find hash c) h),
  rw (find-sweep_expired now hash c u) (if_not_expired-stale now later _ (find hash c) h),
  rw
      (
        list_selected-sweep_expired now later outpoint txid c h,
        find-sweep_expired now hash c u,
        entry_if_live-stale now later hash (find hash c) h,
      )
      refl,
)
