-- ===== src/Tokens/Runs.antt =====
-- The cache of internal/core/application/token_cache.go after any calls.
use arkd.Base.{
  ℕ, ◌+◌, ◌≡◌, refl, ap, inl, inr, String, Bool, false, not, List, [], ◌∷◌, str_eq, if◌then◌else◌,
  All, arith, Bool-cases, Option-cases,
}
use arkd.Base.Maps.{IsMap-insert, has, find, remove, IsMap, All-insert}
use arkd.Domain.Types.{Outpoint, is_empty}
use arkd.Tokens.{
  Expiries, TokenCache, add, first_expiry, is_expired, sweep_expired, is_selected, get_outpoints,
  revoke_selected, revoke_by_hash, revoke, create_auth_token,
}
use arkd.Tokens.Shared.{IsSharedAt, shared-assign_all}

pub data CacheCall : Type 0 where
  adds creates : String → Outpoint → List Outpoint → ℕ → CacheCall
  sweeps : ℕ → CacheCall
  revokes : ℕ → String → String → String → CacheCall

abbrev pub cache_call : ℕ → CacheCall → TokenCache → TokenCache
cache_call duration (adds hash o os now) c = add duration hash (o ∷ os) now c
cache_call duration (creates hash o os now) c = (create_auth_token duration hash (o ∷ os) now c).1
cache_call duration (sweeps now) c = sweep_expired now c
cache_call duration (revokes now hash outpoint txid) c = (revoke now hash outpoint txid c).1

unfoldable pub run_cache : ℕ → List CacheCall → TokenCache → TokenCache
run_cache duration [] c = c
run_cache duration (k ∷ ks) c = run_cache duration ks (cache_call duration k c)

-- The outpoints of an entry are not none, and all have one expiry.
abbrev pub IsShared : Expiries → Type 0
IsShared m = (t : ℕ) × IsSharedAt t m

pub record IsKept (c : TokenCache) : Type 0 where
  pub keyed : IsMap c
  pub shared : All (λ e. IsShared e.1) c

add-IsKept :
    (duration : ℕ) (hash : String) (o : Outpoint) (os : List Outpoint) (now : ℕ) (c : TokenCache)
    → IsKept c
    → IsKept (add duration hash (o ∷ os) now c)
unfolding add
add-IsKept duration hash o os now c h = elim (Bool-cases (has hash c)) [
  | inl e ↦ rw e h
  | inr e ↦ rw e (record {
    keyed = IsMap-insert hash _ c h.keyed;
    shared =
        All-insert (λ e. IsShared e.1) hash _ c
          (now + duration, shared-assign_all o os (now + duration)) h.shared;
  })
]

-- The entries that pass a test.
keep_if : (String → Expiries → Bool) → TokenCache → TokenCache
keep_if test [] = []
keep_if test ((j, m) ∷ c) = if test j m then (j, m) ∷ keep_if test c else keep_if test c

module _ (test : String → Expiries → Bool) where
  has-keep_if : (k : String) (c : TokenCache) → has k c ≡ false → has k (keep_if test c) ≡ false
  unfolding keep_if
  has-keep_if k [] h = refl
  has-keep_if k ((j, m) ∷ c) h = ground (arith, has-keep_if k c)

  keep_if-IsKept : (c : TokenCache) → IsKept c → IsKept (keep_if test c)
  unfolding keep_if
  keep_if-IsKept [] h = h
  keep_if-IsKept ((j, m) ∷ c) h =
      let rest = keep_if-IsKept c (record { keyed = h.keyed.1; shared = h.shared.1 }) in
      elim (Bool-cases (test j m)) [
        | inl e ↦ rw e (record {
          keyed = (has-keep_if j c h.keyed.0, rest.keyed);
          shared = (h.shared.0, rest.shared);
        })
        | inr e ↦ rw e rest
      ]

sweep_expired-keep_if :
    (now : ℕ) (c : TokenCache)
    → sweep_expired now c ≡ keep_if (λ j m. not (is_expired now (first_expiry m))) c
unfolding sweep_expired keep_if
sweep_expired-keep_if now [] = refl
sweep_expired-keep_if now ((j, m) ∷ c) = ground (arith, sweep_expired-keep_if now c)

remove-keep_if : (i : String) (c : TokenCache) → remove i c ≡ keep_if (λ j m. not (str_eq j i)) c
unfolding keep_if
remove-keep_if i [] = refl
remove-keep_if i ((j, m) ∷ c) = ground (arith, remove-keep_if i c)

revoke_selected-keep_if :
    (now : ℕ) (outpoint txid : String) (c : TokenCache)
    → (revoke_selected now outpoint txid c).1
      ≡ keep_if (λ j m. not (is_selected now outpoint txid m)) c
unfolding revoke_selected keep_if
revoke_selected-keep_if now outpoint txid [] = refl
revoke_selected-keep_if now outpoint txid ((j, m) ∷ c) =
    elim (Bool-cases (is_selected now outpoint txid m)) [
      | inl e ↦ rw e (revoke_selected-keep_if now outpoint txid c)
      | inr e ↦
          rw e (ap (λ (c : TokenCache). (j, m) ∷ c) (revoke_selected-keep_if now outpoint txid c))
    ]

revoke-IsKept :
    (now : ℕ) (hash outpoint txid : String) (c : TokenCache)
    → IsKept c
    → IsKept (revoke now hash outpoint txid c).1
unfolding revoke revoke_by_hash
revoke-IsKept now hash outpoint txid c h = elim (Bool-cases (is_empty hash)) [
  | inl e ↦ rw (e, revoke_selected-keep_if now outpoint txid c) (keep_if-IsKept _ c h)
  | inr e ↦ elim (Option-cases (find hash c)) [
    | inl gone ↦ rw (e, gone) h
    | inr (m, here) ↦ elim (Bool-cases (is_expired now (first_expiry m))) [
      | inl old ↦ rw (e, here, old) h
      | inr live ↦ rw (e, here, live, remove-keep_if hash c) (keep_if-IsKept _ c h)
    ]
  ]
]

create-IsKept :
    (duration : ℕ) (hash : String) (o : Outpoint) (os : List Outpoint) (now : ℕ) (c : TokenCache)
    → IsKept c
    → IsKept (create_auth_token duration hash (o ∷ os) now c).1
unfolding create_auth_token
create-IsKept duration hash o os now c h = elim (Option-cases (get_outpoints now hash c)) [
  | inl e ↦ rw e (add-IsKept duration hash o os now c h)
  | inr (found, e) ↦ rw e h
]

run_from-IsKept :
    (duration : ℕ) (ks : List CacheCall) (c : TokenCache)
    → IsKept c
    → IsKept (run_cache duration ks c)
unfolding run_cache
run_from-IsKept duration [] c h = h
run_from-IsKept duration (adds hash o os now ∷ ks) c h =
    run_from-IsKept duration ks _ (add-IsKept duration hash o os now c h)
run_from-IsKept duration (creates hash o os now ∷ ks) c h =
    run_from-IsKept duration ks _ (create-IsKept duration hash o os now c h)
run_from-IsKept duration (sweeps now ∷ ks) c h =
    run_from-IsKept duration ks _ (rw (sweep_expired-keep_if now c) (keep_if-IsKept _ c h))
run_from-IsKept duration (revokes now hash outpoint txid ∷ ks) c h =
    run_from-IsKept duration ks _ (revoke-IsKept now hash outpoint txid c h)

pub run_cache-IsKept : (duration : ℕ) (ks : List CacheCall) → IsKept (run_cache duration ks [])
run_cache-IsKept duration ks = run_from-IsKept duration ks [] (record { keyed = tt; shared = tt })
