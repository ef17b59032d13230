-- ===== src/Tokens.antt =====
-- internal/core/application/token_cache.go: the auth tokens of the indexer, and of indexer.go the issue of
-- one. A time is a natural number, the clock is an argument, and the zero time of an entry without
-- outpoints is `none`. The operations hold a lock. Hashes and signatures belong to libraries.
pub mod Shared
pub mod Reads
pub mod Revoked
pub mod Runs
pub mod Laws
mod Examples
use arkd.Base.{
  ℕ, ◌+◌, ◌-◌, String, Bool, true, false, not, ◌&&◌, ◌||◌, List, [], ◌∷◌, Option, none, some, suc,
  ltb, ◌==◌, str_eq, if◌then◌else◌,
}
use arkd.Base.Maps.{insert, has, find, remove}
use arkd.Domain.Types.{Outpoint, is_empty}
use arkd.Intents.Owner.{outpoint_string}
use arkd.Intents.Redis.{names}

-- The outpoints of a hash, each with its expiry.
abbrev pub Expiries : Type 0
Expiries = List (Outpoint × ℕ)

-- The field `outpointsByHash`.
abbrev pub TokenCache : Type 0
TokenCache = List (String × Expiries)

pub record TokenEntry : Type 0 where
  pub hash : String
  pub outpoints : List String
  pub expires_at : ℕ

-- `m[o] = t`
abbrev pub assign_outpoint : Outpoint → ℕ → Expiries → Expiries
assign_outpoint o t [] = (o, t) ∷ []
assign_outpoint o t ((p, u) ∷ m) =
    if str_eq p.txid o.txid && (p.vout == o.vout)
    then (p, t) ∷ m
    else (p, u) ∷ assign_outpoint o t m

unfoldable pub assign_each : List Outpoint → ℕ → Expiries → Expiries
assign_each [] t m = m
assign_each (o ∷ os) t m = assign_each os t (assign_outpoint o t m)

-- The method `add`, with the field `invalidationDuration`.
unfoldable pub add : ℕ → String → List Outpoint → ℕ → TokenCache → TokenCache
add duration hash outpoints now c =
    if has hash c then c else insert hash (assign_each outpoints (now + duration) []) c

-- The expiry that a loop over the outpoints finds first.
abbrev pub first_expiry : Expiries → Option ℕ
first_expiry [] = none
first_expiry ((o, t) ∷ m) = some t

-- `now.After(expiresAt)` in a loop that an entry without outpoints does not enter.
abbrev pub is_expired : ℕ → Option ℕ → Bool
is_expired now none = false
is_expired now (some t) = ltb t now

-- `now.After(expiresAt)` of a variable that is the zero time without outpoints.
abbrev pub is_past : ℕ → Option ℕ → Bool
is_past now none = true
is_past now (some t) = ltb t now

abbrev pub strings_of : Expiries → List String
strings_of [] = []
strings_of ((o, t) ∷ m) = outpoint_string o ∷ strings_of m

abbrev pub txids_of : Expiries → List String
txids_of [] = []
txids_of ((o, t) ∷ m) = o.txid ∷ txids_of m

abbrev pub if_not_expired {ℓ} : {A : Type ℓ} → ℕ → (Expiries → A) → Option Expiries → Option A
if_not_expired now f none = none
if_not_expired now f (some m) = if is_expired now (first_expiry m) then none else some (f m)

-- The methods `getOutpoints` and `getTxids`; `none` is the answer false.
unfoldable pub get_outpoints : ℕ → String → TokenCache → Option (List String × Option ℕ)
get_outpoints now hash c = if_not_expired now (λ m. (strings_of m, first_expiry m)) (find hash c)

unfoldable pub get_txids : ℕ → String → TokenCache → Option (List String)
get_txids now hash c = if_not_expired now txids_of (find hash c)

-- A tick of `sweep`.
unfoldable pub sweep_expired : ℕ → TokenCache → TokenCache
sweep_expired now [] = []
sweep_expired now ((h, m) ∷ c) =
    if is_expired now (first_expiry m) then sweep_expired now c else (h, m) ∷ sweep_expired now c

-- The filters, of which an empty one lets everything through.
abbrev pub matches : String → String → Expiries → Bool
matches outpoint txid m =
    (is_empty outpoint || names outpoint (strings_of m))
    && (is_empty txid || names txid (txids_of m))

abbrev pub is_selected : ℕ → String → String → Expiries → Bool
is_selected now outpoint txid m = not (is_past now (first_expiry m)) && matches outpoint txid m

abbrev pub time_or_zero : Option ℕ → ℕ
time_or_zero none = 0
time_or_zero (some t) = t

abbrev pub entry_of : String → Expiries → TokenEntry
entry_of h m = record {
  hash = h;
  outpoints = strings_of m;
  expires_at = time_or_zero (first_expiry m);
}

abbrev pub entry_if_live : ℕ → String → Option Expiries → List TokenEntry
entry_if_live now h none = []
entry_if_live now h (some m) = if is_past now (first_expiry m) then [] else entry_of h m ∷ []

unfoldable pub list_by_hash : ℕ → String → TokenCache → List TokenEntry
list_by_hash now hash c = entry_if_live now hash (find hash c)

unfoldable pub list_selected : ℕ → String → String → TokenCache → List TokenEntry
list_selected now outpoint txid [] = []
list_selected now outpoint txid ((h, m) ∷ c) =
    if is_selected now outpoint txid m
    then entry_of h m ∷ list_selected now outpoint txid c
    else list_selected now outpoint txid c

-- The method `list`.
unfoldable pub list : ℕ → String → String → String → TokenCache → List TokenEntry
list now hash outpoint txid c =
    if is_empty hash then list_selected now outpoint txid c else list_by_hash now hash c

abbrev pub delete_if_live : ℕ → String → TokenCache → Option Expiries → ℕ × TokenCache
delete_if_live now hash c none = (0, c)
delete_if_live now hash c (some m) =
    if is_expired now (first_expiry m) then (0, c) else (1, remove hash c)

unfoldable pub revoke_by_hash : ℕ → String → TokenCache → ℕ × TokenCache
revoke_by_hash now hash c = delete_if_live now hash c (find hash c)

unfoldable pub revoke_selected : ℕ → String → String → TokenCache → ℕ × TokenCache
revoke_selected now outpoint txid [] = (0, [])
revoke_selected now outpoint txid ((h, m) ∷ c) =
    let rest = revoke_selected now outpoint txid c in
    if is_selected now outpoint txid m then (suc rest.0, rest.1) else (rest.0, (h, m) ∷ rest.1)

-- The method `revoke`: the number of the entries that it removes, and the cache.
unfoldable pub revoke : ℕ → String → String → String → TokenCache → ℕ × TokenCache
revoke now hash outpoint txid c =
    if is_empty hash then revoke_selected now outpoint txid c else revoke_by_hash now hash c

abbrev pub time_before : ℕ → Option ℕ → Option ℕ
time_before duration none = none
time_before duration (some t) = some (t - duration)

abbrev pub issue :
    ℕ
    → String
    → List Outpoint
    → ℕ
    → TokenCache
    → Option (List String × Option ℕ)
    → Option ℕ × TokenCache
issue duration hash outpoints now c none = (some now, add duration hash outpoints now c)
issue duration hash outpoints now c (some found) = (time_before duration found.1, c)

-- `createAuthToken` once the outpoints are hashed: the time that it signs, and the cache. A token
-- that is found is issued again with its time.
unfoldable pub create_auth_token :
    ℕ → String → List Outpoint → ℕ → TokenCache → Option ℕ × TokenCache
create_auth_token duration hash outpoints now c =
    issue duration hash outpoints now c (get_outpoints now hash c)
