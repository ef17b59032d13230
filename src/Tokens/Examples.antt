-- ===== src/Tokens/Examples.antt =====
-- A token of one outpoint, and the theorems on the cache at it.
use arkd.Base.{◌≡◌, refl, not, List, [], ◌∷◌, none, length, arith}
use arkd.Base.Maps.{find}
use arkd.Domain.Types.{Outpoint}
use arkd.Tokens.{
  TokenCache, assign_each, add, get_outpoints, get_txids, sweep_expired, list, revoke,
  revoke_selected, create_auth_token,
}
use arkd.Tokens.Reads.{is_found, is_stale, get_outpoints-create_auth_token}
use arkd.Tokens.Laws.{reads-sweep_expired, length-revoke}
use arkd.Tokens.Runs.{CacheCall, adds, creates, sweeps, run_cache}

abbrev outpoint : Outpoint
outpoint = record { txid = "t"; vout = 1 }

-- A token until 100, and one until 200.
abbrev cache : TokenCache
cache = ("h", (outpoint, 100) ∷ []) ∷ ("g", (outpoint, 200) ∷ []) ∷ []

get_outpoints-create_auth_token_example :
    is_found (get_outpoints 150 "h" (create_auth_token 90 "h" (outpoint ∷ []) 150 cache).1)
    ≡ not (is_stale 150 (find "h" cache))
get_outpoints-create_auth_token_example =
    get_outpoints-create_auth_token 90 "h" outpoint [] 150 cache

-- A token that is issued between the end of an old one and the sweep is not found.
issued_in_vain : get_outpoints 150 "h" (create_auth_token 90 "h" (outpoint ∷ []) 150 cache).1 ≡ none
unfolding get_outpoints create_auth_token add
issued_in_vain = refl

abbrev calls : List CacheCall
calls = adds "h" outpoint [] 10 ∷ creates "g" outpoint [] 20 ∷ sweeps 50 ∷ []

reads-sweep_expired_example :
    let c = run_cache 90 calls [] in
    (get_outpoints 106 "g" (sweep_expired 105 c) ≡ get_outpoints 106 "g" c)
    × (get_txids 106 "g" (sweep_expired 105 c) ≡ get_txids 106 "g" c)
    × (list 106 "g" "" "t" (sweep_expired 105 c) ≡ list 106 "g" "" "t" c)
reads-sweep_expired_example = reads-sweep_expired 90 calls 105 106 "g" "" "t" (omega arith)

length-revoke_example :
    let c = run_cache 90 calls [] in
    ((revoke 60 "" "" "t" c).0 ≡ length (list 60 "" "" "t" c))
    × (list 60 "" "" "t" (revoke 60 "" "" "t" c).1 ≡ [])
length-revoke_example = length-revoke 90 calls 60 "" "" "t"

-- Both tokens are revoked.
two_revoked : (revoke 60 "" "" "t" (run_cache 90 calls [])).0 ≡ 2
unfolding revoke run_cache add create_auth_token get_outpoints sweep_expired assign_each
    revoke_selected
two_revoked = refl
