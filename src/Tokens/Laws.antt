-- ===== src/Tokens/Laws.antt =====
-- What holds of the cache of internal/core/application/token_cache.go after any calls.
use arkd.Base.{ℕ, ◌≡◌, ◌≤◌, refl, String, false, List, [], ◌∷◌, is_nil, length, All-map}
use arkd.Tokens.{Expiries, get_outpoints, get_txids, sweep_expired, list, revoke}
use arkd.Tokens.Reads.{sweep_unseen}
use arkd.Tokens.Revoked.{revoke_counted}
use arkd.Tokens.Runs.{CacheCall, run_cache, IsShared, run_cache-IsKept}

-- A sweep is not seen by any read at its time or later: after any calls on a new cache that add
-- outpoints, sweep and revoke, `getOutpoints`, `getTxids` and `list`, with any filters, answer as
-- without it.
pub reads-sweep_expired :
    (duration : ℕ) (ks : List CacheCall) (now later : ℕ) (hash outpoint txid : String)
    → now ≤ later
    → let c = run_cache duration ks [] in
      (get_outpoints later hash (sweep_expired now c) ≡ get_outpoints later hash c)
      × (get_txids later hash (sweep_expired now c) ≡ get_txids later hash c)
      × (list later hash outpoint txid (sweep_expired now c) ≡ list later hash outpoint txid c)
reads-sweep_expired duration ks now later hash outpoint txid h =
    sweep_unseen now later hash outpoint txid (run_cache duration ks [])
      (run_cache-IsKept duration ks).keyed h

shared-full : (m : Expiries) → IsShared m → is_nil m ≡ false
shared-full [] (t, (f, all)) = absurd (cc f)
shared-full (e ∷ m) h = refl

-- After any calls on a new cache that add outpoints, sweep and revoke: a revocation removes as many
-- tokens as `list` returns for the same filters at the same time, and `list` returns none for them
-- afterwards.
pub length-revoke :
    (duration : ℕ) (ks : List CacheCall) (now : ℕ) (hash outpoint txid : String)
    → let c = run_cache duration ks [] in
      ((revoke now hash outpoint txid c).0 ≡ length (list now hash outpoint txid c))
      × (list now hash outpoint txid (revoke now hash outpoint txid c).1 ≡ [])
length-revoke duration ks now hash outpoint txid =
    revoke_counted now hash outpoint txid (run_cache duration ks []) (
      All-map (λ (e : String × Expiries). IsShared e.1) _ _ (λ e h. shared-full e.1 h)
        (run_cache-IsKept duration ks).shared)
