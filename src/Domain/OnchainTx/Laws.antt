-- ===== src/Domain/OnchainTx/Laws.antt =====
-- The life of an onchain tx, and the tx rebuilt from its events.
use arkd.Base.{◌≡◌, refl, true, false, List, [], ◌∷◌, ◌++◌, length, length-append, arith, ◌==◌}
use arkd.Domain.Event.{Event}
use arkd.Domain.OnchainTx.{
  OnchainTx, Call, new_onchain_tx, new_onchain_tx_from_events, on, raise, replay, call, run,
  broadcast, confirm, broadcasts, confirms, is_broadcasted, is_confirmed,
}

replay-append :
    (es : List Event) (e : Event) (s : OnchainTx)
    → replay (es ++ e ∷ []) s ≡ on e true (replay es s)
unfolding replay
replay-append [] e s = refl
replay-append (x ∷ es) e s = replay-append es e (on x true s)

-- What holds between two calls. Every raised event had an effect, so the replayed version is the
-- number of events.
pub record LifeInv (s : OnchainTx) : Type 0 where
  pub broadcasted : is_broadcasted s ≡ (s.stage.code == 1)
  pub confirmed : is_confirmed s ≡ (s.stage.code == 2)
  pub sound : s.stage.failed ≡ false
  pub version_zero : s.version ≡ 0
  pub rebuilt : new_onchain_tx_from_events s.changes ≡ record s { version = length s.changes }

call-LifeInv : (c : Call) (s : OnchainTx) → LifeInv s → LifeInv (call c s).0
unfolding call on raise broadcast confirm is_broadcasted is_confirmed new_onchain_tx_from_events
call-LifeInv (broadcasts txid tx inputs now) s v = grind (arith, replay-append, length-append)
call-LifeInv (confirms time height) s v = grind (arith, replay-append, length-append)

run-from-LifeInv : (cs : List Call) (s : OnchainTx) → LifeInv s → LifeInv (run s cs)
unfolding run
run-from-LifeInv [] s v = v
run-from-LifeInv (c ∷ cs) s v = run-from-LifeInv cs (call c s).0 (call-LifeInv c s v)

new_onchain_tx-LifeInv : LifeInv new_onchain_tx
unfolding is_broadcasted is_confirmed new_onchain_tx_from_events replay
new_onchain_tx-LifeInv = ground arith

-- After any history of calls on a new onchain tx: it counts as broadcasted exactly in that stage and
-- as confirmed exactly in that one, so with its time and height; it has not failed; and it is
-- rebuilt from its events in every field, with their number as version.
pub run-LifeInv : (cs : List Call) → LifeInv (run new_onchain_tx cs)
run-LifeInv cs = run-from-LifeInv cs new_onchain_tx new_onchain_tx-LifeInv
