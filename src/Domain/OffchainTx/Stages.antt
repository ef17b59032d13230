-- ===== src/Domain/OffchainTx/Stages.antt =====
-- Which stages an offchain tx goes through, and what holds in them.
use arkd.Base.{
  ℕ, String, ◌≡◌, ◌≢◌, refl, Bool, true, false, List, [], ◌∷◌, arith, is_nil, Bool-cases, ap, ◌∙◌,
}
use arkd.Base.Int.{ℤ, is_pos}
use arkd.Domain.Types.{Stage, empty_stage, is_empty}
use arkd.Domain.OffchainTx.{
  OffchainTx, Acceptance, Call, new_offchain_tx, is_requested, on, raise, call, run, request,
  accept, finalize, fail, requests, accepts, finalizes, fails,
}
use arkd.Domain.OffchainTx.Replay.{content}

abbrev stage : ℕ → Bool → Bool → Stage
stage code ended failed = record { code = code; ended = ended; failed = failed }

pub data Step : Stage → Stage → Type 0 where
  stays : (s : Stage) → Step s s
  requested : Step empty_stage (stage 1 false false)
  accepted : Step (stage 1 false false) (stage 2 false false)
  finalized : (s : Stage) → s.code ≡ 2 → s.ended ≡ false → Step s (stage 3 true false)
  failing : (s : Stage) → s.failed ≡ false → s.code ≢ 3 → Step s (record s { failed = true })

pub data Reachable : Stage → Type 0 where
  here : Reachable empty_stage
  next : {s t : Stage} → Reachable s → Step s t → Reachable t

-- What is known of a tx in each stage.
pub record StageInv (s : OffchainTx) : Type 0 where
  pub ended_last : s.stage.ended ≡ true → s.stage.code ≡ 3
  pub last_ended : s.stage.code ≡ 3 → s.stage.ended ≡ true
  pub last_succeeded : s.stage.code ≡ 3 → s.stage.failed ≡ false
  pub named : s.stage.code ≢ 0 → is_empty s.ark_txid ≡ false
  pub built : s.stage.code ≢ 0 → is_empty s.ark_tx ≡ false
  pub checkpointed : s.stage.code ≢ 0 → is_nil s.checkpoint_txs ≡ false
  pub accepted_of : s.stage.code ≢ 0 → s.stage.code ≢ 1 → is_pos s.expiry_timestamp ≡ true
  pub rooted : s.stage.code ≢ 0 → s.stage.code ≢ 1 → is_empty s.root_commitment_txid ≡ false
  pub committed : s.stage.code ≢ 0 → s.stage.code ≢ 1 → is_nil s.commitment_txids ≡ false
  pub explained : s.stage.failed ≡ false → s.fail_reason ≡ ""

fail-Step : (reason : String) (now : ℤ) (s : OffchainTx) → Step s.stage (fail reason now s).0.stage
unfolding on raise fail
fail-Step reason now s = grind (arith, stays, failing)

finalize-Step :
    (checkpoints : List (String × String)) (now : ℤ) (s : OffchainTx)
    → (s.stage.code ≡ 2 → s.stage.ended ≡ false)
    → Step s.stage (finalize checkpoints now s).0.stage
unfolding on raise finalize
finalize-Step checkpoints now s h = grind (arith, stays, finalized)

request-Step :
    (txid tx : String) (checkpoints : List (String × String)) (now : ℤ) (s : OffchainTx)
    → (s.stage.code ≡ 0 → s.stage.ended ≡ false)
    → Step s.stage (request txid tx checkpoints now s).0.stage
unfolding on raise request
request-Step txid tx checkpoints now s h = grind (arith, stays, requested)

accept-Step :
    (a : Acceptance) (s : OffchainTx)
    → (s.stage.code ≡ 1 → s.stage.ended ≡ false)
    → Step s.stage (accept a s).0.stage
unfolding on raise accept
accept-Step a s h = grind (arith, stays, accepted)

call-Step : (c : Call) (s : OffchainTx) → StageInv s → Step s.stage (call c s).0.stage
unfolding call
call-Step (requests txid tx checkpoints now) s v =
    request-Step txid tx checkpoints now s (ground (arith, Bool-cases s.stage.ended))
call-Step (accepts a) s v = accept-Step a s (ground (arith, Bool-cases s.stage.ended))
call-Step (finalizes checkpoints now) s v =
    finalize-Step checkpoints now s (ground (arith, Bool-cases s.stage.ended))
call-Step (fails reason now) s v = fail-Step reason now s

call-StageInv : (c : Call) (s : OffchainTx) → StageInv s → StageInv (call c s).0
unfolding call on raise request accept finalize fail
call-StageInv (requests txid tx checkpoints now) s v = ground arith
call-StageInv (accepts a) s v = ground arith
call-StageInv (finalizes checkpoints now) s v = ground arith
call-StageInv (fails reason now) s v = ground arith

run-from :
    (cs : List Call) (s : OffchainTx)
    → StageInv s
    → Reachable s.stage
    → StageInv (run s cs) × Reachable (run s cs).stage
unfolding run
run-from [] s v r = (v, r)
run-from (c ∷ cs) s v r = run-from cs (call c s).0 (call-StageInv c s v) (next r (call-Step c s v))

new_offchain_tx-StageInv : StageInv new_offchain_tx
new_offchain_tx-StageInv = ground arith

-- After any history of calls the stage of an offchain tx is one that the diagram reaches: requested,
-- accepted, finalized, in this order, with a failure possible before the last, and a way on from a
-- failure only for an accepted tx, to the last.
pub run-Reachable : (cs : List Call) → Reachable (run new_offchain_tx cs).stage
run-Reachable cs = (run-from cs new_offchain_tx new_offchain_tx-StageInv here).1

-- After any history of calls: exactly a finalized tx has ended, and it is never failed; a requested
-- tx has a txid, a tx and checkpoints; an accepted or finalized one has besides a positive expiry, a
-- root commitment txid and commitment txids; and a tx that is not failed has no reason of failure.
pub run-StageInv : (cs : List Call) → StageInv (run new_offchain_tx cs)
run-StageInv cs = (run-from cs new_offchain_tx new_offchain_tx-StageInv here).0

call_finalized : (c : Call) (s : OffchainTx) → s.stage.code ≡ 3 → content (call c s).0 ≡ content s
unfolding call on raise request accept finalize fail is_requested
call_finalized (requests txid tx checkpoints now) s h = ground arith
call_finalized (accepts a) s h = ground arith
call_finalized (finalizes checkpoints now) s h = ground arith
call_finalized (fails reason now) s h = ground arith

-- A finalized tx keeps its stage and its data under every history of calls, failures included.
pub run_finalized :
    (s : OffchainTx) (cs : List Call) → s.stage.code ≡ 3 → content (run s cs) ≡ content s
unfolding run
run_finalized s [] h = refl
run_finalized s (c ∷ cs) h =
    let same = call_finalized c s h in
    run_finalized (call c s).0 cs (ap (λ (t : OffchainTx). t.stage.code) same ∙ h) ∙ same
