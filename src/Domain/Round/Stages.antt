-- ===== src/Domain/Round/Stages.antt =====
-- Which stages a round goes through, as a diagram.
use arkd.Base.{ℕ, String, ◌≡◌, refl, Bool, true, false, List, [], ◌∷◌, arith}
use arkd.Domain.Types.{Stage, empty_stage}
use arkd.Domain.Round.{
  Round, Call, new_round, on, raise, call, run, start_registration, register_intents,
  start_finalization, end_finalization, sweep, fail, starts_registration, registers_intents,
  starts_finalization, ends_finalization, sweeps, fails,
}

abbrev stage : ℕ → Bool → Stage
stage code ended = record { code = code; ended = ended; failed = false }

pub data Step : Stage → Stage → Type 0 where
  stays : (s : Stage) → Step s s
  starts : Step empty_stage (stage 1 false)
  finalizes : Step (stage 1 false) (stage 2 false)
  ends : Step (stage 2 false) (stage 2 true)
  breaks : (s : Stage) → s.failed ≡ false → Step s (record s { failed = true })

pub data Reach : Stage → Type 0 where
  here : Reach empty_stage
  next : {s t : Stage} → Reach s → Step s t → Reach t

-- A round that has ended is in the finalization stage.
abbrev EndsLast : Stage → Type 0
EndsLast s = s.ended ≡ true → s.code ≡ 2

Step-EndsLast : {s t : Stage} → Step s t → EndsLast s → EndsLast t
Step-EndsLast (stays s) h = h
Step-EndsLast starts h = λ e. cc
Step-EndsLast finalizes h = λ e. cc
Step-EndsLast ends h = λ e. refl
Step-EndsLast (breaks s f) h = h

call-Step : (c : Call) (r : Round) → EndsLast r.stage → Step r.stage (call c r).0.stage
unfolding call on raise start_registration register_intents start_finalization end_finalization
    sweep fail
call-Step (starts_registration now) r h = grind (arith, stays, starts)
call-Step (registers_intents is) r h = grind (arith, stays)
call-Step (starts_finalization f) r h = grind (arith, stays, finalizes)
call-Step (ends_finalization txs tx fees now) r h = grind (arith, stays, ends)
call-Step (sweeps leaf pre txid tx) r h = grind (arith, stays)
call-Step (fails reason now) r h = grind (arith, stays, breaks)

-- A failed round is out of reach of every operation: the round stays as it was.
call_failed : (c : Call) (r : Round) → r.stage.failed ≡ true → (call c r).0 ≡ r
unfolding call start_registration register_intents start_finalization end_finalization sweep fail
call_failed (starts_registration now) r h = ground arith
call_failed (registers_intents is) r h = ground arith
call_failed (starts_finalization f) r h = ground arith
call_failed (ends_finalization txs tx fees now) r h = ground arith
call_failed (sweeps leaf pre txid tx) r h = ground arith
call_failed (fails reason now) r h = ground arith

run-from-Reach :
    (cs : List Call) (r : Round) → EndsLast r.stage → Reach r.stage → Reach (run r cs).stage
unfolding run
run-from-Reach [] r h reach = reach
run-from-Reach (c ∷ cs) r h reach =
    let step = call-Step c r h in
    run-from-Reach cs (call c r).0 (Step-EndsLast step h) (next reach step)

-- After any history of calls the stage of a round is one that the diagram reaches: registration,
-- then finalization, then the end, with a failure at any point.
pub run-Reach : (uuid : String) (cs : List Call) → Reach (run (new_round uuid) cs).stage
run-Reach uuid cs = run-from-Reach cs (new_round uuid) (λ e. cc) here

-- A round that has failed stays as it is, field by field, under every history of calls.
pub run_failed : (r : Round) (cs : List Call) → r.stage.failed ≡ true → run r cs ≡ r
unfolding run
run_failed r [] h = refl
run_failed r (c ∷ cs) h = rw (call_failed c r h) (run_failed r cs h)
