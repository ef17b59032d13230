-- ===== src/Domain/Round/Replay.antt =====
-- A round rebuilt from its events (`NewRoundFromEvents`) against the round that raised them.
use arkd.Base.{
  ℕ, String, ◌≡◌, refl, ap, ◌∙◌, true, false, List, [], ◌∷◌, ◌++◌, ◌==◌, if◌then◌else◌, length,
  length-append, arith,
}
use arkd.Domain.Event.{
  Event, round_started, round_finalization_started, round_finalized, round_failed,
  intents_registered, batch_swept,
}
use mathlib.Core.List.{append-nil}
use arkd.Base.Int.{ℤ}
use arkd.Base.Results.{Result, ok, err}
use arkd.Domain.Types.{Outpoint, ForfeitTx}
use arkd.Domain.Intent.{Intent}
use arkd.Domain.Round.{RoundError, Finalization}
use arkd.Domain.Round.{
  Round, Call, zero_round, new_round, on, raise, replay, new_round_from_events, call, run,
  start_registration, register_intents, start_finalization, end_finalization, sweep, fail,
  starts_registration, registers_intents, starts_finalization, ends_finalization, sweeps, fails,
}

-- What the events tell of a round: its id only once it was started, and their number as version.
abbrev pub recorded : Round → Round
recorded r = record r { id = if r.stage.code == 0 then "" else r.id; version = length r.changes }

replay-append :
    (es : List Event) (e : Event) (r : Round) → replay (es ++ e ∷ []) r ≡ on e true (replay es r)
unfolding replay
replay-append [] e r = refl
replay-append (x ∷ es) e r = replay-append es e (on x true r)

abbrev Tracks : Round → Type 0
Tracks r = replay r.changes zero_round ≡ record (recorded r) { changes = [] }

-- What an operation guarantees of the event that it raises.
abbrev Fits : Event → Round → Type 0
Fits (round_started e) r = e.id ≡ r.id
Fits (round_finalization_started e) r = (r.stage.code == 0) ≡ false
Fits (round_finalized e) r = Unit {0}
Fits (round_failed e) r = Unit {0}
Fits (intents_registered e) r = Unit {0}
Fits (batch_swept e) r = Unit {0}
Fits _ r = ⊥

on-recorded :
    (e : Event) (r : Round)
    → Fits e r
    → on e true (record (recorded r) { changes = [] })
      ≡ record (recorded (raise e r)) { changes = [] }
unfolding on raise
on-recorded (round_started e) r h = ground (arith, length-append r.changes (round_started e ∷ []))
on-recorded e r h = ground (arith, length-append r.changes (e ∷ []))

changes-raise : (e : Event) (r : Round) → Fits e r → (raise e r).changes ≡ r.changes ++ e ∷ []
unfolding on raise
changes-raise (round_started e) r h = refl
changes-raise e r h = ground arith

raise-Tracks : (e : Event) (r : Round) → Fits e r → Tracks r → Tracks (raise e r)
raise-Tracks e r h t =
    ap (λ es. replay es zero_round) (changes-raise e r h)
    ∙ replay-append r.changes e zero_round
    ∙ ap (on e true) t
    ∙ on-recorded e r h

-- An operation refuses with an error, has nothing to do, or raises one event that fits the round.
-- In the first two cases the round stays as it was, and in the last the event is returned.
data Raises (r : Round) : Round × Result RoundError (List Event) → Type 0 where
  refused : (x : RoundError) → Raises r (r, err x)
  idle : Raises r (r, ok [])
  raising : (e : Event) → Fits e r → Raises r (raise e r, ok (e ∷ []))

start_registration-Raises : (now : ℤ) (r : Round) → Raises r (start_registration now r)
unfolding start_registration
start_registration-Raises now r = grind (arith, refused, idle, raising)

register_intents-Raises : (is : List Intent) (r : Round) → Raises r (register_intents is r)
unfolding register_intents
register_intents-Raises is r = grind (arith, refused, idle, raising)

start_finalization-Raises : (f : Finalization) (r : Round) → Raises r (start_finalization f r)
unfolding start_finalization
start_finalization-Raises f r = grind (arith, refused, idle, raising)

end_finalization-Raises :
    (txs : List ForfeitTx) (tx : String) (fees : ℕ) (now : ℤ) (r : Round)
    → Raises r (end_finalization txs tx fees now r)
unfolding end_finalization
end_finalization-Raises txs tx fees now r = grind (arith, refused, idle, raising)

sweep-Raises :
    (leaf pre : List Outpoint) (txid tx : String) (r : Round) → Raises r (sweep leaf pre txid tx r)
unfolding sweep
sweep-Raises leaf pre txid tx r = grind (arith, refused, idle, raising)

fail-Raises : (reason : String) (now : ℤ) (r : Round) → Raises r (fail reason now r)
unfolding fail
fail-Raises reason now r = grind (arith, refused, idle, raising)

call-Raises : (c : Call) (r : Round) → Raises r (call c r)
unfolding call
call-Raises (starts_registration now) r = start_registration-Raises now r
call-Raises (registers_intents is) r = register_intents-Raises is r
call-Raises (starts_finalization f) r = start_finalization-Raises f r
call-Raises (ends_finalization txs tx fees now) r = end_finalization-Raises txs tx fees now r
call-Raises (sweeps leaf pre txid tx) r = sweep-Raises leaf pre txid tx r
call-Raises (fails reason now) r = fail-Raises reason now r

Raises-Tracks :
    {r : Round} {p : Round × Result RoundError (List Event)} → Raises r p → Tracks r → Tracks p.0
Raises-Tracks (refused x) t = t
Raises-Tracks idle t = t
Raises-Tracks {r} (raising e fits) t = raise-Tracks e r fits t

run-Tracks : (cs : List Call) (r : Round) → Tracks r → Tracks (run r cs)
unfolding run
run-Tracks [] r t = t
run-Tracks (c ∷ cs) r t = run-Tracks cs (call c r).0 (Raises-Tracks (call-Raises c r) t)

-- A new round, driven by any history of calls, is rebuilt exactly from the events that it raised:
-- every field is restored, the version is the number of the events, and the id is restored once the
-- round has left the undefined stage (a round that failed before its start comes back with no id).
pub new_round_from_events-run :
    (uuid : String) (cs : List Call)
    → let r = run (new_round uuid) cs in new_round_from_events r.changes ≡ recorded r
unfolding new_round_from_events
new_round_from_events-run uuid cs =
    let r = run (new_round uuid) cs in
    ap (λ (q : Round). record q { changes = r.changes }) (run-Tracks cs (new_round uuid) refl)

-- A call that returns an error leaves the round as it was.
pub call_error : (c : Call) (r : Round) (x : RoundError) → (call c r).1 ≡ err x → (call c r).0 ≡ r
call_error c r x e = untouched (call-Raises c r) e
  where
    untouched : {p : Round × Result RoundError (List Event)} → Raises r p → p.1 ≡ err x → p.0 ≡ r
    untouched (refused y) h = refl
    untouched idle h = refl
    untouched (raising ev fits) h = cc

-- A call that succeeds adds to the history of the round exactly the events that it returns.
pub changes-call :
    (c : Call) (r : Round) (es : List Event)
    → (call c r).1 ≡ ok es
    → (call c r).0.changes ≡ r.changes ++ es
changes-call c r es e = added (call-Raises c r) e
  where
    added :
        {p : Round × Result RoundError (List Event)}
        → Raises r p
        → p.1 ≡ ok es
        → p.0.changes ≡ r.changes ++ es
    added (refused y) h = cc
    added idle h = let none : [] ≡ es = cc in rw (← none, append-nil)
    added (raising ev fits) h = let one : ev ∷ [] ≡ es = cc in rw (← one) (changes-raise ev r fits)
