-- ===== src/Domain/OffchainTx/Replay.antt =====
-- An offchain tx rebuilt from its events (`NewOffchainTxFromEvents`).
use arkd.Base.{
  ℕ, ◌+◌, ◌≤◌, ◌≡◌, ◌⊎◌, inl, inr, refl, ap, ◌∙◌, true, false, not, ◌&&◌, ◌||◌, ◌==◌, List, [], ◌∷◌,
  ◌++◌, length, arith, Option, none, some, if◌then◌else◌,
}
use arkd.Base.Results.{Result, ok, err}
use arkd.Domain.Types.{Stage, empty_stage}
use arkd.Domain.Event.{
  Event, OffchainTxRequested, offchain_tx_requested, offchain_tx_accepted, offchain_tx_finalized,
  offchain_tx_failed,
}
use arkd.Domain.OffchainTx.{
  OffchainTx, OffchainTxError, Call, new_offchain_tx, new_offchain_tx_from_events, on, raise,
  replay, request, accept, finalize, fail, requests, accepts, finalizes, fails, call, run,
}

-- An offchain tx without what its history adds: the version and the events.
abbrev pub content : OffchainTx → OffchainTx
content s = record s { version = 0; changes = [] }

replay-append :
    (es : List Event) (e : Event) (s : OffchainTx)
    → replay (es ++ e ∷ []) s ≡ on e true (replay es s)
unfolding replay
replay-append [] e s = refl
replay-append (x ∷ es) e s = replay-append es e (on x true s)

-- `on` neither reads the version and the events nor writes the events.
content-on :
    (e : Event) (s t : OffchainTx)
    → content s ≡ content t
    → content (on e true s) ≡ content (on e false t)
unfolding on
content-on (offchain_tx_requested e) s t h = ground arith
content-on e s t h = ground arith

changes-raise : (e : Event) (s : OffchainTx) → (raise e s).changes ≡ s.changes ++ e ∷ []
unfolding on raise
changes-raise (offchain_tx_requested e) s = ground arith
changes-raise e s = ground arith

-- The stage that an event leads to, where it has an effect.
abbrev after : Event → Stage → Option Stage
after (offchain_tx_requested e) st =
    if st.code == 0 || (st.failed && st.code == 1)
    then some (record { code = 1; ended = st.ended; failed = false })
    else none
after (offchain_tx_accepted e) st =
    if not st.failed && st.code == 1
    then some (record { code = 2; ended = st.ended; failed = false })
    else none
after (offchain_tx_finalized e) st =
    if st.code == 2 then some (record { code = 3; ended = true; failed = false }) else none
after (offchain_tx_failed e) st =
    if st.failed || st.code == 3
    then none
    else some (record { code = st.code; ended = st.ended; failed = true })
after _ st = some st

-- How many of the events have an effect, from a stage.
unfoldable pub effects : List Event → Stage → ℕ
effects [] st = 0
effects (e ∷ es) st = elim (after e st) [ none ↦ effects es st | some later ↦ effects es later + 1 ]

-- An event without an effect is ignored; any other one leads to its stage and is counted.
on-after :
    (e : Event) (s : OffchainTx)
    → ((after e s.stage ≡ none) × (on e true s ≡ s))
      ⊎ ((after e s.stage ≡ some (on e true s).stage) × ((on e true s).version ≡ s.version + 1))
unfolding on
on-after (offchain_tx_requested e) s = ground arith
on-after (offchain_tx_accepted e) s = ground arith
on-after (offchain_tx_finalized e) s = ground arith
on-after (offchain_tx_failed e) s = ground arith
on-after e s = inr (refl, refl)

version-replay :
    (es : List Event) (s : OffchainTx) → (replay es s).version ≡ s.version + effects es s.stage
unfolding replay effects
version-replay [] s = omega arith
version-replay (e ∷ es) s =
    let rest = version-replay es (on e true s) in
    elim (on-after e s) [
      | inl (none_is, same) ↦ ground (
        arith,
        none_is,
        rest,
        ap (λ t. t.stage) same,
        ap (λ t. t.version) same,
        ap (λ (t : OffchainTx). effects es t.stage) same,
      )
      | inr (some_is, more) ↦ ground (arith, some_is, rest, more)
    ]

version-on-le : (e : Event) (s : OffchainTx) → (on e true s).version ≤ s.version + 1
unfolding on
version-on-le (offchain_tx_requested e) s = ground arith
version-on-le e s = ground arith

version-replay-le :
    (es : List Event) (s : OffchainTx) → (replay es s).version ≤ s.version + length es
unfolding replay
version-replay-le [] s = omega arith
version-replay-le (e ∷ es) s = omega (arith, version-on-le e s, version-replay-le es (on e true s))

abbrev Tracks : OffchainTx → Type 0
Tracks s = content (replay s.changes new_offchain_tx) ≡ content s

raise-Tracks : (e : Event) (s : OffchainTx) → Tracks s → Tracks (raise e s)
unfolding raise
raise-Tracks e s t =
    ap (λ es. content (replay es new_offchain_tx)) (changes-raise e s)
    ∙ ap content (replay-append s.changes e new_offchain_tx)
    ∙ content-on e (replay s.changes new_offchain_tx) (record s { changes = s.changes ++ e ∷ [] }) t

-- An operation refuses with an error and leaves the tx as it was, or raises one event.
data Raises (s : OffchainTx) : OffchainTx × Result OffchainTxError Event → Type 0 where
  refused : (x : OffchainTxError) → Raises s (s, err x)
  raising : (e : Event) → Raises s (raise e s, ok e)

call-Raises : (c : Call) (s : OffchainTx) → Raises s (call c s)
unfolding call request accept finalize fail
call-Raises (requests txid tx checkpoints now) s = grind (arith, refused, raising)
call-Raises (accepts a) s = grind (arith, refused, raising)
call-Raises (finalizes checkpoints now) s = grind (arith, refused, raising)
call-Raises (fails reason now) s = raising _

Raises-Tracks :
    {s : OffchainTx} {p : OffchainTx × Result OffchainTxError Event}
    → Raises s p
    → Tracks s
    → Tracks p.0
Raises-Tracks (refused x) t = t
Raises-Tracks {s} (raising e) t = raise-Tracks e s t

run-Tracks : (cs : List Call) (s : OffchainTx) → Tracks s → Tracks (run s cs)
unfolding run
run-Tracks [] s t = t
run-Tracks (c ∷ cs) s t = run-Tracks cs (call c s).0 (Raises-Tracks (call-Raises c s) t)

-- A new offchain tx, driven by any history of calls, is rebuilt from the events that it raised: the
-- stage and all the data are restored. The version is the number of the events that had an effect, from
-- the undefined stage: a request of a tx that is undefined, or failed as requested; an acceptance of a
-- requested tx that has not failed; a finalization of an accepted one; and a failure of one that is
-- neither failed nor finalized. It is at most the number of the events.
pub new_offchain_tx_from_events-run :
    (cs : List Call)
    → let s = run new_offchain_tx cs in
      (content (new_offchain_tx_from_events s.changes) ≡ content s)
      × ((new_offchain_tx_from_events s.changes).version ≡ effects s.changes empty_stage)
      × ((new_offchain_tx_from_events s.changes).version ≤ length s.changes)
unfolding new_offchain_tx_from_events replay
new_offchain_tx_from_events-run cs =
    let s = run new_offchain_tx cs in
    (
      run-Tracks cs new_offchain_tx refl,
      omega (arith, version-replay s.changes new_offchain_tx),
      omega (arith, version-replay-le s.changes new_offchain_tx),
    )

-- Events that leave a tx failed in the requested stage, followed by a new request, rebuild it as
-- requested again: the failure and its reason are gone, and the data are those of the new request.
pub stage-retry :
    (es : List Event) (e : OffchainTxRequested)
    → (new_offchain_tx_from_events es).stage.failed ≡ true
    → (new_offchain_tx_from_events es).stage.code ≡ 1
    → let t = new_offchain_tx_from_events (es ++ offchain_tx_requested e ∷ []) in
      (t.stage.failed ≡ false)
      × (t.stage.code ≡ 1)
      × (t.fail_reason ≡ "")
      × (t.ark_tx ≡ e.ark_tx)
      × (t.checkpoint_txs ≡ e.unsigned_checkpoint_txs)
unfolding new_offchain_tx_from_events on
stage-retry es e failed stage =
    rw (replay-append es (offchain_tx_requested e) new_offchain_tx) (ground arith)
