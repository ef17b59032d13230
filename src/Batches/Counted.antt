-- ===== src/Batches/Counted.antt =====
-- That `waitForProjections` of internal/core/application/batch_session_manager.go loses no batch.
use arkd.Base.{
  ◌≡◌, inl, inr, String, Bool, true, false, ◌||◌, List, [], ◌∷◌, Option, none, some, is_nil, arith,
  Bool-cases, Option-cases,
}
use arkd.Base.Maps.{has-insert, find, has}
use arkd.Domain.Round.{Round}
use arkd.Intents.Redis.{names}
use arkd.Batches.{
  Sessions, track, mark_projected, projected_of, pending_of, forget_projected, WaitEvent, tracks,
  projects, wakes, times_out, cancels, Wait, returned, blocked, look, wait_step, wait_steps,
  wait_for_projections,
}
use arkd.Batches.Inflight.{names-append}
use arkd.Batches.Waits.{batches_of, sessions_of}

has-track :
    (i : String) (r : Option Round) (m : Sessions)
    → has i m.inflight_batches ≡ true
    → has i (track r m).inflight_batches ≡ true
unfolding track
has-track i none m h = h
has-track i (some r) m h = ground (arith, has-insert i r.id false m.inflight_batches)

has-mark :
    (i id : String) (m : Sessions)
    → has i m.inflight_batches ≡ true
    → has i (mark_projected id m).inflight_batches ≡ true
unfolding mark_projected
has-mark i id m h = elim (Option-cases (find id m.inflight_batches)) [
  | inl e ↦ rw e h
  | inr (true, e) ↦ rw e h
  | inr (false, e) ↦ rw e (ground (arith, has-insert i id true m.inflight_batches))
]

-- A batch is either returned or still tracked.
has-pending_of :
    (i : String) (m : List (String × Bool))
    → has i m ≡ true
    → (names i (projected_of m) || has i (pending_of m)) ≡ true
unfolding projected_of pending_of
has-pending_of i [] h = absurd (cc h)
has-pending_of i ((j, true) ∷ m) h = ground (arith, has-pending_of i m)
has-pending_of i ((j, false) ∷ m) h = ground (arith, has-pending_of i m)

-- A batch is one of those that the wait has, or is tracked.
abbrev IsCounted : String → Wait → Type 0
IsCounted i w = (names i (batches_of w) || has i (sessions_of w).inflight_batches) ≡ true

look-IsCounted :
    (i : String) (ids : List String) (m : Sessions)
    → (names i ids || has i m.inflight_batches) ≡ true
    → IsCounted i (look ids m)
unfolding look forget_projected
look-IsCounted i ids m h = ground (
  arith,
  has-pending_of i m.inflight_batches,
  names-append i ids (projected_of m.inflight_batches),
)

wait_step-IsCounted :
    (i : String) (e : WaitEvent) (w : Wait) → IsCounted i w → IsCounted i (wait_step e w)
unfolding wait_step
wait_step-IsCounted i (tracks r) (returned ids m) h = ground (arith, has-track i r m)
wait_step-IsCounted i (projects id) (returned ids m) h = ground (arith, has-mark i id m)
wait_step-IsCounted i wakes (returned ids m) h = h
wait_step-IsCounted i times_out (returned ids m) h = h
wait_step-IsCounted i cancels (returned ids m) h = h
wait_step-IsCounted i (tracks r) (blocked ids c m) h = ground (arith, has-track i r m)
wait_step-IsCounted i (projects id) (blocked ids c m) h = ground (arith, has-mark i id m)
wait_step-IsCounted i wakes (blocked ids c m) h = ground (arith, look-IsCounted i ids m h)
wait_step-IsCounted i times_out (blocked ids c m) h = h
wait_step-IsCounted i cancels (blocked ids c m) h = h

wait_steps-IsCounted :
    (i : String) (es : List WaitEvent) (w : Wait) → IsCounted i w → IsCounted i (wait_steps es w)
unfolding wait_steps
wait_steps-IsCounted i [] w h = h
wait_steps-IsCounted i (e ∷ es) w h =
    wait_steps-IsCounted i es (wait_step e w) (wait_step-IsCounted i e w h)

-- Whatever happens during a wait, timeouts included: a batch that was tracked at its start is among
-- those that the wait has returned or collected, or is still tracked.
has-wait_for_projections :
    (es : List WaitEvent) (m : Sessions) (id : String)
    → has id m.inflight_batches ≡ true
    → (names id (batches_of (wait_for_projections es m))
        || has id (sessions_of (wait_for_projections es m)).inflight_batches)
      ≡ true
unfolding wait_for_projections
has-wait_for_projections es m id h = elim (Bool-cases (is_nil m.inflight_batches)) [
  | inl e ↦ rw e (wait_steps-IsCounted id es (returned [] m) h)
  | inr e ↦ rw e (wait_steps-IsCounted id es (look [] m) (look-IsCounted id [] m h))
]
