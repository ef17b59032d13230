-- ===== src/Batches.antt =====
-- internal/core/application/batch_session_manager.go: the batches that have ended, and whether the
-- projection of each is written. Every change is made under a lock. The channel `updated` is the number
-- of the channels that were closed before it; a wait takes the events that come while it waits.
pub mod Protocol
pub mod Kept
pub mod Registering
pub mod Inflight
pub mod Ended
pub mod Settled
pub mod Waits
pub mod Counted
pub mod Returns
pub mod Ends
mod Examples
use arkd.Base.{
  ℕ, suc, ◌+◌, String, Bool, true, false, List, [], ◌∷◌, ◌++◌, Option, none, some, ◌==◌,
  if◌then◌else◌, is_nil,
}
use arkd.Base.Maps.{insert, find, has}
use arkd.Domain.Round.{Round, is_ended}

-- The fields `inflightBatches` and `updated`.
pub record Sessions : Type 0 where
  pub inflight_batches : List (String × Bool)
  pub updated : ℕ

abbrev pub new_batch_session_manager : Sessions
new_batch_session_manager = record { inflight_batches = []; updated = 0 }

abbrev pub track_id : String → Sessions → Sessions
track_id id m =
    if has id m.inflight_batches
    then m
    else record m { inflight_batches = insert id false m.inflight_batches }

-- The method `track`; `none` is a nil round.
unfoldable pub track : Option Round → Sessions → Sessions
track none m = m
track (some r) m = if is_ended r then track_id r.id m else m

abbrev pub mark : String → Sessions → Option Bool → Sessions
mark id m none = m
mark id m (some true) = m
mark id m (some false) = record {
  inflight_batches = insert id true m.inflight_batches;
  updated = m.updated + 1;
}

-- The method `markProjected`.
unfoldable pub mark_projected : String → Sessions → Sessions
mark_projected id m = mark id m (find id m.inflight_batches)

-- The batches whose projection is written, and those that still miss it.
unfoldable pub projected_of : List (String × Bool) → List String
projected_of [] = []
projected_of ((id, projected) ∷ m) = if projected then id ∷ projected_of m else projected_of m

unfoldable pub pending_of : List (String × Bool) → List (String × Bool)
pending_of [] = []
pending_of ((id, projected) ∷ m) =
    if projected then pending_of m else (id, projected) ∷ pending_of m

-- The method `forgetProjected`: what it returns, and the manager after it.
unfoldable pub forget_projected : Sessions → List String × Bool × Sessions
forget_projected m = (
  projected_of m.inflight_batches,
  (if is_nil (pending_of m.inflight_batches) then false else true),
  record m { inflight_batches = pending_of m.inflight_batches },
)

-- What happens while `waitForProjections` waits.
pub data WaitEvent : Type 0 where
  tracks : Option Round → WaitEvent
  projects : String → WaitEvent
  wakes times_out cancels : WaitEvent

-- A wait has returned some batches, or is blocked on a channel with those that it has so far.
pub data Wait : Type 0 where
  returned : List String → Sessions → Wait
  blocked : List String → ℕ → Sessions → Wait

abbrev pub block_or_return : List String → List String × Bool × Sessions → Wait
block_or_return so_far (done, pending, m) =
    if pending then blocked (so_far ++ done) m.updated m else returned (so_far ++ done) m

-- One round of the loop, up to its `select`.
unfoldable pub look : List String → Sessions → Wait
look so_far m = block_or_return so_far (forget_projected m)

-- The channel that a wait holds is closed once there is a later one.
unfoldable pub wait_step : WaitEvent → Wait → Wait
wait_step (tracks r) (returned ids m) = returned ids (track r m)
wait_step (projects id) (returned ids m) = returned ids (mark_projected id m)
wait_step wakes (returned ids m) = returned ids m
wait_step times_out (returned ids m) = returned ids m
wait_step cancels (returned ids m) = returned ids m
wait_step (tracks r) (blocked ids c m) = blocked ids c (track r m)
wait_step (projects id) (blocked ids c m) = blocked ids c (mark_projected id m)
wait_step wakes (blocked ids c m) = if c == m.updated then blocked ids c m else look ids m
wait_step times_out (blocked ids c m) = returned ids m
wait_step cancels (blocked ids c m) = returned ids m

unfoldable pub wait_steps : List WaitEvent → Wait → Wait
wait_steps [] w = w
wait_steps (e ∷ es) w = wait_steps es (wait_step e w)

-- The method `waitForProjections`.
unfoldable pub wait_for_projections : List WaitEvent → Sessions → Wait
wait_for_projections es m =
    wait_steps es (if is_nil m.inflight_batches then returned [] m else look [] m)
