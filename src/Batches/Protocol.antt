-- ===== src/Batches/Protocol.antt =====
-- How registrations, ended batches, their projections and the release of their claims interleave:
-- RegisterIntent, startRound, startConfirmation and the end of finalizeRound in
-- internal/core/application/service.go, over the store of intents and batch_session_manager.go. The
-- ids of intents and batches are uuids, and a new one is used nowhere yet. The database is a parameter
-- only by what it makes readable. DeleteIntents with no ids, which clears the store, is left out.
use arkd.Base.{◌≡◌, ◌⊎◌, String, Bool, true, false, List, [], ◌++◌, none, some, str_eq}
use arkd.Base.Int.{ℤ}
use arkd.Base.Maps.{insert, find, remove}
use arkd.Domain.Round.{Round, is_ended}
use arkd.Intents.Owner.{has_sep, split_pending_owner}
use arkd.Intents.Redis.{Redis, names}
use arkd.Intents.Queue.{
  TimedIntent, keys_of, Queue, empty_queue, push, pop, delete_intents, delete_vtxos,
}
use arkd.Intents.Release.{belongs}
use arkd.Intents.Runs.{kept_or}
use arkd.Batches.{Sessions, new_batch_session_manager, track, mark_projected, forget_projected}

module _ (redis : Redis) where
  open redis use {hget}

  -- `registrations` are those between beginRegistration and endRegistration, by the id of the intent, and
  -- whether they have read the projection. `held` is the exclusive lock. `to_release` is what the wait
  -- returned. `settled` has the inputs that each ended batch settled, and `spent` those that read as spent.
  pub record System : Type 0 where
    pub queue : Queue redis
    pub sessions : Sessions
    pub registrations : List (String × (TimedIntent × Bool))
    pub held : Bool
    pub to_release : List String
    pub settled : List (String × List String)
    pub spent : List String

  abbrev pub at_first : System
  at_first = record {
    queue = empty_queue redis;
    sessions = new_batch_session_manager;
    registrations = [];
    held = false;
    to_release = [];
    settled = [];
    spent = [];
  }

  -- The id is of no intent in the queue, of no owner of an input and of no registration.
  pub record IsNewIntent (id : String) (s : System) : Type 0 where
    pub not_queued : hget id s.queue.bodies ≡ none
    pub no_owner :
        (k owner : String)
        → hget k s.queue.vtxos_to_remove ≡ some owner
        → str_eq (split_pending_owner owner).1 id ≡ false
    pub not_registering : find id s.registrations ≡ none

  pub data Step (s : System) : System → Type 0 where
    -- RegisterIntent up to the first read, and its error paths at any moment.
    begin_registration :
        (t : TimedIntent)
        → s.held ≡ false
        → IsNewIntent t.intent.id s
        → Step s (record s { registrations = insert t.intent.id (t, false) s.registrations })
    reads_unspent :
        (id : String) (t : TimedIntent) (again : Bool)
        → find id s.registrations ≡ some (t, again)
        → ((k : String) → names k (keys_of t) ≡ true → names k s.spent ≡ false)
        → Step s (record s { registrations = insert id (t, true) s.registrations })
    pushes :
        (id : String) (t : TimedIntent)
        → find id s.registrations ≡ some (t, true)
        → Step s (record s {
          queue = kept_or redis s.queue (push redis t s.queue);
          registrations = remove id s.registrations;
        })
    end_registration :
        (id : String) → Step s (record s { registrations = remove id s.registrations })
    -- A user deletes intents.
    deletes : (ids : List String) → Step s (record s { queue = delete_intents redis ids s.queue })
    -- A batch takes intents.
    takes :
        (num : ℤ) (round_id : String)
        → has_sep round_id ≡ false
        → find round_id s.settled ≡ none
        → Step s (record s { queue = (pop redis num round_id s.queue).1 })
    -- It ends, with inputs that it took, and is tracked before its events are saved.
    ends :
        (r : Round) (ks : List String)
        → is_ended r ≡ true
        → find r.id s.settled ≡ none
        → ((k : String) → names k ks ≡ true → belongs r.id (hget k s.queue.vtxos_to_remove) ≡ true)
        → Step s
            (record s { sessions = track (some r) s.sessions; settled = insert r.id ks s.settled })
    -- Its projection is written, and then the batch update handler is called.
    projects :
        (round_id : String) (ks : List String)
        → find round_id s.settled ≡ some ks
        → Step s (record s { spent = ks ++ s.spent })
    handles :
        (round_id : String) (ks : List String)
        → find round_id s.settled ≡ some ks
        → ((k : String) → names k ks ≡ true → names k s.spent ≡ true)
        → Step s (record s { sessions = mark_projected round_id s.sessions })
    -- startRound: the wait, the exclusive lock, the releases under it, and the end of the lock.
    waits : Step s (record s {
      sessions = (forget_projected s.sessions).2;
      to_release = s.to_release ++ (forget_projected s.sessions).0;
    })
    holds : s.held ≡ false → s.registrations ≡ [] → Step s (record s { held = true })
    releases :
        (round_id : String)
        → s.held ≡ true
        → (names round_id s.to_release ≡ true) ⊎ (find round_id s.settled ≡ none)
        → Step s (record s { queue = delete_vtxos redis round_id s.queue })
    resumes : Step s (record s { held = false; to_release = [] })

  pub data Reach : System → Type 0 where
    at_start : Reach at_first
    later : {s t : System} → Reach s → Step s t → Reach t
