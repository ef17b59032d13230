-- ===== src/Intents/Queue.antt =====
-- internal/infrastructure/live-store/redis/intents.go: the intents in the queue, the inputs that they
-- claim, and the inputs that a batch took. Each operation is one transaction of Redis, which runs again
-- when a key that it watches has changed: here it is one step. Push tries again after any error, and each
-- of its attempts is a call. Errors of the connection are left out.
use arkd.Base.{
  ℕ, zero, suc, String, Bool, false, not, ◌&&◌, List, [], ◌∷◌, ◌++◌, Option, none, some, ltb,
  str_eq, if◌then◌else◌, is_nil, length,
}
use arkd.Base.Int.{ℤ, pos, ltb_ℤ, pos_part}
use arkd.Base.Results.{Result, ok, err}
use arkd.Domain.Types.{Outpoint, Vtxo}
use arkd.Domain.Intent.{Intent}
use arkd.Intents.Owner.{outpoint_string, pending_owner, split_pending_owner}
use arkd.Intents.Redis.{Redis, sadd_all, srem_all, hdel_all, hset_all}

pub record BoardingInput : Type 0 where
  pub outpoint : Outpoint
  pub tapscripts : List String
  pub amount : ℕ  -- uint64

pub record TimedIntent : Type 0 where
  pub intent : Intent
  pub boarding_inputs : List BoardingInput
  pub timestamp : ℕ
  pub cosigners_public_keys : List String

pub data QueueError : Type 0 where
  duplicated_intent : String → QueueError
  duplicated_input : String → QueueError

unfoldable pub vtxo_keys : List Vtxo → List String
vtxo_keys [] = []
vtxo_keys (v ∷ vs) = outpoint_string v.outpoint ∷ vtxo_keys vs

unfoldable pub boarding_keys : List BoardingInput → List String
boarding_keys [] = []
boarding_keys (b ∷ bs) = outpoint_string b.outpoint ∷ boarding_keys bs

-- The keys of the inputs of an intent.
unfoldable pub keys_of : TimedIntent → List String
keys_of t = vtxo_keys t.intent.inputs ++ boarding_keys t.boarding_inputs

-- `sort.SliceStable`: an intent stands behind the earlier ones, and in front of those of its own time.
unfoldable pub insert_by_time : TimedIntent → List TimedIntent → List TimedIntent
insert_by_time t [] = t ∷ []
insert_by_time t (u ∷ us) =
    if ltb u.timestamp t.timestamp then u ∷ insert_by_time t us else t ∷ u ∷ us

unfoldable pub sort_by_time : List TimedIntent → List TimedIntent
sort_by_time [] = []
sort_by_time (t ∷ ts) = insert_by_time t (sort_by_time ts)

unfoldable pub take_first : ℕ → List TimedIntent → List TimedIntent
take_first zero ts = []
take_first (suc n) [] = []
take_first (suc n) (t ∷ ts) = t ∷ take_first n ts

-- How many of the intents a `num` asks for.
abbrev pub count_to_pop : ℤ → ℕ → ℕ
count_to_pop num all =
    if ltb_ℤ num (pos 0) then all else if ltb_ℤ (pos all) num then all else pos_part num

-- `LPUSH`, one after the other.
unfoldable pub push_front : List TimedIntent → List TimedIntent → List TimedIntent
push_front [] l = l
push_front (t ∷ ts) l = push_front ts (t ∷ l)

-- The intents that have receivers.
unfoldable pub with_receivers : List TimedIntent → List TimedIntent
with_receivers [] = []
with_receivers (t ∷ ts) =
    if is_nil t.intent.receivers then with_receivers ts else t ∷ with_receivers ts

module _ (redis : Redis) where
  open redis use {
    Set, no_members, sadd, srem, sismember, smembers, Hash, no_fields, hset, hdel, hget, hgetall,
  }

  -- The keys of the store: `intent:ids`, the bodies under `intent:`, `intent:vtxos`,
  -- `intent:vtxosToRemove` and `intent:selected`.
  pub record Queue : Type 0 where
    pub ids : Set
    pub bodies : Hash TimedIntent
    pub vtxos : Set
    pub vtxos_to_remove : Hash String
    pub selected : List TimedIntent

  abbrev pub empty_queue : Queue
  empty_queue = record {
    ids = no_members;
    bodies = no_fields;
    vtxos = no_members;
    vtxos_to_remove = no_fields;
    selected = [];
  }

  -- Whether the owner that waits for the release of an input is the intent.
  abbrev pub popped_by : String → Option String → Bool
  popped_by id none = false
  popped_by id (some owner) = str_eq (split_pending_owner owner).1 id

  abbrev pub is_refused : Queue → String → String → Bool
  is_refused q id k = sismember k q.vtxos && not (popped_by id (hget k q.vtxos_to_remove))

  -- The loop over the keys of the inputs.
  unfoldable pub check_keys : Queue → String → List String → Option QueueError
  check_keys q id [] = none
  check_keys q id (k ∷ ks) =
      let rest = check_keys q id ks in if is_refused q id k then some (duplicated_input k) else rest

  abbrev pub queued : TimedIntent → Queue → Queue
  queued t q = record {
    ids = sadd t.intent.id q.ids;
    bodies = hset t.intent.id t q.bodies;
    vtxos = sadd_all redis (keys_of t) q.vtxos;
    vtxos_to_remove = hdel_all redis (keys_of t) q.vtxos_to_remove;
    selected = q.selected;
  }

  abbrev pub push_checked : TimedIntent → Queue → Option QueueError → Result QueueError Queue
  push_checked t q none = ok (queued t q)
  push_checked t q (some e) = err e

  -- The method `Push` of an intent with its time, its boarding inputs and its cosigners.
  unfoldable pub push : TimedIntent → Queue → Result QueueError Queue
  push t q =
      if sismember t.intent.id q.ids
      then err (duplicated_intent t.intent.id)
      else push_checked t q (check_keys q t.intent.id (keys_of t))

  -- The bodies under the ids.
  abbrev pub with_body : Option TimedIntent → List TimedIntent → List TimedIntent
  with_body none ts = ts
  with_body (some t) ts = t ∷ ts

  unfoldable pub bodies_of : List String → Hash TimedIntent → List TimedIntent
  bodies_of [] h = []
  bodies_of (id ∷ ids) h = with_body (hget id h) (bodies_of ids h)

  unfoldable pub to_pop : ℤ → Queue → List TimedIntent
  to_pop num q =
      let ts = sort_by_time (with_receivers (bodies_of (smembers q.ids) q.bodies)) in
      take_first (count_to_pop num (length ts)) ts

  abbrev pub pop_one : String → TimedIntent → Queue → Queue
  pop_one round_id t q = record q {
    ids = srem t.intent.id q.ids;
    bodies = hdel t.intent.id q.bodies;
    vtxos_to_remove =
        hset_all redis (keys_of t) (pending_owner round_id t.intent.id) q.vtxos_to_remove;
  }

  unfoldable pub pop_each : String → List TimedIntent → Queue → Queue
  pop_each round_id [] q = q
  pop_each round_id (t ∷ ts) q = pop_each round_id ts (pop_one round_id t q)

  -- The method `Pop`: the intents that the batch takes, and the queue without them.
  unfoldable pub pop : ℤ → String → Queue → List TimedIntent × Queue
  pop num round_id q =
      let ts = to_pop num q in (ts, record (pop_each round_id ts q) { selected = push_front ts [] })

  -- One round of the loop of `Delete`.
  abbrev pub delete_body : String → Queue → Option TimedIntent → Queue
  delete_body id q none = q
  delete_body id q (some t) = record q {
    ids = srem id q.ids;
    bodies = hdel id q.bodies;
    vtxos = srem_all redis (keys_of t) q.vtxos;
  }

  unfoldable pub delete_one : String → Queue → Queue
  delete_one id q = delete_body id q (hget id q.bodies)

  unfoldable pub delete_intents : List String → Queue → Queue
  delete_intents [] q = q
  delete_intents (id ∷ ids) q = delete_intents ids (delete_one id q)

  unfoldable pub delete_all : Queue → Queue
  delete_all q = record empty_queue { bodies = (delete_intents (smembers q.ids) q).bodies }

  -- The inputs that the batch took, of all that wait for their release.
  unfoldable pub taken_for : String → List (String × String) → List String
  taken_for round_id [] = []
  taken_for round_id ((k, owner) ∷ es) =
      if str_eq (split_pending_owner owner).0 round_id
      then k ∷ taken_for round_id es
      else taken_for round_id es

  unfoldable pub delete_vtxos : String → Queue → Queue
  delete_vtxos round_id q =
      let ks = taken_for round_id (hgetall q.vtxos_to_remove) in
      record q {
        vtxos = srem_all redis ks q.vtxos;
        vtxos_to_remove = hdel_all redis ks q.vtxos_to_remove;
      }

  -- The number of intents that have receivers.
  unfoldable pub len : Queue → ℕ
  len q = length (with_receivers (bodies_of (smembers q.ids) q.bodies))

  -- No ids ask for all intents.
  unfoldable pub view_all : List String → Queue → List TimedIntent
  view_all [] q = bodies_of (smembers q.ids) q.bodies
  view_all (id ∷ ids) q = bodies_of (id ∷ ids) q.bodies

  unfoldable pub includes_any : List Outpoint → Queue → List Outpoint
  includes_any [] q = []
  includes_any (o ∷ os) q =
      if sismember (outpoint_string o) q.vtxos then o ∷ includes_any os q else includes_any os q
