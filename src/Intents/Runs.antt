-- ===== src/Intents/Runs.antt =====
-- Sequences of calls of the queue of internal/infrastructure/live-store/redis/intents.go. DeleteAll has
-- several transactions; no other call comes in between them here.
use arkd.Base.{◌≡◌, refl, String, List, [], ◌∷◌, none, arith, inl, inr, Option-cases, if◌then◌else◌}
use arkd.Base.Int.{ℤ}
use arkd.Base.Results.{Result, ok, err, Result-cases}
use arkd.Intents.Redis.{Redis, names}
use arkd.Intents.Queue.{
  TimedIntent, QueueError, Queue, empty_queue, push, to_pop, pop, delete_intents, delete_one,
  delete_all, delete_vtxos,
}
use arkd.Intents.Claims.{IsClaimed, empty_queue-IsClaimed, push-IsClaimed}
use arkd.Intents.Taken.{
  IsHolder, pop_each-IsClaimed, body-IsHolder, delete_intents-IsClaimed, hget-delete_one,
}
use arkd.Intents.Popped.{All-to_pop}
use arkd.Intents.Release.{sismember-delete_vtxos, hget-delete_vtxos}

pub data QueueCall : Type 0 where
  pushed : TimedIntent → QueueCall
  popped : ℤ → String → QueueCall
  deleted : List String → QueueCall
  cleared : QueueCall
  released : String → QueueCall

module _ (redis : Redis) where
  open redis use {sismember, hget, smembers, names-smembers, hget-no_fields}

  -- A push that is refused changes nothing.
  abbrev pub kept_or : Queue redis → Result QueueError (Queue redis) → Queue redis
  kept_or q (ok r) = r
  kept_or q (err e) = q

  abbrev pub make_call : QueueCall → Queue redis → Queue redis
  make_call (pushed t) q = kept_or q (push redis t q)
  make_call (popped num round_id) q = (pop redis num round_id q).1
  make_call (deleted ids) q = delete_intents redis ids q
  make_call cleared q = delete_all redis q
  make_call (released round_id) q = delete_vtxos redis round_id q

  unfoldable pub run_calls : List QueueCall → Queue redis → Queue redis
  run_calls [] q = q
  run_calls (c ∷ cs) q = run_calls cs (make_call c q)

  pub pop-IsClaimed :
      (num : ℤ) (round_id : String) (q : Queue redis)
      → IsClaimed redis q
      → IsClaimed redis (pop redis num round_id q).1
  unfolding pop
  pop-IsClaimed num round_id q inv =
      let held =
        All-to_pop redis (IsHolder redis q) num q (λ id t h. body-IsHolder redis q id t inv h) in
      let after = pop_each-IsClaimed redis (to_pop redis num q) round_id q inv held in
      record {
        known = after.known;
        claimed = after.claimed;
        apart = after.apart;
        held = after.held;
      }

  pub delete_vtxos-IsClaimed :
      (round_id : String) (q : Queue redis)
      → IsClaimed redis q
      → IsClaimed redis (delete_vtxos redis round_id q)
  unfolding delete_vtxos
  delete_vtxos-IsClaimed round_id q inv = record {
    known = inv.known;
    claimed = λ id t k h m. ground (
      arith,
      inv.claimed id t k,
      sismember-delete_vtxos redis k round_id q,
      hget-delete_vtxos redis k round_id q,
    );
    apart = inv.apart;
    held = λ k o h. ground (
      arith,
      inv.held k o,
      sismember-delete_vtxos redis k round_id q,
      hget-delete_vtxos redis k round_id q,
    );
  }

  hget-delete_intents :
      (id : String) (ids : List String) (q : Queue redis)
      → hget id (delete_intents redis ids q).bodies
        ≡ (if names id ids then none else hget id q.bodies)
  unfolding delete_intents
  hget-delete_intents id [] q = refl
  hget-delete_intents id (i ∷ ids) q =
      ground
        (arith, hget-delete_intents id ids (delete_one redis i q), hget-delete_one redis id i q)

  delete_all-IsClaimed :
      (q : Queue redis) → IsClaimed redis q → IsClaimed redis (delete_all redis q)
  unfolding delete_all
  delete_all-IsClaimed q inv = record {
    known = λ id t h. absurd (cc (none_left id, h));
    claimed = λ id t k h m. absurd (cc (none_left id, h));
    apart = λ i j t u k h g m n. absurd (cc (none_left i, h));
    held = λ k o h. absurd (ground (arith, hget-no_fields {V = String} k));
  }
    where
      none_left : (id : String) → hget id (delete_intents redis (smembers q.ids) q).bodies ≡ none
      none_left id = elim (Option-cases (hget id q.bodies)) [
        | inl gone ↦ ground (arith, hget-delete_intents id (smembers q.ids) q)
        | inr (t, here) ↦ ground (
          arith,
          hget-delete_intents id (smembers q.ids) q,
          (inv.known id t here).1,
          names-smembers id q.ids,
        )
      ]

  make_call-IsClaimed :
      (c : QueueCall) (q : Queue redis) → IsClaimed redis q → IsClaimed redis (make_call c q)
  make_call-IsClaimed (pushed t) q inv = elim (Result-cases (push redis t q)) [
    | inl (r, e) ↦ rw e (push-IsClaimed redis q r t inv e)
    | inr (x, e) ↦ rw e inv
  ]
  make_call-IsClaimed (popped num round_id) q inv = pop-IsClaimed num round_id q inv
  make_call-IsClaimed (deleted ids) q inv = delete_intents-IsClaimed redis ids q inv
  make_call-IsClaimed cleared q inv = delete_all-IsClaimed q inv
  make_call-IsClaimed (released round_id) q inv = delete_vtxos-IsClaimed round_id q inv

  run_from-IsClaimed :
      (cs : List QueueCall) (q : Queue redis) → IsClaimed redis q → IsClaimed redis (run_calls cs q)
  unfolding run_calls
  run_from-IsClaimed [] q inv = inv
  run_from-IsClaimed (c ∷ cs) q inv =
      run_from-IsClaimed cs (make_call c q) (make_call-IsClaimed c q inv)

  -- After any calls from an empty store, pushes that are refused included: each intent in the queue
  -- stands under its id, its inputs are claimed and await no release, two intents share no input,
  -- and an input that awaits its release is still claimed.
  pub run_calls-IsClaimed :
      (cs : List QueueCall) → IsClaimed redis (run_calls cs (empty_queue redis))
  run_calls-IsClaimed cs = run_from-IsClaimed cs (empty_queue redis) (empty_queue-IsClaimed redis)
