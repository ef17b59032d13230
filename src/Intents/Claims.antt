-- ===== src/Intents/Claims.antt =====
-- Who claims an input in internal/infrastructure/live-store/redis/intents.go.
use arkd.Base.{◌≡◌, subst, String, true, false, List, [], ◌∷◌, none, some, eq_iff, arith}
use arkd.Base.Results.{ok}
use arkd.Intents.Redis.{Redis, names, sismember-sadd_all, hget-hdel_all}
use arkd.Intents.Queue.{
  TimedIntent, keys_of, Queue, empty_queue, is_refused, check_keys, push, queued,
}

module _ (redis : Redis) where
  open redis use {
    sismember, hget, hgetall, sismember-sadd, sismember-srem, sismember-no_members, hget-hset,
    hget-hdel, hget-no_fields,
  }

  -- Each intent in the queue stands under its id and claims its inputs, which await no release; two
  -- intents share no input; and an input that awaits its release is still claimed.
  pub record IsClaimed (q : Queue redis) : Type 0 where
    pub known :
        (id : String) (t : TimedIntent)
        → hget id q.bodies ≡ some t
        → (t.intent.id ≡ id) × (sismember id q.ids ≡ true)
    pub claimed :
        (id : String) (t : TimedIntent) (k : String)
        → hget id q.bodies ≡ some t
        → names k (keys_of t) ≡ true
        → (sismember k q.vtxos ≡ true) × (hget k q.vtxos_to_remove ≡ none)
    pub apart :
        (i j : String) (t u : TimedIntent) (k : String)
        → hget i q.bodies ≡ some t
        → hget j q.bodies ≡ some u
        → names k (keys_of t) ≡ true
        → names k (keys_of u) ≡ true
        → i ≡ j
    pub held :
        (k owner : String) → hget k q.vtxos_to_remove ≡ some owner → sismember k q.vtxos ≡ true

  pub empty_queue-IsClaimed : IsClaimed (empty_queue redis)
  empty_queue-IsClaimed = record {
    known = λ id t h. absurd (ground (arith, hget-no_fields {V = TimedIntent} id));
    claimed = λ id t k h _. absurd (ground (arith, hget-no_fields {V = TimedIntent} id));
    apart = λ i j t u k h _ _ _. absurd (ground (arith, hget-no_fields {V = TimedIntent} i));
    held = λ k o h. absurd (ground (arith, hget-no_fields {V = String} k));
  }

  -- The test of the keys has passed exactly when none of them is refused.
  pub check_keys-none :
      (q : Queue redis) (id : String) (ks : List String) (k : String)
      → check_keys redis q id ks ≡ none
      → names k ks ≡ true
      → is_refused redis q id k ≡ false
  unfolding check_keys
  check_keys-none q id [] k h m = absurd (ground arith)
  check_keys-none q id (j ∷ js) k h m = ground (arith, check_keys-none q id js k, eq_iff j k)

  module _ (q : Queue redis) (t : TimedIntent) (inv : IsClaimed q) where
    -- An input that is not refused belongs to no intent in the queue.
    is_free :
        (i k : String) (u : TimedIntent)
        → is_refused redis q t.intent.id k ≡ false
        → hget i q.bodies ≡ some u
        → names k (keys_of u) ≡ false
    is_free i k u free h = ground (arith, inv.claimed i u k)

    queued-IsClaimed :
        sismember t.intent.id q.ids ≡ false
        → ((k : String) → names k (keys_of t) ≡ true → is_refused redis q t.intent.id k ≡ false)
        → IsClaimed (queued redis t q)
    queued-IsClaimed new free = record {
      known = λ i u h. ground (
        arith,
        inv.known i u,
        hget-hset i t.intent.id t q.bodies,
        sismember-sadd i t.intent.id q.ids,
        eq_iff t.intent.id i,
      );
      claimed = λ i u k h m. ground (
        arith,
        inv.claimed i u k,
        hget-hset i t.intent.id t q.bodies,
        sismember-sadd_all redis k (keys_of t) q.vtxos,
        hget-hdel_all redis k (keys_of t) q.vtxos_to_remove,
      );
      apart = λ i j u v k h g m n. ground (
        arith,
        inv.apart i j u v k,
        is_free i k u,
        is_free j k v,
        free k,
        hget-hset i t.intent.id t q.bodies,
        hget-hset j t.intent.id t q.bodies,
        eq_iff t.intent.id i,
        eq_iff t.intent.id j,
      );
      held = λ k o h. ground (
        arith,
        inv.held k o,
        sismember-sadd_all redis k (keys_of t) q.vtxos,
        hget-hdel_all redis k (keys_of t) q.vtxos_to_remove,
      );
    }

  -- What a push that succeeds has tested, and what it writes.
  pub push-eq-ok :
      (q r : Queue redis) (t : TimedIntent)
      → push redis t q ≡ ok r
      → (sismember t.intent.id q.ids ≡ false)
        × (check_keys redis q t.intent.id (keys_of t) ≡ none)
        × (queued redis t q ≡ r)
  unfolding push
  push-eq-ok q r t h = ground arith

  pub push-IsClaimed :
      (q r : Queue redis) (t : TimedIntent) → IsClaimed q → push redis t q ≡ ok r → IsClaimed r
  push-IsClaimed q r t inv h =
      let (new, free, e) = push-eq-ok q r t h in
      subst IsClaimed e
        (queued-IsClaimed q t inv new (λ k. check_keys-none q t.intent.id (keys_of t) k free))
