-- ===== src/Intents/Taken.antt =====
-- What Pop and Delete of internal/infrastructure/live-store/redis/intents.go keep of the claims.
use arkd.Base.{
  ◌≡◌, sym, subst, String, true, List, [], ◌∷◌, none, some, str_eq, eq_iff, if◌then◌else◌, All,
  arith, Bool-cases, Option-cases, inl, inr,
}
use arkd.Intents.Owner.{pending_owner}
use arkd.Intents.Redis.{Redis, names, sismember-srem_all, hget-hset_all}
use arkd.Intents.Queue.{TimedIntent, keys_of, Queue, pop_one, pop_each, delete_one, delete_intents}
use arkd.Intents.Claims.{IsClaimed}

module _ (redis : Redis) where
  open redis use {sismember, hget, sismember-srem, hget-hdel}

  -- An intent whose inputs are claimed, and in the queue at most by an intent with its id.
  abbrev pub IsHolder : Queue redis → TimedIntent → Type 0
  IsHolder q t =
      (k : String)
      → names k (keys_of t) ≡ true
      → (sismember k q.vtxos ≡ true)
        × ((i : String) (u : TimedIntent)
            → hget i q.bodies ≡ some u
            → names k (keys_of u) ≡ true
            → i ≡ t.intent.id)

  pub body-IsHolder :
      (q : Queue redis) (id : String) (t : TimedIntent)
      → IsClaimed redis q
      → hget id q.bodies ≡ some t
      → IsHolder q t
  body-IsHolder q id t inv h k m = (
    (inv.claimed id t k h m).0,
    λ i u g n.
        subst (λ (j : String). i ≡ j) (sym (inv.known id t h).0) (inv.apart i id u t k g h n m),
  )

  pop_one-IsHolder :
      (q : Queue redis) (round_id : String) (t u : TimedIntent)
      → IsHolder q u
      → IsHolder (pop_one redis round_id t q) u
  pop_one-IsHolder q round_id t u holds k m = (
    (holds k m).0,
    λ i v h n. (holds k m).1 i v (ground (arith, hget-hdel i t.intent.id q.bodies)) n,
  )

  pop_one-IsClaimed :
      (q : Queue redis) (round_id : String) (t : TimedIntent)
      → IsClaimed redis q
      → IsHolder q t
      → IsClaimed redis (pop_one redis round_id t q)
  pop_one-IsClaimed q round_id t inv holds = record {
    known = λ i u h. ground (
      arith,
      inv.known i u,
      hget-hdel i t.intent.id q.bodies,
      sismember-srem i t.intent.id q.ids,
    );
    claimed = λ i u k h m. elim (Bool-cases (names k (keys_of t))) [
      | inl own ↦
          ground
            (arith, (holds k own).1 i u, eq_iff t.intent.id i, hget-hdel i t.intent.id q.bodies)
      | inr other ↦ ground (
        arith,
        inv.claimed i u k,
        hget-hdel i t.intent.id q.bodies,
        hget-hset_all redis k (keys_of t) (pending_owner round_id t.intent.id) q.vtxos_to_remove,
      )
    ];
    apart = λ i j u v k h g m n. ground (
      arith,
      inv.apart i j u v k,
      hget-hdel i t.intent.id q.bodies,
      hget-hdel j t.intent.id q.bodies,
    );
    held = λ k o h. elim (Bool-cases (names k (keys_of t))) [
      | inl own ↦ (holds k own).0
      | inr other ↦ ground (
        arith,
        inv.held k o,
        hget-hset_all redis k (keys_of t) (pending_owner round_id t.intent.id) q.vtxos_to_remove,
      )
    ];
  }

  pub All-wait_step :
      (round_id : String) (t : TimedIntent) (q : Queue redis) (ts : List TimedIntent)
      → All (IsHolder q) ts
      → All (IsHolder (pop_one redis round_id t q)) ts
  All-wait_step round_id t q [] h = tt
  All-wait_step round_id t q (u ∷ us) (h, hs) =
      (pop_one-IsHolder q round_id t u h, All-wait_step round_id t q us hs)

  pub pop_each-IsClaimed :
      (ts : List TimedIntent) (round_id : String) (q : Queue redis)
      → IsClaimed redis q
      → All (IsHolder q) ts
      → IsClaimed redis (pop_each redis round_id ts q)
  unfolding pop_each
  pop_each-IsClaimed [] round_id q inv h = inv
  pop_each-IsClaimed (t ∷ ts) round_id q inv (h, hs) =
      pop_each-IsClaimed ts round_id (pop_one redis round_id t q)
        (pop_one-IsClaimed q round_id t inv h) (All-wait_step round_id t q ts hs)

  pub hget-delete_one :
      (id i : String) (q : Queue redis)
      → hget id (delete_one redis i q).bodies ≡ (if str_eq i id then none else hget id q.bodies)
  unfolding delete_one
  hget-delete_one id i q = elim (Option-cases (hget i q.bodies)) [
    | inl e ↦ rw e (ground (arith, eq_iff i id, e))
    | inr (t, e) ↦ rw e (ground (arith, hget-hdel id i q.bodies))
  ]

  delete_one-IsClaimed :
      (q : Queue redis) (id : String) → IsClaimed redis q → IsClaimed redis (delete_one redis id q)
  unfolding delete_one
  delete_one-IsClaimed q id inv = elim (Option-cases (hget id q.bodies)) [
    | inl e ↦ rw e inv
    | inr (t, e) ↦ rw e (record {
      known = λ i u h.
          ground (arith, inv.known i u, hget-hdel i id q.bodies, sismember-srem i id q.ids);
      claimed = λ i u k h m. ground (
        arith,
        inv.claimed i u k,
        inv.apart i id u t k,
        eq_iff id i,
        hget-hdel i id q.bodies,
        sismember-srem_all redis k (keys_of t) q.vtxos,
      );
      apart = λ i j u v k h g m n.
          ground (arith, inv.apart i j u v k, hget-hdel i id q.bodies, hget-hdel j id q.bodies);
      held = λ k o h. ground (
        arith,
        inv.held k o,
        inv.claimed id t k e,
        sismember-srem_all redis k (keys_of t) q.vtxos,
      );
    })
  ]

  pub delete_intents-IsClaimed :
      (ids : List String) (q : Queue redis)
      → IsClaimed redis q
      → IsClaimed redis (delete_intents redis ids q)
  unfolding delete_intents
  delete_intents-IsClaimed [] q inv = inv
  delete_intents-IsClaimed (id ∷ ids) q inv =
      delete_intents-IsClaimed ids (delete_one redis id q) (delete_one-IsClaimed q id inv)
