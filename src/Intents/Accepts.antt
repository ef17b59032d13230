-- ===== src/Intents/Accepts.antt =====
-- When Push of internal/infrastructure/live-store/redis/intents.go takes an intent, and that it takes one
-- which a batch has popped.
use arkd.Base.{
  ◌≡◌, refl, sym, subst, ◌⊎◌, ◌↔◌, inl, inr, String, true, false, List, [], ◌∷◌, none, some, str_eq,
  eq_iff, ap, All, All-map, arith, Bool-cases, Option-cases,
}
use arkd.Base.Int.{ℤ}
use arkd.Base.Results.{ok}
use arkd.Intents.Owner.{
  has_sep, pending_owner, split_pending_owner, split_pending_owner-pending_owner,
}
use arkd.Intents.Redis.{Redis, names, hget-hset_all}
use arkd.Intents.Queue.{
  TimedIntent, keys_of, Queue, is_refused, check_keys, queued, push, pop_one, pop_each, to_pop, pop,
  push_front,
}
use arkd.Intents.Claims.{IsClaimed, check_keys-none, push-eq-ok}
use arkd.Intents.Popped.{All-to_pop}
use arkd.Intents.Release.{names_any}

-- What holds of each key that a list names.
module _ (P : String → Type 0) where
  All-names : (ks : List String) → ((k : String) → names k ks ≡ true → P k) → All P ks
  All-names [] f = tt
  All-names (k ∷ ks) f =
      (f k (ground (arith, eq_iff k k)), All-names ks (λ j m. f j (ground arith)))

  names-All : (ks : List String) (k : String) → All P ks → names k ks ≡ true → P k
  names-All [] k h m = absurd (cc m)
  names-All (j ∷ ks) k (p, h) m = elim (Bool-cases (str_eq j k)) [
    | inl e ↦ subst P ((eq_iff j k).0 e) p
    | inr e ↦ names-All ks k h (ground arith)
  ]

module _ (redis : Redis) where
  open redis use {sismember, hget, sismember-srem}

  -- The input is claimed by nobody, or awaits its release and the intent is its owner.
  abbrev pub IsOpen : Queue redis → String → String → Type 0
  IsOpen q id k =
      (sismember k q.vtxos ≡ false)
      ⊎ ((owner : String) × (hget k q.vtxos_to_remove ≡ some owner)
          × ((split_pending_owner owner).1 ≡ id))

  IsOpen-refused :
      (q : Queue redis) (id k : String) → IsOpen q id k → is_refused redis q id k ≡ false
  IsOpen-refused q id k (inl free) = ground arith
  IsOpen-refused q id k (inr (owner, e, own)) =
      rw e (ground (arith, eq_iff (split_pending_owner owner).1 id))

  refused-IsOpen :
      (q : Queue redis) (id k : String) → is_refused redis q id k ≡ false → IsOpen q id k
  refused-IsOpen q id k h = elim (Bool-cases (sismember k q.vtxos)) [
    | inr free ↦ inl free
    | inl claimed ↦ elim (Option-cases (hget k q.vtxos_to_remove)) [
      | inl e ↦ absurd (ground arith)
      | inr (owner, e) ↦ inr (owner, e, ground (arith, eq_iff (split_pending_owner owner).1 id))
    ]
  ]

  none-check_keys :
      (q : Queue redis) (id : String) (ks : List String)
      → ((k : String) → names k ks ≡ true → is_refused redis q id k ≡ false)
      → check_keys redis q id ks ≡ none
  unfolding check_keys
  none-check_keys q id [] h = refl
  none-check_keys q id (k ∷ ks) h =
      let rest = none-check_keys q id ks (λ j m. h j (ground arith)) in
      rw (h k (ground (arith, eq_iff k k))) rest

  ok-push :
      (q : Queue redis) (t : TimedIntent)
      → sismember t.intent.id q.ids ≡ false
      → check_keys redis q t.intent.id (keys_of t) ≡ none
      → push redis t q ≡ ok (queued redis t q)
  unfolding push
  ok-push q t new passed = rw (new, passed) refl

  -- A push succeeds exactly when no intent in the queue has the id, and each input is claimed by
  -- nobody or awaits its release with this intent as its owner.
  pub push_iff :
      (q : Queue redis) (t : TimedIntent)
      → ((r : Queue redis) × (push redis t q ≡ ok r))
        ↔ ((sismember t.intent.id q.ids ≡ false) × All (IsOpen q t.intent.id) (keys_of t))
  push_iff q t = (
    λ p.
        let (new, passed, e) = push-eq-ok redis q p.0 t p.1 in
        (
          new,
          All-names (IsOpen q t.intent.id) (keys_of t) (λ k m.
              refused-IsOpen q t.intent.id k
                (check_keys-none redis q t.intent.id (keys_of t) k passed m)),
        ),
    λ h. (
      queued redis t q,
      ok-push q t h.0 (
          none-check_keys q t.intent.id (keys_of t) (λ k m.
            IsOpen-refused q t.intent.id k (names-All (IsOpen q t.intent.id) (keys_of t) k h.1 m))),
    ),
  )

  gone-pop_each :
      (round_id id : String) (ts : List TimedIntent) (q : Queue redis)
      → sismember id q.ids ≡ false
      → sismember id (pop_each redis round_id ts q).ids ≡ false
  unfolding pop_each
  gone-pop_each round_id id [] q h = h
  gone-pop_each round_id id (t ∷ ts) q h =
      gone-pop_each round_id id ts (pop_one redis round_id t q)
        (ground (arith, sismember-srem id t.intent.id q.ids))

  All-gone :
      (round_id : String) (ts : List TimedIntent) (q : Queue redis)
      → All (λ t. sismember t.intent.id (pop_each redis round_id ts q).ids ≡ false) ts
  unfolding pop_each
  All-gone round_id [] q = tt
  All-gone round_id (t ∷ ts) q = (
    gone-pop_each round_id t.intent.id ts (pop_one redis round_id t q) (
        ground
          (arith, sismember-srem t.intent.id t.intent.id q.ids, eq_iff t.intent.id t.intent.id)),
    All-gone round_id ts (pop_one redis round_id t q),
  )

  -- Where only one of the intents has the input, it becomes the owner.
  own-pop_each :
      (round_id id k : String) (ts : List TimedIntent) (q : Queue redis)
      → All (λ u. names k (keys_of u) ≡ true → u.intent.id ≡ id) ts
      → (names_any k ts ≡ true) ⊎ (hget k q.vtxos_to_remove ≡ some (pending_owner round_id id))
      → hget k (pop_each redis round_id ts q).vtxos_to_remove ≡ some (pending_owner round_id id)
  unfolding pop_each
  own-pop_each round_id id k [] q only h = elim h [ inl e ↦ absurd (cc e) | inr e ↦ e ]
  own-pop_each round_id id k (t ∷ ts) q (p, only) h =
      own-pop_each round_id id k ts (pop_one redis round_id t q) only
        (elim (Bool-cases (names k (keys_of t))) [
          | inl own ↦ inr (
              subst
                (λ (j : String).
                  hget k (pop_one redis round_id t q).vtxos_to_remove
                  ≡ some (pending_owner round_id j))
                (p own)
                (ground (
                  arith,
                  hget-hset_all redis k (keys_of t) (pending_owner round_id t.intent.id)
                      q.vtxos_to_remove,
                )))
          | inr other ↦ elim h [
            | inl some_has ↦ inl (ground arith)
            | inr e ↦ inr (
                ground (
                  arith,
                  hget-hset_all redis k (keys_of t) (pending_owner round_id t.intent.id)
                      q.vtxos_to_remove,
                ))
          ]
        ])

  module _ (q : Queue redis) (inv : IsClaimed redis q) (round_id : String)
      (plain : has_sep round_id ≡ false) (ts : List TimedIntent)
      (bodies : All (λ u. hget u.intent.id q.bodies ≡ some u) ts)
      (selected : List TimedIntent) where
    abbrev popped : Queue redis
    popped = record (pop_each redis round_id ts q) { selected = selected }

    -- An intent of a batch whose inputs no other one has can be pushed.
    push_one :
        (t : TimedIntent)
        → hget t.intent.id q.bodies ≡ some t
        → sismember t.intent.id popped.ids ≡ false
        → ((k : String) → names k (keys_of t) ≡ true → names_any k ts ≡ true)
        → (r : Queue redis) × (push redis t popped ≡ ok r)
    push_one t here gone listed = (push_iff popped t).1 (
      gone,
      All-names (IsOpen popped t.intent.id) (keys_of t) (λ k m. inr (
        pending_owner round_id t.intent.id,
        own-pop_each round_id t.intent.id k ts q
            (All-map (λ u. hget u.intent.id q.bodies ≡ some u) _ ts
              (λ u e n. inv.apart u.intent.id t.intent.id u t k e here n m) bodies)
            (inl (listed k m)),
        ap (λ p. p.1) (split_pending_owner-pending_owner round_id t.intent.id plain),
      )),
    )

    push_each :
        (us : List TimedIntent)
        → All (λ u. hget u.intent.id q.bodies ≡ some u) us
        → All (λ u. sismember u.intent.id popped.ids ≡ false) us
        → ((k : String) → names_any k us ≡ true → names_any k ts ≡ true)
        → All (λ u. (r : Queue redis) × (push redis u popped ≡ ok r)) us
    push_each [] here gone listed = tt
    push_each (u ∷ us) (e, here) (g, gone) listed = (
      push_one u e g (λ k m. listed k (ground arith)),
      push_each us here gone (λ k m. listed k (ground arith)),
    )

  -- Each intent that a batch takes can be pushed again before its inputs are released. The queue is
  -- one whose inputs are claimed as they should be, and the id of the batch has no separator.
  pub push-pop :
      (num : ℤ) (round_id : String) (q : Queue redis)
      → IsClaimed redis q
      → has_sep round_id ≡ false
      → All
          (λ t. (r : Queue redis) × (push redis t (pop redis num round_id q).1 ≡ ok r))
          (pop redis num round_id q).0
  unfolding pop
  push-pop num round_id q inv plain =
      let ts = to_pop redis num q in
      let bodies =
        All-to_pop redis (λ u. hget u.intent.id q.bodies ≡ some u) num q
          (λ id t e.
            subst (λ (j : String). hget j q.bodies ≡ some t) (sym (inv.known id t e).0) e) in
      push_each q inv round_id plain ts bodies (push_front ts []) ts bodies (All-gone round_id ts q)
        (λ k m. m)
