-- ===== src/Intents/Effects.antt =====
-- What Pop and Delete of internal/infrastructure/live-store/redis/intents.go leave of the queue.
use arkd.Base.{
  ◌≡◌, refl, sym, subst, String, false, List, [], ◌∷◌, some, All, arith, Bool-cases, Option-cases,
  inl, inr, ◌⊎◌, ap, ◌∙◌,
}
use arkd.Base.Int.{ℤ}
use arkd.Intents.Owner.{
  has_sep, pending_owner, split_pending_owner, split_pending_owner-pending_owner,
}
use arkd.Intents.Redis.{Redis, names, hget-hset_all}
use arkd.Intents.Queue.{
  TimedIntent, keys_of, Queue, pop_one, pop_each, to_pop, pop, delete_one, delete_intents,
}
use arkd.Intents.Claims.{IsClaimed}
use arkd.Intents.Taken.{hget-delete_one}
use arkd.Intents.Popped.{All-to_pop}

module _ (redis : Redis) where
  open redis use {hget, hget-hdel}

  -- From one queue to the next no intent comes in, an owner of an input is an old one or names an intent
  -- that was in the queue, and an input of no intent in the queue keeps its owner.
  pub record IsQuiet (q r : Queue redis) : Type 0 where
    pub fewer : (i : String) (t : TimedIntent) → hget i r.bodies ≡ some t → hget i q.bodies ≡ some t
    pub owners :
        (k owner : String)
        → hget k r.vtxos_to_remove ≡ some owner
        → (hget k q.vtxos_to_remove ≡ some owner)
          ⊎ ((u : TimedIntent) × (hget u.intent.id q.bodies ≡ some u)
              × ((split_pending_owner owner).1 ≡ u.intent.id))
    pub others :
        (k : String)
        → ((i : String) (t : TimedIntent) → hget i q.bodies ≡ some t → names k (keys_of t) ≡ false)
        → hget k r.vtxos_to_remove ≡ hget k q.vtxos_to_remove

  fewer-pop_each :
      (round_id i : String) (t : TimedIntent) (ts : List TimedIntent) (q : Queue redis)
      → hget i (pop_each redis round_id ts q).bodies ≡ some t
      → hget i q.bodies ≡ some t
  unfolding pop_each
  fewer-pop_each round_id i t [] q h = h
  fewer-pop_each round_id i t (u ∷ us) q h = ground (
    arith,
    fewer-pop_each round_id i t us (pop_one redis round_id u q) h,
    hget-hdel i u.intent.id q.bodies,
  )

  owners-pop_each :
      (P : TimedIntent → Type 0) (round_id k owner : String) (ts : List TimedIntent)
      (q : Queue redis)
      → has_sep round_id ≡ false
      → All P ts
      → hget k (pop_each redis round_id ts q).vtxos_to_remove ≡ some owner
      → (hget k q.vtxos_to_remove ≡ some owner)
        ⊎ ((u : TimedIntent) × P u × ((split_pending_owner owner).1 ≡ u.intent.id))
  unfolding pop_each
  owners-pop_each P round_id k owner [] q plain all h = inl h
  owners-pop_each P round_id k owner (t ∷ ts) q plain (p, all) h =
      elim (owners-pop_each P round_id k owner ts (pop_one redis round_id t q) plain all h) [
        | inl before ↦ elim (Bool-cases (names k (keys_of t))) [
          | inl own ↦ inr (
            t,
            p,
            ground (
              arith,
              hget-hset_all redis k (keys_of t) (pending_owner round_id t.intent.id)
                  q.vtxos_to_remove,
              split_pending_owner-pending_owner round_id t.intent.id plain,
            ),
          )
          | inr other ↦ inl (
              ground (
                arith,
                hget-hset_all redis k (keys_of t) (pending_owner round_id t.intent.id)
                    q.vtxos_to_remove,
              ))
        ]
        | inr found ↦ inr found
      ]

  others-pop_each :
      (round_id k : String) (ts : List TimedIntent) (q : Queue redis)
      → All (λ t. names k (keys_of t) ≡ false) ts
      → hget k (pop_each redis round_id ts q).vtxos_to_remove ≡ hget k q.vtxos_to_remove
  unfolding pop_each
  others-pop_each round_id k [] q all = refl
  others-pop_each round_id k (t ∷ ts) q (p, all) = ground (
    arith,
    others-pop_each round_id k ts (pop_one redis round_id t q) all,
    hget-hset_all redis k (keys_of t) (pending_owner round_id t.intent.id) q.vtxos_to_remove,
  )

  pub pop-IsQuiet :
      (num : ℤ) (round_id : String) (q : Queue redis)
      → has_sep round_id ≡ false
      → IsClaimed redis q
      → IsQuiet q (pop redis num round_id q).1
  unfolding pop
  pop-IsQuiet num round_id q plain inv =
      let ts = to_pop redis num q in
      record {
        fewer = λ i t h. fewer-pop_each round_id i t ts q h;
        owners = λ k owner h.
            owners-pop_each (λ u. hget u.intent.id q.bodies ≡ some u) round_id k owner ts q plain
              (All-to_pop redis (λ u. hget u.intent.id q.bodies ≡ some u) num q
                (λ id t e.
                  subst (λ (j : String). hget j q.bodies ≡ some t) (sym (inv.known id t e).0) e))
              h;
        others = λ k none_has.
            others-pop_each round_id k ts q
              (All-to_pop redis (λ t. names k (keys_of t) ≡ false) num q none_has);
      }

  pending-delete_one :
      (id : String) (q : Queue redis) → (delete_one redis id q).vtxos_to_remove ≡ q.vtxos_to_remove
  unfolding delete_one
  pending-delete_one id q = elim (Option-cases (hget id q.bodies)) [
    | inl e ↦ rw e refl
    | inr (t, e) ↦ rw e refl
  ]

  pending-delete_intents :
      (ids : List String) (q : Queue redis)
      → (delete_intents redis ids q).vtxos_to_remove ≡ q.vtxos_to_remove
  unfolding delete_intents
  pending-delete_intents [] q = refl
  pending-delete_intents (id ∷ ids) q =
      pending-delete_intents ids (delete_one redis id q) ∙ pending-delete_one id q

  fewer-delete_intents :
      (ids : List String) (q : Queue redis) (i : String) (t : TimedIntent)
      → hget i (delete_intents redis ids q).bodies ≡ some t
      → hget i q.bodies ≡ some t
  unfolding delete_intents
  fewer-delete_intents [] q i t h = h
  fewer-delete_intents (id ∷ ids) q i t h =
      ground (
        arith,
        fewer-delete_intents ids (delete_one redis id q) i t h,
        hget-delete_one redis i id q,
      )

  pub delete_intents-IsQuiet :
      (ids : List String) (q : Queue redis) → IsQuiet q (delete_intents redis ids q)
  delete_intents-IsQuiet ids q = record {
    fewer = fewer-delete_intents ids q;
    owners = λ k owner h. inl (sym (ap (λ h. hget k h) (pending-delete_intents ids q)) ∙ h);
    others = λ k _. ap (λ h. hget k h) (pending-delete_intents ids q);
  }
