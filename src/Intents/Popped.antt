-- ===== src/Intents/Popped.antt =====
-- Which intents `Pop` takes (internal/infrastructure/live-store/redis/intents.go).
use arkd.Base.{
  ℕ, zero, suc, ◌≡◌, String, List, [], ◌∷◌, some, ltb, is_nil, length, All, Bool-cases,
  Option-cases, inl, inr,
}
use arkd.Base.Int.{ℤ}
use arkd.Intents.Redis.{Redis}
use arkd.Intents.Queue.{
  TimedIntent, insert_by_time, sort_by_time, take_first, count_to_pop, Queue, bodies_of,
  with_receivers, to_pop,
}

module _ (P : TimedIntent → Type 0) where
  All-insert_by_time :
      (t : TimedIntent) (ts : List TimedIntent) → P t → All P ts → All P (insert_by_time t ts)
  unfolding insert_by_time
  All-insert_by_time t [] p h = (p, h)
  All-insert_by_time t (u ∷ us) p (q, h) = elim (Bool-cases (ltb u.timestamp t.timestamp)) [
    | inl e ↦ rw e (q, All-insert_by_time t us p h)
    | inr e ↦ rw e (p, (q, h))
  ]

  All-sort_by_time : (ts : List TimedIntent) → All P ts → All P (sort_by_time ts)
  unfolding sort_by_time
  All-sort_by_time [] h = h
  All-sort_by_time (t ∷ ts) (p, h) =
      All-insert_by_time t (sort_by_time ts) p (All-sort_by_time ts h)

  All-take_first : (n : ℕ) (ts : List TimedIntent) → All P ts → All P (take_first n ts)
  unfolding take_first
  All-take_first zero ts h = tt
  All-take_first (suc n) [] h = tt
  All-take_first (suc n) (t ∷ ts) (p, h) = (p, All-take_first n ts h)

  All-with_receivers : (ts : List TimedIntent) → All P ts → All P (with_receivers ts)
  unfolding with_receivers
  All-with_receivers [] h = h
  All-with_receivers (t ∷ ts) (p, h) = elim (Bool-cases (is_nil t.intent.receivers)) [
    | inl e ↦ rw e (All-with_receivers ts h)
    | inr e ↦ rw e (p, All-with_receivers ts h)
  ]

module _ (redis : Redis) where
  open redis use {Hash, smembers, hget}

  All-bodies_of :
      (P : TimedIntent → Type 0) (ids : List String) (h : Hash TimedIntent)
      → ((id : String) (t : TimedIntent) → hget id h ≡ some t → P t)
      → All P (bodies_of redis ids h)
  unfolding bodies_of
  All-bodies_of P [] h each = tt
  All-bodies_of P (id ∷ ids) h each = elim (Option-cases (hget id h)) [
    | inl e ↦ rw e (All-bodies_of P ids h each)
    | inr (t, e) ↦ rw e (each id t e, All-bodies_of P ids h each)
  ]

  -- What holds of every intent in the queue holds of those that a batch takes.
  pub All-to_pop :
      (P : TimedIntent → Type 0) (num : ℤ) (q : Queue redis)
      → ((id : String) (t : TimedIntent) → hget id q.bodies ≡ some t → P t)
      → All P (to_pop redis num q)
  unfolding to_pop
  All-to_pop P num q each =
      let ts = sort_by_time (with_receivers (bodies_of redis (smembers q.ids) q.bodies)) in
      All-take_first P (count_to_pop num (length ts)) ts (
        All-sort_by_time P _
          (All-with_receivers P _ (All-bodies_of P (smembers q.ids) q.bodies each)))
