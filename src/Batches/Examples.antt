-- ===== src/Batches/Examples.antt =====
-- A batch from a registration to the release of its inputs, and waits for projections.
use arkd.Base.{
  ◌≡◌, refl, subst, String, true, false, List, [], ◌∷◌, ◌++◌, ◌⊎◌, inl, some, arith, eq_iff,
}
use arkd.Base.Int.{pos}
use arkd.Domain.Round.{Round, zero_round}
use arkd.Intents.Owner.{outpoint_string, pending_owner, split_pending_owner}
use arkd.Intents.Redis.{names, sadd_all, srem_all, hdel_all, hset_all}
use arkd.Intents.Tables.{tables}
use arkd.Intents.Queue.{
  TimedIntent, vtxo_keys, boarding_keys, keys_of, insert_by_time, sort_by_time, take_first,
  with_receivers, push, check_keys, bodies_of, to_pop, pop_each, pop, taken_for, delete_vtxos,
}
use arkd.Intents.Release.{belongs}
use arkd.Intents.Examples.{timed}
use arkd.Batches.{
  Sessions, track, mark_projected, projected_of, pending_of, forget_projected, wakes, times_out,
  returned, look, wait_step, wait_steps, wait_for_projections,
}
use arkd.Batches.Protocol.{
  System, at_first, begin_registration, reads_unspent, pushes, takes, ends, projects, handles,
  waits, holds, releases, resumes, Reach, at_start, later,
}
use arkd.Batches.Settled.{Reach-settled}
use arkd.Batches.Waits.{announces, wait_for_projections-announces}
use arkd.Batches.Returns.{announcing}
use arkd.Batches.Ends.{wait_for_projections-returned}

abbrev ended_round : Round
ended_round = record zero_round {
  id = "r";
  stage = record { code = 2; ended = true; failed = false };
}

-- One batch is projected and one is not.
abbrev two : Sessions
two = record { inflight_batches = ("q", true) ∷ ("r", false) ∷ []; updated = 4 }

wait_for_projections-returned_example :
    (done : List String) × (m : Sessions) × (wait_for_projections
        (announcing ("r" ∷ []) ++ (wakes ∷ []))
        two
      ≡ returned done m)
    × (m.inflight_batches ≡ [])
unfolding pending_of
wait_for_projections-returned_example =
    wait_for_projections-returned ("r" ∷ []) two (refl, (refl, tt)) (refl, tt)

wait_for_projections-announces_example :
    (names "q" (projected_of two.inflight_batches) ≡ true) ⊎ (announces "q" (times_out ∷ []) ≡ true)
unfolding wait_for_projections wait_steps wait_step look forget_projected projected_of pending_of
wait_for_projections-announces_example =
    wait_for_projections-announces (times_out ∷ []) two "q" refl

-- A timeout returns what is projected, and the other batch stays tracked.
timed_out :
    wait_for_projections (times_out ∷ []) two
    ≡ returned ("q" ∷ []) (record { inflight_batches = ("r", false) ∷ []; updated = 4 })
unfolding wait_for_projections wait_steps wait_step look forget_projected projected_of pending_of
timed_out = refl

abbrev first_intent : TimedIntent
first_intent = timed "i" "a"

abbrev second_intent : TimedIntent
second_intent = record (timed "j" "d") { boarding_inputs = [] }

abbrev settled_keys : List String
settled_keys = "a:7" ∷ "b:7" ∷ []

not_settled : (k : String) → names k ("d:7" ∷ []) ≡ true → names k settled_keys ≡ false
not_settled k m =
    subst (λ (j : String). names j settled_keys ≡ false) ((eq_iff "d:7" k).0 (ground arith)) refl

-- The first intent is registered, and a batch takes it, ends and is released; then the second one is.
record Run : Type 0 where
  last : System tables
  reach : Reach tables last

ended : Run
unfolding tables push pop to_pop pop_each sort_by_time insert_by_time take_first bodies_of
    with_receivers keys_of vtxo_keys boarding_keys outpoint_string check_keys track mark_projected
    forget_projected projected_of pending_of delete_vtxos taken_for srem_all sadd_all hdel_all
    hset_all pending_owner split_pending_owner
ended =
    let r0 : Reach tables (at_first tables) = at_start in
    let r1 = later r0 (
      begin_registration first_intent refl (record {
        not_queued = refl;
        no_owner = λ k owner h. absurd (cc h);
        not_registering = refl;
      })) in
    let r2 = later r1 (reads_unspent "i" first_intent false refl (λ k m. refl)) in
    let r3 = later r2 (pushes "i" first_intent refl) in
    let r4 = later r3 (takes (pos 1) "r" refl refl) in
    let r5 = later r4 (ends ended_round settled_keys refl refl (λ k m. ground arith)) in
    let r6 = later r5 (projects "r" settled_keys refl) in
    let r7 = later r6 (handles "r" settled_keys refl (λ k m. m)) in
    let r8 = later r7 waits in
    let r9 = later r8 (holds refl refl) in
    let r10 = later r9 (releases "r" refl (inl refl)) in
    let r11 = later r10 resumes in
    let r12 = later r11 (
      begin_registration second_intent refl (record {
        not_queued = refl;
        no_owner = λ k owner h. absurd (cc h);
        not_registering = refl;
      })) in
    let r13 = later r12 (reads_unspent "j" second_intent false refl (λ k m. not_settled k m)) in
    let r14 = later r13 (pushes "j" second_intent refl) in record { last = _; reach = r14 }

Reach-settled_example :
    (¬ (
      (id : String) × (t : TimedIntent) × (tables.hget id ended.last.queue.bodies ≡ some t)
      × (names "a:7" (keys_of t) ≡ true)))
    × ((belongs "r" (tables.hget "a:7" ended.last.queue.vtxos_to_remove) ≡ true)
        ⊎ (names "a:7" ended.last.spent ≡ true))
unfolding ended tables
Reach-settled_example = Reach-settled tables "r" settled_keys "a:7" ended.reach refl refl
