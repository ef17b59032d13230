-- ===== src/Batches/Kept.antt =====
-- What holds between registrations and ended batches, and that the steps of a registration and of the
-- queue keep it (internal/core/application/service.go and batch_session_manager.go).
use arkd.Base.{
  ◌≡◌, ◌⊎◌, inl, inr, String, Bool, true, false, List, [], none, some, str_eq, eq_iff, All, arith,
  Option-cases,
}
use arkd.Base.Maps.{find}
use arkd.Base.Results.{ok}
use arkd.Intents.Owner.{split_pending_owner}
use arkd.Intents.Redis.{Redis, names}
use arkd.Intents.Queue.{TimedIntent, keys_of, Queue, push}
use arkd.Intents.Release.{belongs}
use arkd.Intents.Claims.{IsClaimed, check_keys-none, push-eq-ok}
use arkd.Intents.Effects.{IsQuiet}
use arkd.Batches.Protocol.{System}

module _ (redis : Redis) where
  open redis use {hget, hget-hset}

  -- No intent in the queue has the input.
  abbrev pub IsUnqueued : Queue redis → String → Type 0
  IsUnqueued q k =
      (i : String) (t : TimedIntent) → hget i q.bodies ≡ some t → names k (keys_of t) ≡ false

  -- An input that an ended batch settled awaits its release by this batch; or it reads as spent, and
  -- neither the queue nor a registration that has read the projection has it.
  abbrev pub IsRefused : System redis → String → String → Type 0
  IsRefused s round_id k =
      (belongs round_id (hget k s.queue.vtxos_to_remove) ≡ true)
      ⊎ ((names k s.spent ≡ true)
          × IsUnqueued s.queue k
          × ((id : String) (t : TimedIntent)
              → find id s.registrations ≡ some (t, true)
              → names k (keys_of t) ≡ false))

  -- The batch has ended, and what it settled reads as spent.
  abbrev pub IsWritten : System redis → String → Type 0
  IsWritten s round_id =
      (ks : List String) × (find round_id s.settled ≡ some ks)
      × ((k : String) → names k ks ≡ true → names k s.spent ≡ true)

  -- An intent that is not in the queue yet, with an id that no owner of an input has.
  abbrev pub IsRegistering : Queue redis → TimedIntent → String → Type 0
  IsRegistering q t id =
      (t.intent.id ≡ id)
      × (hget id q.bodies ≡ none)
      × ((k owner : String)
          → hget k q.vtxos_to_remove ≡ some owner
          → str_eq (split_pending_owner owner).1 id ≡ false)

  pub record IsGuarded (s : System redis) : Type 0 where
    pub claims : IsClaimed redis s.queue
    pub registering :
        (id : String) (t : TimedIntent) (b : Bool)
        → find id s.registrations ≡ some (t, b)
        → IsRegistering s.queue t id
    pub refused :
        (round_id : String) (ks : List String) (k : String)
        → find round_id s.settled ≡ some ks
        → names k ks ≡ true
        → IsRefused s round_id k
    pub written : All (λ e. e.1 ≡ true → IsWritten s e.0) s.sessions.inflight_batches
    pub releasing : (round_id : String) → names round_id s.to_release ≡ true → IsWritten s round_id
    pub alone : s.held ≡ true → s.registrations ≡ []

  module _ (s : System redis) (inv : IsGuarded s) where
    -- What awaits its release is in the queue of no intent.
    pub belongs-IsUnqueued :
        (round_id k : String)
        → belongs round_id (hget k s.queue.vtxos_to_remove) ≡ true
        → IsUnqueued s.queue k
    belongs-IsUnqueued round_id k awaits i t h = ground (arith, inv.claims.claimed i t k)

    pub refused-IsUnqueued : (round_id k : String) → IsRefused s round_id k → IsUnqueued s.queue k
    refused-IsUnqueued round_id k (inl awaits) = belongs-IsUnqueued round_id k awaits
    refused-IsUnqueued round_id k (inr (_, out, _)) = out

    pub quiet-IsGuarded :
        (q : Queue redis)
        → IsQuiet redis s.queue q
        → IsClaimed redis q
        → IsGuarded (record s { queue = q })
    quiet-IsGuarded q quiet claims = record {
      claims = claims;
      registering = λ id t b h.
          let (same, out, fresh) = inv.registering id t b h in
          (
            same,
            elim (Option-cases (hget id q.bodies)) [
              | inl e ↦ e
              | inr (u, e) ↦ absurd (ground (arith, quiet.fewer id u e))
            ],
            λ k owner o. elim (quiet.owners k owner o) [
              | inl old ↦ fresh k owner old
              | inr (u, here, e) ↦ ground (arith, eq_iff (split_pending_owner owner).1 id)
            ],
          );
      refused = λ round_id ks k h m. elim (inv.refused round_id ks k h m) [
        | inl awaits ↦ inl (rw (quiet.others k (belongs-IsUnqueued round_id k awaits)) awaits)
        | inr (gone, out, unread) ↦ inr (gone, λ i t e. out i t (quiet.fewer i t e), unread)
      ];
      written = inv.written;
      releasing = inv.releasing;
      alone = inv.alone;
    }

    module _ (id : String) (t : TimedIntent)
        (ready : find id s.registrations ≡ some (t, true)) where
      -- A push that succeeds has no input that an ended batch settled.
      pub push-unsettled :
          (q : Queue redis) (round_id k : String)
          → push redis t s.queue ≡ ok q
          → IsRefused s round_id k
          → names k (keys_of t) ≡ false
      push-unsettled q round_id k pushed (inr (gone, out, unread)) = unread id t ready
      push-unsettled q round_id k pushed (inl awaits) =
          let (same, out, fresh) = inv.registering id t true ready in
          let (new, passed, e) = push-eq-ok redis s.queue q t pushed in
          elim (Option-cases (hget k s.queue.vtxos_to_remove)) [
            | inl none_awaits ↦ absurd (ground arith)
            | inr (owner, o) ↦ ground (
              arith,
              check_keys-none redis s.queue t.intent.id (keys_of t) k passed,
              inv.claims.held k owner o,
              fresh k owner o,
            )
          ]
