-- ===== src/Batches/Settled.antt =====
-- No input that a batch settled is registered again, whatever the order of the steps
-- (internal/core/application/service.go).
use arkd.Base.{
  ◌≡◌, subst, ◌⊎◌, inl, inr, String, Bool, true, false, List, [], none, some, eq_iff, arith,
  Bool-cases, Option-cases,
}
use arkd.Base.Maps.{find}
use arkd.Intents.Owner.{split_pending_owner}
use arkd.Intents.Redis.{Redis, names}
use arkd.Intents.Queue.{TimedIntent, keys_of, delete_vtxos}
use arkd.Intents.Release.{belongs, hget-delete_vtxos}
use arkd.Intents.Taken.{delete_intents-IsClaimed}
use arkd.Intents.Runs.{pop-IsClaimed, delete_vtxos-IsClaimed}
use arkd.Intents.Effects.{pop-IsQuiet, delete_intents-IsQuiet}
use arkd.Batches.Protocol.{
  System, Step, begin_registration, reads_unspent, pushes, end_registration, deletes, takes, ends,
  projects, handles, waits, holds, releases, resumes, Reach, at_start, later,
}
use arkd.Batches.Kept.{
  IsWritten, IsGuarded, quiet-IsGuarded, belongs-IsUnqueued, refused-IsUnqueued,
}
use arkd.Batches.Registering.{end-IsGuarded, begin-IsGuarded, read-IsGuarded, pushed-IsGuarded}
use arkd.Batches.Ended.{
  at_first-IsGuarded, ended-IsGuarded, projected-IsGuarded, handled-IsGuarded, waited-IsGuarded,
}

module _ (redis : Redis) where
  open redis use {hget}

  module _ (s : System redis) (inv : IsGuarded redis s) where
    released-IsGuarded :
        (round_id : String)
        → s.held ≡ true
        → (names round_id s.to_release ≡ true) ⊎ (find round_id s.settled ≡ none)
        → IsGuarded redis (record s { queue = delete_vtxos redis round_id s.queue })
    released-IsGuarded round_id held may = record {
      claims = delete_vtxos-IsClaimed redis round_id s.queue inv.claims;
      registering = λ id t b h.
          let (mine, out, fresh) = inv.registering id t b h in
          (
            mine,
            unfold delete_vtxos in out,
            λ k owner o. fresh k owner (ground (arith, hget-delete_vtxos redis k round_id s.queue)),
          );
      refused = λ id ks k h m. elim (inv.refused id ks k h m) [
        | inr (gone, out, unread) ↦ inr (gone, unfold delete_vtxos in out, unread)
        | inl awaits ↦ elim (Bool-cases (belongs round_id (hget k s.queue.vtxos_to_remove))) [
          | inr other ↦ inl (ground (arith, hget-delete_vtxos redis k round_id s.queue))
          | inl own ↦ inr (
            spent_of id ks k h m (same_round id k awaits own),
            unfold delete_vtxos in belongs-IsUnqueued redis s inv id k awaits,
            λ i t e. absurd (cc (subst (λ l. find i l ≡ some (t, true)) (inv.alone held) e)),
          )
        ]
      ];
      written = inv.written;
      releasing = inv.releasing;
      alone = inv.alone;
    }
      where
        same_round :
            (id k : String)
            → belongs id (hget k s.queue.vtxos_to_remove) ≡ true
            → belongs round_id (hget k s.queue.vtxos_to_remove) ≡ true
            → round_id ≡ id
        same_round id k mine own = elim (Option-cases (hget k s.queue.vtxos_to_remove)) [
          | inl e ↦ absurd (ground arith)
          | inr (owner, e) ↦ ground (
            arith,
            eq_iff (split_pending_owner owner).0 id,
            eq_iff (split_pending_owner owner).0 round_id,
          )
        ]

        spent_of :
            (id : String) (ks : List String) (k : String)
            → find id s.settled ≡ some ks
            → names k ks ≡ true
            → round_id ≡ id
            → names k s.spent ≡ true
        spent_of id ks k h m e = elim may [
          | inl listed ↦
              let (js, ended, spent) = inv.releasing round_id listed in spent k (ground arith)
          | inr open_batch ↦ absurd (ground arith)
        ]

  same_but_lock :
      (s : System redis)
      → IsGuarded redis s
      → (held : Bool) (to_release : List String) → (held ≡ true → s.registrations ≡ [])
      → ((id : String) → names id to_release ≡ true → IsWritten redis s id)
      → IsGuarded redis (record s { held = held; to_release = to_release })
  same_but_lock s inv held to_release alone releasing = record {
    claims = inv.claims;
    registering = inv.registering;
    refused = inv.refused;
    written = inv.written;
    releasing = releasing;
    alone = alone;
  }

  Step-IsGuarded : {s t : System redis} → Step redis s t → IsGuarded redis s → IsGuarded redis t
  Step-IsGuarded {s} (begin_registration t free new) inv = begin-IsGuarded redis s inv t free new
  Step-IsGuarded {s} (reads_unspent id t again here unspent) inv =
      read-IsGuarded redis s inv id t again here unspent
  Step-IsGuarded {s} (pushes id t ready) inv = pushed-IsGuarded redis s inv id t ready
  Step-IsGuarded {s} (end_registration id) inv = end-IsGuarded redis s inv id
  Step-IsGuarded {s} (deletes ids) inv =
      quiet-IsGuarded redis s inv _ (delete_intents-IsQuiet redis ids s.queue)
        (delete_intents-IsClaimed redis ids s.queue inv.claims)
  Step-IsGuarded {s} (takes num round_id plain open_batch) inv =
      quiet-IsGuarded redis s inv _ (pop-IsQuiet redis num round_id s.queue plain inv.claims)
        (pop-IsClaimed redis num round_id s.queue inv.claims)
  Step-IsGuarded {s} (ends r ks ended new took) inv = ended-IsGuarded redis s inv r ks new took
  Step-IsGuarded {s} (projects id ks ended) inv = projected-IsGuarded redis s inv ks
  Step-IsGuarded {s} (handles id ks ended spent) inv =
      handled-IsGuarded redis s inv id ks ended spent
  Step-IsGuarded {s} waits inv = waited-IsGuarded redis s inv
  Step-IsGuarded {s} (holds free none_left) inv =
      same_but_lock s inv true s.to_release (λ h. none_left) inv.releasing
  Step-IsGuarded {s} (releases id held may) inv = released-IsGuarded s inv id held may
  Step-IsGuarded {s} resumes inv =
      same_but_lock s inv false [] (λ h. absurd (cc h)) (λ id h. absurd (cc h))

  Reach-IsGuarded : {s : System redis} → Reach redis s → IsGuarded redis s
  Reach-IsGuarded at_start = at_first-IsGuarded redis
  Reach-IsGuarded (later r st) = Step-IsGuarded st (Reach-IsGuarded r)

  -- However registrations, deletions of some intents, batches, projections and releases interleave, an
  -- input that an ended batch settled is no input of an intent in the queue, and it awaits its release
  -- by this batch until it reads as spent. The ids of registered intents are new, the ids of batches
  -- have no separator, and a batch settles inputs that await their release by it when it ends.
  pub Reach-settled :
      {s : System redis} (round_id : String) (ks : List String) (k : String)
      → Reach redis s
      → find round_id s.settled ≡ some ks
      → names k ks ≡ true
      → (¬ (
          (id : String) × (t : TimedIntent) × (hget id s.queue.bodies ≡ some t)
          × (names k (keys_of t) ≡ true)))
        × ((belongs round_id (hget k s.queue.vtxos_to_remove) ≡ true) ⊎ (names k s.spent ≡ true))
  Reach-settled {s} round_id ks k r h m =
      let inv = Reach-IsGuarded r in
      let was = inv.refused round_id ks k h m in
      (
        λ (id, t, here, named).
            ground (arith, refused-IsUnqueued redis s inv round_id k was id t here, named),
        elim was [ inl a ↦ inl a | inr (gone, _, _) ↦ inr gone ],
      )
