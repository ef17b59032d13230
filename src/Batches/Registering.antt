-- ===== src/Batches/Registering.antt =====
-- The steps of a registration keep what holds (RegisterIntent in internal/core/application/service.go).
use arkd.Base.{
  ◌≡◌, refl, sym, subst, inl, inr, String, Bool, true, false, some, str_eq, eq_iff, arith,
  Bool-cases,
}
use arkd.Base.Maps.{insert, find, remove, find-insert_any, find-remove_any}
use arkd.Base.Results.{ok, Result-cases}
use arkd.Intents.Redis.{Redis, names, hget-hdel_all}
use arkd.Intents.Queue.{TimedIntent, keys_of, Queue, queued, push}
use arkd.Intents.Claims.{IsClaimed, push-eq-ok, push-IsClaimed}
use arkd.Intents.Runs.{kept_or}
use arkd.Batches.Protocol.{System, IsNewIntent}
use arkd.Batches.Kept.{IsRegistering, IsGuarded, push-unsettled}

module _ (redis : Redis) where
  open redis use {hget, hget-hset}

  module _ (s : System redis) (inv : IsGuarded redis s) where
    -- A registration that is over leaves the others as they are.
    pub end-IsGuarded :
        (id : String) → IsGuarded redis (record s { registrations = remove id s.registrations })
    end-IsGuarded id = record {
      claims = inv.claims;
      registering =
          λ i t b h. inv.registering i t b (ground (arith, find-remove_any i id s.registrations));
      refused = λ round_id ks k h m. elim (inv.refused round_id ks k h m) [
        | inl awaits ↦ inl awaits
        | inr (gone, out, unread) ↦
            inr (
              gone,
              out,
              λ i t e. unread i t (ground (arith, find-remove_any i id s.registrations)),
            )
      ];
      written = inv.written;
      releasing = inv.releasing;
      alone = λ h. rw (inv.alone h) refl;
    }

    pub begin-IsGuarded :
        (t : TimedIntent)
        → s.held ≡ false
        → IsNewIntent redis t.intent.id s
        → IsGuarded redis
            (record s { registrations = insert t.intent.id (t, false) s.registrations })
    begin-IsGuarded t free new = record {
      claims = inv.claims;
      registering = λ i u b h. elim (Bool-cases (str_eq t.intent.id i)) [
        | inl own ↦
            let e : t.intent.id ≡ i = (eq_iff t.intent.id i).0 own in
            subst (IsRegistering redis s.queue u) e (
              ground (arith, find-insert_any i t.intent.id (t, false) s.registrations),
              new.not_queued,
              new.no_owner,
            )
        | inr other ↦
            inv.registering i u b
              (ground (arith, find-insert_any i t.intent.id (t, false) s.registrations))
      ];
      refused = λ round_id ks k h m. elim (inv.refused round_id ks k h m) [
        | inl awaits ↦ inl awaits
        | inr (gone, out, unread) ↦ inr (
          gone,
          out,
          λ i u e.
              unread i u (ground (arith, find-insert_any i t.intent.id (t, false) s.registrations)),
        )
      ];
      written = inv.written;
      releasing = inv.releasing;
      alone = λ h. absurd (cc (free, h));
    }

    pub read-IsGuarded :
        (id : String) (t : TimedIntent) (again : Bool)
        → find id s.registrations ≡ some (t, again)
        → ((k : String) → names k (keys_of t) ≡ true → names k s.spent ≡ false)
        → IsGuarded redis (record s { registrations = insert id (t, true) s.registrations })
    read-IsGuarded id t again here unspent = record {
      claims = inv.claims;
      registering = λ i u b h. elim (Bool-cases (str_eq id i)) [
        | inl own ↦
            let (same, out, fresh) = inv.registering id t again here in
            subst (IsRegistering redis s.queue u) ((eq_iff id i).0 own)
              (ground (arith, find-insert_any i id (t, true) s.registrations), out, fresh)
        | inr other ↦
            inv.registering i u b (ground (arith, find-insert_any i id (t, true) s.registrations))
      ];
      refused = λ round_id ks k h m. elim (inv.refused round_id ks k h m) [
        | inl awaits ↦ inl awaits
        | inr (gone, out, unread) ↦ inr (
          gone,
          out,
          λ i u e.
              ground (arith, unread i u, unspent k, find-insert_any i id (t, true) s.registrations),
        )
      ];
      written = inv.written;
      releasing = inv.releasing;
      alone = λ h. absurd (cc (subst (λ l. find id l ≡ some (t, again)) (inv.alone h) here));
    }

    module _ (id : String) (t : TimedIntent)
        (ready : find id s.registrations ≡ some (t, true)) where
      -- The queue after a push that succeeds.
      queued-IsGuarded :
          (q : Queue redis)
          → push redis t s.queue ≡ ok q
          → IsGuarded redis (record s {
            queue = queued redis t s.queue;
            registrations = remove id s.registrations;
          })
      queued-IsGuarded q pushed = record {
        claims =
            subst (λ r. IsClaimed redis r) (sym e)
              (push-IsClaimed redis s.queue q t inv.claims pushed);
        registering = λ i u b h.
            let (mine, out, fresh) =
              inv.registering i u b (ground (arith, find-remove_any i id s.registrations)) in
            (
              mine,
              ground (
                arith,
                hget-hset i t.intent.id t s.queue.bodies,
                find-remove_any i id s.registrations,
                (inv.registering id t true ready).0,
              ),
              λ k owner o.
                  fresh k owner
                    (ground (arith, hget-hdel_all redis k (keys_of t) s.queue.vtxos_to_remove)),
            );
        refused = λ round_id ks k h m.
            let was = inv.refused round_id ks k h m in
            let other = push-unsettled redis s inv id t ready q round_id k pushed was in
            elim was [
              | inl awaits ↦
                  inl (ground (arith, hget-hdel_all redis k (keys_of t) s.queue.vtxos_to_remove))
              | inr (gone, out, unread) ↦ inr (
                gone,
                λ i u e. ground (arith, out i u, hget-hset i t.intent.id t s.queue.bodies),
                λ i u e. unread i u (ground (arith, find-remove_any i id s.registrations)),
              )
            ];
        written = inv.written;
        releasing = inv.releasing;
        alone = λ h. rw (inv.alone h) refl;
      }
        where
          e : queued redis t s.queue ≡ q
          e = (push-eq-ok redis s.queue q t pushed).2

      pub pushed-IsGuarded : IsGuarded redis (record s {
        queue = kept_or redis s.queue (push redis t s.queue);
        registrations = remove id s.registrations;
      })
      pushed-IsGuarded = elim (Result-cases (push redis t s.queue)) [
        | inl (q, e) ↦ rw (e, sym (push-eq-ok redis s.queue q t e).2) (queued-IsGuarded q e)
        | inr (x, e) ↦ rw e (end-IsGuarded id)
      ]
