-- ===== src/Batches/Ended.antt =====
-- The end of a batch, its projection and the wait for it keep what holds
-- (internal/core/application/service.go and batch_session_manager.go).
use arkd.Base.{
  ◌≡◌, refl, inl, inr, String, true, List, ◌++◌, none, some, str_eq, eq_iff, arith, Bool-cases,
}
use arkd.Base.Maps.{insert, find, find-insert_any}
use arkd.Domain.Round.{Round}
use arkd.Intents.Redis.{Redis, names}
use arkd.Intents.Release.{belongs}
use arkd.Intents.Claims.{empty_queue-IsClaimed}
use arkd.Batches.Inflight.{
  names-append, Each-track, Each-mark, Each-pending_of, Each-projected_of, Each-map,
}
use arkd.Batches.{track, mark_projected, projected_of, forget_projected}
use arkd.Batches.Protocol.{System, at_first}
use arkd.Batches.Kept.{IsWritten, IsGuarded}

module _ (redis : Redis) where
  open redis use {hget, hget-no_fields}

  pub at_first-IsGuarded : IsGuarded redis (at_first redis)
  at_first-IsGuarded = record {
    claims = empty_queue-IsClaimed redis;
    registering = λ id t b h. absurd (cc h);
    refused = λ round_id ks k h m. absurd (cc h);
    written = tt;
    releasing = λ round_id h. absurd (cc h);
    alone = λ h. refl;
  }

  module _ (s : System redis) (inv : IsGuarded redis s) where
    ended-IsWritten :
        (r : Round) (ks : List String) (id : String)
        → find r.id s.settled ≡ none
        → IsWritten redis s id
        → IsWritten redis (record s { settled = insert r.id ks s.settled }) id
    ended-IsWritten r ks id new (js, ended, spent) =
        (js, ground (arith, eq_iff r.id id, find-insert_any id r.id ks s.settled), spent)

    -- A batch that ends settles what it took, which still awaits its release.
    pub ended-IsGuarded :
        (r : Round) (ks : List String)
        → find r.id s.settled ≡ none
        → ((k : String) → names k ks ≡ true → belongs r.id (hget k s.queue.vtxos_to_remove) ≡ true)
        → IsGuarded redis
            (record s { sessions = track (some r) s.sessions; settled = insert r.id ks s.settled })
    ended-IsGuarded r ks new took = record {
      claims = inv.claims;
      registering = inv.registering;
      refused = λ id js k h m. elim (Bool-cases (str_eq r.id id)) [
        | inl own ↦
            inl (ground (arith, took k, eq_iff r.id id, find-insert_any id r.id ks s.settled))
        | inr other ↦ inv.refused id js k (ground (arith, find-insert_any id r.id ks s.settled)) m
      ];
      written =
          Each-map (IsWritten redis s) _ _ (λ id. ended-IsWritten r ks id new)
            (Each-track (IsWritten redis s) (some r) s.sessions inv.written);
      releasing = λ id h. ended-IsWritten r ks id new (inv.releasing id h);
      alone = inv.alone;
    }

    pub projected-IsGuarded :
        (ks : List String) → IsGuarded redis (record s { spent = ks ++ s.spent })
    projected-IsGuarded ks = record {
      claims = inv.claims;
      registering = inv.registering;
      refused = λ id js k h m. elim (inv.refused id js k h m) [
        | inl awaits ↦ inl awaits
        | inr (gone, out, unread) ↦ inr (rw (names-append k ks s.spent) (ground arith), out, unread)
      ];
      written = Each-map (IsWritten redis s) _ _ older inv.written;
      releasing = λ id h. older id (inv.releasing id h);
      alone = inv.alone;
    }
      where
        older :
            (id : String)
            → IsWritten redis s id
            → IsWritten redis (record s { spent = ks ++ s.spent }) id
        older id (js, ended, spent) =
            (js, ended, λ k m. rw (names-append k ks s.spent) (ground (arith, spent k m)))

    pub handled-IsGuarded :
        (id : String) (ks : List String)
        → find id s.settled ≡ some ks
        → ((k : String) → names k ks ≡ true → names k s.spent ≡ true)
        → IsGuarded redis (record s { sessions = mark_projected id s.sessions })
    handled-IsGuarded id ks ended spent = record {
      claims = inv.claims;
      registering = inv.registering;
      refused = inv.refused;
      written = Each-mark (IsWritten redis s) id s.sessions (ks, ended, spent) inv.written;
      releasing = inv.releasing;
      alone = inv.alone;
    }

    pub waited-IsGuarded : IsGuarded redis (record s {
      sessions = (forget_projected s.sessions).2;
      to_release = s.to_release ++ (forget_projected s.sessions).0;
    })
    unfolding forget_projected
    waited-IsGuarded = record {
      claims = inv.claims;
      registering = inv.registering;
      refused = inv.refused;
      written = Each-pending_of (IsWritten redis s) s.sessions.inflight_batches inv.written;
      releasing = λ id h. elim (Bool-cases (names id s.to_release)) [
        | inl old ↦ inv.releasing id old
        | inr new ↦
            Each-projected_of (IsWritten redis s) s.sessions.inflight_batches id inv.written (
              ground
                (arith, names-append id s.to_release (projected_of s.sessions.inflight_batches)))
      ];
      alone = inv.alone;
    }
