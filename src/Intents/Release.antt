-- ===== src/Intents/Release.antt =====
-- What the release of a batch's inputs frees (internal/infrastructure/live-store/redis/intents.go).
use arkd.Base.{
  ◌≡◌, refl, String, Bool, false, not, ◌&&◌, ◌||◌, List, [], ◌∷◌, Option, none, some, str_eq,
  eq_iff, if◌then◌else◌, All, arith, Option-cases, inl, inr,
}
use arkd.Base.Int.{ℤ}
use arkd.Base.Maps.{find}
use arkd.Intents.Owner.{
  has_sep, pending_owner, split_pending_owner, split_pending_owner-pending_owner,
}
use arkd.Intents.Redis.{Redis, names, sismember-srem_all, hget-hdel_all, hget-hset_all}
use arkd.Intents.Queue.{
  TimedIntent, keys_of, Queue, pop_one, pop_each, to_pop, pop, taken_for, delete_vtxos,
}

-- Whether an input awaits its release by the batch.
abbrev pub belongs : String → Option String → Bool
belongs round_id none = false
belongs round_id (some owner) = str_eq (split_pending_owner owner).0 round_id

abbrev pub names_any : String → List TimedIntent → Bool
names_any k [] = false
names_any k (t ∷ ts) = names k (keys_of t) || names_any k ts

module _ (redis : Redis) where
  open redis use {sismember, Hash, hget, hgetall, find-hgetall, hget_all}

  find-hget :
      (h : Hash String) (k owner : String) (es : List (String × String))
      → All (λ e. hget e.0 h ≡ some e.1) es
      → find k es ≡ some owner
      → hget k h ≡ some owner
  find-hget h k owner [] each f = absurd (ground arith)
  find-hget h k owner ((j, o) ∷ es) (e, each) f =
      ground (arith, find-hget h k owner es each, eq_iff j k)

  names-taken_for :
      (h : Hash String) (round_id k : String) (es : List (String × String))
      → All (λ e. hget e.0 h ≡ some e.1) es
      → names k (taken_for redis round_id es) ≡ belongs round_id (find k es)
  unfolding taken_for
  names-taken_for h round_id k [] each = refl
  names-taken_for h round_id k ((j, o) ∷ es) (e, each) = elim (Option-cases (find k es)) [
    | inl last ↦ ground (arith, names-taken_for h round_id k es each, eq_iff j k)
    | inr (owner, again) ↦
        ground (
          arith,
          names-taken_for h round_id k es each,
          find-hget h k owner es each again,
          eq_iff j k,
        )
  ]

  -- The inputs that a release frees are those that await it by the batch.
  pub names-taken_for_hgetall :
      (h : Hash String) (round_id k : String)
      → names k (taken_for redis round_id (hgetall h)) ≡ belongs round_id (hget k h)
  names-taken_for_hgetall h round_id k =
      rw (names-taken_for h round_id k (hgetall h) (hget_all h), find-hgetall k h) refl

  pub sismember-delete_vtxos :
      (k round_id : String) (q : Queue redis)
      → sismember k (delete_vtxos redis round_id q).vtxos
        ≡ (not (belongs round_id (hget k q.vtxos_to_remove)) && sismember k q.vtxos)
  unfolding delete_vtxos
  sismember-delete_vtxos k round_id q =
      rw
        (sismember-srem_all redis k _ q.vtxos, names-taken_for_hgetall q.vtxos_to_remove round_id k)
        refl

  pub hget-delete_vtxos :
      (k round_id : String) (q : Queue redis)
      → hget k (delete_vtxos redis round_id q).vtxos_to_remove
        ≡ (if belongs round_id (hget k q.vtxos_to_remove) then none else hget k q.vtxos_to_remove)
  unfolding delete_vtxos
  hget-delete_vtxos k round_id q =
      rw
        (
          hget-hdel_all redis k _ q.vtxos_to_remove,
          names-taken_for_hgetall q.vtxos_to_remove round_id k,
        )
        refl

  -- After a batch took intents, an input awaits its release by this batch if one of them has it, and
  -- otherwise if it did before.
  belongs-pop_each :
      (k round_id : String) (ts : List TimedIntent) (q : Queue redis)
      → has_sep round_id ≡ false
      → belongs round_id (hget k (pop_each redis round_id ts q).vtxos_to_remove)
        ≡ (names_any k ts || belongs round_id (hget k q.vtxos_to_remove))
  unfolding pop_each
  belongs-pop_each k round_id [] q plain = refl
  belongs-pop_each k round_id (t ∷ ts) q plain = ground (
    arith,
    belongs-pop_each k round_id ts (pop_one redis round_id t q) plain,
    hget-hset_all redis k (keys_of t) (pending_owner round_id t.intent.id) q.vtxos_to_remove,
    split_pending_owner-pending_owner round_id t.intent.id plain,
    eq_iff round_id round_id,
  )

  vtxos-pop_each :
      (round_id : String) (ts : List TimedIntent) (q : Queue redis)
      → (pop_each redis round_id ts q).vtxos ≡ q.vtxos
  unfolding pop_each
  vtxos-pop_each round_id [] q = refl
  vtxos-pop_each round_id (t ∷ ts) q = vtxos-pop_each round_id ts (pop_one redis round_id t q)

  -- When a batch takes intents and is released, the inputs of these intents are free, and so are
  -- those that awaited the release by this batch before; any other input is claimed as before. The
  -- id of the batch has no separator.
  pub sismember-delete_vtxos-pop :
      (k round_id : String) (num : ℤ) (q : Queue redis)
      → has_sep round_id ≡ false
      → sismember k (delete_vtxos redis round_id (pop redis num round_id q).1).vtxos ≡ (
          not (
            names_any k (pop redis num round_id q).0 || belongs round_id (hget k q.vtxos_to_remove))
          && sismember k q.vtxos)
  unfolding pop
  sismember-delete_vtxos-pop k round_id num q plain =
      let ts = to_pop redis num q in
      rw
        (
          sismember-delete_vtxos k round_id _,
          belongs-pop_each k round_id ts q plain,
          vtxos-pop_each round_id ts q,
        )
        refl
