-- ===== src/Broker/Streams.antt =====
-- The streams that hold a listener, and the timers that remove one
-- (internal/interface/grpc/handlers/broker.go).
use arkd.Base.{
  ℕ, ◌≡◌, refl, subst, String, false, not, ◌&&◌, ◌||◌, ltb, leb, is_nil, str_eq, length, arith,
  Bool-cases, Option-cases, inl, inr,
}
use arkd.Base.Results.{Result, ok, Result-cases}
use arkd.Base.Maps.{has, find, find-insert_other, find-remove_other}
use arkd.Broker.{
  BrokerError, Topics, Listener, Broker, max_topics_per_listener, max_listeners, with_topics,
  is_current, is_attached, push_listener, remove_listener, attach, release, start_timeout, expire,
  change, Call, or_same, attached_or_same, step,
}

-- The listener that a call is about.
abbrev pub key_of : {F : Type 0} → Call F → String
key_of (Call.pushes id topics fs) = id
key_of (Call.removes id) = id
key_of (Call.attaches id) = id
key_of (Call.releases id att window) = id
key_of (Call.starts id) = id
key_of (Call.expires id timer) = id
key_of (Call.adds id topics) = id
key_of (Call.takes id topics) = id
key_of (Call.overwrites id topics) = id
key_of (Call.filters id fs) = id

module _ {F : Type 0} (k id : String) (other : str_eq k id ≡ false) where
  -- The operations on a listener leave every other one.
  push_other :
      (l : Listener F) (h : Broker F)
      → find id (or_same h (push_listener k l h)).listeners ≡ find id h.listeners
  unfolding push_listener
  push_other l h = elim (Bool-cases (ltb max_topics_per_listener (length l.topics))) [
    | inl over ↦ rw over refl
    | inr within ↦
        elim (Bool-cases (not (has k h.listeners) && leb max_listeners (length h.listeners))) [
          | inl full ↦ rw (within, full) refl
          | inr room ↦ rw (within, room) (find-insert_other k id l h.listeners other)
        ]
  ]

  attach_other :
      (h : Broker F) → find id (attached_or_same h (attach k h)).listeners ≡ find id h.listeners
  unfolding attach
  attach_other h = elim (Option-cases (find k h.listeners)) [
    | inl e ↦ rw e refl
    | inr (l, e) ↦ rw e (find-insert_other k id _ h.listeners other)
  ]

  release_other :
      (att window : ℕ) (h : Broker F)
      → find id (release k att window h).1.listeners ≡ find id h.listeners
  unfolding release
  release_other att window h = elim (Option-cases (find k h.listeners)) [
    | inl e ↦ rw e refl
    | inr (l, e) ↦ elim (Bool-cases (is_current att l.attached)) [
      | inr theirs ↦ rw (e, theirs) refl
      | inl ours ↦
          elim (Bool-cases (ltb 0 window && (not (is_nil l.topics) || not (is_nil l.tx_filters)))) [
            | inl waits ↦ rw (e, ours, waits) (find-insert_other k id _ h.listeners other)
            | inr gone ↦ rw (e, ours, gone) (find-remove_other k id h.listeners other)
          ]
    ]
  ]

  start_other : (h : Broker F) → find id (start_timeout k h).listeners ≡ find id h.listeners
  unfolding start_timeout
  start_other h = elim (Option-cases (find k h.listeners)) [
    | inl e ↦ rw e refl
    | inr (l, e) ↦ elim (Bool-cases (is_attached l.attached)) [
      | inl busy ↦ rw (e, busy) refl
      | inr idle ↦ rw (e, idle) (find-insert_other k id _ h.listeners other)
    ]
  ]

  expire_other :
      (timer : ℕ) (h : Broker F) → find id (expire k timer h).listeners ≡ find id h.listeners
  unfolding expire
  expire_other timer h = elim (Option-cases (find k h.listeners)) [
    | inl e ↦ rw e refl
    | inr (l, e) ↦ elim (Bool-cases (is_current timer l.timeout_timer)) [
      | inl ours ↦ rw (e, ours) (find-remove_other k id h.listeners other)
      | inr theirs ↦ rw (e, theirs) refl
    ]
  ]

  change_other :
      (f : Listener F → Result BrokerError (Listener F)) (h : Broker F)
      → find id (or_same h (change k f h)).listeners ≡ find id h.listeners
  unfolding change
  change_other f h = elim (Option-cases (find k h.listeners)) [
    | inl e ↦ rw e refl
    | inr (l, e) ↦ elim (Result-cases (f l)) [
      | inr (x, e') ↦ rw (e, e') refl
      | inl (l', e') ↦ rw (e, e') (find-insert_other k id l' h.listeners other)
    ]
  ]

module _ (format_topic : String → String) {F : Type 0} where
  pub step_other :
      (c : Call F) (id : String) (h : Broker F)
      → str_eq (key_of c) id ≡ false
      → find id (step format_topic c h).listeners ≡ find id h.listeners
  unfolding step remove_listener
  step_other (Call.pushes k topics fs) id h other = push_other k id other _ h
  step_other (Call.removes k) id h other = find-remove_other k id h.listeners other
  step_other (Call.attaches k) id h other = attach_other k id other h
  step_other (Call.releases k att window) id h other = release_other k id other att window h
  step_other (Call.starts k) id h other = start_other k id other h
  step_other (Call.expires k timer) id h other = expire_other k id other timer h
  step_other (Call.adds k topics) id h other = change_other k id other _ h
  step_other (Call.takes k topics) id h other = change_other k id other _ h
  step_other (Call.overwrites k topics) id h other = change_other k id other _ h
  step_other (Call.filters k fs) id h other = change_other k id other _ h

-- A change of a listener that keeps its stream and its timer.
unfoldable pub Keeps : {F : Type 0} → (Listener F → Result BrokerError (Listener F)) → Type 0
Keeps {F} f =
    (l l' : Listener F)
    → f l ≡ ok l'
    → (l'.timeout_timer ≡ l.timeout_timer) × (l'.attached ≡ l.attached)

module _ {F : Type 0} where
  pub total-Keeps :
      (g : Listener F → Listener F)
      → ((l : Listener F) → (g l).timeout_timer ≡ l.timeout_timer)
      → ((l : Listener F) → (g l).attached ≡ l.attached)
      → Keeps (λ l. ok (g l))
  unfolding Keeps
  total-Keeps g timer att l l' e =
      let l'_is : g l ≡ l' = ground (arith, e) in
      subst (λ (x : Listener F). (x.timeout_timer ≡ l.timeout_timer) × (x.attached ≡ l.attached))
        l'_is (timer l, att l)

  pub with_topics-Keeps :
      (s : Listener F → Topics) (fmt : String → String) → Keeps (λ l. with_topics fmt (s l) l)
  unfolding Keeps
  with_topics-Keeps s fmt l l' e = elim (Bool-cases (ltb max_topics_per_listener (length (s l)))) [
    | inl over ↦ absurd (ground (arith, e, over))
    | inr within ↦
        let l'_is : record l { topics = s l } ≡ l' = ground (arith, e, within) in
        subst (λ (x : Listener F). (x.timeout_timer ≡ l.timeout_timer) × (x.attached ≡ l.attached))
          l'_is (refl, refl)
  ]
