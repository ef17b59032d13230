-- ===== src/Broker/Gone.antt =====
-- Attachments and timers that no operation of internal/interface/grpc/handlers/broker.go brings back.
use arkd.Base.{
  ℕ, suc, ◌<◌, ◌≡◌, ◌∙◌, refl, ap, subst, String, false, not, ◌&&◌, ◌||◌, List, [], none, some,
  arith, Bool-cases, Option-cases, inl, inr, ltb, leb, is_nil, length,
}
use arkd.Base.Results.{Result, Result-cases}
use arkd.Base.Maps.{insert, has, find, find-insert, find-remove}
use arkd.Broker.{
  BrokerError, Listener, Broker, max_topics_per_listener, max_listeners, is_current, is_attached,
  discard, push_listener, remove_listener, attach, release, start_timeout, expire, change, Call,
  or_same, attached_or_same, step, add_all, remove_all, new_listener,
}
use arkd.Broker.Streams.{key_of, Keeps, total-Keeps, with_topics-Keeps}

-- A number that was given, and is neither the attachment nor the timer of a listener.
pub record IsStale {F : Type 0} (n : ℕ) (id : String) (h : Broker F) : Type 0 where
  pub given : n < h.next
  pub gone :
      (l : Listener F)
      → find id h.listeners ≡ some l
      → (is_current n l.attached ≡ false) × (is_current n l.timeout_timer ≡ false)

module _ {F : Type 0} (n : ℕ) (id : String) where
  pub put-IsStale :
      (v : Listener F) (m : List (String × Listener F)) (next : ℕ)
      → n < next
      → is_current n v.attached ≡ false
      → is_current n v.timeout_timer ≡ false
      → IsStale n id (record { listeners = insert id v m; next = next })
  put-IsStale v m next given a t = record {
    given = given;
    gone = λ l e.
        let v_is : v ≡ l = ground (arith, find-insert id v m, e) in
        subst
          (λ (x : Listener F).
            (is_current n x.attached ≡ false) × (is_current n x.timeout_timer ≡ false))
          v_is (a, t);
  }

  discard-IsStale : (h : Broker F) → n < h.next → IsStale n id (discard id h)
  discard-IsStale h given = record {
    given = given;
    gone = λ l e. absurd (ground (arith, find-remove id h.listeners, e));
  }

module _ {F : Type 0} (n : ℕ) (id : String) (h : Broker F) (i : IsStale n id h) where
  push-IsStale :
      (l : Listener F)
      → l.attached ≡ none
      → l.timeout_timer ≡ none
      → IsStale n id (or_same h (push_listener id l h))
  unfolding push_listener
  push-IsStale l a t = elim (Bool-cases (ltb max_topics_per_listener (length l.topics))) [
    | inl over ↦ rw over i
    | inr within ↦
        elim (Bool-cases (not (has id h.listeners) && leb max_listeners (length h.listeners))) [
          | inl full ↦ rw (within, full) i
          | inr room ↦
              rw (within, room)
                (put-IsStale n id l h.listeners h.next i.given (ap (is_current n) a)
                  (ap (is_current n) t))
        ]
  ]

  attach-IsStale : IsStale n id (attached_or_same h (attach id h))
  unfolding attach
  attach-IsStale = elim (Option-cases (find id h.listeners)) [
    | inl e ↦ rw e i
    | inr (l, e) ↦ rw e (
        put-IsStale n id (record l { timeout_timer = none; attached = some h.next }) h.listeners
          (suc h.next) (omega (arith, i.given)) (ground (arith, i.given)) refl)
  ]

  release-IsStale : (att window : ℕ) → IsStale n id (release id att window h).1
  unfolding release
  release-IsStale att window = elim (Option-cases (find id h.listeners)) [
    | inl e ↦ rw e i
    | inr (l, e) ↦ elim (Bool-cases (is_current att l.attached)) [
      | inr theirs ↦ rw (e, theirs) i
      | inl ours ↦
          let kept =
            put-IsStale n id (record l { attached = none; timeout_timer = some h.next }) h.listeners
              (suc h.next) (omega (arith, i.given)) refl (ground (arith, i.given)) in
          elim (Bool-cases (ltb 0 window && (not (is_nil l.topics) || not (is_nil l.tx_filters)))) [
            | inl waits ↦ rw (e, ours, waits) kept
            | inr gone ↦ rw (e, ours, gone) (discard-IsStale n id h i.given)
          ]
    ]
  ]

  start-IsStale : IsStale n id (start_timeout id h)
  unfolding start_timeout
  start-IsStale = elim (Option-cases (find id h.listeners)) [
    | inl e ↦ rw e i
    | inr (l, e) ↦ elim (Bool-cases (is_attached l.attached)) [
      | inl busy ↦ rw (e, busy) i
      | inr idle ↦
          rw (e, idle)
            (put-IsStale n id (record l { timeout_timer = some h.next }) h.listeners (suc h.next)
              (omega (arith, i.given)) (i.gone l e).0 (ground (arith, i.given)))
    ]
  ]

  expire-IsStale : (timer : ℕ) → IsStale n id (expire id timer h)
  unfolding expire
  expire-IsStale timer = elim (Option-cases (find id h.listeners)) [
    | inl e ↦ rw e i
    | inr (l, e) ↦ elim (Bool-cases (is_current timer l.timeout_timer)) [
      | inl ours ↦ rw (e, ours) (discard-IsStale n id h i.given)
      | inr theirs ↦ rw (e, theirs) i
    ]
  ]

  change-IsStale :
      (f : Listener F → Result BrokerError (Listener F))
      → Keeps f
      → IsStale n id (or_same h (change id f h))
  unfolding change Keeps
  change-IsStale f keeps = elim (Option-cases (find id h.listeners)) [
    | inl e ↦ rw e i
    | inr (l, e) ↦ elim (Result-cases (f l)) [
      | inr (x, e') ↦ rw (e, e') i
      | inl (l', e') ↦
          let (timer, att) = keeps l l' e' in
          rw (e, e')
            (put-IsStale n id l' h.listeners h.next i.given (ap (is_current n) att ∙ (i.gone l e).0)
              (ap (is_current n) timer ∙ (i.gone l e).1))
    ]
  ]

module _ (format_topic : String → String) {F : Type 0} (n : ℕ) where
  pub same_step :
      (c : Call F) (h : Broker F)
      → IsStale n (key_of c) h
      → IsStale n (key_of c) (step format_topic c h)
  unfolding step remove_listener new_listener
  same_step (Call.pushes id topics fs) h i = push-IsStale n id h i _ refl refl
  same_step (Call.removes id) h i = discard-IsStale n id h i.given
  same_step (Call.attaches id) h i = attach-IsStale n id h i
  same_step (Call.releases id m window) h i = release-IsStale n id h i m window
  same_step (Call.starts id) h i = start-IsStale n id h i
  same_step (Call.expires id timer) h i = expire-IsStale n id h i timer
  same_step (Call.adds id topics) h i =
      change-IsStale n id h i _
        (with_topics-Keeps (λ l. add_all format_topic topics l.topics) format_topic)
  same_step (Call.takes id topics) h i = change-IsStale n id h i _ (
      total-Keeps (λ l. record l { topics = remove_all format_topic topics l.topics }) (λ l. refl)
        (λ l. refl))
  same_step (Call.overwrites id topics) h i =
      change-IsStale n id h i _
        (with_topics-Keeps (λ l. add_all format_topic topics []) format_topic)
  same_step (Call.filters id fs) h i =
      change-IsStale n id h i _
        (total-Keeps (λ l. record l { tx_filters = fs }) (λ l. refl) (λ l. refl))
