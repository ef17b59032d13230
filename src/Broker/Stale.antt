-- ===== src/Broker/Stale.antt =====
-- Attachments and timers that are not a listener's any more
-- (internal/interface/grpc/handlers/broker.go).
use arkd.Base.{
  ℕ, suc, ◌≤◌, ◌<◌, ◌≡◌, ◌∙◌, refl, sym, subst, String, false, not, ◌&&◌, ◌||◌, List, [], ◌∷◌,
  Option, none, some, str_eq, eq_iff, arith, Bool-cases, Option-cases, inl, inr, ltb, leb, is_nil,
  length,
}
use arkd.Base.Results.{Result, ok, Result-cases}
use arkd.Base.Maps.{insert, has, find}
use arkd.Broker.{
  BrokerError, Listener, Broker, max_topics_per_listener, max_listeners, is_current, is_attached,
  push_listener, remove_listener, attach_to, attach, release, start_timeout, expire, change, Call,
  or_same, attached_or_same, step, run,
}
use arkd.Broker.Streams.{key_of, step_other}
use arkd.Broker.Gone.{IsStale, put-IsStale, same_step}

-- Numbers are not given again.
module _ {F : Type 0} (id : String) (h : Broker F) where
  next-push : (l : Listener F) → (or_same h (push_listener id l h)).next ≡ h.next
  unfolding push_listener
  next-push l = elim (Bool-cases (ltb max_topics_per_listener (length l.topics))) [
    | inl over ↦ rw over refl
    | inr within ↦
        elim (Bool-cases (not (has id h.listeners) && leb max_listeners (length h.listeners))) [
          | inl full ↦ rw (within, full) refl
          | inr room ↦ rw (within, room) refl
        ]
  ]

  next-attach : h.next ≤ (attached_or_same h (attach id h)).next
  unfolding attach
  next-attach = elim (Option-cases (find id h.listeners)) [
    | inl e ↦ rw e (omega arith)
    | inr (l, e) ↦ rw e (omega arith)
  ]

  next-release : (att window : ℕ) → h.next ≤ (release id att window h).1.next
  unfolding release
  next-release att window = elim (Option-cases (find id h.listeners)) [
    | inl e ↦ rw e (omega arith)
    | inr (l, e) ↦ elim (Bool-cases (is_current att l.attached)) [
      | inr theirs ↦ rw (e, theirs) (omega arith)
      | inl ours ↦
          elim (Bool-cases (ltb 0 window && (not (is_nil l.topics) || not (is_nil l.tx_filters)))) [
            | inl waits ↦ rw (e, ours, waits) (omega arith)
            | inr gone ↦ rw (e, ours, gone) (omega arith)
          ]
    ]
  ]

  next-start : h.next ≤ (start_timeout id h).next
  unfolding start_timeout
  next-start = elim (Option-cases (find id h.listeners)) [
    | inl e ↦ rw e (omega arith)
    | inr (l, e) ↦ elim (Bool-cases (is_attached l.attached)) [
      | inl busy ↦ rw (e, busy) (omega arith)
      | inr idle ↦ rw (e, idle) (omega arith)
    ]
  ]

  next-expire : (timer : ℕ) → (expire id timer h).next ≡ h.next
  unfolding expire
  next-expire timer = elim (Option-cases (find id h.listeners)) [
    | inl e ↦ rw e refl
    | inr (l, e) ↦ elim (Bool-cases (is_current timer l.timeout_timer)) [
      | inl ours ↦ rw (e, ours) refl
      | inr theirs ↦ rw (e, theirs) refl
    ]
  ]

  next-change :
      (f : Listener F → Result BrokerError (Listener F)) → (or_same h (change id f h)).next ≡ h.next
  unfolding change
  next-change f = elim (Option-cases (find id h.listeners)) [
    | inl e ↦ rw e refl
    | inr (l, e) ↦ elim (Result-cases (f l)) [
      | inr (x, e') ↦ rw (e, e') refl
      | inl (l', e') ↦ rw (e, e') refl
    ]
  ]

module _ (format_topic : String → String) {F : Type 0} where
  next-step : (c : Call F) (h : Broker F) → h.next ≤ (step format_topic c h).next
  unfolding step remove_listener
  next-step (Call.pushes id topics fs) h = omega (arith, next-push id h _)
  next-step (Call.removes id) h = omega arith
  next-step (Call.attaches id) h = next-attach id h
  next-step (Call.releases id att window) h = next-release id h att window
  next-step (Call.starts id) h = next-start id h
  next-step (Call.expires id timer) h = omega (arith, next-expire id h timer)
  next-step (Call.adds id topics) h = omega (arith, next-change id h _)
  next-step (Call.takes id topics) h = omega (arith, next-change id h _)
  next-step (Call.overwrites id topics) h = omega (arith, next-change id h _)
  next-step (Call.filters id fs) h = omega (arith, next-change id h _)

  step-IsStale :
      (n : ℕ) (c : Call F) (id : String) (h : Broker F)
      → IsStale n id h
      → IsStale n id (step format_topic c h)
  step-IsStale n c id h i = elim (Bool-cases (str_eq (key_of c) id)) [
    | inr other ↦ record {
      given = omega (arith, i.given, next-step c h);
      gone = λ l e. i.gone l (sym (step_other format_topic c id h other) ∙ e);
    }
    | inl same ↦
        let k : key_of c ≡ id = (eq_iff (key_of c) id).0 same in
        let i' = subst (λ (x : String). IsStale n x h) (sym k) i in
        subst (λ (x : String). IsStale n x (step format_topic c h)) k
          (same_step format_topic n c h i')
  ]

  run-IsStale :
      (n : ℕ) (cs : List (Call F)) (id : String) (h : Broker F)
      → IsStale n id h
      → IsStale n id (run format_topic cs h)
  unfolding run
  run-IsStale n [] id h i = i
  run-IsStale n (c ∷ cs) id h i =
      run-IsStale n cs id (step format_topic c h) (step-IsStale n c id h i)

stale_nothing :
    {F : Type 0} (n : ℕ) (id : String) (window : ℕ) (h : Broker F)
    → IsStale n id h
    → (release id n window h ≡ (false, h)) × (expire id n h ≡ h)
unfolding release expire
stale_nothing n id window h i = elim (Option-cases (find id h.listeners)) [
  | inl e ↦ (rw e refl, rw e refl)
  | inr (l, e) ↦ let (a, t) = i.gone l e in (rw (e, a) refl, rw (e, t) refl)
]

attach_to-IsStale :
    {F : Type 0} (n : ℕ) (id : String) (h h' : Broker F) (att : ℕ) (o : Option (Listener F))
    → n < h.next
    → attach_to id h o ≡ ok (att, h')
    → IsStale n id h'
attach_to-IsStale n id h h' att none given e = absurd (ground (arith, e))
attach_to-IsStale n id h h' att (some l) given e =
    let v = record l { timeout_timer = none; attached = some h.next } in
    let same : record { listeners = insert id v h.listeners; next = suc h.next } ≡ h' =
      ground (arith, e) in
    subst (IsStale n id) same
      (put-IsStale n id v h.listeners (suc h.next) (omega arith) (ground arith) refl)

-- Once a stream has attached to a listener, an attachment or a timer of before is without effect for ever:
-- after any calls, its release reports that it was displaced and changes nothing, and its expiry changes
-- nothing.
pub run-attach :
    (format_topic : String → String) {F : Type 0} (n : ℕ) (id : String) (h h' : Broker F) (att : ℕ)
    (cs : List (Call F)) (window : ℕ)
    → n < h.next
    → attach id h ≡ ok (att, h')
    → (release id n window (run format_topic cs h') ≡ (false, run format_topic cs h'))
      × (expire id n (run format_topic cs h') ≡ run format_topic cs h')
unfolding attach
run-attach format_topic n id h h' att cs window given e =
    stale_nothing n id window (run format_topic cs h') (
      run-IsStale format_topic n cs id h'
        (attach_to-IsStale n id h h' att (find id h.listeners) given e))
