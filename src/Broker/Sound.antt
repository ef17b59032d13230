-- ===== src/Broker/Sound.antt =====
-- The operations of internal/interface/grpc/handlers/broker.go and the limits.
use arkd.Base.{
  ◌||◌, is_nil, ℕ, suc, ◌≤◌, ◌≡◌, ◌∙◌, refl, sym, ap, subst, String, true, false, not, ◌&&◌, List,
  none, some, ltb, leb, str_eq, eq_iff, length, arith, Bool-cases, Option-cases, inl, inr,
}
use arkd.Base.Results.{Result, ok, Result-cases}
use arkd.Base.Maps.{
  insert, has, find, remove, find-insert, find-insert_other, find-remove, find-remove_other,
  length-insert, length-remove, has-find,
}
use arkd.Broker.{
  BrokerError, Topics, Listener, Broker, max_topics_per_listener, max_listeners, with_topics,
  is_current, is_attached, discard, push_listener, attach, schedule_expiry_locked, release,
  start_timeout, expire, change, or_same, attached_or_same,
}

-- A listener has at most 1000 topics, and no timer while a stream is attached to it.
pub record IsSound {F : Type 0} (l : Listener F) : Type 0 where
  pub few_topics : length l.topics ≤ max_topics_per_listener
  pub no_timer : is_attached l.attached ≡ true → l.timeout_timer ≡ none

-- There are at most 5000 listeners, and each of them is sound.
pub record IsWithin {F : Type 0} (h : Broker F) : Type 0 where
  pub few : length h.listeners ≤ max_listeners
  pub sound : (id : String) (l : Listener F) → find id h.listeners ≡ some l → IsSound l

module _ {F : Type 0} where
  insert-IsSound :
      (k : String) (v : Listener F) (m : List (String × Listener F))
      → IsSound v
      → ((id : String) (l : Listener F) → find id m ≡ some l → IsSound l)
      → (id : String) (l : Listener F) → find id (insert k v m) ≡ some l
      → IsSound l
  insert-IsSound k v m sv sm id l e = elim (Bool-cases (str_eq k id)) [
    | inl same ↦
        let here : some v ≡ some l =
          sym (find-insert k v m)
          ∙ ap (λ (i : String). find i (insert k v m)) ((eq_iff k id).0 same)
          ∙ e in
        let v_is : v ≡ l = ground (arith, here) in subst IsSound v_is sv
    | inr other ↦ sm id l (sym (find-insert_other k id v m other) ∙ e)
  ]

  remove-IsSound :
      (k : String) (m : List (String × Listener F))
      → ((id : String) (l : Listener F) → find id m ≡ some l → IsSound l)
      → (id : String) (l : Listener F) → find id (remove k m) ≡ some l
      → IsSound l
  remove-IsSound k m sm id l e = elim (Bool-cases (str_eq k id)) [
    | inl same ↦
        let gone : find id (remove k m) ≡ none =
          ap (λ (i : String). find i (remove k m)) (sym ((eq_iff k id).0 same)) ∙ find-remove k m in
        absurd (ground (arith, gone, e))
    | inr other ↦ sm id l (sym (find-remove_other k id m other) ∙ e)
  ]

  -- A listener that is in the map is replaced.
  replace-IsWithin :
      (k : String) (v w : Listener F) (h : Broker F) (n : ℕ)
      → IsWithin h
      → find k h.listeners ≡ some w
      → IsSound v
      → IsWithin (record { listeners = insert k v h.listeners; next = n })
  replace-IsWithin k v w h n i e s = record {
    few = ground (arith, length-insert k v h.listeners, has-find k w h.listeners e, i.few);
    sound = insert-IsSound k v h.listeners s i.sound;
  }

  pub discard-IsWithin : (k : String) (h : Broker F) → IsWithin h → IsWithin (discard k h)
  discard-IsWithin k h i = record {
    few = omega (arith, length-remove k h.listeners, i.few);
    sound = remove-IsSound k h.listeners i.sound;
  }

  pub push_listener-IsWithin :
      (id : String) (l : Listener F) (h : Broker F)
      → IsWithin h
      → l.timeout_timer ≡ none
      → IsWithin (or_same h (push_listener id l h))
  unfolding push_listener
  push_listener-IsWithin id l h i no_timer =
      elim (Bool-cases (ltb max_topics_per_listener (length l.topics))) [
        | inl over ↦ rw over i
        | inr within ↦
            elim (Bool-cases (not (has id h.listeners) && leb max_listeners (length h.listeners))) [
              | inl full ↦ rw (within, full) i
              | inr room ↦
                  rw (within, room)
                    (record {
                      few = ground (arith, length-insert id l h.listeners, room, i.few);
                      sound =
                          insert-IsSound id l h.listeners
                            (record {
                              few_topics = ground (arith, within);
                              no_timer = λ a. no_timer;
                            })
                            i.sound;
                    })
            ]
      ]

  pub attach-IsWithin :
      (id : String) (h : Broker F) → IsWithin h → IsWithin (attached_or_same h (attach id h))
  unfolding attach
  attach-IsWithin id h i = elim (Option-cases (find id h.listeners)) [
    | inl e ↦ rw e i
    | inr (l, e) ↦ rw e (
        replace-IsWithin id _ l h (suc h.next) i e
          (record { few_topics = (i.sound id l e).few_topics; no_timer = λ a. refl }))
  ]

  expiry-IsWithin :
      (id : String) (l w : Listener F) (h : Broker F)
      → IsWithin h
      → find id h.listeners ≡ some w
      → length l.topics ≤ max_topics_per_listener
      → is_attached l.attached ≡ false
      → IsWithin (schedule_expiry_locked id l h)
  expiry-IsWithin id l w h i e few idle =
      replace-IsWithin id _ w h (suc h.next) i e
        (record { few_topics = few; no_timer = λ a. absurd (ground (arith, a, idle)) })

  pub release-IsWithin :
      (id : String) (att window : ℕ) (h : Broker F)
      → IsWithin h
      → IsWithin (release id att window h).1
  unfolding release
  release-IsWithin id att window h i = elim (Option-cases (find id h.listeners)) [
    | inl e ↦ rw e i
    | inr (l, e) ↦ elim (Bool-cases (is_current att l.attached)) [
      | inr other ↦ rw (e, other) i
      | inl ours ↦
          let kept =
            expiry-IsWithin id (record l { attached = none }) l h i e (i.sound id l e).few_topics
              refl in
          elim (Bool-cases (ltb 0 window && (not (is_nil l.topics) || not (is_nil l.tx_filters)))) [
            | inl waits ↦ rw (e, ours, waits) kept
            | inr gone ↦ rw (e, ours, gone) (discard-IsWithin id h i)
          ]
    ]
  ]

  pub start_timeout-IsWithin :
      (id : String) (h : Broker F) → IsWithin h → IsWithin (start_timeout id h)
  unfolding start_timeout
  start_timeout-IsWithin id h i = elim (Option-cases (find id h.listeners)) [
    | inl e ↦ rw e i
    | inr (l, e) ↦ elim (Bool-cases (is_attached l.attached)) [
      | inl busy ↦ rw (e, busy) i
      | inr idle ↦ rw (e, idle) (expiry-IsWithin id l l h i e (i.sound id l e).few_topics idle)
    ]
  ]

  pub expire-IsWithin :
      (id : String) (timer : ℕ) (h : Broker F) → IsWithin h → IsWithin (expire id timer h)
  unfolding expire
  expire-IsWithin id timer h i = elim (Option-cases (find id h.listeners)) [
    | inl e ↦ rw e i
    | inr (l, e) ↦ elim (Bool-cases (is_current timer l.timeout_timer)) [
      | inl ours ↦ rw (e, ours) (discard-IsWithin id h i)
      | inr other ↦ rw (e, other) i
    ]
  ]

  -- A change of a listener that keeps its stream and its timer, and the limit of topics.
  unfoldable pub IsChange : (Listener F → Result BrokerError (Listener F)) → Type 0
  IsChange f =
      (l l' : Listener F)
      → f l ≡ ok l'
      → length l.topics ≤ max_topics_per_listener
      → (length l'.topics ≤ max_topics_per_listener)
        × (l'.timeout_timer ≡ l.timeout_timer)
        × (l'.attached ≡ l.attached)

  pub change-IsWithin :
      (id : String) (f : Listener F → Result BrokerError (Listener F)) (h : Broker F)
      → IsChange f
      → IsWithin h
      → IsWithin (or_same h (change id f h))
  unfolding change IsChange
  change-IsWithin id f h c i = elim (Option-cases (find id h.listeners)) [
    | inl e ↦ rw e i
    | inr (l, e) ↦ elim (Result-cases (f l)) [
      | inr (x, e') ↦ rw (e, e') i
      | inl (l', e') ↦
          let s = i.sound id l e in
          let (few, timer, att) = c l l' e' s.few_topics in
          rw (e, e')
            (replace-IsWithin id l' l h h.next i e (record {
              few_topics = few;
              no_timer = λ a. timer ∙ s.no_timer (ap is_attached (sym att) ∙ a);
            }))
    ]
  ]

  pub with_topics-IsChange :
      (s : Listener F → Topics) (fmt : String → String) → IsChange (λ l. with_topics fmt (s l) l)
  unfolding IsChange
  with_topics-IsChange s fmt l l' e few =
      elim (Bool-cases (ltb max_topics_per_listener (length (s l)))) [
        | inl over ↦ absurd (ground (arith, e, over))
        | inr within ↦
            let l'_is : record l { topics = s l } ≡ l' = ground (arith, e, within) in
            subst
              (λ (x : Listener F).
                (length x.topics ≤ max_topics_per_listener)
                × (x.timeout_timer ≡ l.timeout_timer)
                × (x.attached ≡ l.attached))
              l'_is (ground (arith, within), refl, refl)
      ]

  -- A function on a listener that adds no topic.
  pub total-IsChange :
      (g : Listener F → Listener F)
      → ((l : Listener F) → length (g l).topics ≤ length l.topics)
      → ((l : Listener F) → (g l).timeout_timer ≡ l.timeout_timer)
      → ((l : Listener F) → (g l).attached ≡ l.attached)
      → IsChange (λ l. ok (g l))
  unfolding IsChange
  total-IsChange g fewer timer att l l' e few =
      let l'_is : g l ≡ l' = ground (arith, e) in
      subst
        (λ (x : Listener F).
          (length x.topics ≤ max_topics_per_listener)
          × (x.timeout_timer ≡ l.timeout_timer)
          × (x.attached ≡ l.attached))
        l'_is (omega (arith, fewer l), timer l, att l)
