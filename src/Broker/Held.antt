-- ===== src/Broker/Held.antt =====
-- A stream that is attached to a listener (internal/interface/grpc/handlers/broker.go).
use arkd.Base.{
  ℕ, suc, ◌≡◌, ◌∙◌, refl, sym, ap, subst, String, Bool, true, false, not, ◌&&◌, ◌||◌, List, [], ◌∷◌,
  none, some, ◌==◌, str_eq, eq_iff, arith, Bool-cases, Option-cases, inl, inr,
}
use arkd.Base.Results.{Result, ok, Result-cases}
use arkd.Base.Maps.{insert, find, find-insert}
use arkd.Broker.{
  BrokerError, Listener, Broker, is_current, is_attached, attach_to, attach, release, start_timeout,
  expire, change, Call, or_same, step, run, add_all, remove_all,
}
use arkd.Broker.Streams.{key_of, step_other, Keeps, total-Keeps, with_topics-Keeps}

-- An attachment holds a listener, which has no timer.
pub record IsHeld {F : Type 0} (att : ℕ) (id : String) (h : Broker F) : Type 0 where
  pub listener : Listener F
  pub at : find id h.listeners ≡ some listener
  pub held : listener.attached ≡ some att
  pub no_timer : listener.timeout_timer ≡ none

-- A call that does not replace or remove a listener, attach to it, or release the attachment.
abbrev pub harmless : {F : Type 0} → ℕ → Call F → Bool
harmless att (Call.pushes id topics fs) = false
harmless att (Call.removes id) = false
harmless att (Call.attaches id) = false
harmless att (Call.releases id n window) = not (n == att)
harmless att (Call.starts id) = true
harmless att (Call.expires id timer) = true
harmless att (Call.adds id topics) = true
harmless att (Call.takes id topics) = true
harmless att (Call.overwrites id topics) = true
harmless att (Call.filters id fs) = true

-- Every call is about another listener, or harmless.
unfoldable pub all_spare : {F : Type 0} → ℕ → String → List (Call F) → Bool
all_spare att id [] = true
all_spare att id (c ∷ cs) = (not (str_eq (key_of c) id) || harmless att c) && all_spare att id cs

module _ {F : Type 0} (att : ℕ) (id : String) (h : Broker F) (i : IsHeld att id h) where
  release-IsHeld : (n window : ℕ) → (n == att) ≡ false → IsHeld att id (release id n window h).1
  unfolding release
  release-IsHeld n window other =
      let theirs : is_current n i.listener.attached ≡ false = rw i.held other in rw (i.at, theirs) i

  start_timeout-IsHeld : IsHeld att id (start_timeout id h)
  unfolding start_timeout
  start_timeout-IsHeld =
      let busy : is_attached i.listener.attached ≡ true = rw i.held refl in rw (i.at, busy) i

  expire-IsHeld : (timer : ℕ) → IsHeld att id (expire id timer h)
  unfolding expire
  expire-IsHeld timer =
      let none_set : is_current timer i.listener.timeout_timer ≡ false = rw i.no_timer refl in
      rw (i.at, none_set) i

  change-IsHeld :
      (f : Listener F → Result BrokerError (Listener F))
      → Keeps f
      → IsHeld att id (or_same h (change id f h))
  unfolding change Keeps
  change-IsHeld f keeps = elim (Result-cases (f i.listener)) [
    | inr (x, e) ↦ rw (i.at, e) i
    | inl (l, e) ↦
        let (timer, same) = keeps i.listener l e in
        rw (i.at, e)
          (record {
            listener = l;
            at = find-insert id l h.listeners;
            held = same ∙ i.held;
            no_timer = timer ∙ i.no_timer;
          })
  ]

module _ (format_topic : String → String) {F : Type 0} (att : ℕ) where
  same_step :
      (c : Call F) (h : Broker F)
      → harmless att c ≡ true
      → IsHeld att (key_of c) h
      → IsHeld att (key_of c) (step format_topic c h)
  unfolding step
  same_step (Call.pushes id topics fs) h ok_c i = absurd (ground arith)
  same_step (Call.removes id) h ok_c i = absurd (ground arith)
  same_step (Call.attaches id) h ok_c i = absurd (ground arith)
  same_step (Call.releases id n window) h ok_c i = release-IsHeld att id h i n window (ground arith)
  same_step (Call.starts id) h ok_c i = start_timeout-IsHeld att id h i
  same_step (Call.expires id timer) h ok_c i = expire-IsHeld att id h i timer
  same_step (Call.adds id topics) h ok_c i =
      change-IsHeld att id h i _
        (with_topics-Keeps (λ l. add_all format_topic topics l.topics) format_topic)
  same_step (Call.takes id topics) h ok_c i = change-IsHeld att id h i _ (
      total-Keeps (λ l. record l { topics = remove_all format_topic topics l.topics }) (λ l. refl)
        (λ l. refl))
  same_step (Call.overwrites id topics) h ok_c i =
      change-IsHeld att id h i _
        (with_topics-Keeps (λ l. add_all format_topic topics []) format_topic)
  same_step (Call.filters id fs) h ok_c i =
      change-IsHeld att id h i _
        (total-Keeps (λ l. record l { tx_filters = fs }) (λ l. refl) (λ l. refl))

  step-IsHeld :
      (c : Call F) (id : String) (h : Broker F)
      → (not (str_eq (key_of c) id) || harmless att c) ≡ true
      → IsHeld att id h
      → IsHeld att id (step format_topic c h)
  step-IsHeld c id h spare i = elim (Bool-cases (str_eq (key_of c) id)) [
    | inr other ↦ record {
      listener = i.listener;
      at = step_other format_topic c id h other ∙ i.at;
      held = i.held;
      no_timer = i.no_timer;
    }
    | inl same ↦
        let k : key_of c ≡ id = (eq_iff (key_of c) id).0 same in
        let i' = subst (λ (x : String). IsHeld att x h) (sym k) i in
        subst (λ (x : String). IsHeld att x (step format_topic c h)) k
          (same_step c h (ground arith) i')
  ]

  runs-IsHeld :
      (cs : List (Call F)) (id : String) (h : Broker F)
      → all_spare att id cs ≡ true
      → IsHeld att id h
      → IsHeld att id (run format_topic cs h)
  unfolding run all_spare
  runs-IsHeld [] id h spare i = i
  runs-IsHeld (c ∷ cs) id h spare i =
      runs-IsHeld cs id (step format_topic c h) (ground arith) (step-IsHeld c id h (ground arith) i)

attach_to-IsHeld :
    {F : Type 0} (id : String) (h h' : Broker F) (att : ℕ) (l : Listener F)
    → attach_to id h (some l) ≡ ok (att, h')
    → IsHeld att id h'
attach_to-IsHeld {F} id h h' att l e =
    let v = record l { timeout_timer = none; attached = some h.next } in
    let same : (h.next, record { listeners = insert id v h.listeners; next = suc h.next })
        ≡ (att, h') =
      ground (arith, e) in
    subst (λ (p : ℕ × Broker F). IsHeld p.0 id p.1) same
      (record { listener = v; at = find-insert id v h.listeners; held = refl; no_timer = refl })

attach-IsHeld :
    {F : Type 0} (id : String) (h h' : Broker F) (att : ℕ)
    → attach id h ≡ ok (att, h')
    → IsHeld att id h'
unfolding attach
attach-IsHeld id h h' att e = elim (Option-cases (find id h.listeners)) [
  | inl missing ↦ absurd (ground (arith, e, missing))
  | inr (l, at) ↦
      let e1 : attach_to id h (some l) ≡ ok (att, h') = ap (attach_to id h) (sym at) ∙ e in
      attach_to-IsHeld id h h' att l e1
]

-- A stream that has attached to a listener keeps it, and the listener has no timer, through any calls
-- that do not replace or remove the listener, attach to it, or release that attachment: the timers of
-- before, new timeouts, releases by other streams and updates of the subscription leave it.
pub run-IsHeld :
    (format_topic : String → String) {F : Type 0} (id : String) (h h' : Broker F) (att : ℕ)
    (cs : List (Call F))
    → attach id h ≡ ok (att, h')
    → all_spare att id cs ≡ true
    → IsHeld att id (run format_topic cs h')
run-IsHeld format_topic id h h' att cs e spare =
    runs-IsHeld format_topic att cs id h' spare (attach-IsHeld id h h' att e)
