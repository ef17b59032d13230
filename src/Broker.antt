-- ===== src/Broker.antt =====
-- internal/interface/grpc/handlers/broker.go: the subscriptions and their streams. A pointer to an
-- attachment or to a timer is a number that is given once. Each operation of the broker that changes its
-- state holds a lock, so a run is a sequence of them; the callback of a timer is one, and may come at any
-- time, also after the timer was stopped. The type of a compiled filter, `formatTopic`, which is in terms
-- of a library, and the delivery of events on the channels are parameters or left out.
pub mod Limits
pub mod Sound
pub mod Streams
pub mod Held
pub mod Stale
pub mod Gone
mod Examples
use arkd.Base.{
  ℕ, zero, suc, String, Bool, true, false, not, ◌&&◌, ◌||◌, List, [], ◌∷◌, Option, none, some, ltb,
  leb, ◌==◌, if◌then◌else◌, is_nil, length,
}
use arkd.Base.Results.{Result, ok, err, ◌>>=◌}
use arkd.Base.Maps.{insert, has, find, remove}

abbrev pub max_topics_per_listener : ℕ
max_topics_per_listener = 1000

abbrev pub max_listeners : ℕ
max_listeners = 5000

-- A set of strings, as a map to nothing.
abbrev pub Topics : Type 0
Topics = List (String × Unit {0})

pub record Listener (F : Type 0) : Type 0 where
  pub topics : Topics
  pub tx_filters : List (String × F)
  pub timeout_timer : Option ℕ
  pub attached : Option ℕ

-- The listeners, and the number of the next attachment or timer.
pub record Broker (F : Type 0) : Type 0 where
  pub listeners : List (String × Listener F)
  pub next : ℕ

pub data BrokerError : Type 0 where
  topics_limit_exceeded : ℕ → BrokerError
  subscriptions_limit_exceeded : BrokerError
  subscription_not_found : BrokerError

abbrev pub new_broker : {F : Type 0} → Broker F
new_broker = record { listeners = []; next = 0 }

module _ (format_topic : String → String) where
  -- Adds the formatted topics to a set.
  pub add_all : List String → Topics → Topics
  add_all [] s = s
  add_all (t ∷ ts) s = add_all ts (insert (format_topic t) tt s)

  pub remove_all : List String → Topics → Topics
  remove_all [] s = s
  remove_all (t ∷ ts) s = remove_all ts (remove (format_topic t) s)

  pub new_listener : {F : Type 0} → List String → Listener F
  new_listener topics = record {
    topics = add_all topics [];
    tx_filters = [];
    timeout_timer = none;
    attached = none;
  }

  -- The topics of a listener, replaced if they are within the limit.
  abbrev pub with_topics : {F : Type 0} → Topics → Listener F → Result BrokerError (Listener F)
  with_topics s l =
      if ltb max_topics_per_listener (length s)
      then err (topics_limit_exceeded (length s))
      else ok (record l { topics = s })

  -- The method `addTopics` of a listener.
  abbrev pub merge_topics :
      {F : Type 0} → List String → Listener F → Result BrokerError (Listener F)
  merge_topics topics l = with_topics (add_all topics l.topics) l

  -- The method `overwriteTopics` of a listener.
  abbrev pub replace_topics :
      {F : Type 0} → List String → Listener F → Result BrokerError (Listener F)
  replace_topics topics l = with_topics (add_all topics []) l

-- Whether a pointer is the given one.
abbrev pub is_current : ℕ → Option ℕ → Bool
is_current n none = false
is_current n (some m) = n == m

abbrev pub is_attached : Option ℕ → Bool
is_attached none = false
is_attached (some n) = true

module _ {F : Type 0} where
  abbrev pub put : String → Listener F → Broker F → Broker F
  put id l h = record h { listeners = insert id l h.listeners }

  -- `delete(h.listeners, id)`
  abbrev pub discard : String → Broker F → Broker F
  discard id h = record h { listeners = remove id h.listeners }

  -- The method `pushListener`.
  pub push_listener : String → Listener F → Broker F → Result BrokerError (Broker F)
  push_listener id l h =
      if ltb max_topics_per_listener (length l.topics)
      then err (topics_limit_exceeded (length l.topics))
      else if not (has id h.listeners) && leb max_listeners (length h.listeners)
      then err subscriptions_limit_exceeded
      else ok (put id l h)

  -- The method `removeListener`.
  pub remove_listener : String → Broker F → Broker F
  remove_listener id h = discard id h

  -- A listener that a new attachment holds.
  abbrev pub attach_to : String → Broker F → Option (Listener F) → Result BrokerError (ℕ × Broker F)
  attach_to id h none = err subscription_not_found
  attach_to id h (some l) = ok (
    h.next,
    record {
      listeners = insert id (record l { timeout_timer = none; attached = some h.next }) h.listeners;
      next = suc h.next;
    },
  )

  -- The method `attach`, with the attachment that it returns.
  pub attach : String → Broker F → Result BrokerError (ℕ × Broker F)
  attach id h = attach_to id h (find id h.listeners)

  -- The method `scheduleExpiryLocked`: a new timer is the listener's.
  abbrev pub schedule_expiry_locked : String → Listener F → Broker F → Broker F
  schedule_expiry_locked id l h = record {
    listeners = insert id (record l { timeout_timer = some h.next }) h.listeners;
    next = suc h.next;
  }

  abbrev pub release_from : String → ℕ → ℕ → Broker F → Option (Listener F) → Bool × Broker F
  release_from id att window h none = (false, h)
  release_from id att window h (some l) =
      if not (is_current att l.attached)
      then (false, h)
      else if ltb 0 window && (not (is_nil l.topics) || not (is_nil l.tx_filters))
      then (true, schedule_expiry_locked id (record l { attached = none }) h)
      else (true, discard id h)

  -- The method `release`.
  pub release : String → ℕ → ℕ → Broker F → Bool × Broker F
  release id att window h = release_from id att window h (find id h.listeners)

  abbrev pub start_for : String → Broker F → Option (Listener F) → Broker F
  start_for id h none = h
  start_for id h (some l) = if is_attached l.attached then h else schedule_expiry_locked id l h

  -- The method `startTimeout`.
  pub start_timeout : String → Broker F → Broker F
  start_timeout id h = start_for id h (find id h.listeners)

  abbrev pub expire_for : String → ℕ → Broker F → Option (Listener F) → Broker F
  expire_for id timer h none = h
  expire_for id timer h (some l) = if is_current timer l.timeout_timer then discard id h else h

  -- The callback of a timer, in `scheduleExpiryLocked`.
  pub expire : String → ℕ → Broker F → Broker F
  expire id timer h = expire_for id timer h (find id h.listeners)

  abbrev pub change_for :
      String
      → (Listener F → Result BrokerError (Listener F))
      → Broker F
      → Option (Listener F)
      → Result BrokerError (Broker F)
  change_for id f h none = err subscription_not_found
  change_for id f h (some l) = f l >>= λ l'. ok (put id l' h)

  -- The methods of the broker that change a listener's topics or filters.
  pub change :
      String
      → (Listener F → Result BrokerError (Listener F))
      → Broker F
      → Result BrokerError (Broker F)
  change id f h = change_for id f h (find id h.listeners)

  module _ (format_topic : String → String) where
    abbrev pub add_topics : String → List String → Broker F → Result BrokerError (Broker F)
    add_topics id topics h = change id (merge_topics format_topic topics) h

    abbrev pub remove_topics : String → List String → Broker F → Result BrokerError (Broker F)
    remove_topics id topics h =
        change id (λ l. ok (record l { topics = remove_all format_topic topics l.topics })) h

    abbrev pub overwrite_topics : String → List String → Broker F → Result BrokerError (Broker F)
    overwrite_topics id topics h = change id (replace_topics format_topic topics) h

    abbrev pub remove_all_topics : String → Broker F → Result BrokerError (Broker F)
    remove_all_topics id h = overwrite_topics id [] h

    -- The method `setTxFilters`.
    abbrev pub install_tx_filters :
        String → List (String × F) → Broker F → Result BrokerError (Broker F)
    install_tx_filters id filters h = change id (λ l. ok (record l { tx_filters = filters })) h

-- What the streams, the requests and the timers call.
pub data Call (F : Type 0) : Type 0 where
  pushes : String → List String → List (String × F) → Call F
  removes : String → Call F
  attaches : String → Call F
  releases : String → ℕ → ℕ → Call F
  starts : String → Call F
  expires : String → ℕ → Call F
  adds : String → List String → Call F
  takes : String → List String → Call F
  overwrites : String → List String → Call F
  filters : String → List (String × F) → Call F

-- The state after a call that returns a state or an error.
abbrev pub or_same : {F : Type 0} → Broker F → Result BrokerError (Broker F) → Broker F
or_same h (ok h') = h'
or_same h (err e) = h

abbrev pub attached_or_same : {F : Type 0} → Broker F → Result BrokerError (ℕ × Broker F) → Broker F
attached_or_same h (ok (att, h')) = h'
attached_or_same h (err e) = h

module _ (format_topic : String → String) {F : Type 0} where
  pub step : Call F → Broker F → Broker F
  step (pushes id topics fs) h =
      or_same h (push_listener id (record (new_listener format_topic topics) { tx_filters = fs }) h)
  step (removes id) h = remove_listener id h
  step (attaches id) h = attached_or_same h (attach id h)
  step (releases id att window) h = (release id att window h).1
  step (starts id) h = start_timeout id h
  step (expires id timer) h = expire id timer h
  step (adds id topics) h = or_same h (add_topics format_topic id topics h)
  step (takes id topics) h = or_same h (remove_topics format_topic id topics h)
  step (overwrites id topics) h = or_same h (overwrite_topics format_topic id topics h)
  step (filters id fs) h = or_same h (install_tx_filters format_topic id fs h)

  pub run : List (Call F) → Broker F → Broker F
  run [] h = h
  run (c ∷ cs) h = run cs (step c h)
