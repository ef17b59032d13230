-- ===== src/Broker/Limits.antt =====
-- The limits of the subscriptions, and their timers (internal/interface/grpc/handlers/broker.go).
use arkd.Base.{◌≤◌, refl, String, List, [], ◌∷◌, length, arith}
use arkd.Base.Maps.{remove, length-remove}
use arkd.Broker.{
  Topics, Broker, new_broker, new_listener, add_all, remove_all, remove_listener, Call, step, run,
}
use arkd.Broker.Sound.{
  IsWithin, discard-IsWithin, push_listener-IsWithin, attach-IsWithin, release-IsWithin,
  start_timeout-IsWithin, expire-IsWithin, IsChange, change-IsWithin, with_topics-IsChange,
  total-IsChange,
}

module _ (format_topic : String → String) where
  length-remove_all :
      (ts : List String) (s : Topics) → length (remove_all format_topic ts s) ≤ length s
  unfolding remove_all
  length-remove_all [] s = omega arith
  length-remove_all (t ∷ ts) s =
      omega
        (arith, length-remove_all ts (remove (format_topic t) s), length-remove (format_topic t) s)

module _ (format_topic : String → String) {F : Type 0} where
  step-IsWithin : (c : Call F) (h : Broker F) → IsWithin h → IsWithin (step format_topic c h)
  unfolding step new_listener remove_listener IsChange
  step-IsWithin (Call.pushes id topics fs) h i = push_listener-IsWithin id _ h i refl
  step-IsWithin (Call.removes id) h i = discard-IsWithin id h i
  step-IsWithin (Call.attaches id) h i = attach-IsWithin id h i
  step-IsWithin (Call.releases id att window) h i = release-IsWithin id att window h i
  step-IsWithin (Call.starts id) h i = start_timeout-IsWithin id h i
  step-IsWithin (Call.expires id timer) h i = expire-IsWithin id timer h i
  step-IsWithin (Call.adds id topics) h i =
      change-IsWithin id _ h
        (with_topics-IsChange (λ l. add_all format_topic topics l.topics) format_topic) i
  step-IsWithin (Call.takes id topics) h i =
      change-IsWithin id _ h
        (total-IsChange (λ l. record l { topics = remove_all format_topic topics l.topics })
          (λ l. length-remove_all format_topic topics l.topics) (λ l. refl) (λ l. refl))
        i
  step-IsWithin (Call.overwrites id topics) h i =
      change-IsWithin id _ h
        (with_topics-IsChange (λ l. add_all format_topic topics []) format_topic) i
  step-IsWithin (Call.filters id fs) h i =
      change-IsWithin id _ h
        (total-IsChange (λ l. record l { tx_filters = fs }) (λ l. omega arith) (λ l. refl)
          (λ l. refl))
        i

  runs-IsWithin :
      (cs : List (Call F)) (h : Broker F) → IsWithin h → IsWithin (run format_topic cs h)
  unfolding run
  runs-IsWithin [] h i = i
  runs-IsWithin (c ∷ cs) h i = runs-IsWithin cs (step format_topic c h) (step-IsWithin c h i)

  -- After any calls on a new broker, there are at most 5000 listeners, each of them has at most 1000
  -- topics, and none to which a stream is attached has a timer.
  pub run-IsWithin : (cs : List (Call F)) → IsWithin (run format_topic cs new_broker)
  run-IsWithin cs =
      runs-IsWithin cs new_broker
        (record { few = omega arith; sound = λ id l e. absurd (ground arith) })
