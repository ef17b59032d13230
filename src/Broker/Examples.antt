-- ===== src/Broker/Examples.antt =====
-- A subscription with two topics, and two streams.
use arkd.Base.{ℕ, ◌≡◌, refl, String, true, false, none, some, List, [], ◌∷◌, arith}
use arkd.Base.Results.{ok}
use arkd.Broker.{Broker, new_broker, Call, run, attach, release, expire}
use arkd.Broker.Limits.{run-IsWithin}
use arkd.Broker.Sound.{IsWithin}
use arkd.Broker.Held.{IsHeld, all_spare, run-IsHeld}
use arkd.Broker.Stale.{run-attach}

-- Topics that are written as they are compared.
abbrev as_is : String → String
as_is s = s

abbrev subscribed : Broker ℕ
subscribed = record {
  listeners =
      (
        "s",
        record {
          topics = ("a", tt) ∷ ("b", tt) ∷ [];
          tx_filters = [];
          timeout_timer = some 0;
          attached = none;
        },
      )
      ∷ [];
  next = 1;
}

abbrev streamed : Broker ℕ
streamed = record {
  listeners =
      (
        "s",
        record {
          topics = ("a", tt) ∷ ("b", tt) ∷ [];
          tx_filters = [];
          timeout_timer = none;
          attached = some 1;
        },
      )
      ∷ [];
  next = 2;
}

abbrev calls : List (Call ℕ)
calls = Call.expires "s" 0 ∷ Call.starts "s" ∷ Call.adds "s" ("c" ∷ []) ∷ []

run-IsWithin_example : IsWithin (run as_is (Call.pushes "s" ("a" ∷ "b" ∷ []) [] ∷ calls) new_broker)
run-IsWithin_example = run-IsWithin as_is (Call.pushes "s" ("a" ∷ "b" ∷ []) [] ∷ calls)

attached : attach "s" subscribed ≡ ok (1, streamed)
unfolding attach
attached = refl

spared : all_spare 1 "s" calls ≡ true
unfolding all_spare
spared = refl

run-IsHeld_example : IsHeld 1 "s" (run as_is calls streamed)
run-IsHeld_example = run-IsHeld as_is "s" subscribed streamed 1 calls attached spared

run-attach_example :
    (release "s" 0 5 (run as_is calls streamed) ≡ (false, run as_is calls streamed))
    × (expire "s" 0 (run as_is calls streamed) ≡ run as_is calls streamed)
run-attach_example = run-attach as_is 0 "s" subscribed streamed 1 calls 5 (omega arith) attached
