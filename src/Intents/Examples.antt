-- ===== src/Intents/Examples.antt =====
-- Two intents, and the theorems on the queue at them.
use arkd.Base.{◌≡◌, refl, String, false, not, ◌&&◌, ◌||◌, [], ◌∷◌, ◌↔◌, All}
use arkd.Base.Int.{pos}
use arkd.Base.Results.{ok, err}
use arkd.Domain.Types.{Outpoint, Vtxo}
use arkd.Intents.Owner.{outpoint_string, pending_owner, split_pending_owner}
use arkd.Intents.Redis.{sadd_all, srem_all, hdel_all, hset_all}
use arkd.Intents.Tables.{tables}
use arkd.Intents.Queue.{
  TimedIntent, vtxo_keys, boarding_keys, keys_of, insert_by_time, sort_by_time, take_first,
  with_receivers, Queue, empty_queue, check_keys, push, bodies_of, to_pop, pop_each, pop, taken_for,
  delete_vtxos, includes_any, duplicated_input,
}
use arkd.Intents.Claims.{IsClaimed}
use arkd.Intents.Release.{belongs, names_any, sismember-delete_vtxos-pop}
use arkd.Intents.Runs.{run_calls, run_calls-IsClaimed, pushed, popped}
use arkd.Intents.Accepts.{IsOpen, push_iff, push-pop}

abbrev outpoint : String → Outpoint
outpoint txid = record { txid = txid; vout = 7 }

abbrev vtxo : String → Vtxo
vtxo txid = record {
  outpoint = outpoint txid;
  amount = 1000;
  pub_key = "k";
  commitment_txids = "c" ∷ [];
  root_commitment_txid = "c";
  settled_by = "";
  spent_by = "";
  ark_txid = "";
  spent = false;
  unrolled = false;
  swept = false;
  preconfirmed = false;
  expires_at = pos 90;
  created_at = pos 1;
  depth = 0;
  marker_ids = [];
  assets = [];
}

abbrev pub timed : String → String → TimedIntent
timed id txid = record {
  intent = record {
    id = id;
    inputs = vtxo txid ∷ [];
    receivers = record { amount = 1000; onchain_address = ""; pub_key = "k" } ∷ [];
    proof = "p";
    message = "m";
    txid = "t";
    leaf_tx_extension = "";
  };
  boarding_inputs = record { outpoint = outpoint "b"; tapscripts = []; amount = 5 } ∷ [];
  timestamp = 3;
  cosigners_public_keys = [];
}

abbrev one_queued : Queue tables
one_queued = run_calls tables (pushed (timed "i" "a") ∷ []) (empty_queue tables)

keys_of-timed : keys_of (timed "i" "a") ≡ "a:7" ∷ "b:7" ∷ []
unfolding keys_of vtxo_keys boarding_keys outpoint_string
keys_of-timed = refl

run_calls-IsClaimed_example : IsClaimed tables (
    run_calls tables
      (pushed (timed "i" "a") ∷ popped (pos 1) "r" ∷ pushed (timed "j" "a") ∷ [])
      (empty_queue tables))
run_calls-IsClaimed_example =
    run_calls-IsClaimed tables
      (pushed (timed "i" "a") ∷ popped (pos 1) "r" ∷ pushed (timed "j" "a") ∷ [])

push_iff_example : ((r : Queue tables) × (push tables (timed "j" "a") one_queued ≡ ok r)) ↔ (
    (tables.sismember "j" one_queued.ids ≡ false)
    × All (IsOpen tables one_queued "j") (keys_of (timed "j" "a")))
push_iff_example = push_iff tables one_queued (timed "j" "a")

-- The second intent with the same input is refused.
push_twice : push tables (timed "j" "a") one_queued ≡ err (duplicated_input "a:7")
unfolding push keys_of vtxo_keys boarding_keys outpoint_string check_keys tables run_calls sadd_all
    hdel_all
push_twice = refl

one_queued-IsClaimed : IsClaimed tables one_queued
one_queued-IsClaimed = run_calls-IsClaimed tables (pushed (timed "i" "a") ∷ [])

push-pop_example :
    All
      (λ t. (r : Queue tables) × (push tables t (pop tables (pos 1) "r" one_queued).1 ≡ ok r))
      (pop tables (pos 1) "r" one_queued).0
push-pop_example = push-pop tables (pos 1) "r" one_queued one_queued-IsClaimed refl

sismember-delete_vtxos-pop_example :
    tables.sismember "a:7" (delete_vtxos tables "r" (pop tables (pos 1) "r" one_queued).1).vtxos ≡ (
      not (
        names_any "a:7" (pop tables (pos 1) "r" one_queued).0
        || belongs "r" (tables.hget "a:7" one_queued.vtxos_to_remove))
      && tables.sismember "a:7" one_queued.vtxos)
sismember-delete_vtxos-pop_example =
    sismember-delete_vtxos-pop tables "a:7" "r" (pos 1) one_queued refl

-- A release makes the inputs free again.
released_input :
    includes_any tables
      (outpoint "a" ∷ outpoint "b" ∷ [])
      (delete_vtxos tables "r" (pop tables (pos 1) "r" one_queued).1)
    ≡ []
unfolding pop to_pop pop_each delete_vtxos taken_for srem_all hdel_all hset_all includes_any push
    keys_of vtxo_keys boarding_keys outpoint_string check_keys tables run_calls sadd_all
    sort_by_time insert_by_time take_first with_receivers bodies_of pending_owner
    split_pending_owner
released_input = refl
