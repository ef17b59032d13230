-- ===== src/Domain/OffchainTx/Examples.antt =====
-- An offchain tx from its request to its finalization, and the theorems at it.
use arkd.Base.{◌≤◌, String, ◌≡◌, refl, List, [], ◌∷◌, ◌++◌, length}
use arkd.Base.Int.{pos}
use arkd.Base.Maps.{has}
use arkd.Domain.Types.{empty_stage}
use arkd.Domain.Event.{
  Event, OffchainTxRequested, offchain_tx_requested, offchain_tx_failed, offchain_tx_finalized,
}
use arkd.Domain.OffchainTx.{
  OffchainTx, Call, requests, accepts, finalizes, fails, new_offchain_tx, run, call, finalize, fail,
  new_offchain_tx_from_events, on, raise, request, accept, is_requested, all_found,
}
use arkd.Domain.OffchainTx.Replay.{content, effects, new_offchain_tx_from_events-run}
use arkd.Domain.OffchainTx.Stages.{StageInv, run-StageInv}
use arkd.Domain.OffchainTx.Checkpoints.{has-finalize}

abbrev checkpoints : List (String × String)
checkpoints = ("c", "x") ∷ ("d", "y") ∷ []

abbrev to_acceptance : List Call
to_acceptance =
    requests "a" "tx" checkpoints (pos 1)
    ∷ accepts (record {
      final_ark_tx = "signed";
      signed_checkpoint_txs = checkpoints;
      commitment_txs_by_checkpoint_txid = ("c", "r") ∷ [];
      root_commitment_tx = "r";
      expiry_timestamp = pos 9;
      depth = 1;
      parent_marker_ids = [];
    })
    ∷ []

-- The tx fails once it is accepted, and is finalized after all.
abbrev to_the_end : List Call
to_the_end = to_acceptance ++ fails "timeout" (pos 2) ∷ finalizes checkpoints (pos 3) ∷ []

abbrev accepted : OffchainTx
accepted = run new_offchain_tx to_acceptance

abbrev finished : OffchainTx
finished = run new_offchain_tx to_the_end

new_offchain_tx_from_events-run_example :
    (content (new_offchain_tx_from_events finished.changes) ≡ content finished)
    × ((new_offchain_tx_from_events finished.changes).version
        ≡ effects finished.changes empty_stage)
    × ((new_offchain_tx_from_events finished.changes).version ≤ length finished.changes)
new_offchain_tx_from_events-run_example = new_offchain_tx_from_events-run to_the_end

effects_run : effects finished.changes empty_stage ≡ 4
unfolding run call request accept finalize fail on raise is_requested all_found effects
effects_run = refl

run-StageInv_example : StageInv finished
run-StageInv_example = run-StageInv to_the_end

abbrev attempt : OffchainTxRequested
attempt = record {
  id = "a";
  ark_tx = "tx";
  unsigned_checkpoint_txs = checkpoints;
  starting_timestamp = pos 1;
}

abbrev failed_once : List Event
failed_once =
    offchain_tx_requested attempt
    ∷ offchain_tx_failed (record { id = "a"; reason = "timeout"; timestamp = pos 2 })
    ∷ []

has-finalize_example :
    ((finalize checkpoints (pos 3) accepted).0.checkpoint_txs ≡ checkpoints)
    × (has "d" checkpoints ≡ has "d" accepted.checkpoint_txs)
unfolding run call request accept is_requested finalize raise on all_found
has-finalize_example =
    has-finalize checkpoints (pos 3) accepted
      (offchain_tx_finalized
        (record { id = "a"; final_checkpoint_txs = checkpoints; timestamp = pos 3 }))
      "d" (refl, (refl, tt)) refl
