-- ===== src/Domain/Round/Examples.antt =====
-- A round from its start to a sweep, and the theorems at it.
use arkd.Base.{◌≡◌, refl, false, List, [], ◌∷◌, arith}
use arkd.Base.Int.{pos}
use arkd.Domain.Types.{Outpoint, TxTreeNode, leaves}
use arkd.Domain.Intent.{Intent, validate, validate_receivers}
use arkd.Domain.Round.{
  Round, Call, starts_registration, registers_intents, starts_finalization, ends_finalization,
  sweeps, fails, new_round, call, run, sweep, count_swept_leaf_vtxos, new_round_from_events, raise,
  on, start_registration, register_intents, start_finalization, end_finalization, validate_all,
  needs_forfeits, any_requires_forfeit, register_all, count_swept_from,
}
use arkd.Domain.Round.Replay.{new_round_from_events-run, recorded}
use arkd.Domain.Round.Stages.{Reach, run-Reach}
use arkd.Domain.Round.Invariant.{Inv, run-Inv, swept-run-Overswept}

abbrev payment : Intent
payment = record {
  id = "i";
  inputs = [];
  receivers = record { amount = 5; onchain_address = ""; pub_key = "k" } ∷ [];
  proof = "p";
  message = "m";
  txid = "t";
  leaf_tx_extension = "";
}

abbrev leaf : TxTreeNode
leaf = record { txid = "l"; tx = "x"; children = [] }

abbrev out : Outpoint
out = record { txid = "l"; vout = 0 }

abbrev to_the_end : List Call
to_the_end =
    starts_registration (pos 1)
    ∷ registers_intents (payment ∷ [])
    ∷ starts_finalization (record {
      connector_address = "a";
      connectors = [];
      vtxo_tree = leaf ∷ [];
      commitment_txid = "c";
      commitment_tx = "u";
      vtxo_tree_expiration = pos 60;
    })
    ∷ ends_finalization [] "s" 0 (pos 2)
    ∷ []

abbrev finished : Round
finished = run (new_round "r") to_the_end

new_round_from_events-run_example : new_round_from_events finished.changes ≡ recorded finished
new_round_from_events-run_example = new_round_from_events-run "r" to_the_end

run-Reach_example : Reach finished.stage
run-Reach_example = run-Reach "r" to_the_end

abbrev broken : Round
broken = run (new_round "r") (fails "down" (pos 1) ∷ [])

run-Inv_example : Inv finished
run-Inv_example = run-Inv "r" to_the_end

abbrev sweep_leaf : Call
sweep_leaf = sweeps (out ∷ []) [] "w" "y"

-- Two leaf vtxos reported swept at once, of a tree with one leaf.
abbrev too_many : Round
too_many = (sweep (out ∷ out ∷ []) [] "w" "y" finished).0

swept-run-Overswept_example : (run too_many (sweep_leaf ∷ [])).swept ≡ false
unfolding run call start_registration register_intents start_finalization end_finalization raise on
    validate_all validate validate_receivers needs_forfeits any_requires_forfeit register_all leaves
    sweep count_swept_leaf_vtxos count_swept_from
swept-run-Overswept_example =
    swept-run-Overswept too_many (sweep_leaf ∷ [])
      (record { last = refl; ended = refl; not_swept = refl; over = omega arith })
