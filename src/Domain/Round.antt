-- ===== src/Domain/Round.antt =====
-- internal/core/domain/round.go: a round as an aggregate that is rebuilt from its events.
-- The clock (`time.Now`) and the id (`uuid.New`) are arguments of the operations.
pub mod Stages
pub mod Replay
pub mod Invariant
mod Examples
use arkd.Base.{
  ℕ, ◌+◌, String, Bool, true, false, not, ◌&&◌, ◌||◌, List, [], ◌∷◌, ◌++◌, Option, none, some, ◌==◌,
  if◌then◌else◌, is_nil, length,
}
use arkd.Base.Int.{ℤ, pos, is_pos}
use arkd.Base.Maps.{insert}
use arkd.Base.Results.{Result, ok, err}
use arkd.Domain.Types.{
  Outpoint, Vtxo, Stage, ForfeitTx, FlatTxTree, is_empty, requires_forfeit, empty_stage,
  is_empty_stage, leaves,
}
use arkd.Domain.Intent.{Intent, IntentError, validate}
use arkd.Domain.Event.{
  Event, round_started, round_finalization_started, round_finalized, round_failed,
  intents_registered, batch_swept,
}

abbrev pub round_undefined_stage : ℕ
round_undefined_stage = 0

abbrev pub round_registration_stage : ℕ
round_registration_stage = 1

abbrev pub round_finalization_stage : ℕ
round_finalization_stage = 2

pub record Round : Type 0 where
  pub id : String
  pub starting_timestamp : ℤ
  pub ending_timestamp : ℤ
  pub stage : Stage
  pub intents : List (String × Intent)
  pub commitment_txid : String
  pub commitment_tx : String
  pub forfeit_txs : List ForfeitTx
  pub vtxo_tree : FlatTxTree
  pub connectors : FlatTxTree
  pub connector_address : String
  pub version : ℕ
  pub swept : Bool
  pub vtxo_tree_expiration : ℤ
  pub collected_fees : ℕ  -- uint64
  pub sweep_txs : List (String × String)
  pub fail_reason : String
  pub changes : List Event

pub data RoundError : Type 0 where
  bad_stage missing_intents missing_commitment_tx missing_expiration no_intents : RoundError
  missing_txid missing_forfeit_txs already_finalized : RoundError
  bad_intent : IntentError → RoundError

-- `&Round{}`
abbrev pub zero_round : Round
zero_round = record {
  id = "";
  starting_timestamp = pos 0;
  ending_timestamp = pos 0;
  stage = empty_stage;
  intents = [];
  commitment_txid = "";
  commitment_tx = "";
  forfeit_txs = [];
  vtxo_tree = [];
  connectors = [];
  connector_address = "";
  version = 0;
  swept = false;
  vtxo_tree_expiration = pos 0;
  collected_fees = 0;
  sweep_txs = [];
  fail_reason = "";
  changes = [];
}

abbrev pub new_round : String → Round
new_round uuid = record zero_round { id = uuid }

abbrev pub is_failed : Round → Bool
is_failed r = r.stage.failed

abbrev pub round_ended : Stage → Bool
round_ended s = not s.failed && s.code == round_finalization_stage && s.ended

abbrev pub is_ended : Round → Bool
is_ended r = round_ended r.stage

pub is_started : Round → Bool
is_started r = not (is_failed r) && not (is_ended r) && not (is_empty_stage r.stage)

-- `for _, p := range e.Intents { r.Intents[p.Id] = p }`
register_all : List Intent → List (String × Intent) → List (String × Intent)
register_all [] m = m
register_all (i ∷ is) m = register_all is (insert i.id i m)

abbrev bump_version : Bool → Round → Round
bump_version true r = record r { version = r.version + 1 }
bump_version false r = r

-- The last clause is the `default` branch, which returns before the version is counted.
on : Event → Bool → Round → Round
unfolding register_all
on (round_started e) replayed r = bump_version replayed (record r {
  stage = record {
    code = round_registration_stage;
    ended = r.stage.ended;
    failed = r.stage.failed;
  };
  id = e.id;
  starting_timestamp = e.timestamp;
})
on (round_finalization_started e) replayed r = bump_version replayed (record r {
  stage = record {
    code = round_finalization_stage;
    ended = r.stage.ended;
    failed = r.stage.failed;
  };
  vtxo_tree = e.vtxo_tree;
  connectors = e.connectors;
  connector_address = e.connector_address;
  commitment_txid = e.commitment_txid;
  commitment_tx = e.commitment_tx;
  vtxo_tree_expiration = e.vtxo_tree_expiration;
})
on (round_finalized e) replayed r = bump_version replayed (record r {
  stage = record { code = r.stage.code; ended = true; failed = r.stage.failed };
  forfeit_txs = e.forfeit_txs;
  ending_timestamp = e.timestamp;
  commitment_tx = e.final_commitment_tx;
  collected_fees = e.fees;
})
on (round_failed e) replayed r = bump_version replayed (record r {
  stage = record { code = r.stage.code; ended = r.stage.ended; failed = true };
  fail_reason = e.reason;
  ending_timestamp = e.timestamp;
})
on (intents_registered e) replayed r =
    bump_version replayed (record r { intents = register_all e.intents r.intents })
on (batch_swept e) replayed r =
    bump_version replayed
      (record r { swept = e.fully_swept; sweep_txs = insert e.txid e.tx r.sweep_txs })
on _ replayed r = r

raise : Event → Round → Round
raise e r = on e false (record r { changes = r.changes ++ e ∷ [] })

replay : List Event → Round → Round
replay [] r = r
replay (e ∷ es) r = replay es (on e true r)

pub new_round_from_events : List Event → Round
unfolding replay
new_round_from_events es = record (replay es zero_round) { changes = es }

abbrev raised : Event → Round → Round × Result RoundError (List Event)
raised e r = (raise e r, ok (e ∷ []))

abbrev refuse : RoundError → Round → Round × Result RoundError (List Event)
refuse x r = (r, err x)

pub start_registration : ℤ → Round → Round × Result RoundError (List Event)
start_registration now r =
    if is_empty_stage r.stage
    then raised (round_started (record { id = r.id; timestamp = now })) r
    else refuse bad_stage r

-- The first error among the intents.
validate_all : List Intent → Option IntentError
validate_all [] = none
validate_all (i ∷ is) =
    let rest = validate_all is in elim (validate false i) [ none ↦ rest | some e ↦ some e ]

pub register_intents : List Intent → Round → Round × Result RoundError (List Event)
unfolding validate_all
register_intents is r =
    if not (r.stage.code == round_registration_stage) || is_failed r
    then refuse bad_stage r
    else if is_nil is
    then refuse missing_intents r
    else elim (validate_all is) [
      | none ↦ raised (intents_registered (record { id = r.id; intents = is })) r
      | some e ↦ refuse (bad_intent e) r
    ]

-- The arguments of `StartFinalization`.
pub record Finalization : Type 0 where
  pub connector_address : String
  pub connectors : FlatTxTree
  pub vtxo_tree : FlatTxTree
  pub commitment_txid : String
  pub commitment_tx : String
  pub vtxo_tree_expiration : ℤ

pub start_finalization : Finalization → Round → Round × Result RoundError (List Event)
start_finalization f r =
    if is_empty f.commitment_tx
    then refuse missing_commitment_tx r
    else if not (is_pos f.vtxo_tree_expiration)
    then refuse missing_expiration r
    else if not (r.stage.code == round_registration_stage) || is_failed r
    then refuse bad_stage r
    else if is_nil r.intents
    then refuse no_intents r
    else if is_empty f.commitment_txid
    then refuse missing_txid r
    else raised
        (round_finalization_started (record {
          id = r.id;
          vtxo_tree = f.vtxo_tree;
          connectors = f.connectors;
          connector_address = f.connector_address;
          commitment_txid = f.commitment_txid;
          commitment_tx = f.commitment_tx;
          vtxo_tree_expiration = f.vtxo_tree_expiration;
        }))
        r

any_requires_forfeit : List Vtxo → Bool
any_requires_forfeit [] = false
any_requires_forfeit (v ∷ vs) = requires_forfeit v || any_requires_forfeit vs

needs_forfeits : List (String × Intent) → Bool
unfolding any_requires_forfeit
needs_forfeits [] = false
needs_forfeits ((k, i) ∷ m) = any_requires_forfeit i.inputs || needs_forfeits m

pub end_finalization :
    List ForfeitTx → String → ℕ → ℤ → Round → Round × Result RoundError (List Event)
unfolding needs_forfeits
end_finalization forfeit_txs final_commitment_tx collected_fees now r =
    if is_nil forfeit_txs && needs_forfeits r.intents
    then refuse missing_forfeit_txs r
    else if not (r.stage.code == round_finalization_stage) || is_failed r
    then refuse bad_stage r
    else if r.stage.ended
    then refuse already_finalized r
    else raised
        (round_finalized (record {
          id = r.id;
          forfeit_txs = forfeit_txs;
          final_commitment_tx = final_commitment_tx;
          fees = collected_fees;
          timestamp = now;
        }))
        r

abbrev leaf_count : Event → ℕ
leaf_count (batch_swept e) = length e.leaf_vtxos
leaf_count _ = 0

-- `countSweptLeafVtxos`, with the count so far as an argument.
count_swept_from : ℕ → List Event → ℕ
count_swept_from count [] = count
count_swept_from count (e ∷ es) = count_swept_from (count + leaf_count e) es

pub count_swept_leaf_vtxos : List Event → ℕ
unfolding count_swept_from
count_swept_leaf_vtxos es = count_swept_from 0 es

pub sweep :
    List Outpoint → List Outpoint → String → String → Round → Round × Result RoundError (List Event)
sweep leaf_vtxos preconfirmed_vtxos txid tx r =
    if not (is_ended r)
    then refuse bad_stage r
    else if r.swept
    then (r, ok [])
    else raised
        (batch_swept (record {
          id = r.id;
          leaf_vtxos = leaf_vtxos;
          preconfirmed_vtxos = preconfirmed_vtxos;
          txid = txid;
          tx = tx;
          fully_swept =
              length leaf_vtxos + count_swept_leaf_vtxos r.changes == length (leaves r.vtxo_tree);
        }))
        r

pub fail : String → ℤ → Round → Round × Result RoundError (List Event)
fail reason now r =
    if r.stage.failed
    then (r, ok [])
    else raised (round_failed (record { id = r.id; reason = reason; timestamp = now })) r

-- A call of one of the operations, and a history of calls.
pub data Call : Type 0 where
  starts_registration : ℤ → Call
  registers_intents : List Intent → Call
  starts_finalization : Finalization → Call
  ends_finalization : List ForfeitTx → String → ℕ → ℤ → Call
  sweeps : List Outpoint → List Outpoint → String → String → Call
  fails : String → ℤ → Call

pub call : Call → Round → Round × Result RoundError (List Event)
call (starts_registration now) r = start_registration now r
call (registers_intents is) r = register_intents is r
call (starts_finalization f) r = start_finalization f r
call (ends_finalization txs tx fees now) r = end_finalization txs tx fees now r
call (sweeps leaf pre txid tx) r = sweep leaf pre txid tx r
call (fails reason now) r = fail reason now r

pub run : Round → List Call → Round
run r [] = r
run r (c ∷ cs) = run (call c r).0 cs
