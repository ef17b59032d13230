-- ===== src/Domain/OffchainTx.antt =====
-- internal/core/domain/offchain_tx.go: an offchain transaction as an aggregate of its events.
-- The clock (`time.Now`) is an argument of the operations.
pub mod Replay
pub mod Stages
pub mod Checkpoints
mod Examples
use arkd.Base.{
  ℕ, ◌+◌, String, Bool, true, false, not, ◌&&◌, ◌||◌, List, [], ◌∷◌, ◌++◌, map, ◌==◌, if◌then◌else◌,
  is_nil, length,
}
use arkd.Base.Int.{ℤ, pos, is_pos}
use arkd.Base.Maps.{insert, has}
use arkd.Base.Results.{Result, ok, err}
use arkd.Domain.Types.{Stage, is_empty, empty_stage}
use arkd.Domain.Event.{
  Event, offchain_tx_requested, offchain_tx_accepted, offchain_tx_finalized, offchain_tx_failed,
}

abbrev pub offchain_tx_undefined_stage : ℕ
offchain_tx_undefined_stage = 0

abbrev pub offchain_tx_requested_stage : ℕ
offchain_tx_requested_stage = 1

abbrev pub offchain_tx_accepted_stage : ℕ
offchain_tx_accepted_stage = 2

abbrev pub offchain_tx_finalized_stage : ℕ
offchain_tx_finalized_stage = 3

pub record OffchainTx : Type 0 where
  pub stage : Stage
  pub starting_timestamp : ℤ
  pub ending_timestamp : ℤ
  pub ark_txid : String
  pub ark_tx : String
  pub checkpoint_txs : List (String × String)
  pub commitment_txids : List (String × String)
  pub root_commitment_txid : String
  pub expiry_timestamp : ℤ
  pub depth : ℕ  -- uint32
  pub parent_marker_ids : List String
  pub fail_reason : String
  pub version : ℕ
  pub changes : List Event

pub data OffchainTxError : Type 0 where
  bad_stage missing_ark_txid missing_ark_tx missing_checkpoint_txs : OffchainTxError
  bad_checkpoint_count missing_commitment_txids missing_root_commitment_txid : OffchainTxError
  missing_expiry checkpoint_not_found : OffchainTxError

abbrev pub new_offchain_tx : OffchainTx
new_offchain_tx = record {
  stage = empty_stage;
  starting_timestamp = pos 0;
  ending_timestamp = pos 0;
  ark_txid = "";
  ark_tx = "";
  checkpoint_txs = [];
  commitment_txids = [];
  root_commitment_txid = "";
  expiry_timestamp = pos 0;
  depth = 0;
  parent_marker_ids = [];
  fail_reason = "";
  version = 0;
  changes = [];
}

abbrev pub is_failed : OffchainTx → Bool
is_failed s = s.stage.failed

pub is_requested : OffchainTx → Bool
is_requested s = not (is_failed s) && s.stage.code == offchain_tx_requested_stage

pub is_accepted : OffchainTx → Bool
is_accepted s = not (is_failed s) && s.stage.code == offchain_tx_accepted_stage

pub is_finalized : OffchainTx → Bool
is_finalized s = not (is_failed s) && s.stage.code == offchain_tx_finalized_stage

-- The values of the map without repetition: the keys of an index of them.
index_values : List (String × String) → List (String × Unit {0})
index_values [] = []
index_values ((k, v) ∷ m) = insert v tt (index_values m)

pub commitment_txids_list : OffchainTx → List String
unfolding index_values
commitment_txids_list s = map (λ e. e.0) (index_values s.commitment_txids)

pub checkpoint_txs_list : OffchainTx → List String
checkpoint_txs_list s = map (λ e. e.1) s.checkpoint_txs

abbrev bump_version : Bool → OffchainTx → OffchainTx
bump_version true s = record s { version = s.version + 1 }
bump_version false s = s

-- The early returns of the cases leave the version alone; the last clause is an event of another
-- aggregate, which the switch ignores and the version counts.
on : Event → Bool → OffchainTx → OffchainTx
on (offchain_tx_requested e) replayed s =
    let can_retry = s.stage.failed && s.stage.code == offchain_tx_requested_stage in
    if not (s.stage.code == offchain_tx_undefined_stage) && not can_retry
    then s
    else bump_version replayed (record s {
      stage = record { code = offchain_tx_requested_stage; ended = s.stage.ended; failed = false };
      fail_reason = "";
      ark_txid = e.id;
      ark_tx = e.ark_tx;
      checkpoint_txs = e.unsigned_checkpoint_txs;
      starting_timestamp = e.starting_timestamp;
    })
on (offchain_tx_accepted e) replayed s =
    if not (s.stage.code == offchain_tx_requested_stage) || s.stage.failed
    then s
    else bump_version replayed (record s {
      stage = record {
        code = offchain_tx_accepted_stage;
        ended = s.stage.ended;
        failed = s.stage.failed;
      };
      ark_tx = e.final_ark_tx;
      checkpoint_txs = e.signed_checkpoint_txs;
      commitment_txids = e.commitment_txids;
      root_commitment_txid = e.root_commitment_txid;
      expiry_timestamp = e.expiry_timestamp;
      depth = e.depth;
      parent_marker_ids = e.parent_marker_ids;
    })
on (offchain_tx_finalized e) replayed s =
    if not (s.stage.code == offchain_tx_accepted_stage)
    then s
    else bump_version replayed (record s {
      stage = record { code = offchain_tx_finalized_stage; ended = true; failed = false };
      fail_reason = "";
      checkpoint_txs = e.final_checkpoint_txs;
      ending_timestamp = e.timestamp;
    })
on (offchain_tx_failed e) replayed s =
    if s.stage.code == offchain_tx_finalized_stage || s.stage.failed
    then s
    else bump_version replayed (record s {
      stage = record { code = s.stage.code; ended = s.stage.ended; failed = true };
      fail_reason = e.reason;
    })
on _ replayed s = bump_version replayed s

raise : Event → OffchainTx → OffchainTx
raise e s = on e false (record s { changes = s.changes ++ e ∷ [] })

replay : List Event → OffchainTx → OffchainTx
replay [] s = s
replay (e ∷ es) s = replay es (on e true s)

pub new_offchain_tx_from_events : List Event → OffchainTx
new_offchain_tx_from_events es = record (replay es new_offchain_tx) { changes = es }

abbrev raised : Event → OffchainTx → OffchainTx × Result OffchainTxError Event
raised e s = (raise e s, ok e)

abbrev refuse : OffchainTxError → OffchainTx → OffchainTx × Result OffchainTxError Event
refuse x s = (s, err x)

pub request :
    String
    → String
    → List (String × String)
    → ℤ
    → OffchainTx
    → OffchainTx × Result OffchainTxError Event
request ark_txid ark_tx unsigned_checkpoint_txs now s =
    if is_failed s || not (s.stage.code == offchain_tx_undefined_stage)
    then refuse bad_stage s
    else if is_empty ark_txid
    then refuse missing_ark_txid s
    else if is_empty ark_tx
    then refuse missing_ark_tx s
    else if is_nil unsigned_checkpoint_txs
    then refuse missing_checkpoint_txs s
    else raised
        (offchain_tx_requested (record {
          id = ark_txid;
          ark_tx = ark_tx;
          unsigned_checkpoint_txs = unsigned_checkpoint_txs;
          starting_timestamp = now;
        }))
        s

-- The arguments of `Accept`.
pub record Acceptance : Type 0 where
  pub final_ark_tx : String
  pub signed_checkpoint_txs : List (String × String)
  pub commitment_txs_by_checkpoint_txid : List (String × String)
  pub root_commitment_tx : String
  pub expiry_timestamp : ℤ
  pub depth : ℕ
  pub parent_marker_ids : List String

pub accept : Acceptance → OffchainTx → OffchainTx × Result OffchainTxError Event
unfolding is_requested
accept a s =
    if is_empty a.final_ark_tx
    then refuse missing_ark_tx s
    else if is_nil a.signed_checkpoint_txs
    then refuse missing_checkpoint_txs s
    else if not (length a.signed_checkpoint_txs == length s.checkpoint_txs)
    then refuse bad_checkpoint_count s
    else if is_nil a.commitment_txs_by_checkpoint_txid
    then refuse missing_commitment_txids s
    else if is_empty a.root_commitment_tx
    then refuse missing_root_commitment_txid s
    else if not (is_requested s)
    then refuse bad_stage s
    else if not (is_pos a.expiry_timestamp)
    then refuse missing_expiry s
    else raised
        (offchain_tx_accepted (record {
          id = s.ark_txid;
          commitment_txids = a.commitment_txs_by_checkpoint_txid;
          root_commitment_txid = a.root_commitment_tx;
          final_ark_tx = a.final_ark_tx;
          signed_checkpoint_txs = a.signed_checkpoint_txs;
          expiry_timestamp = a.expiry_timestamp;
          depth = a.depth;
          parent_marker_ids = a.parent_marker_ids;
        }))
        s

-- `for txid := range s.CheckpointTxs`: whether every key is among the final ones.
all_found : List (String × String) → List (String × String) → Bool
all_found [] final = true
all_found ((k, v) ∷ m) final = has k final && all_found m final

pub finalize : List (String × String) → ℤ → OffchainTx → OffchainTx × Result OffchainTxError Event
finalize final_checkpoint_txs now s =
    if is_nil final_checkpoint_txs
    then refuse missing_checkpoint_txs s
    else if not (length final_checkpoint_txs == length s.checkpoint_txs)
    then refuse bad_checkpoint_count s
    else if not (all_found s.checkpoint_txs final_checkpoint_txs)
    then refuse checkpoint_not_found s
    else if not (s.stage.code == offchain_tx_accepted_stage)
    then refuse bad_stage s
    else raised
        (offchain_tx_finalized (record {
          id = s.ark_txid;
          final_checkpoint_txs = final_checkpoint_txs;
          timestamp = now;
        }))
        s

-- `Fail` cannot be refused.
pub fail : String → ℤ → OffchainTx → OffchainTx × Result OffchainTxError Event
fail reason now s =
    raised (offchain_tx_failed (record { id = s.ark_txid; reason = reason; timestamp = now })) s

-- A call of one of the operations, and a history of calls.
pub data Call : Type 0 where
  requests : String → String → List (String × String) → ℤ → Call
  accepts : Acceptance → Call
  finalizes : List (String × String) → ℤ → Call
  fails : String → ℤ → Call

pub call : Call → OffchainTx → OffchainTx × Result OffchainTxError Event
call (requests txid tx checkpoints now) s = request txid tx checkpoints now s
call (accepts a) s = accept a s
call (finalizes checkpoints now) s = finalize checkpoints now s
call (fails reason now) s = fail reason now s

pub run : OffchainTx → List Call → OffchainTx
run s [] = s
run s (c ∷ cs) = run (call c s).0 cs
