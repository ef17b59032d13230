-- ===== src/Domain/OnchainTx.antt =====
-- internal/core/domain/onchain_tx.go: an onchain transaction as an aggregate of its events.
-- The clock is an argument. An input is given by its string (`Outpoint.String`), and a set of such
-- strings is the list of its members.
pub mod Laws
mod Examples
use arkd.Base.{
  ℕ, ◌+◌, String, Bool, true, false, not, ◌&&◌, ◌||◌, List, [], ◌∷◌, ◌++◌, map, ◌==◌, ltb,
  if◌then◌else◌, is_nil, str_eq,
}
use arkd.Base.Int.{ℤ, pos, is_pos}
use arkd.Base.Results.{Result, ok, err}
use arkd.Domain.Types.{Stage, is_empty, empty_stage}
use arkd.Domain.Event.{Event, onchain_tx_broadcasted, onchain_tx_confirmed}

abbrev pub onchain_tx_undefined_stage : ℕ
onchain_tx_undefined_stage = 0

abbrev pub onchain_tx_broadcasted_stage : ℕ
onchain_tx_broadcasted_stage = 1

abbrev pub onchain_tx_confirmed_stage : ℕ
onchain_tx_confirmed_stage = 2

pub record OnchainTx : Type 0 where
  pub stage : Stage
  pub broadcasted_at : ℤ
  pub confirmed_at_time : ℤ
  pub confirmed_at_height : ℕ  -- uint64
  pub txid : String
  pub tx : String
  pub signed_inputs : List String
  pub version : ℕ
  pub changes : List Event

pub data OnchainTxError : Type 0 where
  bad_stage missing_txid missing_tx missing_inputs missing_time missing_height : OnchainTxError

abbrev pub new_onchain_tx : OnchainTx
new_onchain_tx = record {
  stage = empty_stage;
  broadcasted_at = pos 0;
  confirmed_at_time = pos 0;
  confirmed_at_height = 0;
  txid = "";
  tx = "";
  signed_inputs = [];
  version = 0;
  changes = [];
}

-- `set[s] = struct{}{}`
add_member : String → List String → List String
add_member s [] = s ∷ []
add_member s (t ∷ ts) = if str_eq t s then t ∷ ts else t ∷ add_member s ts

index_inputs : List String → List String → List String
unfolding add_member
index_inputs [] set = set
index_inputs (s ∷ ss) set = index_inputs ss (add_member s set)

pub is_broadcasted : OnchainTx → Bool
is_broadcasted s = s.stage.code == onchain_tx_broadcasted_stage && not (is_empty s.txid)

pub is_confirmed : OnchainTx → Bool
is_confirmed s =
    s.stage.code == onchain_tx_confirmed_stage
    && s.stage.ended
    && is_pos s.confirmed_at_time
    && ltb 0 s.confirmed_at_height

abbrev bump_version : Bool → OnchainTx → OnchainTx
bump_version true s = record s { version = s.version + 1 }
bump_version false s = s

-- The last clause is an event of another aggregate, which only the version counts.
on : Event → Bool → OnchainTx → OnchainTx
on (onchain_tx_broadcasted e) replayed s =
    if not (s.stage.code == onchain_tx_undefined_stage)
    then s
    else bump_version replayed (record s {
      stage = record { code = onchain_tx_broadcasted_stage; ended = s.stage.ended; failed = false };
      txid = e.id;
      tx = e.tx;
      signed_inputs = e.signed_inputs;
      broadcasted_at = e.timestamp;
    })
on (onchain_tx_confirmed e) replayed s =
    if not (s.stage.code == onchain_tx_broadcasted_stage)
    then s
    else bump_version replayed (record s {
      stage = record { code = onchain_tx_confirmed_stage; ended = true; failed = s.stage.failed };
      confirmed_at_time = e.confirmed_at_time;
      confirmed_at_height = e.confirmed_at_height;
    })
on _ replayed s = bump_version replayed s

raise : Event → OnchainTx → OnchainTx
raise e s = on e false (record s { changes = s.changes ++ e ∷ [] })

replay : List Event → OnchainTx → OnchainTx
replay [] s = s
replay (e ∷ es) s = replay es (on e true s)

pub new_onchain_tx_from_events : List Event → OnchainTx
new_onchain_tx_from_events es = record (replay es new_onchain_tx) { changes = es }

abbrev raised : Event → OnchainTx → OnchainTx × Result OnchainTxError Event
raised e s = (raise e s, ok e)

abbrev refuse : OnchainTxError → OnchainTx → OnchainTx × Result OnchainTxError Event
refuse x s = (s, err x)

pub broadcast :
    String → String → List String → ℤ → OnchainTx → OnchainTx × Result OnchainTxError Event
unfolding index_inputs
broadcast txid tx signed_inputs now s =
    if not (s.stage.code == onchain_tx_undefined_stage)
    then refuse bad_stage s
    else if is_empty txid
    then refuse missing_txid s
    else if is_empty tx
    then refuse missing_tx s
    else if is_nil signed_inputs
    then refuse missing_inputs s
    else raised
        (onchain_tx_broadcasted (record {
          id = txid;
          tx = tx;
          signed_inputs = index_inputs signed_inputs [];
          timestamp = now;
        }))
        s

pub confirm : ℤ → ℕ → OnchainTx → OnchainTx × Result OnchainTxError Event
confirm confirmed_at_time confirmed_at_height s =
    if not (s.stage.code == onchain_tx_broadcasted_stage)
    then refuse bad_stage s
    else if not (is_pos confirmed_at_time)
    then refuse missing_time s
    else if confirmed_at_height == 0
    then refuse missing_height s
    else raised
        (onchain_tx_confirmed (record {
          id = s.txid;
          confirmed_at_time = confirmed_at_time;
          confirmed_at_height = confirmed_at_height;
        }))
        s

-- A call of one of the operations, and a history of calls.
pub data Call : Type 0 where
  broadcasts : String → String → List String → ℤ → Call
  confirms : ℤ → ℕ → Call

pub call : Call → OnchainTx → OnchainTx × Result OnchainTxError Event
call (broadcasts txid tx inputs now) s = broadcast txid tx inputs now s
call (confirms time height) s = confirm time height s

pub run : OnchainTx → List Call → OnchainTx
run s [] = s
run s (c ∷ cs) = run (call c s).0 cs
