-- ===== src/Domain/Event.antt =====
-- The events of the three aggregates: round_event.go, offchain_tx_event.go and onchain_tx_event.go.
-- The `Type` field of an event is its constructor. A set of strings is the list of its members.
use arkd.Base.{ℕ, String, Bool, List}
use arkd.Base.Int.{ℤ}
use arkd.Domain.Types.{Outpoint, ForfeitTx, FlatTxTree}
use arkd.Domain.Intent.{Intent}

pub record RoundStarted : Type 0 where
  pub id : String
  pub timestamp : ℤ

pub record RoundFinalizationStarted : Type 0 where
  pub id : String
  pub vtxo_tree : FlatTxTree
  pub connectors : FlatTxTree
  pub connector_address : String
  pub commitment_txid : String
  pub commitment_tx : String
  pub vtxo_tree_expiration : ℤ

pub record RoundFinalized : Type 0 where
  pub id : String
  pub forfeit_txs : List ForfeitTx
  pub final_commitment_tx : String
  pub fees : ℕ  -- uint64
  pub timestamp : ℤ

pub record RoundFailed : Type 0 where
  pub id : String
  pub reason : String
  pub timestamp : ℤ

pub record IntentsRegistered : Type 0 where
  pub id : String
  pub intents : List Intent

pub record BatchSwept : Type 0 where
  pub id : String
  pub leaf_vtxos : List Outpoint
  pub preconfirmed_vtxos : List Outpoint
  pub txid : String
  pub tx : String
  pub fully_swept : Bool

pub record OffchainTxRequested : Type 0 where
  pub id : String
  pub ark_tx : String
  pub unsigned_checkpoint_txs : List (String × String)
  pub starting_timestamp : ℤ

pub record OffchainTxAccepted : Type 0 where
  pub id : String
  pub commitment_txids : List (String × String)
  pub root_commitment_txid : String
  pub final_ark_tx : String
  pub signed_checkpoint_txs : List (String × String)
  pub expiry_timestamp : ℤ
  pub depth : ℕ  -- uint32
  pub parent_marker_ids : List String

pub record OffchainTxFinalized : Type 0 where
  pub id : String
  pub final_checkpoint_txs : List (String × String)
  pub timestamp : ℤ

pub record OffchainTxFailed : Type 0 where
  pub id : String
  pub reason : String
  pub timestamp : ℤ

pub record OnchainTxBroadcasted : Type 0 where
  pub id : String
  pub tx : String
  pub signed_inputs : List String
  pub timestamp : ℤ

pub record OnchainTxConfirmed : Type 0 where
  pub id : String
  pub confirmed_at_time : ℤ
  pub confirmed_at_height : ℕ  -- uint64

pub data Event : Type 0 where
  round_started : RoundStarted → Event
  round_finalization_started : RoundFinalizationStarted → Event
  round_finalized : RoundFinalized → Event
  round_failed : RoundFailed → Event
  intents_registered : IntentsRegistered → Event
  batch_swept : BatchSwept → Event
  offchain_tx_requested : OffchainTxRequested → Event
  offchain_tx_accepted : OffchainTxAccepted → Event
  offchain_tx_finalized : OffchainTxFinalized → Event
  offchain_tx_failed : OffchainTxFailed → Event
  onchain_tx_broadcasted : OnchainTxBroadcasted → Event
  onchain_tx_confirmed : OnchainTxConfirmed → Event
