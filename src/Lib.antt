-- ===== src/Lib.antt =====
-- arkd is the Ark server. Users register intents, the server gathers them into a round whose
-- commitment transaction creates vtxos, and between rounds vtxos are spent by offchain
-- transactions. The server keeps rounds, offchain transactions and onchain transactions as
-- aggregates: an operation checks its guards, raises an event, and the aggregate is rebuilt from
-- its events. Transactions may carry a packet of asset groups in an OP_RETURN output, which the
-- library encodes, decodes and validates.
--
-- Base: what the other modules share. Numbers are the native naturals; a uint64 that may wrap is
-- written out modulo 2^64, and an int64 is an integer of Base.Int. A Go map with string keys is an
-- association list (Base.Maps), and a pair of a value and an error is a Result (Base.Results).
--
-- Domain: internal/core/domain. Types has outpoints, vtxos and stages (vtxo.go, round.go) and the
-- flat trees of pkg/ark-lib/tree/tx_tree.go. Intent is intent.go, Event the event files, and
-- Round, OffchainTx and OnchainTx are round.go, offchain_tx.go and onchain_tx.go. A method with a
-- pointer receiver is a function that returns the new aggregate and its result; `on` and `raise`
-- are the methods of these names; `call` is one operation and `run` a history of them. The clock
-- and the uuid are arguments of the operations. An error that a caller passes is its message.
--
-- Asset: pkg/ark-lib/asset. Bytes is utils.go, Ids is asset_id.go and asset_ref.go, Inputs,
-- Outputs, Metadata, Group and Packet are the files of these names, and Tx and Validation are
-- tx_validation.go. A reader takes the bytes that are left and returns the value and the rest. The
-- serialisation of a part is the list of bytes that it writes. The hash of a transaction, the
-- hexadecimal encoding and the script tokeniser are libraries: they are parameters of Validation,
-- and its theorems hold for all of them.
--
-- Locktime: pkg/ark-lib/locktime.go. A sequence number is a natural number, and the bits of a
-- script number are those of its two's complement. LockTimeToSequence and MakeScriptNum belong to
-- libraries: they are parameters, and EncodesLocktimes states what the documentation of the first
-- one says.
--
-- Wallet: pkg/arkd-wallet/core/application/wallet, of coinselect.go, outpoint_locker.go and, of
-- service.go, SelectUtxos, selectCoins and selectCoinsForWithdraw. The sorts, the selector of the
-- fewest coins and the explorer belong to libraries and services: they are parameters, and
-- IsDocumented states what the documentation of the first three says. selectCoins returns a value
-- through a float64, which holds only the natural numbers up to 2^53 exactly, and a script through
-- its hexadecimal decoding, whose error is dropped: these conversions are parameters too. An
-- amount in satoshi is a number below 2^63. The search of branchAndBound is bounded by its tries,
-- as in the code. A clock is read for each entry of the map of locks. lock releases its mutex
-- between the snapshot of get and commit: `lock` is the call that nothing interrupts in between,
-- and a call that is interrupted there is get and commit as separate steps. Derivation of keys,
-- signing and broadcasting are not modelled.
--
-- Tree: pkg/ark-lib/tree/tx_tree.go. A tree and its children are two data types, and the children
-- are listed in the order in which the map is iterated. Decoding and encoding of transactions
-- belong to a library and are parameters; IsCodec states that what is encoded is decoded.
-- buildTree has no bound in the code: it is a function on fuel, and a rank of the txids below the
-- fuel is enough. Find, FindInput and Apply are not modelled.
--
-- Broker: internal/interface/grpc/handlers/broker.go. The operations of the broker hold a lock, so
-- a run is a sequence of calls by streams, requests and timers, and the callback of a timer may
-- come at any time. The pointers to attachments and timers are numbers that are given once. The
-- formatting of a topic is a parameter, and so is the type of a compiled filter. The channels and
-- the matching of events are not modelled.
--
-- Extension: pkg/ark-lib/extension. The tokenizer of scripts belongs to a library, so reading
-- starts at the data of the second token. The loop over the packets is a function on fuel, and the
-- number of bytes is enough, since every round reads at least one. GetAssetPacket,
-- GetPacketByType, TxOut, IsExtension and NewExtensionFromTx are not modelled.
--
-- Intents: internal/infrastructure/live-store/redis/intents.go, with kv.go. Redis is a service:
-- the record Redis has the commands that the store uses, with what their documentation says, and
-- Tables implements it over lists, so that the operations can be evaluated. A transaction that
-- watches its keys is one step, and errors of the connection are left out. A time is a natural
-- number. Values are stored as JSON, which is taken to restore them. Update, which no caller can
-- reach, and GetSelectedIntents, which returns a field, are not modelled. The other stores of the
-- directory are not modelled.
--
-- Batches: internal/core/application/batch_session_manager.go, and in Protocol the steps of
-- RegisterIntent, startRound, startConfirmation and finalizeRound of
-- internal/core/application/service.go that touch the queue of intents, the projections and the
-- lock of registrations, in any order that the lock allows. The ids of new intents are used
-- nowhere yet, and the id of a batch has no separator, as uuids have it. The inputs that a batch
-- settles are ones that it took and that still await their release. The call of the admin service
-- that clears the whole store is no step of it.
--
-- Tokens: internal/core/application/token_cache.go, and of indexer.go what createAuthToken does
-- with the cache. A time is a natural number, the duration of the cache is an argument, and the
-- clock is read once in a call. Hashing, signing and the validation of signatures belong to
-- libraries and are left out. Maps are lists in the order of their iteration.
--
-- The loops are structural. A uint64 takes at most ten bytes as a varint, so `put_uvarint` is
-- given nine continuations and `read_uvarint` ten rounds. `swap_loop` is given half the length of
-- the slice, as in the source.
--
-- Not modelled: the rest of the application services, repositories, transaction building and the
-- interfaces, which orchestrate external services; the codes of errors stand without their
-- messages. Constructors from hexadecimal strings and the merkle tree of the metadata, which needs
-- SHA-256, are left out. Each property has a witness at a concrete input in the Examples modules.
pub mod Asset
pub mod Base
pub mod Batches
pub mod Broker
pub mod Domain
pub mod Extension
pub mod Intents
pub mod Locktime
pub mod Tokens
pub mod Tree
pub mod Wallet
