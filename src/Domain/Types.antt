-- ===== src/Domain/Types.antt =====
-- The plain data of internal/core/domain: outpoints, vtxos, receivers, stages and flat tx trees.
use arkd.Base.{
  ℕ, String, Bool, false, not, ◌&&◌, List, [], ◌∷◌, str_eq, is_nil, ◌==◌, if◌then◌else◌,
}
use arkd.Base.Int.{ℤ}
use arkd.Asset.{Asset}

-- `len(s) <= 0`, and `s == ""`.
abbrev pub is_empty : String → Bool
is_empty s = str_eq s ""

pub record Outpoint : Type 0 where
  pub txid : String
  pub vout : ℕ  -- uint32

pub record Vtxo : Type 0 where
  pub outpoint : Outpoint
  pub amount : ℕ  -- uint64
  pub pub_key : String
  pub commitment_txids : List String
  pub root_commitment_txid : String
  pub settled_by : String
  pub spent_by : String
  pub ark_txid : String
  pub spent : Bool
  pub unrolled : Bool
  pub swept : Bool
  pub preconfirmed : Bool
  pub expires_at : ℤ
  pub created_at : ℤ
  pub depth : ℕ  -- uint32
  pub marker_ids : List String
  pub assets : List Asset

unfoldable pub is_note : Vtxo → Bool
is_note v = is_nil v.commitment_txids && is_empty v.root_commitment_txid

unfoldable pub requires_forfeit : Vtxo → Bool
unfolding is_note
requires_forfeit v = not v.swept && not (is_note v) && not v.unrolled

pub record Stage : Type 0 where
  pub code : ℕ
  pub ended : Bool
  pub failed : Bool

abbrev pub empty_stage : Stage
empty_stage = record { code = 0; ended = false; failed = false }

-- `s == Stage{}`
abbrev pub is_empty_stage : Stage → Bool
is_empty_stage s = s.code == 0 && not s.ended && not s.failed

pub record ForfeitTx : Type 0 where
  pub txid : String
  pub tx : String

-- A node of a serialised tree of transactions; `children` maps an output index to a child's txid.
pub record TxTreeNode : Type 0 where
  pub txid : String
  pub tx : String
  pub children : List (ℕ × String)

abbrev pub FlatTxTree : Type 0
FlatTxTree = List TxTreeNode

-- The nodes with no child.
unfoldable pub leaves : FlatTxTree → List TxTreeNode
leaves [] = []
leaves (n ∷ ns) = let rest = leaves ns in if is_nil n.children then n ∷ rest else rest
