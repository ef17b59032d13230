-- ===== src/Domain/Intent/Examples.antt =====
-- An intent with an overflowing pair of receivers.
use arkd.Base.{◌-◌, ◌^◌, false, [], ◌∷◌}
use arkd.Base.Int.{pos}
use arkd.Domain.Types.{Vtxo}
use arkd.Domain.Intent.{Intent, Receiver}

abbrev huge : Receiver
huge = record { amount = 2 ^ 64 - 1; onchain_address = "bc1"; pub_key = "" }

abbrev two : Receiver
two = record { amount = 2; onchain_address = ""; pub_key = "k" }

abbrev coin : Vtxo
coin = record {
  outpoint = record { txid = "o"; vout = 0 };
  amount = 2 ^ 63;
  pub_key = "k";
  commitment_txids = "c" ∷ [];
  root_commitment_txid = "c";
  settled_by = "";
  spent_by = "";
  ark_txid = "";
  spent = false;
  unrolled = false;
  swept = false;
  preconfirmed = false;
  expires_at = pos 9;
  created_at = pos 1;
  depth = 0;
  marker_ids = [];
  assets = [];
}

abbrev request : Intent
request = record {
  id = "i";
  inputs = coin ∷ coin ∷ [];
  receivers = huge ∷ two ∷ [];
  proof = "p";
  message = "m";
  txid = "t";
  leaf_tx_extension = "";
}
