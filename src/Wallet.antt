-- ===== src/Wallet.antt =====
-- pkg/arkd-wallet/core/application/wallet: the coins that the wallet selects, and the outpoints that it
-- locks.
use arkd.Base.{ℕ, String, Bool, true, false, ◌&&◌, ◌≡◌, refl, ◌==◌, str_eq, eq_iff, arith, ap, sym}
pub mod Coins
pub mod Locker
pub mod Service
mod Examples

-- wire.OutPoint
pub record OutPoint : Type 0 where
  pub hash : String
  pub index : ℕ

-- Equality of the keys of a map of outpoints.
abbrev pub same_outpoint : OutPoint → OutPoint → Bool
same_outpoint a b = str_eq a.hash b.hash && (a.index == b.index)

-- What the wallet reads of ports.Utxo.
pub record Utxo : Type 0 where
  pub outpoint : OutPoint
  pub value : ℕ
  pub script : String
  pub confirmations : ℕ

pub same_self : (a : OutPoint) → same_outpoint a a ≡ true
same_self a = ground (arith, eq_iff a.hash a.hash)

pub same_outpoint-eq : (a b : OutPoint) → same_outpoint a b ≡ true → a ≡ b
same_outpoint-eq a b h =
    let hash : a.hash ≡ b.hash = ground (arith, eq_iff a.hash b.hash) in
    let index : a.index ≡ b.index = ground arith in cc
