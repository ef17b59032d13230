-- ===== src/Domain/Round/Invariant.antt =====
-- What holds of a round between two calls, and when it counts as swept.
use arkd.Base.{
  ℕ, ◌+◌, ◌<◌, String, ◌≡◌, refl, true, false, List, [], ◌∷◌, ◌++◌, none, arith, All, is_nil, ◌==◌,
  length,
}
use arkd.Base.Maps.{insert, All-insert}
use arkd.Base.Int.{is_pos}
use arkd.Domain.Types.{Outpoint, is_empty, leaves}
use arkd.Domain.Intent.{Intent, validate}
use arkd.Domain.Event.{Event, batch_swept}
use arkd.Domain.Round.{
  Round, Call, is_ended, new_round, on, raise, call, run, start_registration, register_intents,
  register_all, start_finalization, end_finalization, sweep, fail, starts_registration,
  registers_intents, validate_all, starts_finalization, ends_finalization, sweeps, fails,
  leaf_count, count_swept_from, count_swept_leaf_vtxos,
}

-- A registered intent is valid, with its receivers, and is filed under its id.
abbrev pub IsRegistered : String × Intent → Type 0
IsRegistered p = (p.0 ≡ p.1.id) × (validate false p.1 ≡ none)

pub record Inv (r : Round) : Type 0 where
  pub ended_last : r.stage.ended ≡ true → r.stage.code ≡ 2
  pub registered : All IsRegistered r.intents
  pub dated : r.stage.code ≡ 2 → is_pos r.vtxo_tree_expiration ≡ true
  pub committed : r.stage.code ≡ 2 → is_empty r.commitment_txid ≡ false
  pub populated : r.stage.code ≡ 2 → is_nil r.intents ≡ false
  pub swept_ended : r.swept ≡ true → r.stage.ended ≡ true
  pub unswept : r.stage.ended ≡ false → count_swept_leaf_vtxos r.changes ≡ 0
  pub swept_all : r.swept ≡ true → count_swept_leaf_vtxos r.changes ≡ length (leaves r.vtxo_tree)

count_swept_from-append :
    (n : ℕ) (es : List Event) (e : Event)
    → count_swept_from n (es ++ e ∷ []) ≡ count_swept_from n es + leaf_count e
unfolding count_swept_from
count_swept_from-append n [] e = refl
count_swept_from-append n (x ∷ es) e = count_swept_from-append (n + leaf_count x) es e

count-append :
    (es : List Event) (e : Event)
    → count_swept_leaf_vtxos (es ++ e ∷ []) ≡ count_swept_leaf_vtxos es + leaf_count e
unfolding count_swept_leaf_vtxos
count-append es e = count_swept_from-append 0 es e

IsRegistered-register_all :
    (is : List Intent) (m : List (String × Intent))
    → validate_all is ≡ none
    → All IsRegistered m
    → All IsRegistered (register_all is m)
unfolding register_all validate_all
IsRegistered-register_all [] m v h = h
IsRegistered-register_all (i ∷ is) m v h =
    IsRegistered-register_all is (insert i.id i m) (ground arith)
      (All-insert IsRegistered i.id i m (refl, ground arith) h)

is_nil-insert :
    (k : String) (i : Intent) (m : List (String × Intent)) → is_nil (insert k i m) ≡ false
is_nil-insert k i [] = refl
is_nil-insert k i ((j, w) ∷ m) = ground arith

is_nil-register_all :
    (is : List Intent) (m : List (String × Intent))
    → is_nil m ≡ false
    → is_nil (register_all is m) ≡ false
unfolding register_all
is_nil-register_all [] m h = h
is_nil-register_all (i ∷ is) m h = is_nil-register_all is (insert i.id i m) (is_nil-insert i.id i m)

call-Inv : (c : Call) (r : Round) → Inv r → Inv (call c r).0
unfolding call on raise start_registration register_intents start_finalization end_finalization
    sweep fail
call-Inv (starts_registration now) r v = grind (arith, count-append)
call-Inv (registers_intents is) r v =
    grind (arith, count-append, IsRegistered-register_all, is_nil-register_all)
call-Inv (starts_finalization f) r v = grind (arith, count-append)
call-Inv (ends_finalization txs tx fees now) r v = grind (arith, count-append)
call-Inv (sweeps leaf pre txid tx) r v = grind (arith, count-append)
call-Inv (fails reason now) r v = grind (arith, count-append)

run-from-Inv : (cs : List Call) (r : Round) → Inv r → Inv (run r cs)
unfolding run
run-from-Inv [] r v = v
run-from-Inv (c ∷ cs) r v = run-from-Inv cs (call c r).0 (call-Inv c r v)

new_round-Inv : (uuid : String) → Inv (new_round uuid)
unfolding count_swept_leaf_vtxos count_swept_from
new_round-Inv uuid = ground arith

-- After any history of calls: a round that has ended is in the finalization stage; every registered
-- intent is valid with its receivers and is filed under its id; in the finalization stage the round
-- has intents, a commitment txid and a positive expiration; nothing was swept before the end; and a
-- round that counts as swept has ended and has had exactly as many leaf vtxos swept as its tree has
-- leaves.
pub run-Inv : (uuid : String) (cs : List Call) → Inv (run (new_round uuid) cs)
run-Inv uuid cs = run-from-Inv cs (new_round uuid) (new_round-Inv uuid)

-- A sweep of a round that has ended and does not count as swept yet makes it count as swept exactly
-- if the leaf vtxos swept in its whole history, this sweep included, are as many as the leaves.
pub swept-sweep :
    (leaf pre : List Outpoint) (txid tx : String) (r : Round)
    → is_ended r ≡ true
    → r.swept ≡ false
    → let r' = (sweep leaf pre txid tx r).0 in
      r'.swept ≡ (count_swept_leaf_vtxos r'.changes == length (leaves r.vtxo_tree))
unfolding sweep on raise
swept-sweep leaf pre txid tx r e s = ground (
  arith,
  count-append r.changes (
      batch_swept (record {
        id = r.id;
        leaf_vtxos = leaf;
        preconfirmed_vtxos = pre;
        txid = txid;
        tx = tx;
        fully_swept = length leaf + count_swept_leaf_vtxos r.changes == length (leaves r.vtxo_tree);
      })),
)

-- The round has ended, and more leaf vtxos were reported swept than its tree has leaves.
pub record Overswept (r : Round) : Type 0 where
  pub last : r.stage.code ≡ 2
  pub ended : r.stage.ended ≡ true
  pub not_swept : r.swept ≡ false
  pub over : length (leaves r.vtxo_tree) < count_swept_leaf_vtxos r.changes

call-Overswept : (c : Call) (r : Round) → Overswept r → Overswept (call c r).0
unfolding call on raise start_registration register_intents start_finalization end_finalization
    sweep fail
call-Overswept (starts_registration now) r v = grind (arith, count-append)
call-Overswept (registers_intents is) r v = grind (arith, count-append)
call-Overswept (starts_finalization f) r v = grind (arith, count-append)
call-Overswept (ends_finalization txs tx fees now) r v = grind (arith, count-append)
call-Overswept (sweeps leaf pre txid tx) r v = grind (arith, count-append)
call-Overswept (fails reason now) r v = grind (arith, count-append)

run-Overswept : (cs : List Call) (r : Round) → Overswept r → Overswept (run r cs)
unfolding run
run-Overswept [] r v = v
run-Overswept (c ∷ cs) r v = run-Overswept cs (call c r).0 (call-Overswept c r v)

-- The count is compared for equality: once a round that does not count as swept has had more leaf
-- vtxos reported swept than its tree has leaves, no later call ever makes it count as swept.
pub swept-run-Overswept : (r : Round) (cs : List Call) → Overswept r → (run r cs).swept ≡ false
swept-run-Overswept r cs v = (run-Overswept cs r v).not_swept
