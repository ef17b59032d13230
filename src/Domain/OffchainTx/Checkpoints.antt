-- ===== src/Domain/OffchainTx/Checkpoints.antt =====
-- The checkpoint txs that `Finalize` stores (internal/core/domain/offchain_tx.go).
use arkd.Base.{
  ◌+◌, ◌≤◌, String, ◌≡◌, refl, Bool, true, false, List, [], ◌∷◌, if◌then◌else◌, length, Bool-cases,
  inl, inr, arith, str_eq, eq_iff,
}
use arkd.Base.Int.{ℤ}
use arkd.Base.Maps.{has}
use arkd.Base.Results.{ok}
use arkd.Domain.Event.{Event}
use arkd.Domain.OffchainTx.{OffchainTx, all_found, on, raise, finalize}

-- The keys of a Go map are distinct.
abbrev pub Distinct : List (String × String) → Type 0
Distinct [] = Unit {0}
Distinct ((k, v) ∷ m) = (has k m ≡ false) × Distinct m

erase : String → List (String × String) → List (String × String)
erase j [] = []
erase j ((k, v) ∷ m) = if str_eq k j then m else (k, v) ∷ erase j m

has-erase_ne :
    (k j : String) (m : List (String × String)) → str_eq j k ≡ false → has k (erase j m) ≡ has k m
unfolding erase
has-erase_ne k j [] h = refl
has-erase_ne k j ((i, v) ∷ m) h =
    ground (arith, eq_iff i j, eq_iff i k, eq_iff j k, has-erase_ne k j m h)

length-erase :
    (j : String) (m : List (String × String)) → has j m ≡ true → length (erase j m) + 1 ≡ length m
unfolding erase
length-erase j [] h = cc
length-erase j ((k, v) ∷ m) h = ground (arith, length-erase j m)

all_found-erase :
    (j : String) (xs ys : List (String × String))
    → has j xs ≡ false
    → all_found xs ys ≡ true
    → all_found xs (erase j ys) ≡ true
unfolding all_found
all_found-erase j [] ys h a = refl
all_found-erase j ((k, v) ∷ xs) ys h a =
    ground (arith, eq_iff k j, eq_iff j k, has-erase_ne k j ys, all_found-erase j xs ys)

-- A map with distinct keys that are all found in one that is no longer has all its keys.
found-has :
    (k : String) (xs ys : List (String × String))
    → Distinct xs
    → all_found xs ys ≡ true
    → length ys ≤ length xs
    → has k ys ≡ true
    → has k xs ≡ true
unfolding all_found
found-has k [] [] d a l h = h
found-has k [] (y ∷ ys) d a l h = absurd (omega arith)
found-has k ((j, v) ∷ xs) ys (new, d) a l h = elim (Bool-cases (str_eq j k)) [
  | inl same ↦ rw same
  | inr other ↦ rw other (
      found-has k xs (erase j ys) d (all_found-erase j xs ys new (ground arith))
        (omega (arith, length-erase j ys (ground arith))) (rw (has-erase_ne k j ys other) h))
]

has-found :
    (k : String) (xs ys : List (String × String))
    → all_found xs ys ≡ true
    → has k xs ≡ true
    → has k ys ≡ true
unfolding all_found
has-found k [] ys a h = cc
has-found k ((j, v) ∷ xs) ys a h = ground (arith, eq_iff j k, has-found k xs ys)

both : (b c : Bool) → (b ≡ true → c ≡ true) → (c ≡ true → b ≡ true) → b ≡ c
both b c f g = ground arith

-- Where the stored checkpoint txs have distinct txids, a successful `Finalize` stores the final
-- checkpoint txs, and these have exactly the txids of the ones that were stored.
pub has-finalize :
    (final : List (String × String)) (now : ℤ) (s : OffchainTx) (e : Event) (k : String)
    → Distinct s.checkpoint_txs
    → (finalize final now s).1 ≡ ok e
    → ((finalize final now s).0.checkpoint_txs ≡ final) × (has k final ≡ has k s.checkpoint_txs)
unfolding finalize on raise
has-finalize final now s e k d h = (ground arith, both _ _ into back)
  where
    into : has k final ≡ true → has k s.checkpoint_txs ≡ true
    into = found-has k s.checkpoint_txs final d (ground arith) (ground arith)

    back : has k s.checkpoint_txs ≡ true → has k final ≡ true
    back = has-found k s.checkpoint_txs final (ground arith)
