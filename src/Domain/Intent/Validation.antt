-- ===== src/Domain/Intent/Validation.antt =====
-- What `validate` accepts, and the outcomes of `AddReceivers` (internal/core/domain/intent.go).
use arkd.Base.{
  ◌≡◌, ◌≢◌, ◌↔◌, refl, false, ◌&&◌, List, [], ◌∷◌, ◌++◌, Option, none, some, All, arith, is_nil,
}
use arkd.Domain.Types.{is_empty}
use arkd.Domain.Intent.{
  Intent, Receiver, IntentError, validate, validate_receivers, add_receivers, keep_if_valid,
}

-- A receiver with a destination and an amount.
abbrev pub IsPayable : Receiver → Type 0
IsPayable r = (is_empty r.onchain_address && is_empty r.pub_key ≡ false) × (r.amount ≢ 0)

pub record IsComplete (i : Intent) : Type 0 where
  pub id_given : is_empty i.id ≡ false
  pub proof_given : is_empty i.proof ≡ false
  pub message_given : is_empty i.message ≡ false
  pub txid_given : is_empty i.txid ≡ false
  pub receivers_given : is_nil i.receivers ≡ false
  pub receivers_payable : All IsPayable i.receivers

validate_receivers-IsPayable :
    (rs : List Receiver) → validate_receivers rs ≡ none → All IsPayable rs
unfolding validate_receivers
validate_receivers-IsPayable [] h = tt
validate_receivers-IsPayable (r ∷ rs) h = ground (arith, validate_receivers-IsPayable rs)

payable-validate_receivers : (rs : List Receiver) → All IsPayable rs → validate_receivers rs ≡ none
unfolding validate_receivers
payable-validate_receivers [] h = refl
payable-validate_receivers (r ∷ rs) h = ground (arith, payable-validate_receivers rs)

-- The full validation finds no error exactly if the intent has an id, a proof, a message and a txid,
-- and at least one receiver, each with a destination and an amount.
pub validate_iff : (i : Intent) → (validate false i ≡ none) ↔ IsComplete i
unfolding validate
validate_iff i = (
  λ h. ground (arith, validate_receivers-IsPayable i.receivers),
  λ h. ground (arith, payable-validate_receivers i.receivers h.receivers_payable),
)

-- The outcome of `AddReceivers`: nothing, or all of them.
abbrev pub AllOrNothing : Intent → List Receiver → Intent × Option IntentError → Type 0
AllOrNothing i rs (j, none) = (j ≡ record i { receivers = i.receivers ++ rs }) × IsComplete j
AllOrNothing i rs (j, some x) =
    (j ≡ i) × (validate false (record i { receivers = i.receivers ++ rs }) ≡ some x)

-- If the intent with the new receivers does not pass the full validation, `AddReceivers` returns its
-- error and the intent is as before. Otherwise it returns no error, the new receivers stand behind
-- the old ones, nothing else is changed, and the intent is complete.
pub add_receivers-AllOrNothing :
    (i : Intent) (rs : List Receiver) → AllOrNothing i rs (add_receivers i rs)
unfolding add_receivers
add_receivers-AllOrNothing i rs = outcome (validate false longer) refl
  where
    longer : Intent
    longer = record i { receivers = i.receivers ++ rs }

    outcome :
        (e : Option IntentError)
        → validate false longer ≡ e
        → AllOrNothing i rs (keep_if_valid i longer e)
    outcome none h = (refl, (validate_iff longer).0 h)
    outcome (some x) h = (refl, h)
