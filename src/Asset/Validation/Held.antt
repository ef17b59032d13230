-- ===== src/Asset/Validation/Held.antt =====
-- What the prevouts hold of an asset, and inputs with distinct vins
-- (`validateGroupInputs` of pkg/ark-lib/asset/tx_validation.go).
use arkd.Base.{
  ℕ, ◌+◌, ◌≤◌, ◌≡◌, ◌≢◌, ◌∙◌, refl, String, Bool, true, false, List, [], ◌∷◌, Option, none, some,
  All, ◌==◌, if◌then◌else◌, str_eq, arith, map,
}
use arkd.Asset.{Asset}
use arkd.Asset.Inputs.{AssetInput, validate_inputs_from, seen_before, input_unspecified}
use arkd.Asset.Group.{safe_sum}
use arkd.Asset.Tx.{TxError, Prevouts, assets_at, loop, check_held}

-- What one input holds of an asset, and what the inputs hold together.
abbrev pub amount_of : String → List Asset → ℕ
amount_of id [] = 0
amount_of id (a ∷ assets) = if str_eq a.asset_id id then a.amount else amount_of id assets

abbrev pub held : String → Prevouts → ℕ
held id [] = 0
held id ((v, assets) ∷ ps) = amount_of id assets + held id ps

-- The prevouts of the other inputs.
abbrev without : ℕ → Prevouts → Prevouts
without v [] = []
without v ((w, assets) ∷ ps) = if v == w then without v ps else (w, assets) ∷ without v ps

held-without : (id : String) (v : ℕ) (ps : Prevouts) → held id (without v ps) ≤ held id ps
held-without id v [] = omega arith
held-without id v ((w, assets) ∷ ps) = ground (arith, held-without id v ps)

held-assets_at :
    (id : String) (v : ℕ) (ps : Prevouts) (assets : List Asset)
    → assets_at v ps ≡ some assets
    → amount_of id assets + held id (without v ps) ≤ held id ps
held-assets_at id v [] assets h = cc
held-assets_at id v ((w, as₁) ∷ ps) assets h =
    ground (arith, held-without id v ps, held-assets_at id v ps assets)

assets_at-without : (v w : ℕ) (ps : Prevouts) → w ≢ v → assets_at w (without v ps) ≡ assets_at w ps
assets_at-without v w [] h = refl
assets_at-without v w ((u, assets) ∷ ps) h = ground (arith, assets_at-without v w ps)

-- An input that is held at its vin.
abbrev pub IsHeld : String → Prevouts → AssetInput → Type 0
IsHeld id ps i =
    (assets : List Asset) × ((assets_at i.vin ps ≡ some assets) × (amount_of id assets ≡ i.amount))

-- An input at another vin is held by the prevouts that are left.
still-IsHeld :
    (id : String) (v : ℕ) (ps : Prevouts) (ins : List AssetInput)
    → All (λ i. i.vin ≢ v) ins
    → All (IsHeld id ps) ins
    → All (IsHeld id (without v ps)) ins
still-IsHeld id v ps [] f h = tt
still-IsHeld id v ps (i ∷ ins) (f, fs) ((assets, (at, amount)), hs) =
    ((assets, (assets_at-without v i.vin ps f ∙ at, amount)), still-IsHeld id v ps ins fs hs)

abbrev pub DistinctVins : List AssetInput → Type 0
DistinctVins [] = Unit
DistinctVins (i ∷ ins) = All (λ j. j.vin ≢ i.vin) ins × DistinctVins ins

pub sum-held :
    (id : String) (ps : Prevouts) (ins : List AssetInput)
    → DistinctVins ins
    → All (IsHeld id ps) ins
    → safe_sum (map (λ i. i.amount) ins) ≤ held id ps
unfolding safe_sum
sum-held id ps [] d h = omega arith
sum-held id ps (i ∷ ins) (d, ds) ((assets, (at, amount)), hs) = omega (
  arith,
  amount,
  held-assets_at id i.vin ps assets at,
  sum-held id (without i.vin ps) ins ds (still-IsHeld id i.vin ps ins d hs),
)

pub fresh :
    (v : ℕ) (seen : List ℕ) (ins : List AssetInput)
    → All (λ i. seen_before i.vin (v ∷ seen) ≡ false) ins
    → All (λ i. i.vin ≢ v) ins
unfolding seen_before
fresh v seen [] h = tt
fresh v seen (i ∷ ins) (h, hs) = (ground arith, fresh v seen ins hs)

older :
    (v : ℕ) (seen : List ℕ) (ins : List AssetInput)
    → All (λ i. seen_before i.vin (v ∷ seen) ≡ false) ins
    → All (λ i. seen_before i.vin seen ≡ false) ins
unfolding seen_before
older v seen [] h = tt
older v seen (i ∷ ins) (h, hs) = (ground arith, older v seen ins hs)

pub unseen :
    (seen : List ℕ) (t : ℕ) (ins : List AssetInput)
    → validate_inputs_from seen t ins ≡ none
    → All (λ i. seen_before i.vin seen ≡ false) ins
unfolding validate_inputs_from seen_before
unseen seen t [] h = tt
unseen seen t (i ∷ ins) h =
    let t' = if t == input_unspecified then i.type else t in
    ground (arith, unseen (i.vin ∷ seen) t' ins, older i.vin seen ins)

pub check_held-amount_of :
    (id : String) (amount : ℕ) (assets : List Asset)
    → check_held id amount assets ≡ none
    → amount_of id assets ≡ amount
check_held-amount_of id amount [] h = cc
check_held-amount_of id amount (a ∷ assets) h =
    ground (arith, check_held-amount_of id amount assets)

module _ {ℓ} {A : Type ℓ} (f : A → Option TxError) where
  pub loop-All : (xs : List A) → loop f xs ≡ none → All (λ x. f x ≡ none) xs
  loop-All [] h = tt
  loop-All (x ∷ xs) h = ground (arith, loop-All xs)

-- Whether some of the assets has the id.
abbrev pub holds : String → List Asset → Bool
holds id [] = false
holds id (a ∷ assets) = if str_eq a.asset_id id then true else holds id assets

pub check_held-holds :
    (id : String) (amount : ℕ) (assets : List Asset)
    → check_held id amount assets ≡ none
    → holds id assets ≡ true
check_held-holds id amount [] h = cc
check_held-holds id amount (a ∷ assets) h = ground (arith, check_held-holds id amount assets)

-- The validation of an input list finds its vins distinct.
pub validate_inputs-DistinctVins :
    (seen : List ℕ) (t : ℕ) (ins : List AssetInput)
    → validate_inputs_from seen t ins ≡ none
    → DistinctVins ins
unfolding validate_inputs_from
validate_inputs-DistinctVins seen t [] h = tt
validate_inputs-DistinctVins seen t (i ∷ ins) h =
    let t' = if t == input_unspecified then i.type else t in
    let rest : validate_inputs_from (i.vin ∷ seen) t' ins ≡ none = ground arith in
    (
      fresh i.vin seen ins (unseen (i.vin ∷ seen) t' ins rest),
      validate_inputs-DistinctVins (i.vin ∷ seen) t' ins rest,
    )
