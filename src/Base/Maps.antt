-- ===== src/Base/Maps.antt =====
-- Go's map[string]V as an association list. A nil map and an empty one are both [].
use mathlib.Core.Bool.{Bool, true, false, ◌||◌}
use mathlib.Core.Logic.{inl, inr}
use mathlib.Core.List.{List, [], ◌∷◌}
use mathlib.Core.Option.{Option, none, some}
use mathlib.Core.Path.{◌≡◌, refl}
use Prim.Native.Nat.{suc, ◌≤◌}
use text.Mathlib.TextEquality.{eq_iff}
use native.Mathlib.Omega.{arith}
use Prim.Native.String.{String}
use text.Mathlib.Text.{◌==◌}
use arkd.Base.Tests.{if◌then◌else◌, Bool-cases}
use arkd.Base.Lists.{All, length}

module _ {ℓ} {V : Type ℓ} where
  -- `m[k] = v`
  abbrev pub insert : String → V → List (String × V) → List (String × V)
  insert k v [] = (k, v) ∷ []
  insert k v ((j, w) ∷ m) = if j == k then (k, v) ∷ m else (j, w) ∷ insert k v m

  -- `_, ok := m[k]`
  abbrev pub has : String → List (String × V) → Bool
  has k [] = false
  has k ((j, v) ∷ m) = if j == k then true else has k m

module _ {ℓ κ} {V : Type ℓ} (P : String × V → Type κ) where
  -- A predicate on the entries is kept by an insertion of an entry that has it.
  pub All-insert :
      (k : String) (v : V) (m : List (String × V)) → P (k, v) → All P m → All P (insert k v m)
  All-insert k v [] p h = (p, h)
  All-insert k v ((j, w) ∷ m) p (q, h) = ground (arith, All-insert k v m p h)

module _ {ℓ} {V : Type ℓ} where
  -- `v, ok := m[k]`
  abbrev pub find : String → List (String × V) → Option V
  find k [] = none
  find k ((j, v) ∷ m) = if j == k then some v else find k m

  -- `delete(m, k)`
  abbrev pub remove : String → List (String × V) → List (String × V)
  remove k [] = []
  remove k ((j, v) ∷ m) = if j == k then remove k m else (j, v) ∷ remove k m

  pub find-insert : (k : String) (v : V) (m : List (String × V)) → find k (insert k v m) ≡ some v
  find-insert k v [] = ground (arith, eq_iff k k)
  find-insert k v ((j, w) ∷ m) = ground (arith, find-insert k v m, eq_iff k k)

  pub find-insert_other :
      (k i : String) (v : V) (m : List (String × V))
      → (k == i) ≡ false
      → find i (insert k v m) ≡ find i m
  find-insert_other k i v [] h = ground (arith, h)
  find-insert_other k i v ((j, w) ∷ m) h =
      ground (arith, find-insert_other k i v m h, eq_iff j k, eq_iff j i, eq_iff k i)

  pub find-remove : (k : String) (m : List (String × V)) → find k (remove k m) ≡ none
  find-remove k [] = refl
  find-remove k ((j, w) ∷ m) = ground (arith, find-remove k m)

  pub find-remove_other :
      (k i : String) (m : List (String × V)) → (k == i) ≡ false → find i (remove k m) ≡ find i m
  find-remove_other k i [] h = refl
  find-remove_other k i ((j, w) ∷ m) h =
      ground (arith, find-remove_other k i m h, eq_iff j k, eq_iff j i, eq_iff k i)

  pub length-remove : (k : String) (m : List (String × V)) → length (remove k m) ≤ length m
  length-remove k [] = omega arith
  length-remove k ((j, w) ∷ m) = ground (arith, length-remove k m)

  -- An insertion adds an entry only where the key is new.
  pub length-insert :
      (k : String) (v : V) (m : List (String × V))
      → length (insert k v m) ≡ (if has k m then length m else suc (length m))
  length-insert k v [] = refl
  length-insert k v ((j, w) ∷ m) = ground (arith, length-insert k v m)

  pub has-find : (k : String) (v : V) (m : List (String × V)) → find k m ≡ some v → has k m ≡ true
  has-find k v [] h = absurd (ground arith)
  has-find k v ((j, w) ∷ m) h = ground (arith, has-find k v m)

  -- Insertion and removal at any key.
  pub find-remove_any :
      (k j : String) (m : List (String × V))
      → find k (remove j m) ≡ (if j == k then none else find k m)
  find-remove_any k j [] = ground arith
  find-remove_any k j ((i, v) ∷ m) =
      ground (arith, find-remove_any k j m, eq_iff i j, eq_iff i k, eq_iff j k)

  pub find-insert_any :
      (k j : String) (v : V) (m : List (String × V))
      → find k (insert j v m) ≡ (if j == k then some v else find k m)
  find-insert_any k j v [] = ground arith
  find-insert_any k j v ((i, w) ∷ m) =
      ground (arith, find-insert_any k j v m, eq_iff i j, eq_iff i k, eq_iff j k)

  -- A map has a key once.
  abbrev pub IsMap : List (String × V) → Type 0
  IsMap [] = Unit
  IsMap ((k, v) ∷ m) = (has k m ≡ false) × IsMap m

  pub find-has : (k : String) (m : List (String × V)) → find k m ≡ none → has k m ≡ false
  find-has k [] h = refl
  find-has k ((j, v) ∷ m) h = ground (arith, find-has k m)

  pub has-none : (k : String) (m : List (String × V)) → has k m ≡ false → find k m ≡ none
  has-none k [] h = refl
  has-none k ((j, v) ∷ m) h = ground (arith, has-none k m)

  pub has-insert :
      (i k : String) (v : V) (m : List (String × V)) → has i (insert k v m) ≡ ((k == i) || has i m)
  has-insert i k v [] = ground arith
  has-insert i k v ((j, w) ∷ m) =
      ground (arith, has-insert i k v m, eq_iff j k, eq_iff j i, eq_iff k i)

  pub IsMap-insert : (k : String) (v : V) (m : List (String × V)) → IsMap m → IsMap (insert k v m)
  IsMap-insert k v [] h = (refl, tt)
  IsMap-insert k v ((j, w) ∷ m) (new, h) = elim (Bool-cases (j == k)) [
    | inl e ↦ rw e (ground (arith, eq_iff j k), h)
    | inr e ↦
        rw e (ground (arith, has-insert j k v m, eq_iff k j, eq_iff j k), IsMap-insert k v m h)
  ]
