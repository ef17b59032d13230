-- ===== src/Intents/Owner.antt =====
-- The texts that internal/infrastructure/live-store/redis/intents.go keeps: the key of an input, and the
-- owner of an input that waits for its release.
use Prim.Native.Char.{Char, code}
use Prim.Native.String.{◌++◌}
use text.Mathlib.TextLemmas.{nil-append, cons-append}
use arkd.Base.{
  ℕ, zero, suc, ◌/◌, ◌%◌, ◌≡◌, refl, String, Bool, true, false, List, [], ◌∷◌, Option, none, some,
  ltb, ◌==◌, if◌then◌else◌, get_elem?, arith,
}
use arkd.Domain.Types.{Outpoint}

abbrev digits : List String
digits = "0" ∷ "1" ∷ "2" ∷ "3" ∷ "4" ∷ "5" ∷ "6" ∷ "7" ∷ "8" ∷ "9" ∷ []

abbrev text_or_empty : Option String → String
text_or_empty none = ""
text_or_empty (some s) = s

-- `%d`: the digits from the last one on, in front of those that are written. A uint32 has at most ten.
write_digits : ℕ → ℕ → String → String
write_digits zero n s = s
write_digits (suc left) n s =
    let more = write_digits left (n / 10) (text_or_empty (get_elem? digits (n % 10)) ++ s) in
    if ltb n 10 then text_or_empty (get_elem? digits (n % 10)) ++ s else more

unfoldable pub outpoint_string : Outpoint → String
unfolding write_digits
outpoint_string o = o.txid ++ (":" ++ write_digits 10 o.vout "")

example : outpoint_string (record { txid = "ab"; vout = 4294967295 }) ≡ "ab:4294967295"
unfolding outpoint_string
example = refl

abbrev pending_owner_sep : ℕ
pending_owner_sep = b':'

abbrev pub has_sep : String → Bool
has_sep String.[] = false
has_sep (String.◌∷◌ c s) = if code c == pending_owner_sep then true else has_sep s

-- `strings.Cut(owner, pendingOwnerSep)`: what stands before and after the first separator.
abbrev with_front : Char → Option (String × String) → Option (String × String)
with_front c none = none
with_front c (some (front, back)) = some (String.◌∷◌ c front, back)

abbrev cut : String → Option (String × String)
cut String.[] = none
cut (String.◌∷◌ c s) = if code c == pending_owner_sep then some ("", s) else with_front c (cut s)

abbrev parts_of : String → Option (String × String) → String × String
parts_of owner none = ("", owner)
parts_of owner (some (round_id, intent_id)) = (round_id, intent_id)

unfoldable pub pending_owner : String → String → String
pending_owner round_id intent_id = round_id ++ (":" ++ intent_id)

unfoldable pub split_pending_owner : String → String × String
split_pending_owner owner = parts_of owner (cut owner)

cut-append :
    (round_id intent_id : String)
    → has_sep round_id ≡ false
    → cut (round_id ++ (":" ++ intent_id)) ≡ some (round_id, intent_id)
cut-append String.[] i h = rw (cons-append _ "" i, nil-append i, nil-append) refl
cut-append (String.◌∷◌ c s) i h = rw (cons-append c s (":" ++ i)) (ground (arith, cut-append s i))

-- The two halves of an owner are read back, when the id of the round has no separator.
pub split_pending_owner-pending_owner :
    (round_id intent_id : String)
    → has_sep round_id ≡ false
    → split_pending_owner (pending_owner round_id intent_id) ≡ (round_id, intent_id)
unfolding split_pending_owner pending_owner
split_pending_owner-pending_owner r i h = rw (cut-append r i h) refl
