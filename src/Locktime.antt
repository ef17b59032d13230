-- ===== src/Locktime.antt =====
-- pkg/ark-lib/locktime.go: relative locktimes and the sequence numbers of BIP68. A uint32 is a number,
-- and the bits of an int64 are those of its two's complement. The two library calls, of
-- `LockTimeToSequence` and `MakeScriptNum`, are parameters.
pub mod Sequence
mod Examples
use arkd.Base.{
  ℕ, suc, ◌+◌, ◌-◌, ◌*◌, ◌/◌, ◌%◌, ◌^◌, Bool, true, false, not, ◌&&◌, List, Option, none, some, ltb,
  ◌==◌, if◌then◌else◌, length,
}
use arkd.Base.Int.{ℤ, pos, negsuc, ltb_ℤ}
use arkd.Base.Results.{Result, ok, err}

abbrev pub locktime_type_second : ℕ
locktime_type_second = 0

abbrev pub locktime_type_block : ℕ
locktime_type_block = 1

-- 0xffff << 9
abbrev pub seconds_max : ℕ
seconds_max = 33553920

abbrev pub seconds_mod : ℕ
seconds_mod = 512

abbrev pub min_allowed_sequence : ℕ
min_allowed_sequence = 512

pub record RelativeLocktime : Type 0 where
  pub type : ℕ
  pub value : ℕ  -- uint32

pub data LocktimeError : Type 0 where
  seconds_too_large not_a_multiple bad_script_number disabled : LocktimeError

-- A block counts as one second.
abbrev pub seconds : RelativeLocktime → ℕ
seconds l = if l.type == locktime_type_block then l.value * 1 else l.value

pub compare : RelativeLocktime → RelativeLocktime → ℤ
compare l other =
    if seconds l == seconds other
    then pos 0
    else if ltb (seconds l) (seconds other)
    then negsuc 0
    else pos 1

pub less_than : RelativeLocktime → RelativeLocktime → Bool
less_than l other = ltb_ℤ (compare l other) (pos 0)

-- `n & (1 << k) != 0` for the bits of a number.
abbrev pub has_bit : ℕ → ℕ → Bool
has_bit n k = n / 2 ^ k % 2 == 1

-- The bits of an int64.
abbrev pub bits : ℤ → ℕ
bits (pos n) = n % 2 ^ 64
bits (negsuc n) = 2 ^ 64 - 1 - n % 2 ^ 64

unfoldable pub bip68_sequence : (Bool → ℕ → ℕ) → RelativeLocktime → Result LocktimeError ℕ
bip68_sequence lock_time_to_sequence l =
    let is_seconds = l.type == locktime_type_second in
    if is_seconds && ltb seconds_max l.value
    then err seconds_too_large
    else if is_seconds && not (l.value % seconds_mod == 0)
    then err not_a_multiple
    else ok (lock_time_to_sequence is_seconds l.value)

pub decode_number : ℕ → Result LocktimeError RelativeLocktime
decode_number n =
    if has_bit n 31
    then err disabled
    else if has_bit n 22
    then ok (record { type = locktime_type_second; value = n % 2 ^ 16 * 2 ^ 9 % 2 ^ 32 })
    else ok (record { type = locktime_type_block; value = n % 2 ^ 16 })

pub bip68_decode_sequence_from_bytes :
    (List ℕ → Bool → ℕ → Option ℤ) → List ℕ → Result LocktimeError RelativeLocktime
bip68_decode_sequence_from_bytes make_script_num sequence =
    elim (make_script_num sequence true (length sequence)) [
      | none ↦ err bad_script_number
      | some n ↦ decode_number (bits n)
    ]

-- The second component is whether the locktime is disabled. The seconds are `(lock << 9) - 1` as an
-- int64, of which the low 32 bits are kept.
pub bip68_decode_sequence : ℕ → Option RelativeLocktime × Bool
bip68_decode_sequence sequence_num =
    let relative_lock = sequence_num % 2 ^ 16 in
    if has_bit sequence_num 31
    then (none, true)
    else if has_bit sequence_num 22
    then (
      some (record {
        type = locktime_type_second;
        value = (relative_lock * 2 ^ 9 + (2 ^ 32 - 1)) % 2 ^ 32;
      }),
      false,
    )
    else (some (record { type = locktime_type_block; value = relative_lock }), false)

-- The second component is whether the value was rounded down.
pub parse_relative_locktime : ℕ → RelativeLocktime × Bool
parse_relative_locktime value =
    let d = value % min_allowed_sequence in
    if ltb value min_allowed_sequence
    then (record { type = locktime_type_block; value = value }, false)
    else if not (d == 0)
    then (record { type = locktime_type_second; value = value - d }, true)
    else (record { type = locktime_type_second; value = value }, false)
