-- ===== src/Locktime/Examples.antt =====
-- The sequences of 1024 seconds and of 65537 blocks.
use arkd.Base.{
  ℕ, ◌+◌, ◌*◌, ◌/◌, ◌^◌, ◌≡◌, refl, Bool, List, [], ◌∷◌, Option, some, arith, if◌then◌else◌,
}
use arkd.Base.Int.{ℤ, pos}
use arkd.Base.Results.{ok}
use arkd.Locktime.{bip68_sequence, bip68_decode_sequence_from_bytes}
use arkd.Locktime.Sequence.{EncodesLocktimes, bip68_decode_sequence_from_bytes-blocks}

abbrev lock_time_to_sequence : Bool → ℕ → ℕ
lock_time_to_sequence is_seconds v = if is_seconds then 2 ^ 22 + v / 512 else v

abbrev encodes : EncodesLocktimes lock_time_to_sequence
encodes = record { of_seconds = λ v h. refl; of_blocks = λ v h. refl }

-- The value of the bytes, lowest first.
abbrev value : List ℕ → ℕ
value [] = 0
value (b ∷ bs) = b + 256 * value bs

abbrev make_script_num : List ℕ → Bool → ℕ → Option ℤ
make_script_num b minimal len = some (pos (value b))

bip68_decode_sequence_from_bytes-blocks_example :
    (bip68_sequence lock_time_to_sequence (record { type = 1; value = 65537 }) ≡ ok 65537)
    × (bip68_decode_sequence_from_bytes make_script_num (1 ∷ 0 ∷ 1 ∷ [])
        ≡ ok (record { type = 1; value = 1 }))
bip68_decode_sequence_from_bytes-blocks_example =
    bip68_decode_sequence_from_bytes-blocks lock_time_to_sequence make_script_num (1 ∷ 0 ∷ 1 ∷ [])
      65537 encodes (omega arith) refl
