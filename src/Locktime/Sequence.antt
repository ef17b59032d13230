-- ===== src/Locktime/Sequence.antt =====
-- Locktimes encoded as BIP68 sequences and decoded, and numbers rounded to locktimes.
use arkd.Base.{
  ◌==◌, if◌then◌else◌, ℕ, ◌+◌, ◌-◌, ◌/◌, ◌%◌, ◌^◌, ◌≤◌, ◌<◌, ◌≡◌, ◌↔◌, Bool, true, false, List,
  Option, some, arith, length,
}
use arkd.Base.Int.{ℤ, pos}
use arkd.Base.Results.{ok}
use arkd.Locktime.{
  RelativeLocktime, bip68_sequence, decode_number, bip68_decode_sequence_from_bytes,
  bip68_decode_sequence, parse_relative_locktime, locktime_type_second,
}

-- A locktime in seconds, or in blocks that fit the 16 bits of a sequence.
pub data IsLocktime : RelativeLocktime → Type 0 where
  in_seconds : (v : ℕ) → IsLocktime (record { type = 0; value = v })
  in_blocks : (v : ℕ) → v < 2 ^ 16 → IsLocktime (record { type = 1; value = v })

module _ (lock_time_to_sequence : Bool → ℕ → ℕ) where
  -- The documentation of the library: seconds are counted in units of 512 under the bit 22, and
  -- blocks are the sequence.
  pub record EncodesLocktimes : Type 0 where
    pub of_seconds : (v : ℕ) → v < 2 ^ 25 → lock_time_to_sequence true v ≡ 2 ^ 22 + v / 512
    pub of_blocks : (v : ℕ) → v < 2 ^ 22 → lock_time_to_sequence false v ≡ v

  sequence-decode_number :
      {l : RelativeLocktime} (n : ℕ)
      → EncodesLocktimes
      → IsLocktime l
      → bip68_sequence lock_time_to_sequence l ≡ ok n
      → (decode_number n ≡ ok l) × (n < 2 ^ 23)
  unfolding bip68_sequence decode_number
  sequence-decode_number n enc (in_seconds v) h = ground (arith, enc.of_seconds v)
  sequence-decode_number n enc (in_blocks v fits) h = ground (arith, enc.of_blocks v)

  -- If the library encodes locktimes as documented and reads the script number of the sequence back,
  -- then a locktime, in seconds or in at most 2^16 - 1 blocks, whose encoding succeeds is decoded from
  -- the bytes of its sequence.
  pub bip68_decode_sequence_from_bytes-bip68_sequence :
      (make_script_num : List ℕ → Bool → ℕ → Option ℤ) (b : List ℕ) {l : RelativeLocktime} (n : ℕ)
      → EncodesLocktimes
      → IsLocktime l
      → bip68_sequence lock_time_to_sequence l ≡ ok n
      → make_script_num b true (length b) ≡ some (pos n)
      → bip68_decode_sequence_from_bytes make_script_num b ≡ ok l
  unfolding bip68_decode_sequence_from_bytes
  bip68_decode_sequence_from_bytes-bip68_sequence make_script_num b n enc h e read =
      let (decoded, small) = sequence-decode_number n enc h e in
      let whole : n % 2 ^ 64 ≡ n = omega arith in ground arith

  -- What `BIP68DecodeSequence` makes of a locktime: seconds are one less, in a uint32.
  abbrev pub enforced : RelativeLocktime → RelativeLocktime
  enforced l =
      if l.type == locktime_type_second
      then record l { value = (l.value + (2 ^ 32 - 1)) % 2 ^ 32 }
      else l

  -- If the library encodes locktimes as documented, then `BIP68DecodeSequence` returns from the sequence
  -- of a locktime, in seconds or in at most 2^16 - 1 blocks, that it is not disabled, and the locktime
  -- itself if it is in blocks, and one second less, modulo 2^32, if it is in seconds.
  pub bip68_decode_sequence-bip68_sequence :
      {l : RelativeLocktime} (n : ℕ)
      → EncodesLocktimes
      → IsLocktime l
      → bip68_sequence lock_time_to_sequence l ≡ ok n
      → bip68_decode_sequence n ≡ (some (enforced l), false)
  unfolding bip68_decode_sequence bip68_sequence
  bip68_decode_sequence-bip68_sequence n enc (in_seconds v) h = ground (arith, enc.of_seconds v)
  bip68_decode_sequence-bip68_sequence n enc (in_blocks v fits) h = ground (arith, enc.of_blocks v)

  -- If the library encodes locktimes as documented, then every number of blocks below 2^22 is encoded, as
  -- itself, also where it does not fit 16 bits; and if the library reads the script number of some bytes as
  -- that sequence, then they are decoded, to the number modulo 2^16.
  pub bip68_decode_sequence_from_bytes-blocks :
      (make_script_num : List ℕ → Bool → ℕ → Option ℤ) (b : List ℕ) (v : ℕ)
      → EncodesLocktimes
      → v < 2 ^ 22
      → make_script_num b true (length b) ≡ some (pos v)
      → (bip68_sequence lock_time_to_sequence (record { type = 1; value = v }) ≡ ok v)
        × (bip68_decode_sequence_from_bytes make_script_num b
            ≡ ok (record { type = 1; value = v % 2 ^ 16 }))
  unfolding bip68_decode_sequence_from_bytes bip68_sequence decode_number
  bip68_decode_sequence_from_bytes-blocks make_script_num b v enc small read =
      (ground (arith, enc.of_blocks v), ground arith)

  -- `ParseRelativeLocktime` rounds a number down by less than 512 and reports exactly whether it changed
  -- it; and a sequence exists for the locktime exactly if the number is below 2^25.
  pub parse_relative_locktime_lem :
      (v : ℕ)
      → let p = parse_relative_locktime v in
        (p.0.value ≤ v)
        × (v < p.0.value + 512)
        × ((p.1 ≡ false) ↔ (p.0.value ≡ v))
        × (((n : ℕ) × (bip68_sequence lock_time_to_sequence p.0 ≡ ok n)) ↔ (v < 2 ^ 25))
  unfolding parse_relative_locktime bip68_sequence
  parse_relative_locktime_lem v =
      let p = parse_relative_locktime v in
      (
        ground arith,
        ground arith,
        ground arith,
        (
          λ (n, e). ground arith,
          λ h. (lock_time_to_sequence (p.0.type == 0) p.0.value, ground arith),
        ),
      )
