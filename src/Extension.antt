-- ===== src/Extension.antt =====
-- pkg/ark-lib/extension: packets in the script of an output that cannot be spent. The tokenizer of scripts
-- belongs to a library: reading starts at the data of the second token, after the opcode OP_RETURN. A
-- packet is an asset packet or one of an unknown type, and is never nil.
pub mod Packets
pub mod Fuel
mod Examples
use arkd.Base.{
  ℕ, zero, suc, ◌/◌, ◌%◌, Bool, true, false, not, List, [], ◌∷◌, ◌++◌, Option, none, some, ltb, leb,
  ◌==◌, if◌then◌else◌, is_nil, length,
}
use arkd.Base.Results.{Result, ok, err, ◌>>=◌}
use arkd.Asset.{AssetError, eof}
use arkd.Asset.Bytes.{
  Bytes, Read, take, drop, eq_bytes, serialize_uint16, serialize_var_slice, deserialize_var_uint,
}
use arkd.Asset.Packet.{Packet, serialize_packet, new_packet_from_bytes}

pub data Item : Type 0 where
  asset_packet : Packet → Item
  unknown_packet : ℕ → Bytes → Item

pub data ExtensionError : Type 0 where
  asset_error : AssetError → ExtensionError
  missing_packets : ExtensionError
  missing_op_return : ExtensionError
  expected_op_return : ExtensionError
  missing_magic_prefix : ExtensionError
  expected_magic_prefix : ExtensionError
  missing_packet_data : ExtensionError
  duplicate_packet_type : ExtensionError

abbrev pub arkade_magic : Bytes
arkade_magic = 65 ∷ 82 ∷ 75 ∷ []

-- The method `Type`.
abbrev pub type_of : Item → ℕ
type_of (asset_packet p) = 0
type_of (unknown_packet t content) = t

abbrev pub serialize_item : Item → Result AssetError Bytes
serialize_item (asset_packet p) = serialize_packet p
serialize_item (unknown_packet t content) = ok content

-- The loop of `Serialize`.
pub serialize_items : List Item → Result AssetError Bytes
serialize_items [] = ok []
serialize_items (p ∷ ps) =
    let rest = serialize_items ps in
    serialize_item p >>= λ b. rest >>= λ bs. ok (type_of p ∷ serialize_var_slice b ++ bs)

-- The function `opReturnScript`. The last form has a length of four bytes.
pub op_return_script : Bytes → Bytes
op_return_script content =
    let n = length content in
    if leb n 75
    then 106 ∷ n ∷ content
    else if leb n 255
    then 106 ∷ 76 ∷ n ∷ content
    else if leb n 65_535
    then 106 ∷ 77 ∷ serialize_uint16 n ++ content
    else 106 ∷ 78 ∷ n % 256 ∷ n / 256 % 256 ∷ n / 65_536 % 256 ∷ n / 16_777_216 % 256 ∷ content

abbrev pub script_of : Result AssetError Bytes → Result ExtensionError Bytes
script_of (err e) = err (asset_error e)
script_of (ok b) = ok (op_return_script (arkade_magic ++ b))

-- The method `Serialize`.
pub serialize : List Item → Result ExtensionError Bytes
serialize [] = err missing_packets
serialize (p ∷ ps) = script_of (serialize_items (p ∷ ps))

-- The function `deserializeVarSlice`: a reader with nothing left reads nothing, and reports the end also
-- where no byte is asked for.
abbrev pub read_slice : ℕ → Bytes → Read Bytes
read_slice l r =
    if ltb (length r) l then err eof else if is_nil r then err eof else ok (take l r, drop l r)

pub read_var_slice : Bytes → Read Bytes
read_var_slice r = deserialize_var_uint r >>= λ (l, r'). read_slice l r'

abbrev pub as_item : Result AssetError Packet → Result ExtensionError Item
as_item (err e) = err (asset_error e)
as_item (ok p) = ok (asset_packet p)

-- The function `parsePacket`.
abbrev pub parse_packet : ℕ → Bytes → Result ExtensionError Item
parse_packet t content =
    if t == 0 then as_item (new_packet_from_bytes content) else ok (unknown_packet t content)

abbrev pub prepend :
    Item → Option (Result ExtensionError (List Item)) → Option (Result ExtensionError (List Item))
prepend p none = none
prepend p (some (err e)) = some (err e)
prepend p (some (ok ps)) = some (ok (p ∷ ps))

-- What the loop does with a packet, and then with the bytes that are left.
abbrev pub and_then :
    Result ExtensionError Item
    → Option (Result ExtensionError (List Item))
    → Option (Result ExtensionError (List Item))
and_then (err e) rest = some (err e)
and_then (ok p) rest = prepend p rest

abbrev pub read_one :
    ℕ
    → (Bytes → Option (Result ExtensionError (List Item)))
    → Read Bytes
    → Option (Result ExtensionError (List Item))
read_one t more (err e) = some (err missing_packet_data)
read_one t more (ok (content, r)) = and_then (parse_packet t content) (more r)

-- The loop of `NewExtensionFromBytes`, on fuel; `none` is that it ran out.
pub read_packets : ℕ → Bytes → Option (Result ExtensionError (List Item))
read_packets fuel [] = some (ok [])
read_packets zero (t ∷ r) = none
read_packets (suc fuel) (t ∷ r) = read_one t (read_packets fuel) (read_var_slice r)

abbrev pub has_type : ℕ → List Item → Bool
has_type t [] = false
has_type t (p ∷ ps) = if type_of p == t then true else has_type t ps

-- Whether a type is met again, with the types seen so far as the packets before.
pub duplicate : List Item → Bool
duplicate [] = false
duplicate (p ∷ ps) = if has_type (type_of p) ps then true else duplicate ps

abbrev pub checked_packets : Result ExtensionError (List Item) → Result ExtensionError (List Item)
checked_packets (err e) = err e
checked_packets (ok []) = err missing_packets
checked_packets (ok (p ∷ ps)) =
    if duplicate (p ∷ ps) then err duplicate_packet_type else ok (p ∷ ps)

abbrev pub finished :
    Option (Result ExtensionError (List Item)) → Option (Result ExtensionError (List Item))
finished none = none
finished (some r) = some (checked_packets r)

-- `NewExtensionFromBytes`, from the data of the second token of the script. The number of bytes is enough
-- fuel, since every round reads at least one.
pub new_extension_from_payload : Bytes → Option (Result ExtensionError (List Item))
new_extension_from_payload payload =
    if ltb (length payload) 3
    then some (err missing_magic_prefix)
    else if not (eq_bytes (take 3 payload) arkade_magic)
    then some (err expected_magic_prefix)
    else finished (read_packets (length payload) (drop 3 payload))
