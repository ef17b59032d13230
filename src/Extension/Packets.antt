-- ===== src/Extension/Packets.antt =====
-- The packets of an extension, written and read (pkg/ark-lib/extension/extension.go).
use mathlib.Core.List.{append_assoc, append-nil}
use arkd.Base.{
  ℕ, suc, ◌+◌, ◌-◌, ◌^◌, ◌≤◌, ◌<◌, ◌≡◌, ◌∙◌, refl, sym, ap, false, List, [], ◌∷◌, ◌++◌, Option,
  none, some, ltb, is_nil, length, length-append, All, arith, Bool-cases, inl, inr,
}
use arkd.Base.Results.{Result, ok, err, >>=-eq-ok}
use arkd.Asset.{accepted}
use arkd.Asset.Bytes.{
  Bytes, eq_bytes, put_uvarint, write_all, serialize_var_uint, serialize_var_slice,
  deserialize_var_uint,
}
use arkd.Asset.Bytes.Lists.{take-append, drop-append, is_nil-append}
use arkd.Asset.Bytes.Varint.{deserialize-serialize_var_uint}
use arkd.Asset.Packet.{Packet, validate_packet, serialize_packet}
use arkd.Asset.Packet.RoundTrip.{list_error, new_packet_from_bytes-serialize_packet}
use arkd.Asset.Group.{AssetGroup, first_error, write_group}
use arkd.Asset.Group.RoundTrip.{IsGroup}
use arkd.Extension.{
  Item, asset_packet, unknown_packet, ExtensionError, missing_packet_data, type_of, serialize_item,
  serialize_items, read_var_slice, as_item, parse_packet, prepend, read_packets, duplicate,
  arkade_magic, new_extension_from_payload,
}

-- A packet that can be read back: its bytes are some, fewer than 2^64, and of an unknown packet that has
-- not the type of an asset packet, or of an asset packet that is read back from them.
pub record IsReadable (p : Item) : Type 0 where
  pub some_bytes : (b : Bytes) → serialize_item p ≡ ok b → is_nil b ≡ false
  pub few_bytes : (b : Bytes) → serialize_item p ≡ ok b → length b < 2 ^ 64
  pub read_back : (b : Bytes) → serialize_item p ≡ ok b → parse_packet (type_of p) b ≡ ok p

-- A slice that is not empty is read back.
read_var_slice-append :
    (b r : Bytes)
    → is_nil b ≡ false
    → length b < 2 ^ 64
    → read_var_slice (serialize_var_slice b ++ r) ≡ ok (b, r)
unfolding read_var_slice serialize_var_slice
read_var_slice-append b r some_bytes few =
    let e = append_assoc (serialize_var_uint (length b)) b r in
    let n : ltb (length (b ++ r)) (length b) ≡ false = ground (arith, length-append b r) in
    rw
      (
        e,
        deserialize-serialize_var_uint (length b) (b ++ r) few,
        n,
        is_nil-append b r some_bytes,
        take-append b r,
        drop-append b r,
      )
      refl

read_packets-cons :
    (p : Item) (c r : Bytes) (k : ℕ)
    → IsReadable p
    → serialize_item p ≡ ok c
    → read_packets (suc k) (type_of p ∷ serialize_var_slice c ++ r) ≡ prepend p (read_packets k r)
unfolding read_packets
read_packets-cons p c r k h e =
    rw (read_var_slice-append c r (h.some_bytes c e) (h.few_bytes c e), h.read_back c e) refl

-- A slice of length 0 at the end is not read.
read_packets-empty : (t k : ℕ) → read_packets (suc k) (t ∷ 0 ∷ []) ≡ some (err missing_packet_data)
unfolding read_packets read_var_slice serialize_var_uint put_uvarint
read_packets-empty t k =
    let e : deserialize_var_uint (0 ∷ []) ≡ ok (0, []) =
      deserialize-serialize_var_uint 0 [] (omega arith) in
    rw e refl

-- What is read after some packets comes after them.
pub prepend_all :
    List Item
    → Option (Result ExtensionError (List Item))
    → Option (Result ExtensionError (List Item))
prepend_all [] rest = rest
prepend_all (p ∷ ps) rest = prepend p (prepend_all ps rest)

pub read_packets-serialize_items :
    (ps : List Item) (b rest : Bytes) (fuel : ℕ)
    → All IsReadable ps
    → serialize_items ps ≡ ok b
    → read_packets (length ps + fuel) (b ++ rest) ≡ prepend_all ps (read_packets fuel rest)
unfolding serialize_items prepend_all
read_packets-serialize_items [] b rest fuel h e =
    let none_left : b ≡ [] = ground (arith, e) in
    ap (λ l. read_packets (0 + fuel) (l ++ rest)) none_left
    ∙ ap (λ k. read_packets k rest) (omega arith)
read_packets-serialize_items (p ∷ ps) b rest fuel (h, hs) e =
    let (c, e1, e2) = >>=-eq-ok (serialize_item p) _ e in
    let (cs, e3, e4) = >>=-eq-ok (serialize_items ps) _ e2 in
    let same : type_of p ∷ serialize_var_slice c ++ cs ≡ b = ground (arith, e4) in
    let ih = read_packets-serialize_items ps cs rest fuel hs e3 in
    let k = length ps + fuel in
    let n : length (p ∷ ps) + fuel ≡ suc k = omega arith in
    ap (λ m. read_packets m (b ++ rest)) n
    ∙ ap (λ l. read_packets (suc k) (l ++ rest)) (sym same)
    ∙ ap (λ l. read_packets (suc k) (type_of p ∷ l)) (append_assoc (serialize_var_slice c) cs rest)
    ∙ read_packets-cons p c (cs ++ rest) k h e1
    ∙ ap (prepend p) ih

prepend_all-nil : (ps : List Item) → prepend_all ps (some (ok [])) ≡ some (ok ps)
unfolding prepend_all
prepend_all-nil [] = refl
prepend_all-nil (p ∷ ps) = ap (prepend p) (prepend_all-nil ps)

prepend_all-err :
    (ps : List Item) (e : ExtensionError) → prepend_all ps (some (err e)) ≡ some (err e)
unfolding prepend_all
prepend_all-err [] e = refl
prepend_all-err (p ∷ ps) e = ap (prepend p) (prepend_all-err ps e)

read_packets-nil : (fuel : ℕ) → read_packets fuel [] ≡ some (ok [])
unfolding read_packets
read_packets-nil fuel = refl

-- Every packet is written as a byte at least.
length-serialize_items :
    (ps : List Item) (b : Bytes) → serialize_items ps ≡ ok b → length ps ≤ length b
unfolding serialize_items
length-serialize_items [] b e = omega arith
length-serialize_items (p ∷ ps) b e =
    let (c, e1, e2) = >>=-eq-ok (serialize_item p) _ e in
    let (cs, e3, e4) = >>=-eq-ok (serialize_items ps) _ e2 in
    let same : type_of p ∷ serialize_var_slice c ++ cs ≡ b = ground (arith, e4) in
    omega (
      arith,
      ap length same,
      length-append (serialize_var_slice c) cs,
      length-serialize_items ps cs e3,
    )

-- If every packet can be read back and no two have the same type, then the packets that `Serialize` writes
-- after the magic prefix are the ones that `NewExtensionFromBytes` reads from the data of the script.
pub new_extension_from_payload-serialize_items :
    (p : Item) (ps : List Item) (b : Bytes)
    → All IsReadable (p ∷ ps)
    → duplicate (p ∷ ps) ≡ false
    → serialize_items (p ∷ ps) ≡ ok b
    → new_extension_from_payload (arkade_magic ++ b) ≡ some (ok (p ∷ ps))
unfolding new_extension_from_payload eq_bytes
new_extension_from_payload-serialize_items p ps b h d e =
    let all = p ∷ ps in
    let n = length (arkade_magic ++ b) in
    let more = n - length all in
    let fuel : n ≡ length all + more = omega (arith, length-serialize_items all b e) in
    let long : ltb n 3 ≡ false = ground arith in
    let read : read_packets n b ≡ some (ok all) =
      ap (λ l. read_packets n l) (sym (append-nil b))
      ∙ ap (λ k. read_packets k (b ++ [])) fuel
      ∙ read_packets-serialize_items all b [] more h e
      ∙ ap (prepend_all all) (read_packets-nil more)
      ∙ prepend_all-nil all in
    rw long (rw read (rw d refl))

serialize_items-append :
    (ps : List Item) (t : ℕ) (b : Bytes)
    → serialize_items ps ≡ ok b
    → serialize_items (ps ++ unknown_packet t [] ∷ []) ≡ ok (b ++ t ∷ 0 ∷ [])
unfolding serialize_items serialize_var_slice serialize_var_uint put_uvarint
serialize_items-append [] t b e =
    let none_left : [] ≡ b = ground (arith, e) in ap (λ l. ok (l ++ t ∷ 0 ∷ [])) none_left
serialize_items-append (p ∷ ps) t b e =
    let (c, e1, e2) = >>=-eq-ok (serialize_item p) _ e in
    let (cs, e3, e4) = >>=-eq-ok (serialize_items ps) _ e2 in
    let same : type_of p ∷ serialize_var_slice c ++ cs ≡ b = ground (arith, e4) in
    rw (e1, serialize_items-append ps t cs e3)
      (ap (λ l. ok (type_of p ∷ l)) (sym (append_assoc (serialize_var_slice c) cs (t ∷ 0 ∷ [])))
        ∙ ap (λ l. ok (l ++ t ∷ 0 ∷ [])) same)

-- An unknown packet with no data after packets that can be read back is written, and makes the reading
-- fail: the end of the data is reported for its slice of length 0.
pub new_extension_from_payload-empty :
    (ps : List Item) (t : ℕ) (b : Bytes)
    → All IsReadable ps
    → serialize_items ps ≡ ok b
    → (serialize_items (ps ++ unknown_packet t [] ∷ []) ≡ ok (b ++ t ∷ 0 ∷ []))
      × (new_extension_from_payload (arkade_magic ++ (b ++ t ∷ 0 ∷ []))
          ≡ some (err missing_packet_data))
unfolding new_extension_from_payload eq_bytes
new_extension_from_payload-empty ps t b h e =
    let rest = t ∷ 0 ∷ [] in
    let n = length (arkade_magic ++ (b ++ rest)) in
    let size = length-append b rest in
    let more = n - (length ps + 1) in
    let fuel : n ≡ length ps + suc more = omega (arith, length-serialize_items ps b e, size) in
    let long : ltb n 3 ≡ false = ground arith in
    let read : read_packets n (b ++ rest) ≡ some (err missing_packet_data) =
      ap (λ k. read_packets k (b ++ rest)) fuel
      ∙ read_packets-serialize_items ps b rest (suc more) h e
      ∙ ap (prepend_all ps) (read_packets-empty t more)
      ∙ prepend_all-err ps missing_packet_data in
    (serialize_items-append ps t b e, rw long (rw read refl))

serialize_var_uint-some : (n : ℕ) (r : Bytes) → is_nil (serialize_var_uint n ++ r) ≡ false
unfolding serialize_var_uint put_uvarint
serialize_var_uint-some n r = elim (Bool-cases (ltb n 128)) [
  | inl e ↦ rw e refl
  | inr e ↦ rw e refl
]

serialize_packet-some :
    (g : AssetGroup) (gs : Packet) (b : Bytes) → serialize_packet (g ∷ gs) ≡ ok b → is_nil b ≡ false
unfolding serialize_packet
serialize_packet-some g gs b e =
    let (bs, e1, e2) = >>=-eq-ok (write_all write_group (g ∷ gs)) _ e in
    let same : serialize_var_uint (length (g ∷ gs)) ++ bs ≡ b = ground (arith, e2) in
    ap is_nil (sym same) ∙ serialize_var_uint-some (length (g ∷ gs)) bs

-- An asset packet that `NewPacket` accepts, and whose bytes are fewer than 2^64, can be read back.
asset_packet-IsReadable :
    (g : AssetGroup) (gs : Packet)
    → All IsGroup (g ∷ gs)
    → validate_packet (g ∷ gs) ≡ none
    → first_error list_error (g ∷ gs) ≡ none
    → ((b : Bytes) → serialize_packet (g ∷ gs) ≡ ok b → length b < 2 ^ 64)
    → IsReadable (asset_packet (g ∷ gs))
asset_packet-IsReadable g gs h v lists few = record {
  some_bytes = serialize_packet-some g gs;
  few_bytes = few;
  read_back = λ b e. ap as_item (
      new_packet_from_bytes-serialize_packet (g ∷ gs) b h v e
      ∙ ap (λ o. accepted o (g ∷ gs)) lists);
}
