-- ===== src/Extension/Examples.antt =====
-- Two unknown packets, and one with no data.
use arkd.Base.{
  ◌≡◌, ◌<◌, ◌^◌, refl, sym, ap, false, [], ◌∷◌, ◌++◌, some, is_nil, length, arith, subst,
}
use arkd.Base.Results.{ok, err}
use arkd.Asset.Bytes.{Bytes, put_uvarint, serialize_var_uint, serialize_var_slice}
use arkd.Extension.{
  Item, unknown_packet, missing_packet_data, serialize_items, duplicate, arkade_magic,
  new_extension_from_payload,
}
use arkd.Extension.Packets.{
  IsReadable, new_extension_from_payload-serialize_items, new_extension_from_payload-empty,
}

abbrev p : Item
p = unknown_packet 5 (1 ∷ 2 ∷ [])

abbrev q : Item
q = unknown_packet 7 (9 ∷ [])

p-IsReadable : IsReadable p
p-IsReadable = record {
  some_bytes = λ b e.
      let s : 1 ∷ 2 ∷ [] ≡ b = ground (arith, e) in subst (λ (l : Bytes). is_nil l ≡ false) s refl;
  few_bytes = λ b e.
      let s : 1 ∷ 2 ∷ [] ≡ b = ground (arith, e) in
      subst (λ (l : Bytes). length l < 2 ^ 64) s (omega arith);
  read_back = λ b e.
      let s : 1 ∷ 2 ∷ [] ≡ b = ground (arith, e) in ap (λ l. ok (unknown_packet 5 l)) (sym s);
}

q-IsReadable : IsReadable q
q-IsReadable = record {
  some_bytes = λ b e.
      let s : 9 ∷ [] ≡ b = ground (arith, e) in subst (λ (l : Bytes). is_nil l ≡ false) s refl;
  few_bytes = λ b e.
      let s : 9 ∷ [] ≡ b = ground (arith, e) in
      subst (λ (l : Bytes). length l < 2 ^ 64) s (omega arith);
  read_back =
      λ b e. let s : 9 ∷ [] ≡ b = ground (arith, e) in ap (λ l. ok (unknown_packet 7 l)) (sym s);
}

abbrev written : Bytes
written = 5 ∷ 2 ∷ 1 ∷ 2 ∷ 7 ∷ 1 ∷ 9 ∷ []

serialized : serialize_items (p ∷ q ∷ []) ≡ ok written
unfolding serialize_items serialize_var_slice serialize_var_uint put_uvarint
serialized = refl

different : duplicate (p ∷ q ∷ []) ≡ false
unfolding duplicate
different = refl

new_extension_from_payload-serialize_items_example :
    new_extension_from_payload (arkade_magic ++ written) ≡ some (ok (p ∷ q ∷ []))
new_extension_from_payload-serialize_items_example =
    new_extension_from_payload-serialize_items p (q ∷ []) written (p-IsReadable, (q-IsReadable, tt))
      different serialized

new_extension_from_payload-empty_example :
    (serialize_items (p ∷ q ∷ unknown_packet 8 [] ∷ []) ≡ ok (written ++ 8 ∷ 0 ∷ []))
    × (new_extension_from_payload (arkade_magic ++ (written ++ 8 ∷ 0 ∷ []))
        ≡ some (err missing_packet_data))
new_extension_from_payload-empty_example =
    new_extension_from_payload-empty (p ∷ q ∷ []) 8 written (p-IsReadable, (q-IsReadable, tt))
      serialized
