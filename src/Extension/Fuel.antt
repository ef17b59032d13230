-- ===== src/Extension/Fuel.antt =====
-- The loop over the packets of an extension ends (pkg/ark-lib/extension/extension.go).
use arkd.Base.{
  ℕ, zero, suc, ◌≤◌, ◌≡◌, ◌≢◌, refl, ap, List, [], ◌∷◌, Option, none, some, ltb, is_nil, length,
  arith, Bool-cases, inl, inr,
}
use arkd.Base.Results.{Result, ok, err, >>=-eq-ok, Result-cases}
use arkd.Asset.Bytes.{Bytes, take, drop, eq_bytes, deserialize_var_uint}
use arkd.Asset.Bytes.Varint.{deserialize_var_uint-length}
use arkd.Extension.{
  Item, ExtensionError, read_slice, read_var_slice, parse_packet, and_then, read_packets, finished,
  arkade_magic, new_extension_from_payload,
}

length-drop : (n : ℕ) (b : Bytes) → length (drop n b) ≤ length b
length-drop zero b = omega arith
length-drop (suc n) [] = omega arith
length-drop (suc n) (x ∷ b) = omega (arith, length-drop n b)

read_slice-length :
    (l : ℕ) (r c left : Bytes) → read_slice l r ≡ ok (c, left) → length left ≤ length r
read_slice-length l r c left e = elim (Bool-cases (ltb (length r) l)) [
  | inl short ↦ absurd (ground (arith, e, short))
  | inr long ↦ elim (Bool-cases (is_nil r)) [
    | inl empty ↦ absurd (ground (arith, e, long, empty))
    | inr some_bytes ↦
        let same : drop l r ≡ left = ground (arith, e, long, some_bytes) in
        omega (arith, ap length same, length-drop l r)
  ]
]

read_var_slice-length :
    (r c left : Bytes) → read_var_slice r ≡ ok (c, left) → length left ≤ length r
unfolding read_var_slice
read_var_slice-length r c left e =
    let (x, e1, e2) = >>=-eq-ok (deserialize_var_uint r) _ e in
    omega (arith, deserialize_var_uint-length r x.0 x.1 e1, read_slice-length x.0 x.1 c left e2)

and_then-some :
    (i : Result ExtensionError Item) (rest : Option (Result ExtensionError (List Item)))
    → rest ≢ none
    → and_then i rest ≢ none
and_then-some (err x) rest h = λ k. ground (arith, k)
and_then-some (ok p) none h = absurd (h refl)
and_then-some (ok p) (some (err x)) h = λ k. ground (arith, k)
and_then-some (ok p) (some (ok ps)) h = λ k. ground (arith, k)

-- The number of bytes is enough fuel for the loop.
read_packets-length : (fuel : ℕ) (b : Bytes) → length b ≤ fuel → read_packets fuel b ≢ none
unfolding read_packets
read_packets-length fuel [] h = λ k. ground (arith, k)
read_packets-length zero (t ∷ r) h = absurd (omega arith)
read_packets-length (suc fuel) (t ∷ r) h = elim (Result-cases (read_var_slice r)) [
  | inr (x, e) ↦ λ k. ground (arith, e, k)
  | inl ((c, left), e) ↦
      let ih = read_packets-length fuel left (omega (arith, read_var_slice-length r c left e)) in
      rw e (and_then-some (parse_packet t c) (read_packets fuel left) ih)
]

finished-some : (o : Option (Result ExtensionError (List Item))) → o ≢ none → finished o ≢ none
finished-some none h = h
finished-some (some r) h = λ k. ground (arith, k)

-- `NewExtensionFromBytes` returns packets or an error for any data of the second token.
new_extension_from_payload-total : (payload : Bytes) → new_extension_from_payload payload ≢ none
unfolding new_extension_from_payload
new_extension_from_payload-total payload = elim (Bool-cases (ltb (length payload) 3)) [
  | inl short ↦ λ k. ground (arith, short, k)
  | inr long ↦ elim (Bool-cases (eq_bytes (take 3 payload) arkade_magic)) [
    | inr other ↦ λ k. ground (arith, long, other, k)
    | inl magic ↦
        rw (long, magic)
          (finished-some _
            (read_packets-length (length payload) (drop 3 payload) (length-drop 3 payload)))
  ]
]
