-- ===== src/Tokens/Revoked.antt =====
-- What `revoke` of internal/core/application/token_cache.go removes.
use arkd.Base.{
  ℕ, suc, ◌≡◌, refl, ap, inl, inr, String, false, [], ◌∷◌, some, is_nil, length, All, arith,
  Bool-cases, Option-cases,
}
use arkd.Base.Maps.{find, find-remove}
use arkd.Domain.Types.{is_empty}
use arkd.Tokens.{
  Expiries, TokenCache, first_expiry, is_expired, is_past, is_selected, list_selected, list_by_hash,
  list, revoke_selected, revoke_by_hash, revoke,
}

-- Every hash has an outpoint.
abbrev pub AreFull : TokenCache → Type 0
AreFull = All (λ e. is_nil e.1 ≡ false)

find-full :
    (hash : String) (m : Expiries) (c : TokenCache)
    → AreFull c
    → find hash c ≡ some m
    → is_nil m ≡ false
find-full hash m [] h f = absurd (cc f)
find-full hash m ((j, n) ∷ c) (p, h) f = ground (arith, find-full hash m c h, p)

full-is_past :
    (now : ℕ) (m : Expiries)
    → is_nil m ≡ false
    → is_past now (first_expiry m) ≡ is_expired now (first_expiry m)
full-is_past now [] h = absurd (cc h)
full-is_past now ((o, t) ∷ m) h = refl

revoke_selected_lem :
    (now : ℕ) (outpoint txid : String) (c : TokenCache)
    → ((revoke_selected now outpoint txid c).0 ≡ length (list_selected now outpoint txid c))
      × (list_selected now outpoint txid (revoke_selected now outpoint txid c).1 ≡ [])
unfolding revoke_selected list_selected
revoke_selected_lem now outpoint txid [] = (refl, refl)
revoke_selected_lem now outpoint txid ((h, m) ∷ c) =
    let (counted, gone) = revoke_selected_lem now outpoint txid c in
    elim (Bool-cases (is_selected now outpoint txid m)) [
      | inl e ↦ rw e (ap suc counted, gone)
      | inr e ↦ rw e (counted, rw e gone)
    ]

revoke_by_hash_lem :
    (now : ℕ) (hash : String) (c : TokenCache)
    → AreFull c
    → ((revoke_by_hash now hash c).0 ≡ length (list_by_hash now hash c))
      × (list_by_hash now hash (revoke_by_hash now hash c).1 ≡ [])
unfolding revoke_by_hash list_by_hash
revoke_by_hash_lem now hash c full = elim (Option-cases (find hash c)) [
  | inl e ↦ rw e (refl, rw e refl)
  | inr (m, e) ↦
      let same = full-is_past now m (find-full hash m c full e) in
      elim (Bool-cases (is_expired now (first_expiry m))) [
        | inl old ↦ rw (e, same, old) (refl, rw (e, same, old) refl)
        | inr live ↦ rw (e, same, live) (refl, rw (find-remove hash c) refl)
      ]
]

pub revoke_counted :
    (now : ℕ) (hash outpoint txid : String) (c : TokenCache)
    → AreFull c
    → ((revoke now hash outpoint txid c).0 ≡ length (list now hash outpoint txid c))
      × (list now hash outpoint txid (revoke now hash outpoint txid c).1 ≡ [])
unfolding revoke list
revoke_counted now hash outpoint txid c full = elim (Bool-cases (is_empty hash)) [
  | inl e ↦ rw e (revoke_selected_lem now outpoint txid c)
  | inr e ↦ rw e (revoke_by_hash_lem now hash c full)
]
