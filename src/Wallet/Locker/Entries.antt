-- ===== src/Wallet/Locker/Entries.antt =====
-- The entries of the map of locked outpoints (pkg/arkd-wallet/core/application/wallet/outpoint_locker.go).
use arkd.Base.{
  ℕ, ◌≡◌, refl, sym, ap, subst, Bool, true, false, List, [], ◌∷◌, Option, none, some, ltb,
  if◌then◌else◌, arith, Bool-cases, inl, inr, ◌⊎◌,
}
use arkd.Wallet.{OutPoint, same_outpoint, same_self, same_outpoint-eq}
use arkd.Wallet.Locker.{
  Locks, lookup, assign, delete, is_locked, get, any_locked, assign_all, unlock,
}

-- Two outpoints that are equal to the same one, by the test.
same_both :
    (p o q : OutPoint)
    → same_outpoint p o ≡ true
    → same_outpoint p q ≡ true
    → same_outpoint o q ≡ true
same_both p o q h k = let e = same_outpoint-eq p o h in subst (λ x. same_outpoint x q ≡ true) e k

same_other :
    (p o q : OutPoint)
    → same_outpoint p o ≡ true
    → same_outpoint o q ≡ false
    → same_outpoint p q ≡ false
same_other p o q h k =
    let e = same_outpoint-eq p o h in subst (λ x. same_outpoint x q ≡ false) (sym e) k

same_flip : (p o : OutPoint) → same_outpoint p o ≡ false → same_outpoint o p ≡ false
same_flip p o h = elim (Bool-cases (same_outpoint o p)) [
  | inl e ↦ absurd (
      ground (
        arith,
        subst (λ x. same_outpoint x o ≡ false) (sym (same_outpoint-eq o p e)) h,
        same_self o,
      ))
  | inr e ↦ e
]

pub lookup-assign : (o : OutPoint) (t : ℕ) (m : Locks) → lookup o (assign o t m) ≡ some t
lookup-assign o t [] = ground (arith, same_self o)
lookup-assign o t ((p, u) ∷ m) = ground (arith, lookup-assign o t m)

pub lookup-assign_other :
    (o q : OutPoint) (t : ℕ) (m : Locks)
    → same_outpoint o q ≡ false
    → lookup q (assign o t m) ≡ lookup q m
lookup-assign_other o q t [] h = ground (arith, h)
lookup-assign_other o q t ((p, u) ∷ m) h = elim (Bool-cases (same_outpoint p o)) [
  | inl e ↦ ground (arith, same_other p o q e h)
  | inr e ↦ ground (arith, lookup-assign_other o q t m h)
]

pub lookup-delete : (o : OutPoint) (m : Locks) → lookup o (delete o m) ≡ none
lookup-delete o [] = refl
lookup-delete o ((p, u) ∷ m) = ground (arith, lookup-delete o m)

pub lookup-delete_other :
    (o q : OutPoint) (m : Locks) → same_outpoint o q ≡ false → lookup q (delete o m) ≡ lookup q m
lookup-delete_other o q [] h = refl
lookup-delete_other o q ((p, u) ∷ m) h = elim (Bool-cases (same_outpoint p o)) [
  | inl e ↦ ground (arith, same_other p o q e h, lookup-delete_other o q m h)
  | inr e ↦ ground (arith, lookup-delete_other o q m h)
]

-- What `assign_all` and `unlock` do to an entry.
pub lookup-assign_all :
    (o : OutPoint) (outs : List OutPoint) (t : ℕ) (m : Locks)
    → lookup o (assign_all outs t m) ≡ (if is_locked o outs then some t else lookup o m)
unfolding assign_all
lookup-assign_all o [] t m = refl
lookup-assign_all o (p ∷ outs) t m =
    let ih = lookup-assign_all o outs t (assign p t m) in
    elim (Bool-cases (same_outpoint p o)) [
      | inl e ↦
          let here : lookup o (assign p t m) ≡ some t =
            subst (λ x. lookup o (assign x t m) ≡ some t) (sym (same_outpoint-eq p o e))
              (lookup-assign o t m) in
          ground (arith, ih, here)
      | inr e ↦ ground (arith, ih, lookup-assign_other p o t m e)
    ]

pub lookup-unlock :
    (o : OutPoint) (outs : List OutPoint) (m : Locks)
    → lookup o (unlock outs m) ≡ (if is_locked o outs then none else lookup o m)
unfolding unlock
lookup-unlock o [] m = refl
lookup-unlock o (p ∷ outs) m =
    let ih = lookup-unlock o outs (delete p m) in
    elim (Bool-cases (same_outpoint p o)) [
      | inl e ↦
          let here : lookup o (delete p m) ≡ none =
            subst (λ x. lookup o (delete x m) ≡ none) (sym (same_outpoint-eq p o e))
              (lookup-delete o m) in
          ground (arith, ih, here)
      | inr e ↦ ground (arith, ih, lookup-delete_other p o m e)
    ]

-- A map has one entry for each outpoint.
unfoldable pub IsMap : Locks → Type 0
IsMap [] = Unit
IsMap ((o, u) ∷ m) = (lookup o m ≡ none) × IsMap m

-- What an entry is at a time: one that has expired is not there.
abbrev pub alive : ℕ → Option ℕ → Option ℕ
alive now none = none
alive now (some until) = if ltb until now then none else some until

abbrev pub is_some : Option ℕ → Bool
is_some none = false
is_some (some u) = true

module _ (clock : OutPoint → ℕ) where
  pub lookup-get :
      (o : OutPoint) (m : Locks) → IsMap m → lookup o (get clock m).1 ≡ alive (clock o) (lookup o m)
  unfolding get IsMap
  lookup-get o [] h = refl
  lookup-get o ((p, u) ∷ m) (e, h) =
      let ih = lookup-get o m h in
      elim (Bool-cases (same_outpoint p o)) [
        | inl s ↦
            let at : clock p ≡ clock o = ap clock (same_outpoint-eq p o s) in
            let gone : lookup o m ≡ none =
              subst (λ x. lookup x m ≡ none) (same_outpoint-eq p o s) e in
            ground (arith, ih, at, gone, s)
        | inr s ↦ ground (arith, ih, s)
      ]

  pub is_locked-get :
      (o : OutPoint) (m : Locks) → is_locked o (get clock m).0 ≡ is_some (lookup o (get clock m).1)
  unfolding get
  is_locked-get o [] = refl
  is_locked-get o ((p, u) ∷ m) = ground (arith, is_locked-get o m)

  pub get-IsMap : (m : Locks) → IsMap m → IsMap (get clock m).1
  unfolding get IsMap
  get-IsMap [] h = h
  get-IsMap ((p, u) ∷ m) (e, h) =
      let ih = get-IsMap m h in
      let none_left = lookup-get p m h in
      elim (Bool-cases (ltb u (clock p))) [
        | inl old ↦ rw old ih
        | inr live ↦ rw live (ground (arith, none_left, e), ih)
      ]

assign-IsMap : (o : OutPoint) (t : ℕ) (m : Locks) → IsMap m → IsMap (assign o t m)
unfolding IsMap
assign-IsMap o t [] h = (refl, h)
assign-IsMap o t ((p, u) ∷ m) (e, h) =
    let ih = assign-IsMap o t m h in
    elim (Bool-cases (same_outpoint p o)) [
      | inl s ↦ rw s (e, h)
      | inr s ↦ rw s (ground (arith, lookup-assign_other o p t m (same_flip p o s)), ih)
    ]

delete-IsMap : (o : OutPoint) (m : Locks) → IsMap m → IsMap (delete o m)
unfolding IsMap
delete-IsMap o [] h = h
delete-IsMap o ((p, u) ∷ m) (e, h) =
    let ih = delete-IsMap o m h in
    elim (Bool-cases (same_outpoint p o)) [
      | inl s ↦ rw s ih
      | inr s ↦ rw s (ground (arith, lookup-delete_other o p m (same_flip p o s)), ih)
    ]

pub assign_all-IsMap :
    (outs : List OutPoint) (t : ℕ) (m : Locks) → IsMap m → IsMap (assign_all outs t m)
unfolding assign_all
assign_all-IsMap [] t m h = h
assign_all-IsMap (o ∷ outs) t m h = assign_all-IsMap outs t (assign o t m) (assign-IsMap o t m h)

pub unlock-IsMap : (outs : List OutPoint) (m : Locks) → IsMap m → IsMap (unlock outs m)
unfolding unlock
unlock-IsMap [] m h = h
unlock-IsMap (o ∷ outs) m h = unlock-IsMap outs (delete o m) (delete-IsMap o m h)

-- An outpoint of the list is in the snapshot, or none is.
pub any_locked_cases :
    (snapshot outs : List OutPoint)
    → ((any_locked snapshot outs ≡ true)
        × (o : OutPoint) × (is_locked o outs ≡ true)
        × (is_locked o snapshot ≡ true))
      ⊎ ((any_locked snapshot outs ≡ false)
          × ((o : OutPoint) → is_locked o outs ≡ true → is_locked o snapshot ≡ false))
any_locked_cases snapshot [] = inr (refl, λ o h. absurd (ground arith))
any_locked_cases snapshot (p ∷ outs) = elim (Bool-cases (is_locked p snapshot)) [
  | inl e ↦ inl (rw e refl, p, rw (same_self p) refl, e)
  | inr e ↦ elim (any_locked_cases snapshot outs) [
    | inl (a, o, i, s) ↦ inl (rw e a, o, ground arith, s)
    | inr (a, f) ↦ inr (
      rw e a,
      λ o h. elim (Bool-cases (same_outpoint p o)) [
        | inl q ↦ subst (λ x. is_locked x snapshot ≡ false) (same_outpoint-eq p o q) e
        | inr q ↦ f o (ground arith)
      ],
    )
  ]
]
