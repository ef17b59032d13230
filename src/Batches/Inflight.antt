-- ===== src/Batches/Inflight.antt =====
-- The batches that internal/core/application/batch_session_manager.go has as projected.
use arkd.Base.{
  ◌≡◌, refl, subst, inl, inr, String, Bool, true, false, List, [], ◌∷◌, ◌++◌, ◌||◌, Option, none,
  some, str_eq, eq_iff, All, All-map, arith, Bool-cases, Option-cases,
}
use arkd.Base.Maps.{find, has, All-insert}
use arkd.Domain.Round.{Round, is_ended}
use arkd.Intents.Redis.{names}
use arkd.Batches.{Sessions, track, mark_projected, projected_of, pending_of}

pub names-append :
    (k : String) (js ks : List String) → names k (js ++ ks) ≡ (names k js || names k ks)
names-append k [] ks = refl
names-append k (j ∷ js) ks = ground (arith, names-append k js ks)

-- What the tables of the manager keep of a predicate on the batches that are projected.
module _ (P : String → Type 0) where
  abbrev Each : List (String × Bool) → Type 0
  Each = All (λ e. e.1 ≡ true → P e.0)

  pub Each-track :
      (r : Option Round) (m : Sessions)
      → Each m.inflight_batches
      → Each (track r m).inflight_batches
  unfolding track
  Each-track none m all = all
  Each-track (some r) m all = elim (Bool-cases (is_ended r)) [
    | inr e ↦ rw e all
    | inl e ↦ elim (Bool-cases (has r.id m.inflight_batches)) [
      | inl old ↦ rw (e, old) all
      | inr new ↦
          rw (e, new)
            (All-insert (λ e. e.1 ≡ true → P e.0) r.id false m.inflight_batches (λ h. absurd (cc h))
              all)
    ]
  ]

  pub Each-mark :
      (id : String) (m : Sessions)
      → P id
      → Each m.inflight_batches
      → Each (mark_projected id m).inflight_batches
  unfolding mark_projected
  Each-mark id m p all = elim (Option-cases (find id m.inflight_batches)) [
    | inl e ↦ rw e all
    | inr (true, e) ↦ rw e all
    | inr (false, e) ↦
        rw e (All-insert (λ e. e.1 ≡ true → P e.0) id true m.inflight_batches (λ h. p) all)
  ]

  pub Each-pending_of : (m : List (String × Bool)) → Each m → Each (pending_of m)
  unfolding pending_of
  Each-pending_of [] all = all
  Each-pending_of ((id, true) ∷ m) (p, all) = Each-pending_of m all
  Each-pending_of ((id, false) ∷ m) (p, all) = (p, Each-pending_of m all)

  pub Each-projected_of :
      (m : List (String × Bool)) (id : String) → Each m → names id (projected_of m) ≡ true → P id
  unfolding projected_of
  Each-projected_of [] id all h = absurd (cc h)
  Each-projected_of ((j, false) ∷ m) id (p, all) h = Each-projected_of m id all h
  Each-projected_of ((j, true) ∷ m) id (p, all) h = elim (Bool-cases (str_eq j id)) [
    | inl e ↦ subst P ((eq_iff j id).0 e) (p refl)
    | inr e ↦ Each-projected_of m id all (ground arith)
  ]

pub Each-map :
    (P Q : String → Type 0) (m : List (String × Bool))
    → ((id : String) → P id → Q id)
    → All (λ e. e.1 ≡ true → P e.0) m
    → All (λ e. e.1 ≡ true → Q e.0) m
Each-map P Q m f all =
    All-map (λ (e : String × Bool). e.1 ≡ true → P e.0) _ m (λ e p h. f e.0 (p h)) all
