-- ===== src/Batches/Ends.antt =====
-- That `waitForProjections` of internal/core/application/batch_session_manager.go returns.
use arkd.Base.{
  ℕ, ◌+◌, ◌≡◌, ◌<◌, ◌⊎◌, refl, sym, ap, subst, inl, inr, String, Bool, true, false, List, [], ◌∷◌,
  ◌++◌, ◌==◌, is_nil, All, arith, Bool-cases, Option-cases,
}
use arkd.Base.Maps.{find}
use arkd.Intents.Redis.{names}
use arkd.Batches.{
  Sessions, mark_projected, projected_of, pending_of, forget_projected, wakes, returned, blocked,
  look, wait_step, wait_steps, wait_for_projections,
}
use arkd.Batches.Returns.{announcing, marks, has-pending_of, pending_of-marks}
use arkd.Base.Maps.{IsMap}

-- A mark opens a new channel, or changes nothing.
updated-mark_projected :
    (id : String) (m : Sessions)
    → (mark_projected id m ≡ m) ⊎ ((mark_projected id m).updated ≡ m.updated + 1)
unfolding mark_projected
updated-mark_projected id m = elim (Option-cases (find id m.inflight_batches)) [
  | inl e ↦ rw e (inl refl)
  | inr (true, e) ↦ rw e (inl refl)
  | inr (false, e) ↦ rw e (inr refl)
]

updated-marks :
    (ids : List String) (m : Sessions) → (marks ids m ≡ m) ⊎ (m.updated < (marks ids m).updated)
unfolding marks
updated-marks [] m = inl refl
updated-marks (id ∷ ids) m = elim (updated-mark_projected id m) [
  | inl same ↦
      subst (λ (x : Sessions). (marks ids x ≡ m) ⊎ (m.updated < (marks ids x).updated)) (sym same)
        (updated-marks ids m)
  | inr one_more ↦ elim (updated-marks ids (mark_projected id m)) [
    | inl same ↦ inr (rw same (omega (arith, one_more)))
    | inr more ↦ inr (omega (arith, one_more, more))
  ]
]

wait_steps-returned :
    (ids rs : List String) (m : Sessions)
    → wait_steps (announcing ids ++ (wakes ∷ [])) (returned rs m) ≡ returned rs (marks ids m)
unfolding wait_steps wait_step marks
wait_steps-returned [] rs m = refl
wait_steps-returned (id ∷ ids) rs m = wait_steps-returned ids rs (mark_projected id m)

wait_steps-blocked :
    (ids rs : List String) (c : ℕ) (m : Sessions)
    → wait_steps (announcing ids ++ (wakes ∷ [])) (blocked rs c m)
      ≡ wait_step wakes (blocked rs c (marks ids m))
unfolding wait_steps wait_step marks
wait_steps-blocked [] rs c m = refl
wait_steps-blocked (id ∷ ids) rs c m = wait_steps-blocked ids rs c (mark_projected id m)

look-returned :
    (rs : List String) (m : Sessions)
    → pending_of m.inflight_batches ≡ []
    → look rs m
      ≡ returned (rs ++ projected_of m.inflight_batches) (record m { inflight_batches = [] })
unfolding look forget_projected
look-returned rs m none_left = rw none_left refl

look-blocked :
    (rs : List String) (m : Sessions)
    → is_nil (pending_of m.inflight_batches) ≡ false
    → look rs m
      ≡ blocked
          (rs ++ projected_of m.inflight_batches)
          m.updated
          (record m { inflight_batches = pending_of m.inflight_batches })
unfolding look forget_projected
look-blocked rs m some_left = rw some_left refl

pending_of-pending_of : (m : List (String × Bool)) → pending_of (pending_of m) ≡ pending_of m
unfolding pending_of
pending_of-pending_of [] = refl
pending_of-pending_of ((j, true) ∷ m) = pending_of-pending_of m
pending_of-pending_of ((j, false) ∷ m) = ground (arith, pending_of-pending_of m)

IsMap-pending_of : (m : List (String × Bool)) → IsMap m → IsMap (pending_of m)
unfolding pending_of
IsMap-pending_of [] h = h
IsMap-pending_of ((j, true) ∷ m) (new, h) = IsMap-pending_of m h
IsMap-pending_of ((j, false) ∷ m) (new, h) = (has-pending_of j m new, IsMap-pending_of m h)

none-marks :
    (ids : List String) (m : Sessions)
    → m.inflight_batches ≡ []
    → (marks ids m).inflight_batches ≡ []
unfolding marks mark_projected
none-marks [] m h = h
none-marks (id ∷ ids) m h = none-marks ids (mark_projected id m) (rw h refl)

is_nil-nil : (l : List (String × Bool)) → is_nil l ≡ true → l ≡ []
is_nil-nil [] h = refl
is_nil-nil (e ∷ l) h = absurd (cc h)

-- A blocked wait that is woken after the projections of all that it waits for returns them.
woken :
    (ids rs : List String) (m : Sessions)
    → IsMap m.inflight_batches
    → is_nil (pending_of m.inflight_batches) ≡ false
    → All (λ e. names e.0 ids ≡ true) (pending_of m.inflight_batches)
    → (done : List String) × (r : Sessions) × (wait_step wakes (blocked rs m.updated (marks ids m))
        ≡ returned done r)
      × (r.inflight_batches ≡ [])
unfolding wait_step
woken ids rs m h some_left all = elim (updated-marks ids m) [
  | inl same ↦ absurd (
      ground (
        arith,
        ap (λ (s : Sessions). is_nil (pending_of s.inflight_batches)) same,
        pending_of-marks ids m h all,
      ))
  | inr more ↦
      let late : (m.updated == (marks ids m).updated) ≡ false = ground (arith, more) in
      (
        rs ++ projected_of (marks ids m).inflight_batches,
        record (marks ids m) { inflight_batches = [] },
        rw late (look-returned rs (marks ids m) (pending_of-marks ids m h all)),
        refl,
      )
]

-- When the projections of all the batches that are pending are written during a wait and it is woken,
-- it returns, and no batch is tracked any more. The map of the batches has each of them once.
pub wait_for_projections-returned :
    (ids : List String) (m : Sessions)
    → IsMap m.inflight_batches
    → All (λ e. names e.0 ids ≡ true) (pending_of m.inflight_batches)
    → (done : List String) × (r : Sessions) × (wait_for_projections
          (announcing ids ++ (wakes ∷ []))
          m
        ≡ returned done r)
      × (r.inflight_batches ≡ [])
unfolding wait_for_projections
wait_for_projections-returned ids m h all = elim (Bool-cases (is_nil m.inflight_batches)) [
  | inl e ↦ (
    [],
    marks ids m,
    rw e (wait_steps-returned ids [] m),
    none-marks ids m (is_nil-nil m.inflight_batches e),
  )
  | inr e ↦ elim (Bool-cases (is_nil (pending_of m.inflight_batches))) [
    | inl none_left ↦
        let m1 : Sessions = record m { inflight_batches = [] } in
        (
          projected_of m.inflight_batches,
          marks ids m1,
          rw
              (
                e,
                look-returned [] m (is_nil-nil (pending_of m.inflight_batches) none_left),
                wait_steps-returned ids (projected_of m.inflight_batches) m1,
              )
              refl,
          none-marks ids m1 refl,
        )
    | inr some_left ↦
        let m1 : Sessions = record m { inflight_batches = pending_of m.inflight_batches } in
        let same = pending_of-pending_of m.inflight_batches in
        let (done, r, returns, none_left) =
          woken ids (projected_of m.inflight_batches) m1 (IsMap-pending_of m.inflight_batches h)
            (rw same some_left) (rw same all) in
        (
          done,
          r,
          rw
              (
                e,
                look-blocked [] m some_left,
                wait_steps-blocked ids (projected_of m.inflight_batches) m.updated m1,
              )
              returns,
          none_left,
        )
  ]
]
