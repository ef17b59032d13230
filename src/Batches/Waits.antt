-- ===== src/Batches/Waits.antt =====
-- What `waitForProjections` of internal/core/application/batch_session_manager.go returns.
use arkd.Base.{
  ◌≡◌, ◌⊎◌, inl, inr, String, Bool, true, false, ◌||◌, List, [], ◌∷◌, ◌++◌, ◌==◌, str_eq, eq_iff,
  if◌then◌else◌, is_nil, All, All-map, arith, Bool-cases,
}
use arkd.Intents.Redis.{names}
use arkd.Batches.{
  Sessions, projected_of, pending_of, forget_projected, WaitEvent, tracks, projects, wakes,
  times_out, cancels, Wait, returned, blocked, look, wait_step, wait_steps, wait_for_projections,
}
use arkd.Batches.Inflight.{Each-track, Each-mark, Each-pending_of, Each-projected_of, names-append}

-- Whether the projection of the batch is written during the wait.
abbrev pub announces : String → List WaitEvent → Bool
announces id [] = false
announces id (projects j ∷ es) = str_eq j id || announces id es
announces id (tracks r ∷ es) = announces id es
announces id (wakes ∷ es) = announces id es
announces id (times_out ∷ es) = announces id es
announces id (cancels ∷ es) = announces id es

abbrev pub batches_of : Wait → List String
batches_of (returned ids m) = ids
batches_of (blocked ids c m) = ids

abbrev pub sessions_of : Wait → Sessions
sessions_of (returned ids m) = m
sessions_of (blocked ids c m) = m

-- What a wait has so far, and what is marked as projected, has a property.
module _ (P : String → Type 0) where
  pub record IsKnown (w : Wait) : Type 0 where
    pub so_far : (id : String) → names id (batches_of w) ≡ true → P id
    pub marked : All (λ e. e.1 ≡ true → P e.0) (sessions_of w).inflight_batches

  pub look-IsKnown :
      (ids : List String) (m : Sessions)
      → ((id : String) → names id ids ≡ true → P id)
      → All (λ e. e.1 ≡ true → P e.0) m.inflight_batches
      → IsKnown (look ids m)
  unfolding look forget_projected
  look-IsKnown ids m so_far marked = elim (Bool-cases (is_nil (pending_of m.inflight_batches))) [
    | inl e ↦ rw e (record { so_far = both; marked = Each-pending_of P m.inflight_batches marked })
    | inr e ↦ rw e (record { so_far = both; marked = Each-pending_of P m.inflight_batches marked })
  ]
    where
      both : (id : String) → names id (ids ++ projected_of m.inflight_batches) ≡ true → P id
      both id h = elim (Bool-cases (names id ids)) [
        | inl old ↦ so_far id old
        | inr new ↦
            Each-projected_of P m.inflight_batches id marked
              (ground (arith, names-append id ids (projected_of m.inflight_batches)))
      ]

  wait_step-IsKnown :
      (e : WaitEvent) (w : Wait)
      → ((id : String) → announces id (e ∷ []) ≡ true → P id)
      → IsKnown w
      → IsKnown (wait_step e w)
  unfolding wait_step
  wait_step-IsKnown (tracks r) (returned ids m) new h = record {
    so_far = h.so_far;
    marked = Each-track P r m h.marked;
  }
  wait_step-IsKnown (projects id) (returned ids m) new h = record {
    so_far = h.so_far;
    marked = Each-mark P id m (new id (ground (arith, eq_iff id id))) h.marked;
  }
  wait_step-IsKnown wakes (returned ids m) new h = h
  wait_step-IsKnown times_out (returned ids m) new h = h
  wait_step-IsKnown cancels (returned ids m) new h = h
  wait_step-IsKnown (tracks r) (blocked ids c m) new h = record {
    so_far = h.so_far;
    marked = Each-track P r m h.marked;
  }
  wait_step-IsKnown (projects id) (blocked ids c m) new h = record {
    so_far = h.so_far;
    marked = Each-mark P id m (new id (ground (arith, eq_iff id id))) h.marked;
  }
  wait_step-IsKnown wakes (blocked ids c m) new h = elim (Bool-cases (c == m.updated)) [
    | inl e ↦ rw e h
    | inr e ↦ rw e (look-IsKnown ids m h.so_far h.marked)
  ]
  wait_step-IsKnown times_out (blocked ids c m) new h = record {
    so_far = h.so_far;
    marked = h.marked;
  }
  wait_step-IsKnown cancels (blocked ids c m) new h = record {
    so_far = h.so_far;
    marked = h.marked;
  }

  pub wait_steps-IsKnown :
      (es : List WaitEvent) (w : Wait)
      → ((id : String) → announces id es ≡ true → P id)
      → IsKnown w
      → IsKnown (wait_steps es w)
  unfolding wait_steps
  wait_steps-IsKnown [] w new h = h
  wait_steps-IsKnown (e ∷ es) w new h =
      wait_steps-IsKnown es (wait_step e w) (λ id a. new id (announces_later id e es a))
        (wait_step-IsKnown e w (λ id a. new id (announces_now id e es a)) h)
    where
      announces_later :
          (id : String) (e : WaitEvent) (es : List WaitEvent)
          → announces id es ≡ true
          → announces id (e ∷ es) ≡ true
      announces_later id (projects j) es a = ground arith
      announces_later id (tracks r) es a = a
      announces_later id wakes es a = a
      announces_later id times_out es a = a
      announces_later id cancels es a = a

      announces_now :
          (id : String) (e : WaitEvent) (es : List WaitEvent)
          → announces id (e ∷ []) ≡ true
          → announces id (e ∷ es) ≡ true
      announces_now id (projects j) es a = ground arith
      announces_now id (tracks r) es a = absurd (cc a)
      announces_now id wakes es a = absurd (cc a)
      announces_now id times_out es a = absurd (cc a)
      announces_now id cancels es a = absurd (cc a)

-- A batch that is marked is one of the projected ones.
projected_of-All :
    (m : List (String × Bool)) → All (λ e. e.1 ≡ true → names e.0 (projected_of m) ≡ true) m
unfolding projected_of
projected_of-All [] = tt
projected_of-All ((j, true) ∷ m) = (
  λ h. ground (arith, eq_iff j j),
  All-map (λ (e : String × Bool). e.1 ≡ true → names e.0 (projected_of m) ≡ true) _ m
      (λ e f h. ground (arith, f h)) (projected_of-All m),
)
projected_of-All ((j, false) ∷ m) = ((λ h. absurd (cc h)), projected_of-All m)

abbrev IsAnnounced : List WaitEvent → Sessions → String → Type 0
IsAnnounced es m id = (names id (projected_of m.inflight_batches) ≡ true) ⊎ (announces id es ≡ true)

first-IsKnown :
    (es : List WaitEvent) (m : Sessions)
    → IsKnown (IsAnnounced es m) (if is_nil m.inflight_batches then returned [] m else look [] m)
first-IsKnown es m =
    let first =
      All-map
        (λ (e : String × Bool). e.1 ≡ true → names e.0 (projected_of m.inflight_batches) ≡ true)
        (λ (e : String × Bool). e.1 ≡ true → IsAnnounced es m e.0) m.inflight_batches
        (λ e f g. inl (f g)) (projected_of-All m.inflight_batches) in
    elim (Bool-cases (is_nil m.inflight_batches)) [
      | inl e ↦ rw e (record { so_far = λ i n. absurd (ground arith); marked = first })
      | inr e ↦ rw e (look-IsKnown (IsAnnounced es m) [] m (λ i n. absurd (ground arith)) first)
    ]

-- Whatever happens during a wait, timeouts included: a batch that the wait has returned or collected
-- was projected at its start, or its projection was written during it.
pub wait_for_projections-announces :
    (es : List WaitEvent) (m : Sessions) (id : String)
    → names id (batches_of (wait_for_projections es m)) ≡ true
    → (names id (projected_of m.inflight_batches) ≡ true) ⊎ (announces id es ≡ true)
unfolding wait_for_projections
wait_for_projections-announces es m id h =
    (wait_steps-IsKnown (IsAnnounced es m) es _ (λ i a. inr a) (first-IsKnown es m)).so_far id h
