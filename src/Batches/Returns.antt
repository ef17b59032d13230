-- ===== src/Batches/Returns.antt =====
-- What the marks of several batches leave of internal/core/application/batch_session_manager.go returns.
use arkd.Base.{
  ◌≡◌, refl, sym, subst, inl, inr, String, Bool, true, false, List, [], ◌∷◌, some, str_eq, eq_iff,
  All, arith, Bool-cases, Option-cases,
}
use arkd.Base.Maps.{IsMap-insert, IsMap, find-has, insert, find, has, remove}
use arkd.Intents.Redis.{names}
use arkd.Batches.{Sessions, mark_projected, pending_of, WaitEvent, projects}

abbrev pub announcing : List String → List WaitEvent
announcing [] = []
announcing (id ∷ ids) = projects id ∷ announcing ids

unfoldable pub marks : List String → Sessions → Sessions
marks [] m = m
marks (id ∷ ids) m = marks ids (mark_projected id m)

pub has-pending_of :
    (i : String) (m : List (String × Bool)) → has i m ≡ false → has i (pending_of m) ≡ false
unfolding pending_of
has-pending_of i [] h = refl
has-pending_of i ((j, true) ∷ m) h = has-pending_of i m (ground arith)
has-pending_of i ((j, false) ∷ m) h = ground (arith, has-pending_of i m)

remove_absent : (i : String) (m : List (String × Bool)) → has i m ≡ false → remove i m ≡ m
remove_absent i [] h = refl
remove_absent i ((j, b) ∷ m) h = ground (arith, remove_absent i m)

pending_of-insert :
    (id : String) (m : List (String × Bool))
    → IsMap m
    → find id m ≡ some false
    → pending_of (insert id true m) ≡ remove id (pending_of m)
unfolding pending_of
pending_of-insert id [] h f = absurd (cc f)
pending_of-insert id ((j, true) ∷ m) (new, h) f =
    ground (arith, pending_of-insert id m h, eq_iff j id)
pending_of-insert id ((j, false) ∷ m) (new, h) f = ground (
  arith,
  pending_of-insert id m h,
  remove_absent id (pending_of m),
  has-pending_of id m,
  eq_iff j id,
)

pending_of-remove :
    (id : String) (m : List (String × Bool))
    → IsMap m
    → find id m ≡ some true
    → remove id (pending_of m) ≡ pending_of m
unfolding pending_of
pending_of-remove id [] h f = refl
pending_of-remove id ((j, true) ∷ m) (new, h) f = ground (
  arith,
  pending_of-remove id m h,
  remove_absent id (pending_of m),
  has-pending_of id m,
  eq_iff j id,
)
pending_of-remove id ((j, false) ∷ m) (new, h) f =
    ground (arith, pending_of-remove id m h, eq_iff j id)

pending_of-mark_projected :
    (id : String) (m : Sessions)
    → IsMap m.inflight_batches
    → pending_of (mark_projected id m).inflight_batches ≡ remove id (pending_of m.inflight_batches)
unfolding mark_projected
pending_of-mark_projected id m h = elim (Option-cases (find id m.inflight_batches)) [
  | inl e ↦ rw e (
      sym (
        remove_absent id _
          (has-pending_of id m.inflight_batches (find-has id m.inflight_batches e))))
  | inr (true, e) ↦ rw e (sym (pending_of-remove id m.inflight_batches h e))
  | inr (false, e) ↦ rw e (pending_of-insert id m.inflight_batches h e)
]

IsMap-mark_projected :
    (id : String) (m : Sessions)
    → IsMap m.inflight_batches
    → IsMap (mark_projected id m).inflight_batches
unfolding mark_projected
IsMap-mark_projected id m h = elim (Option-cases (find id m.inflight_batches)) [
  | inl e ↦ rw e h
  | inr (true, e) ↦ rw e h
  | inr (false, e) ↦ rw e (IsMap-insert id true m.inflight_batches h)
]

All-remove :
    (id : String) (ids : List String) (m : List (String × Bool))
    → All (λ e. names e.0 (id ∷ ids) ≡ true) m
    → All (λ e. names e.0 ids ≡ true) (remove id m)
All-remove id ids [] h = tt
All-remove id ids ((j, b) ∷ m) (p, h) = elim (Bool-cases (str_eq j id)) [
  | inl e ↦ rw e (All-remove id ids m h)
  | inr e ↦ rw e (ground (arith, eq_iff j id, eq_iff id j), All-remove id ids m h)
]

all_named_none : (m : List (String × Bool)) → All (λ e. names e.0 [] ≡ true) m → m ≡ []
all_named_none [] h = refl
all_named_none ((j, b) ∷ m) (p, h) = absurd (cc p)

-- Once the projections of all are written, no batch is pending.
pub pending_of-marks :
    (ids : List String) (m : Sessions)
    → IsMap m.inflight_batches
    → All (λ e. names e.0 ids ≡ true) (pending_of m.inflight_batches)
    → pending_of (marks ids m).inflight_batches ≡ []
unfolding marks
pending_of-marks [] m h all = all_named_none _ all
pending_of-marks (id ∷ ids) m h all =
    pending_of-marks ids (mark_projected id m) (IsMap-mark_projected id m h) (
      subst (All (λ e. names e.0 ids ≡ true)) (sym (pending_of-mark_projected id m h))
        (All-remove id ids (pending_of m.inflight_batches) all))
