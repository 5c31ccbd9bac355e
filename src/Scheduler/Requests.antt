-- ===== src/Scheduler/Requests.antt =====
-- The start and stop requests of successive evaluations.
use voxel_steward.Base.{
  ℕ, ◌≤◌, ◌≡◌, refl, Option, none, some, List, [], ◌∷◌, ◌++◌, ok, err, arith, subst, Bool-cases,
  Result-cases, inl, inr, str_eq,
}
use voxel_steward.Base.Calendar.{Date, DateText, iso}
use voxel_steward.Scheduler.{
  OperatingWindow, ScheduleIntent, start_requested, stop_requested, ScheduleEvaluation,
  WindowEvaluation, Scheduler, same_window_id, stop_changed, start_current, has_passed, evaluate_at,
  evaluate, evaluate_weekday_window,
}

-- Requests that open and close windows in turn: from no window only a start, and from an open
-- window only a stop of that window. The first argument is open before, the last one after.
pub data Replays
    : Option OperatingWindow → List ScheduleIntent → Option OperatingWindow → Type 0 where
  done : {active : Option OperatingWindow} → Replays active [] active
  opens :
      {w : OperatingWindow} {at : DateText} {rest : List ScheduleIntent}
      {after : Option OperatingWindow}
      → Replays (some w) rest after
      → Replays none (start_requested w at ∷ rest) after
  closes :
      {w : OperatingWindow} {at : DateText} {rest : List ScheduleIntent}
      {after : Option OperatingWindow}
      → Replays none rest after
      → Replays (some w) (stop_requested w at ∷ rest) after

pub Replays-append :
    {a b c : Option OperatingWindow} {xs ys : List ScheduleIntent}
    → Replays a xs b
    → Replays b ys c
    → Replays a (xs ++ ys) c
Replays-append done q = q
Replays-append (opens p) q = opens (Replays-append p q)
Replays-append (closes p) q = closes (Replays-append p q)

stop_changed-Replays :
    (active current : Option OperatingWindow) (at : DateText)
    → Replays active (stop_changed active current at).1 (stop_changed active current at).0
unfolding stop_changed
stop_changed-Replays none current at = done
stop_changed-Replays (some w) current at = elim (Bool-cases (same_window_id (some w) current)) [
  | inl e ↦ rw e done
  | inr e ↦ rw e (closes done)
]

-- After the first test a window that is still open is the current one.
start_current-Replays :
    (active current : Option OperatingWindow) (at : DateText)
    → let (still, stops) = stop_changed active current at in
      Replays still (start_current still current at).1 (start_current still current at).0
unfolding stop_changed start_current
start_current-Replays none none at = done
start_current-Replays none (some c) at = opens done
start_current-Replays (some w) none at = done
start_current-Replays (some w) (some c) at = elim (Bool-cases (str_eq w.id c.id)) [
  | inl e ↦ rw e (rw e done)
  | inr e ↦ rw e (opens done)
]

evaluate_at-Replays :
    (s : Scheduler) (now : ℕ) (e : WindowEvaluation)
    → Replays s.active_window (evaluate_at s now e).1.intents (evaluate_at s now e).0.active_window
unfolding evaluate_at
evaluate_at-Replays s now e = elim (Bool-cases (has_passed s.last_evaluated_time now)) [
  | inl h ↦ rw h done
  | inr h ↦ rw h (
      Replays-append (stop_changed-Replays s.active_window e.window (iso now))
        (start_current-Replays s.active_window e.window (iso now)))
]

-- Successive evaluations, one for each reading of the clock; a refused one is passed over.
pub evaluate_all : Scheduler → List Date → Scheduler × List ScheduleIntent
evaluate_all s [] = (s, [])
evaluate_all s (d ∷ ds) = elim (evaluate s d) [
  | err _ ↦ evaluate_all s ds
  | ok (s', e) ↦ let (t, rest) = evaluate_all s' ds in (t, e.intents ++ rest)
]

-- An accepted evaluation goes on with the window of the reading.
evaluate-eq-ok :
    (s s' : Scheduler) (d : Date) (e : ScheduleEvaluation)
    → evaluate s d ≡ ok (s', e)
    → (now : ℕ) × (current : WindowEvaluation) × (d ≡ some now)
      × (evaluate_weekday_window d ≡ ok current)
      × (evaluate_at s now current ≡ (s', e))
unfolding evaluate
evaluate-eq-ok s s' none e h = cc
evaluate-eq-ok s s' (some now) e h = elim (Result-cases (evaluate_weekday_window (some now))) [
  | inl (x, refused) ↦ absurd (ground arith)
  | inr (current, accepted) ↦ (now, current, refl, accepted, ground arith)
]

evaluate-Replays :
    (s s' : Scheduler) (d : Date) (e : ScheduleEvaluation)
    → evaluate s d ≡ ok (s', e)
    → Replays s.active_window e.intents s'.active_window
evaluate-Replays s s' d e h =
    let (now, current, _, _, same) = evaluate-eq-ok s s' d e h in
    subst
      (λ (r : Scheduler × ScheduleEvaluation).
        Replays s.active_window r.1.intents r.0.active_window)
      same (evaluate_at-Replays s now current)

-- Over any readings of the clock, invalid and backward ones included, the requests open and close
-- windows in turn, and the scheduler ends with the window that they leave open.
pub evaluate_all-Replays :
    (s : Scheduler) (ds : List Date)
    → Replays s.active_window (evaluate_all s ds).1 (evaluate_all s ds).0.active_window
unfolding evaluate_all
evaluate_all-Replays s [] = done
evaluate_all-Replays s (d ∷ ds) = elim (Result-cases (evaluate s d)) [
  | inl (x, refused) ↦ rw (refused, evaluate_all) (evaluate_all-Replays s ds)
  | inr ((s', e), accepted) ↦
      rw (accepted, evaluate_all)
        (Replays-append (evaluate-Replays s s' d e accepted) (evaluate_all-Replays s' ds))
]

-- A valid reading that does not lie after the last one that counted asks for nothing and leaves the
-- scheduler as it was.
evaluate-backward :
    (s s' : Scheduler) (last now : ℕ) (e : ScheduleEvaluation)
    → s.last_evaluated_time ≡ some last
    → now ≤ last
    → evaluate s (some now) ≡ ok (s', e)
    → (s' ≡ s) × (e.intents ≡ [])
unfolding evaluate evaluate_at
evaluate-backward s s' last now e h le r = ground arith

-- Both are no window, or windows of one identifier.
abbrev pub HaveSameId : Option OperatingWindow → Option OperatingWindow → Type 0
HaveSameId none none = Unit
HaveSameId (some v) (some w) = v.id ≡ w.id
HaveSameId _ _ = ⊥
