-- ===== src/Scheduler/Windows.antt =====
-- The operating windows of an instant.
use voxel_steward.Base.{ℕ, ◌+◌, ◌-◌, ◌*◌, ◌/◌, ◌≤◌, ◌<◌, ◌≡◌, ◌⊎◌, inl, inr, refl, some, ok, arith}
use voxel_steward.Base.Calendar.{iso, civil_of_day, day_of_civil, day_of_civil-civil_of_day}
use voxel_steward.Scheduler.{
  OperatingSlot, SchedulePhase, OperatingWindow, WindowEvaluation, local_time, day_ms,
  jst_offset_ms, utc_boundary, utc_boundary_ms, window, evaluate_weekday_window,
}

-- The day that a Tokyo time of day belongs to starts at a multiple of a day of local milliseconds.
day_of_local_time :
    (t : ℕ)
    → let local = local_time t in
      day_of_civil (record { year = local.year; month = local.month - 1; day = local.day })
      ≡ (t + jst_offset_ms) / day_ms
unfolding local_time
day_of_local_time t =
    let c = civil_of_day ((t + jst_offset_ms) / day_ms) in
    let e : c.month + 1 - 1 ≡ c.month = omega arith in
    rw e (day_of_civil-civil_of_day ((t + jst_offset_ms) / day_ms))

pub utc_boundary_ms-local_time :
    (t hour minute : ℕ)
    → utc_boundary_ms (local_time t) hour minute
      ≡ (t + jst_offset_ms) / day_ms * day_ms + hour * 3600000 + minute * 60000 - jst_offset_ms
unfolding utc_boundary_ms
utc_boundary_ms-local_time t hour minute = rw (day_of_local_time t)

-- The span of a window, for the phase that it comes with.
pub record Holds (t : ℕ) (e : WindowEvaluation) (w : OperatingWindow) : Type 0 where
  pub starts : ℕ
  pub ends : ℕ
  pub starts_at : w.starts_at ≡ iso starts
  pub ends_at : w.ends_at ≡ iso ends
  pub since : starts ≤ t
  pub until : t < ends
  pub hours :
      (e.phase ≡ SchedulePhase.morning)
        × (w.slot ≡ OperatingSlot.morning)
        × (ends ≡ starts + 179 * 60000)
      ⊎ (e.phase ≡ SchedulePhase.afternoon)
        × (w.slot ≡ OperatingSlot.afternoon)
        × (ends ≡ starts + 300 * 60000)

minute_of_day_lem :
    (t : ℕ)
    → (local_time t).minute_of_day + (t + jst_offset_ms) / day_ms * 1440
      ≡ (t + jst_offset_ms) / 60000
unfolding local_time
minute_of_day_lem t = omega arith

-- An evaluation with a window is one of two.
with_window :
    (t : ℕ) (e : WindowEvaluation) (w : OperatingWindow)
    → evaluate_weekday_window (some t) ≡ ok e
    → e.window ≡ some w
    → (540 ≤ (local_time t).minute_of_day)
        × ((local_time t).minute_of_day < 719)
        × (e.phase ≡ SchedulePhase.morning)
        × (window (local_time t) OperatingSlot.morning ≡ w)
      ⊎ (720 ≤ (local_time t).minute_of_day)
        × ((local_time t).minute_of_day < 1020)
        × (e.phase ≡ SchedulePhase.afternoon)
        × (window (local_time t) OperatingSlot.afternoon ≡ w)
unfolding evaluate_weekday_window
with_window t e w h k = ground arith

-- A window holds the instant that it was computed for: it opens at or before it and closes after
-- it, 179 minutes long in the morning phase and 300 in the afternoon phase.
pub evaluate_weekday_window-Holds :
    (t : ℕ) (e : WindowEvaluation) (w : OperatingWindow)
    → evaluate_weekday_window (some t) ≡ ok e
    → e.window ≡ some w
    → Holds t e w
unfolding window utc_boundary
evaluate_weekday_window-Holds t e w h k = elim (with_window t e w h k) [
  | inl (from, to, phase, same) ↦ record {
    starts = utc_boundary_ms (local_time t) 9 0;
    ends = utc_boundary_ms (local_time t) 11 59;
    starts_at = rw (← same) refl;
    ends_at = rw (← same) refl;
    since = omega (arith, utc_boundary_ms-local_time t 9 0, minute_of_day_lem t);
    until = omega (arith, utc_boundary_ms-local_time t 11 59, minute_of_day_lem t);
    hours = inl (
      phase,
      rw (← same) refl,
      omega (arith, utc_boundary_ms-local_time t 9 0, utc_boundary_ms-local_time t 11 59),
    );
  }
  | inr (from, to, phase, same) ↦ record {
    starts = utc_boundary_ms (local_time t) 12 0;
    ends = utc_boundary_ms (local_time t) 17 0;
    starts_at = rw (← same) refl;
    ends_at = rw (← same) refl;
    since = omega (arith, utc_boundary_ms-local_time t 12 0, minute_of_day_lem t);
    until = omega (arith, utc_boundary_ms-local_time t 17 0, minute_of_day_lem t);
    hours = inr (
      phase,
      rw (← same) refl,
      omega (arith, utc_boundary_ms-local_time t 12 0, utc_boundary_ms-local_time t 17 0),
    );
  }
]
