-- ===== src/Scheduler.antt =====
-- The weekday scheduler, src/domain/scheduler/types.ts and weekday-scheduler.ts: the operating
-- windows of a Tokyo working day, and the start and stop requests of successive evaluations.
pub mod Windows
pub mod Requests
mod Tests
use Prim.Native.String
use voxel_steward.Base.{
  ℕ, ◌+◌, ◌-◌, ◌*◌, ◌/◌, ◌%◌, String, Bool, true, false, not, ◌&&◌, ◌||◌, Option, none, some, List,
  [], ◌∷◌, ◌++◌, ltb, leb, ◌==◌, if◌then◌else◌, str_eq, is_some, Result, ok, err,
}
use voxel_steward.Base.Calendar.{Date, DateText, iso, Civil, civil_of_day, day_of_civil, pad_start}

pub data OperatingSlot : Type 0 where
  morning afternoon : OperatingSlot

pub data SchedulePhase : Type 0 where
  outside_hours morning handoff afternoon : SchedulePhase

pub record OperatingWindow : Type 0 where
  pub id : String
  pub slot : OperatingSlot
  pub starts_at : DateText
  pub ends_at : DateText

pub data ScheduleIntent : Type 0 where
  start_requested : OperatingWindow → DateText → ScheduleIntent
  stop_requested : OperatingWindow → DateText → ScheduleIntent

pub record ScheduleEvaluation : Type 0 where
  pub phase : SchedulePhase
  pub evaluated_at : DateText
  pub intents : List ScheduleIntent

pub data SchedulerError : Type 0 where
  invalid_scheduler_clock : SchedulerError

abbrev pub jst_offset_ms : ℕ
jst_offset_ms = 32400000

abbrev pub day_ms : ℕ
day_ms = 86400000

abbrev pub morning_start_minute : ℕ
morning_start_minute = 540

abbrev pub morning_end_minute : ℕ
morning_end_minute = 719

abbrev pub afternoon_start_minute : ℕ
afternoon_start_minute = 720

abbrev pub afternoon_end_minute : ℕ
afternoon_end_minute = 1020

pub record LocalTime : Type 0 where
  pub year : ℕ
  pub month : ℕ
  pub day : ℕ
  pub weekday : ℕ
  pub minute_of_day : ℕ

pub record WindowEvaluation : Type 0 where
  pub phase : SchedulePhase
  pub window : Option OperatingWindow

-- 1970-01-01 was a Thursday, the fourth day after Sunday.
unfoldable pub local_time : ℕ → LocalTime
local_time t =
    let local = t + jst_offset_ms in
    let c = civil_of_day (local / day_ms) in
    record {
      year = c.year;
      month = c.month + 1;
      day = c.day;
      weekday = (local / day_ms + 4) % 7;
      minute_of_day = local % day_ms / 3600000 * 60 + local % 3600000 / 60000;
    }

unfoldable pub utc_boundary_ms : LocalTime → ℕ → ℕ → ℕ
utc_boundary_ms local hour minute =
    day_of_civil (record { year = local.year; month = local.month - 1; day = local.day }) * day_ms
    + hour * 3600000
    + minute * 60000
    - jst_offset_ms

unfoldable pub utc_boundary : LocalTime → ℕ → ℕ → DateText
utc_boundary local hour minute = iso (utc_boundary_ms local hour minute)

unfoldable pub date_key : LocalTime → String
date_key local = String.◌++◌ (pad_start 4 local.year) (
    String.◌++◌ "-"
      (String.◌++◌ (pad_start 2 local.month) (String.◌++◌ "-" (pad_start 2 local.day))))

abbrev pub slot_text : OperatingSlot → String
slot_text OperatingSlot.morning = "morning"
slot_text OperatingSlot.afternoon = "afternoon"

unfoldable pub window : LocalTime → OperatingSlot → OperatingWindow
unfolding utc_boundary
window local OperatingSlot.morning = record {
  id = String.◌++◌ (date_key local) ":morning";
  slot = OperatingSlot.morning;
  starts_at = utc_boundary local 9 0;
  ends_at = utc_boundary local 11 59;
}
window local OperatingSlot.afternoon = record {
  id = String.◌++◌ (date_key local) ":afternoon";
  slot = OperatingSlot.afternoon;
  starts_at = utc_boundary local 12 0;
  ends_at = utc_boundary local 17 0;
}

unfoldable pub evaluate_weekday_window : Date → Result SchedulerError WindowEvaluation
evaluate_weekday_window none = err invalid_scheduler_clock
evaluate_weekday_window (some t) =
    let local = local_time t in
    let m = local.minute_of_day in
    if local.weekday == 0 || local.weekday == 6
    then ok (record { phase = SchedulePhase.outside_hours; window = none })
    else if leb morning_start_minute m && ltb m morning_end_minute
    then ok (record {
      phase = SchedulePhase.morning;
      window = some (window local OperatingSlot.morning);
    })
    else if leb morning_end_minute m && ltb m afternoon_start_minute
    then ok (record { phase = SchedulePhase.handoff; window = none })
    else if leb afternoon_start_minute m && ltb m afternoon_end_minute
    then ok (record {
      phase = SchedulePhase.afternoon;
      window = some (window local OperatingSlot.afternoon);
    })
    else ok (record { phase = SchedulePhase.outside_hours; window = none })

-- The private fields of `InMemoryWeekdayScheduler`.
pub record Scheduler : Type 0 where
  pub last_evaluated_time : Option ℕ
  pub active_window : Option OperatingWindow

-- `createWeekdayScheduler`
abbrev pub create_weekday_scheduler : Scheduler
create_weekday_scheduler = record { last_evaluated_time = none; active_window = none }

-- `active?.id === current?.id`
abbrev pub same_window_id : Option OperatingWindow → Option OperatingWindow → Bool
same_window_id none none = true
same_window_id (some v) (some w) = str_eq v.id w.id
same_window_id _ _ = false

-- The first test of `evaluate`: an active window that is not the current one is stopped.
unfoldable pub stop_changed :
    Option OperatingWindow
    → Option OperatingWindow
    → DateText
    → Option OperatingWindow × List ScheduleIntent
stop_changed none current at = (none, [])
stop_changed (some active) current at =
    if same_window_id (some active) current
    then (some active, [])
    else (none, stop_requested active at ∷ [])

-- The second test: a current window that is not the active one is started.
unfoldable pub start_current :
    Option OperatingWindow
    → Option OperatingWindow
    → DateText
    → Option OperatingWindow × List ScheduleIntent
start_current active none at = (active, [])
start_current active (some current) at =
    if same_window_id active (some current)
    then (active, [])
    else (some current, start_requested current at ∷ [])

abbrev pub has_passed : Option ℕ → ℕ → Bool
has_passed none now = false
has_passed (some last) now = leb now last

-- `evaluate` after the clock was read; a refused evaluation leaves the scheduler as it was.
unfoldable pub evaluate_at : Scheduler → ℕ → WindowEvaluation → Scheduler × ScheduleEvaluation
unfolding stop_changed start_current
evaluate_at s now evaluated =
    if has_passed s.last_evaluated_time now
    then (s, record { phase = evaluated.phase; evaluated_at = iso now; intents = [] })
    else let (still, stops) = stop_changed s.active_window evaluated.window (iso now) in
      let (active, starts) = start_current still evaluated.window (iso now) in
      (
        record { last_evaluated_time = some now; active_window = active },
        record { phase = evaluated.phase; evaluated_at = iso now; intents = stops ++ starts },
      )

unfoldable pub evaluate : Scheduler → Date → Result SchedulerError (Scheduler × ScheduleEvaluation)
evaluate s none = err invalid_scheduler_clock
evaluate s (some now) = elim (evaluate_weekday_window (some now)) [
  | err e ↦ err e
  | ok evaluated ↦ ok (evaluate_at s now evaluated)
]
