-- ===== src/Scheduler/Tests.antt =====
-- A Thursday in Tokyo, 2026-11-26.
use voxel_steward.Base.{ℕ, ◌≡◌, refl, none, some, List, [], ◌∷◌, ok}
use voxel_steward.Base.Calendar.{
  Date, iso, civil_of_day, day_of_civil, year_and_rest, month_and_rest, days_before_year,
  days_before_month, pad_start,
}
use voxel_steward.Scheduler.{
  OperatingSlot, SchedulePhase, OperatingWindow, start_requested, ScheduleEvaluation,
  WindowEvaluation, Scheduler, create_weekday_scheduler, local_time, utc_boundary_ms, date_key,
  window, evaluate_weekday_window, evaluate_at, evaluate,
}
use voxel_steward.Scheduler.Windows.{Holds, evaluate_weekday_window-Holds}
use voxel_steward.Scheduler.Requests.{Replays, evaluate_all, evaluate_all-Replays}

-- 10:00 and 11:59 in Tokyo.
abbrev ten : ℕ
ten = 1795654800000

abbrev noon_break : ℕ
noon_break = 1795661940000

abbrev morning_window : OperatingWindow
morning_window = record {
  id = "2026-11-26:morning";
  slot = OperatingSlot.morning;
  starts_at = iso 1795651200000;
  ends_at = iso 1795661940000;
}

abbrev at_ten : WindowEvaluation
at_ten = record { phase = SchedulePhase.morning; window = some morning_window }

at_ten_test : evaluate_weekday_window (some ten) ≡ ok at_ten
unfolding evaluate_weekday_window local_time window date_key utc_boundary_ms civil_of_day
    day_of_civil year_and_rest month_and_rest days_before_year days_before_month pad_start
at_ten_test = refl

evaluate_weekday_window-Holds_example : Holds ten at_ten morning_window
evaluate_weekday_window-Holds_example =
    evaluate_weekday_window-Holds ten at_ten morning_window at_ten_test refl

abbrev opened : Scheduler
opened = record { last_evaluated_time = some ten; active_window = some morning_window }

abbrev opening : ScheduleEvaluation
opening = record {
  phase = SchedulePhase.morning;
  evaluated_at = iso ten;
  intents = start_requested morning_window (iso ten) ∷ [];
}

abbrev again : ScheduleEvaluation
again = record { phase = SchedulePhase.morning; evaluated_at = iso ten; intents = [] }

asks_once : evaluate opened (some ten) ≡ ok (opened, again)
unfolding evaluate evaluate_at
asks_once = rw (at_ten_test, evaluate)

abbrev readings : List Date
readings = some ten ∷ none ∷ some ten ∷ some noon_break ∷ []

evaluate_all-Replays_example :
    Replays none
      (evaluate_all create_weekday_scheduler readings).1
      (evaluate_all create_weekday_scheduler readings).0.active_window
evaluate_all-Replays_example = evaluate_all-Replays create_weekday_scheduler readings
