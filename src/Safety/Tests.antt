-- ===== src/Safety/Tests.antt =====
-- A bot at work, and one that has seen a player.
use voxel_steward.Base.{◌≡◌, ◌≢◌, ◌↔◌, ◌⊎◌, refl, true, false, some, none, List, [], ◌∷◌, nat}
use voxel_steward.Base.Calendar.{Date, iso}
use voxel_steward.State.{
  RuntimeState, MinecraftConnectionState, TelemetryStatus, TaskState, StateSnapshot, StateCommand,
  runtime_transition, minecraft_telemetry_invalidate,
}
use voxel_steward.State.Consistency.{is_shut_down}
use voxel_steward.State.History.{run}
use voxel_steward.Safety.{
  start, continue, allow, block, safe, other_player_detected, deny, evaluate,
}
use voxel_steward.Safety.Laws.{
  IsWorkable, evaluate-allow_iff, evaluate-denial, run-evaluate-detected, run-evaluate-shut_down,
}

abbrev pub at_work : StateSnapshot
at_work = record {
  revision = 9;
  updated_at = iso 100;
  runtime = RuntimeState.ready;
  minecraft = record {
    connection = MinecraftConnectionState.spawned;
    spawn_completed = true;
    telemetry_status = TelemetryStatus.valid;
    position = none;
    dimension = none;
    health = some (nat 20);
    hunger = some (nat 6);
    other_player_detected = false;
  };
  task = record {
    id = none;
    type = none;
    state = TaskState.idle;
    started_at = none;
    updated_at = iso 0;
    finished_at = none;
    progress = none;
    progress_message = none;
  };
  schedule = none;
  stop_reason = none;
  last_error = none;
}

evaluate-allow_iff_example : ((evaluate at_work start).disposition ≡ allow) ↔ IsWorkable at_work
evaluate-allow_iff_example = evaluate-allow_iff at_work start

works : (evaluate at_work start).disposition ≡ allow
unfolding evaluate
works = refl

abbrev hungry : StateSnapshot
hungry = record at_work { minecraft = record at_work.minecraft { hunger = some (nat 5) } }

hungry_blocked : (evaluate hungry start).disposition ≡ block
unfolding evaluate
hungry_blocked = refl

evaluate-denial_example :
    ((evaluate hungry start).disposition ≡ block)
    × ((evaluate hungry start).reason ≢ safe)
    × (((evaluate hungry start).resumable ≡ false) ↔ (
        (hungry.minecraft.other_player_detected ≡ true)
        ⊎ (hungry.stop_reason ≢ none)
        ⊎ (is_shut_down hungry.runtime ≡ true)))
evaluate-denial_example = evaluate-denial hungry start (λ e. cc (e, hungry_blocked))

abbrev watched : StateSnapshot
watched = record at_work {
  runtime = RuntimeState.stopping;
  minecraft = record at_work.minecraft { other_player_detected = true };
  stop_reason = some "other_player_detected";
}

abbrev commands : List (StateCommand × Date)
commands =
    (runtime_transition RuntimeState.ready, some 101) ∷ (minecraft_telemetry_invalidate, none) ∷ []

run-evaluate-detected_example :
    evaluate (run watched commands).0 continue ≡ deny continue other_player_detected false
run-evaluate-detected_example = run-evaluate-detected watched commands continue refl

run-evaluate-shut_down_example : (evaluate (run watched commands).0 start).disposition ≢ allow
run-evaluate-shut_down_example = run-evaluate-shut_down watched commands start refl
