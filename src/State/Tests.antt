-- ===== src/State/Tests.antt =====
-- A short history of a runtime: it connects, sees a player, and stops.
use voxel_steward.Base.{◌≡◌, ◌⊎◌, refl, true, some, List, [], ◌∷◌}
use voxel_steward.Base.Calendar.{Date}
use voxel_steward.State.{
  RuntimeState, MinecraftConnectionState, StateSnapshot, StateCommand, runtime_transition,
  minecraft_connection_transition, safety_other_player_detected, runtime_allows,
}
use voxel_steward.State.Runtime.{apply_runtime, apply_detection}
use voxel_steward.State.Minecraft.{apply_connection}
use voxel_steward.State.Apply.{apply}
use voxel_steward.State.Dispatch.{initial_snapshot, stamp, commit, dispatch, next_snapshot}
use voxel_steward.State.Consistency.{IsConsistent}
use voxel_steward.State.History.{run, Chain, run-IsConsistent, run-Chain}
use voxel_steward.State.Finality.{next_snapshot-runtime, run-final}

abbrev commands : List (StateCommand × Date)
commands =
    (runtime_transition RuntimeState.connecting, some 1)
    ∷ (minecraft_connection_transition MinecraftConnectionState.connecting, some 2)
    ∷ (runtime_transition RuntimeState.stopped, some 3)
    ∷ (safety_other_player_detected, some 4)
    ∷ (runtime_transition RuntimeState.ready, some 5)
    ∷ (runtime_transition RuntimeState.stopped, some 6)
    ∷ []

abbrev start : StateSnapshot
start = unfold initial_snapshot in initial_snapshot 0

ends_stopped :
    let s = (run (initial_snapshot 0) commands).0 in
    (s.runtime ≡ RuntimeState.stopped)
    × (s.minecraft.other_player_detected ≡ true)
    × (s.revision ≡ 4)
    × (s.stop_reason ≡ some "other_player_detected")
unfolding run dispatch apply apply_runtime apply_connection apply_detection commit stamp
    initial_snapshot
ends_stopped = (refl, refl, refl, refl)

run-IsConsistent_example : IsConsistent (run (initial_snapshot 0) commands).0
run-IsConsistent_example = run-IsConsistent 0 commands

run-Chain_example :
    Chain
      (initial_snapshot 0)
      (run (initial_snapshot 0) commands).1
      (run (initial_snapshot 0) commands).0
run-Chain_example = run-Chain (initial_snapshot 0) commands

next_snapshot-runtime_example :
    let after =
      next_snapshot (initial_snapshot 0) (runtime_transition RuntimeState.connecting) (some 1) in
    (after.runtime ≡ (initial_snapshot 0).runtime)
    ⊎ (runtime_allows (initial_snapshot 0).runtime after.runtime ≡ true)
next_snapshot-runtime_example =
    next_snapshot-runtime (initial_snapshot 0) (runtime_transition RuntimeState.connecting) (some 1)

abbrev over : StateSnapshot
over = record start { runtime = RuntimeState.stopped }

run-final_example : (run over commands).0.runtime ≡ RuntimeState.stopped
run-final_example = run-final over commands refl
