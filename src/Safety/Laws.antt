-- ===== src/Safety/Laws.antt =====
-- What the safety policy allows, and what a player's detection rules out for good.
use voxel_steward.Base.{
  ◌≡◌, ◌↔◌, ◌≢◌, true, false, Option, none, some, Number, nat, is_finite, num_le, arith, List, ◌⊎◌,
}
use voxel_steward.State.{
  RuntimeState, MinecraftConnectionState, TelemetryStatus, StateSnapshot, StateCommand,
}
use voxel_steward.Base.Calendar.{Date}
use voxel_steward.State.Consistency.{is_shut_down}
use voxel_steward.State.History.{run}
use voxel_steward.State.Finality.{run-detected, run-shut_down}
use voxel_steward.Safety.{
  WorkSafetyIntent, start, continue, Disposition, allow, block, stop, safe, other_player_detected,
  minimum_work_health, minimum_work_hunger, evaluate, deny, denial,
}

-- A value at least `minimum` and at most 20.
abbrev pub IsWithin : Number → Option Number → Type 0
IsWithin minimum none = ⊥
IsWithin minimum (some v) =
    (is_finite v ≡ true) × (num_le minimum v ≡ true) × (num_le v (nat 20) ≡ true)

-- What the policy promises of a snapshot under which work may go on.
pub record IsWorkable (s : StateSnapshot) : Type 0 where
  pub alone : s.minecraft.other_player_detected ≡ false
  pub unstopped : s.stop_reason ≡ none
  pub ready : s.runtime ≡ RuntimeState.ready
  pub spawned : s.minecraft.connection ≡ MinecraftConnectionState.spawned
  pub spawn_completed : s.minecraft.spawn_completed ≡ true
  pub telemetry : s.minecraft.telemetry_status ≡ TelemetryStatus.valid
  pub health : IsWithin minimum_work_health s.minecraft.health
  pub hunger : IsWithin minimum_work_hunger s.minecraft.hunger

-- Work is allowed exactly under a workable snapshot, for a start as for a continuation.
pub evaluate-allow_iff :
    (s : StateSnapshot) (intent : WorkSafetyIntent)
    → ((evaluate s intent).disposition ≡ allow) ↔ IsWorkable s
unfolding evaluate
evaluate-allow_iff s intent = (λ e. ground arith, λ w. ground arith)

-- What a denial of each intent is to be.
abbrev pub IsRefusal : WorkSafetyIntent → Disposition → Type 0
IsRefusal start d = d ≡ block
IsRefusal continue d = d ≡ stop

refusal : (intent : WorkSafetyIntent) (d : Disposition) → d ≡ denial intent → IsRefusal intent d
refusal start d e = e
refusal continue d e = e

evaluate-eq-denial :
    (s : StateSnapshot) (intent : WorkSafetyIntent)
    → (evaluate s intent).disposition ≢ allow
    → (evaluate s intent).disposition ≡ denial intent
unfolding evaluate
evaluate-eq-denial s intent h = ground arith

evaluate-for_good :
    (s : StateSnapshot) (intent : WorkSafetyIntent)
    → (evaluate s intent).disposition ≢ allow
    → ((evaluate s intent).reason ≢ safe)
      × (((evaluate s intent).resumable ≡ false) ↔ (
          (s.minecraft.other_player_detected ≡ true)
          ⊎ (s.stop_reason ≢ none)
          ⊎ (is_shut_down s.runtime ≡ true)))
unfolding evaluate
evaluate-for_good s intent h = ground arith

-- A denial is a block of a start and a stop of a continuation, names a reason, and is for good
-- exactly when a player was detected, a stop was asked for, or the runtime stops, stopped or failed.
pub evaluate-denial :
    (s : StateSnapshot) (intent : WorkSafetyIntent)
    → (evaluate s intent).disposition ≢ allow
    → IsRefusal intent (evaluate s intent).disposition
      × ((evaluate s intent).reason ≢ safe)
      × (((evaluate s intent).resumable ≡ false) ↔ (
          (s.minecraft.other_player_detected ≡ true)
          ⊎ (s.stop_reason ≢ none)
          ⊎ (is_shut_down s.runtime ≡ true)))
evaluate-denial s intent h =
    let (reason, for_good) = evaluate-for_good s intent h in
    (refusal intent _ (evaluate-eq-denial s intent h), reason, for_good)

-- Once a player was detected, no commands bring a snapshot under which work may start or go on: the
-- policy denies it for that reason, and for good.
pub run-evaluate-detected :
    (s : StateSnapshot) (cs : List (StateCommand × Date)) (intent : WorkSafetyIntent)
    → s.minecraft.other_player_detected ≡ true
    → evaluate (run s cs).0 intent ≡ deny intent other_player_detected false
unfolding evaluate
run-evaluate-detected s cs intent h = rw (run-detected s cs h)

-- Once the runtime is stopping, stopped or failed, no commands bring a snapshot under which work is allowed.
pub run-evaluate-shut_down :
    (s : StateSnapshot) (cs : List (StateCommand × Date)) (intent : WorkSafetyIntent)
    → is_shut_down s.runtime ≡ true
    → (evaluate (run s cs).0 intent).disposition ≢ allow
run-evaluate-shut_down s cs intent h e =
    ground (arith, run-shut_down s cs h, ((evaluate-allow_iff (run s cs).0 intent).0 e).ready)
