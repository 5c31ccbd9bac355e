-- ===== src/Safety.antt =====
-- The work safety policy, src/domain/safety/types.ts and work-safety-policy.ts, and the player
-- detection policy, src/domain/player-detection-policy.ts.
pub mod Laws
pub mod Tests
use voxel_steward.Base.{
  ℕ, String, Bool, true, false, not, ◌&&◌, ◌||◌, Option, none, some, if◌then◌else◌, is_some, str_eq,
  Number, nat, is_finite, num_lt,
}
use voxel_steward.State.{RuntimeState, MinecraftConnectionState, TelemetryStatus, StateSnapshot}

pub data WorkSafetyIntent : Type 0 where
  start continue : WorkSafetyIntent

pub data WorkSafetyReason : Type 0 where
  safe other_player_detected stop_requested runtime_not_ready minecraft_not_spawned
        telemetry_unavailable telemetry_invalid health_unavailable health_invalid health_critical
        hunger_unavailable hunger_invalid hunger_critical :
      WorkSafetyReason

pub data Disposition : Type 0 where
  allow block stop : Disposition

pub record WorkSafetyDecision : Type 0 where
  pub disposition : Disposition
  pub reason : WorkSafetyReason
  pub resumable : Bool

abbrev pub minimum_work_health : Number
minimum_work_health = nat 10

abbrev pub minimum_work_hunger : Number
minimum_work_hunger = nat 6

abbrev pub maximum_telemetry_value : Number
maximum_telemetry_value = nat 20

abbrev pub denial : WorkSafetyIntent → Disposition
denial start = block
denial continue = stop

abbrev pub deny : WorkSafetyIntent → WorkSafetyReason → Bool → WorkSafetyDecision
deny intent reason resumable = record {
  disposition = denial intent;
  reason = reason;
  resumable = resumable;
}

pub data TelemetryName : Type 0 where
  health hunger : TelemetryName

abbrev pub unavailable_reason : TelemetryName → WorkSafetyReason
unavailable_reason health = health_unavailable
unavailable_reason hunger = hunger_unavailable

abbrev pub invalid_reason : TelemetryName → WorkSafetyReason
invalid_reason health = health_invalid
invalid_reason hunger = hunger_invalid

abbrev pub critical_reason : TelemetryName → WorkSafetyReason
critical_reason health = health_critical
critical_reason hunger = hunger_critical

unfoldable pub telemetry_reason : Option Number → TelemetryName → Number → Option WorkSafetyReason
telemetry_reason none name minimum = some (unavailable_reason name)
telemetry_reason (some value) name minimum =
    if not (is_finite value) || num_lt value (nat 0) || num_lt maximum_telemetry_value value
    then some (invalid_reason name)
    else if num_lt value minimum
    then some (critical_reason name)
    else none

abbrev pub is_stopping : RuntimeState → Bool
is_stopping RuntimeState.stopping = true
is_stopping RuntimeState.stopped = true
is_stopping RuntimeState.failed = true
is_stopping _ = false

abbrev pub is_ready : RuntimeState → Bool
is_ready RuntimeState.ready = true
is_ready _ = false

abbrev pub is_spawned : MinecraftConnectionState → Bool
is_spawned MinecraftConnectionState.spawned = true
is_spawned _ = false

abbrev pub is_invalid : TelemetryStatus → Bool
is_invalid TelemetryStatus.invalid = true
is_invalid _ = false

abbrev pub is_valid : TelemetryStatus → Bool
is_valid TelemetryStatus.valid = true
is_valid _ = false

-- The tests on health and hunger, the last ones of `evaluate`.
unfoldable pub evaluate_body : StateSnapshot → WorkSafetyIntent → WorkSafetyDecision
unfolding telemetry_reason
evaluate_body s intent = elim (telemetry_reason s.minecraft.health health minimum_work_health) [
  | some reason ↦ deny intent reason true
  | none ↦ elim (telemetry_reason s.minecraft.hunger hunger minimum_work_hunger) [
    | some reason ↦ deny intent reason true
    | none ↦ record { disposition = allow; reason = safe; resumable = true }
  ]
]

-- `DefaultWorkSafetyPolicy.evaluate`
unfoldable pub evaluate : StateSnapshot → WorkSafetyIntent → WorkSafetyDecision
unfolding evaluate_body
evaluate s intent =
    if s.minecraft.other_player_detected
    then deny intent other_player_detected false
    else if is_some s.stop_reason || is_stopping s.runtime
    then deny intent stop_requested false
    else if not (is_ready s.runtime)
    then deny intent runtime_not_ready true
    else if not (is_spawned s.minecraft.connection) || not s.minecraft.spawn_completed
    then deny intent minecraft_not_spawned true
    else if is_invalid s.minecraft.telemetry_status
    then deny intent telemetry_invalid true
    else if not (is_valid s.minecraft.telemetry_status)
    then deny intent telemetry_unavailable true
    else evaluate_body s intent

pub data BotMode : Type 0 where
  normal debug : BotMode

pub data PlayerDetectionDecision : Type 0 where
  ignore_self continue stop : PlayerDetectionDecision

abbrev pub is_self : Option String → Option String → Bool
is_self none bot = false
is_self (some name) none = false
is_self (some name) (some bot) = str_eq name bot

-- `PlayerDetectionPolicy.decide`
unfoldable pub decide : BotMode → Option String → Option String → PlayerDetectionDecision
decide mode player_name bot_player_name =
    if is_self player_name bot_player_name then ignore_self else elim mode [
      | normal ↦ PlayerDetectionDecision.stop
      | debug ↦ PlayerDetectionDecision.continue
    ]
