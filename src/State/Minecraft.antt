-- ===== src/State/Minecraft.antt =====
-- `#apply` of src/domain/state/state-store.ts: the commands on the game connection.
use voxel_steward.Base.{
  String, Bool, true, false, not, ◌&&◌, Option, none, some, List, [], ◌∷◌, ◌++◌, if◌then◌else◌,
  Number, num_eq, ok,
}
use voxel_steward.State.{
  MinecraftConnectionState, TelemetryStatus, Position, MinecraftState, StateSnapshot, Telemetry,
  invalid_state_command, invalid_state_transition, ◌>>◌, require, assert_minecraft_transition,
  assert_finite_telemetry,
}
use voxel_steward.State.Command.{Applied, same_number, same_text, same_bool}

abbrev pub same_connection : MinecraftConnectionState → MinecraftConnectionState → Bool
same_connection MinecraftConnectionState.disconnected MinecraftConnectionState.disconnected = true
same_connection MinecraftConnectionState.connecting MinecraftConnectionState.connecting = true
same_connection MinecraftConnectionState.connected MinecraftConnectionState.connected = true
same_connection MinecraftConnectionState.spawned MinecraftConnectionState.spawned = true
same_connection _ _ = false

abbrev pub is_valid_status : TelemetryStatus → Bool
is_valid_status TelemetryStatus.valid = true
is_valid_status _ = false

abbrev pub is_invalid_status : TelemetryStatus → Bool
is_invalid_status TelemetryStatus.invalid = true
is_invalid_status _ = false

unfoldable pub same_position : Option Position → Option Position → Bool
same_position none none = true
same_position (some a) (some b) = num_eq a.x b.x && num_eq a.y b.y && num_eq a.z b.z
same_position _ _ = false

-- What the source clears with the connection.
abbrev pub without_telemetry : MinecraftState → TelemetryStatus → MinecraftState
without_telemetry m status = record m {
  telemetry_status = status;
  position = none;
  dimension = none;
  health = none;
  hunger = none;
}

abbrev pub is_disconnected : MinecraftConnectionState → Bool
is_disconnected MinecraftConnectionState.disconnected = true
is_disconnected _ = false

unfoldable pub apply_connection : StateSnapshot → MinecraftConnectionState → Applied
unfolding assert_minecraft_transition
apply_connection s to =
    if same_connection s.minecraft.connection to
    then ok (s, [])
    else assert_minecraft_transition s.minecraft.connection to
      >> (if is_disconnected to
          then ok (
            record s {
              minecraft = record (without_telemetry s.minecraft TelemetryStatus.unknown) {
                connection = to;
                spawn_completed = false;
              };
            },
            "minecraft.connection" ∷ "minecraft.spawnCompleted" ∷ "minecraft.telemetryStatus"
                ∷ "minecraft.position" ∷ "minecraft.dimension" ∷ "minecraft.health"
                ∷ "minecraft.hunger" ∷ [],
          )
          else ok (
            record s { minecraft = record s.minecraft { connection = to } },
            "minecraft.connection" ∷ [],
          ))

abbrev pub is_connected : MinecraftConnectionState → Bool
is_connected MinecraftConnectionState.connected = true
is_connected _ = false

unfoldable pub apply_spawn : StateSnapshot → Bool → Applied
apply_spawn s completed =
    if same_bool s.minecraft.spawn_completed completed
    then ok (s, [])
    else require completed invalid_state_command
      >> (require (is_connected s.minecraft.connection) (invalid_state_transition "spawn")
          >> ok (
            record s {
              minecraft = record s.minecraft {
                spawn_completed = completed;
                connection = MinecraftConnectionState.spawned;
              };
            },
            "minecraft.spawnCompleted" ∷ "minecraft.connection" ∷ [],
          ))

abbrev pub position_part : (Position → Number) → Option Position → Option Number
position_part part none = none
position_part part (some p) = some (part p)

-- The value of an update where it is given, and else the old one.
abbrev pub given_or {ℓ} : {A : Type ℓ} → Option A → Option A → Option A
given_or none old = old
given_or (some a) old = some a

abbrev pub name_if : Bool → String → List String
name_if true name = name ∷ []
name_if false name = []

abbrev pub is_given {ℓ} : {A : Type ℓ} → Option A → Bool
is_given none = false
is_given (some a) = true

unfoldable pub telemetry_changes : MinecraftState → Telemetry → List String
unfolding same_position
telemetry_changes m t =
    name_if (is_given t.position && not (same_position m.position t.position)) "minecraft.position"
    ++ (name_if (is_given t.health && not (same_number t.health m.health)) "minecraft.health"
        ++ (name_if (is_given t.hunger && not (same_number t.hunger m.hunger)) "minecraft.hunger"
            ++ (name_if (is_given t.dimension && not (same_text t.dimension m.dimension))
                  "minecraft.dimension"
                ++ name_if (not (is_valid_status m.telemetry_status)) "minecraft.telemetryStatus")))

unfoldable pub apply_telemetry : StateSnapshot → Telemetry → Applied
unfolding assert_finite_telemetry
apply_telemetry s t =
    assert_finite_telemetry t.health
    >> (assert_finite_telemetry t.hunger
        >> (assert_finite_telemetry (position_part Position.x t.position)
            >> (assert_finite_telemetry (position_part Position.y t.position)
                >> (assert_finite_telemetry (position_part Position.z t.position)
                    >> ok (
                      record s {
                        minecraft = record s.minecraft {
                          telemetry_status = TelemetryStatus.valid;
                          position = given_or t.position s.minecraft.position;
                          dimension = given_or t.dimension s.minecraft.dimension;
                          health = given_or t.health s.minecraft.health;
                          hunger = given_or t.hunger s.minecraft.hunger;
                        };
                      },
                      telemetry_changes s.minecraft t,
                    )))))

unfoldable pub apply_invalidate : StateSnapshot → Applied
apply_invalidate s =
    if is_invalid_status s.minecraft.telemetry_status
    then ok (s, [])
    else ok (
      record s { minecraft = without_telemetry s.minecraft TelemetryStatus.invalid },
      "minecraft.telemetryStatus" ∷ "minecraft.position" ∷ "minecraft.dimension"
          ∷ "minecraft.health" ∷ "minecraft.hunger" ∷ [],
    )
