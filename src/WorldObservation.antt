-- ===== src/WorldObservation.antt =====
-- What the bot has observed of the world, src/domain/world-observation/types.ts and errors.ts. The
-- fields that hold one constant (`inventorySlot`, `fullInventory`, `source`) are left out.
pub mod Commands
pub mod Store
pub mod Blocks
pub mod Invariant
pub mod Steps
pub mod Runs
pub mod Loss
pub mod Laws
mod Tests
use voxel_steward.Base.{ℕ, String, Bool, Option, List, Number}
use voxel_steward.Base.Calendar.{DateText}

pub data ObservationAvailability : Type 0 where
  disconnected pre_spawn ready dimension_transition : ObservationAvailability

pub record ObservedBlockPosition : Type 0 where
  pub x : Number
  pub y : Number
  pub z : Number
  pub dimension : String

-- `boolean | "unknown"`, and any other value.
pub data Air : Type 0 where
  air not_air unknown_air other_air : Air

pub record ObservedBlock : Type 0 where
  pub position : ObservedBlockPosition
  pub runtime_id : Number
  pub air : Air
  pub observed_at : DateText

-- `"empty" | "unsupported"`, and any other value.
pub data TransactionExtra : Type 0 where
  empty_extra unsupported_extra other_extra : TransactionExtra

-- `stack_network_id` is none for `"unsupported"`.
pub record KnownItem : Type 0 where
  pub network_id : Number
  pub count : Number
  pub metadata : Number
  pub block_runtime_id : Number
  pub stack_network_id : Option Number
  pub transaction_extra : TransactionExtra

pub data ObservedHeldItem : Type 0 where
  unknown_item empty_hand inconsistent_item : ObservedHeldItem
  known : KnownItem → ObservedHeldItem

-- `selected_slot` is none for `"unknown"`.
pub record InventoryObservation : Type 0 where
  pub selected_slot : Option Number
  pub held_item : ObservedHeldItem

pub record ReadyRegistry : Type 0 where
  pub connection_generation : Number
  pub item_count : Number
  pub dirt_identifier : String
  pub dirt_network_id : Number

pub data ItemRegistryObservation : Type 0 where
  unavailable inconsistent : ItemRegistryObservation
  ready_registry : ReadyRegistry → ItemRegistryObservation

pub record WorldObservationSnapshot : Type 0 where
  pub revision : ℕ
  pub updated_at : DateText
  pub last_sequence : Number
  pub availability : ObservationAvailability
  pub connection_generation : ℕ
  pub dimension : Option String
  pub inventory : InventoryObservation
  pub item_registry : ItemRegistryObservation
  pub blocks : List ObservedBlock

pub data WorldObservationAction : Type 0 where
  connection_started spawn_completed : String → WorldObservationAction
  dimension_changing : Option String → WorldObservationAction
  held_item_observed : Number → ObservedHeldItem → WorldObservationAction
  inventory_invalidated disconnect : WorldObservationAction
  item_registry_observed : ItemRegistryObservation → WorldObservationAction
  block_observed : ObservedBlockPosition → Number → Air → WorldObservationAction

-- The `type` of a command.
abbrev pub command_type : WorldObservationAction → String
command_type (connection_started _) = "connection_started"
command_type (spawn_completed _) = "spawn_completed"
command_type (dimension_changing _) = "dimension_changing"
command_type (held_item_observed _ _) = "held_item_observed"
command_type inventory_invalidated = "inventory_invalidated"
command_type disconnect = "disconnected"
command_type (item_registry_observed _) = "item_registry_observed"
command_type (block_observed _ _ _) = "block_observed"

-- Every command has a sequence number.
pub record WorldObservationCommand : Type 0 where
  pub sequence : Number
  pub action : WorldObservationAction

-- The cause is the type of the command.
pub record WorldObservationEvent : Type 0 where
  pub revision : ℕ
  pub occurred_at : DateText
  pub cause : String
  pub before : WorldObservationSnapshot
  pub after : WorldObservationSnapshot

pub data WorldObservationError : Type 0 where
  invalid_observation observation_unavailable observation_closed : WorldObservationError
