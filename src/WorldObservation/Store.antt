-- ===== src/WorldObservation/Store.antt =====
-- `WorldObservationStore` of src/domain/world-observation/world-observation-store.ts. Its
-- subscriptions are left out: they are told of an event after it was stored.
use voxel_steward.Base.{
  ◌+◌, String, Bool, true, false, not, ◌&&◌, Option, none, some, List, [], ◌∷◌, if◌then◌else◌,
  str_eq, Number, num, nat, negsuc, is_integer, num_lt, num_le, num_eq, Result, ok, err,
}
use voxel_steward.Base.Calendar.{Date, DateText, iso}
use voxel_steward.WorldObservation.{
  disconnected, ObservedBlockPosition, ObservedBlock, ItemRegistryObservation, unavailable,
  ready_registry, WorldObservationSnapshot, command_type, WorldObservationCommand,
  WorldObservationEvent, WorldObservationError, invalid_observation, observation_closed,
}
use voxel_steward.WorldObservation.Commands.{
  valid_sequence, empty_inventory, is_ready, is_dimension, find_block, next_observation,
}

pub record WorldObservationStore : Type 0 where
  pub max_blocks : Number
  pub closed : Bool
  pub last_accepted_sequence : Number
  pub snapshot : WorldObservationSnapshot

abbrev pub before_any : Number
before_any = num (negsuc 0) 0

abbrev pub initial_snapshot : DateText → WorldObservationSnapshot
initial_snapshot now = record {
  revision = 0;
  updated_at = now;
  last_sequence = before_any;
  availability = disconnected;
  connection_generation = 0;
  dimension = none;
  inventory = empty_inventory;
  item_registry = unavailable;
  blocks = [];
}

-- The constructor, at a reading of the clock.
unfoldable pub create_store : Number → Date → Result WorldObservationError WorldObservationStore
create_store max_blocks none = err invalid_observation
create_store max_blocks (some now) =
    if is_integer max_blocks && not (num_lt max_blocks (nat 1))
    then ok (record {
      max_blocks = max_blocks;
      closed = false;
      last_accepted_sequence = before_any;
      snapshot = initial_snapshot (iso now);
    })
    else err invalid_observation

unfoldable pub get_block : WorldObservationStore → ObservedBlockPosition → Option ObservedBlock
get_block o p =
    if not o.closed
      && is_ready o.snapshot.availability
      && is_dimension o.snapshot.dimension p.dimension
    then find_block p o.snapshot.blocks
    else none

abbrev pub dirt_id : WorldObservationSnapshot → ItemRegistryObservation → Option Number
dirt_id s (ready_registry r) =
    if num_eq r.connection_generation (nat s.connection_generation)
    then some r.dirt_network_id
    else none
dirt_id s _ = none

unfoldable pub get_item_network_id : WorldObservationStore → String → Option Number
get_item_network_id o identifier =
    if not o.closed && is_ready o.snapshot.availability && str_eq identifier "minecraft:dirt"
    then dirt_id o.snapshot o.snapshot.item_registry
    else none

-- From the switch on.
unfoldable pub settle :
    WorldObservationStore
    → WorldObservationCommand
    → DateText
    → Option WorldObservationSnapshot
    → WorldObservationStore × Option WorldObservationEvent
settle o c now none = (record o { last_accepted_sequence = c.sequence }, none)
settle o c now (some s) =
    let after = record s {
      last_sequence = c.sequence;
      revision = o.snapshot.revision + 1;
      updated_at = now;
    } in
    (
      record o { last_accepted_sequence = c.sequence; snapshot = after },
      some (record {
        revision = o.snapshot.revision + 1;
        occurred_at = now;
        cause = command_type c.action;
        before = o.snapshot;
        after = after;
      }),
    )

unfoldable pub accept :
    WorldObservationStore
    → WorldObservationCommand
    → Date
    → Result WorldObservationError (WorldObservationStore × Option WorldObservationEvent)
accept o c none = err invalid_observation
accept o c (some now) = elim (next_observation o.max_blocks (iso now) o.snapshot c.action) [
  | err e ↦ err e
  | ok next ↦ ok (settle o c (iso now) next)
]

unfoldable pub dispatch :
    WorldObservationStore
    → WorldObservationCommand
    → Date
    → Result WorldObservationError (WorldObservationStore × Option WorldObservationEvent)
dispatch o c clock =
    if o.closed
    then err observation_closed
    else if not (valid_sequence c.sequence)
    then err invalid_observation
    else if num_le c.sequence o.last_accepted_sequence
    then ok (o, none)
    else accept o c clock

unfoldable pub close : WorldObservationStore → WorldObservationStore
close o = record o { closed = true }

-- The store after a dispatch: one that throws leaves it as it was.
unfoldable pub or_same :
    Result WorldObservationError (WorldObservationStore × Option WorldObservationEvent)
    → WorldObservationStore
    → WorldObservationStore
or_same (ok (p, event)) o = p
or_same (err e) o = o

unfoldable pub next_store :
    WorldObservationStore → WorldObservationCommand → Date → WorldObservationStore
next_store o c clock = or_same (dispatch o c clock) o

unfoldable pub run_store :
    WorldObservationStore → List (WorldObservationCommand × Date) → WorldObservationStore
run_store o [] = o
run_store o ((c, clock) ∷ rest) = run_store (next_store o c clock) rest
