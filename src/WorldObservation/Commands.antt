-- ===== src/WorldObservation/Commands.antt =====
-- The cases of `dispatch` of src/domain/world-observation/world-observation-store.ts, and the checks
-- on what they carry. Values are immutable here, so `freeze` copies nothing.
use voxel_steward.Base.{
  ℕ, ◌+◌, String, Bool, true, false, not, ◌&&◌, ◌||◌, Option, none, some, List, [], ◌∷◌, ◌++◌,
  length, if◌then◌else◌, str_eq, Number, num, nat, negsuc, is_safe_integer, is_integer, num_lt,
  num_le, num_eq, Result, ok, err,
}
use voxel_steward.Base.Calendar.{DateText}
use voxel_steward.WorldObservation.{
  ObservationAvailability, disconnected, pre_spawn, ready, dimension_transition,
  ObservedBlockPosition, Air, air, not_air, unknown_air, other_air, ObservedBlock, TransactionExtra,
  empty_extra, unsupported_extra, other_extra, KnownItem, ObservedHeldItem, unknown_item,
  empty_hand, inconsistent_item, known, InventoryObservation, ReadyRegistry,
  ItemRegistryObservation, unavailable, inconsistent, ready_registry, WorldObservationSnapshot,
  WorldObservationAction, connection_started, spawn_completed, dimension_changing,
  held_item_observed, inventory_invalidated, disconnect, item_registry_observed, block_observed,
  WorldObservationError, invalid_observation, observation_unavailable,
}

-- `positionKey(p) === positionKey(q)`; the coordinates of a block that is kept are whole numbers, and
-- its dimension holds no colon.
unfoldable pub same_key : ObservedBlockPosition → ObservedBlockPosition → Bool
same_key p q = str_eq p.dimension q.dimension && num_eq p.x q.x && num_eq p.y q.y && num_eq p.z q.z

unfoldable pub valid_sequence : Number → Bool
valid_sequence value = is_safe_integer value && num_le (nat 0) value

unfoldable pub valid_position : ObservedBlockPosition → Bool
valid_position p = is_safe_integer p.x && is_safe_integer p.y && is_safe_integer p.z

unfoldable pub valid_dimension : String → Bool
valid_dimension value = str_eq value "overworld" || str_eq value "nether" || str_eq value "end"

abbrev pub uint16_max : Number
uint16_max = nat 65535

abbrev pub uint32_max : Number
uint32_max = nat 4294967295

abbrev pub int32_max : Number
int32_max = nat 2147483647

-- A number that is not safe, or not between the bounds.
abbrev pub is_outside : Number → Number → Number → Bool
is_outside minimum maximum value =
    not (is_safe_integer value) || num_lt value minimum || num_lt maximum value

abbrev pub min_int16 : Number
min_int16 = num (negsuc 32767) 0

unfoldable pub valid_network_id : Number → Bool
valid_network_id value = not (num_eq value (nat 0) || is_outside min_int16 (nat 32767) value)

abbrev pub valid_stack_id : Option Number → Bool
valid_stack_id none = true
valid_stack_id (some value) = not (is_outside (nat 1) int32_max value)

abbrev pub valid_extra : TransactionExtra → Bool
valid_extra other_extra = false
valid_extra _ = true

unfoldable pub valid_item : KnownItem → Bool
unfolding valid_network_id
valid_item i =
    valid_network_id i.network_id
    && not (is_outside (nat 1) uint16_max i.count)
    && not (is_outside (nat 0) uint32_max i.metadata)
    && not (is_outside (nat 0) uint32_max i.block_runtime_id)
    && valid_stack_id i.stack_network_id
    && valid_extra i.transaction_extra

unfoldable pub project_held_item : ObservedHeldItem → Result WorldObservationError ObservedHeldItem
project_held_item (known i) = if valid_item i then ok (known i) else err invalid_observation
project_held_item item = ok item

abbrev pub empty_inventory : InventoryObservation
empty_inventory = record { selected_slot = none; held_item = unknown_item }

abbrev pub same_number : Option Number → Option Number → Bool
same_number none none = true
same_number (some a) (some b) = num_eq a b
same_number _ _ = false

abbrev pub same_extra : TransactionExtra → TransactionExtra → Bool
same_extra empty_extra empty_extra = true
same_extra unsupported_extra unsupported_extra = true
same_extra _ _ = false

-- `JSON.stringify(a) === JSON.stringify(b)`, of items, inventories and registries whose numbers are
-- safe integers.
unfoldable pub same_item : ObservedHeldItem → ObservedHeldItem → Bool
same_item unknown_item unknown_item = true
same_item empty_hand empty_hand = true
same_item inconsistent_item inconsistent_item = true
same_item (known a) (known b) =
    num_eq a.network_id b.network_id
    && num_eq a.count b.count
    && num_eq a.metadata b.metadata
    && num_eq a.block_runtime_id b.block_runtime_id
    && same_number a.stack_network_id b.stack_network_id
    && same_extra a.transaction_extra b.transaction_extra
same_item _ _ = false

unfoldable pub same_inventory : InventoryObservation → InventoryObservation → Bool
same_inventory a b =
    same_number a.selected_slot b.selected_slot && same_item a.held_item b.held_item

unfoldable pub same_registry : ItemRegistryObservation → ItemRegistryObservation → Bool
same_registry unavailable unavailable = true
same_registry inconsistent inconsistent = true
same_registry (ready_registry a) (ready_registry b) =
    num_eq a.connection_generation b.connection_generation
    && num_eq a.item_count b.item_count
    && str_eq a.dirt_identifier b.dirt_identifier
    && num_eq a.dirt_network_id b.dirt_network_id
same_registry _ _ = false

abbrev pub is_ready : ObservationAvailability → Bool
is_ready ready = true
is_ready _ = false

abbrev pub is_pre_spawn : ObservationAvailability → Bool
is_pre_spawn pre_spawn = true
is_pre_spawn _ = false

abbrev pub is_dimension : Option String → String → Bool
is_dimension none d = false
is_dimension (some e) d = str_eq e d

-- What a case gives: an error, no change, or the next snapshot, yet to be stamped.
abbrev pub Next : Type 0
Next = Result WorldObservationError (Option WorldObservationSnapshot)

unfoldable pub check : Bool → WorldObservationError → Next → Next
check holds e next = if holds then next else err e

-- A snapshot with nothing observed.
abbrev pub cleared :
    WorldObservationSnapshot
    → ObservationAvailability
    → ℕ
    → Option String
    → WorldObservationSnapshot
cleared s availability generation dimension = record s {
  availability = availability;
  connection_generation = generation;
  dimension = dimension;
  inventory = empty_inventory;
  item_registry = unavailable;
  blocks = [];
}

unfoldable pub start_connection : WorldObservationSnapshot → String → Next
start_connection s dimension =
    check (valid_dimension dimension) invalid_observation
      (ok (some (cleared s pre_spawn (s.connection_generation + 1) (some dimension))))

unfoldable pub complete_spawn : WorldObservationSnapshot → String → Next
complete_spawn s dimension =
    check (is_pre_spawn s.availability && valid_dimension dimension) observation_unavailable (
      ok (
        some (
          if is_dimension s.dimension dimension
          then record s { availability = ready; dimension = some dimension }
          else cleared s ready s.connection_generation (some dimension))))

abbrev pub valid_optional_dimension : Option String → Bool
valid_optional_dimension none = true
valid_optional_dimension (some d) = valid_dimension d

unfoldable pub change_dimension : WorldObservationSnapshot → Option String → Next
change_dimension s dimension =
    check (valid_optional_dimension dimension) invalid_observation
      (ok (some (cleared s dimension_transition s.connection_generation dimension)))

unfoldable pub lose_connection : WorldObservationSnapshot → Next
lose_connection s = ok (some (cleared s disconnected s.connection_generation none))

-- An inventory that is seen: no change if it is the one that is known.
unfoldable pub set_inventory : WorldObservationSnapshot → InventoryObservation → Next
set_inventory s inventory =
    if same_inventory s.inventory inventory
    then ok none
    else ok (some (record s { inventory = inventory }))

abbrev pub valid_slot : Number → Bool
valid_slot slot = is_integer slot && not (num_lt slot (nat 0)) && not (num_lt (nat 8) slot)

unfoldable pub observe_held_item : WorldObservationSnapshot → Number → ObservedHeldItem → Next
unfolding project_held_item
observe_held_item s slot item = check (is_ready s.availability) observation_unavailable (
    check (valid_slot slot) invalid_observation (elim (project_held_item item) [
      | err e ↦ err e
      | ok held ↦ set_inventory s (record { selected_slot = some slot; held_item = held })
    ]))

unfoldable pub invalidate_inventory : WorldObservationSnapshot → Next
invalidate_inventory s =
    check (is_ready s.availability) observation_unavailable
      (set_inventory s (record { selected_slot = none; held_item = inconsistent_item }))

unfoldable pub set_registry : WorldObservationSnapshot → ItemRegistryObservation → Next
set_registry s registry =
    if same_registry s.item_registry registry
    then ok none
    else ok (some (record s { item_registry = registry }))

unfoldable pub valid_registry : ℕ → ReadyRegistry → Bool
unfolding valid_network_id
valid_registry generation r =
    num_eq r.connection_generation (nat generation)
    && is_safe_integer r.item_count
    && not (num_lt r.item_count (nat 1))
    && str_eq r.dirt_identifier "minecraft:dirt"
    && valid_network_id r.dirt_network_id

unfoldable pub observe_registry : WorldObservationSnapshot → ItemRegistryObservation → Next
observe_registry s registry =
    check (is_pre_spawn s.availability || is_ready s.availability) observation_unavailable
      (elim registry [
        | ready_registry r ↦
            if valid_registry s.connection_generation r
            then set_registry s (ready_registry r)
            else err invalid_observation
        | inconsistent ↦ set_registry s inconsistent
        | unavailable ↦ err invalid_observation
      ])

-- `blocks.find` and `blocks.filter` by the key of a position.
unfoldable pub find_block : ObservedBlockPosition → List ObservedBlock → Option ObservedBlock
find_block p [] = none
find_block p (b ∷ bs) = if same_key b.position p then some b else find_block p bs

unfoldable pub without_block : ObservedBlockPosition → List ObservedBlock → List ObservedBlock
without_block p [] = []
without_block p (b ∷ bs) =
    let rest = without_block p bs in if same_key b.position p then rest else b ∷ rest

-- `shift`
abbrev pub drop_first : List ObservedBlock → List ObservedBlock
drop_first [] = []
drop_first (b ∷ bs) = bs

unfoldable pub push_block : Number → List ObservedBlock → ObservedBlock → List ObservedBlock
push_block max_blocks blocks b =
    let all = without_block b.position blocks ++ (b ∷ []) in
    if num_lt max_blocks (nat (length all)) then drop_first all else all

abbrev pub valid_air : Air → Bool
valid_air other_air = false
valid_air _ = true

abbrev pub same_air : Air → Air → Bool
same_air air air = true
same_air not_air not_air = true
same_air unknown_air unknown_air = true
same_air _ _ = false

abbrev pub is_same_block : Option ObservedBlock → ObservedBlock → Bool
is_same_block none b = false
is_same_block (some old) b = num_eq old.runtime_id b.runtime_id && same_air old.air b.air

unfoldable pub set_block : Number → WorldObservationSnapshot → ObservedBlock → Next
set_block max_blocks s b =
    if is_same_block (find_block b.position s.blocks) b
    then ok none
    else ok (some (record s { blocks = push_block max_blocks s.blocks b }))

unfoldable pub observe_block :
    Number → DateText → WorldObservationSnapshot → ObservedBlockPosition → Number → Air → Next
observe_block max_blocks now s p runtime_id is_air =
    check (is_ready s.availability) observation_unavailable (
      check
        (valid_position p
          && is_dimension s.dimension p.dimension
          && is_safe_integer runtime_id
          && not (num_lt runtime_id (nat 0))
          && valid_air is_air)
        invalid_observation
        (set_block max_blocks s
          (record { position = p; runtime_id = runtime_id; air = is_air; observed_at = now })))

-- The `switch` of `dispatch`.
unfoldable pub next_observation :
    Number → DateText → WorldObservationSnapshot → WorldObservationAction → Next
next_observation max_blocks now s (connection_started dimension) = start_connection s dimension
next_observation max_blocks now s (spawn_completed dimension) = complete_spawn s dimension
next_observation max_blocks now s (dimension_changing dimension) = change_dimension s dimension
next_observation max_blocks now s disconnect = lose_connection s
next_observation max_blocks now s (held_item_observed slot item) = observe_held_item s slot item
next_observation max_blocks now s inventory_invalidated = invalidate_inventory s
next_observation max_blocks now s (item_registry_observed registry) = observe_registry s registry
next_observation max_blocks now s (block_observed p runtime_id is_air) =
    observe_block max_blocks now s p runtime_id is_air
