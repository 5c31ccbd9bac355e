-- ===== src/WorldObservation/Tests.antt =====
-- Runs of the world observation store, and the theorems about it at those runs.
use voxel_steward.Base.{
  ℕ, ◌≤◌, ◌≡◌, refl, Option, none, some, List, [], ◌∷◌, nat, ok, length, arith, true, false,
  is_some, ◌++◌,
}
use voxel_steward.Base.Calendar.{Date, iso}
use voxel_steward.WorldObservation.{
  ObservedBlockPosition, Air, ready, not_air, WorldObservationAction, connection_started,
  spawn_completed, disconnect, block_observed, WorldObservationCommand, WorldObservationEvent,
}
use voxel_steward.WorldObservation.Commands.{
  same_key, valid_sequence, valid_position, valid_dimension, check, start_connection,
  complete_spawn, lose_connection, find_block, without_block, push_block, set_block, observe_block,
  next_observation,
}
use voxel_steward.WorldObservation.Store.{
  WorldObservationStore, create_store, initial_snapshot, before_any, get_block, get_item_network_id,
  settle, accept, dispatch, or_same, next_store, run_store,
}
use voxel_steward.WorldObservation.Laws.{run_store-IsSound, Shows, dispatch-get_block}
use voxel_steward.WorldObservation.Loss.{run_store-unknown}
use voxel_steward.WorldObservation.Invariant.{IsSound}

abbrev now : Date
now = some 1700000000000

abbrev here : ObservedBlockPosition
here = record { x = nat 1; y = nat 64; z = nat 2; dimension = "overworld" }

abbrev there : ObservedBlockPosition
there = record { x = nat 5; y = nat 64; z = nat 2; dimension = "overworld" }

abbrev at : ℕ → WorldObservationAction → WorldObservationCommand
at n a = record { sequence = nat n; action = a }

abbrev small_store : WorldObservationStore
small_store = record {
  max_blocks = nat 1;
  closed = false;
  last_accepted_sequence = before_any;
  snapshot = initial_snapshot (iso 1700000000000);
}

small_store_is_created : create_store (nat 1) now ≡ ok small_store
unfolding create_store
small_store_is_created = refl

abbrev arrival : List (WorldObservationCommand × Date)
arrival =
    (at 0 (connection_started "overworld"), now) ∷ (at 1 (spawn_completed "overworld"), now) ∷ []

abbrev two_blocks : List (WorldObservationCommand × Date)
two_blocks =
    arrival
    ++ ((at 2 (block_observed here (nat 7) not_air), now)
        ∷ (at 3 (block_observed there (nat 7) Air.air), now)
        ∷ [])

-- The second block takes the place of the first, the limit being one.
two_blocks-keeps_one :
    let o = run_store small_store two_blocks in
    (get_block o here ≡ none)
    × (length o.snapshot.blocks ≡ 1)
    × (is_some (get_block o there) ≡ true)
    × (o.snapshot.revision ≡ 4)
unfolding run_store next_store or_same dispatch accept settle check next_observation
    start_connection complete_spawn lose_connection observe_block set_block push_block without_block
    find_block same_key valid_sequence valid_position valid_dimension get_block
two_blocks-keeps_one = (refl, refl, refl, refl)

run_store-IsSound_example :
    (limit : ℕ) × (nat 1 ≡ nat limit)
    × (1 ≤ limit)
    × IsSound limit (run_store small_store two_blocks).snapshot
run_store-IsSound_example =
    run_store-IsSound (nat 1) now small_store two_blocks small_store_is_created

abbrev ready_store : WorldObservationStore
ready_store = record small_store {
  last_accepted_sequence = nat 1;
  snapshot = record (initial_snapshot (iso 1700000000000)) {
    revision = 2;
    last_sequence = nat 1;
    availability = ready;
    connection_generation = 1;
    dimension = some "overworld";
  };
}

ready_store_is_reached : run_store small_store arrival ≡ ready_store
unfolding run_store next_store or_same dispatch accept settle check next_observation
    start_connection complete_spawn lose_connection observe_block set_block push_block without_block
    find_block same_key valid_sequence valid_position valid_dimension
ready_store_is_reached = refl

abbrev seen : WorldObservationStore × Option WorldObservationEvent
seen =
    let after = record ready_store.snapshot {
      revision = 3;
      last_sequence = nat 2;
      blocks =
          record {
            position = here;
            runtime_id = nat 7;
            air = not_air;
            observed_at = iso 1700000000000;
          }
          ∷ [];
    } in
    (
      record ready_store { last_accepted_sequence = nat 2; snapshot = after },
      some (record {
        revision = 3;
        occurred_at = iso 1700000000000;
        cause = "block_observed";
        before = ready_store.snapshot;
        after = after;
      }),
    )

seen_is_given : dispatch ready_store (at 2 (block_observed here (nat 7) not_air)) now ≡ ok seen
unfolding run_store next_store or_same dispatch accept settle check next_observation
    start_connection complete_spawn lose_connection observe_block set_block push_block without_block
    find_block same_key valid_sequence valid_position valid_dimension
seen_is_given = refl

dispatch-get_block_example : Shows here (nat 7) not_air (get_block seen.0 here)
dispatch-get_block_example =
    dispatch-get_block here (nat 7) not_air 1 ready_store seen.0 (nat 2) now seen.1 refl
      (omega arith) refl seen_is_given

abbrev lost_event : WorldObservationEvent
lost_event = record {
  revision = 4;
  occurred_at = iso 1700000000000;
  cause = "disconnected";
  before = seen.0.snapshot;
  after = record (initial_snapshot (iso 1700000000000)) {
    revision = 4;
    last_sequence = nat 3;
    connection_generation = 1;
  };
}

abbrev lost_store : WorldObservationStore
lost_store = record seen.0 { last_accepted_sequence = nat 3; snapshot = lost_event.after }

loss_is_given : dispatch seen.0 (at 3 disconnect) now ≡ ok (lost_store, some lost_event)
unfolding run_store next_store or_same dispatch accept settle check next_observation
    start_connection complete_spawn lose_connection observe_block set_block push_block without_block
    find_block same_key valid_sequence valid_position valid_dimension
loss_is_given = refl

abbrev late : List (WorldObservationCommand × Date)
late = (at 4 (block_observed here (nat 7) not_air), now) ∷ []

run_store-unknown_example :
    (get_block (run_store lost_store late) here ≡ none)
    × (get_item_network_id (run_store lost_store late) "minecraft:dirt" ≡ none)
run_store-unknown_example =
    run_store-unknown seen.0 lost_store (at 3 disconnect) now lost_event late here "minecraft:dirt"
      loss_is_given refl (refl, tt)
