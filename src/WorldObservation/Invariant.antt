-- ===== src/WorldObservation/Invariant.antt =====
-- Every dispatch of src/domain/world-observation/world-observation-store.ts keeps what was observed
-- bounded, one block to a position, and of the place and the connection the bot is in.
use voxel_steward.Base.{
  ℕ, ◌≤◌, ◌≡◌, refl, sym, subst, String, Bool, true, false, ◌&&◌, Option, none, some, [], length,
  All, Number, nat, num_eq, Bool-cases, Result-cases, inl, inr, ok, err, arith, if◌then◌else◌,
}
use voxel_steward.Base.Calendar.{DateText}
use voxel_steward.WorldObservation.{
  ObservationAvailability, ready, disconnected, pre_spawn, dimension_transition, ObservedBlock,
  ReadyRegistry, ItemRegistryObservation, unavailable, inconsistent, ready_registry,
  WorldObservationSnapshot, WorldObservationAction, connection_started, spawn_completed,
  dimension_changing, held_item_observed, inventory_invalidated, disconnect, item_registry_observed,
  block_observed, WorldObservationError, InventoryObservation, ObservedBlockPosition, Air,
  ObservedHeldItem,
}
use voxel_steward.WorldObservation.Commands.{
  valid_position, empty_inventory, is_ready, is_pre_spawn, is_dimension, Next, check, cleared,
  start_connection, complete_spawn, change_dimension, lose_connection, set_inventory,
  observe_held_item, invalidate_inventory, set_registry, valid_registry, observe_registry,
  set_block, observe_block, next_observation, project_held_item,
}
use voxel_steward.WorldObservation.Blocks.{
  AreDistinct, length-push_block, All-push_block, AreDistinct-push_block,
}

-- A block of the dimension the bot is in, at whole coordinates.
abbrev pub IsLocated : Option String → ObservedBlock → Type 0
IsLocated dimension b =
    (valid_position b.position ≡ true) × (is_dimension dimension b.position.dimension ≡ true)

abbrev pub RegistryIsCurrent : ℕ → ItemRegistryObservation → Type 0
RegistryIsCurrent generation (ready_registry r) =
    num_eq r.connection_generation (nat generation) ≡ true
RegistryIsCurrent generation _ = Unit

pub record IsSound (limit : ℕ) (s : WorldObservationSnapshot) : Type 0 where
  pub bounded : length s.blocks ≤ limit
  pub distinct : AreDistinct s.blocks
  pub located : All (IsLocated s.dimension) s.blocks
  pub idle_blocks : is_ready s.availability ≡ false → s.blocks ≡ []
  pub idle_inventory : is_ready s.availability ≡ false → s.inventory ≡ empty_inventory
  pub registry : RegistryIsCurrent s.connection_generation s.item_registry

is_pre_spawn_idle : (a : ObservationAvailability) → is_pre_spawn a ≡ true → is_ready a ≡ false
is_pre_spawn_idle pre_spawn e = refl
is_pre_spawn_idle ready e = absurd (ground arith)
is_pre_spawn_idle disconnected e = refl
is_pre_spawn_idle dimension_transition e = refl

and_left : (a b : Bool) → a && b ≡ true → a ≡ true
and_left a b e = ground arith

module _ (limit : ℕ) where
  unfoldable pub NextIsSound : Next → Type 0
  NextIsSound (ok (some s)) = IsSound limit s
  NextIsSound (ok none) = Unit
  NextIsSound (err e) = Unit

  err-NextIsSound : (e : WorldObservationError) → NextIsSound (err e)
  unfolding NextIsSound
  err-NextIsSound e = tt

  some-NextIsSound : (s : WorldObservationSnapshot) → IsSound limit s → NextIsSound (ok (some s))
  unfolding NextIsSound
  some-NextIsSound s h = h

  check-NextIsSound :
      (b : Bool) (e : WorldObservationError) (n : Next)
      → (b ≡ true → NextIsSound n)
      → NextIsSound (check b e n)
  unfolding NextIsSound check
  check-NextIsSound true e n h = h refl
  check-NextIsSound false e n h = tt

  unless-NextIsSound :
      (b : Bool) (s : WorldObservationSnapshot)
      → IsSound limit s
      → NextIsSound (if b then ok none else ok (some s))
  unfolding NextIsSound
  unless-NextIsSound true s h = tt
  unless-NextIsSound false s h = h

  cleared-IsSound :
      (s : WorldObservationSnapshot) (a : ObservationAvailability) (g : ℕ) (d : Option String)
      → IsSound limit (cleared s a g d)
  cleared-IsSound s a g d = record {
    bounded = omega arith;
    distinct = tt;
    located = tt;
    idle_blocks = λ idle. refl;
    idle_inventory = λ idle. refl;
    registry = tt;
  }

  cleared-NextIsSound :
      (s : WorldObservationSnapshot) (a : ObservationAvailability) (g : ℕ) (d : Option String)
      → NextIsSound (ok (some (cleared s a g d)))
  cleared-NextIsSound s a g d = some-NextIsSound _ (cleared-IsSound s a g d)

  module _ (s : WorldObservationSnapshot) (h : IsSound limit s) where
    start_connection-NextIsSound : (d : String) → NextIsSound (start_connection s d)
    unfolding start_connection
    start_connection-NextIsSound d =
        check-NextIsSound _ _ _ (λ valid. cleared-NextIsSound s _ _ (some d))

    spawned-IsSound :
        (d : String)
        → is_pre_spawn s.availability ≡ true
        → IsSound limit (record s { availability = ready; dimension = some d })
    spawned-IsSound d p =
        let idle = is_pre_spawn_idle s.availability p in
        record {
          bounded = h.bounded;
          distinct = h.distinct;
          located = subst (All (IsLocated (some d))) (sym (h.idle_blocks idle)) tt;
          idle_blocks = λ unready. h.idle_blocks idle;
          idle_inventory = λ unready. h.idle_inventory idle;
          registry = h.registry;
        }

    complete_spawn-NextIsSound : (d : String) → NextIsSound (complete_spawn s d)
    unfolding complete_spawn
    complete_spawn-NextIsSound d = check-NextIsSound _ _ _ (λ valid.
        elim (Bool-cases (is_dimension s.dimension d)) [
          | inl e ↦ rw e (some-NextIsSound _ (spawned-IsSound d (and_left _ _ valid)))
          | inr e ↦ rw e (cleared-NextIsSound s _ _ (some d))
        ])

    change_dimension-NextIsSound : (d : Option String) → NextIsSound (change_dimension s d)
    unfolding change_dimension
    change_dimension-NextIsSound d = check-NextIsSound _ _ _ (λ valid. cleared-NextIsSound s _ _ d)

    lose_connection-NextIsSound : NextIsSound (lose_connection s)
    unfolding lose_connection
    lose_connection-NextIsSound = cleared-NextIsSound s _ _ none

    set_inventory-NextIsSound :
        (i : InventoryObservation)
        → is_ready s.availability ≡ true
        → NextIsSound (set_inventory s i)
    unfolding set_inventory
    set_inventory-NextIsSound i r = unless-NextIsSound _ _ (record {
      bounded = h.bounded;
      distinct = h.distinct;
      located = h.located;
      idle_blocks = h.idle_blocks;
      idle_inventory = λ idle. absurd (ground arith);
      registry = h.registry;
    })

    observe_held_item-NextIsSound :
        (slot : Number) (i : ObservedHeldItem) → NextIsSound (observe_held_item s slot i)
    unfolding observe_held_item
    observe_held_item-NextIsSound slot i = check-NextIsSound _ _ _ (λ r.
        check-NextIsSound _ _ _ (λ valid. elim (Result-cases (project_held_item i)) [
          | inl (e, failed) ↦ rw failed (err-NextIsSound e)
          | inr (held, projected) ↦ rw projected (set_inventory-NextIsSound _ r)
        ]))

    invalidate_inventory-NextIsSound : NextIsSound (invalidate_inventory s)
    unfolding invalidate_inventory
    invalidate_inventory-NextIsSound = check-NextIsSound _ _ _ (λ r. set_inventory-NextIsSound _ r)

    set_registry-NextIsSound :
        (i : ItemRegistryObservation)
        → RegistryIsCurrent s.connection_generation i
        → NextIsSound (set_registry s i)
    unfolding set_registry
    set_registry-NextIsSound i r = unless-NextIsSound _ _ (record {
      bounded = h.bounded;
      distinct = h.distinct;
      located = h.located;
      idle_blocks = h.idle_blocks;
      idle_inventory = h.idle_inventory;
      registry = r;
    })

    valid_registry-RegistryIsCurrent :
        (r : ReadyRegistry)
        → valid_registry s.connection_generation r ≡ true
        → RegistryIsCurrent s.connection_generation (ready_registry r)
    unfolding valid_registry
    valid_registry-RegistryIsCurrent r e = ground arith

    observe_registry-NextIsSound :
        (i : ItemRegistryObservation) → NextIsSound (observe_registry s i)
    unfolding observe_registry
    observe_registry-NextIsSound unavailable =
        check-NextIsSound _ _ _ (λ connected. err-NextIsSound _)
    observe_registry-NextIsSound inconsistent =
        check-NextIsSound _ _ _ (λ connected. set_registry-NextIsSound inconsistent tt)
    observe_registry-NextIsSound (ready_registry r) = check-NextIsSound _ _ _ (λ connected.
        elim (Bool-cases (valid_registry s.connection_generation r)) [
          | inl e ↦
              rw e
                (set_registry-NextIsSound (ready_registry r) (valid_registry-RegistryIsCurrent r e))
          | inr e ↦ rw e (err-NextIsSound _)
        ])

    set_block-NextIsSound :
        (b : ObservedBlock)
        → is_ready s.availability ≡ true
        → IsLocated s.dimension b
        → NextIsSound (set_block (nat limit) s b)
    unfolding set_block
    set_block-NextIsSound b r l = unless-NextIsSound _ _ (record {
      bounded = length-push_block limit s.blocks b h.bounded;
      distinct = AreDistinct-push_block limit s.blocks b h.distinct;
      located = All-push_block limit s.blocks b (IsLocated s.dimension) h.located l;
      idle_blocks = λ idle. absurd (ground arith);
      idle_inventory = λ idle. absurd (ground arith);
      registry = h.registry;
    })

    observe_block-NextIsSound :
        (now : DateText) (p : ObservedBlockPosition) (runtime_id : Number) (a : Air)
        → NextIsSound (observe_block (nat limit) now s p runtime_id a)
    unfolding observe_block
    observe_block-NextIsSound now p runtime_id a = check-NextIsSound _ _ _ (λ r.
        check-NextIsSound _ _ _ (λ valid. set_block-NextIsSound _ r (ground arith, ground arith)))

    pub next_observation-NextIsSound :
        (now : DateText) (a : WorldObservationAction)
        → NextIsSound (next_observation (nat limit) now s a)
    unfolding next_observation
    next_observation-NextIsSound now (connection_started d) = start_connection-NextIsSound d
    next_observation-NextIsSound now (spawn_completed d) = complete_spawn-NextIsSound d
    next_observation-NextIsSound now (dimension_changing d) = change_dimension-NextIsSound d
    next_observation-NextIsSound now (held_item_observed slot i) =
        observe_held_item-NextIsSound slot i
    next_observation-NextIsSound now inventory_invalidated = invalidate_inventory-NextIsSound
    next_observation-NextIsSound now disconnect = lose_connection-NextIsSound
    next_observation-NextIsSound now (item_registry_observed i) = observe_registry-NextIsSound i
    next_observation-NextIsSound now (block_observed p runtime_id a) =
        observe_block-NextIsSound now p runtime_id a
