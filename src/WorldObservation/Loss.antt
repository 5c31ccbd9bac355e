-- ===== src/WorldObservation/Loss.antt =====
-- After the connection or the dimension was lost, src/domain/world-observation/world-observation-store.ts
-- knows nothing until a connection is started.
use voxel_steward.Base.{
  ◌≡◌, refl, subst, String, Bool, true, false, not, ◌&&◌, Option, none, some, List, [], ◌∷◌, All,
  Number, inl, inr, ok, arith,
}
use voxel_steward.Base.Calendar.{Date, DateText, iso}
use voxel_steward.WorldObservation.{
  ObservationAvailability, WorldObservationSnapshot, WorldObservationAction, connection_started,
  spawn_completed, dimension_changing, held_item_observed, inventory_invalidated, disconnect,
  item_registry_observed, block_observed, WorldObservationCommand, WorldObservationEvent,
  WorldObservationError, ObservedBlockPosition,
}
use voxel_steward.WorldObservation.Commands.{
  is_ready, is_pre_spawn, Next, check, complete_spawn, change_dimension, lose_connection,
  observe_held_item, invalidate_inventory, observe_registry, observe_block, next_observation,
}
use voxel_steward.WorldObservation.Store.{
  WorldObservationStore, settle, dispatch, next_store, run_store, get_block, get_item_network_id,
}
use voxel_steward.WorldObservation.Steps.{next_store_keeps, dispatch-cases}

-- Neither ready nor about to be.
abbrev is_lost : ObservationAvailability → Bool
is_lost a = not (is_ready a) && not (is_pre_spawn a)

abbrev pub is_loss : WorldObservationAction → Bool
is_loss disconnect = true
is_loss (dimension_changing _) = true
is_loss _ = false

abbrev pub is_connection_started : WorldObservationAction → Bool
is_connection_started (connection_started _) = true
is_connection_started _ = false

unfoldable NextIsLost : Next → Type 0
NextIsLost (ok (some s)) = is_lost s.availability ≡ true
NextIsLost _ = Unit

check-NextIsLost :
    (b : Bool) (e : WorldObservationError) (n : Next)
    → (b ≡ true → NextIsLost n)
    → NextIsLost (check b e n)
unfolding NextIsLost check
check-NextIsLost true e n h = h refl
check-NextIsLost false e n h = tt

lost-NextIsLost :
    (s : WorldObservationSnapshot) → is_lost s.availability ≡ true → NextIsLost (ok (some s))
unfolding NextIsLost
lost-NextIsLost s l = l

next_observation-loss :
    (m : Number) (now : DateText) (s : WorldObservationSnapshot) (a : WorldObservationAction)
    → is_loss a ≡ true
    → NextIsLost (next_observation m now s a)
unfolding next_observation change_dimension lose_connection
next_observation-loss m now s (connection_started d) l = absurd (ground arith)
next_observation-loss m now s (spawn_completed d) l = absurd (ground arith)
next_observation-loss m now s (held_item_observed slot i) l = absurd (ground arith)
next_observation-loss m now s inventory_invalidated l = absurd (ground arith)
next_observation-loss m now s (item_registry_observed i) l = absurd (ground arith)
next_observation-loss m now s (block_observed p r a) l = absurd (ground arith)
next_observation-loss m now s (dimension_changing d) l =
    check-NextIsLost _ _ _ (λ valid. lost-NextIsLost _ refl)
next_observation-loss m now s disconnect l = lost-NextIsLost _ refl

lost_refuses :
    (s : WorldObservationSnapshot) (e : WorldObservationError) (next : Next)
    → is_lost s.availability ≡ true
    → NextIsLost (check (is_ready s.availability) e next)
lost_refuses s e next l = check-NextIsLost _ _ _ (λ r. absurd (ground arith))

next_observation-lost :
    (m : Number) (now : DateText) (s : WorldObservationSnapshot) (a : WorldObservationAction)
    → is_connection_started a ≡ false
    → is_lost s.availability ≡ true
    → NextIsLost (next_observation m now s a)
unfolding next_observation complete_spawn observe_held_item invalidate_inventory observe_registry
    observe_block
next_observation-lost m now s (connection_started d) n l = absurd (ground arith)
next_observation-lost m now s (spawn_completed d) n l =
    check-NextIsLost _ _ _ (λ valid. absurd (ground arith))
next_observation-lost m now s (held_item_observed slot i) n l = lost_refuses s _ _ l
next_observation-lost m now s inventory_invalidated n l = lost_refuses s _ _ l
next_observation-lost m now s (item_registry_observed i) n l =
    check-NextIsLost _ _ _ (λ connected. absurd (ground arith))
next_observation-lost m now s (block_observed p r a) n l = lost_refuses s _ _ l
next_observation-lost m now s (dimension_changing d) n l =
    next_observation-loss m now s (dimension_changing d) refl
next_observation-lost m now s disconnect n l = next_observation-loss m now s disconnect refl

settle-lost :
    (o : WorldObservationStore) (c : WorldObservationCommand) (now : DateText)
    (next : Option WorldObservationSnapshot)
    → is_lost o.snapshot.availability ≡ true
    → NextIsLost (ok next)
    → is_lost (settle o c now next).0.snapshot.availability ≡ true
unfolding settle NextIsLost
settle-lost o c now none l n = l
settle-lost o c now (some s) l n = n

next_store-lost :
    (o : WorldObservationStore) (c : WorldObservationCommand) (d : Date)
    → is_connection_started c.action ≡ false
    → is_lost o.snapshot.availability ≡ true
    → is_lost (next_store o c d).snapshot.availability ≡ true
next_store-lost o c d n l =
    next_store_keeps (λ q. is_lost q.snapshot.availability ≡ true) o c d l
      (λ now next given. settle-lost o c (iso now) next l (
        subst NextIsLost given
          (next_observation-lost o.max_blocks (iso now) o.snapshot c.action n l)))

run_store-lost :
    (o : WorldObservationStore) (cs : List (WorldObservationCommand × Date))
    → All (λ (c : WorldObservationCommand × Date). is_connection_started c.0.action ≡ false) cs
    → is_lost o.snapshot.availability ≡ true
    → is_lost (run_store o cs).snapshot.availability ≡ true
unfolding run_store
run_store-lost o [] n l = l
run_store-lost o ((c, d) ∷ cs) (n, ns) l =
    run_store-lost (next_store o c d) cs ns (next_store-lost o c d n l)

get_block-lost :
    (o : WorldObservationStore) (p : ObservedBlockPosition)
    → is_lost o.snapshot.availability ≡ true
    → get_block o p ≡ none
unfolding get_block
get_block-lost o p l =
    let idle : is_ready o.snapshot.availability ≡ false = ground arith in ground arith

get_item_network_id-lost :
    (o : WorldObservationStore) (identifier : String)
    → is_lost o.snapshot.availability ≡ true
    → get_item_network_id o identifier ≡ none
unfolding get_item_network_id
get_item_network_id-lost o identifier l =
    let idle : is_ready o.snapshot.availability ≡ false = ground arith in ground arith

settle-event-lost :
    (o q : WorldObservationStore) (c : WorldObservationCommand) (now : DateText)
    (next : Option WorldObservationSnapshot) (event : WorldObservationEvent)
    → NextIsLost (ok next)
    → settle o c now next ≡ (q, some event)
    → is_lost q.snapshot.availability ≡ true
unfolding settle NextIsLost
settle-event-lost o q c now none event n e = absurd (ground arith)
settle-event-lost o q c now (some s) event n e =
    subst
      (λ (r : WorldObservationStore × Option WorldObservationEvent).
        is_lost r.0.snapshot.availability ≡ true)
      e n

-- A dispatch that gives an event for the loss of a connection or of a dimension leaves a lost store.
dispatch-lost :
    (o q : WorldObservationStore) (c : WorldObservationCommand) (d : Date)
    (event : WorldObservationEvent)
    → dispatch o c d ≡ ok (q, some event)
    → is_loss c.action ≡ true
    → is_lost q.snapshot.availability ≡ true
dispatch-lost o q c d event e l = elim (dispatch-cases o c (q, some event) d e) [
  | inl (stale, same) ↦ absurd (ground arith)
  | inr s ↦
      settle-event-lost o q c (iso s.now) s.next event
        (subst NextIsLost s.given
          (next_observation-loss o.max_blocks (iso s.now) o.snapshot c.action l))
        s.result
]

-- After an accepted loss of the connection or of the dimension, and whatever is dispatched then, no
-- block and no item is known until a command starts a connection.
pub run_store-unknown :
    (o q : WorldObservationStore) (c : WorldObservationCommand) (d : Date)
    (event : WorldObservationEvent) (cs : List (WorldObservationCommand × Date))
    (p : ObservedBlockPosition) (identifier : String)
    → dispatch o c d ≡ ok (q, some event)
    → is_loss c.action ≡ true
    → All (λ (c : WorldObservationCommand × Date). is_connection_started c.0.action ≡ false) cs
    → (get_block (run_store q cs) p ≡ none)
      × (get_item_network_id (run_store q cs) identifier ≡ none)
run_store-unknown o q c d event cs p identifier e loss n =
    let l = run_store-lost q cs n (dispatch-lost o q c d event e loss) in
    (get_block-lost (run_store q cs) p l, get_item_network_id-lost (run_store q cs) identifier l)
