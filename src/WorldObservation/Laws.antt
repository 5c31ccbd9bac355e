-- ===== src/WorldObservation/Laws.antt =====
-- What a client of the store of src/domain/world-observation/world-observation-store.ts relies on.
use voxel_steward.Base.{
  ℕ, ◌≤◌, ◌≡◌, refl, subst, Bool, true, false, Option, none, some, List, Number, nat,
  is_safe_integer, num_eq, num_le, Bool-cases, inl, inr, ok, err, arith,
}
use voxel_steward.Base.Calendar.{Date, DateText, iso}
use voxel_steward.WorldObservation.{
  ObservedBlock, WorldObservationSnapshot, block_observed, WorldObservationCommand,
  WorldObservationEvent, WorldObservationError, ObservedBlockPosition, Air, air, not_air,
  unknown_air, other_air,
}
use voxel_steward.WorldObservation.Commands.{
  valid_position, valid_air, is_ready, is_dimension, Next, check, same_air, set_block,
  observe_block, next_observation, is_same_block, find_block,
}
use voxel_steward.WorldObservation.Store.{
  WorldObservationStore, create_store, settle, dispatch, run_store, get_block,
}
use voxel_steward.WorldObservation.Blocks.{find-push_block, num_eq_refl}
use voxel_steward.WorldObservation.Invariant.{IsSound}
use voxel_steward.WorldObservation.Steps.{dispatch-cases}
use voxel_steward.WorldObservation.Runs.{create_store-IsKept, run_store-IsKept}

-- A store that is created has a limit of one block or more, and whatever is dispatched to it, what it
-- has observed stays sound: no more blocks than the limit, no two of one position, all of them at
-- whole coordinates in the dimension of the snapshot, no block and no inventory unless it is ready,
-- and a registry only of the current connection.
pub run_store-IsSound :
    (max_blocks : Number) (clock : Date) (o : WorldObservationStore)
    (cs : List (WorldObservationCommand × Date))
    → create_store max_blocks clock ≡ ok o
    → (limit : ℕ) × (max_blocks ≡ nat limit) × (1 ≤ limit) × IsSound limit (run_store o cs).snapshot
run_store-IsSound max_blocks clock o cs e =
    let (limit, same, positive, kept) = create_store-IsKept max_blocks clock o e in
    (limit, same, positive, (run_store-IsKept limit o cs kept).sound)

same_air_refl : (a : Air) → valid_air a ≡ true → same_air a a ≡ true
same_air_refl air v = refl
same_air_refl not_air v = refl
same_air_refl unknown_air v = refl
same_air_refl other_air v = absurd (ground arith)

module _ (p : ObservedBlockPosition) (runtime_id : Number) (a : Air) where
  -- The block at the position is found, with the runtime id and the air of the observation.
  pub record Shows (found : Option ObservedBlock) : Type 0 where
    pub block : ObservedBlock
    pub is_found : found ≡ some block
    pub runtime_id_is : num_eq block.runtime_id runtime_id ≡ true
    pub air_is : same_air block.air a ≡ true

  record SnapshotShows (s : WorldObservationSnapshot) : Type 0 where
    is_there : is_ready s.availability ≡ true
    is_here : is_dimension s.dimension p.dimension ≡ true
    shown : Shows (find_block p s.blocks)

  unfoldable NextShows : WorldObservationSnapshot → Next → Type 0
  NextShows s (ok none) = SnapshotShows s
  NextShows s (ok (some t)) = SnapshotShows t
  NextShows s (err e) = Unit

  check-NextShows :
      (s : WorldObservationSnapshot) (b : Bool) (e : WorldObservationError) (n : Next)
      → (b ≡ true → NextShows s n)
      → NextShows s (check b e n)
  unfolding NextShows check
  check-NextShows s true e n h = h refl
  check-NextShows s false e n h = tt

  is_same_block-Shows :
      (found : Option ObservedBlock) (b : ObservedBlock)
      → b.runtime_id ≡ runtime_id
      → b.air ≡ a
      → is_same_block found b ≡ true
      → Shows found
  is_same_block-Shows none b r i e = absurd (ground arith)
  is_same_block-Shows (some old) b r i e = record {
    block = old;
    is_found = refl;
    runtime_id_is = ground arith;
    air_is = ground arith;
  }

  set_block-NextShows :
      (limit : ℕ) (s : WorldObservationSnapshot) (now : DateText)
      → 1 ≤ limit
      → is_ready s.availability ≡ true
      → is_dimension s.dimension p.dimension ≡ true
      → valid_position p ≡ true
      → is_safe_integer runtime_id ≡ true
      → valid_air a ≡ true
      → NextShows s (
          set_block
            (nat limit)
            s
            (record { position = p; runtime_id = runtime_id; air = a; observed_at = now }))
  unfolding set_block NextShows
  set_block-NextShows limit s now l r d v i w =
      let b : ObservedBlock = record {
        position = p;
        runtime_id = runtime_id;
        air = a;
        observed_at = now;
      } in
      elim (Bool-cases (is_same_block (find_block p s.blocks) b)) [
        | inl e ↦ rw e (record {
          is_there = r;
          is_here = d;
          shown = is_same_block-Shows (find_block p s.blocks) b refl refl e;
        })
        | inr e ↦ rw e (record {
          is_there = r;
          is_here = d;
          shown = record {
            block = b;
            is_found = find-push_block limit s.blocks b l v;
            runtime_id_is = num_eq_refl runtime_id i;
            air_is = same_air_refl a w;
          };
        })
      ]

  observe_block-NextShows :
      (limit : ℕ) (s : WorldObservationSnapshot) (now : DateText)
      → 1 ≤ limit
      → NextShows s (observe_block (nat limit) now s p runtime_id a)
  unfolding observe_block
  observe_block-NextShows limit s now l = check-NextShows s _ _ _ (λ r.
      check-NextShows s _ _ _ (λ valid.
        set_block-NextShows limit s now l r (ground arith) (ground arith) (ground arith)
          (ground arith)))

  settle-Shows :
      (o : WorldObservationStore) (c : WorldObservationCommand) (now : DateText)
      (next : Option WorldObservationSnapshot)
      → o.closed ≡ false
      → NextShows o.snapshot (ok next)
      → Shows (get_block (settle o c now next).0 p)
  unfolding settle NextShows get_block
  settle-Shows o c now none n h = simp (n, h.is_there, h.is_here) h.shown
  settle-Shows o c now (some s) n h = simp (n, h.is_there, h.is_here) h.shown

  -- In a store with a limit of one block or more, an observation of a block that is accepted with a
  -- sequence number above the last one can be looked up right after it, whether it gave an event or
  -- changed nothing: the block found at the position has the runtime id and the air observed.
  pub dispatch-get_block :
      (limit : ℕ) (o q : WorldObservationStore) (sequence : Number) (clock : Date)
      (event : Option WorldObservationEvent)
      → o.max_blocks ≡ nat limit
      → 1 ≤ limit
      → num_le sequence o.last_accepted_sequence ≡ false
      → dispatch o (record { sequence = sequence; action = block_observed p runtime_id a }) clock
        ≡ ok (q, event)
      → Shows (get_block q p)
  unfolding next_observation
  dispatch-get_block limit o q sequence clock event m l fresh e =
      let c : WorldObservationCommand = record {
        sequence = sequence;
        action = block_observed p runtime_id a;
      } in
      elim (dispatch-cases o c (q, event) clock e) [
        | inl (stale, same) ↦ absurd (ground arith)
        | inr s ↦
            let shows : NextShows o.snapshot
                (observe_block o.max_blocks (iso s.now) o.snapshot p runtime_id a) =
              rw m (observe_block-NextShows limit o.snapshot (iso s.now) l) in
            subst
              (λ (r : WorldObservationStore × Option WorldObservationEvent).
                Shows (get_block r.0 p))
              s.result
              (settle-Shows o c (iso s.now) s.next s.active
                (subst (NextShows o.snapshot) s.given shows))
      ]
