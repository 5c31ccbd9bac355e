-- ===== src/WorldObservation/Runs.antt =====
-- Runs of the store of src/domain/world-observation/world-observation-store.ts: what every dispatch
-- keeps of the snapshot, every run keeps.
use voxel_steward.Base.{
  ℕ, ◌≤◌, ◌≡◌, refl, subst, Option, none, some, List, [], ◌∷◌, Number, num, nan, infinity,
  neg_infinity, pos, negsuc, zero, suc, nat, ◌∙◌, ok, arith,
}
use voxel_steward.Base.Calendar.{Date, DateText, iso}
use voxel_steward.WorldObservation.{WorldObservationSnapshot, WorldObservationCommand}
use voxel_steward.WorldObservation.Commands.{next_observation}
use voxel_steward.WorldObservation.Store.{
  WorldObservationStore, create_store, settle, next_store, run_store, initial_snapshot,
}
use voxel_steward.WorldObservation.Steps.{next_store_keeps}
use voxel_steward.WorldObservation.Invariant.{IsSound, NextIsSound, next_observation-NextIsSound}

module _ (limit : ℕ) where
  settle-IsSound :
      (o : WorldObservationStore) (c : WorldObservationCommand) (now : DateText)
      (next : Option WorldObservationSnapshot)
      → IsSound limit o.snapshot
      → NextIsSound limit (ok next)
      → IsSound limit (settle o c now next).0.snapshot
  unfolding settle NextIsSound
  settle-IsSound o c now none h k = h
  settle-IsSound o c now (some s) h k = record {
    bounded = k.bounded;
    distinct = k.distinct;
    located = k.located;
    idle_blocks = k.idle_blocks;
    idle_inventory = k.idle_inventory;
    registry = k.registry;
  }

  pub initial_snapshot-IsSound : (now : DateText) → IsSound limit (initial_snapshot now)
  initial_snapshot-IsSound now = record {
    bounded = omega arith;
    distinct = tt;
    located = tt;
    idle_blocks = λ idle. refl;
    idle_inventory = λ idle. refl;
    registry = tt;
  }

  -- Of a dispatch: the store keeps its limit, and its snapshot stays sound.
  pub record IsKept (o : WorldObservationStore) : Type 0 where
    pub limited : o.max_blocks ≡ nat limit
    pub sound : IsSound limit o.snapshot

  settle-max_blocks :
      (o : WorldObservationStore) (c : WorldObservationCommand) (now : DateText)
      (next : Option WorldObservationSnapshot)
      → (settle o c now next).0.max_blocks ≡ o.max_blocks
  unfolding settle
  settle-max_blocks o c now none = refl
  settle-max_blocks o c now (some s) = refl

  next_store-IsKept :
      (o : WorldObservationStore) (c : WorldObservationCommand) (d : Date)
      → IsKept o
      → IsKept (next_store o c d)
  next_store-IsKept o c d k = next_store_keeps IsKept o c d k (λ now next given.
      let sound : NextIsSound limit (next_observation o.max_blocks (iso now) o.snapshot c.action) =
        rw k.limited (next_observation-NextIsSound limit o.snapshot k.sound (iso now) c.action) in
      record {
        limited = settle-max_blocks o c (iso now) next ∙ k.limited;
        sound = settle-IsSound o c (iso now) next k.sound (subst (NextIsSound limit) given sound);
      })

  pub run_store-IsKept :
      (o : WorldObservationStore) (cs : List (WorldObservationCommand × Date))
      → IsKept o
      → IsKept (run_store o cs)
  unfolding run_store
  run_store-IsKept o [] k = k
  run_store-IsKept o ((c, d) ∷ cs) k =
      run_store-IsKept (next_store o c d) cs (next_store-IsKept o c d k)

pub create_store-IsKept :
    (m : Number) (d : Date) (o : WorldObservationStore)
    → create_store m d ≡ ok o
    → (limit : ℕ) × (m ≡ nat limit) × (1 ≤ limit) × IsKept limit o
unfolding create_store
create_store-IsKept m none o e = absurd (ground arith)
create_store-IsKept (num (pos n) zero) (some t) o e =
    let same : initial_snapshot (iso t) ≡ o.snapshot = ground arith in
    (
      n,
      refl,
      ground arith,
      record {
        limited = ground arith;
        sound = subst (IsSound n) same (initial_snapshot-IsSound n (iso t));
      },
    )
create_store-IsKept (num (pos n) (suc r)) (some t) o e = absurd (ground arith)
create_store-IsKept (num (negsuc n) r) (some t) o e = absurd (ground arith)
create_store-IsKept nan (some t) o e = absurd (ground arith)
create_store-IsKept infinity (some t) o e = absurd (ground arith)
create_store-IsKept neg_infinity (some t) o e = absurd (ground arith)
