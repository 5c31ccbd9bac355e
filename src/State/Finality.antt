-- ===== src/State/Finality.antt =====
-- What no later command takes back: a player's detection and the end of the runtime,
-- src/domain/state/state-store.ts.
use voxel_steward.Base.{
  ◌≡◌, ◌⊎◌, inl, inr, refl, String, Bool, true, false, none, some, List, ◌∷◌, ok, arith,
  Result-cases,
}
use voxel_steward.Base.Calendar.{Date}
use voxel_steward.State.{
  RuntimeState, MinecraftState, StateSnapshot, StateCommand, schedule_intent_record, runtime_allows,
}
use voxel_steward.State.Runtime.{
  apply_schedule, apply_runtime, apply_detection, apply_stop_reason, apply_error,
}
use voxel_steward.State.Minecraft.{apply_connection, apply_spawn, apply_telemetry, apply_invalidate}
use voxel_steward.State.Task.{
  apply_task_prepare, apply_task_transition, apply_task_progress, apply_task_reset,
}
use voxel_steward.State.Apply.{apply}
use voxel_steward.State.Dispatch.{stamp, dispatch, next_snapshot}
use voxel_steward.State.Consistency.{is_shut_down}
use voxel_steward.State.Invariant.{dispatch-IsCommitted}
use voxel_steward.State.History.{run, run_keeps}

apply-runtime :
    (s : StateSnapshot) (c : StateCommand) (t : StateSnapshot) (fields : List String)
    → apply s c ≡ ok (t, fields)
    → (t.runtime ≡ s.runtime) ⊎ (runtime_allows s.runtime t.runtime ≡ true)
unfolding apply apply_schedule apply_runtime apply_detection apply_stop_reason apply_error
    apply_connection apply_spawn apply_telemetry apply_invalidate apply_task_prepare
    apply_task_transition apply_task_progress apply_task_reset
apply-runtime s (schedule_intent_record phase intent) t fields e = ground arith
apply-runtime s _ t fields e = ground arith

pub apply-detected :
    (s : StateSnapshot) (c : StateCommand) (t : StateSnapshot) (fields : List String)
    → apply s c ≡ ok (t, fields)
    → s.minecraft.other_player_detected ≡ true
    → t.minecraft.other_player_detected ≡ true
unfolding apply apply_schedule apply_runtime apply_detection apply_stop_reason apply_error
    apply_connection apply_spawn apply_telemetry apply_invalidate apply_task_prepare
    apply_task_transition apply_task_progress apply_task_reset
apply-detected s (schedule_intent_record phase intent) t fields e h = ground arith
apply-detected s _ t fields e h = ground arith

-- What `#apply` keeps of the connection and the runtime, the store keeps.
module _ (Q : MinecraftState → RuntimeState → Type 0)
    (keep : (s : StateSnapshot) (c : StateCommand) (t : StateSnapshot) (fields : List String)
      → apply s c ≡ ok (t, fields)
      → Q s.minecraft s.runtime
      → Q t.minecraft t.runtime) where
  next_snapshot_keeps :
      (s : StateSnapshot) (c : StateCommand) (d : Date)
      → Q s.minecraft s.runtime
      → Q (next_snapshot s c d).minecraft (next_snapshot s c d).runtime
  unfolding next_snapshot stamp
  next_snapshot_keeps s c d q = elim (Result-cases (dispatch s c d)) [
    | inl (x, refused) ↦ rw (refused, next_snapshot) q
    | inr (none, unchanged) ↦ rw (unchanged, next_snapshot) q
    | inr (some event, changed) ↦
        let k = dispatch-IsCommitted s c d event changed in
        rw (changed, next_snapshot) (rw k.after (keep s c k.draft (k.field ∷ k.fields) k.applied q))
  ]

-- Every step of the runtime state is one of the transition table.
pub next_snapshot-runtime :
    (s : StateSnapshot) (c : StateCommand) (d : Date)
    → ((next_snapshot s c d).runtime ≡ s.runtime)
      ⊎ (runtime_allows s.runtime (next_snapshot s c d).runtime ≡ true)
unfolding next_snapshot stamp
next_snapshot-runtime s c d = elim (Result-cases (dispatch s c d)) [
  | inl (x, refused) ↦ rw (refused, next_snapshot) (inl refl)
  | inr (none, unchanged) ↦ rw (unchanged, next_snapshot) (inl refl)
  | inr (some event, changed) ↦
      let k = dispatch-IsCommitted s c d event changed in
      rw (changed, next_snapshot)
        (rw k.after (apply-runtime s c k.draft (k.field ∷ k.fields) k.applied))
]

-- A detected player stays detected through any commands.
pub run-detected :
    (s : StateSnapshot) (cs : List (StateCommand × Date))
    → s.minecraft.other_player_detected ≡ true
    → (run s cs).0.minecraft.other_player_detected ≡ true
run-detected s cs h =
    run_keeps (λ u. u.minecraft.other_player_detected ≡ true)
      (next_snapshot_keeps (λ m r. m.other_player_detected ≡ true) apply-detected) s cs h

apply-shut_down :
    (s : StateSnapshot) (c : StateCommand) (t : StateSnapshot) (fields : List String)
    → apply s c ≡ ok (t, fields)
    → is_shut_down s.runtime ≡ true
    → is_shut_down t.runtime ≡ true
apply-shut_down s c t fields e h = ground (arith, apply-runtime s c t fields e)

-- A runtime that is stopping, stopped or failed stays so through any commands.
pub run-shut_down :
    (s : StateSnapshot) (cs : List (StateCommand × Date))
    → is_shut_down s.runtime ≡ true
    → is_shut_down (run s cs).0.runtime ≡ true
run-shut_down s cs h =
    run_keeps (λ u. is_shut_down u.runtime ≡ true)
      (next_snapshot_keeps (λ m r. is_shut_down r ≡ true) apply-shut_down) s cs h

abbrev pub is_final : RuntimeState → Bool
is_final RuntimeState.stopped = true
is_final RuntimeState.failed = true
is_final _ = false

apply-final :
    (last : RuntimeState) (s : StateSnapshot) (c : StateCommand) (t : StateSnapshot)
    (fields : List String)
    → apply s c ≡ ok (t, fields)
    → (s.runtime ≡ last) × (is_final s.runtime ≡ true)
    → (t.runtime ≡ last) × (is_final t.runtime ≡ true)
apply-final last s c t fields e h = ground (arith, apply-runtime s c t fields e)

-- A runtime that is stopped or failed keeps that very state through any commands.
pub run-final :
    (s : StateSnapshot) (cs : List (StateCommand × Date))
    → is_final s.runtime ≡ true
    → (run s cs).0.runtime ≡ s.runtime
run-final s cs h =
    (run_keeps (λ u. (u.runtime ≡ s.runtime) × (is_final u.runtime ≡ true))
      (next_snapshot_keeps (λ m r. (r ≡ s.runtime) × (is_final r ≡ true)) (apply-final s.runtime)) s
      cs (refl, h)).0
