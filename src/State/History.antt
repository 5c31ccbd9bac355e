-- ===== src/State/History.antt =====
-- Sequences of commands, src/domain/state/state-store.ts: the events of a run, and what no later
-- command takes back.
use voxel_steward.Base.{
  ℕ, ◌+◌, ◌≡◌, sym, inl, inr, none, some, List, [], ◌∷◌, length, ok, err, arith, Result-cases,
}
use voxel_steward.Base.Calendar.{Date}
use voxel_steward.State.{StateSnapshot, StateCommand}
use voxel_steward.State.Dispatch.{
  initial_snapshot, stamp, dispatch, next_snapshot, StateChangeEvent,
}
use voxel_steward.State.Consistency.{IsConsistent, initial_snapshot-IsConsistent}
use voxel_steward.State.Invariant.{IsCommitted, dispatch-IsCommitted, next_snapshot-IsConsistent}

-- The store after commands at readings of the clock, and the events that it notified.
unfoldable pub run :
    StateSnapshot → List (StateCommand × Date) → StateSnapshot × List StateChangeEvent
run s [] = (s, [])
run s ((c, d) ∷ rest) = elim (dispatch s c d) [
  | err e ↦ run s rest
  | ok none ↦ run s rest
  | ok (some event) ↦ let (t, events) = run event.after rest in (t, event ∷ events)
]

-- Events that lead from one snapshot to another, each from where the one before it ended, with
-- revisions that count up by one.
pub data Chain : StateSnapshot → List StateChangeEvent → StateSnapshot → Type 0 where
  done : {s : StateSnapshot} → Chain s [] s
  link :
      {s t : StateSnapshot} {event : StateChangeEvent} {rest : List StateChangeEvent}
      → event.before ≡ s
      → event.revision ≡ s.revision + 1
      → event.after.revision ≡ event.revision
      → Chain event.after rest t
      → Chain s (event ∷ rest) t

pub Chain-revision :
    {s t : StateSnapshot} {events : List StateChangeEvent}
    → Chain s events t
    → t.revision ≡ s.revision + length events
Chain-revision done = omega arith
Chain-revision (link _ e f rest) = omega (arith, Chain-revision rest)

-- One induction for all that every command keeps.
module _ (P : StateSnapshot → Type 0)
    (keep : (s : StateSnapshot) (c : StateCommand) (d : Date) → P s → P (next_snapshot s c d)) where
  pub run_keeps : (s : StateSnapshot) (cs : List (StateCommand × Date)) → P s → P (run s cs).0
  unfolding run
  run_keeps s [] p = p
  run_keeps s ((c, d) ∷ rest) p = elim (Result-cases (dispatch s c d)) [
    | inl (x, refused) ↦ rw (refused, run) (run_keeps s rest p)
    | inr (none, unchanged) ↦ rw (unchanged, run) (run_keeps s rest p)
    | inr (some event, changed) ↦
        rw (changed, run)
          (run_keeps event.after rest
            (unfold next_snapshot in (rw (changed, next_snapshot) at (keep s c d p))))
  ]

-- Every run from the initial snapshot leaves the store consistent.
pub run-IsConsistent :
    (t : ℕ) (cs : List (StateCommand × Date)) → IsConsistent (run (initial_snapshot t) cs).0
run-IsConsistent t cs =
    run_keeps IsConsistent next_snapshot-IsConsistent (initial_snapshot t) cs
      (initial_snapshot-IsConsistent t)

after-revision :
    (s : StateSnapshot) (c : StateCommand) (d : Date) (event : StateChangeEvent)
    → IsCommitted s c d event
    → event.after.revision ≡ event.revision
unfolding stamp
after-revision s c d event k = rw k.after (sym k.revision)

-- The events of a run form a chain from its first snapshot to its last.
pub run-Chain :
    (s : StateSnapshot) (cs : List (StateCommand × Date)) → Chain s (run s cs).1 (run s cs).0
unfolding run
run-Chain s [] = done
run-Chain s ((c, d) ∷ rest) = elim (Result-cases (dispatch s c d)) [
  | inl (x, refused) ↦ rw (refused, run) (run-Chain s rest)
  | inr (none, unchanged) ↦ rw (unchanged, run) (run-Chain s rest)
  | inr (some event, changed) ↦
      let k = dispatch-IsCommitted s c d event changed in
      rw (changed, run)
        (link k.before k.revision (after-revision s c d event k) (run-Chain event.after rest))
]
