-- ===== src/State/Invariant.antt =====
-- Every dispatch of src/domain/state/state-store.ts keeps the snapshot consistent.
use voxel_steward.Base.{
  ℕ, ◌+◌, ◌≡◌, refl, String, none, some, List, [], ◌∷◌, ok, arith, Result-cases, inl, inr,
}
use voxel_steward.Base.Calendar.{Date, DateText, iso}
use voxel_steward.State.{StateSnapshot, StateCommand}
use voxel_steward.State.Apply.{apply}
use voxel_steward.State.Dispatch.{stamp, commit, dispatch, next_snapshot, StateChangeEvent}
use voxel_steward.State.Consistency.{
  IsConsistent, apply-MinecraftIsConsistent, apply-DetectionIsKept, apply-TaskIsConsistent,
}

-- An event comes from an accepted command with a changed field, at a valid reading of the clock.
pub record IsCommitted (s : StateSnapshot) (c : StateCommand) (d : Date) (event : StateChangeEvent)
    : Type 0 where
  pub draft : StateSnapshot
  pub field : String
  pub fields : List String
  pub time : ℕ
  pub clock : d ≡ some time
  pub applied : apply s c ≡ ok (draft, field ∷ fields)
  pub occurred_at : event.occurred_at ≡ iso time
  pub cause : event.cause ≡ c
  pub before : event.before ≡ s
  pub after : event.after ≡ stamp s draft c (iso time)
  pub changed : event.changed_fields ≡ field ∷ fields
  pub revision : event.revision ≡ s.revision + 1

stamp-revision :
    (s draft : StateSnapshot) (c : StateCommand) (now : DateText)
    → (stamp s draft c now).revision ≡ s.revision + 1
unfolding stamp
stamp-revision s draft c now = refl

commit-IsCommitted :
    (s draft : StateSnapshot) (fields : List String) (c : StateCommand) (d : Date)
    (event : StateChangeEvent)
    → apply s c ≡ ok (draft, fields)
    → commit s draft fields c d ≡ ok (some event)
    → IsCommitted s c d event
unfolding commit
commit-IsCommitted s draft [] c d event a e = absurd (ground arith)
commit-IsCommitted s draft (f ∷ fs) c none event a e = absurd (ground arith)
commit-IsCommitted s draft (f ∷ fs) c (some t) event a e = record {
  draft = draft;
  field = f;
  fields = fs;
  time = t;
  clock = refl;
  applied = a;
  occurred_at = ground arith;
  cause = ground arith;
  before = ground arith;
  after = ground arith;
  changed = ground arith;
  revision = ground (arith, stamp-revision s draft c (iso t));
}

pub dispatch-IsCommitted :
    (s : StateSnapshot) (c : StateCommand) (d : Date) (event : StateChangeEvent)
    → dispatch s c d ≡ ok (some event)
    → IsCommitted s c d event
unfolding dispatch
dispatch-IsCommitted s c d event e = elim (Result-cases (apply s c)) [
  | inl (x, refused) ↦ absurd (ground arith)
  | inr ((draft, fields), accepted) ↦
      commit-IsCommitted s draft fields c d event accepted (rw (accepted, dispatch) at e)
]

after-IsConsistent :
    (s : StateSnapshot) (c : StateCommand) (d : Date) (event : StateChangeEvent)
    → IsCommitted s c d event
    → IsConsistent s
    → IsConsistent event.after
unfolding stamp
after-IsConsistent s c d event k w =
    let fields = k.field ∷ k.fields in
    rw k.after (record {
      minecraft = apply-MinecraftIsConsistent s c k.draft fields k.applied w.minecraft;
      task = apply-TaskIsConsistent s c k.draft fields (iso k.time) k.applied w.task;
      detection = apply-DetectionIsKept s c k.draft fields k.applied w.detection;
    })

-- The store stays consistent through every command, refused and empty ones included.
pub next_snapshot-IsConsistent :
    (s : StateSnapshot) (c : StateCommand) (d : Date)
    → IsConsistent s
    → IsConsistent (next_snapshot s c d)
unfolding next_snapshot
next_snapshot-IsConsistent s c d w = elim (Result-cases (dispatch s c d)) [
  | inl (x, refused) ↦ rw (refused, next_snapshot) w
  | inr (none, unchanged) ↦ rw (unchanged, next_snapshot) w
  | inr (some event, changed) ↦
      rw (changed, next_snapshot)
        (after-IsConsistent s c d event (dispatch-IsCommitted s c d event changed) w)
]
