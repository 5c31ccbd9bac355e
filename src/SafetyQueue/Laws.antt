-- ===== src/SafetyQueue/Laws.antt =====
-- What the queue under the control of the safety policy hands out, and how often it stops a task.
use voxel_steward.Base.{
  ◌≡◌, refl, String, Bool, true, false, Option, none, some, List, includes, Number, Result, ok, err,
  arith, inl, inr, Bool-cases, Option-cases, eq_iff,
}
use voxel_steward.Base.Calendar.{Date}
use voxel_steward.State.{StateSnapshot}
use voxel_steward.Safety.{start, WorkSafetyDecision, allow, evaluate}
use voxel_steward.Safety.Laws.{IsWorkable, evaluate-allow_iff}
use voxel_steward.TaskQueue.{TaskQueueItem, TaskQueueTerminalStatus}
use voxel_steward.TaskQueue.Service.{
  TaskQueueRepository, ServiceError, TaskQueueEvent, dispatch, claim_next, finish,
}
use voxel_steward.SafetyQueue.{
  SafetyControlledTaskQueue, SafetyClaimResult, allows, settle_stop, stop_once, withhold, hand_out,
  settle_claim, claim_safely, claim_owner, claim_lease,
}

allows_sound : (d : WorkSafetyDecision) → allows d ≡ true → d.disposition ≡ allow
allows_sound d e = ground arith

allows-IsWorkable : (s : StateSnapshot) → allows (evaluate s start) ≡ true → IsWorkable s
allows-IsWorkable s e = (evaluate-allow_iff s start).0 (allows_sound (evaluate s start) e)

module _ {S : Type 0} (repo : TaskQueueRepository S) where
  withhold-none :
      (d : WorkSafetyDecision) (p : SafetyControlledTaskQueue S × Result ServiceError Bool)
      (q' : SafetyControlledTaskQueue S) (r : SafetyClaimResult)
      → withhold repo d p ≡ (q', ok r)
      → r.item ≡ none
  withhold-none d (q, ok b) q' r e = ground arith
  withhold-none d (q, err x) q' r e = absurd (ground arith)

  hand_out-allows :
      (q q' : SafetyControlledTaskQueue S) (item given : TaskQueueItem) (d : WorkSafetyDecision)
      (clock : Date) (r : SafetyClaimResult)
      → hand_out repo q item d clock ≡ (q', ok r)
      → r.item ≡ some given
      → allows d ≡ true
  unfolding hand_out
  hand_out-allows q q' item given d clock r e g = elim (Bool-cases (allows d)) [
    | inl t ↦ t
    | inr f ↦
        let empty = withhold-none d (stop_once repo q item.task_id clock) q' r (rw f at e) in
        absurd (ground arith)
  ]

  settle_claim-allows :
      (q q' : SafetyControlledTaskQueue S) (answer : S × Result ServiceError TaskQueueEvent)
      (decision after_claim : WorkSafetyDecision) (clock : Date) (r : SafetyClaimResult)
      (given : TaskQueueItem)
      → settle_claim repo q answer decision after_claim clock ≡ (q', ok r)
      → r.item ≡ some given
      → allows after_claim ≡ true
  unfolding settle_claim
  settle_claim-allows q q' (s, err x) decision after_claim clock r given e g = absurd (ground arith)
  settle_claim-allows q q' (s, ok event) decision after_claim clock r given e g =
      elim (Option-cases event.item) [
        | inl n ↦ let none_given = rw n at e in absurd (ground arith)
        | inr (item, i) ↦
            hand_out-allows (record q { store = s }) q' item given after_claim clock r (rw i at e) g
      ]

  -- A claim that hands out a task does so only where the snapshots before and after the queue was
  -- asked are both workable.
  pub claim_safely-IsWorkable :
      (q q' : SafetyControlledTaskQueue S) (types : Option (List String))
      (claim : Option (String × Number)) (before after : StateSnapshot) (clock later : Date)
      (r : SafetyClaimResult) (given : TaskQueueItem)
      → claim_safely repo q types claim before after clock later ≡ (q', ok r)
      → r.item ≡ some given
      → IsWorkable before × IsWorkable after
  unfolding claim_safely
  claim_safely-IsWorkable q q' types claim before after clock later r given e g =
      elim (Bool-cases (allows (evaluate before start))) [
        | inl t ↦ (
          allows-IsWorkable before t,
          allows-IsWorkable after (
              settle_claim-allows q q'
                (dispatch repo q.store (claim_next types (claim_owner claim) (claim_lease claim))
                  clock)
                (evaluate before start) (evaluate after start) later r given (rw t at e) g),
        )
        | inr f ↦ let none_given = rw f at e in absurd (ground arith)
      ]

  settle_stop-includes :
      (q q' : SafetyControlledTaskQueue S) (id : String)
      (answer : S × Result ServiceError TaskQueueEvent)
      → settle_stop repo q id answer ≡ (q', ok true)
      → includes q'.stopped_task_ids id ≡ true
  unfolding settle_stop
  settle_stop-includes q q' id (s, err x) e = absurd (ground arith)
  settle_stop-includes q q' id (s, ok event) e = let same = (eq_iff id id).1 refl in ground arith

  -- A task that was stopped is not stopped again: the next stop of it changes nothing and asks the
  -- queue for nothing.
  pub stop_once-once :
      (q q' : SafetyControlledTaskQueue S) (id : String) (clock later : Date)
      → stop_once repo q id clock ≡ (q', ok true)
      → stop_once repo q' id later ≡ (q', ok false)
  unfolding stop_once
  stop_once-once q q' id clock later e = elim (Bool-cases (includes q.stopped_task_ids id)) [
    | inl t ↦ let unchanged = rw t at e in absurd (ground arith)
    | inr f ↦
        let stopped : includes q'.stopped_task_ids id ≡ true =
          settle_stop-includes q q' id
            (dispatch repo q.store (finish id TaskQueueTerminalStatus.stopped) clock) (rw f at e) in
        rw stopped refl
  ]
