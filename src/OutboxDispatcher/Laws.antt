-- ===== src/OutboxDispatcher/Laws.antt =====
-- The loop of `dispatchAvailable` of src/application/notifications/outbox-dispatcher.ts ends, and
-- counts what it delivers.
use Prim.Native.Nat.{Ordering}
use voxel_steward.Base.{
  ℕ, suc, zero, ◌+◌, ◌≤◌, ◌<◌, ◌≡◌, refl, String, Bool, true, false, Option, none, some, List,
  arith, Result, ok, err,
}
use voxel_steward.Outbox.{Outbox, OutboxError, NotificationOutboxRecord}
use voxel_steward.Outbox.Invariant.{OutboxIsValid, claim_next-IsValid}
use voxel_steward.OutboxDispatcher.{
  OutboxDispatcherOptions, Turn, Report, claim_at, deliver_record, Dispatched, dispatch_available,
}
use voxel_steward.OutboxDispatcher.Count.{count_open, count_open-claim_next}
use voxel_steward.OutboxDispatcher.Settles.{
  IsQuiet, Settles, claim_at-eq-ok, deliver_record-Settles,
}

-- A call that began with `n` delivered and `open` open records rejects, or leaves a valid outbox and
-- counts no more than there were.
abbrev pub Accounts : ℕ → ℕ → Result OutboxError (Outbox × ℕ) → Type 0
Accounts n available (ok (p, m)) = OutboxIsValid p × (n ≤ m) × (m ≤ n + available)
Accounts n available (err e) = Unit

module _ (collate : String → String → Ordering) (s : OutboxDispatcherOptions)
    (turns : ℕ → Turn) where
  abbrev pub Returns : ℕ → ℕ → Dispatched → Type 0
  Returns n available d =
      (r : Result OutboxError (Outbox × ℕ)) × (d ≡ some r) × Accounts n available r

  Returns-after :
      (n before after : ℕ) (d : Dispatched)
      → after + 1 ≤ before
      → Returns (n + 1) after d
      → Returns n before d
  Returns-after n before after d h (err e, same, tt) = (err e, same, tt)
  Returns-after n before after d h (ok (p, m), same, (v, low, high)) =
      (ok (p, m), same, (v, omega arith, omega arith))

  -- One turn, given what comes after it.
  module _ (quiet : (j : ℕ) → IsQuiet (turns j)) (fuel i : ℕ) (o : Outbox) (n : ℕ)
      (v : OutboxIsValid o) (h : count_open o.records < suc fuel)
      (next : (q : Outbox)
        → OutboxIsValid q
        → count_open q.records < fuel
        → Returns
            (n + 1)
            (count_open q.records)
            (dispatch_available collate s turns fuel (i + 1) q (n + 1))) where
    settled-Returns :
        (p : Outbox) (after : Outbox × Bool × List Report)
        → count_open p.records ≤ count_open o.records
        → Settles p after
        → Returns n (count_open o.records) (elim after.1 [
          | true ↦ dispatch_available collate s turns fuel (i + 1) after.0 (n + 1)
          | false ↦ some (ok (after.0, n))
        ])
    settled-Returns p (q, true, reports) less k =
        let one = k.closes refl in
        Returns-after n (count_open o.records) (count_open q.records) _ (omega (arith, one))
          (next q k.valid (omega (arith, one)))
    settled-Returns p (q, false, reports) less k =
        (ok (q, n), refl, (k.valid, omega arith, omega arith))

    claimed-Returns :
        (m : Result OutboxError (Outbox × Option NotificationOutboxRecord))
        → claim_at collate s ((turns i).before_claim o) (turns i).claimed_at ≡ m
        → Returns n (count_open o.records) (elim m [
          | err e ↦ some (err e)
          | ok (p, none) ↦ some (ok (p, n))
          | ok (p, some r) ↦
              let after = deliver_record s p r (turns i) in
              elim after.1 [
                | true ↦ dispatch_available collate s turns fuel (i + 1) after.0 (n + 1)
                | false ↦ some (ok (after.0, n))
              ]
        ])
    claimed-Returns (err e) c = (err e, refl, tt)
    claimed-Returns (ok (p, none)) c =
        let before = (quiet i).before_claim in
        let (now, claim) = claim_at-eq-ok collate s _ _ (p, none) c in
        (
          ok (p, n),
          refl,
          (
            claim_next-IsValid collate ((turns i).before_claim o) p s.worker_id now
                s.lease_duration_ms s.max_attempts none claim (before.valid o v),
            omega arith,
            omega arith,
          ),
        )
    claimed-Returns (ok (p, some r)) c =
        let before = (quiet i).before_claim in
        let (now, claim) = claim_at-eq-ok collate s _ _ (p, some r) c in
        let valid =
          claim_next-IsValid collate ((turns i).before_claim o) p s.worker_id now
            s.lease_duration_ms s.max_attempts (some r) claim (before.valid o v) in
        let less =
          count_open-claim_next collate ((turns i).before_claim o) p s.worker_id now
            s.lease_duration_ms s.max_attempts r (before.valid o v) claim in
        settled-Returns p (deliver_record s p r (turns i)) (omega (arith, less, before.bounded o v))
          (deliver_record-Settles s r (turns i) (quiet i) p valid)

    turn-Returns :
        (stopping : Bool)
        → Returns n (count_open o.records) (elim stopping [
          | true ↦ some (ok (o, n))
          | false ↦ elim (claim_at collate s ((turns i).before_claim o) (turns i).claimed_at) [
            | err e ↦ some (err e)
            | ok (p, none) ↦ some (ok (p, n))
            | ok (p, some r) ↦
                let after = deliver_record s p r (turns i) in
                elim after.1 [
                  | true ↦ dispatch_available collate s turns fuel (i + 1) after.0 (n + 1)
                  | false ↦ some (ok (after.0, n))
                ]
          ]
        ])
    turn-Returns true = (ok (o, n), refl, (v, omega arith, omega arith))
    turn-Returns false = claimed-Returns _ refl

  -- In a valid outbox, while others keep it valid and open no record in it, as the other workers do
  -- that claim and settle records, the loop of `dispatchAvailable` ends within one turn more than there
  -- are open records, whatever the port and the error codes are and whatever the clock reads, invalid
  -- dates and dates too late for a retry included; unless it rejects, it leaves a valid outbox, and
  -- has counted no more deliveries than there were open records.
  pub dispatch_available-Returns :
      ((j : ℕ) → IsQuiet (turns j))
      → (fuel i : ℕ) (o : Outbox) (n : ℕ) → OutboxIsValid o
      → count_open o.records < fuel
      → Returns n (count_open o.records) (dispatch_available collate s turns fuel i o n)
  unfolding dispatch_available
  dispatch_available-Returns quiet zero i o n v h = absurd (omega arith)
  dispatch_available-Returns quiet (suc fuel) i o n v h =
      turn-Returns quiet fuel i o n v h
        (λ q valid less. dispatch_available-Returns quiet fuel (i + 1) q (n + 1) valid less)
        (turns i).is_stopping
