-- ===== src/OutboxDispatcher/Settles.antt =====
-- What a delivery of src/application/notifications/outbox-dispatcher.ts leaves of the outbox, while
-- others act on it.
use Prim.Native.Nat.{Ordering}
use voxel_steward.Base.{
  ℕ, ◌+◌, ◌≤◌, ◌≡◌, refl, String, Bool, true, false, Option, none, some, List, [], ◌∷◌, Bool-cases,
  leb, inl, inr, arith, Result, ok, err,
}
use voxel_steward.Base.Calendar.{Date}
use voxel_steward.Outbox.{
  Outbox, OutboxError, NotificationOutboxRecord, FailureStatus, claim_next, mark_delivered,
  mark_failed,
}
use voxel_steward.Outbox.Invariant.{OutboxIsValid, mark_delivered-IsValid, mark_failed-IsValid}
use voxel_steward.OutboxDispatcher.{
  OutboxDispatcherOptions, Turn, Report, lease_lost, persistence_error, delivery_error,
  safe_error_code, retry_delay, max_time, lease_until, claim_at, record_delivery, record_failure,
  fail_delivery, deliver_record,
}
use voxel_steward.OutboxDispatcher.Count.{
  count_open, count_open-mark_delivered, mark_delivered-refused, count_open-mark_failed,
}

-- What a delivery leaves: a valid outbox, with no more open records, and with one less or fewer where
-- it was delivered.
pub record Settles (o : Outbox) (after : Outbox × Bool × List Report) : Type 0 where
  pub valid : OutboxIsValid after.0
  pub bounded : count_open after.0.records ≤ count_open o.records
  pub closes : after.1 ≡ true → count_open after.0.records + 1 ≤ count_open o.records

-- What others did to the outbox keeps it valid and opens no record.
pub record IsQuietStep (f : Outbox → Outbox) : Type 0 where
  pub valid : (o : Outbox) → OutboxIsValid o → OutboxIsValid (f o)
  pub bounded : (o : Outbox) → OutboxIsValid o → count_open (f o).records ≤ count_open o.records

-- What others do in a turn: the other workers may claim and settle records, but none is enqueued.
pub record IsQuiet (t : Turn) : Type 0 where
  pub before_claim : IsQuietStep t.before_claim
  pub while_sending : IsQuietStep t.while_sending
  pub before_failure : IsQuietStep t.before_failure

lease_until-eq-ok :
    (expiry : ℕ) (m : Result OutboxError (Outbox × Option NotificationOutboxRecord))
    (x : Outbox × Option NotificationOutboxRecord)
    → lease_until expiry m ≡ ok x
    → m ≡ ok x
lease_until-eq-ok expiry (err e) x h = h
lease_until-eq-ok expiry (ok (p, none)) x h = h
lease_until-eq-ok expiry (ok (p, some r)) x h = ground arith

pub claim_at-eq-ok :
    (collate : String → String → Ordering) (s : OutboxDispatcherOptions) (o : Outbox) (d : Date)
    (x : Outbox × Option NotificationOutboxRecord)
    → claim_at collate s o d ≡ ok x
    → (now : ℕ) × (claim_next collate o s.worker_id now s.lease_duration_ms s.max_attempts ≡ ok x)
unfolding claim_at
claim_at-eq-ok collate s o none x e = absurd (ground arith)
claim_at-eq-ok collate s o (some now) x e = elim (Bool-cases (leb now max_time)) [
  | inl t ↦ (now, lease_until-eq-ok (now + s.lease_duration_ms) _ x (rw (claim_at, t) at e))
  | inr f ↦ absurd (ground arith)
]

module _ (s : OutboxDispatcherOptions) (o : Outbox) (r : NotificationOutboxRecord) where
  record_delivery-eq-ok :
      (d : Date) (x : Outbox × Bool)
      → record_delivery s o r d ≡ ok x
      → (now : ℕ) × (mark_delivered o r.run_id r.notification_id s.worker_id now ≡ ok x)
  unfolding record_delivery
  record_delivery-eq-ok none x e = absurd (ground arith)
  record_delivery-eq-ok (some now) x e = (now, ground arith)

  record_failure-eq-ok :
      (d : Date) (code : Option String) (x : Outbox × Option FailureStatus)
      → record_failure s o r d code ≡ ok x
      → (now next : ℕ) × (mark_failed o r.run_id r.notification_id s.worker_id now
            (some next)
            (safe_error_code code)
          ≡ ok x)
  unfolding record_failure
  record_failure-eq-ok none code x e = absurd (ground arith)
  record_failure-eq-ok (some now) code x e = (now, now + retry_delay s r.attempts, ground arith)

module _ (s : OutboxDispatcherOptions) (o : Outbox) (r : NotificationOutboxRecord) (t : Turn) where
  module _ (v : OutboxIsValid o) where
    failed-Settles :
        (m : Result OutboxError (Outbox × Option FailureStatus))
        → record_failure s o r t.failed_at t.error_code ≡ m
        → Settles o (elim m [
          | err e ↦ (o, false, persistence_error ∷ delivery_error ∷ [])
          | ok (p, none) ↦ (p, false, lease_lost ∷ delivery_error ∷ [])
          | ok (p, some status) ↦ (p, false, delivery_error ∷ [])
        ])
    failed-Settles (err e) h = record {
      valid = v;
      bounded = omega arith;
      closes = λ c. absurd (ground arith);
    }
    failed-Settles (ok (p, none)) h =
        let (now, next, marked) = record_failure-eq-ok s o r t.failed_at t.error_code (p, none) h in
        record {
          valid =
              mark_failed-IsValid o p r.run_id r.notification_id s.worker_id now _ _ none marked v;
          bounded =
              count_open-mark_failed o p r.run_id r.notification_id s.worker_id now _ _ none v
                marked;
          closes = λ c. absurd (ground arith);
        }
    failed-Settles (ok (p, some status)) h =
        let (now, next, marked) =
          record_failure-eq-ok s o r t.failed_at t.error_code (p, some status) h in
        record {
          valid =
              mark_failed-IsValid o p r.run_id r.notification_id s.worker_id now _ _ (some status)
                marked v;
          bounded =
              count_open-mark_failed o p r.run_id r.notification_id s.worker_id now _ _
                (some status) v marked;
          closes = λ c. absurd (ground arith);
        }

    fail_delivery-Settles : Settles o (fail_delivery s o r t)
    unfolding fail_delivery
    fail_delivery-Settles = failed-Settles _ refl

Settles-after :
    (o p : Outbox) (after : Outbox × Bool × List Report)
    → count_open p.records ≤ count_open o.records
    → Settles p after
    → Settles o after
Settles-after o p after less k = record {
  valid = k.valid;
  bounded = omega (arith, k.bounded);
  closes = λ c. omega (arith, k.closes c);
}

module _ (s : OutboxDispatcherOptions) (r : NotificationOutboxRecord) (t : Turn)
    (q : IsQuiet t) where
  delivered-Settles :
      (o : Outbox) (v : OutboxIsValid o) (m : Result OutboxError (Outbox × Bool))
      → record_delivery s o r t.delivered_at ≡ m
      → Settles o (elim m [
        | err e ↦ fail_delivery s (t.before_failure o) r t
        | ok (p, true) ↦ (p, true, [])
        | ok (p, false) ↦ (p, false, lease_lost ∷ [])
      ])
  delivered-Settles o v (err e) h =
      Settles-after o (t.before_failure o) _ (q.before_failure.bounded o v)
        (fail_delivery-Settles s (t.before_failure o) r t (q.before_failure.valid o v))
  delivered-Settles o v (ok (p, true)) h =
      let (now, marked) = record_delivery-eq-ok s o r t.delivered_at (p, true) h in
      let one = count_open-mark_delivered o p r.run_id r.notification_id s.worker_id now v marked in
      record {
        valid = mark_delivered-IsValid o p r.run_id r.notification_id s.worker_id now true marked v;
        bounded = omega (arith, one);
        closes = λ c. one;
      }
  delivered-Settles o v (ok (p, false)) h =
      let (now, marked) = record_delivery-eq-ok s o r t.delivered_at (p, false) h in
      record {
        valid =
            mark_delivered-IsValid o p r.run_id r.notification_id s.worker_id now false marked v;
        bounded =
            let same =
              mark_delivered-refused o p r.run_id r.notification_id s.worker_id now marked in
            rw same (omega arith);
        closes = λ c. absurd (ground arith);
      }

  pub deliver_record-Settles : (o : Outbox) → OutboxIsValid o → Settles o (deliver_record s o r t)
  unfolding deliver_record
  deliver_record-Settles o v =
      let sent = q.while_sending.valid o v in
      Settles-after o (t.while_sending o) (deliver_record s o r t) (q.while_sending.bounded o v)
        (elim (Bool-cases t.is_sent) [
          | inl e ↦ simp e (delivered-Settles (t.while_sending o) sent _ refl)
          | inr e ↦ simp e (fail_delivery-Settles s (t.while_sending o) r t sent)
        ])
