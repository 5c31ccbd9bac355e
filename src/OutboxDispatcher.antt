-- ===== src/OutboxDispatcher.antt =====
-- `OutboxDispatcher` of src/application/notifications/outbox-dispatcher.ts over the outbox in memory:
-- `dispatchAvailable` with `#deliver`. What the clock, the port and `toSafeErrorCode` answer in a turn
-- of the loop, and what others do to the outbox while the loop awaits, is given by a `Turn`.
pub mod Count
pub mod Settles
pub mod Laws
mod Tests
use Prim.Native.Nat.{Ordering}
use voxel_steward.Base.{
  ℕ, suc, zero, ◌+◌, ◌-◌, ◌*◌, ◌^◌, min, String, Bool, true, false, not, ◌&&◌, ◌||◌, Option, none,
  some, List, [], ◌∷◌, if◌then◌else◌, ◌==◌, leb, length, codes, is_upper, is_digit, matches_token,
  Number, nat, is_safe_integer, num_lt, Result, ok, err,
}
use voxel_steward.Base.Calendar.{Date}
use voxel_steward.Outbox.{
  Outbox, OutboxError, range_error, NotificationOutboxRecord, FailureStatus, claim_next,
  mark_delivered, mark_failed,
}

pub record OutboxDispatcherOptions : Type 0 where
  pub worker_id : String
  pub max_attempts : ℕ
  pub lease_duration_ms : ℕ
  pub retry_base_delay_ms : ℕ
  pub retry_max_delay_ms : ℕ

abbrev pub is_positive : Number → Bool
is_positive value = is_safe_integer value && not (num_lt value (nat 1))

-- The constructor accepts the worker and the five settings.
unfoldable pub accepts_settings : String → Number → Number → Number → Number → Number → Bool
accepts_settings worker max_attempts lease poll base max =
    not (length (codes worker) == 0)
    && leb (length (codes worker)) 128
    && is_positive max_attempts
    && is_positive lease
    && is_positive poll
    && is_positive base
    && is_positive max

-- `error_code` is none where `toSafeErrorCode` throws. The three dates are readings of the clock. The
-- other workers and the writers act between the turns and before the claim, while a message is sent,
-- and after `markDelivered` rejected.
pub record Turn : Type 0 where
  pub is_stopping : Bool
  pub before_claim : Outbox → Outbox
  pub claimed_at : Date
  pub while_sending : Outbox → Outbox
  pub is_sent : Bool
  pub delivered_at : Date
  pub before_failure : Outbox → Outbox
  pub failed_at : Date
  pub error_code : Option String

-- The last instant of a `Date`, in milliseconds.
abbrev pub max_time : ℕ
max_time = 8640000000000000

-- `toISOString`, which throws a RangeError on Invalid Date.
abbrev pub to_iso : Date → Result OutboxError ℕ
to_iso none = err range_error
to_iso (some t) = if leb t max_time then ok t else err range_error

-- `new Date(date.getTime() + delay)`: beyond the last instant `to_iso` takes it as Invalid Date. Up to
-- there the sum is exact in floating point.
abbrev pub delayed : Date → ℕ → Date
delayed none delay = none
delayed (some t) delay = some (t + delay)

-- What `onError` is told.
pub data Report : Type 0 where
  lease_lost persistence_error delivery_error : Report

abbrev is_code_unit : ℕ → Bool
is_code_unit c = is_upper c || is_digit c || c == b'_'

-- `#safeErrorCode`
unfoldable pub safe_error_code : Option String → String
safe_error_code none = "DELIVERY_FAILED"
safe_error_code (some code) =
    if matches_token is_code_unit is_code_unit 63 (codes code) then code else "DELIVERY_FAILED"

-- The doubling is exact in floating point, and where it overflows the other delay is the smaller.
unfoldable pub retry_delay : OutboxDispatcherOptions → ℕ → ℕ
retry_delay s attempts = min s.retry_max_delay_ms (s.retry_base_delay_ms * 2 ^ (attempts - 1))

-- `claimNext` throws, before it writes, where the lease of the record it claims would end after the
-- last instant.
abbrev pub lease_until :
    ℕ
    → Result OutboxError (Outbox × Option NotificationOutboxRecord)
    → Result OutboxError (Outbox × Option NotificationOutboxRecord)
lease_until expiry (ok (p, some r)) =
    if leb expiry max_time then ok (p, some r) else err range_error
lease_until expiry m = m

-- The claim of a turn, with its reading of the clock.
unfoldable pub claim_at :
    (String → String → Ordering)
    → OutboxDispatcherOptions
    → Outbox
    → Date
    → Result OutboxError (Outbox × Option NotificationOutboxRecord)
claim_at collate s o clock = elim (to_iso clock) [
  | err e ↦ err e
  | ok now ↦
      lease_until (now + s.lease_duration_ms)
        (claim_next collate o s.worker_id now s.lease_duration_ms s.max_attempts)
]

-- The call of `markDelivered`, with its reading of the clock.
unfoldable pub record_delivery :
    OutboxDispatcherOptions
    → Outbox
    → NotificationOutboxRecord
    → Date
    → Result OutboxError (Outbox × Bool)
record_delivery s o r clock = elim (to_iso clock) [
  | err e ↦ err e
  | ok now ↦ mark_delivered o r.run_id r.notification_id s.worker_id now
]

-- The call of `markFailed`, with the two dates that it is given.
unfoldable pub record_failure :
    OutboxDispatcherOptions
    → Outbox
    → NotificationOutboxRecord
    → Date
    → Option String
    → Result OutboxError (Outbox × Option FailureStatus)
record_failure s o r failed_at code = elim (to_iso failed_at) [
  | err e ↦ err e
  | ok now ↦ elim (to_iso (delayed failed_at (retry_delay s r.attempts))) [
    | err e ↦ err e
    | ok next ↦
        mark_failed o r.run_id r.notification_id s.worker_id now (some next) (safe_error_code code)
  ]
]

-- The `catch` block of `#deliver`. A record whose failure cannot be recorded stays as it is.
unfoldable pub fail_delivery :
    OutboxDispatcherOptions → Outbox → NotificationOutboxRecord → Turn → Outbox × Bool × List Report
fail_delivery s o r t = elim (record_failure s o r t.failed_at t.error_code) [
  | err e ↦ (o, false, persistence_error ∷ delivery_error ∷ [])
  | ok (p, none) ↦ (p, false, lease_lost ∷ delivery_error ∷ [])
  | ok (p, some status) ↦ (p, false, delivery_error ∷ [])
]

-- `#deliver`: it fails too where the delivery of a message that was sent cannot be recorded.
unfoldable pub deliver_record :
    OutboxDispatcherOptions → Outbox → NotificationOutboxRecord → Turn → Outbox × Bool × List Report
deliver_record s o r t =
    let sent = t.while_sending o in
    if t.is_sent
    then elim (record_delivery s sent r t.delivered_at) [
      | err e ↦ fail_delivery s (t.before_failure sent) r t
      | ok (p, true) ↦ (p, true, [])
      | ok (p, false) ↦ (p, false, lease_lost ∷ [])
    ]
    else fail_delivery s sent r t

-- The result of `dispatchAvailable`, or the error it rejects with; none where the fuel runs out.
abbrev pub Dispatched : Type 0
Dispatched = Option (Result OutboxError (Outbox × ℕ))

module _ (collate : String → String → Ordering) (s : OutboxDispatcherOptions)
    (turns : ℕ → Turn) where
  -- The `while` loop of `dispatchAvailable`, from its turn `i` with `delivered` so far.
  unfoldable pub dispatch_available : ℕ → ℕ → Outbox → ℕ → Dispatched
  dispatch_available zero i o delivered = none
  dispatch_available (suc fuel) i o delivered = elim (turns i).is_stopping [
    | true ↦ some (ok (o, delivered))
    | false ↦ elim (claim_at collate s ((turns i).before_claim o) (turns i).claimed_at) [
      | err e ↦ some (err e)
      | ok (p, none) ↦ some (ok (p, delivered))
      | ok (p, some r) ↦
          let after = deliver_record s p r (turns i) in
          elim after.1 [
            | true ↦ dispatch_available fuel (i + 1) after.0 (delivered + 1)
            | false ↦ some (ok (after.0, delivered))
          ]
    ]
  ]
