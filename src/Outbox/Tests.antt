-- ===== src/Outbox/Tests.antt =====
-- Two notifications, one of them under way.
use Prim.Native.String.{compare}
use voxel_steward.Base.{◌≡◌, refl, true, false, some, none, [], ◌∷◌, ok, arith, ℕ}
use voxel_steward.Outbox.{
  NotificationMessage, NotificationOutboxRecord, NotificationDeliveryStatus, NotificationType,
  NotificationSeverity, Outbox, FailureStatus, set_record, is_available, is_before, better, select,
  claim_selected, claim_next, get_record, mark_delivered, mark_failed,
}
use voxel_steward.Outbox.Invariant.{
  OutboxIsValid, claim_next-IsValid, mark_delivered-IsValid, mark_failed-IsValid,
}
use voxel_steward.Outbox.Lease.{claim_next-exclusive}

abbrev message : ℕ → NotificationMessage
message revision = record {
  notification_id = "state";
  source_revision = revision;
  type = NotificationType.minecraft_connected;
  severity = NotificationSeverity.info;
  occurred_at = 100;
  title = "connected";
  body = "";
}

abbrev first : NotificationOutboxRecord
first = record {
  run_id = "run";
  notification_id = "n1";
  message = message 1;
  status = NotificationDeliveryStatus.pending;
  attempts = 0;
  max_attempts = none;
  next_attempt_at = none;
  lease_owner = none;
  lease_expires_at = none;
  delivered_at = none;
  last_error_code = none;
}

abbrev second : NotificationOutboxRecord
second = record first { notification_id = "n2"; message = message 2 }

abbrev leased : NotificationOutboxRecord
leased = record first {
  status = NotificationDeliveryStatus.delivering;
  attempts = 1;
  max_attempts = some 5;
  lease_owner = some "w1";
  lease_expires_at = some 30200;
}

abbrev before : Outbox
before = record { records = second ∷ first ∷ []; closed = false }

abbrev during : Outbox
during = record { records = second ∷ leased ∷ []; closed = false }

claims_first : claim_next compare before "w1" 200 30000 5 ≡ ok (during, some leased)
unfolding claim_next claim_selected select better is_before is_available set_record
claims_first = refl

before-IsValid : OutboxIsValid before
before-IsValid = record {
  distinct = ((refl, tt), (tt, tt));
  valid = (
    record { owner = refl; expiry = refl; delivery = refl; attempts = refl },
    (record { owner = refl; expiry = refl; delivery = refl; attempts = refl }, tt),
  );
}

claim_next-IsValid_example : OutboxIsValid during
claim_next-IsValid_example =
    claim_next-IsValid compare before during "w1" 200 30000 5 (some leased) claims_first
      before-IsValid

claim_next-exclusive_example : claim_next compare during "w2" 300 30000 5 ≡ ok (during, none)
claim_next-exclusive_example =
    claim_next-exclusive compare before during "w1" 200 30000 5 leased "w2" 300 30000 5
      before-IsValid claims_first (omega arith) (omega arith) (omega arith)

abbrev after : Outbox
after = record {
  records =
      second
      ∷ record first {
        status = NotificationDeliveryStatus.delivered;
        attempts = 1;
        max_attempts = some 5;
        delivered_at = some 250;
      }
      ∷ [];
  closed = false;
}

delivers_first : mark_delivered during "run" "n1" "w1" 250 ≡ ok (after, true)
unfolding mark_delivered get_record set_record
delivers_first = refl

mark_delivered-IsValid_example : OutboxIsValid after
mark_delivered-IsValid_example =
    mark_delivered-IsValid during after "run" "n1" "w1" 250 true delivers_first (
      claim_next-IsValid compare before during "w1" 200 30000 5 (some leased) claims_first
        before-IsValid)

abbrev retried : Outbox
retried = record {
  records =
      second
      ∷ record first {
        attempts = 1;
        max_attempts = some 5;
        next_attempt_at = some 1250;
        last_error_code = some "DELIVERY_FAILED";
      }
      ∷ [];
  closed = false;
}

fails_first :
    mark_failed during "run" "n1" "w1" 250 (some 1250) "DELIVERY_FAILED"
    ≡ ok (retried, some FailureStatus.pending)
unfolding mark_failed get_record set_record
fails_first = refl

mark_failed-IsValid_example : OutboxIsValid retried
mark_failed-IsValid_example =
    mark_failed-IsValid during retried "run" "n1" "w1" 250 (some 1250) "DELIVERY_FAILED"
      (some FailureStatus.pending) fails_first
      (claim_next-IsValid compare before during "w1" 200 30000 5 (some leased) claims_first
        before-IsValid)
