-- ===== src/OutboxDispatcher/Tests.antt =====
-- A call of `dispatchAvailable` that delivers one record and then fails.
use Prim.Native.String.{compare}
use voxel_steward.Base.{
  ℕ, ◌≡◌, refl, String, true, false, none, some, [], ◌∷◌, arith, ltb, codes, nat, ◌≤◌, Option,
  Result, ok, err,
}
use voxel_steward.Outbox.{
  OutboxError, range_error, claim_next, Outbox, NotificationOutboxRecord,
  NotificationDeliveryStatus, minecraft_connected, info,
}
use voxel_steward.Outbox.Invariant.{OutboxIsValid, RecordIsValid, claim_next-IsValid}
use voxel_steward.OutboxDispatcher.Count.{count_open, count_open-claim_next}
use voxel_steward.OutboxDispatcher.{
  OutboxDispatcherOptions, Turn, claim_at, accepts_settings, retry_delay, dispatch_available,
}
use voxel_steward.OutboxDispatcher.Settles.{IsQuietStep, IsQuiet}
use voxel_steward.OutboxDispatcher.Laws.{Returns, dispatch_available-Returns}

abbrev settings : OutboxDispatcherOptions
settings = record {
  worker_id = "w1";
  max_attempts = 5;
  lease_duration_ms = 30000;
  retry_base_delay_ms = 1000;
  retry_max_delay_ms = 60000;
}

settings_are_accepted :
    accepts_settings "w1" (nat 5) (nat 30000) (nat 250) (nat 1000) (nat 60000) ≡ true
unfolding accepts_settings codes
settings_are_accepted = refl

delays_double :
    retry_delay settings 1
      ∷ retry_delay settings 2
      ∷ retry_delay settings 4
      ∷ retry_delay settings 9
      ∷ []
    ≡ 1000 ∷ 2000 ∷ 8000 ∷ 60000 ∷ []
unfolding retry_delay
delays_double = refl

abbrev waiting : String → ℕ → NotificationOutboxRecord
waiting id revision = record {
  run_id = "run";
  notification_id = id;
  message = record {
    notification_id = id;
    source_revision = revision;
    type = minecraft_connected;
    severity = info;
    occurred_at = 100;
    title = "title";
    body = "body";
  };
  status = NotificationDeliveryStatus.pending;
  attempts = 0;
  max_attempts = none;
  next_attempt_at = none;
  lease_owner = none;
  lease_expires_at = none;
  delivered_at = none;
  last_error_code = none;
}

abbrev outbox : Outbox
outbox = record { records = waiting "n1" 1 ∷ waiting "n2" 2 ∷ []; closed = false }

-- Another worker, which claims a record while this one sends.
abbrev claimed_by_other :
    Result OutboxError (Outbox × Option NotificationOutboxRecord) → Outbox → Outbox
claimed_by_other (ok (p, some r)) o = p
claimed_by_other _ o = o

abbrev other_claims : Outbox → Outbox
other_claims o = claimed_by_other (claim_next compare o "w2" 205 30000 5) o

claimed-cases :
    (o : Outbox) (m : Result OutboxError (Outbox × Option NotificationOutboxRecord))
    → claim_next compare o "w2" 205 30000 5 ≡ m
    → OutboxIsValid o
    → OutboxIsValid (claimed_by_other m o)
      × (count_open (claimed_by_other m o).records ≤ count_open o.records)
claimed-cases o (ok (p, some r)) e v = (
  claim_next-IsValid compare o p "w2" 205 30000 5 (some r) e v,
  count_open-claim_next compare o p "w2" 205 30000 5 r v e,
)
claimed-cases o (ok (p, none)) e v = (v, omega arith)
claimed-cases o (err x) e v = (v, omega arith)

other_claims-IsQuietStep : IsQuietStep other_claims
other_claims-IsQuietStep = record {
  valid = λ o v. (claimed-cases o _ refl v).0;
  bounded = λ o v. (claimed-cases o _ refl v).1;
}

-- The clock is invalid where a failure is recorded.
abbrev turn : ℕ → Turn
turn i = record {
  is_stopping = false;
  before_claim = λ o. o;
  claimed_at = some 200;
  while_sending = other_claims;
  is_sent = ltb i 1;
  delivered_at = some 210;
  before_failure = λ o. o;
  failed_at = none;
  error_code = some "not a code";
}

waiting-RecordIsValid : (id : String) (revision : ℕ) → RecordIsValid (waiting id revision)
waiting-RecordIsValid id revision = record {
  owner = refl;
  expiry = refl;
  delivery = refl;
  attempts = refl;
}

outbox-IsValid : OutboxIsValid outbox
outbox-IsValid = record {
  distinct = ((refl, tt), (tt, tt));
  valid = (waiting-RecordIsValid "n1" 1, (waiting-RecordIsValid "n2" 2, tt));
}

nothing-IsQuietStep : IsQuietStep (λ o. o)
nothing-IsQuietStep = record { valid = λ o v. v; bounded = λ o v. omega arith }

turn-IsQuiet : (i : ℕ) → IsQuiet (turn i)
turn-IsQuiet i = record {
  before_claim = nothing-IsQuietStep;
  while_sending = other_claims-IsQuietStep;
  before_failure = nothing-IsQuietStep;
}

-- An invalid clock at the claim makes the call reject.
claim_needs_clock : claim_at compare settings outbox none ≡ err range_error
unfolding claim_at
claim_needs_clock = refl

dispatch_available-Returns_example :
    Returns compare settings turn 0 2 (dispatch_available compare settings turn 3 0 outbox 0)
dispatch_available-Returns_example =
    dispatch_available-Returns compare settings turn turn-IsQuiet 3 0 outbox 0 outbox-IsValid
      (omega arith)
