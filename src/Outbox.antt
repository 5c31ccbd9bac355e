-- ===== src/Outbox.antt =====
-- The notification outbox in memory, src/adapters/persistence/in-memory-notification-outbox-
-- repository.ts, over the records of src/ports/notification-outbox-repository.ts. The times are texts
-- of `toISOString`, here the instants that they stand for.
pub mod Select
pub mod Lease
pub mod Invariant
mod Tests
use Prim.Native.Nat.{compare, Ordering}
use voxel_steward.Base.{
  ℕ, ◌+◌, String, Bool, true, false, not, ◌&&◌, ◌||◌, Option, none, some, List, [], ◌∷◌, ◌++◌, map,
  ltb, leb, ◌==◌, if◌then◌else◌, str_eq, any, Result, ok, err,
}

pub data NotificationDeliveryStatus : Type 0 where
  pending delivering delivered failed : NotificationDeliveryStatus

pub data NotificationType : Type 0 where
  minecraft_connecting minecraft_connected minecraft_spawned minecraft_disconnected
        reconnect_started runtime_stopped stop_requested runtime_failed reconnect_exhausted
        other_player_safety_stop task_preparing task_started task_paused task_resumed task_completed
        task_failed task_stopped :
      NotificationType

pub data NotificationSeverity : Type 0 where
  info warning error critical : NotificationSeverity

pub record NotificationMessage : Type 0 where
  pub notification_id : String
  pub source_revision : ℕ
  pub type : NotificationType
  pub severity : NotificationSeverity
  pub occurred_at : ℕ
  pub title : String
  pub body : String

pub record NotificationOutboxRecord : Type 0 where
  pub run_id : String
  pub notification_id : String
  pub message : NotificationMessage
  pub status : NotificationDeliveryStatus
  pub attempts : ℕ
  pub max_attempts : Option ℕ
  pub next_attempt_at : Option ℕ
  pub lease_owner : Option String
  pub lease_expires_at : Option ℕ
  pub delivered_at : Option ℕ
  pub last_error_code : Option String

pub data OutboxError : Type 0 where
  repository_closed range_error : OutboxError

-- The map of records in insertion order, and the closed flag.
pub record Outbox : Type 0 where
  pub records : List NotificationOutboxRecord
  pub closed : Bool

-- `identity(left) === identity(right)`; no identifier holds the separator.
abbrev pub same_identity : NotificationOutboxRecord → NotificationOutboxRecord → Bool
same_identity a b = str_eq a.run_id b.run_id && str_eq a.notification_id b.notification_id

abbrev pub replace_same :
    NotificationOutboxRecord → NotificationOutboxRecord → NotificationOutboxRecord
replace_same new old = if same_identity old new then new else old

-- `this.#records.set(identity(record), record)`
unfoldable pub set_record :
    List NotificationOutboxRecord → NotificationOutboxRecord → List NotificationOutboxRecord
set_record records new =
    if any (λ old. same_identity old new) records
    then map (replace_same new) records
    else records ++ new ∷ []

abbrev pub is_open : NotificationDeliveryStatus → Bool
is_open pending = true
is_open delivering = true
is_open _ = false

abbrev pub is_pending : NotificationDeliveryStatus → Bool
is_pending pending = true
is_pending _ = false

abbrev pub is_delivering : NotificationDeliveryStatus → Bool
is_delivering delivering = true
is_delivering _ = false

-- An instant that is there and not after `now`; without one, `absent`.
abbrev pub is_due : Bool → Option ℕ → ℕ → Bool
is_due absent none now = absent
is_due absent (some at) now = leb at now

unfoldable pub is_available : NotificationOutboxRecord → ℕ → Bool
is_available r now =
    is_pending r.status && is_due true r.next_attempt_at now
    || is_delivering r.status && is_due false r.lease_expires_at now

abbrev pub or_else : Option ℕ → ℕ → ℕ
or_else none d = d
or_else (some n) d = n

abbrev pub ensure_open {ℓ} : {A : Type ℓ} → Outbox → Result OutboxError A → Result OutboxError A
ensure_open o rest = if o.closed then err repository_closed else rest

abbrev pub is_owner : Option String → String → Bool
is_owner none worker = false
is_owner (some owner) worker = str_eq owner worker

-- `this.#records.get(identity(key))`
unfoldable pub get_record :
    List NotificationOutboxRecord → String → String → Option NotificationOutboxRecord
get_record [] run notification = none
get_record (r ∷ rs) run notification =
    if str_eq r.run_id run && str_eq r.notification_id notification
    then some r
    else get_record rs run notification

abbrev pub claimed_record : NotificationOutboxRecord → String → ℕ → ℕ → ℕ → NotificationOutboxRecord
claimed_record r worker now lease max = record r {
  status = delivering;
  attempts = r.attempts + 1;
  max_attempts = some (or_else r.max_attempts max);
  next_attempt_at = none;
  lease_owner = some worker;
  lease_expires_at = some (now + lease);
  last_error_code = none;
}

abbrev pub exhausted_record : NotificationOutboxRecord → ℕ → NotificationOutboxRecord
exhausted_record r max = record r {
  status = failed;
  max_attempts = some (or_else r.max_attempts max);
  lease_owner = none;
  lease_expires_at = none;
}

-- `localeCompare` is the collation of texts that the host gives.
module _ (collate : String → String → Ordering) where
  abbrev pub lexicographic : Ordering → Bool → Bool
  lexicographic Ordering.lt later = true
  lexicographic Ordering.eq later = later
  lexicographic Ordering.gt later = false

  abbrev pub comes_first : Ordering → Bool
  comes_first Ordering.lt = true
  comes_first _ = false

  -- The comparison of `sort` is negative.
  unfoldable pub is_before : NotificationOutboxRecord → NotificationOutboxRecord → Bool
  is_before a b = lexicographic (compare a.message.occurred_at b.message.occurred_at) (
      lexicographic (compare a.message.source_revision b.message.source_revision) (
        lexicographic (collate a.run_id b.run_id)
          (comes_first (collate a.notification_id b.notification_id))))

  -- `filter`, `sort` and `[0]`: the first of the open records that no open record comes before. The
  -- sort is stable, so of equal ones it is the earliest in the map.
  unfoldable pub better :
      Option NotificationOutboxRecord → NotificationOutboxRecord → Option NotificationOutboxRecord
  better none r = if is_open r.status then some r else none
  better (some best) r = if is_open r.status && is_before r best then some r else some best

  unfoldable pub select :
      Option NotificationOutboxRecord
      → List NotificationOutboxRecord
      → Option NotificationOutboxRecord
  select best [] = best
  select best (r ∷ rs) = select (better best r) rs

  -- `claimNext` of the record that was selected.
  unfoldable pub claim_selected :
      Outbox
      → NotificationOutboxRecord
      → String
      → ℕ
      → ℕ
      → ℕ
      → Outbox × Option NotificationOutboxRecord
  claim_selected o r worker now lease max =
      if not (is_available r now)
      then (o, none)
      else if leb (or_else r.max_attempts max) r.attempts
      then (record o { records = set_record o.records (exhausted_record r max) }, none)
      else (
        record o { records = set_record o.records (claimed_record r worker now lease max) },
        some (claimed_record r worker now lease max),
      )

  unfoldable pub claim_next :
      Outbox → String → ℕ → ℕ → ℕ → Result OutboxError (Outbox × Option NotificationOutboxRecord)
  claim_next o worker now lease max = ensure_open o (
      if lease == 0 || max == 0 then err range_error else elim (select none o.records) [
        | none ↦ ok (o, none)
        | some r ↦ ok (claim_selected o r worker now lease max)
      ])

-- Whether the record is this worker's to settle.
abbrev pub is_leased_to : NotificationOutboxRecord → String → Bool
is_leased_to r worker = is_delivering r.status && is_owner r.lease_owner worker

abbrev pub delivered_record : NotificationOutboxRecord → ℕ → NotificationOutboxRecord
delivered_record r at = record r {
  status = delivered;
  delivered_at = some at;
  next_attempt_at = none;
  lease_owner = none;
  lease_expires_at = none;
  last_error_code = none;
}

unfoldable pub mark_delivered :
    Outbox → String → String → String → ℕ → Result OutboxError (Outbox × Bool)
mark_delivered o run notification worker at =
    ensure_open o (elim (get_record o.records run notification) [
      | none ↦ ok (o, false)
      | some r ↦
          if is_leased_to r worker
          then ok (record o { records = set_record o.records (delivered_record r at) }, true)
          else ok (o, false)
    ])

-- The result of `markFailed`.
pub data FailureStatus : Type 0 where
  pending failed : FailureStatus

abbrev pub failure_status : NotificationOutboxRecord → FailureStatus
failure_status r =
    if leb (or_else r.max_attempts 1) r.attempts
    then FailureStatus.failed
    else FailureStatus.pending

abbrev pub failed_record :
    NotificationOutboxRecord → FailureStatus → ℕ → Option ℕ → String → NotificationOutboxRecord
failed_record r FailureStatus.failed at next code = record r {
  status = NotificationDeliveryStatus.failed;
  next_attempt_at = none;
  lease_owner = none;
  lease_expires_at = none;
  last_error_code = some code;
}
failed_record r FailureStatus.pending at next code = record r {
  status = NotificationDeliveryStatus.pending;
  next_attempt_at = some (or_else next at);
  lease_owner = none;
  lease_expires_at = none;
  last_error_code = some code;
}

unfoldable pub mark_failed :
    Outbox
    → String
    → String
    → String
    → ℕ
    → Option ℕ
    → String
    → Result OutboxError (Outbox × Option FailureStatus)
mark_failed o run notification worker at next code =
    ensure_open o (elim (get_record o.records run notification) [
      | none ↦ ok (o, none)
      | some r ↦
          if is_leased_to r worker
          then ok (
            record o {
              records = set_record o.records (failed_record r (failure_status r) at next code);
            },
            some (failure_status r),
          )
          else ok (o, none)
    ])

unfoldable pub close : Outbox → Outbox
close o = record o { closed = true }
