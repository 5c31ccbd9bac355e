-- ===== src/Notification/Subscriber.antt =====
-- `NotificationSubscriber` of src/application/notifications/notification-subscriber.ts: which of the
-- events it is told of it sends, and in which order. The sending itself, and what becomes of a
-- failure, is the port's.
use voxel_steward.Base.{
  ℕ, Bool, true, false, ◌||◌, Option, none, some, List, [], ◌∷◌, ◌++◌, length, any, if◌then◌else◌,
  ltb, leb, ◌==◌,
}
use voxel_steward.State.{StateSnapshot}
use voxel_steward.State.Dispatch.{StateChangeEvent}
use voxel_steward.Notification.{
  NotificationId, StateNotification, map_state_change_to_notification, same_id,
}

-- `lastAcceptedRevision` is none for -1.
pub record Subscriber : Type 0 where
  pub capacity : ℕ
  pub seen_ids : List NotificationId
  pub seen_order : List NotificationId
  pub last_accepted_revision : Option ℕ
  pub is_subscribed : Bool
  pub closed : Bool

-- The constructor, with a capacity that it accepts.
unfoldable pub create_subscriber : ℕ → Option Subscriber
create_subscriber capacity =
    if capacity == 0
    then none
    else some (record {
      capacity = capacity;
      seen_ids = [];
      seen_order = [];
      last_accepted_revision = none;
      is_subscribed = false;
      closed = false;
    })

-- `subscribe`, or the error that it throws.
unfoldable pub subscribe : Subscriber → StateSnapshot → Option Subscriber
subscribe u s =
    if u.closed || u.is_subscribed
    then none
    else some (record u { last_accepted_revision = some s.revision; is_subscribed = true })

abbrev pub is_stale : Option ℕ → ℕ → Bool
is_stale none revision = false
is_stale (some last) revision = leb revision last

abbrev pub has_seen : List NotificationId → NotificationId → Bool
has_seen ids i = any (λ j. same_id j i) ids

-- `Set.delete`
unfoldable pub delete_id : List NotificationId → NotificationId → List NotificationId
delete_id [] i = []
delete_id (j ∷ js) i = let rest = delete_id js i in if same_id j i then rest else j ∷ rest

-- The `while` loop of `#remember`.
unfoldable pub expire :
    ℕ → List NotificationId → List NotificationId → List NotificationId × List NotificationId
expire capacity ids [] = (ids, [])
expire capacity ids (i ∷ order) =
    let rest = expire capacity (delete_id ids i) order in
    if ltb capacity (length (i ∷ order)) then rest else (ids, i ∷ order)

-- `#remember`
unfoldable pub remember : Subscriber → NotificationId → Subscriber
remember u i =
    let kept = expire u.capacity (u.seen_ids ++ i ∷ []) (u.seen_order ++ i ∷ []) in
    record u { seen_ids = kept.0; seen_order = kept.1 }

-- The end of `accept`, with the message of the event.
unfoldable pub queue : Subscriber → Option StateNotification → Subscriber × List StateNotification
queue u none = (u, [])
queue u (some message) =
    if has_seen u.seen_ids message.notification_id
    then (u, [])
    else (remember u message.notification_id, message ∷ [])

-- The message that is queued for the port, if any.
unfoldable pub accept : Subscriber → StateChangeEvent → Subscriber × List StateNotification
accept u event =
    if u.closed || is_stale u.last_accepted_revision event.revision
    then (u, [])
    else queue (record u { last_accepted_revision = some event.revision })
        (map_state_change_to_notification event)

-- All that is queued for a sequence of events.
unfoldable pub accept_all : Subscriber → List StateChangeEvent → List StateNotification
accept_all u [] = []
accept_all u (event ∷ rest) = (accept u event).1 ++ accept_all (accept u event).0 rest

unfoldable pub unsubscribe : Subscriber → Subscriber
unsubscribe u = record u { is_subscribed = false }

unfoldable pub close : Subscriber → Subscriber
unfolding unsubscribe
close u = if u.closed then u else unsubscribe (record u { closed = true })
