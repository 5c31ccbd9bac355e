-- ===== src/Notification/Once.antt =====
-- What the subscriber of src/application/notifications/notification-subscriber.ts sends for the events
-- of the state store.
use voxel_steward.Base.{
  ℕ, ◌≡◌, refl, sym, subst, ap, ◌∙◌, true, false, ◌||◌, Option, none, some, List, [], ◌∷◌, ◌++◌,
  length, All, All-append, ltb, ◌==◌, Bool-cases, inl, inr, arith,
}
use voxel_steward.Base.Calendar.{Date}
use voxel_steward.State.{StateSnapshot, StateCommand}
use voxel_steward.State.Dispatch.{StateChangeEvent}
use voxel_steward.State.History.{run, Chain, done, link, run-Chain}
use voxel_steward.Notification.{
  NotificationId, StateNotification, map_state_change_to_notification, same_id, message_from,
  template_for, map_template, Template,
}
use voxel_steward.Notification.Subscriber.{
  Subscriber, create_subscriber, subscribe, is_stale, has_seen, delete_id, expire, remember, queue,
  accept, accept_all,
}

abbrev pub to_list : Option StateNotification → List StateNotification
to_list none = []
to_list (some m) = m ∷ []

-- The messages of a sequence of events, by the mapper alone.
abbrev pub messages : List StateChangeEvent → List StateNotification
messages [] = []
messages (event ∷ rest) = to_list (map_state_change_to_notification event) ++ messages rest

-- Every identifier that is remembered is of an event that was accepted.
abbrev IsBelow : Option ℕ → List NotificationId → Type 0
IsBelow last ids = All (λ (i : NotificationId). is_stale last i.revision ≡ true) ids

IsBelow-weaken :
    (last : Option ℕ) (revision : ℕ) (ids : List NotificationId)
    → is_stale last revision ≡ false
    → IsBelow last ids
    → IsBelow (some revision) ids
IsBelow-weaken last revision [] f h = tt
IsBelow-weaken none revision (i ∷ ids) f h = absurd (ground arith)
IsBelow-weaken (some last) revision (i ∷ ids) f (h, hs) =
    (ground arith, IsBelow-weaken (some last) revision ids f hs)

has_seen-IsBelow :
    (last : Option ℕ) (i : NotificationId) (ids : List NotificationId)
    → is_stale last i.revision ≡ false
    → IsBelow last ids
    → has_seen ids i ≡ false
unfolding same_id
has_seen-IsBelow last i [] f h = refl
has_seen-IsBelow none i (j ∷ ids) f h = absurd (ground arith)
has_seen-IsBelow (some last) i (j ∷ ids) f (h, hs) =
    let rest = has_seen-IsBelow (some last) i ids f hs in
    let differs : (j.revision == i.revision) ≡ false = ground arith in rw differs rest

module _ (P : NotificationId → Type 0) where
  All-delete_id :
      (ids : List NotificationId) (i : NotificationId) → All P ids → All P (delete_id ids i)
  unfolding delete_id
  All-delete_id [] i h = tt
  All-delete_id (j ∷ js) i (h, hs) = elim (Bool-cases (same_id j i)) [
    | inl e ↦ rw e (All-delete_id js i hs)
    | inr e ↦ rw e (h, All-delete_id js i hs)
  ]

  All-expire :
      (capacity : ℕ) (ids order : List NotificationId)
      → All P ids
      → All P (expire capacity ids order).0
  unfolding expire
  All-expire capacity ids [] h = h
  All-expire capacity ids (i ∷ order) h = elim (Bool-cases (ltb capacity (length (i ∷ order)))) [
    | inl e ↦ rw e (All-expire capacity (delete_id ids i) order (All-delete_id ids i h))
    | inr e ↦ rw e h
  ]

message_id :
    (event : StateChangeEvent) (t : Option Template) (m : StateNotification)
    → map_template event t ≡ some m
    → (m.notification_id.revision ≡ event.revision) × (m.source_revision ≡ event.revision)
unfolding message_from
message_id event none m e = absurd (ground arith)
message_id event (some t) m e = (ground arith, ground arith)

pub map_state_change_to_notification_id :
    (event : StateChangeEvent) (m : StateNotification)
    → map_state_change_to_notification event ≡ some m
    → (m.notification_id.revision ≡ event.revision) × (m.source_revision ≡ event.revision)
unfolding map_state_change_to_notification
map_state_change_to_notification_id event m e =
    message_id event (template_for event.before event.after) m e

-- What `accept` does for an event that is not stale.
record IsAccepted (u v : Subscriber) (event : StateChangeEvent) (sent : List StateNotification)
    : Type 0 where
  active : v.closed ≡ u.closed
  last : v.last_accepted_revision ≡ some event.revision
  below : IsBelow (some event.revision) v.seen_ids
  sends : sent ≡ to_list (map_state_change_to_notification event)

queue-IsAccepted :
    (u : Subscriber) (event : StateChangeEvent) (m : Option StateNotification)
    → is_stale u.last_accepted_revision event.revision ≡ false
    → IsBelow u.last_accepted_revision u.seen_ids
    → map_state_change_to_notification event ≡ m
    → let after = queue (record u { last_accepted_revision = some event.revision }) m in
      IsAccepted u after.0 event after.1
unfolding queue remember
queue-IsAccepted u event none f h e = record {
  active = refl;
  last = refl;
  below = IsBelow-weaken u.last_accepted_revision event.revision u.seen_ids f h;
  sends = rw e refl;
}
queue-IsAccepted u event (some m) f h e =
    let id = map_state_change_to_notification_id event m e in
    let unseen : has_seen u.seen_ids m.notification_id ≡ false =
      has_seen-IsBelow u.last_accepted_revision m.notification_id u.seen_ids (rw id.0 f) h in
    let below = IsBelow-weaken u.last_accepted_revision event.revision u.seen_ids f h in
    simp unseen (record {
      active = refl;
      last = refl;
      below =
          All-expire (λ i. is_stale (some event.revision) i.revision ≡ true) u.capacity _ _
            (All-append (λ (i : NotificationId). is_stale (some event.revision) i.revision ≡ true)
              u.seen_ids (m.notification_id ∷ []) below (rw id.0 (ground arith), tt));
      sends = rw e refl;
    })

accept-IsAccepted :
    (u : Subscriber) (event : StateChangeEvent)
    → u.closed ≡ false
    → is_stale u.last_accepted_revision event.revision ≡ false
    → IsBelow u.last_accepted_revision u.seen_ids
    → IsAccepted u (accept u event).0 event (accept u event).1
unfolding accept
accept-IsAccepted u event c f h =
    let taken : (u.closed || is_stale u.last_accepted_revision event.revision) ≡ false =
      ground arith in
    rw taken (queue-IsAccepted u event (map_state_change_to_notification event) f h refl)

accept-stale :
    (u : Subscriber) (event : StateChangeEvent)
    → is_stale u.last_accepted_revision event.revision ≡ true
    → accept u event ≡ (u, [])
unfolding accept
accept-stale u event f =
    let refused : (u.closed || is_stale u.last_accepted_revision event.revision) ≡ true =
      ground arith in
    rw refused refl

accept_all-Chain :
    (s t : StateSnapshot) (events : List StateChangeEvent) (u : Subscriber)
    → Chain s events t
    → u.closed ≡ false
    → u.last_accepted_revision ≡ some s.revision
    → IsBelow u.last_accepted_revision u.seen_ids
    → accept_all u events ≡ messages events
unfolding accept_all
accept_all-Chain s t [] u done c l h = refl
accept_all-Chain s t (event ∷ rest) u (link b r a chain) c l h =
    let k = accept-IsAccepted u event c (rw l (ground arith)) h in
    let later =
      accept_all-Chain event.after t rest (accept u event).0 chain (k.active ∙ c)
        (k.last ∙ ap some (sym a)) (rw k.last k.below) in
    rw (k.sends, later) refl

-- A subscriber of any capacity that is subscribed to a store, and is told of every event of a run of
-- the store from then on, sends the messages that the mapper makes of the events, every one of them,
-- once and in their order: what it forgets of the messages it has seen never matters.
pub accept_all-messages :
    (capacity : ℕ) (u v : Subscriber) (s : StateSnapshot) (cs : List (StateCommand × Date))
    → create_subscriber capacity ≡ some u
    → subscribe u s ≡ some v
    → accept_all v (run s cs).1 ≡ messages (run s cs).1
unfolding create_subscriber subscribe
accept_all-messages capacity u v s cs e f =
    let ids : v.seen_ids ≡ [] = ground arith in
    accept_all-Chain s (run s cs).0 (run s cs).1 v (run-Chain s cs) (ground arith) (ground arith)
      (subst (IsBelow v.last_accepted_revision) (sym ids) tt)

-- Messages of growing revisions, all after `last`.
abbrev pub IsGrowing : Option ℕ → List StateNotification → Type 0
IsGrowing last [] = Unit
IsGrowing last (m ∷ ms) =
    (is_stale last m.source_revision ≡ false) × IsGrowing (some m.source_revision) ms

IsGrowing-weaken :
    (last : Option ℕ) (revision : ℕ) (ms : List StateNotification)
    → is_stale last revision ≡ false
    → IsGrowing (some revision) ms
    → IsGrowing last ms
IsGrowing-weaken last revision [] f h = tt
IsGrowing-weaken none revision (m ∷ ms) f (h, hs) = (refl, hs)
IsGrowing-weaken (some last) revision (m ∷ ms) f (h, hs) = (ground arith, hs)

to_list-IsGrowing :
    (last : Option ℕ) (event : StateChangeEvent) (ms : List StateNotification)
    (m : Option StateNotification)
    → is_stale last event.revision ≡ false
    → IsGrowing (some event.revision) ms
    → map_state_change_to_notification event ≡ m
    → IsGrowing last (to_list m ++ ms)
to_list-IsGrowing last event ms none f h e = IsGrowing-weaken last event.revision ms f h
to_list-IsGrowing last event ms (some m) f h e =
    let id = map_state_change_to_notification_id event m e in (rw id.1 f, rw id.1 h)

accept_all-IsGrowing :
    (u : Subscriber) (events : List StateChangeEvent)
    → u.closed ≡ false
    → IsBelow u.last_accepted_revision u.seen_ids
    → IsGrowing u.last_accepted_revision (accept_all u events)
unfolding accept_all
accept_all-IsGrowing u [] c h = tt
accept_all-IsGrowing u (event ∷ rest) c h =
    elim (Bool-cases (is_stale u.last_accepted_revision event.revision)) [
      | inl e ↦ rw (accept-stale u event e) (accept_all-IsGrowing u rest c h)
      | inr e ↦
          let k = accept-IsAccepted u event c e h in
          let later =
            accept_all-IsGrowing (accept u event).0 rest (k.active ∙ c) (rw k.last k.below) in
          rw k.sends (
            to_list-IsGrowing u.last_accepted_revision event _
              (map_state_change_to_notification event) e (rw k.last at later) refl)
    ]

-- Whatever events a new subscriber is told of, in whatever order and however often, the revisions of
-- the messages that it sends grow: no change of state is told of twice.
pub create_subscriber-IsGrowing :
    (capacity : ℕ) (u : Subscriber) (events : List StateChangeEvent)
    → create_subscriber capacity ≡ some u
    → IsGrowing none (accept_all u events)
unfolding create_subscriber
create_subscriber-IsGrowing capacity u events e =
    let ids : u.seen_ids ≡ [] = ground arith in
    let last : u.last_accepted_revision ≡ none = ground arith in
    subst (λ l. IsGrowing l (accept_all u events)) last
      (accept_all-IsGrowing u events (ground arith)
        (subst (IsBelow u.last_accepted_revision) (sym ids) tt))
