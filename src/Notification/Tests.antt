-- ===== src/Notification/Tests.antt =====
-- The notifications of a short run: the bot connects, then a player comes.
use voxel_steward.Base.{◌+◌, ◌≡◌, refl, true, none, some, List, [], ◌∷◌, map, false}
use voxel_steward.Base.Calendar.{Date}
use voxel_steward.State.{
  RuntimeState, MinecraftConnectionState, StateCommand, runtime_transition,
  minecraft_connection_transition, safety_other_player_detected,
}
use voxel_steward.State.Runtime.{apply_runtime, apply_detection}
use voxel_steward.State.Minecraft.{apply_connection}
use voxel_steward.State.Apply.{apply}
use voxel_steward.State.Dispatch.{initial_snapshot, stamp, commit, dispatch}
use voxel_steward.State.History.{run}
use voxel_steward.Outbox.{NotificationType, minecraft_connecting, other_player_safety_stop}
use voxel_steward.Notification.{
  StateNotification, map_state_change_to_notification, template_for, template_if, progress_template,
  task_template, message_from, same_error,
}
use voxel_steward.Notification.Subscriber.{Subscriber, create_subscriber, subscribe, accept_all}
use voxel_steward.Notification.Once.{
  messages, IsGrowing, accept_all-messages, create_subscriber-IsGrowing,
}
use voxel_steward.Notification.SafetyStop.{count_safety_stops, one_if, run-safety_stops}

abbrev commands : List (StateCommand × Date)
commands =
    (runtime_transition RuntimeState.connecting, some 1)
    ∷ (minecraft_connection_transition MinecraftConnectionState.connecting, some 2)
    ∷ (safety_other_player_detected, some 4)
    ∷ []

abbrev type_of : StateNotification → NotificationType
type_of m = m.template.type

tells_of_both :
    map type_of (messages (run (initial_snapshot 0) commands).1)
    ≡ minecraft_connecting ∷ other_player_safety_stop ∷ []
unfolding run dispatch apply apply_runtime apply_connection apply_detection commit stamp
    initial_snapshot map_state_change_to_notification template_for template_if progress_template
    task_template message_from same_error
tells_of_both = refl

abbrev fresh : Subscriber
fresh = record {
  capacity = 1;
  seen_ids = [];
  seen_order = [];
  last_accepted_revision = none;
  is_subscribed = false;
  closed = false;
}

fresh_is_created : create_subscriber 1 ≡ some fresh
unfolding create_subscriber
fresh_is_created = refl

abbrev subscribed : Subscriber
subscribed = record fresh { last_accepted_revision = some 0; is_subscribed = true }

subscribed_is_given : subscribe fresh (initial_snapshot 0) ≡ some subscribed
unfolding subscribe initial_snapshot
subscribed_is_given = refl

accept_all-messages_example :
    accept_all subscribed (run (initial_snapshot 0) commands).1
    ≡ messages (run (initial_snapshot 0) commands).1
accept_all-messages_example =
    accept_all-messages 1 fresh subscribed (initial_snapshot 0) commands fresh_is_created
      subscribed_is_given

create_subscriber-IsGrowing_example :
    IsGrowing none (accept_all fresh (run (initial_snapshot 0) commands).1)
create_subscriber-IsGrowing_example =
    create_subscriber-IsGrowing 1 fresh (run (initial_snapshot 0) commands).1 fresh_is_created

run-safety_stops_example :
    count_safety_stops (messages (run (initial_snapshot 0) commands).1)
      + one_if (initial_snapshot 0).minecraft.other_player_detected
    ≡ one_if (run (initial_snapshot 0) commands).0.minecraft.other_player_detected
run-safety_stops_example = run-safety_stops (initial_snapshot 0) commands
