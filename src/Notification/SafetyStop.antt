-- ===== src/Notification/SafetyStop.antt =====
-- A detected player in the notifications of src/application/notifications/notification-mapper.ts.
use voxel_steward.Base.{
  ℕ, ◌+◌, ◌≡◌, refl, Bool, true, false, not, ◌&&◌, Option, none, some, List, [], ◌∷◌, ◌++◌,
  Bool-cases, Result-cases, inl, inr, arith,
}
use voxel_steward.Base.Calendar.{Date}
use voxel_steward.State.{StateSnapshot, StateCommand, TaskState}
use voxel_steward.State.Dispatch.{StateChangeEvent, dispatch, stamp}
use voxel_steward.State.Invariant.{IsCommitted, dispatch-IsCommitted}
use voxel_steward.State.Finality.{apply-detected}
use voxel_steward.State.History.{run}
use voxel_steward.Outbox.{NotificationType, other_player_safety_stop}
use voxel_steward.Notification.{
  StateNotification, map_state_change_to_notification, message_from, template_for,
  progress_template, task_template, template_if, template_of_change, map_template, Template,
}
use voxel_steward.Notification.Once.{to_list, messages}

abbrev pub is_safety_stop : NotificationType → Bool
is_safety_stop other_player_safety_stop = true
is_safety_stop _ = false

abbrev pub one_if : Bool → ℕ
one_if true = 1
one_if false = 0

abbrev pub count_safety_stops : List StateNotification → ℕ
count_safety_stops [] = 0
count_safety_stops (m ∷ ms) = one_if (is_safety_stop m.template.type) + count_safety_stops ms

abbrev tells_stop : Option Template → Bool
tells_stop none = false
tells_stop (some t) = is_safety_stop t.type

count_safety_stops-append :
    (ms ns : List StateNotification)
    → count_safety_stops (ms ++ ns) ≡ count_safety_stops ms + count_safety_stops ns
count_safety_stops-append [] ns = omega arith
count_safety_stops-append (m ∷ ms) ns = omega (arith, count_safety_stops-append ms ns)

template_of_change-quiet :
    (before after : TaskState) → tells_stop (template_of_change before after) ≡ false
template_of_change-quiet before TaskState.idle = refl
template_of_change-quiet before TaskState.preparing = refl
template_of_change-quiet TaskState.idle TaskState.running = refl
template_of_change-quiet TaskState.preparing TaskState.running = refl
template_of_change-quiet TaskState.running TaskState.running = refl
template_of_change-quiet TaskState.paused TaskState.running = refl
template_of_change-quiet TaskState.completed TaskState.running = refl
template_of_change-quiet TaskState.failed TaskState.running = refl
template_of_change-quiet TaskState.stopped TaskState.running = refl
template_of_change-quiet before TaskState.paused = refl
template_of_change-quiet before TaskState.completed = refl
template_of_change-quiet before TaskState.failed = refl
template_of_change-quiet before TaskState.stopped = refl

unfoldable IsQuiet : Option Template → Type 0
IsQuiet t = tells_stop t ≡ false

template_if-IsQuiet :
    (b : Bool) (t : Template) (rest : Option Template)
    → is_safety_stop t.type ≡ false
    → IsQuiet rest
    → IsQuiet (template_if b t rest)
unfolding template_if IsQuiet
template_if-IsQuiet true t rest e h = e
template_if-IsQuiet false t rest e h = h

task_template-IsQuiet : (before after : TaskState) → IsQuiet (task_template before after)
unfolding task_template IsQuiet
task_template-IsQuiet before after = ground (arith, template_of_change-quiet before after)

progress_template-IsQuiet :
    (before after : StateSnapshot) → IsQuiet (progress_template before after)
unfolding progress_template
progress_template-IsQuiet before after = template_if-IsQuiet _ _ _ refl (
    template_if-IsQuiet _ _ _ refl (
      template_if-IsQuiet _ _ _ refl (
        template_if-IsQuiet _ _ _ refl (
          template_if-IsQuiet _ _ _ refl (
            template_if-IsQuiet _ _ _ refl (
              template_if-IsQuiet _ _ _ refl
                (task_template-IsQuiet before.task.state after.task.state)))))))

-- The first branch tells of the stop, and no other does.
first_tells :
    (b : Bool) (t : Template) (rest : Option Template)
    → is_safety_stop t.type ≡ true
    → IsQuiet rest
    → tells_stop (template_if b t rest) ≡ b
unfolding template_if IsQuiet
first_tells true t rest e h = e
first_tells false t rest e h = h

template_for-stop :
    (before after : StateSnapshot)
    → tells_stop (template_for before after)
      ≡ (not before.minecraft.other_player_detected && after.minecraft.other_player_detected)
unfolding template_for
template_for-stop before after = first_tells _ _ _ refl (
    template_if-IsQuiet _ _ _ refl
      (template_if-IsQuiet _ _ _ refl (progress_template-IsQuiet before after)))

count-message :
    (event : StateChangeEvent) (t : Option Template)
    → count_safety_stops (to_list (map_template event t)) ≡ one_if (tells_stop t)
unfolding message_from
count-message event none = refl
count-message event (some t) = omega arith

count-event :
    (event : StateChangeEvent)
    → (event.before.minecraft.other_player_detected ≡ true
        → event.after.minecraft.other_player_detected ≡ true)
    → count_safety_stops (to_list (map_state_change_to_notification event))
        + one_if event.before.minecraft.other_player_detected
      ≡ one_if event.after.minecraft.other_player_detected
unfolding map_state_change_to_notification
count-event event sticky =
    let told = template_for-stop event.before event.after in
    rw (count-message event (template_for event.before event.after), told)
      (elim (Bool-cases event.before.minecraft.other_player_detected) [
        | inl e ↦ rw (e, sticky e) refl
        | inr e ↦ rw e (omega arith)
      ])

event-detected :
    (s : StateSnapshot) (c : StateCommand) (d : Date) (event : StateChangeEvent)
    → IsCommitted s c d event
    → s.minecraft.other_player_detected ≡ true
    → event.after.minecraft.other_player_detected ≡ true
unfolding stamp
event-detected s c d event k h =
    rw k.after (apply-detected s c k.draft (k.field ∷ k.fields) k.applied h)

-- However a run of the store goes, its events give exactly one message of a safety stop if a player
-- is detected at its end and was not at its start, and none otherwise.
pub run-safety_stops :
    (s : StateSnapshot) (cs : List (StateCommand × Date))
    → count_safety_stops (messages (run s cs).1) + one_if s.minecraft.other_player_detected
      ≡ one_if (run s cs).0.minecraft.other_player_detected
unfolding run
run-safety_stops s [] = omega arith
run-safety_stops s ((c, d) ∷ rest) = elim (Result-cases (dispatch s c d)) [
  | inl (x, refused) ↦ rw (refused, run) (run-safety_stops s rest)
  | inr (none, unchanged) ↦ rw (unchanged, run) (run-safety_stops s rest)
  | inr (some event, changed) ↦
      let k = dispatch-IsCommitted s c d event changed in
      let one = count-event event (λ h. event-detected s c d event k (rw k.before at h)) in
      let more = run-safety_stops event.after rest in
      let split =
        count_safety_stops-append (to_list (map_state_change_to_notification event))
          (messages (run event.after rest).1) in
      let same : one_if event.before.minecraft.other_player_detected
          ≡ one_if s.minecraft.other_player_detected =
        rw k.before refl in
      let total : count_safety_stops (messages (event ∷ (run event.after rest).1))
            + one_if s.minecraft.other_player_detected
          ≡ one_if (run event.after rest).0.minecraft.other_player_detected =
        omega (arith, split, one, more, same) in
      rw (changed, run) total
]
