-- ===== src/State/Schedule.antt =====
-- The check of a recorded schedule intent, src/domain/state/state-store.ts, `schedule.intent.record`.
use voxel_steward.Base.{
  ℕ, String, Bool, true, false, not, ◌&&◌, ◌||◌, Option, none, some, List, [], ◌∷◌, ltb, ◌==◌,
  codes, is_digit, str_eq,
}
use voxel_steward.Base.Calendar.{DateText, iso, other}
use voxel_steward.Scheduler.{OperatingSlot, SchedulePhase, OperatingWindow, ScheduleIntent}
use voxel_steward.State.{IntentType, ScheduleRuntimeState}

abbrev pub intent_window : ScheduleIntent → OperatingWindow
intent_window (ScheduleIntent.start_requested w at) = w
intent_window (ScheduleIntent.stop_requested w at) = w

abbrev pub intent_evaluated_at : ScheduleIntent → DateText
intent_evaluated_at (ScheduleIntent.start_requested w at) = at
intent_evaluated_at (ScheduleIntent.stop_requested w at) = at

abbrev pub intent_type : ScheduleIntent → IntentType
intent_type (ScheduleIntent.start_requested w at) = IntentType.start_requested
intent_type (ScheduleIntent.stop_requested w at) = IntentType.stop_requested

-- The instant of a text that `toISOString` gives back unchanged.
abbrev pub canonical_instant : DateText → Option ℕ
canonical_instant (iso t) = some t
canonical_instant (other s) = none

pub same_codes : List ℕ → List ℕ → Bool
same_codes [] [] = true
same_codes (a ∷ as') (b ∷ bs) = a == b && same_codes as' bs
same_codes _ _ = false

ends_with : List ℕ → List ℕ → Bool
ends_with [] suffix = same_codes [] suffix
ends_with (c ∷ cs) suffix = same_codes (c ∷ cs) suffix || ends_with cs suffix

-- `\d{4}-\d{2}-\d{2}:` and then what follows; `d` stands for a digit.
after_pattern : List ℕ → List ℕ → Option (List ℕ)
after_pattern [] cs = some cs
after_pattern (p ∷ ps) [] = none
after_pattern (p ∷ ps) (c ∷ cs) =
    let rest = after_pattern ps cs in
    elim (p == b'd' && is_digit c || not (p == b'd') && p == c) [ true ↦ rest | false ↦ none ]

-- `/^\d{4}-\d{2}-\d{2}:(morning|afternoon)$/`
unfoldable pub is_window_id : String → Bool
unfolding after_pattern codes same_codes
is_window_id id = elim (after_pattern (codes "dddd-dd-dd:") (codes id)) [
  | none ↦ false
  | some slot ↦ same_codes slot (codes "morning") || same_codes slot (codes "afternoon")
]

abbrev pub slot_suffix : OperatingSlot → String
slot_suffix OperatingSlot.morning = ":morning"
slot_suffix OperatingSlot.afternoon = ":afternoon"

unfoldable pub names_slot : String → OperatingSlot → Bool
unfolding ends_with codes same_codes
names_slot id slot = ends_with (codes id) (codes (slot_suffix slot))

abbrev pub is_interval : Option ℕ → Option ℕ → Option ℕ → Bool
is_interval (some at) (some starts) (some ends) = ltb starts ends
is_interval _ _ _ = false

-- The negation of the condition under which the command is refused.
unfoldable pub is_valid_intent : ScheduleIntent → Bool
is_valid_intent intent =
    let w = intent_window intent in
    is_interval (canonical_instant (intent_evaluated_at intent)) (canonical_instant w.starts_at)
      (canonical_instant w.ends_at)
    && is_window_id w.id
    && names_slot w.id w.slot

abbrev pub same_phase : SchedulePhase → SchedulePhase → Bool
same_phase SchedulePhase.outside_hours SchedulePhase.outside_hours = true
same_phase SchedulePhase.morning SchedulePhase.morning = true
same_phase SchedulePhase.handoff SchedulePhase.handoff = true
same_phase SchedulePhase.afternoon SchedulePhase.afternoon = true
same_phase _ _ = false

abbrev pub same_intent_type : IntentType → IntentType → Bool
same_intent_type IntentType.start_requested IntentType.start_requested = true
same_intent_type IntentType.stop_requested IntentType.stop_requested = true
same_intent_type _ _ = false

abbrev pub same_date_text : DateText → DateText → Bool
same_date_text (iso a) (iso b) = a == b
same_date_text (other s) (other t) = str_eq s t
same_date_text _ _ = false

-- The intent is the one that the snapshot holds already.
unfoldable pub is_recorded : Option ScheduleRuntimeState → SchedulePhase → ScheduleIntent → Bool
is_recorded none phase intent = false
is_recorded (some s) phase intent =
    same_phase s.phase phase
    && same_intent_type s.intent (intent_type intent)
    && str_eq s.window.id (intent_window intent).id
    && same_date_text s.evaluated_at (intent_evaluated_at intent)
