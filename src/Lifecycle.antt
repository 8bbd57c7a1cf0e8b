-- ===== src/Lifecycle.antt =====
-- packages/server/src/loop-lifecycle/index.ts: the pure decisions on goals, completion and reopening.
-- The report plan stands in Lifecycle/Report. A revision column holds a natural number here, so
-- the test for a negative or fractional revision has no counterpart.
pub mod Snapshot
pub mod Consistent
pub mod Finish
pub mod Report
use loop_platform_zhb.Base.{
  ℕ, ◌+◌, JsString, Bool, true, false, ◌&&◌, ◌||◌, not, Option, none, some, leb, ltb, ◌==◌,
  if◌then◌else◌, str_eq, get_or, is_some,
}
use loop_platform_zhb.Terminal.{
  GoalValidation, GoalValidationFailure, normalize_goal, text_ok, validate_finish_reason,
}
use loop_platform_zhb.Db.{IsoTime, Loop, RunRole, role_eq}
use loop_platform_zhb.Schedule.{
  ScheduleTransitionResult, ScheduleCoreWrites, core_state, plan_schedule_transition,
  revision_int32_max, opt_str_eq,
}

pub data LoopPrimaryStatus : Type 0 where
  completed paused open_loop closed_loop : LoopPrimaryStatus

-- a goal that is its own normalisation
unfoldable pub goal_is_normalized : JsString → Bool
goal_is_normalized goal = elim (normalize_goal goal) [
  | GoalValidation.ok normalized ↦ str_eq normalized goal
  | GoalValidation.rejected failure ↦ false
]

abbrev pub opt_goal_ok : Option JsString → Bool
opt_goal_ok none = true
opt_goal_ok (some goal) = goal_is_normalized goal

abbrev pub opt_reason_ok : Option JsString → Bool
opt_reason_ok none = false
opt_reason_ok (some reason) = text_ok (validate_finish_reason reason)

unfoldable pub is_valid_loop_snapshot : Loop → Bool
is_valid_loop_snapshot loop =
    if ltb revision_int32_max loop.goal_revision || ltb revision_int32_max loop.schedule_revision
    then false
    else if not (opt_goal_ok loop.goal)
    then false
    else if not (is_some loop.completed_at) && not (is_some loop.completion_reason)
    then true
    else is_some loop.goal
      && is_some loop.completed_at
      && opt_reason_ok loop.completion_reason
      && not loop.enabled

-- `none` stands for the thrown `LoopInvariantViolationError`.
unfoldable pub classify_loop : Loop → Option LoopPrimaryStatus
classify_loop loop =
    if not (is_valid_loop_snapshot loop)
    then none
    else if is_some loop.completed_at
    then some completed
    else if not loop.enabled
    then some paused
    else if is_some loop.goal
    then some closed_loop
    else some open_loop

pub data GoalUpdateRejection : Type 0 where
  invalid_loop_state loop_completed goal_revision_exhausted : GoalUpdateRejection
  malformed : GoalValidationFailure → GoalUpdateRejection

pub record GoalPatch : Type 0 where
  pub goal : Option JsString
  pub goal_revision : ℕ
  pub updated_at : IsoTime

pub data GoalUpdatePlan : Type 0 where
  noop : GoalUpdatePlan
  rejected : GoalUpdateRejection → GoalUpdatePlan
  changed : GoalPatch → GoalUpdatePlan

-- the tail of `planGoalUpdate`, from the normalised value on
unfoldable pub settle_goal : Loop → Option JsString → IsoTime → GoalUpdatePlan
settle_goal loop normalized now_iso =
    if opt_str_eq normalized loop.goal
    then noop
    else if leb revision_int32_max loop.goal_revision
    then rejected goal_revision_exhausted
    else changed
        (record { goal = normalized; goal_revision = loop.goal_revision + 1; updated_at = now_iso })

abbrev pub normalize_command : Loop → Option JsString → IsoTime → GoalUpdatePlan
normalize_command loop none now_iso = settle_goal loop none now_iso
normalize_command loop (some raw) now_iso = elim (normalize_goal raw) [
  | GoalValidation.ok goal ↦ settle_goal loop (some goal) now_iso
  | GoalValidation.rejected failure ↦ rejected (malformed failure)
]

unfoldable pub plan_goal_update : Loop → Option JsString → IsoTime → GoalUpdatePlan
plan_goal_update loop command now_iso =
    if not (is_valid_loop_snapshot loop)
    then rejected invalid_loop_state
    else if is_some loop.completed_at
    then rejected loop_completed
    else normalize_command loop command now_iso

unfoldable pub apply_goal_patch : GoalPatch → Loop → Loop
apply_goal_patch writes loop = record loop {
  goal = writes.goal;
  goal_revision = writes.goal_revision;
  updated_at = writes.updated_at;
  revision = loop.revision + 1;
}

pub data FinishClassification : Type 0 where
  invalid_loop_state already_completed finish_not_allowed stale_goal : FinishClassification

pub record CompletionWrites : Type 0 where
  pub completed_at : IsoTime
  pub completion_reason : JsString
  pub enabled : Bool
  pub schedule_revision : ℕ
  pub schedule_activated_at : Option IsoTime
  pub last_scheduled_at : Option IsoTime
  pub updated_at : IsoTime

pub data FinishPlan : Type 0 where
  allowed : CompletionWrites → FinishPlan
  rejected : FinishClassification → FinishPlan

-- The lease snapshot that authorises a report.
pub record LeaseAuthSnapshot : Type 0 where
  pub role : RunRole
  pub can_finish : Bool
  pub goal_revision : ℕ
  pub terminal_protocol_version : ℕ

unfoldable pub completion_writes : Loop → JsString → IsoTime → CompletionWrites
completion_writes loop reason now_iso = record {
  completed_at = now_iso;
  completion_reason = reason;
  enabled = false;
  schedule_revision = loop.schedule_revision + 1;
  schedule_activated_at = none;
  last_scheduled_at = none;
  updated_at = now_iso;
}

unfoldable pub plan_finish : Loop → LeaseAuthSnapshot → JsString → IsoTime → FinishPlan
plan_finish loop lease reason now_iso =
    if not (is_valid_loop_snapshot loop)
    then rejected invalid_loop_state
    else if is_some loop.completed_at
    then rejected already_completed
    else if not (role_eq lease.role RunRole.exec) || not lease.can_finish || not (is_some loop.goal)
    then rejected finish_not_allowed
    else if not (lease.goal_revision == loop.goal_revision)
    then rejected stale_goal
    else if leb revision_int32_max loop.schedule_revision
    then rejected invalid_loop_state
    else allowed (completion_writes loop reason now_iso)

-- The completion columns of the report's loop write.
unfoldable pub apply_completion : CompletionWrites → Loop → Loop
apply_completion writes loop = record loop {
  completed_at = some writes.completed_at;
  completion_reason = some writes.completion_reason;
  enabled = writes.enabled;
  schedule_revision = writes.schedule_revision;
  schedule_activated_at = writes.schedule_activated_at;
  last_scheduled_at = writes.last_scheduled_at;
  updated_at = writes.updated_at;
}

pub data ReopenRejection : Type 0 where
  invalid_loop_state loop_not_completed schedule_revision_exhausted : ReopenRejection

pub record ReopenWrites : Type 0 where
  pub completed_at : Option IsoTime
  pub completion_reason : Option JsString
  pub enabled : Bool
  pub schedule_revision : ℕ
  pub schedule_activated_at : Option IsoTime
  pub last_scheduled_at : Option IsoTime
  pub updated_at : IsoTime

pub data ReopenPlan : Type 0 where
  rejected : ReopenRejection → ReopenPlan
  changed : ReopenWrites → ReopenPlan

abbrev pub reopen_writes : ScheduleCoreWrites → IsoTime → ReopenWrites
reopen_writes writes now_iso = record {
  completed_at = none;
  completion_reason = none;
  enabled = true;
  schedule_revision = writes.schedule_revision;
  schedule_activated_at = writes.schedule_activated_at;
  last_scheduled_at = none;
  updated_at = now_iso;
}

unfoldable pub plan_reopen : Loop → IsoTime → ReopenPlan
plan_reopen loop now_iso =
    if not (is_valid_loop_snapshot loop)
    then rejected invalid_loop_state
    else if not (is_some loop.completed_at)
    then rejected loop_not_completed
    else elim (plan_schedule_transition (core_state loop)
        (record { cron = none; timezone = none; enabled = some true }) now_iso) [
          | ScheduleTransitionResult.schedule_revision_exhausted ↦
              rejected schedule_revision_exhausted
          | ScheduleTransitionResult.noop ↦ rejected invalid_loop_state
          | ScheduleTransitionResult.changed writes ↦ changed (reopen_writes writes now_iso)
        ]

unfoldable pub apply_reopen_writes : ReopenWrites → Loop → Loop
apply_reopen_writes writes loop = record loop {
  completed_at = writes.completed_at;
  completion_reason = writes.completion_reason;
  enabled = writes.enabled;
  schedule_revision = writes.schedule_revision;
  schedule_activated_at = writes.schedule_activated_at;
  last_scheduled_at = writes.last_scheduled_at;
  updated_at = writes.updated_at;
  revision = loop.revision + 1;
}
