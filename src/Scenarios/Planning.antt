-- ===== src/Scenarios/Planning.antt =====
-- The planning kernel on the platform's loops.
use loop_platform_zhb.Base.{
  ℕ, ◌≡◌, refl, ◌↔◌, JsString, js, Bool, true, false, Option, none, some, List, [], ◌∷◌, ◌≤◌,
}
use loop_platform_zhb.Base
use loop_platform_zhb.Terminal.{text_ok, validate_finish_reason}
use loop_platform_zhb.Schedule.{
  ScheduleTransitionPatch, ScheduleCoreWrites, changed, noop, schedule_revision_exhausted,
  core_state, core_writes, plan_schedule_transition, apply_schedule_writes, is_schedule_no_op,
  revision_int32_max,
}
use loop_platform_zhb.Schedule.Laws.{
  Satisfies, Changed, plan_schedule_transition-Changed, plan_schedule_transition_cases,
}
use loop_platform_zhb.Lifecycle.{
  LoopPrimaryStatus, is_valid_loop_snapshot, classify_loop, GoalUpdatePlan, GoalUpdateRejection,
  GoalPatch, plan_goal_update, apply_goal_patch, FinishPlan, FinishClassification, CompletionWrites,
  completion_writes, plan_finish, apply_completion, ReopenPlan, ReopenWrites, reopen_writes,
  plan_reopen, apply_reopen_writes, LeaseAuthSnapshot,
}
use loop_platform_zhb.Lifecycle.Snapshot.{GoalChanged, plan_goal_update-GoalChanged}
use loop_platform_zhb.Lifecycle.Consistent.{IsConsistent, is_valid_loop_snapshot_iff}
use loop_platform_zhb.Lifecycle.Finish.{
  MayFinish, plan_finish_iff, Refused, plan_finish-Refused, Reopened, plan_reopen-Reopened,
}
use loop_platform_zhb.Lifecycle.Report.{
  LoopV1Writes, plan_report_writes, run_writes_of, loop_writes_of, apply_loop_v1_writes,
}
use loop_platform_zhb.Lifecycle.Report.Laws.{Ends, plan_report_writes-Ends}
use loop_platform_zhb.Lifecycle.Report.Promotion.{Promotes, plan_report_writes-Promotes}
use loop_platform_zhb.Scenarios.{
  today, goal_loop, completed_loop, running_run, finishing_auth, done_reason, finish_report,
  task_text,
}

-- Another cron expression, everything else as it is.
abbrev hourly : ScheduleTransitionPatch
hourly = record { cron = some (some (js "0 * * * *")); timezone = none; enabled = none }

abbrev hourly_writes : ScheduleCoreWrites
hourly_writes = record {
  enabled = none;
  cron = some (some (js "0 * * * *"));
  timezone = none;
  schedule_revision = 3;
  schedule_activated_at = some today;
  last_scheduled_at = none;
  updated_at = today;
}

hourly_changes :
    plan_schedule_transition (core_state goal_loop) hourly today ≡ changed hourly_writes
unfolding plan_schedule_transition is_schedule_no_op Base.str_eq core_writes
hourly_changes = refl

plan_schedule_transition-Changed_example :
    Changed hourly today goal_loop (apply_schedule_writes hourly_writes goal_loop)
plan_schedule_transition-Changed_example =
    plan_schedule_transition-Changed goal_loop hourly today hourly_writes hourly_changes

plan_schedule_transition_cases_example :
    ((plan_schedule_transition (core_state goal_loop) hourly today ≡ noop)
      ↔ Satisfies hourly goal_loop)
    × ((plan_schedule_transition (core_state goal_loop) hourly today ≡ schedule_revision_exhausted)
        ↔ ((¬ Satisfies hourly goal_loop) × (revision_int32_max ≤ 2)))
plan_schedule_transition_cases_example = plan_schedule_transition_cases goal_loop hourly today

is_valid_loop_snapshot_iff_example :
    (is_valid_loop_snapshot completed_loop ≡ true) ↔ IsConsistent completed_loop
is_valid_loop_snapshot_iff_example = is_valid_loop_snapshot_iff completed_loop

completed_is_valid : is_valid_loop_snapshot completed_loop ≡ true
unfolding is_valid_loop_snapshot loop_platform_zhb.Lifecycle.goal_is_normalized
    loop_platform_zhb.Terminal.normalize_goal loop_platform_zhb.Terminal.check_goal Base.str_eq
    Base.trim Base.includes loop_platform_zhb.Terminal.has_unpaired_surrogate
    loop_platform_zhb.Terminal.utf8_bytes_exceed Base.utf8_length validate_finish_reason
    loop_platform_zhb.Terminal.validate_terminal_text
completed_is_valid = refl

abbrev next_goal : GoalPatch
next_goal = record { goal = some (js "ship more"); goal_revision = 4; updated_at = today }

next_goal_changes :
    plan_goal_update goal_loop (some (js " ship more ")) today ≡ GoalUpdatePlan.changed next_goal
unfolding plan_goal_update is_valid_loop_snapshot loop_platform_zhb.Lifecycle.goal_is_normalized
    loop_platform_zhb.Terminal.normalize_goal loop_platform_zhb.Terminal.check_goal Base.str_eq
    Base.trim Base.includes loop_platform_zhb.Terminal.has_unpaired_surrogate
    loop_platform_zhb.Terminal.utf8_bytes_exceed Base.utf8_length
    loop_platform_zhb.Lifecycle.settle_goal
next_goal_changes = refl

plan_goal_update-GoalChanged_example :
    GoalChanged (some (js " ship more ")) goal_loop (apply_goal_patch next_goal goal_loop)
plan_goal_update-GoalChanged_example =
    plan_goal_update-GoalChanged goal_loop (some (js " ship more ")) today next_goal
      next_goal_changes

plan_finish_iff_example :
    (plan_finish goal_loop finishing_auth done_reason today
      ≡ FinishPlan.allowed (completion_writes goal_loop done_reason today))
    ↔ (MayFinish goal_loop finishing_auth
        × (completion_writes goal_loop done_reason today
            ≡ completion_writes goal_loop done_reason today))
plan_finish_iff_example =
    plan_finish_iff goal_loop finishing_auth done_reason today
      (completion_writes goal_loop done_reason today)

reason_accepted : text_ok (validate_finish_reason done_reason) ≡ true
unfolding validate_finish_reason loop_platform_zhb.Terminal.validate_terminal_text Base.str_eq
    Base.includes loop_platform_zhb.Terminal.has_unpaired_surrogate
    loop_platform_zhb.Terminal.utf8_bytes_exceed Base.utf8_length
reason_accepted = refl

finish_allowed :
    plan_finish goal_loop finishing_auth done_reason today
    ≡ FinishPlan.allowed (completion_writes goal_loop done_reason today)
unfolding plan_finish is_valid_loop_snapshot loop_platform_zhb.Lifecycle.goal_is_normalized
    loop_platform_zhb.Terminal.normalize_goal loop_platform_zhb.Terminal.check_goal Base.str_eq
    Base.trim Base.includes loop_platform_zhb.Terminal.has_unpaired_surrogate
    loop_platform_zhb.Terminal.utf8_bytes_exceed Base.utf8_length
finish_allowed = refl

-- A lease minted for an earlier goal.
abbrev stale_auth : LeaseAuthSnapshot
stale_auth = record finishing_auth { goal_revision = 2 }

stale_refused :
    plan_finish goal_loop stale_auth done_reason today
    ≡ FinishPlan.rejected FinishClassification.stale_goal
unfolding plan_finish is_valid_loop_snapshot loop_platform_zhb.Lifecycle.goal_is_normalized
    loop_platform_zhb.Terminal.normalize_goal loop_platform_zhb.Terminal.check_goal Base.str_eq
    Base.trim Base.includes loop_platform_zhb.Terminal.has_unpaired_surrogate
    loop_platform_zhb.Terminal.utf8_bytes_exceed Base.utf8_length
stale_refused = refl

plan_finish-Refused_example : Refused goal_loop stale_auth FinishClassification.stale_goal
plan_finish-Refused_example =
    plan_finish-Refused goal_loop stale_auth done_reason today FinishClassification.stale_goal
      stale_refused

abbrev reopening : ReopenWrites
reopening = record {
  completed_at = none;
  completion_reason = none;
  enabled = true;
  schedule_revision = 3;
  schedule_activated_at = some today;
  last_scheduled_at = none;
  updated_at = today;
}

reopens : plan_reopen completed_loop today ≡ ReopenPlan.changed reopening
unfolding plan_reopen is_valid_loop_snapshot loop_platform_zhb.Lifecycle.goal_is_normalized
    loop_platform_zhb.Terminal.normalize_goal loop_platform_zhb.Terminal.check_goal Base.str_eq
    Base.trim Base.includes loop_platform_zhb.Terminal.has_unpaired_surrogate
    loop_platform_zhb.Terminal.utf8_bytes_exceed Base.utf8_length validate_finish_reason
    loop_platform_zhb.Terminal.validate_terminal_text plan_schedule_transition is_schedule_no_op
    core_writes
reopens = refl

plan_reopen-Reopened_example :
    Reopened completed_loop (apply_reopen_writes reopening completed_loop) today
plan_reopen-Reopened_example = plan_reopen-Reopened completed_loop today reopening reopens

plan_report_writes-Ends_example :
    Ends
      (run_writes_of (plan_report_writes goal_loop finishing_auth running_run finish_report today))
plan_report_writes-Ends_example =
    plan_report_writes-Ends goal_loop finishing_auth running_run finish_report today

abbrev completing : CompletionWrites
completing = record {
  completed_at = today;
  completion_reason = done_reason;
  enabled = false;
  schedule_revision = 3;
  schedule_activated_at = none;
  last_scheduled_at = none;
  updated_at = today;
}

-- What the finish writes to its loop.
abbrev finish_writes : LoopV1Writes
finish_writes = record {
  state = none;
  task_file_content = some task_text;
  task_file_synced_at = some today;
  task_file_sync_attempted_at = today;
  task_file_sync_error = none;
  updated_at = today;
  completion = some completing;
}

finish_report_writes :
    loop_writes_of (plan_report_writes goal_loop finishing_auth running_run finish_report today)
    ≡ some finish_writes
unfolding plan_report_writes loop_platform_zhb.Lifecycle.Report.plan_success
    loop_platform_zhb.Lifecycle.Report.terminal_facts validate_finish_reason
    loop_platform_zhb.Terminal.validate_terminal_text Base.str_eq Base.includes
    loop_platform_zhb.Terminal.has_unpaired_surrogate loop_platform_zhb.Terminal.utf8_bytes_exceed
    Base.utf8_length loop_platform_zhb.Lifecycle.Report.checked_state
    loop_platform_zhb.Terminal.validate_task_file_sync_result
    loop_platform_zhb.Terminal.is_pg_representable_text
    loop_platform_zhb.Lifecycle.Report.plan_finish_report is_valid_loop_snapshot
    loop_platform_zhb.Lifecycle.goal_is_normalized loop_platform_zhb.Terminal.normalize_goal
    Base.is_whitespace Base.trim Base.trim_end Base.trim_start
    loop_platform_zhb.Lifecycle.Report.loop_v1_writes
    loop_platform_zhb.Lifecycle.Report.plan_plain_report
    loop_platform_zhb.Lifecycle.Report.stable_run_failure
    loop_platform_zhb.Lifecycle.Report.success_run_writes completion_writes plan_finish
    loop_platform_zhb.Terminal.State.attach loop_platform_zhb.Terminal.State.clone_terminal_state
    loop_platform_zhb.Terminal.State.escapes loop_platform_zhb.Terminal.State.outcome
    loop_platform_zhb.Terminal.State.resume loop_platform_zhb.Terminal.State.run
    loop_platform_zhb.Terminal.State.step loop_platform_zhb.Terminal.State.string_bytes
    loop_platform_zhb.Terminal.State.turns loop_platform_zhb.Terminal.State.validate_terminal_state
    loop_platform_zhb.Terminal.State.visit loop_platform_zhb.Terminal.check_goal
    loop_platform_zhb.Terminal.validate_terminal_message
    loop_platform_zhb.WriteSet.build_report_write_set loop_platform_zhb.WriteSet.clean_error
    loop_platform_zhb.WriteSet.clean_text loop_platform_zhb.WriteSet.selected_message
    loop_platform_zhb.WriteSet.slice loop_platform_zhb.WriteSet.strip_nul
finish_report_writes = refl

plan_report_writes-Promotes_example :
    Promotes goal_loop finishing_auth finish_report today finish_writes
plan_report_writes-Promotes_example =
    plan_report_writes-Promotes goal_loop finishing_auth running_run finish_report today
      finish_writes finish_report_writes
