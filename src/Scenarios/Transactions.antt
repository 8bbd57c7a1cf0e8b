-- ===== src/Scenarios/Transactions.antt =====
-- Guarded writes of loops on the platform.
use loop_platform_zhb.Base.{
  ℕ, ◌≡◌, refl, JsString, js, Bool, true, false, Option, none, some, List, [], ◌∷◌, ◌≤◌, ◌⊎◌, inl,
  inr, arith,
}
use loop_platform_zhb.Base
use loop_platform_zhb.Db.{Loop, RunPhase}
use loop_platform_zhb.Store.{
  Database, Clock, Moments, find_loop, update_loop, cas_loop, settled, result, select_first,
}
use loop_platform_zhb.Store.Manage.{
  UpdateGoalResult, update_goal, UpdateTaskFileResult, update_task_file, retarget, ReopenLoopResult,
  reopen_loop, revoke_generation,
}
use loop_platform_zhb.Store.Runs.{bump}
use loop_platform_zhb.Scenarios.{
  today, clock, goal_loop, idle_loop, completed_loop, running_run, queued_run, sibling_run,
  platform, calm,
}

-- The rows after the bump of the second loop's token.
abbrev bumped_rows : List Loop
bumped_rows = goal_loop ∷ bump idle_loop ∷ []

bumps : cas_loop 2 5 bump platform.loops ≡ some (bump idle_loop, bumped_rows)
unfolding cas_loop find_loop update_loop
bumps = refl

finds_idle : find_loop 2 platform.loops ≡ some idle_loop
unfolding find_loop
finds_idle = refl

abbrev regoaled_loop : Loop
regoaled_loop = record goal_loop {
  goal = some (js "ship more");
  goal_revision = 4;
  updated_at = today;
  revision = 6;
}

abbrev regoaled : Database
regoaled = record platform { loops = regoaled_loop ∷ idle_loop ∷ [] }

regoals :
    update_goal clock 1 (some (js " ship more ")) (calm platform)
    ≡ result (UpdateGoalResult.changed regoaled_loop) regoaled
unfolding update_goal loop_platform_zhb.Store.with_guard_retry find_loop
    loop_platform_zhb.Lifecycle.plan_goal_update loop_platform_zhb.Lifecycle.is_valid_loop_snapshot
    loop_platform_zhb.Lifecycle.goal_is_normalized loop_platform_zhb.Terminal.normalize_goal
    loop_platform_zhb.Terminal.check_goal Base.str_eq Base.trim Base.includes
    loop_platform_zhb.Terminal.has_unpaired_surrogate loop_platform_zhb.Terminal.utf8_bytes_exceed
    Base.utf8_length loop_platform_zhb.Lifecycle.settle_goal cas_loop
    loop_platform_zhb.Lifecycle.apply_goal_patch update_loop Base.is_whitespace Base.trim_end
    Base.trim_start loop_platform_zhb.Store.Manage.update_goal_once
    loop_platform_zhb.Terminal.validate_finish_reason
    loop_platform_zhb.Terminal.validate_terminal_text
regoals = refl

abbrev retargeted_loop : Loop
retargeted_loop = record idle_loop {
  task_file = some (js "PLAN.md");
  updated_at = today;
  revision = 6;
}

abbrev retargeted : Database
retargeted = record platform { loops = goal_loop ∷ retargeted_loop ∷ [] }

retargets :
    update_task_file clock 2 (js "PLAN.md") (calm platform)
    ≡ result (UpdateTaskFileResult.changed retargeted_loop) retargeted
unfolding update_task_file loop_platform_zhb.Store.with_guard_retry find_loop Base.str_eq cas_loop
    retarget update_loop
retargets = refl

-- The platform once its first loop was completed, with its run still running.
abbrev completed : Database
completed = record platform { loops = completed_loop ∷ idle_loop ∷ [] }

abbrev reopened_loop : Loop
reopened_loop = record completed_loop {
  enabled = true;
  completed_at = none;
  completion_reason = none;
  schedule_revision = 3;
  schedule_activated_at = some today;
  updated_at = today;
  revision = 6;
}

abbrev reopened : Database
reopened = record completed {
  loops = reopened_loop ∷ idle_loop ∷ [];
  runs =
      record running_run { phase = RunPhase.canceled; ts = today }
      ∷ queued_run
      ∷ record sibling_run { phase = RunPhase.canceled; ts = today }
      ∷ [];
  leases = [];
}

reopens :
    reopen_loop clock 1 (calm completed) ≡ result (ReopenLoopResult.changed reopened_loop) reopened
unfolding reopen_loop loop_platform_zhb.Store.with_guard_retry find_loop
    loop_platform_zhb.Lifecycle.plan_reopen loop_platform_zhb.Lifecycle.is_valid_loop_snapshot
    loop_platform_zhb.Lifecycle.goal_is_normalized loop_platform_zhb.Terminal.normalize_goal
    loop_platform_zhb.Terminal.check_goal Base.str_eq Base.trim Base.includes
    loop_platform_zhb.Terminal.has_unpaired_surrogate loop_platform_zhb.Terminal.utf8_bytes_exceed
    Base.utf8_length loop_platform_zhb.Terminal.validate_finish_reason
    loop_platform_zhb.Terminal.validate_terminal_text
    loop_platform_zhb.Schedule.plan_schedule_transition Base.is_whitespace Base.trim_end
    Base.trim_start loop_platform_zhb.Lifecycle.apply_reopen_writes
    loop_platform_zhb.Schedule.core_writes loop_platform_zhb.Schedule.is_schedule_no_op
    loop_platform_zhb.Store.Manage.reopen_loop_once revoke_generation cas_loop update_loop
reopens = refl
