-- ===== src/Store/Manage.antt =====
-- packages/server/src/loop-lifecycle/ops.ts: the guarded writes of the management operations.
pub mod Laws
pub mod Retry
use loop_platform_zhb.Base.{
  ℕ, ◌+◌, JsString, Bool, true, false, ◌&&◌, ◌||◌, Option, none, some, List, ◌==◌, if◌then◌else◌,
  any,
}
use loop_platform_zhb.Db.{
  IsoTime, LoopId, Loop, Run, RunLeaseRow, RunPhase, pending, running, canceled, phase_eq,
}
use loop_platform_zhb.Schedule.{opt_str_eq}
use loop_platform_zhb.Lifecycle.{
  GoalUpdatePlan, GoalUpdateRejection, plan_goal_update, apply_goal_patch, ReopenPlan,
  ReopenRejection, plan_reopen, apply_reopen_writes,
}
use loop_platform_zhb.Store.{
  Database, Clock, find_loop, cas_loop, Settled, settled, guard_lost, Retried, Moments,
  with_guard_retry, update_where, delete_where,
}

-- What a guarded update of one loop row gives, and the database with that row.
abbrev pub commit_loop :
    {R : Type 0} → Database → (Loop → R) → Option (Loop × List Loop) → Settled R
commit_loop db answer none = guard_lost
commit_loop db answer (some (loop, rows)) = settled (answer loop) (record db { loops = rows })

pub data UpdateGoalResult : Type 0 where
  not_found : UpdateGoalResult
  noop changed : Loop → UpdateGoalResult
  rejected : GoalUpdateRejection → UpdateGoalResult

abbrev execute_goal_plan : LoopId → Loop → GoalUpdatePlan → Database → Settled UpdateGoalResult
execute_goal_plan id resolved GoalUpdatePlan.noop now = settled (noop resolved) now
execute_goal_plan id resolved (GoalUpdatePlan.rejected reason) now = settled (rejected reason) now
execute_goal_plan id resolved (GoalUpdatePlan.changed writes) now =
    commit_loop now changed (cas_loop id resolved.revision (apply_goal_patch writes) now.loops)

unfoldable pub update_goal_once :
    Clock → LoopId → Option JsString → Database → Database → Settled UpdateGoalResult
update_goal_once clock id command seen now = elim (find_loop id seen.loops) [
  | none ↦ settled not_found now
  | some resolved ↦ execute_goal_plan id resolved (plan_goal_update resolved command clock.iso) now
]

unfoldable pub update_goal : Clock → LoopId → Option JsString → Moments → Retried UpdateGoalResult
unfolding update_goal_once
update_goal clock id command m = with_guard_retry (update_goal_once clock id command) m

pub data UpdateTaskFileResult : Type 0 where
  not_found run_in_progress : UpdateTaskFileResult
  noop changed : Loop → UpdateTaskFileResult

-- Retargeting clears the whole sync snapshot of the old file.
unfoldable pub retarget : JsString → IsoTime → Loop → Loop
retarget task_file now_iso loop = record loop {
  task_file = some task_file;
  task_file_content = none;
  task_file_synced_at = none;
  task_file_sync_attempted_at = none;
  task_file_sync_error = none;
  updated_at = now_iso;
  revision = loop.revision + 1;
}

abbrev pub in_phase : LoopId → RunPhase → Run → Bool
in_phase id phase run = run.loop_id == id && phase_eq run.phase phase

unfoldable pub update_task_file_once :
    Clock → LoopId → JsString → Database → Database → Settled UpdateTaskFileResult
update_task_file_once clock id task_file seen now = elim (find_loop id seen.loops) [
  | none ↦ settled UpdateTaskFileResult.not_found now
  | some resolved ↦
      if opt_str_eq resolved.task_file (some task_file)
      then settled (UpdateTaskFileResult.noop resolved) now
      else if any (in_phase id running) now.runs
      then settled run_in_progress now
      else commit_loop now UpdateTaskFileResult.changed
          (cas_loop id resolved.revision (retarget task_file clock.iso) now.loops)
]

unfoldable pub update_task_file : Clock → LoopId → JsString → Moments → Retried UpdateTaskFileResult
unfolding update_task_file_once
update_task_file clock id task_file m =
    with_guard_retry (update_task_file_once clock id task_file) m

pub data ReopenLoopResult : Type 0 where
  not_found : ReopenLoopResult
  changed : Loop → ReopenLoopResult
  rejected : ReopenRejection → ReopenLoopResult

-- `phase IN ('pending', 'running')`
abbrev pub is_live : RunPhase → Bool
is_live pending = true
is_live running = true
is_live _ = false

abbrev pub live_in_loop : LoopId → Run → Bool
live_in_loop id run = run.loop_id == id && is_live run.phase

abbrev pub cancel_row : IsoTime → Run → Run
cancel_row now_iso run = record run { phase = canceled; ts = now_iso }

-- Every live run of the loop is canceled, and every lease of the loop deleted.
unfoldable pub revoke_generation : LoopId → IsoTime → Database → Database
revoke_generation id now_iso db = record db {
  runs = update_where (live_in_loop id) (cancel_row now_iso) db.runs;
  leases = delete_where (λ lease. lease.loop_id == id) db.leases;
}

abbrev execute_reopen_plan :
    Clock → LoopId → Loop → ReopenPlan → Database → Settled ReopenLoopResult
execute_reopen_plan clock id resolved (ReopenPlan.rejected reason) now =
    settled (ReopenLoopResult.rejected reason) now
execute_reopen_plan clock id resolved (ReopenPlan.changed writes) now =
    commit_loop (revoke_generation id clock.iso now) ReopenLoopResult.changed
      (cas_loop id resolved.revision (apply_reopen_writes writes) now.loops)

unfoldable pub reopen_loop_once : Clock → LoopId → Database → Database → Settled ReopenLoopResult
reopen_loop_once clock id seen now = elim (find_loop id seen.loops) [
  | none ↦ settled ReopenLoopResult.not_found now
  | some resolved ↦ execute_reopen_plan clock id resolved (plan_reopen resolved clock.iso) now
]

unfoldable pub reopen_loop : Clock → LoopId → Moments → Retried ReopenLoopResult
unfolding reopen_loop_once
reopen_loop clock id m = with_guard_retry (reopen_loop_once clock id) m
