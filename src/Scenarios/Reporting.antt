-- ===== src/Scenarios/Reporting.antt =====
-- A finish reported on the platform.
use loop_platform_zhb.Store.Report.Resolve.{
  resolve_live_lease, Resolves, resolve_live_lease-Resolves,
}
use loop_platform_zhb.Store.Dates.{is_lease_dead}
use loop_platform_zhb.Base.{
  ℕ, ◌≡◌, refl, JsString, js, Bool, true, false, Option, none, some, List, [], ◌∷◌, ◌≤◌, ◌⊎◌, inl,
  inr, arith,
}
use loop_platform_zhb.Base
use loop_platform_zhb.Db.{Loop, Run, RunPhase, RunOutcome, RunStatus}
use loop_platform_zhb.Store.{
  Database, Clock, Moments, find_loop, update_loop, cas_loop, settled, result, select_first,
}
use loop_platform_zhb.Store.Report.{
  ReportOutcome, DenyReason, find_lease, reconciles, run_report_tx, execute_report_tx, retire_row,
}
use loop_platform_zhb.Store.Report.Progress.{Accepts, run_report_tx-Accepts}
use loop_platform_zhb.Store.Report.Once.{Settles, execute_report_tx-Settles, execute_report_tx-once}
use loop_platform_zhb.Scenarios.{
  calm-Interfered, today, clock, unit_dates, attributed, goal_loop, idle_loop, running_run,
  queued_run, sibling_run, lease, platform, calm, done_reason, task_text, finish_report,
}

lease_live : is_lease_dead unit_dates lease 1000 ≡ false
unfolding is_lease_dead
lease_live = refl

run_report_tx-Accepts_example :
    Accepts false (run_report_tx unit_dates attributed clock 99 finish_report platform platform)
run_report_tx-Accepts_example =
    run_report_tx-Accepts unit_dates attributed clock 99 finish_report platform lease running_run
      refl lease_live refl refl

-- The loop as the finish leaves it.
abbrev finished_loop : Loop
finished_loop = record goal_loop {
  enabled = false;
  task_file_content = some task_text;
  task_file_synced_at = some today;
  task_file_sync_attempted_at = some today;
  completed_at = some today;
  completion_reason = some done_reason;
  schedule_revision = 3;
  schedule_activated_at = none;
  last_scheduled_at = none;
  updated_at = today;
  revision = 6;
}

abbrev finished_run : Run
finished_run = record running_run {
  phase = RunPhase.done;
  outcome = some RunOutcome.exec;
  status = some RunStatus.resolved;
  message = some done_reason;
  ts = today;
  artifact_snapshot_id = some 40;
}

abbrev finished : Database
finished = record platform {
  loops = finished_loop ∷ idle_loop ∷ [];
  runs = finished_run ∷ queued_run ∷ retire_row today sibling_run ∷ [];
  leases = [];
}

abbrev finish_accepted : ReportOutcome
finish_accepted = ReportOutcome.accepted false (some finished_loop)

finishes :
    execute_report_tx unit_dates attributed clock 99 finish_report (calm platform)
    ≡ result finish_accepted finished
unfolding execute_report_tx loop_platform_zhb.Store.with_guard_retry run_report_tx is_lease_dead
    loop_platform_zhb.Store.Binding.bind_artifact
    loop_platform_zhb.Store.Binding.plan_report_binding
    loop_platform_zhb.Store.Binding.plan_artifact_snapshot_binding
    loop_platform_zhb.Store.Binding.plan_snapshot loop_platform_zhb.Store.Binding.plan_verified
    loop_platform_zhb.Store.Binding.apply_artifact_binding_plan
    loop_platform_zhb.Store.Binding.update_resolved loop_platform_zhb.Store.Report.settle_live
    loop_platform_zhb.Store.Report.settle_v1 loop_platform_zhb.Store.Report.write_run
    loop_platform_zhb.Store.Report.write_plan_loop loop_platform_zhb.Store.Report.plan_for find_loop
    loop_platform_zhb.Lifecycle.Report.plan_report_writes
    loop_platform_zhb.Lifecycle.Report.plan_success
    loop_platform_zhb.Lifecycle.Report.terminal_facts
    loop_platform_zhb.Terminal.validate_finish_reason
    loop_platform_zhb.Terminal.validate_terminal_text Base.str_eq Base.includes Base.is_whitespace
    Base.trim Base.trim_end Base.trim_start Base.utf8_length
    loop_platform_zhb.Lifecycle.Report.apply_loop_v1_writes
    loop_platform_zhb.Lifecycle.Report.checked_state
    loop_platform_zhb.Lifecycle.Report.loop_v1_writes
    loop_platform_zhb.Lifecycle.Report.plan_finish_report
    loop_platform_zhb.Lifecycle.Report.plan_plain_report
    loop_platform_zhb.Lifecycle.Report.stable_run_failure
    loop_platform_zhb.Lifecycle.Report.success_run_writes
    loop_platform_zhb.Lifecycle.apply_completion loop_platform_zhb.Lifecycle.completion_writes
    loop_platform_zhb.Lifecycle.goal_is_normalized
    loop_platform_zhb.Lifecycle.is_valid_loop_snapshot loop_platform_zhb.Lifecycle.plan_finish
    loop_platform_zhb.Store.Report.delete_observed_lease
    loop_platform_zhb.Store.Report.retire_pending loop_platform_zhb.Store.Report.settle_v0
    loop_platform_zhb.Store.Report.write_loop cas_loop update_loop
    loop_platform_zhb.Terminal.State.attach loop_platform_zhb.Terminal.State.clone_terminal_state
    loop_platform_zhb.Terminal.State.escapes loop_platform_zhb.Terminal.State.outcome
    loop_platform_zhb.Terminal.State.resume loop_platform_zhb.Terminal.State.run
    loop_platform_zhb.Terminal.State.step loop_platform_zhb.Terminal.State.string_bytes
    loop_platform_zhb.Terminal.State.turns loop_platform_zhb.Terminal.State.validate_terminal_state
    loop_platform_zhb.Terminal.State.visit loop_platform_zhb.Terminal.check_goal
    loop_platform_zhb.Terminal.has_unpaired_surrogate
    loop_platform_zhb.Terminal.is_pg_representable_text loop_platform_zhb.Terminal.normalize_goal
    loop_platform_zhb.Terminal.utf8_bytes_exceed
    loop_platform_zhb.Terminal.validate_task_file_sync_result
    loop_platform_zhb.Terminal.validate_terminal_message loop_platform_zhb.WriteSet.apply_run_writes
    loop_platform_zhb.WriteSet.build_report_write_set loop_platform_zhb.WriteSet.clean_error
    loop_platform_zhb.WriteSet.clean_text loop_platform_zhb.WriteSet.selected_message
    loop_platform_zhb.WriteSet.slice loop_platform_zhb.WriteSet.strip_nul
finishes = refl

execute_report_tx-Settles_example :
    Settles 99 (some lease) finish_accepted platform finished
    ⊎ Settles 99 (some lease) finish_accepted platform finished
execute_report_tx-Settles_example =
    execute_report_tx-Settles unit_dates attributed clock 99 finish_report (calm platform)
      finish_accepted finished (calm-Interfered platform) finishes

execute_report_tx-once_example :
    run_report_tx unit_dates attributed clock 99 finish_report finished finished
    ≡ settled (ReportOutcome.denied DenyReason.consumed_or_revoked) finished
execute_report_tx-once_example =
    execute_report_tx-once unit_dates attributed clock 99 finish_report (calm platform) false
      (some finished_loop) finished (calm-Interfered platform) (omega arith) (omega arith) finishes
      clock finish_report finished

resolve_live_lease-Resolves_example :
    Resolves unit_dates clock 99 platform platform
      (resolve_live_lease unit_dates clock 99 platform platform).0
      (resolve_live_lease unit_dates clock 99 platform platform).1
resolve_live_lease-Resolves_example =
    resolve_live_lease-Resolves unit_dates clock 99 platform platform
