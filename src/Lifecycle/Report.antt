-- ===== src/Lifecycle/Report.antt =====
-- packages/server/src/loop-lifecycle/index.ts, `planReportWrites`: what a final report writes,
-- decided before anything is written.
pub mod Laws
pub mod Promotion
use loop_platform_zhb.Base.{
  ℕ, ◌+◌, JsString, js, Bool, true, false, ◌&&◌, not, Option, none, some, ◌==◌, if◌then◌else◌,
  get_or, is_some,
}
use loop_platform_zhb.Terminal.{
  TaskFileSyncError, TerminalTextValidation, text_ok, validate_terminal_message,
  validate_finish_reason, sync_ok, validate_task_file_sync_result,
}
use loop_platform_zhb.Terminal.State.{JsValue, TerminalStateValidation, validate_terminal_state}
use loop_platform_zhb.Db.{IsoTime, Loop, Run, RunPhase, RunOutcome, RunStatus}
use loop_platform_zhb.WriteSet.{
  TerminalCommand, report, finish, ReportRequest, RunWrites, build_report_write_set,
}
use loop_platform_zhb.Lifecycle.{
  LeaseAuthSnapshot, CompletionWrites, FinishPlan, FinishClassification, is_valid_loop_snapshot,
  plan_finish, apply_completion,
}

-- `none` is an absent key, which leaves its column.
pub record LoopV1Writes : Type 0 where
  pub state : Option JsValue
  pub task_file_content : Option JsString
  pub task_file_synced_at : Option IsoTime
  pub task_file_sync_attempted_at : IsoTime
  pub task_file_sync_error : Option TaskFileSyncError
  pub updated_at : IsoTime
  pub completion : Option CompletionWrites

-- Every plan deletes the lease.
pub data ReportWritePlan : Type 0 where
  v0 v1_failure v1_late_success terminal_protocol_invalid loop_state_invalid :
      RunWrites → ReportWritePlan
  v1_success v1_finish : RunWrites → LoopV1Writes → ReportWritePlan
  finish_rejected : FinishClassification → RunWrites → ReportWritePlan

abbrev pub terminal_protocol_invalid_text : JsString
terminal_protocol_invalid_text = js "terminal_protocol_invalid"

abbrev pub classification_text : FinishClassification → JsString
classification_text FinishClassification.invalid_loop_state = js "invalid_loop_state"
classification_text FinishClassification.already_completed = js "already_completed"
classification_text FinishClassification.finish_not_allowed = js "finish_not_allowed"
classification_text FinishClassification.stale_goal = js "stale_goal"

-- the body `{ ok: false, error }`
abbrev failure_body : JsString → ReportRequest
failure_body error = record {
  ok = false;
  message = none;
  error = some error;
  final_text = none;
  duration_ms = none;
  session_id = none;
  task_file_content = none;
  task_file_sync_error = none;
  terminal = none;
  artifact_snapshot_id = none;
  artifact_sync_error = none;
}

unfoldable pub stable_run_failure : Run → JsString → IsoTime → RunWrites
stable_run_failure run classification now_iso =
    build_report_write_set (failure_body classification) run now_iso

-- `message !== undefined && !validateTerminalMessage(message).ok`, negated
abbrev message_ok : Option JsString → Bool
message_ok none = true
message_ok (some message) = text_ok (validate_terminal_message message)

-- What the exhaustive pass over the command's variants settles; `none` is a policy violation.
pub record TerminalFacts : Type 0 where
  pub message : Option JsString
  pub status : RunStatus
  pub finish_reason : Option JsString

unfoldable pub terminal_facts : TerminalCommand → Option TerminalFacts
terminal_facts (report status message state) =
    if not (message_ok message)
    then none
    else some (record { message = message; status = status; finish_reason = none })
terminal_facts (finish reason message state) =
    if not (text_ok (validate_finish_reason reason))
    then none
    else if not (message_ok message)
    then none
    else some (record {
      message = some (get_or message reason);
      status = RunStatus.resolved;
      finish_reason = some reason;
    })

abbrev pub terminal_state : TerminalCommand → Option JsValue
terminal_state (report status message state) = state
terminal_state (finish reason message state) = state

-- `stateCheck`: the outer `none` is a policy violation, the inner one an absent state.
unfoldable pub checked_state : Option JsValue → Option (Option JsValue)
checked_state none = some none
checked_state (some value) = elim (validate_terminal_state value) [
  | TerminalStateValidation.ok state ↦ some (some state)
  | TerminalStateValidation.rejected failure ↦ none
  | TerminalStateValidation.unfinished ↦ none
]

unfoldable pub success_run_writes :
    ReportRequest → Run → TerminalFacts → Option JsValue → IsoTime → RunWrites
success_run_writes body run facts state now_iso =
    let base = build_report_write_set body run now_iso in
    record base {
      phase = RunPhase.done;
      outcome = some RunOutcome.exec;
      status = some (some facts.status);
      message = facts.message;
      error = none;
      state = some state;
    }

unfoldable pub loop_v1_writes :
    ReportRequest → Option JsValue → Option CompletionWrites → IsoTime → LoopV1Writes
loop_v1_writes body state completion now_iso = record {
  state = state;
  task_file_content = body.task_file_content;
  task_file_synced_at = if is_some body.task_file_content then some now_iso else none;
  task_file_sync_attempted_at = now_iso;
  task_file_sync_error = body.task_file_sync_error;
  updated_at = now_iso;
  completion = completion;
}

-- The part of a v1 success report after all guards on the command: a plain report.
unfoldable pub plan_plain_report :
    Loop → Run → ReportRequest → TerminalFacts → Option JsValue → IsoTime → ReportWritePlan
plan_plain_report loop run body facts state now_iso =
    let run_writes = success_run_writes body run facts state now_iso in
    if not (is_valid_loop_snapshot loop)
    then loop_state_invalid (
        stable_run_failure run (classification_text FinishClassification.invalid_loop_state)
          now_iso)
    else if is_some loop.completed_at
    then v1_late_success run_writes
    else v1_success run_writes (loop_v1_writes body state none now_iso)

-- The same for a finish.
unfoldable pub plan_finish_report :
    Loop
    → LeaseAuthSnapshot
    → Run
    → ReportRequest
    → TerminalFacts
    → Option JsValue
    → JsString
    → IsoTime
    → ReportWritePlan
plan_finish_report loop lease run body facts state reason now_iso =
    let broken = FinishClassification.invalid_loop_state in
    if not (is_valid_loop_snapshot loop)
    then finish_rejected broken (stable_run_failure run (classification_text broken) now_iso)
    else elim (plan_finish loop lease reason now_iso) [
      | FinishPlan.rejected c ↦
          finish_rejected c (stable_run_failure run (classification_text c) now_iso)
      | FinishPlan.allowed writes ↦
          v1_finish (success_run_writes body run facts state now_iso)
            (loop_v1_writes body state (some writes) now_iso)
    ]

abbrev plan_settled :
    Loop
    → LeaseAuthSnapshot
    → Run
    → ReportRequest
    → TerminalFacts
    → Option JsValue
    → Option JsString
    → IsoTime
    → ReportWritePlan
plan_settled loop lease run body facts state none now_iso =
    plan_plain_report loop run body facts state now_iso
plan_settled loop lease run body facts state (some reason) now_iso =
    plan_finish_report loop lease run body facts state reason now_iso

abbrev protocol_invalid : Run → IsoTime → ReportWritePlan
protocol_invalid run now_iso =
    terminal_protocol_invalid (stable_run_failure run terminal_protocol_invalid_text now_iso)

unfoldable pub plan_success :
    Loop → LeaseAuthSnapshot → Run → ReportRequest → TerminalCommand → IsoTime → ReportWritePlan
plan_success loop lease run body terminal now_iso = elim (terminal_facts terminal) [
  | none ↦ protocol_invalid run now_iso
  | some facts ↦ elim (checked_state (terminal_state terminal)) [
    | none ↦ protocol_invalid run now_iso
    | some state ↦
        if not (
          sync_ok (validate_task_file_sync_result body.task_file_content body.task_file_sync_error))
        then protocol_invalid run now_iso
        else plan_settled loop lease run body facts state facts.finish_reason now_iso
  ]
]

abbrev plan_terminal :
    Loop
    → LeaseAuthSnapshot
    → Run
    → ReportRequest
    → Option TerminalCommand
    → IsoTime
    → ReportWritePlan
plan_terminal loop lease run body none now_iso = protocol_invalid run now_iso
plan_terminal loop lease run body (some terminal) now_iso =
    plan_success loop lease run body terminal now_iso

unfoldable pub plan_report_writes :
    Loop → LeaseAuthSnapshot → Run → ReportRequest → IsoTime → ReportWritePlan
plan_report_writes loop lease run body now_iso =
    if lease.terminal_protocol_version == 0
    then v0 (build_report_write_set body run now_iso)
    else if not (lease.terminal_protocol_version == 1)
    then protocol_invalid run now_iso
    else if not body.ok
    then v1_failure (build_report_write_set body run now_iso)
    else plan_terminal loop lease run body body.terminal now_iso

abbrev pub run_writes_of : ReportWritePlan → RunWrites
run_writes_of (v0 writes) = writes
run_writes_of (v1_failure writes) = writes
run_writes_of (v1_late_success writes) = writes
run_writes_of (terminal_protocol_invalid writes) = writes
run_writes_of (loop_state_invalid writes) = writes
run_writes_of (v1_success writes loop_writes) = writes
run_writes_of (v1_finish writes loop_writes) = writes
run_writes_of (finish_rejected c writes) = writes

abbrev pub loop_writes_of : ReportWritePlan → Option LoopV1Writes
loop_writes_of (v1_success writes loop_writes) = some loop_writes
loop_writes_of (v1_finish writes loop_writes) = some loop_writes
loop_writes_of _ = none

abbrev pub complete : Option CompletionWrites → Loop → Loop
complete none loop = loop
complete (some writes) loop = apply_completion writes loop

-- `present ? value : column`
abbrev keep {ℓ} : {A : Type ℓ} → Option A → Option A → Option A
keep none column = column
keep (some value) column = some value

-- `writeLoop` of store/report.ts: `UPDATE loops SET …loopWrites`
unfoldable pub apply_loop_v1_writes : LoopV1Writes → Loop → Loop
unfolding apply_completion
apply_loop_v1_writes writes loop =
    let reported = record loop {
      state = keep writes.state loop.state;
      task_file_content = keep writes.task_file_content loop.task_file_content;
      task_file_synced_at = keep writes.task_file_synced_at loop.task_file_synced_at;
      task_file_sync_attempted_at = some writes.task_file_sync_attempted_at;
      task_file_sync_error = writes.task_file_sync_error;
      updated_at = writes.updated_at;
      revision = loop.revision + 1;
    } in
    complete writes.completion reported
