-- ===== src/WriteSet.antt =====
-- packages/server/src/store/report.ts, the terminal write-set of a run, and the report body of
-- packages/protocol/src/report.ts with the fields that the server consumes.
use loop_platform_zhb.Base.{
  ℕ, zero, suc, JsString, js, Bool, Option, none, some, [], ◌∷◌, ◌==◌, if◌then◌else◌, str_eq,
  get_or, trim,
}
use loop_platform_zhb.Terminal.{TaskFileSyncError}
use loop_platform_zhb.Terminal.State.{JsValue}
use loop_platform_zhb.Db.{IsoTime, ManifestId, Run, RunPhase, RunOutcome, RunStatus, RunProgressRow}

pub data TerminalCommand : Type 0 where
  report : RunStatus → Option JsString → Option JsValue → TerminalCommand
  finish : JsString → Option JsString → Option JsValue → TerminalCommand

pub record ReportRequest : Type 0 where
  pub ok : Bool
  pub message : Option JsString
  pub error : Option JsString
  pub final_text : Option JsString
  pub duration_ms : Option ℕ
  pub session_id : Option JsString
  pub task_file_content : Option JsString
  pub task_file_sync_error : Option TaskFileSyncError
  pub terminal : Option TerminalCommand
  pub artifact_snapshot_id : Option ManifestId
  pub artifact_sync_error : Option JsString

abbrev pub message_cap : ℕ
message_cap = 2000

abbrev pub session_id_cap : ℕ
session_id_cap = 200

abbrev pub generic_run_error : JsString
generic_run_error = js "run failed on machine"

-- `value.replace(/\0/g, "")`
unfoldable pub strip_nul : JsString → JsString
strip_nul [] = []
strip_nul (c ∷ s) = let rest = strip_nul s in if c == 0 then rest else c ∷ rest

-- `s.slice(0, cap)`
unfoldable pub slice : ℕ → JsString → JsString
slice zero s = []
slice (suc n) [] = []
slice (suc n) (c ∷ s) = c ∷ slice n s

unfoldable pub clean_text : JsString → ℕ → JsString
clean_text value cap = slice cap (strip_nul value)

unfoldable pub clean_error : Option JsString → Option JsString
clean_error none = none
clean_error (some value) =
    let cleaned = trim (strip_nul value) in
    if str_eq cleaned [] then none else some (slice message_cap cleaned)

-- `run.message != null && run.message !== ""`
abbrev existing_message : Option JsString → Option JsString
existing_message none = none
existing_message (some message) = if str_eq message [] then none else some message

-- The first of the body's message, the run's own non-empty message and the body's final text.
unfoldable pub selected_message : ReportRequest → Run → Option JsString
selected_message body run = elim body.message [
  | some message ↦ some message
  | none ↦ elim (existing_message run.message) [
    | some message ↦ some message
    | none ↦ body.final_text
  ]
]

abbrev clean_opt : ℕ → Option JsString → Option JsString
clean_opt cap none = none
clean_opt cap (some value) = some (clean_text value cap)

-- A `Partial<NewRun>`: `none` at `status` and `state` is an absent key.
pub record RunWrites : Type 0 where
  pub phase : RunPhase
  pub outcome : Option RunOutcome
  pub status : Option (Option RunStatus)
  pub message : Option JsString
  pub error : Option JsString
  pub state : Option (Option JsValue)
  pub duration_ms : Option ℕ
  pub session_id : Option JsString
  pub progress : Option RunProgressRow
  pub ts : IsoTime

unfoldable pub build_report_write_set : ReportRequest → Run → IsoTime → RunWrites
unfolding selected_message
build_report_write_set body run now_iso = record {
  phase = if body.ok then RunPhase.done else RunPhase.error;
  outcome = some (if body.ok then RunOutcome.exec else RunOutcome.error);
  status = none;
  message = clean_opt message_cap (selected_message body run);
  error = if body.ok then none else some (get_or (clean_error body.error) generic_run_error);
  state = none;
  duration_ms = body.duration_ms;
  session_id = clean_opt session_id_cap body.session_id;
  progress = none;
  ts = now_iso;
}

-- `UPDATE runs SET …runWrites`
unfoldable pub apply_run_writes : RunWrites → Run → Run
apply_run_writes writes run = record run {
  phase = writes.phase;
  outcome = writes.outcome;
  status = get_or writes.status run.status;
  message = writes.message;
  error = writes.error;
  state = get_or writes.state run.state;
  duration_ms = writes.duration_ms;
  session_id = writes.session_id;
  progress = writes.progress;
  ts = writes.ts;
}
