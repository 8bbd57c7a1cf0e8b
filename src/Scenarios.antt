-- ===== src/Scenarios.antt =====
-- A small platform to evaluate the definitions on: one machine, a loop with a goal and a running
-- exec run under its lease, and a second loop that is idle.
mod TerminalText
mod States
mod Planning
mod Runs
mod Reporting
mod Reclaiming
mod Transactions
mod Artifacts
mod Scheduling
mod Configuring
mod Contacting
use loop_platform_zhb.Store.Dates.{DateApi}
use loop_platform_zhb.Base.{
  ℕ, ◌≡◌, refl, JsString, js, Bool, true, false, Option, none, some, List, [], ◌∷◌,
}
use loop_platform_zhb.Db.{
  IsoTime, Loop, Run, RunLeaseRow, Machine, ArtifactManifestRow, RunPhase, RunRole, LeaseState,
}
use loop_platform_zhb.Terminal.{terminal_journal_v1_capability}
use loop_platform_zhb.WriteSet.{TerminalCommand, ReportRequest}
use loop_platform_zhb.Lifecycle.{LeaseAuthSnapshot}
use loop_platform_zhb.Store.{Database, Clock, Moments}
use loop_platform_zhb.Store.Binding.{ArtifactBinding}
use loop_platform_zhb.Store.Occ.{Evolves-refl}
use loop_platform_zhb.Store.Manage.Retry.{Interfered}

abbrev pub early : IsoTime
early = js "2026-08-01T00:00:00.000Z"

abbrev pub today : IsoTime
today = js "2026-09-01T00:00:00.000Z"

-- One code unit stands for each moment.
abbrev pub parse_unit : IsoTime → Option ℕ
parse_unit [] = none
parse_unit (ms ∷ []) = some ms
parse_unit (ms ∷ more) = none

abbrev pub unit_dates : DateApi
unit_dates = record { to_iso = λ ms. ms ∷ []; parse = parse_unit; parse-to_iso = λ ms. refl }

abbrev pub clock : Clock
clock = record { ms = 1000; iso = today }

abbrev pub goal_loop : Loop
goal_loop = record {
  id = 1;
  machine_id = 7;
  workdir = some (js "/srv");
  task_file = some (js "TASK.md");
  task_file_content = none;
  task_file_synced_at = none;
  enabled = true;
  state = none;
  cron = some (js "0 9 * * *");
  timezone = js "UTC";
  schedule_revision = 2;
  schedule_activated_at = some early;
  last_scheduled_at = some early;
  goal = some (js "ship it");
  goal_revision = 3;
  completed_at = none;
  completion_reason = none;
  task_file_sync_attempted_at = none;
  task_file_sync_error = none;
  artifact_dir = none;
  artifact_config_revision = 4;
  artifact_manifest_revision = 1;
  artifact_manifest_id = some 40;
  artifact_sync_attempted_at = some early;
  artifact_sync_succeeded_at = some early;
  artifact_sync_error = none;
  updated_at = early;
  revision = 5;
}

abbrev pub idle_loop : Loop
idle_loop = record goal_loop { id = 2; goal = none; goal_revision = 0 }

abbrev pub completed_loop : Loop
completed_loop = record goal_loop {
  enabled = false;
  completed_at = some early;
  completion_reason = some (js "done");
  schedule_activated_at = none;
  last_scheduled_at = none;
}

abbrev pub running_run : Run
running_run = record {
  id = 11;
  loop_id = 1;
  machine_id = 7;
  phase = RunPhase.running;
  role = RunRole.exec;
  ts = early;
  outcome = none;
  status = none;
  message = none;
  duration_ms = none;
  error = none;
  state = none;
  session_id = none;
  progress = none;
  artifact_snapshot_id = none;
  artifact_sync_error = none;
}

abbrev pub queued_run : Run
queued_run = record running_run { id = 12; loop_id = 2; phase = RunPhase.pending }

-- A run of the first loop in another role.
abbrev pub sibling_run : Run
sibling_run = record running_run { id = 13; phase = RunPhase.pending; role = RunRole.evolve }

abbrev pub lease : RunLeaseRow
lease = record {
  token_hash = 99;
  run_id = 11;
  loop_id = 1;
  machine_id = 7;
  role = RunRole.exec;
  allow_control = false;
  can_set_ui = false;
  can_set_schema = false;
  can_set_workflow = false;
  can_finish = true;
  state = LeaseState.active;
  expires_at = none;
  terminal_protocol_version = 1;
  goal_revision = 3;
  created_at = early;
}

abbrev pub finishing_auth : LeaseAuthSnapshot
finishing_auth = record {
  role = RunRole.exec;
  can_finish = true;
  goal_revision = 3;
  terminal_protocol_version = 1;
}

abbrev pub machine : Machine
machine = record {
  id = 7;
  name = [];
  hostname = none;
  platform = none;
  arch = none;
  daemon_version = none;
  last_seen = none;
  capabilities = none;
  team_id = some 1;
  revoked_at = none;
}

-- The committed manifest of the first loop under its present generation.
abbrev pub manifest : ArtifactManifestRow
manifest = record {
  id = 40;
  namespace_id = 3;
  machine_id = 7;
  loop_id = 1;
  config_revision = 4;
  manifest_revision = 1;
  entries = [];
  file_count = 0;
  total_bytes = 0;
  committed_at = early;
}

-- Every machine belongs to one namespace.
abbrev pub attributed : ArtifactBinding
attributed = some (λ machine_id db. some (record { namespace_id = 3; machine_id = machine_id }))

abbrev pub platform : Database
platform = record {
  loops = goal_loop ∷ idle_loop ∷ [];
  runs = running_run ∷ queued_run ∷ sibling_run ∷ [];
  leases = lease ∷ [];
  machines = machine ∷ [];
  manifests = manifest ∷ [];
}

-- Both attempts find the same database, and none interferes.
abbrev pub calm : Database → Moments
calm db = record { seen = db; now = db; seen_again = db; now_again = db }

abbrev pub done_reason : JsString
done_reason = js "done"

abbrev pub task_text : JsString
task_text = js "- [x] ship"

abbrev pub finish_report : ReportRequest
finish_report = record {
  ok = true;
  message = none;
  error = none;
  final_text = none;
  duration_ms = none;
  session_id = none;
  task_file_content = some task_text;
  task_file_sync_error = none;
  terminal = some (TerminalCommand.finish done_reason none none);
  artifact_snapshot_id = some 40;
  artifact_sync_error = none;
}

pub calm-Interfered : (db : Database) → Interfered (calm db)
calm-Interfered db = record { first = Evolves-refl db.loops; second = Evolves-refl db.loops }
