-- ===== src/Db.antt =====
-- packages/server/src/db/schema.ts: the rows of the tables loops, runs, run_leases, machines and
-- artifact_manifests, and the enumerations of packages/protocol/src/enums.ts. Identifiers are opaque
-- texts that the code only compares, and stand as numbers; columns that no modelled code reads or
-- writes are left out.
pub mod Enums
use loop_platform_zhb.Base.{ℕ, JsString, Bool, true, false, Option, List}
use loop_platform_zhb.Artifact.Manifest.{ArtifactManifestEntry}
use loop_platform_zhb.Terminal.{TaskFileSyncError}
use loop_platform_zhb.Terminal.State.{JsValue}

abbrev pub LoopId : Type 0
LoopId = ℕ

abbrev pub RunId : Type 0
RunId = ℕ

abbrev pub MachineId : Type 0
MachineId = ℕ

abbrev pub TokenHash : Type 0
TokenHash = ℕ

abbrev pub ManifestId : Type 0
ManifestId = ℕ

abbrev pub NamespaceId : Type 0
NamespaceId = ℕ

-- A column written by `toISOString()`.
abbrev pub IsoTime : Type 0
IsoTime = JsString

pub data RunPhase : Type 0 where
  pending running done error canceled : RunPhase

pub data RunRole : Type 0 where
  exec evolve edit : RunRole

pub data RunOutcome : Type 0 where
  silent direct exec error evolve skipped : RunOutcome

pub data RunStatus : Type 0 where
  new resolved nothing_new : RunStatus

pub data LeaseState : Type 0 where
  active terminal_grace : LeaseState

abbrev pub phase_eq : RunPhase → RunPhase → Bool
phase_eq RunPhase.pending RunPhase.pending = true
phase_eq RunPhase.running RunPhase.running = true
phase_eq RunPhase.done RunPhase.done = true
phase_eq RunPhase.error RunPhase.error = true
phase_eq RunPhase.canceled RunPhase.canceled = true
phase_eq _ _ = false

abbrev pub role_eq : RunRole → RunRole → Bool
role_eq RunRole.exec RunRole.exec = true
role_eq RunRole.evolve RunRole.evolve = true
role_eq RunRole.edit RunRole.edit = true
role_eq _ _ = false

abbrev pub lease_state_eq : LeaseState → LeaseState → Bool
lease_state_eq active active = true
lease_state_eq terminal_grace terminal_grace = true
lease_state_eq _ _ = false

pub record Loop : Type 0 where
  pub id : LoopId
  pub machine_id : MachineId
  pub workdir : Option JsString
  pub task_file : Option JsString
  pub task_file_content : Option JsString
  pub task_file_synced_at : Option IsoTime
  pub enabled : Bool
  pub state : Option JsValue
  pub cron : Option JsString
  pub timezone : JsString
  pub schedule_revision : ℕ
  pub schedule_activated_at : Option IsoTime
  pub last_scheduled_at : Option IsoTime
  pub goal : Option JsString
  pub goal_revision : ℕ
  pub completed_at : Option IsoTime
  pub completion_reason : Option JsString
  pub task_file_sync_attempted_at : Option IsoTime
  pub task_file_sync_error : Option TaskFileSyncError
  pub artifact_dir : Option JsString
  pub artifact_config_revision : ℕ
  pub artifact_manifest_revision : ℕ
  pub artifact_manifest_id : Option ManifestId
  pub artifact_sync_attempted_at : Option IsoTime
  pub artifact_sync_succeeded_at : Option IsoTime
  pub artifact_sync_error : Option JsString
  pub updated_at : IsoTime
  pub revision : ℕ

pub record RunProgressRow : Type 0 where
  pub step : ℕ
  pub label : JsString
  pub at : Option IsoTime

pub record Run : Type 0 where
  pub id : RunId
  pub loop_id : LoopId
  pub machine_id : MachineId
  pub phase : RunPhase
  pub role : RunRole
  pub ts : IsoTime
  pub outcome : Option RunOutcome
  pub status : Option RunStatus
  pub message : Option JsString
  pub duration_ms : Option ℕ
  pub error : Option JsString
  pub state : Option JsValue
  pub session_id : Option JsString
  pub progress : Option RunProgressRow
  pub artifact_snapshot_id : Option ManifestId
  pub artifact_sync_error : Option JsString

pub record RunLeaseRow : Type 0 where
  pub token_hash : TokenHash
  pub run_id : RunId
  pub loop_id : LoopId
  pub machine_id : MachineId
  pub role : RunRole
  pub allow_control : Bool
  pub can_set_ui : Bool
  pub can_set_schema : Bool
  pub can_set_workflow : Bool
  pub can_finish : Bool
  pub state : LeaseState
  pub expires_at : Option IsoTime
  pub terminal_protocol_version : ℕ
  pub goal_revision : ℕ
  pub created_at : IsoTime

pub record Machine : Type 0 where
  pub id : MachineId
  pub name : JsString
  pub hostname : Option JsString
  pub platform : Option JsString
  pub arch : Option JsString
  pub daemon_version : Option JsString
  pub last_seen : Option IsoTime
  pub capabilities : Option (List JsString)
  pub team_id : Option ℕ
  pub revoked_at : Option IsoTime

pub record ArtifactManifestRow : Type 0 where
  pub id : ManifestId
  pub namespace_id : NamespaceId
  pub machine_id : MachineId
  pub loop_id : LoopId
  pub config_revision : ℕ
  pub manifest_revision : ℕ
  pub entries : List ArtifactManifestEntry
  pub file_count : ℕ
  pub total_bytes : ℕ
  pub committed_at : IsoTime
