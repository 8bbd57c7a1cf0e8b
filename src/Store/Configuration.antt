-- ===== src/Store/Configuration.antt =====
-- packages/server/src/artifact/config.ts: the write path of a loop's artifact directory, and the
-- view of its artifacts that is read back. What the source throws is a result here.
pub mod Laws
pub mod View
use loop_platform_zhb.Base.{
  ℕ, ◌+◌, JsString, js, Bool, true, false, ◌&&◌, ◌||◌, not, Option, none, some, [], ◌==◌,
  if◌then◌else◌, str_eq, includes, leb,
}
use loop_platform_zhb.Artifact.{starts_with}
use loop_platform_zhb.Db.{IsoTime, LoopId, ManifestId, Loop, ArtifactManifestRow}
use loop_platform_zhb.Schedule.{revision_int32_max, opt_str_eq}
use loop_platform_zhb.Store.{
  Database, Clock, find_loop, select_first, cas_loop, Settled, settled, Retried, Moments,
  with_guard_retry,
}
use loop_platform_zhb.Store.Manage.{commit_loop}

-- The three columns that the planner may consult.
pub record ArtifactConfigSnapshot : Type 0 where
  pub artifact_dir : Option JsString
  pub artifact_config_revision : ℕ
  pub workdir : Option JsString

abbrev pub config_snapshot : Loop → ArtifactConfigSnapshot
config_snapshot l = record {
  artifact_dir = l.artifact_dir;
  artifact_config_revision = l.artifact_config_revision;
  workdir = l.workdir;
}

pub data ArtifactConfigRejection : Type 0 where
  artifact_dir_invalid artifact_dir_relative_without_workdir : ArtifactConfigRejection
  config_revision_exhausted : ArtifactConfigRejection

-- The three columns of the last attempt to synchronise are null in every patch.
pub record ArtifactConfigPatch : Type 0 where
  pub artifact_dir : Option JsString
  pub artifact_config_revision : ℕ
  pub updated_at : IsoTime

pub data ArtifactConfigPlan : Type 0 where
  noop : ArtifactConfigPlan
  rejected : ArtifactConfigRejection → ArtifactConfigPlan
  changed : ArtifactConfigPatch → ArtifactConfigPlan

-- `!workdir`: null and the empty text.
abbrev pub no_workdir : Option JsString → Bool
no_workdir none = true
no_workdir (some w) = str_eq w []

unfoldable pub dir_failure : Option JsString → Option JsString → Option ArtifactConfigRejection
dir_failure workdir none = none
dir_failure workdir (some dir) =
    if str_eq dir [] || includes dir 0
    then some artifact_dir_invalid
    else if not (starts_with (js "/") dir) && no_workdir workdir
    then some artifact_dir_relative_without_workdir
    else none

unfoldable pub plan_artifact_config_update :
    ArtifactConfigSnapshot → Option JsString → IsoTime → ArtifactConfigPlan
plan_artifact_config_update snapshot dir now_iso = elim (dir_failure snapshot.workdir dir) [
  | some reason ↦ rejected reason
  | none ↦
      if opt_str_eq dir snapshot.artifact_dir
      then noop
      else if leb revision_int32_max snapshot.artifact_config_revision
      then rejected config_revision_exhausted
      else changed (record {
        artifact_dir = dir;
        artifact_config_revision = snapshot.artifact_config_revision + 1;
        updated_at = now_iso;
      })
]

-- The columns of the update, with the token's bump.
unfoldable pub apply_artifact_config : ArtifactConfigPatch → Loop → Loop
apply_artifact_config writes loop = record loop {
  artifact_dir = writes.artifact_dir;
  artifact_config_revision = writes.artifact_config_revision;
  artifact_sync_attempted_at = none;
  artifact_sync_succeeded_at = none;
  artifact_sync_error = none;
  updated_at = writes.updated_at;
  revision = loop.revision + 1;
}

pub data UpdateArtifactConfigResult : Type 0 where
  loop_not_found : UpdateArtifactConfigResult
  unchanged reconfigured : Loop → UpdateArtifactConfigResult
  refused : ArtifactConfigRejection → UpdateArtifactConfigResult

abbrev pub execute_config_plan :
    LoopId → Loop → ArtifactConfigPlan → Database → Settled UpdateArtifactConfigResult
execute_config_plan id resolved noop now = settled (unchanged resolved) now
execute_config_plan id resolved (rejected reason) now = settled (refused reason) now
execute_config_plan id resolved (changed writes) now =
    commit_loop now reconfigured
      (cas_loop id resolved.revision (apply_artifact_config writes) now.loops)

unfoldable pub update_artifact_config_once :
    Clock → LoopId → Option JsString → Database → Database → Settled UpdateArtifactConfigResult
update_artifact_config_once clock id dir seen now = elim (find_loop id seen.loops) [
  | none ↦ settled loop_not_found now
  | some resolved ↦
      execute_config_plan id resolved
        (plan_artifact_config_update (config_snapshot resolved) dir clock.iso) now
]

unfoldable pub update_artifact_config :
    Clock → LoopId → Option JsString → Moments → Retried UpdateArtifactConfigResult
unfolding update_artifact_config_once
update_artifact_config clock id dir m =
    with_guard_retry (update_artifact_config_once clock id dir) m

pub record ArtifactCurrentView : Type 0 where
  pub artifact_dir : Option JsString
  pub config_revision : ℕ
  pub manifest_revision : ℕ
  pub manifest_id : Option ManifestId
  pub manifest : Option ArtifactManifestRow
  pub stale : Bool

-- The row under the pointer, if any: the pointer has no foreign key.
abbrev pub pointed_manifest : Option ManifestId → Database → Option ArtifactManifestRow
pointed_manifest none db = none
pointed_manifest (some id) db = select_first (λ m. m.id == id) db.manifests

abbrev pub is_stale : Option ArtifactManifestRow → ℕ → Bool
is_stale none generation = false
is_stale (some m) generation = not (m.config_revision == generation)

abbrev pub view_of : Loop → Database → ArtifactCurrentView
view_of loop db =
    let manifest = pointed_manifest loop.artifact_manifest_id db in
    record {
      artifact_dir = loop.artifact_dir;
      config_revision = loop.artifact_config_revision;
      manifest_revision = loop.artifact_manifest_revision;
      manifest_id = loop.artifact_manifest_id;
      manifest = manifest;
      stale = is_stale manifest loop.artifact_config_revision;
    }

unfoldable pub read_current_artifact_view : Database → LoopId → Option ArtifactCurrentView
read_current_artifact_view db id = elim (find_loop id db.loops) [
  | none ↦ none
  | some loop ↦ some (view_of loop db)
]
