-- ===== src/Store/Binding.antt =====
-- packages/server/src/artifact/binding-plan.ts and its use in store/report.ts: the plan that binds a
-- report's artifact snapshot to the run, and its guarded writes. Attribution of a machine to a
-- namespace is a parameter.
pub mod Laws
pub mod Writes
use loop_platform_zhb.Base.{
  ℕ, JsString, js, Bool, true, false, ◌&&◌, ◌||◌, not, Option, none, some, List, ◌==◌,
  if◌then◌else◌, any, is_some,
}
use loop_platform_zhb.Db.{
  LoopId, MachineId, ManifestId, NamespaceId, Loop, Run, ArtifactManifestRow, phase_eq,
}
use loop_platform_zhb.WriteSet.{ReportRequest, clean_error}
use loop_platform_zhb.Store.{Database, find_loop, select_first, update_where}

-- `attribution_missing` is `none`.
pub record ArtifactAttribution : Type 0 where
  pub namespace_id : NamespaceId
  pub machine_id : MachineId

abbrev pub Attribution : Type 0
Attribution = Option ArtifactAttribution

-- The optional dependency of the report transaction.
abbrev pub ArtifactBinding : Type 0
ArtifactBinding = Option (MachineId → Database → Attribution)

pub data ArtifactBindingRejection : Type 0 where
  snapshot_not_committed cross_namespace cross_machine cross_loop : ArtifactBindingRejection
  stale_config_generation ambiguous_artifact_report attribution_missing : ArtifactBindingRejection

abbrev pub rejection_text : ArtifactBindingRejection → JsString
rejection_text snapshot_not_committed = js "snapshot_not_committed"
rejection_text cross_namespace = js "cross_namespace"
rejection_text cross_machine = js "cross_machine"
rejection_text cross_loop = js "cross_loop"
rejection_text stale_config_generation = js "stale_config_generation"
rejection_text ambiguous_artifact_report = js "ambiguous_artifact_report"
rejection_text attribution_missing = js "attribution_missing"

-- `bind` carries the verified id and the generation that its guard expects.
pub data ArtifactBindingPlan : Type 0 where
  skip : ArtifactBindingPlan
  bind : ManifestId → ℕ → ArtifactBindingPlan
  record_error : JsString → ArtifactBindingPlan

abbrev reject : ArtifactBindingRejection → ArtifactBindingPlan
reject reason = record_error (rejection_text reason)

-- The checks of a committed manifest against run, loop and attribution, in their fixed order.
unfoldable pub plan_verified :
    Run → Loop → ArtifactManifestRow → ArtifactAttribution → ArtifactBindingPlan
plan_verified run loop manifest attribution =
    if not (manifest.namespace_id == attribution.namespace_id)
    then reject cross_namespace
    else if not (manifest.machine_id == run.machine_id)
        || not (manifest.machine_id == attribution.machine_id)
        || not (loop.machine_id == run.machine_id)
    then reject cross_machine
    else if not (manifest.loop_id == run.loop_id) || not (run.loop_id == loop.id)
    then reject cross_loop
    else if not (manifest.config_revision == loop.artifact_config_revision)
    then reject stale_config_generation
    else bind manifest.id loop.artifact_config_revision

unfoldable pub plan_snapshot :
    Run → Loop → Option ArtifactManifestRow → ManifestId → Attribution → ArtifactBindingPlan
plan_snapshot run loop manifest snapshot_id none = reject attribution_missing
plan_snapshot run loop none snapshot_id (some attribution) = reject snapshot_not_committed
plan_snapshot run loop (some manifest) snapshot_id (some attribution) =
    if not (manifest.id == snapshot_id)
    then reject snapshot_not_committed
    else plan_verified run loop manifest attribution

-- What a report that carries the error alone records: its cleaned text, where there is any.
abbrev pub plan_error : Option JsString → ArtifactBindingPlan
plan_error none = skip
plan_error (some text) = record_error text

unfoldable pub plan_artifact_snapshot_binding :
    Run
    → Loop
    → Option ArtifactManifestRow
    → Option ManifestId
    → Option JsString
    → Option JsString
    → Attribution
    → ArtifactBindingPlan
plan_artifact_snapshot_binding run loop manifest none none sync_error_text attribution = skip
plan_artifact_snapshot_binding run loop manifest (some id) (some error) sync_error_text
      attribution =
    reject ambiguous_artifact_report
plan_artifact_snapshot_binding run loop manifest none (some error) sync_error_text attribution =
    plan_error sync_error_text
plan_artifact_snapshot_binding run loop manifest (some id) none sync_error_text attribution =
    plan_snapshot run loop manifest id attribution

-- `.set(plan.runWrites)`: a bind leaves the error column as it is.
abbrev pub bind_row : ManifestId → Run → Run
bind_row id run = record run { artifact_snapshot_id = some id }

abbrev pub error_row : JsString → Run → Run
error_row reason run = record run { artifact_snapshot_id = none; artifact_sync_error = some reason }

-- `eq(runs.id, run.id), eq(runs.phase, run.phase)`
abbrev pub resolved : Run → Run → Bool
resolved run row = row.id == run.id && phase_eq row.phase run.phase

-- The loop's generation, read again in the statement itself.
abbrev pub generation_is : ℕ → Option Loop → Bool
generation_is generation none = false
generation_is generation (some loop) = loop.artifact_config_revision == generation

-- The guarded update; `none` where no row matches.
unfoldable pub update_resolved : Run → (Run → Run) → Bool → Database → Option Database
update_resolved run write guard db =
    if guard && any (resolved run) db.runs
    then some (record db { runs = update_where (resolved run) write db.runs })
    else none

unfoldable pub apply_artifact_binding_plan : Run → ArtifactBindingPlan → Database → Option Database
apply_artifact_binding_plan run skip db = some db
apply_artifact_binding_plan run (bind id generation) db =
    update_resolved run (bind_row id) (generation_is generation (find_loop run.loop_id db.loops)) db
apply_artifact_binding_plan run (record_error reason) db =
    update_resolved run (error_row reason) true db

-- `readArtifactSnapshot` of artifact/sync.ts
abbrev pub read_artifact_snapshot :
    List ArtifactManifestRow → ManifestId → Option ArtifactManifestRow
read_artifact_snapshot manifests id = select_first (λ m. m.id == id) manifests

-- The manifest that the caller looks up: none for an ambiguous report or one without a snapshot.
abbrev pub carried_manifest :
    List ArtifactManifestRow → Option ManifestId → Option JsString → Option ArtifactManifestRow
carried_manifest manifests none error = none
carried_manifest manifests (some id) (some error) = none
carried_manifest manifests (some id) none = read_artifact_snapshot manifests id

-- The plan of a report for its run and loop, from the snapshot that was read.
unfoldable pub plan_report_binding :
    Attribution → ReportRequest → Run → Loop → Database → ArtifactBindingPlan
plan_report_binding attribution body run loop seen =
    plan_artifact_snapshot_binding run loop
      (carried_manifest seen.manifests body.artifact_snapshot_id body.artifact_sync_error)
      body.artifact_snapshot_id body.artifact_sync_error (clean_error body.artifact_sync_error)
      attribution

-- The binding step of the report transaction: not without the dependency, nor without a loop.
unfoldable pub bind_artifact :
    ArtifactBinding → ReportRequest → Run → Option Loop → Database → Database → Option Database
bind_artifact none body run loop seen now = some now
bind_artifact (some resolve) body run none seen now = some now
bind_artifact (some resolve) body run (some loop) seen now =
    if is_some body.artifact_snapshot_id || is_some body.artifact_sync_error
    then apply_artifact_binding_plan run
        (plan_report_binding (resolve run.machine_id seen) body run loop seen) now
    else some now
