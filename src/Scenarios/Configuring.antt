-- ===== src/Scenarios/Configuring.antt =====
-- A loop whose artifact directory is set.
use loop_platform_zhb.Base.{
  ◌+◌, ◌≤◌, ◌<◌, ◌≡◌, refl, ap, ◌⊎◌, inl, inr, ◌↔◌, JsString, js, Option, none, some, List, [], ◌∷◌,
  arith, ◌==◌, Bool-cases,
}
use loop_platform_zhb.Db.{Loop, ArtifactManifestRow}
use loop_platform_zhb.Schedule.{revision_int32_max}
use loop_platform_zhb.Store.{Database, Moments, find_loop, result}
use loop_platform_zhb.Store.Configuration.{
  ArtifactConfigSnapshot, ArtifactConfigPatch, ArtifactConfigPlan, noop, rejected, changed,
  config_revision_exhausted, artifact_dir_relative_without_workdir, reconfigured, refused,
  pointed_manifest, config_snapshot, plan_artifact_config_update, apply_artifact_config,
  update_artifact_config,
}
use loop_platform_zhb.Store.Configuration.Laws.{
  Allowed, Effective, next_generation, plan_artifact_config_update_cases,
}
use loop_platform_zhb.Store.Configuration.View.{
  Configured, NoFuture, Stale, update_artifact_config-Configured, update_artifact_config-Stale,
}
use loop_platform_zhb.Scenarios.{
  calm-Interfered, today, clock, goal_loop, idle_loop, manifest, platform, calm,
}

abbrev out : JsString
out = js "out"

abbrev next : ArtifactConfigPatch
next = next_generation (config_snapshot goal_loop) (some out) today

abbrev out_loop : Loop
out_loop = apply_artifact_config next goal_loop

abbrev moved : Database
moved = record platform { loops = out_loop ∷ idle_loop ∷ [] }

moves :
    update_artifact_config clock 1 (some out) (calm platform) ≡ result (reconfigured out_loop) moved
unfolding update_artifact_config loop_platform_zhb.Store.with_guard_retry find_loop
    plan_artifact_config_update loop_platform_zhb.Store.Configuration.dir_failure
    loop_platform_zhb.Base.str_eq loop_platform_zhb.Base.includes
    loop_platform_zhb.Artifact.starts_with loop_platform_zhb.Store.cas_loop
    loop_platform_zhb.Store.update_loop
moves = refl

-- Without a working directory, a relative directory is refused.
abbrev homeless : Database
homeless = record platform { loops = record goal_loop { workdir = none } ∷ [] }

refuses :
    update_artifact_config clock 1 (some out) (calm homeless)
    ≡ result (refused artifact_dir_relative_without_workdir) homeless
unfolding update_artifact_config loop_platform_zhb.Store.with_guard_retry find_loop
    plan_artifact_config_update loop_platform_zhb.Store.Configuration.dir_failure
    loop_platform_zhb.Base.str_eq loop_platform_zhb.Base.includes
    loop_platform_zhb.Artifact.starts_with
refuses = refl

plan_artifact_config_update_cases_example :
    ((plan_artifact_config_update (config_snapshot goal_loop) (some out) today ≡ noop)
      ↔ (Allowed goal_loop.workdir (some out) × (some out ≡ goal_loop.artifact_dir)))
    × ((plan_artifact_config_update (config_snapshot goal_loop) (some out) today
          ≡ rejected config_revision_exhausted)
        ↔ (Effective (config_snapshot goal_loop) (some out)
            × (revision_int32_max ≤ goal_loop.artifact_config_revision)))
    × ((plan_artifact_config_update (config_snapshot goal_loop) (some out) today ≡ changed next) ↔ (
        Effective (config_snapshot goal_loop) (some out)
        × (goal_loop.artifact_config_revision < revision_int32_max)
        × (next ≡ next_generation (config_snapshot goal_loop) (some out) today)))
plan_artifact_config_update_cases_example =
    plan_artifact_config_update_cases (config_snapshot goal_loop) (some out) today next

update_artifact_config-Configured_example :
    Configured clock 1 (some out) (reconfigured out_loop) platform moved
    ⊎ Configured clock 1 (some out) (reconfigured out_loop) platform moved
update_artifact_config-Configured_example =
    update_artifact_config-Configured clock 1 (some out) (calm platform) (reconfigured out_loop)
      moved (calm-Interfered platform) moves

at_generation_four :
    (l : Loop) (m : ArtifactManifestRow)
    → l.artifact_manifest_id ≡ some 40
    → l.artifact_config_revision ≡ 4
    → pointed_manifest l.artifact_manifest_id platform ≡ some m
    → m.config_revision ≤ l.artifact_config_revision
at_generation_four l m p g k =
    let found : some manifest ≡ some m = rw p at k in
    let same : manifest ≡ m = cc in
    let four : 4 ≡ m.config_revision = ap (λ x. x.config_revision) same in omega (arith, four, g)

platform-NoFuture : NoFuture platform
unfolding find_loop
platform-NoFuture id l m h k = elim (Bool-cases (1 == id)) [
  | inl first ↦ at_generation_four l m (ground arith) (ground arith) k
  | inr other ↦ at_generation_four l m (ground arith) (ground arith) k
]

update_artifact_config-Stale_example :
    Stale 1 (some out) platform moved ⊎ Stale 1 (some out) platform moved
update_artifact_config-Stale_example =
    update_artifact_config-Stale clock 1 (some out) (calm platform) out_loop moved
      (calm-Interfered platform) platform-NoFuture platform-NoFuture moves
