-- ===== src/Store/Configuration/View.antt =====
-- packages/server/src/artifact/config.ts: the retried change of the directory, and the view of the
-- loop's artifacts before and after it.
use loop_platform_zhb.Base.{
  ℕ, ◌+◌, ◌≤◌, ◌<◌, ◌≡◌, refl, sym, ap, subst, ◌∙◌, ◌⊎◌, inl, inr, JsString, Option, none, some,
  arith, is_some, Option-cases,
}
use loop_platform_zhb.Db.{LoopId, ManifestId, Loop, ArtifactManifestRow}
use loop_platform_zhb.Schedule.{revision_int32_max}
use loop_platform_zhb.Lifecycle.Snapshot.{IsValid}
use loop_platform_zhb.Store.{Database, Clock, find_loop, cas_loop, settled, result, Moments}
use loop_platform_zhb.Store.Occ.{Evolves, Bumps, cas_loop-lands, cas_loop-found}
use loop_platform_zhb.Store.Manage.Laws.{Kept, Kept-refl, Settled-inj, commit_loop-Kept}
use loop_platform_zhb.Store.Manage.Retry.{Interfered, retry-By}
use loop_platform_zhb.Store.Configuration.{
  ArtifactConfigPatch, ArtifactConfigPlan, noop, rejected, changed, UpdateArtifactConfigResult,
  loop_not_found, unchanged, reconfigured, refused, config_snapshot, apply_artifact_config,
  plan_artifact_config_update, execute_config_plan, update_artifact_config_once,
  update_artifact_config, ArtifactCurrentView, pointed_manifest, is_stale, view_of,
  read_current_artifact_view,
}
use loop_platform_zhb.Store.Configuration.Laws.{
  Effective, next_generation, plan_artifact_config_update_cases,
}

apply_artifact_config-Bumps : (writes : ArtifactConfigPatch) → Bumps (apply_artifact_config writes)
unfolding apply_artifact_config
apply_artifact_config-Bumps writes = record { same_id = λ l. refl; next = λ l. refl }

apply_artifact_config-IsValid :
    (writes : ArtifactConfigPatch) (l : Loop) → IsValid l → IsValid (apply_artifact_config writes l)
unfolding apply_artifact_config
apply_artifact_config-IsValid writes l v = ground arith

-- The row of the loop moves to its next generation with the directory.
pub record Reconfigured (clock : Clock) (id : LoopId) (dir : Option JsString) (l : Loop)
    (now db : Database) : Type 0 where
  pub old : Loop
  pub found : find_loop id now.loops ≡ some old
  pub effective : Effective (config_snapshot old) dir
  pub below : old.artifact_config_revision < revision_int32_max
  pub row : l ≡ apply_artifact_config (next_generation (config_snapshot old) dir clock.iso) old
  pub stored : find_loop id db.loops ≡ some l

abbrev pub Written :
    Clock → LoopId → Option JsString → UpdateArtifactConfigResult → Database → Database → Type 0
Written clock id dir loop_not_found now db = now ≡ db
Written clock id dir (unchanged l) now db = now ≡ db
Written clock id dir (refused reason) now db = now ≡ db
Written clock id dir (reconfigured l) now db = Reconfigured clock id dir l now db

-- What a settled change leaves: the rows of loops evolved and valid, the other tables as they were,
-- and the row that its answer tells of.
pub record Configured (clock : Clock) (id : LoopId) (dir : Option JsString)
    (r : UpdateArtifactConfigResult) (now db : Database) : Type 0 where
  pub kept : Kept now.loops db.loops
  pub others : db ≡ record now { loops = db.loops }
  pub written : Written clock id dir r now db

idle :
    (clock : Clock) (id : LoopId) (dir : Option JsString) (q r : UpdateArtifactConfigResult)
    (now db : Database)
    → Written clock id dir q now now
    → settled q now ≡ settled r db
    → Configured clock id dir r now db
idle clock id dir q r now db w h =
    let (same, same_db) = Settled-inj h in
    subst (Configured clock id dir r now) same_db (
      subst (λ x. Configured clock id dir x now now) same
        (record { kept = Kept-refl now.loops; others = refl; written = w }))

committed :
    (clock : Clock) (id : LoopId) (dir : Option JsString) (writes : ArtifactConfigPatch)
    (old : Loop) (seen now db : Database) (r : UpdateArtifactConfigResult)
    → Evolves seen.loops now.loops
    → find_loop id seen.loops ≡ some old
    → plan_artifact_config_update (config_snapshot old) dir clock.iso ≡ changed writes
    → execute_config_plan id old (changed writes) now ≡ settled r db
    → Configured clock id dir r now db
committed clock id dir writes old seen now db r ev s p h =
    let kept =
      commit_loop-Kept seen now now db id old (apply_artifact_config writes) reconfigured r ev s
        (apply_artifact_config-Bumps writes) (apply_artifact_config-IsValid writes old) h in
    elim (Option-cases (cas_loop id old.revision (apply_artifact_config writes) now.loops)) [
      | inl lost ↦ let k = rw lost at h in cc
      | inr ((new, rows), e) ↦
          let (is_new, same_db) = Settled-inj (rw e at h) in
          let (lands, row) =
            cas_loop-lands seen.loops now.loops id old (apply_artifact_config writes) new rows ev s
              e in
          let (effective, below, next) =
            (plan_artifact_config_update_cases (config_snapshot old) dir clock.iso writes).2.0 p in
          subst (λ d. Configured clock id dir r now d) same_db
            (subst (λ x. Configured clock id dir x now (record now { loops = rows })) is_new
              (record {
                kept = subst (λ d. Kept now.loops d.loops) (sym same_db) kept;
                others = refl;
                written = record {
                  old = old;
                  found = lands;
                  effective = effective;
                  below = below;
                  row = row ∙ ap (λ w. apply_artifact_config w old) next;
                  stored =
                      subst (λ x. find_loop id rows ≡ some x) (sym row)
                        (cas_loop-found id (apply_artifact_config writes) now.loops rows old new
                          (apply_artifact_config-Bumps writes) lands e);
                };
              }))
    ]

update_artifact_config_once-Configured :
    (clock : Clock) (id : LoopId) (dir : Option JsString) (seen now db : Database)
    (r : UpdateArtifactConfigResult)
    → Evolves seen.loops now.loops
    → update_artifact_config_once clock id dir seen now ≡ settled r db
    → Configured clock id dir r now db
unfolding update_artifact_config_once
update_artifact_config_once-Configured clock id dir seen now db r ev h =
    elim (Option-cases (find_loop id seen.loops)) [
      | inl missing ↦
          idle clock id dir loop_not_found r now db refl
            (rw (missing, update_artifact_config_once) at h)
      | inr (old, e) ↦
          go old e (plan_artifact_config_update (config_snapshot old) dir clock.iso) refl
            (rw (e, update_artifact_config_once) at h)
    ]
  where
    go :
        (old : Loop)
        → find_loop id seen.loops ≡ some old
        → (plan : ArtifactConfigPlan)
        → plan_artifact_config_update (config_snapshot old) dir clock.iso ≡ plan
        → execute_config_plan id old plan now ≡ settled r db
        → Configured clock id dir r now db
    go old e noop p w = idle clock id dir (unchanged old) r now db refl w
    go old e (rejected reason) p w = idle clock id dir (refused reason) r now db refl w
    go old e (changed writes) p w = committed clock id dir writes old seen now db r ev e p w

-- A change of the directory with its retry that settles, under token-increasing interference, keeps
-- every loop valid and every row unchanged or with a greater token, and leaves the other tables;
-- where it reports a change, the loop's row had another directory and a generation below the int32
-- ceiling, the command's directory is allowed and the stored row is the next generation with it,
-- and otherwise nothing is written.
pub update_artifact_config-Configured :
    (clock : Clock) (id : LoopId) (dir : Option JsString) (m : Moments)
    (r : UpdateArtifactConfigResult) (db : Database)
    → Interfered m
    → update_artifact_config clock id dir m ≡ result r db
    → Configured clock id dir r m.now db ⊎ Configured clock id dir r m.now_again db
unfolding update_artifact_config
update_artifact_config-Configured clock id dir m r db i h =
    retry-By (Configured clock id dir) (update_artifact_config_once clock id dir) m r db
      (λ seen now after q. update_artifact_config_once-Configured clock id dir seen now after q) i h

-- No loop points at a manifest of a generation that is still to come.
abbrev pub NoFuture : Database → Type 0
NoFuture db =
    (id : LoopId) (l : Loop) (m : ArtifactManifestRow)
    → find_loop id db.loops ≡ some l
    → pointed_manifest l.artifact_manifest_id db ≡ some m
    → m.config_revision ≤ l.artifact_config_revision

-- The view of a loop before and after its directory has changed.
pub record Stale (id : LoopId) (dir : Option JsString) (now db : Database) : Type 0 where
  pub before : ArtifactCurrentView
  pub after : ArtifactCurrentView
  pub read_before : read_current_artifact_view now id ≡ some before
  pub read_after : read_current_artifact_view db id ≡ some after
  pub directory : after.artifact_dir ≡ dir
  pub generation : after.config_revision ≡ before.config_revision + 1
  pub same_pointer : after.manifest_id ≡ before.manifest_id
  pub same_number : after.manifest_revision ≡ before.manifest_revision
  pub same_manifest : after.manifest ≡ before.manifest
  pub stale : after.stale ≡ is_some after.manifest

outdated :
    (o : Option ArtifactManifestRow) (generation : ℕ)
    → ((m : ArtifactManifestRow) → o ≡ some m → m.config_revision ≤ generation)
    → is_stale o (generation + 1) ≡ is_some o
outdated none generation h = refl
outdated (some m) generation h = let le = h m refl in ground arith

pointed_ext :
    (db now : Database) (a b : Option ManifestId)
    → db.manifests ≡ now.manifests
    → a ≡ b
    → pointed_manifest a db ≡ pointed_manifest b now
pointed_ext db now none none h e = refl
pointed_ext db now none (some b) h e = cc
pointed_ext db now (some a) none h e = cc
pointed_ext db now (some a) (some b) h e = ground (arith, h, e)

Configured-Stale :
    (clock : Clock) (id : LoopId) (dir : Option JsString) (l : Loop) (now db : Database)
    → NoFuture now
    → Configured clock id dir (reconfigured l) now db
    → Stale id dir now db
unfolding read_current_artifact_view apply_artifact_config
Configured-Stale clock id dir l now db past c =
    let w = c.written in
    let rows : db.manifests ≡ now.manifests = ap (λ d. d.manifests) c.others in
    let same : pointed_manifest l.artifact_manifest_id db
        ≡ pointed_manifest w.old.artifact_manifest_id now =
      pointed_ext db now l.artifact_manifest_id w.old.artifact_manifest_id rows
        (ap (λ x. x.artifact_manifest_id) w.row) in
    let next : l.artifact_config_revision ≡ w.old.artifact_config_revision + 1 =
      ap (λ x. x.artifact_config_revision) w.row in
    record {
      before = view_of w.old now;
      after = view_of l db;
      read_before = rw (w.found, read_current_artifact_view) refl;
      read_after = rw (w.stored, read_current_artifact_view) refl;
      directory = ap (λ x. x.artifact_dir) w.row;
      generation = next;
      same_pointer = ap (λ x. x.artifact_manifest_id) w.row;
      same_number = ap (λ x. x.artifact_manifest_revision) w.row;
      same_manifest = same;
      stale =
          rw (same, next)
            (outdated (pointed_manifest w.old.artifact_manifest_id now)
              w.old.artifact_config_revision (λ x. past id w.old x w.found));
    }

-- Where a change of the directory with its retry reports a changed row, under token-increasing
-- interference and with no pointer at a manifest of a later generation than its loop's: the view
-- then has the directory and the next generation, shows the manifest that it showed before, and
-- marks it as stale.
pub update_artifact_config-Stale :
    (clock : Clock) (id : LoopId) (dir : Option JsString) (m : Moments) (l : Loop) (db : Database)
    → Interfered m
    → NoFuture m.now
    → NoFuture m.now_again
    → update_artifact_config clock id dir m ≡ result (reconfigured l) db
    → Stale id dir m.now db ⊎ Stale id dir m.now_again db
update_artifact_config-Stale clock id dir m l db i past past' h =
    elim (update_artifact_config-Configured clock id dir m (reconfigured l) db i h) [
      | inl first ↦ inl (Configured-Stale clock id dir l m.now db past first)
      | inr second ↦ inr (Configured-Stale clock id dir l m.now_again db past' second)
    ]
