-- ===== src/Store/Configuration/Laws.antt =====
-- packages/server/src/artifact/config.ts: when a change of the directory is written, and what it
-- writes.
use loop_platform_zhb.Base.{
  ◌+◌, ◌≤◌, ◌<◌, ◌≡◌, refl, ◌≢◌, ◌⊎◌, inl, inr, ◌↔◌, JsString, js, true, false, Option, none, some,
  [], arith, All, str_eq_iff, Bool-cases, Option-cases,
}
use loop_platform_zhb.Base.Trim.{includes-eq-false_iff}
use loop_platform_zhb.Artifact.{starts_with}
use loop_platform_zhb.Db.{IsoTime}
use loop_platform_zhb.Schedule.{revision_int32_max, opt_str_eq}
use loop_platform_zhb.Schedule.Laws.{opt_str_eq_iff}
use loop_platform_zhb.Store.Configuration.{
  ArtifactConfigSnapshot, ArtifactConfigPatch, noop, rejected, changed, config_revision_exhausted,
  no_workdir, dir_failure, plan_artifact_config_update,
}

abbrev HasWorkdir : Option JsString → Type 0
HasWorkdir workdir = (w : JsString) × (workdir ≡ some w) × (w ≢ [])

-- A text that may be a directory: absolute, or relative to a working directory.
pub record IsDirectory (workdir : Option JsString) (dir : JsString) : Type 0 where
  pub named : dir ≢ []
  pub no_nul : All (λ c. c ≢ 0) dir
  pub rooted : (starts_with (js "/") dir ≡ true) ⊎ HasWorkdir workdir

abbrev pub Allowed : Option JsString → Option JsString → Type 0
Allowed workdir none = Unit
Allowed workdir (some dir) = IsDirectory workdir dir

has_workdir : (workdir : Option JsString) → (no_workdir workdir ≡ false) ↔ HasWorkdir workdir
has_workdir none = (λ h. cc, λ (w, e, n). cc)
has_workdir (some w) =
    (λ h. (w, refl, ground (arith, str_eq_iff w [])), λ (v, e, n). ground (arith, str_eq_iff w []))

dir_failure_iff :
    (workdir dir : Option JsString) → (dir_failure workdir dir ≡ none) ↔ Allowed workdir dir
unfolding dir_failure
dir_failure_iff workdir none = (λ h. tt, λ h. refl)
dir_failure_iff workdir (some dir) = (sound, complete)
  where
    sound : dir_failure workdir (some dir) ≡ none → IsDirectory workdir dir
    sound h = record {
      named = ground (arith, str_eq_iff dir []);
      no_nul = (includes-eq-false_iff dir 0).0 (ground arith);
      rooted = elim (Bool-cases (starts_with (js "/") dir)) [
        | inl absolute ↦ inl absolute
        | inr relative ↦ inr ((has_workdir workdir).0 (ground arith))
      ];
    }

    complete : IsDirectory workdir dir → dir_failure workdir (some dir) ≡ none
    complete v = elim v.rooted [
      | inl absolute ↦
          ground (arith, str_eq_iff dir [], v.named, (includes-eq-false_iff dir 0).1 v.no_nul)
      | inr based ↦ ground (
        arith,
        str_eq_iff dir [],
        v.named,
        (includes-eq-false_iff dir 0).1 v.no_nul,
        (has_workdir workdir).1 based,
      )
    ]

-- A command that names another directory that is allowed.
abbrev pub Effective : ArtifactConfigSnapshot → Option JsString → Type 0
Effective snapshot dir = Allowed snapshot.workdir dir × (dir ≢ snapshot.artifact_dir)

-- The next generation with the directory.
abbrev pub next_generation :
    ArtifactConfigSnapshot → Option JsString → IsoTime → ArtifactConfigPatch
next_generation snapshot dir now_iso = record {
  artifact_dir = dir;
  artifact_config_revision = snapshot.artifact_config_revision + 1;
  updated_at = now_iso;
}

dir_failure-inexhaustible :
    (workdir dir : Option JsString) → dir_failure workdir dir ≢ some config_revision_exhausted
unfolding dir_failure
dir_failure-inexhaustible workdir none h = cc
dir_failure-inexhaustible workdir (some d) h = ground arith

module _ (snapshot : ArtifactConfigSnapshot) (dir : Option JsString) (now_iso : IsoTime) where
  -- The plan is a no-op exactly where the directory is allowed and is the stored one, exhausted
  -- exactly where it is allowed and another and the generation is at the int32 ceiling, and a
  -- change exactly where it is allowed and another below the ceiling; the change is the next
  -- generation.
  pub plan_artifact_config_update_cases :
      (writes : ArtifactConfigPatch)
      → ((plan_artifact_config_update snapshot dir now_iso ≡ noop)
          ↔ (Allowed snapshot.workdir dir × (dir ≡ snapshot.artifact_dir)))
        × ((plan_artifact_config_update snapshot dir now_iso ≡ rejected config_revision_exhausted)
            ↔ (Effective snapshot dir × (revision_int32_max ≤ snapshot.artifact_config_revision)))
        × ((plan_artifact_config_update snapshot dir now_iso ≡ changed writes) ↔ (
            Effective snapshot dir
            × (snapshot.artifact_config_revision < revision_int32_max)
            × (writes ≡ next_generation snapshot dir now_iso)))
  unfolding plan_artifact_config_update
  plan_artifact_config_update_cases writes =
      elim (Option-cases (dir_failure snapshot.workdir dir)) [
        | inl fine ↦ (ground (arith, a, same), ground (arith, a, same), ground (arith, a, same))
        | inr (reason, bad) ↦ (
          ground (arith, a, bad),
          ground (arith, a, bad, dir_failure-inexhaustible snapshot.workdir dir),
          ground (arith, a, bad),
        )
      ]
    where
      a : (dir_failure snapshot.workdir dir ≡ none) ↔ Allowed snapshot.workdir dir
      a = dir_failure_iff snapshot.workdir dir

      same : (opt_str_eq dir snapshot.artifact_dir ≡ true) ↔ (dir ≡ snapshot.artifact_dir)
      same = opt_str_eq_iff dir snapshot.artifact_dir
