-- ===== src/Store/Binding/Laws.antt =====
-- packages/server/src/artifact/binding-plan.ts: the chain behind a binding.
use loop_platform_zhb.Base.{
  ℕ, ◌≡◌, refl, sym, ap, ◌∙◌, ◌↔◌, inl, inr, JsString, true, Option, none, some, arith, ◌==◌,
  ==_iff, Bool-cases,
}
use loop_platform_zhb.Db.{ManifestId, Loop, Run, ArtifactManifestRow}
use loop_platform_zhb.Store.Binding.{
  ArtifactAttribution, Attribution, bind, plan_verified, plan_snapshot,
  plan_artifact_snapshot_binding,
}

-- The chain of a verified snapshot.
pub record Verified (run : Run) (loop : Loop) (m : ArtifactManifestRow) (a : ArtifactAttribution)
    : Type 0 where
  pub namespace : m.namespace_id ≡ a.namespace_id
  pub run_machine : m.machine_id ≡ run.machine_id
  pub trusted_machine : m.machine_id ≡ a.machine_id
  pub loop_machine : loop.machine_id ≡ run.machine_id
  pub run_loop : m.loop_id ≡ run.loop_id
  pub loop_id : run.loop_id ≡ loop.id
  pub generation : m.config_revision ≡ loop.artifact_config_revision

plan_verified_iff :
    (run : Run) (loop : Loop) (m : ArtifactManifestRow) (a : ArtifactAttribution) (id : ManifestId)
    (generation : ℕ)
    → (plan_verified run loop m a ≡ bind id generation)
      ↔ (Verified run loop m a × (id ≡ m.id) × (generation ≡ loop.artifact_config_revision))
unfolding plan_verified
plan_verified_iff run loop m a id generation = (
  λ h. (
    record {
      namespace = ground arith;
      run_machine = ground arith;
      trusted_machine = ground arith;
      loop_machine = ground arith;
      run_loop = ground arith;
      loop_id = ground arith;
      generation = ground arith;
    },
    ground arith,
    ground arith,
  ),
  λ (v, i, g). ground (
    arith, v.namespace, v.run_machine, v.trusted_machine, v.loop_machine, v.run_loop, v.loop_id,
    v.generation, i, g,
  ),
)

-- Why a plan binds: the report carries the snapshot alone, and the manifest read is that snapshot.
pub record Binds (run : Run) (loop : Loop) (manifest : Option ArtifactManifestRow)
    (snapshot_id : Option ManifestId) (sync_error : Option JsString) (attribution : Attribution)
    (id : ManifestId) (generation : ℕ) : Type 0 where
  pub row : ArtifactManifestRow
  pub trusted : ArtifactAttribution
  pub carried : snapshot_id ≡ some id
  pub no_error : sync_error ≡ none
  pub read : manifest ≡ some row
  pub attributed : attribution ≡ some trusted
  pub same_id : row.id ≡ id
  pub verified : Verified run loop row trusted
  pub current : generation ≡ loop.artifact_config_revision

pub Binds-sound :
    (run : Run) (loop : Loop) (o : Option ArtifactManifestRow) (s : Option ManifestId)
    (e text : Option JsString) (a : Attribution) (id : ManifestId) (generation : ℕ)
    → plan_artifact_snapshot_binding run loop o s e text a ≡ bind id generation
    → Binds run loop o s e a id generation
unfolding plan_artifact_snapshot_binding plan_snapshot
Binds-sound run loop o none none text a id generation h = cc
Binds-sound run loop o (some s) (some e) text a id generation h = cc
Binds-sound run loop o none (some e) none a id generation h = cc
Binds-sound run loop o none (some e) (some text) a id generation h = cc
Binds-sound run loop o (some s) none text none id generation h = cc
Binds-sound run loop none (some s) none text (some a) id generation h = cc
Binds-sound run loop (some m) (some s) none text (some a) id generation h =
    elim (Bool-cases (m.id == s)) [
      | inr other ↦ let k = rw other at h in cc
      | inl same ↦
          let (v, i, g) = (plan_verified_iff run loop m a id generation).0 (rw same at h) in
          let at : m.id ≡ s = (==_iff m.id s).0 same in
          record {
            row = m;
            trusted = a;
            carried = ap some (sym at ∙ sym i);
            no_error = refl;
            read = refl;
            attributed = refl;
            same_id = sym i;
            verified = v;
            current = g;
          }
    ]

Binds-complete :
    (run : Run) (loop : Loop) (o : Option ArtifactManifestRow) (s : Option ManifestId)
    (e text : Option JsString) (a : Attribution) (id : ManifestId) (generation : ℕ)
    → Binds run loop o s e a id generation
    → plan_artifact_snapshot_binding run loop o s e text a ≡ bind id generation
unfolding plan_artifact_snapshot_binding plan_snapshot
Binds-complete run loop o s e text a id generation b =
    let planned =
      (plan_verified_iff run loop b.row b.trusted id generation).1
        (b.verified, sym b.same_id, b.current) in
    let same : (b.row.id == id) ≡ true = (==_iff b.row.id id).1 b.same_id in
    rw (b.carried, b.no_error, b.read, b.attributed, same) planned

-- The plan binds a snapshot exactly when the report carries it without a sync error, its
-- attribution is known, the manifest read is that snapshot, and manifest, run, loop and attribution
-- agree on namespace, machine, loop and configuration generation; the guard is that generation.
pub plan_artifact_snapshot_binding_iff :
    (run : Run) (loop : Loop) (manifest : Option ArtifactManifestRow)
    (snapshot_id : Option ManifestId) (sync_error sync_error_text : Option JsString)
    (attribution : Attribution) (id : ManifestId) (generation : ℕ)
    → (plan_artifact_snapshot_binding run loop manifest snapshot_id sync_error sync_error_text
          attribution
        ≡ bind id generation)
      ↔ Binds run loop manifest snapshot_id sync_error attribution id generation
plan_artifact_snapshot_binding_iff run loop manifest s e text a id generation = (
  Binds-sound run loop manifest s e text a id generation,
  Binds-complete run loop manifest s e text a id generation,
)
