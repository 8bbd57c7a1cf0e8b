-- ===== src/Scenarios/Artifacts.antt =====
-- Manifests on two files, paths, and the binding of a snapshot.
use mathlib.Core.List.{Permᴰ}
use loop_platform_zhb.Base.{
  ◌≡◌, refl, ◌↔◌, JsString, js, Bool, true, false, Option, none, some, List, [], ◌∷◌, ◌++◌, map,
}
use loop_platform_zhb.Terminal.Capabilities.{Ascending}
use loop_platform_zhb.Artifact.{
  validate_artifact_path, is_never_sync_path, is_never_sync_directory_path,
}
use loop_platform_zhb.Artifact.Path.{IsRelativePath, validate_artifact_path_iff}
use loop_platform_zhb.Artifact.NeverSync.{is_never_sync_directory_path-spreads}
use loop_platform_zhb.Artifact.Manifest.{
  JsNumber, ArtifactManifestEntry, ManifestValidation, normalize_manifest_entries, sort_entries,
}
use loop_platform_zhb.Artifact.Manifest.Accepted.{IsManifest, normalize_manifest_entries_iff}
use loop_platform_zhb.Artifact.Manifest.Order.{
  normalize_manifest_entries-shuffled, normalize_manifest_entries-Sorted, path_of,
}
use loop_platform_zhb.Store.{Database}
use loop_platform_zhb.Store.Binding.{
  ArtifactAttribution, ArtifactBindingPlan, bind, plan_artifact_snapshot_binding, bind_artifact,
  bind_row,
}
use loop_platform_zhb.Store.Binding.Writes.{OnlyArtifacts, bind_artifact-OnlyArtifacts}
use loop_platform_zhb.Store.Binding.Laws.{Binds, plan_artifact_snapshot_binding_iff}
use loop_platform_zhb.Scenarios.{
  attributed, goal_loop, running_run, queued_run, sibling_run, manifest, platform, finish_report,
}

validate_artifact_path_iff_example :
    (validate_artifact_path (js "docs/a..b.md") ≡ none) ↔ IsRelativePath (js "docs/a..b.md")
validate_artifact_path_iff_example = validate_artifact_path_iff (js "docs/a..b.md")

git_is_never_sync : is_never_sync_directory_path (js ".GIT") ≡ true
unfolding is_never_sync_directory_path
    loop_platform_zhb.Artifact.matches_never_sync_directory_window
    loop_platform_zhb.Artifact.has_window loop_platform_zhb.Artifact.split
    loop_platform_zhb.Artifact.window_at loop_platform_zhb.Artifact.ascii_lower
    loop_platform_zhb.Artifact.segment_matches loop_platform_zhb.Artifact.at_star
    loop_platform_zhb.Base.str_eq
git_is_never_sync = refl

is_never_sync_directory_path-spreads_example :
    (is_never_sync_directory_path (js "lib" ++ b'/' ∷ js ".GIT") ≡ true)
    × (is_never_sync_path (js ".GIT" ++ b'/' ∷ js "config") ≡ true)
    × (is_never_sync_path (js "lib" ++ b'/' ∷ (js ".GIT" ++ b'/' ∷ js "config")) ≡ true)
is_never_sync_directory_path-spreads_example =
    is_never_sync_directory_path-spreads (js "lib") (js ".GIT") (js "config") git_is_never_sync

abbrev digest : JsString
digest = js "00112233445566778899aabbccddeeff00112233445566778899aabbccddeeff"

abbrev notes : ArtifactManifestEntry
notes = record { path = js "docs/notes.md"; hash = digest; size = JsNumber.whole 12 }

abbrev readme : ArtifactManifestEntry
readme = record { path = js "README"; hash = digest; size = JsNumber.whole 12 }

abbrev wire : List ArtifactManifestEntry
wire = notes ∷ readme ∷ []

abbrev sorted : List ArtifactManifestEntry
sorted = readme ∷ notes ∷ []

wire_accepted : normalize_manifest_entries wire ≡ ManifestValidation.ok sorted
unfolding normalize_manifest_entries loop_platform_zhb.Artifact.Manifest.scan_entries
    loop_platform_zhb.Artifact.Manifest.check_legal validate_artifact_path
    loop_platform_zhb.Base.str_eq loop_platform_zhb.Base.includes
    loop_platform_zhb.Terminal.has_unpaired_surrogate loop_platform_zhb.Artifact.starts_with
    loop_platform_zhb.Artifact.segment_failure loop_platform_zhb.Artifact.split
    loop_platform_zhb.Terminal.utf8_bytes_exceed loop_platform_zhb.Base.utf8_length
    is_never_sync_path loop_platform_zhb.Artifact.matches_never_sync_directory_window
    loop_platform_zhb.Artifact.has_window loop_platform_zhb.Artifact.window_at
    loop_platform_zhb.Artifact.ascii_lower loop_platform_zhb.Artifact.segment_matches
    loop_platform_zhb.Artifact.Manifest.check_seen loop_platform_zhb.Artifact.Manifest.check_size
    loop_platform_zhb.Artifact.Manifest.dir_prefixes
    loop_platform_zhb.Artifact.Manifest.insert_entry
    loop_platform_zhb.Artifact.Manifest.is_artifact_hash
    loop_platform_zhb.Artifact.Manifest.join_segment
    loop_platform_zhb.Artifact.Manifest.prefixes_from
    loop_platform_zhb.Artifact.Manifest.record_entry
    loop_platform_zhb.Artifact.Manifest.reject_entry loop_platform_zhb.Artifact.Manifest.seen_size
    loop_platform_zhb.Artifact.Manifest.size_differs sort_entries loop_platform_zhb.Artifact.at_star
    loop_platform_zhb.Artifact.basename loop_platform_zhb.Artifact.ends_with
    loop_platform_zhb.Artifact.push_unit loop_platform_zhb.Terminal.contains
    loop_platform_zhb.Terminal.str_lt
wire_accepted = refl

normalize_manifest_entries_iff_example :
    (normalize_manifest_entries wire ≡ ManifestValidation.ok sorted)
    ↔ ((sorted ≡ sort_entries wire) × IsManifest wire)
normalize_manifest_entries_iff_example = normalize_manifest_entries_iff wire sorted

normalize_manifest_entries-shuffled_example :
    normalize_manifest_entries sorted ≡ ManifestValidation.ok sorted
normalize_manifest_entries-shuffled_example =
    normalize_manifest_entries-shuffled wire sorted sorted (Permᴰ.swap refl refl) wire_accepted

normalize_manifest_entries-Sorted_example :
    Ascending (map path_of sorted)
    × Permᴰ wire sorted
    × (normalize_manifest_entries sorted ≡ ManifestValidation.ok sorted)
normalize_manifest_entries-Sorted_example =
    normalize_manifest_entries-Sorted wire sorted wire_accepted

abbrev trusted : ArtifactAttribution
trusted = record { namespace_id = 3; machine_id = 7 }

plan_artifact_snapshot_binding_iff_example :
    (plan_artifact_snapshot_binding running_run goal_loop
        (some manifest)
        (some 40)
        none
        none
        (some trusted)
      ≡ bind 40 4)
    ↔ Binds running_run goal_loop (some manifest) (some 40) none (some trusted) 40 4
plan_artifact_snapshot_binding_iff_example =
    plan_artifact_snapshot_binding_iff running_run goal_loop (some manifest) (some 40) none none
      (some trusted) 40 4

abbrev bound : Database
bound = record platform { runs = bind_row 40 running_run ∷ queued_run ∷ sibling_run ∷ [] }

binds :
    bind_artifact attributed finish_report running_run (some goal_loop) platform platform
    ≡ some bound
unfolding bind_artifact loop_platform_zhb.Store.Binding.apply_artifact_binding_plan
    loop_platform_zhb.Store.Binding.plan_report_binding plan_artifact_snapshot_binding
    loop_platform_zhb.Store.Binding.plan_snapshot loop_platform_zhb.Store.Binding.plan_verified
    loop_platform_zhb.Store.Binding.update_resolved loop_platform_zhb.Store.find_loop
binds = refl

bind_artifact-OnlyArtifacts_example : OnlyArtifacts finish_report running_run platform bound
bind_artifact-OnlyArtifacts_example =
    bind_artifact-OnlyArtifacts attributed finish_report running_run (some goal_loop) platform
      platform bound binds
