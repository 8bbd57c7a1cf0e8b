-- ===== src/Artifact.antt =====
-- packages/protocol/src/artifact-policy.ts: the rules on paths that daemon and server both apply to
-- a manifest: the canonical relative path and the never-sync tables.
pub mod Path
pub mod NeverSync
pub mod Manifest
pub mod Prefixes
use loop_platform_zhb.Base.{
  ℕ, ◌+◌, JsString, js, Bool, true, false, ◌&&◌, ◌||◌, Option, none, some, List, [], ◌∷◌, ◌++◌, map,
  any, length, leb, ◌==◌, if◌then◌else◌, str_eq, includes,
}
use loop_platform_zhb.Terminal.{utf8_bytes_exceed, has_unpaired_surrogate, contains}

abbrev pub artifact_sync_v1_capability : JsString
artifact_sync_v1_capability = js "artifact-sync-v1"

-- `capabilities?.includes(…) ?? false`
unfoldable pub has_artifact_sync_v1 : Option (List JsString) → Bool
has_artifact_sync_v1 none = false
has_artifact_sync_v1 (some capabilities) = contains capabilities artifact_sync_v1_capability

abbrev pub artifact_path_max_utf8_bytes : ℕ
artifact_path_max_utf8_bytes = 1024

abbrev pub never_sync_directory_rules : List JsString
never_sync_directory_rules = map js (
    ".git" ∷ ".hg" ∷ ".svn" ∷ "node_modules" ∷ ".worktrees" ∷ ".venv" ∷ "venv" ∷ ".yarn"
    ∷ ".pnpm-store" ∷ ".cache" ∷ ".next" ∷ ".nuxt" ∷ ".svelte-kit" ∷ ".turbo" ∷ ".parcel-cache"
    ∷ ".gradle" ∷ "__pycache__" ∷ ".pytest_cache" ∷ ".mypy_cache" ∷ ".ruff_cache" ∷ ".tox"
    ∷ ".loopzhb" ∷ ".loopany" ∷ ".claude" ∷ ".codex" ∷ ".ssh" ∷ ".aws" ∷ ".azure" ∷ ".kube"
    ∷ ".gnupg" ∷ ".config/gcloud" ∷ "loopzhb-control-*" ∷ "loopzhb-runs-*" ∷ "lzc-*" ∷ [])

abbrev pub never_sync_file_rules : List JsString
never_sync_file_rules = map js (
    ".DS_Store" ∷ ".env" ∷ ".env.*" ∷ ".npmrc" ∷ ".netrc" ∷ ".pypirc" ∷ "credentials"
    ∷ "credentials.json" ∷ "*.pem" ∷ "*.key" ∷ "id_rsa*" ∷ "id_ed25519*" ∷ [])

-- `value.replace(/[A-Z]/g, …)`
abbrev pub lower_unit : ℕ → ℕ
lower_unit c = if leb 65 c && leb c 90 then c + 32 else c

unfoldable pub ascii_lower : JsString → JsString
ascii_lower [] = []
ascii_lower (c ∷ s) = lower_unit c ∷ ascii_lower s

-- `s.split(c)` for a text of one code unit
unfoldable pub push_unit : ℕ → List JsString → List JsString
push_unit d [] = (d ∷ []) ∷ []
push_unit d (s ∷ rest) = (d ∷ s) ∷ rest

unfoldable pub split : ℕ → JsString → List JsString
unfolding push_unit
split c [] = [] ∷ []
split c (d ∷ s) = let rest = split c s in if d == c then [] ∷ rest else push_unit d rest

unfoldable pub starts_with : JsString → JsString → Bool
starts_with [] s = true
starts_with (c ∷ p) [] = false
starts_with (c ∷ p) (d ∷ s) = c == d && starts_with p s

unfoldable pub ends_with : JsString → JsString → Bool
ends_with p [] = str_eq p []
ends_with p (d ∷ s) = str_eq p (d ∷ s) || ends_with p s

-- The texts before and after the first `*`, where there is one.
unfoldable pub at_star : JsString → Option (JsString × JsString)
at_star [] = none
at_star (c ∷ s) = elim (at_star s) [
  | none ↦ if c == b'*' then some ([], s) else none
  | some (head, tail) ↦ if c == b'*' then some ([], s) else some (c ∷ head, tail)
]

unfoldable pub segment_matches : JsString → JsString → Bool
segment_matches rule segment = elim (at_star rule) [
  | none ↦ str_eq rule segment
  | some (head, tail) ↦
      leb (length head + length tail) (length segment)
      && starts_with head segment
      && ends_with tail segment
]

-- the inner loop of `matchesNeverSyncDirectoryWindow`, at one start
unfoldable pub window_at : List JsString → List JsString → Bool
window_at [] segments = true
window_at (r ∷ rule) [] = false
window_at (r ∷ rule) (s ∷ segments) = segment_matches r s && window_at rule segments

-- its loop over the starts
unfoldable pub has_window : List JsString → List JsString → Bool
has_window rule [] = window_at rule []
has_window rule (s ∷ segments) = window_at rule (s ∷ segments) || has_window rule segments

unfoldable pub matches_never_sync_directory_window : List JsString → Bool
matches_never_sync_directory_window segments =
    any (λ rule. has_window (split b'/' (ascii_lower rule)) segments) never_sync_directory_rules

-- `segments[segments.length - 1]`
unfoldable pub basename : List JsString → JsString
basename [] = []
basename (s ∷ []) = s
basename (s ∷ t ∷ segments) = basename (t ∷ segments)

abbrev pub folded_segments : JsString → List JsString
folded_segments path = map ascii_lower (split b'/' path)

unfoldable pub is_never_sync_path : JsString → Bool
is_never_sync_path path =
    matches_never_sync_directory_window (folded_segments path)
    || any (λ rule. segment_matches (ascii_lower rule) (basename (folded_segments path)))
        never_sync_file_rules

unfoldable pub is_never_sync_directory_path : JsString → Bool
is_never_sync_directory_path path = matches_never_sync_directory_window (folded_segments path)

pub data ArtifactPathFailure : Type 0 where
  path_empty path_contains_nul path_malformed_unicode path_backslash path_absolute :
      ArtifactPathFailure
  path_drive_letter path_empty_segment path_dot_segment path_too_long : ArtifactPathFailure

-- `/^[A-Za-z]:/.test(raw)`
abbrev pub has_drive_letter : JsString → Bool
has_drive_letter (c ∷ d ∷ s) = ((leb 65 c && leb c 90) || (leb 97 c && leb c 122)) && d == b':'
has_drive_letter _ = false

-- The first failure of the segments, in wire order.
unfoldable pub segment_failure : List JsString → Option ArtifactPathFailure
segment_failure [] = none
segment_failure (s ∷ segments) =
    let rest = segment_failure segments in
    if str_eq s []
    then some path_empty_segment
    else if str_eq s (js ".") || str_eq s (js "..")
    then some path_dot_segment
    else rest

-- `none` where the path is kept as it is.
unfoldable pub validate_artifact_path : JsString → Option ArtifactPathFailure
validate_artifact_path raw =
    if str_eq raw []
    then some path_empty
    else if includes raw 0
    then some path_contains_nul
    else if has_unpaired_surrogate raw
    then some path_malformed_unicode
    else if includes raw b'\\'
    then some path_backslash
    else if starts_with (js "/") raw
    then some path_absolute
    else if has_drive_letter raw
    then some path_drive_letter
    else elim (segment_failure (split b'/' raw)) [
      | some failure ↦ some failure
      | none ↦
          if utf8_bytes_exceed raw artifact_path_max_utf8_bytes then some path_too_long else none
    ]
