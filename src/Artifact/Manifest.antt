-- ===== src/Artifact/Manifest.antt =====
-- packages/protocol/src/artifact-policy.ts: a manifest is checked entry by entry in wire order, and
-- any failure rejects all of it; an accepted one comes back sorted by path. A `Set` is the list of
-- its values, and a `Map` the list of its writes, the latest first.
pub mod Compatible
pub mod Accepted
pub mod Order
use loop_platform_zhb.Base.{
  ℕ, max_safe_integer, suc, ◌+◌, JsString, Bool, true, false, ◌&&◌, ◌||◌, not, ◌⊎◌, inl, inr,
  Option, none, some, List, [], ◌∷◌, ◌++◌, length, all, any, leb, ltb, ◌==◌, if◌then◌else◌, str_eq,
}
use loop_platform_zhb.Terminal.{contains, str_lt}
use loop_platform_zhb.Artifact.{
  ArtifactPathFailure, validate_artifact_path, is_never_sync_path, split,
}

abbrev pub artifact_file_max_bytes : ℕ
artifact_file_max_bytes = 10485760

abbrev pub artifact_manifest_max_total_bytes : ℕ
artifact_manifest_max_total_bytes = 268435456

abbrev pub artifact_manifest_max_entries : ℕ
artifact_manifest_max_entries = 5000

-- A JavaScript number: an integer that is not negative, a negative one by its distance from -1, or
-- any other by its bits.
pub data JsNumber : Type 0 where
  whole : ℕ → JsNumber
  negative : ℕ → JsNumber
  other : ℕ → JsNumber

-- The wire's entry has the shape only; the normalised entry has the same fields.
pub record ArtifactManifestEntry : Type 0 where
  pub path : JsString
  pub hash : JsString
  pub size : JsNumber

pub data ArtifactManifestFailure : Type 0 where
  path_failure : ArtifactPathFailure → ArtifactManifestFailure
  path_never_sync hash_malformed size_invalid file_too_large : ArtifactManifestFailure
  duplicate_path file_dir_conflict hash_size_mismatch : ArtifactManifestFailure
  too_many_entries manifest_too_large : ArtifactManifestFailure

pub record ManifestRejection : Type 0 where
  pub failure : ArtifactManifestFailure
  pub index : Option ℕ
  pub path : Option JsString
  pub hash : Option JsString

pub data ManifestValidation : Type 0 where
  ok : List ArtifactManifestEntry → ManifestValidation
  rejected : ManifestRejection → ManifestValidation

abbrev is_lower_hex : ℕ → Bool
is_lower_hex c = (leb 48 c && leb c 57) || (leb 97 c && leb c 102)

-- `ARTIFACT_HASH_RE.test(hash)`
unfoldable pub is_artifact_hash : JsString → Bool
is_artifact_hash hash = length hash == 64 && all is_lower_hex hash

-- the sets and the sum of `normalizeManifestEntries`
pub record ManifestScan : Type 0 where
  pub seen_paths : List JsString
  pub seen_dir_prefixes : List JsString
  pub seen_hashes : List (JsString × ℕ)
  pub total_bytes : ℕ

-- `prefix === "" ? segment : prefix + "/" + segment`
unfoldable pub join_segment : JsString → JsString → JsString
join_segment [] s = s
join_segment (c ∷ prefix) s = (c ∷ prefix) ++ b'/' ∷ s

-- The prefixes that the loops over all segments but the last go through.
unfoldable pub prefixes_from : JsString → List JsString → List JsString
prefixes_from prefix [] = []
prefixes_from prefix (s ∷ []) = []
prefixes_from prefix (s ∷ t ∷ segments) =
    join_segment prefix s ∷ prefixes_from (join_segment prefix s) (t ∷ segments)

unfoldable pub dir_prefixes : JsString → List JsString
dir_prefixes path = prefixes_from [] (split b'/' path)

-- `seenHashes.get(hash)`
unfoldable pub seen_size : JsString → List (JsString × ℕ) → Option ℕ
seen_size hash [] = none
seen_size hash ((h, size) ∷ rest) =
    let older = seen_size hash rest in if str_eq h hash then some size else older

-- `seenSize !== undefined && seenSize !== size`
unfoldable pub size_differs : Option ℕ → ℕ → Bool
size_differs none size = false
size_differs (some seen) size = not (seen == size)

unfoldable pub check_size : JsNumber → ArtifactManifestFailure ⊎ ℕ
check_size (negative n) = inl size_invalid
check_size (other bits) = inl size_invalid
check_size (whole n) =
    if ltb max_safe_integer n
    then inl size_invalid
    else if ltb artifact_file_max_bytes n
    then inl file_too_large
    else inr n

-- The checks of an entry by itself, in their order; `inr` is the size of a legal one.
unfoldable pub check_legal : ArtifactManifestEntry → ArtifactManifestFailure ⊎ ℕ
check_legal entry = elim (validate_artifact_path entry.path) [
  | some failure ↦ inl (path_failure failure)
  | none ↦
      if is_never_sync_path entry.path
      then inl path_never_sync
      else if not (is_artifact_hash entry.hash)
      then inl hash_malformed
      else check_size entry.size
]

-- The checks against the entries before it.
unfoldable pub check_seen :
    ManifestScan → ArtifactManifestEntry → ℕ → Option ArtifactManifestFailure
check_seen scan entry size =
    if contains scan.seen_paths entry.path
    then some duplicate_path
    else if any (contains scan.seen_paths) (dir_prefixes entry.path)
    then some file_dir_conflict
    else if contains scan.seen_dir_prefixes entry.path
    then some file_dir_conflict
    else if size_differs (seen_size entry.hash scan.seen_hashes) size
    then some hash_size_mismatch
    else none

unfoldable pub record_entry : ManifestScan → ArtifactManifestEntry → ℕ → ManifestScan
record_entry scan entry size = record {
  seen_paths = entry.path ∷ scan.seen_paths;
  seen_dir_prefixes = dir_prefixes entry.path ++ scan.seen_dir_prefixes;
  seen_hashes = (entry.hash, size) ∷ scan.seen_hashes;
  total_bytes = scan.total_bytes + size;
}

-- The failures that name the entry's hash too.
abbrev names_hash : ArtifactManifestFailure → Bool
names_hash hash_malformed = true
names_hash size_invalid = true
names_hash file_too_large = true
names_hash hash_size_mismatch = true
names_hash _ = false

unfoldable pub reject_entry :
    ArtifactManifestFailure → ℕ → ArtifactManifestEntry → ManifestRejection
reject_entry failure index entry = record {
  failure = failure;
  index = some index;
  path = some entry.path;
  hash = if names_hash failure then some entry.hash else none;
}

unfoldable pub scan_entries :
    ManifestScan → ℕ → List ArtifactManifestEntry → ManifestRejection ⊎ ManifestScan
scan_entries scan index [] = inr scan
scan_entries scan index (entry ∷ entries) = elim (check_legal entry) [
  | inl failure ↦ inl (reject_entry failure index entry)
  | inr size ↦ elim (check_seen scan entry size) [
    | some failure ↦ inl (reject_entry failure index entry)
    | none ↦ scan_entries (record_entry scan entry size) (suc index) entries
  ]
]

-- `normalized.sort(…)`, which is stable
unfoldable pub insert_entry :
    ArtifactManifestEntry → List ArtifactManifestEntry → List ArtifactManifestEntry
insert_entry x [] = x ∷ []
insert_entry x (y ∷ ys) =
    let rest = insert_entry x ys in if str_lt y.path x.path then y ∷ rest else x ∷ y ∷ ys

unfoldable pub sort_entries : List ArtifactManifestEntry → List ArtifactManifestEntry
unfolding insert_entry
sort_entries [] = []
sort_entries (x ∷ xs) = insert_entry x (sort_entries xs)

abbrev pub empty_scan : ManifestScan
empty_scan = record { seen_paths = []; seen_dir_prefixes = []; seen_hashes = []; total_bytes = 0 }

abbrev reject_whole : ArtifactManifestFailure → ManifestRejection
reject_whole failure = record { failure = failure; index = none; path = none; hash = none }

unfoldable pub normalize_manifest_entries : List ArtifactManifestEntry → ManifestValidation
normalize_manifest_entries entries = elim (scan_entries empty_scan 0 entries) [
  | inl rejection ↦ rejected rejection
  | inr scan ↦
      if ltb artifact_manifest_max_entries (length entries)
      then rejected (reject_whole too_many_entries)
      else if ltb artifact_manifest_max_total_bytes scan.total_bytes
      then rejected (reject_whole manifest_too_large)
      else ok (sort_entries entries)
]
