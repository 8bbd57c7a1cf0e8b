-- ===== src/Artifact/Path.antt =====
-- packages/protocol/src/artifact-policy.ts: which texts are canonical relative paths.
use loop_platform_zhb.Base.{
  ◌≤◌, ◌≡◌, refl, ◌≢◌, ◌↔◌, ◌⊎◌, JsString, js, false, none, List, [], ◌∷◌, arith, All, str_eq_iff,
  utf8_length,
}
use loop_platform_zhb.Base.Trim.{includes-eq-false_iff}
use loop_platform_zhb.Terminal.Unicode.{WellFormed, has_unpaired_surrogate_iff}
use loop_platform_zhb.Terminal.Goal.{fits_iff}
use loop_platform_zhb.Artifact.{
  split, segment_failure, validate_artifact_path, has_drive_letter, starts_with,
  artifact_path_max_utf8_bytes,
}

abbrev pub IsSegment : JsString → Type 0
IsSegment s = (s ≢ []) × (s ≢ js ".") × (s ≢ js "..")

-- No ASCII letter with a colon at the start.
abbrev pub NoDrive : JsString → Type 0
NoDrive (c ∷ d ∷ s) = ((65 ≤ c) × (c ≤ 90)) ⊎ ((97 ≤ c) × (c ≤ 122)) → d ≢ b':'
NoDrive _ = Unit

has_drive_letter_iff : (p : JsString) → (has_drive_letter p ≡ false) ↔ NoDrive p
has_drive_letter_iff [] = (λ h. tt, λ h. refl)
has_drive_letter_iff (c ∷ []) = (λ h. tt, λ h. refl)
has_drive_letter_iff (c ∷ d ∷ s) = ground arith

-- A canonical relative path: no leading, trailing or double slash, no `.` and no `..`.
pub record IsRelativePath (p : JsString) : Type 0 where
  pub no_nul : All (λ c. c ≢ 0) p
  pub well_formed : WellFormed p
  pub no_backslash : All (λ c. c ≢ b'\\') p
  pub no_drive : NoDrive p
  pub segments : All IsSegment (split b'/' p)
  pub fits : utf8_length p ≤ artifact_path_max_utf8_bytes

segment_failure_iff : (l : List JsString) → (segment_failure l ≡ none) ↔ All IsSegment l
unfolding segment_failure
segment_failure_iff [] = ground arith
segment_failure_iff (s ∷ l) =
    ground
      (arith, str_eq_iff s [], str_eq_iff s (js "."), str_eq_iff s (js ".."), segment_failure_iff l)

relative : (p : JsString) → All IsSegment (split b'/' p) → starts_with (js "/") p ≡ false
unfolding split starts_with
relative [] h = refl
relative (c ∷ s) h = ground arith

non_empty : (p : JsString) → All IsSegment (split b'/' p) → p ≢ []
unfolding split
non_empty [] h e = h.0.0 refl
non_empty (c ∷ s) h e = cc

validate_sound : (p : JsString) → validate_artifact_path p ≡ none → IsRelativePath p
unfolding validate_artifact_path
validate_sound p h = record {
  no_nul = (includes-eq-false_iff p 0).0 (ground arith);
  well_formed = (has_unpaired_surrogate_iff p).0 (ground arith);
  no_backslash = (includes-eq-false_iff p b'\\').0 (ground arith);
  no_drive = (has_drive_letter_iff p).0 (ground arith);
  segments = (segment_failure_iff (split b'/' p)).0 (ground arith);
  fits = (fits_iff p artifact_path_max_utf8_bytes).0 (ground arith);
}

validate_complete : (p : JsString) → IsRelativePath p → validate_artifact_path p ≡ none
unfolding validate_artifact_path
validate_complete p v = ground (
  arith,
  str_eq_iff p [],
  non_empty p v.segments,
  (includes-eq-false_iff p 0).1 v.no_nul,
  (has_unpaired_surrogate_iff p).1 v.well_formed,
  (includes-eq-false_iff p b'\\').1 v.no_backslash,
  relative p v.segments,
  (has_drive_letter_iff p).1 v.no_drive,
  (segment_failure_iff (split b'/' p)).1 v.segments,
  (fits_iff p artifact_path_max_utf8_bytes).1 v.fits,
)

-- A manifest path is accepted exactly when it is a canonical relative path: no NUL, no backslash,
-- no drive letter, well-formed UTF-16, at most 1024 bytes of UTF-8, and no segment that is empty or
-- consists of one or two dots.
pub validate_artifact_path_iff :
    (p : JsString) → (validate_artifact_path p ≡ none) ↔ IsRelativePath p
validate_artifact_path_iff p = (validate_sound p, validate_complete p)
