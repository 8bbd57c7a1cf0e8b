-- ===== src/Terminal/Goal.antt =====
-- packages/protocol/src/terminal-policy.ts: goal normalisation and finish reasons.
use loop_platform_zhb.Base.{
  ℕ, ◌≡◌, ap, ◌∙◌, ◌≢◌, ◌↔◌, ◌≤◌, JsString, false, [], arith, All, str_eq_iff, trim, utf8_length,
  subst, sym,
}
use loop_platform_zhb.Base.Trim.{trim_idem, includes-eq-false_iff}
use loop_platform_zhb.Terminal.{
  GoalValidation, check_goal, normalize_goal, utf8_bytes_exceed, goal_max_utf8_bytes,
  TerminalTextValidation, validate_terminal_text, validate_finish_reason,
  terminal_text_max_utf8_bytes,
}
use loop_platform_zhb.Terminal.Unicode.{
  WellFormed, has_unpaired_surrogate_iff, utf8_bytes_exceed_exact,
}

-- A text that may be stored as a goal.
pub record IsGoal (g : JsString) : Type 0 where
  pub non_empty : g ≢ []
  pub no_nul : All (λ c. c ≢ 0) g
  pub no_cr : All (λ c. c ≢ b'\r') g
  pub no_lf : All (λ c. c ≢ b'\n') g
  pub well_formed : WellFormed g
  pub fits : utf8_length g ≤ goal_max_utf8_bytes

pub fits_iff : (s : JsString) (max : ℕ) → (utf8_bytes_exceed s max ≡ false) ↔ (utf8_length s ≤ max)
fits_iff s max = ground (arith, utf8_bytes_exceed_exact s max)

check_goal_sound : (g h : JsString) → check_goal g ≡ GoalValidation.ok h → (h ≡ g) × IsGoal g
unfolding check_goal
check_goal_sound g h e = (
  ground arith,
  record {
    non_empty = λ p. ground (arith, (str_eq_iff g []).1 p);
    no_nul = (includes-eq-false_iff g 0).0 (ground arith);
    no_cr = (includes-eq-false_iff g b'\r').0 (ground arith);
    no_lf = (includes-eq-false_iff g b'\n').0 (ground arith);
    well_formed = (has_unpaired_surrogate_iff g).0 (ground arith);
    fits = (fits_iff g goal_max_utf8_bytes).0 (ground arith);
  },
)

check_goal_complete : (g : JsString) → IsGoal g → check_goal g ≡ GoalValidation.ok g
unfolding check_goal
check_goal_complete g v = ground (
  arith,
  str_eq_iff g [],
  (includes-eq-false_iff g 0).1 v.no_nul,
  (includes-eq-false_iff g b'\r').1 v.no_cr,
  (includes-eq-false_iff g b'\n').1 v.no_lf,
  (has_unpaired_surrogate_iff g).1 v.well_formed,
  (fits_iff g goal_max_utf8_bytes).1 v.fits,
  v.non_empty,
)

-- A goal is accepted as `g` exactly when `g` is the trimmed input and is non-empty, free of NUL, CR
-- and LF, well-formed UTF-16 and at most 2000 bytes of UTF-8.
pub normalize_goal_iff :
    (raw g : JsString) → (normalize_goal raw ≡ GoalValidation.ok g) ↔ ((g ≡ trim raw) × IsGoal g)
unfolding normalize_goal
normalize_goal_iff raw g = (
  λ e. let (same, valid) = check_goal_sound (trim raw) g e in (same, subst IsGoal (sym same) valid),
  λ h. (ap check_goal (sym h.0)) ∙ check_goal_complete g h.1,
)

-- An accepted goal is its own normalisation.
pub normalize_goal_idem :
    (raw g : JsString)
    → normalize_goal raw ≡ GoalValidation.ok g
    → normalize_goal g ≡ GoalValidation.ok g
normalize_goal_idem raw g e =
    let (same, valid) = (normalize_goal_iff raw g).0 e in
    (normalize_goal_iff g g).1 (same ∙ sym (trim_idem raw) ∙ ap trim (sym same), valid)

-- A finish reason is accepted exactly when it is non-empty, free of NUL, well-formed UTF-16 and at
-- most 2000 bytes of UTF-8.
pub validate_finish_reason_iff :
    (raw : JsString)
    → (validate_finish_reason raw ≡ TerminalTextValidation.ok) ↔ (
        (raw ≢ [])
        × All (λ c. c ≢ 0) raw
        × WellFormed raw
        × (utf8_length raw ≤ terminal_text_max_utf8_bytes))
unfolding validate_finish_reason validate_terminal_text
validate_finish_reason_iff raw = (
  λ e. (
    λ p. ground (arith, (str_eq_iff raw []).1 p),
    (includes-eq-false_iff raw 0).0 (ground arith),
    (has_unpaired_surrogate_iff raw).0 (ground arith),
    (fits_iff raw terminal_text_max_utf8_bytes).0 (ground arith),
  ),
  λ h. ground (
    arith,
    str_eq_iff raw [],
    (includes-eq-false_iff raw 0).1 h.1,
    (has_unpaired_surrogate_iff raw).1 h.2,
    (fits_iff raw terminal_text_max_utf8_bytes).1 h.3,
    h.0,
  ),
)
