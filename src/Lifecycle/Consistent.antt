-- ===== src/Lifecycle/Consistent.antt =====
-- packages/server/src/loop-lifecycle/index.ts, `isValidLoopSnapshot`: its meaning on the columns.
use loop_platform_zhb.Base.{
  ◌≤◌, ◌≡◌, ◌≢◌, refl, sym, ◌↔◌, ◌⊎◌, inl, inr, ◌∙◌, subst, JsString, true, false, Option, none,
  some, [], All, is_some, str_eq_iff, trim, utf8_length,
}
use loop_platform_zhb.Terminal.{
  TerminalTextValidation, normalize_goal, text_ok, validate_finish_reason,
  terminal_text_max_utf8_bytes,
}
use loop_platform_zhb.Terminal.Unicode.{WellFormed}
use loop_platform_zhb.Terminal.Goal.{IsGoal, normalize_goal_iff, validate_finish_reason_iff}
use loop_platform_zhb.Db.{Loop}
use loop_platform_zhb.Schedule.{revision_int32_max}
use loop_platform_zhb.Lifecycle.{
  goal_is_normalized, is_valid_loop_snapshot, opt_goal_ok, opt_reason_ok,
}
use loop_platform_zhb.Lifecycle.Snapshot.{
  CompletionFits, is_valid_loop_snapshot-IsValid, GoalValidation-cases,
}

-- A text that may be the reason of a completion.
pub record IsReason (s : JsString) : Type 0 where
  pub non_empty : s ≢ []
  pub no_nul : All (λ c. c ≢ 0) s
  pub well_formed : WellFormed s
  pub fits : utf8_length s ≤ terminal_text_max_utf8_bytes

-- A goal as it is stored: accepted, and without white space at its ends.
abbrev pub IsStoredGoal : JsString → Type 0
IsStoredGoal g = (trim g ≡ g) × IsGoal g

-- A loop that is not completed has neither column; a completed one is off, with a goal and a reason.
abbrev pub Completion : Loop → Type 0
Completion loop =
    ((loop.completed_at ≡ none) × (loop.completion_reason ≡ none))
    ⊎ ((loop.completed_at ≢ none)
        × (loop.goal ≢ none)
        × ((reason : JsString) × (loop.completion_reason ≡ some reason) × IsReason reason)
        × (loop.enabled ≡ false))

pub record IsConsistent (loop : Loop) : Type 0 where
  pub goal_revision : loop.goal_revision ≤ revision_int32_max
  pub schedule_revision : loop.schedule_revision ≤ revision_int32_max
  pub goal : (g : JsString) → loop.goal ≡ some g → IsStoredGoal g
  pub completion : Completion loop

goal_is_normalized_iff : (g : JsString) → (goal_is_normalized g ≡ true) ↔ IsStoredGoal g
unfolding goal_is_normalized
goal_is_normalized_iff g = (sound, complete)
  where
    sound : goal_is_normalized g ≡ true → IsStoredGoal g
    sound h = elim (GoalValidation-cases (normalize_goal g)) [
      | inl (n, e) ↦
          let same : n ≡ g = (str_eq_iff n g).0 (rw (e, goal_is_normalized) at h) in
          let (at, fine) = (normalize_goal_iff g n).0 e in (sym at ∙ same, subst IsGoal same fine)
      | inr (f, e) ↦ let k = rw (e, goal_is_normalized) at h in cc
    ]

    complete : IsStoredGoal g → goal_is_normalized g ≡ true
    complete (same, fine) =
        let e = (normalize_goal_iff g g).1 (sym same, fine) in
        rw (e, goal_is_normalized) ((str_eq_iff g g).1 refl)

opt_goal_ok_iff :
    (o : Option JsString) → (opt_goal_ok o ≡ true) ↔ ((g : JsString) → o ≡ some g → IsStoredGoal g)
opt_goal_ok_iff none = (λ h g e. cc, λ h. refl)
opt_goal_ok_iff (some goal) = (
  λ h g e. subst IsStoredGoal (cc) ((goal_is_normalized_iff goal).0 h),
  λ h. (goal_is_normalized_iff goal).1 (h goal refl),
)

text_ok_iff : (v : TerminalTextValidation) → (text_ok v ≡ true) ↔ (v ≡ TerminalTextValidation.ok)
text_ok_iff TerminalTextValidation.ok = (λ h. refl, λ h. refl)
text_ok_iff (TerminalTextValidation.rejected f) = (λ h. cc, λ h. cc)

opt_reason_ok_iff :
    (o : Option JsString)
    → (opt_reason_ok o ≡ true) ↔ ((reason : JsString) × (o ≡ some reason) × IsReason reason)
opt_reason_ok_iff none = (λ h. cc, λ (r, e, k). cc)
opt_reason_ok_iff (some s) = (
  λ h.
      let (a, b, c, d) =
        (validate_finish_reason_iff s).0 ((text_ok_iff (validate_finish_reason s)).0 h) in
      (s, refl, record { non_empty = a; no_nul = b; well_formed = c; fits = d }),
  λ (r, e, k).
      let same : r ≡ s = cc in
      let v = subst IsReason same k in
      (text_ok_iff (validate_finish_reason s)).1
        ((validate_finish_reason_iff s).1 (v.non_empty, v.no_nul, v.well_formed, v.fits)),
)

present : {A : Type 0} (o : Option A) → (is_some o ≡ true) ↔ (o ≢ none)
present none = (λ h. cc, λ h. absurd (h refl))
present (some a) = (λ h e. cc, λ h. refl)

Completion-iff : (loop : Loop) → CompletionFits loop ↔ Completion loop
Completion-iff loop = (
  λ h. elim h [
    | inl none_yet ↦ inl none_yet
    | inr (at, goal, reason, off) ↦ inr (
      (present loop.completed_at).0 at,
      (present loop.goal).0 goal,
      (opt_reason_ok_iff loop.completion_reason).0 reason,
      off,
    )
  ],
  λ h. elim h [
    | inl none_yet ↦ inl none_yet
    | inr (at, goal, reason, off) ↦ inr (
      (present loop.completed_at).1 at,
      (present loop.goal).1 goal,
      (opt_reason_ok_iff loop.completion_reason).1 reason,
      off,
    )
  ],
)

-- The snapshot test is true exactly where both revisions are within int32, a present goal is
-- trimmed and acceptable, and the completion columns are absent or stand together with an
-- acceptable reason on a disabled loop with a goal.
pub is_valid_loop_snapshot_iff :
    (loop : Loop) → (is_valid_loop_snapshot loop ≡ true) ↔ IsConsistent loop
is_valid_loop_snapshot_iff loop =
    let v = is_valid_loop_snapshot-IsValid loop in
    let g = opt_goal_ok_iff loop.goal in
    let c = Completion-iff loop in
    (
      λ h.
          let w = v.0 h in
          record {
            goal_revision = w.goal_revision;
            schedule_revision = w.schedule_revision;
            goal = g.0 w.goal;
            completion = c.0 w.completion;
          },
      λ w. v.1 (record {
        goal_revision = w.goal_revision;
        schedule_revision = w.schedule_revision;
        goal = g.1 w.goal;
        completion = c.1 w.completion;
      }),
    )
