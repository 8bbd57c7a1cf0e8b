-- ===== src/Lifecycle/Snapshot.antt =====
-- packages/server/src/loop-lifecycle/index.ts: the validity of persisted loops, and goal updates.
use loop_platform_zhb.Base.{
  ◌+◌, ◌≤◌, ◌≡◌, ◌≢◌, refl, ◌↔◌, ◌⊎◌, inl, inr, subst, JsString, true, false, Option, none, some,
  arith, is_some, str_eq_refl,
}
use loop_platform_zhb.Terminal.{GoalValidation, GoalValidationFailure, normalize_goal}
use loop_platform_zhb.Terminal.Goal.{normalize_goal_idem}
use loop_platform_zhb.Db.{IsoTime, Loop}
use loop_platform_zhb.Schedule.{revision_int32_max}
use loop_platform_zhb.Schedule.Laws.{opt_str_eq_iff}
use loop_platform_zhb.Lifecycle.{
  goal_is_normalized, is_valid_loop_snapshot, opt_goal_ok, opt_reason_ok, GoalUpdatePlan,
  GoalUpdateRejection, normalize_command, GoalPatch, plan_goal_update, settle_goal,
  apply_goal_patch,
}

-- The completion columns are all absent, or stand together on a disabled loop with a goal.
abbrev pub CompletionFits : Loop → Type 0
CompletionFits loop =
    ((loop.completed_at ≡ none) × (loop.completion_reason ≡ none))
    ⊎ ((is_some loop.completed_at ≡ true)
        × (is_some loop.goal ≡ true)
        × (opt_reason_ok loop.completion_reason ≡ true)
        × (loop.enabled ≡ false))

pub record IsValid (loop : Loop) : Type 0 where
  pub goal_revision : loop.goal_revision ≤ revision_int32_max
  pub schedule_revision : loop.schedule_revision ≤ revision_int32_max
  pub goal : opt_goal_ok loop.goal ≡ true
  pub completion : CompletionFits loop

pub is_valid_loop_snapshot-IsValid :
    (loop : Loop) → (is_valid_loop_snapshot loop ≡ true) ↔ IsValid loop
unfolding is_valid_loop_snapshot
is_valid_loop_snapshot-IsValid loop = (λ h. ground arith, λ v. ground arith)

pub GoalValidation-cases :
    (r : GoalValidation)
    → ((g : JsString) × (r ≡ GoalValidation.ok g))
      ⊎ ((f : GoalValidationFailure) × (r ≡ GoalValidation.rejected f))
GoalValidation-cases (GoalValidation.ok g) = inl (g, refl)
GoalValidation-cases (GoalValidation.rejected f) = inr (f, refl)

-- A normalised goal passes the snapshot's own test.
pub normalize_goal-goal_is_normalized :
    (raw goal : JsString)
    → normalize_goal raw ≡ GoalValidation.ok goal
    → goal_is_normalized goal ≡ true
unfolding goal_is_normalized
normalize_goal-goal_is_normalized raw goal h =
    ground (arith, normalize_goal_idem raw goal h, str_eq_refl goal)

-- The goal that a command asks for: none, or the accepted form of its text.
abbrev pub Requests : Option JsString → Option JsString → Type 0
Requests none goal = goal ≡ none
Requests (some raw) goal =
    (t : JsString) × (normalize_goal raw ≡ GoalValidation.ok t) × (goal ≡ some t)

-- A changed row has a new goal under the next revision, and is valid.
pub record GoalChanged (command : Option JsString) (old new : Loop) : Type 0 where
  pub valid : IsValid new
  pub requested : Requests command new.goal
  pub differs : new.goal ≢ old.goal
  pub next_revision : new.goal_revision ≡ old.goal_revision + 1
  pub not_completed : old.completed_at ≡ none
  pub occ : new.revision ≡ old.revision + 1
  pub schedule_kept :
      (new.schedule_revision ≡ old.schedule_revision)
      × (new.enabled ≡ old.enabled)
      × (new.cron ≡ old.cron)

settle_goal-GoalChanged :
    (command : Option JsString) (loop : Loop) (goal : Option JsString) (now_iso : IsoTime)
    (writes : GoalPatch)
    → IsValid loop
    → loop.completed_at ≡ none
    → opt_goal_ok goal ≡ true
    → Requests command goal
    → settle_goal loop goal now_iso ≡ GoalUpdatePlan.changed writes
    → GoalChanged command loop (apply_goal_patch writes loop)
unfolding settle_goal apply_goal_patch
settle_goal-GoalChanged command loop goal now_iso writes v open_yet fits asked h = record {
  valid = ground arith;
  requested = subst (Requests command) (ground arith) asked;
  differs = λ e. ground (arith, opt_str_eq_iff goal loop.goal);
  next_revision = ground arith;
  not_completed = open_yet;
  occ = refl;
  schedule_kept = (refl, refl, refl);
}

open_snapshot :
    (loop : Loop) (command : Option JsString) (now_iso : IsoTime) (writes : GoalPatch)
    → plan_goal_update loop command now_iso ≡ GoalUpdatePlan.changed writes
    → (is_valid_loop_snapshot loop ≡ true)
      × (loop.completed_at ≡ none)
      × (normalize_command loop command now_iso ≡ GoalUpdatePlan.changed writes)
unfolding plan_goal_update
open_snapshot loop command now_iso writes h = (ground arith, ground arith, ground arith)

command-GoalChanged :
    (loop : Loop) (command : Option JsString) (now_iso : IsoTime) (writes : GoalPatch)
    → IsValid loop
    → loop.completed_at ≡ none
    → normalize_command loop command now_iso ≡ GoalUpdatePlan.changed writes
    → GoalChanged command loop (apply_goal_patch writes loop)
command-GoalChanged loop none now_iso writes v open_yet h =
    settle_goal-GoalChanged none loop none now_iso writes v open_yet refl refl h
command-GoalChanged loop (some raw) now_iso writes v open_yet h =
    elim (GoalValidation-cases (normalize_goal raw)) [
      | inl (goal, e) ↦
          settle_goal-GoalChanged (some raw) loop (some goal) now_iso writes v open_yet
            (normalize_goal-goal_is_normalized raw goal e) (goal, e, refl) (ground arith)
      | inr (failure, e) ↦ absurd (ground arith)
    ]

-- An effective goal update happens only on a row that is not completed; it stores the accepted form
-- of the requested goal, which differs from the old one, under the next revision, leaves the
-- schedule alone, and leaves a valid row.
pub plan_goal_update-GoalChanged :
    (loop : Loop) (command : Option JsString) (now_iso : IsoTime) (writes : GoalPatch)
    → plan_goal_update loop command now_iso ≡ GoalUpdatePlan.changed writes
    → GoalChanged command loop (apply_goal_patch writes loop)
plan_goal_update-GoalChanged loop command now_iso writes h =
    let (v, open_yet, rest) = open_snapshot loop command now_iso writes h in
    command-GoalChanged loop command now_iso writes ((is_valid_loop_snapshot-IsValid loop).0 v)
      open_yet rest

-- A valid completed loop refuses every goal update, one that asks for the present goal too.
pub plan_goal_update_completed :
    (loop : Loop) (command : Option JsString) (now_iso : IsoTime)
    → IsValid loop
    → is_some loop.completed_at ≡ true
    → plan_goal_update loop command now_iso
      ≡ GoalUpdatePlan.rejected GoalUpdateRejection.loop_completed
unfolding plan_goal_update
plan_goal_update_completed loop command now_iso v done =
    ground (arith, (is_valid_loop_snapshot-IsValid loop).1 v)
