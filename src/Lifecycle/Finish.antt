-- ===== src/Lifecycle/Finish.antt =====
-- packages/server/src/loop-lifecycle/index.ts: finishing and reopening a loop.
use loop_platform_zhb.Base.{
  ◌+◌, ◌≤◌, ◌<◌, ◌≡◌, ◌≢◌, refl, ◌↔◌, ◌⊎◌, inl, inr, JsString, true, false, none, some, arith,
  Bool-cases, is_some, if◌then◌else◌,
}
use loop_platform_zhb.Terminal.{text_ok, validate_finish_reason}
use loop_platform_zhb.Db.{IsoTime, Loop, RunRole}
use loop_platform_zhb.Schedule.{
  revision_int32_max, core_state, core_writes, is_schedule_no_op, plan_schedule_transition,
}
use loop_platform_zhb.Schedule.Laws.{IsArmed}
use loop_platform_zhb.Lifecycle.{
  LoopPrimaryStatus, is_valid_loop_snapshot, classify_loop, LeaseAuthSnapshot, CompletionWrites,
  FinishPlan, FinishClassification, plan_finish, completion_writes, apply_completion, ReopenPlan,
  ReopenWrites, reopen_writes, plan_reopen, apply_reopen_writes,
}
use loop_platform_zhb.Lifecycle.Snapshot.{IsValid, is_valid_loop_snapshot-IsValid}

-- The conditions under which a lease may finish a loop.
pub record MayFinish (loop : Loop) (lease : LeaseAuthSnapshot) : Type 0 where
  pub valid : IsValid loop
  pub not_completed : loop.completed_at ≡ none
  pub exec : lease.role ≡ RunRole.exec
  pub can_finish : lease.can_finish ≡ true
  pub has_goal : is_some loop.goal ≡ true
  pub current : lease.goal_revision ≡ loop.goal_revision
  pub room : loop.schedule_revision < revision_int32_max

-- A finish is allowed exactly when the loop is valid and not completed, the lease is an exec one
-- that may finish and of the loop's goal revision, the loop has a goal and its schedule revision
-- has room, and then with the one completion patch.
pub plan_finish_iff :
    (loop : Loop) (lease : LeaseAuthSnapshot) (reason : JsString) (now_iso : IsoTime)
    (writes : CompletionWrites)
    → (plan_finish loop lease reason now_iso ≡ FinishPlan.allowed writes)
      ↔ (MayFinish loop lease × (writes ≡ completion_writes loop reason now_iso))
unfolding plan_finish
plan_finish_iff loop lease reason now_iso writes =
    let v = is_valid_loop_snapshot-IsValid loop in
    (
      λ h. (
        record {
          valid = v.0 (ground arith);
          not_completed = ground arith;
          exec = ground arith;
          can_finish = ground arith;
          has_goal = ground arith;
          current = ground arith;
          room = ground arith;
        },
        ground arith,
      ),
      λ h. ground (arith, v.1 h.0.valid),
    )

-- Why a finish is refused, each reason with the absence of those before it; the ceiling of the
-- schedule revision comes last and shares the reason of an invalid loop.
abbrev pub Refused : Loop → LeaseAuthSnapshot → FinishClassification → Type 0
Refused loop lease FinishClassification.invalid_loop_state =
    (¬ IsValid loop)
    ⊎ (IsValid loop
        × (loop.completed_at ≡ none)
        × (lease.role ≡ RunRole.exec)
        × (lease.can_finish ≡ true)
        × (is_some loop.goal ≡ true)
        × (lease.goal_revision ≡ loop.goal_revision)
        × (revision_int32_max ≤ loop.schedule_revision))
Refused loop lease FinishClassification.already_completed =
    IsValid loop × (is_some loop.completed_at ≡ true)
Refused loop lease FinishClassification.finish_not_allowed =
    IsValid loop
    × (loop.completed_at ≡ none)
    × ((lease.role ≢ RunRole.exec) ⊎ (lease.can_finish ≡ false) ⊎ (loop.goal ≡ none))
Refused loop lease FinishClassification.stale_goal =
    IsValid loop
    × (loop.completed_at ≡ none)
    × (lease.role ≡ RunRole.exec)
    × (lease.can_finish ≡ true)
    × (is_some loop.goal ≡ true)
    × (lease.goal_revision ≢ loop.goal_revision)

-- A refused finish carries the first reason that holds, in the order of an invalid loop, a
-- completed one, a lease that may not finish or a loop without a goal, a stale goal, and a schedule
-- revision at the int32 ceiling, which is reported as an invalid loop.
pub plan_finish-Refused :
    (loop : Loop) (lease : LeaseAuthSnapshot) (reason : JsString) (now_iso : IsoTime)
    (c : FinishClassification)
    → plan_finish loop lease reason now_iso ≡ FinishPlan.rejected c
    → Refused loop lease c
unfolding plan_finish
plan_finish-Refused loop lease reason now_iso FinishClassification.invalid_loop_state h =
    let v = is_valid_loop_snapshot-IsValid loop in
    elim (Bool-cases (is_valid_loop_snapshot loop)) [
      | inl fine ↦ inr (
        v.0 fine,
        ground arith,
        ground arith,
        ground arith,
        ground arith,
        ground arith,
        ground arith,
      )
      | inr broken ↦ inl (λ w. ground (arith, v.1 w))
    ]
plan_finish-Refused loop lease reason now_iso FinishClassification.already_completed h =
    ((is_valid_loop_snapshot-IsValid loop).0 (ground arith), ground arith)
plan_finish-Refused loop lease reason now_iso FinishClassification.finish_not_allowed h =
    ((is_valid_loop_snapshot-IsValid loop).0 (ground arith), ground arith, ground arith)
plan_finish-Refused loop lease reason now_iso FinishClassification.stale_goal h = (
  (is_valid_loop_snapshot-IsValid loop).0 (ground arith),
  ground arith,
  ground arith,
  ground arith,
  ground arith,
  ground arith,
)

-- An allowed finish with an acceptable reason makes the loop a valid completed one with that
-- reason.
pub plan_finish-completed :
    (loop : Loop) (lease : LeaseAuthSnapshot) (reason : JsString) (now_iso : IsoTime)
    (writes : CompletionWrites)
    → text_ok (validate_finish_reason reason) ≡ true
    → plan_finish loop lease reason now_iso ≡ FinishPlan.allowed writes
    → IsValid (apply_completion writes loop)
      × (classify_loop (apply_completion writes loop) ≡ some LoopPrimaryStatus.completed)
      × ((apply_completion writes loop).completion_reason ≡ some reason)
unfolding classify_loop apply_completion completion_writes
plan_finish-completed loop lease reason now_iso writes fits h =
    let (m, e) = (plan_finish_iff loop lease reason now_iso writes).0 h in
    let valid : IsValid (apply_completion writes loop) = ground arith in
    (
      valid,
      ground (arith, (is_valid_loop_snapshot-IsValid (apply_completion writes loop)).1 valid),
      ground arith,
    )

-- The row that a reopening leads to.
pub record Reopened (old new : Loop) (now_iso : IsoTime) : Type 0 where
  pub valid : IsValid new
  pub status : classify_loop new ≡ some LoopPrimaryStatus.closed_loop
  pub armed : IsArmed new
  pub activation : new.schedule_activated_at ≡ (if is_some old.cron then some now_iso else none)
  pub no_watermark : new.last_scheduled_at ≡ none
  pub next_revision : new.schedule_revision ≡ old.schedule_revision + 1
  pub goal_kept : (new.goal ≡ old.goal) × (new.goal_revision ≡ old.goal_revision)
  pub state_kept : (new.state ≡ old.state) × (new.task_file_content ≡ old.task_file_content)
  pub schedule_kept : (new.cron ≡ old.cron) × (new.timezone ≡ old.timezone)
  pub was_completed : is_some old.completed_at ≡ true

reopen_changed :
    (loop : Loop) (now_iso : IsoTime) (writes : ReopenWrites)
    → plan_reopen loop now_iso ≡ ReopenPlan.changed writes
    → IsValid loop
      × (is_some loop.completed_at ≡ true)
      × (loop.schedule_revision < revision_int32_max)
      × (writes
          ≡ reopen_writes
              (core_writes
                (core_state loop)
                (record { cron = none; timezone = none; enabled = some true })
                now_iso)
              now_iso)
unfolding plan_reopen plan_schedule_transition is_schedule_no_op
reopen_changed loop now_iso writes h = (
  (is_valid_loop_snapshot-IsValid loop).0 (ground arith),
  ground arith,
  ground arith,
  ground arith,
)

-- Reopening makes a completed loop a valid closed one: the schedule is armed afresh under the next
-- revision, and the goal, the state, the task file, the cron and the timezone are kept.
pub plan_reopen-Reopened :
    (loop : Loop) (now_iso : IsoTime) (writes : ReopenWrites)
    → plan_reopen loop now_iso ≡ ReopenPlan.changed writes
    → Reopened loop (apply_reopen_writes writes loop) now_iso
unfolding classify_loop apply_reopen_writes core_writes
plan_reopen-Reopened loop now_iso writes h =
    let (v, done, room, e) = reopen_changed loop now_iso writes h in
    let new = apply_reopen_writes writes loop in
    let valid : IsValid new = ground arith in
    record {
      valid = valid;
      status = ground (arith, (is_valid_loop_snapshot-IsValid new).1 valid);
      armed = ground arith;
      activation = ground arith;
      no_watermark = ground arith;
      next_revision = ground arith;
      goal_kept = (refl, refl);
      state_kept = (refl, refl);
      schedule_kept = (refl, refl);
      was_completed = done;
    }
