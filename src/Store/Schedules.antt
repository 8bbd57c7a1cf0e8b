-- ===== src/Store/Schedules.antt =====
-- packages/server/src/schedule/state-machine.ts: the one entry point for changes of a schedule. What
-- the source throws is a result here.
pub mod Laws
pub mod Persisted
use loop_platform_zhb.Base.{
  JsString, js, Bool, true, false, ◌&&◌, ◌||◌, ◌⊎◌, inl, inr, Option, none, some, ◌==◌,
  if◌then◌else◌, get_or, is_some,
}
use loop_platform_zhb.Db.{LoopId, Loop}
use loop_platform_zhb.Schedule.{
  ScheduleTransitionPatch, ScheduleTransitionResult, noop, schedule_revision_exhausted, core_state,
  plan_schedule_transition, apply_schedule_writes,
}
use loop_platform_zhb.Schedule.Time.{NormalizedSchedule}
use loop_platform_zhb.Schedule.Validate.{
  ZoneApi, ScheduleFailure, ScheduleValidation, ok, failed, validate_schedule,
}
use loop_platform_zhb.Store.{
  Database, Clock, find_loop, cas_loop, Settled, settled, guard_lost, Retried, Moments,
  with_guard_retry,
}
use loop_platform_zhb.Store.Manage.{commit_loop}

pub data UpdateScheduleResult : Type 0 where
  not_found : UpdateScheduleResult
  loop_completed unchanged changed : Loop → UpdateScheduleResult
  invalid : ScheduleFailure → UpdateScheduleResult
  revision_exhausted : UpdateScheduleResult

-- The fixed expression that stands in where there is none.
abbrev pub dummy_cron : JsString
dummy_cron = js "0 0 * * *"

-- An outcome without a write is returned only if the row still has the revision that was read.
unfoldable pub verify_unchanged :
    LoopId → Loop → UpdateScheduleResult → Database → Settled UpdateScheduleResult
verify_unchanged id current result now = elim (find_loop id now.loops) [
  | none ↦ guard_lost
  | some row ↦ if row.revision == current.revision then settled result now else guard_lost
]

abbrev pub normalized_cron :
    Option (Option JsString) → NormalizedSchedule → Option (Option JsString)
normalized_cron none n = none
normalized_cron (some none) n = some none
normalized_cron (some (some cron)) n = some (some n.cron)

abbrev pub normalized_timezone : Option JsString → NormalizedSchedule → Option JsString
normalized_timezone none n = none
normalized_timezone (some timezone) n = some n.timezone

abbrev pub normalized_by :
    ScheduleTransitionPatch → ScheduleValidation → ScheduleFailure ⊎ ScheduleTransitionPatch
normalized_by patch (failed failure) = inl failure
normalized_by patch (ok n) = inr (record {
  cron = normalized_cron patch.cron n;
  timezone = normalized_timezone patch.timezone n;
  enabled = patch.enabled;
})

unfoldable pub normalize_and_validate_patch :
    ZoneApi → Loop → ScheduleTransitionPatch → ScheduleFailure ⊎ ScheduleTransitionPatch
normalize_and_validate_patch api current patch =
    if is_some patch.cron || is_some patch.timezone
    then normalized_by patch (
        validate_schedule api (get_or (get_or patch.cron current.cron) dummy_cron)
          (get_or patch.timezone current.timezone))
    else inr patch

abbrev pub failure_of : ScheduleValidation → Option ScheduleFailure
failure_of (ok n) = none
failure_of (failed failure) = some failure

-- The check of the final values: with a cron, both; without one, a timezone that changes.
abbrev pub final_failure : ZoneApi → Option JsString → JsString → Bool → Option ScheduleFailure
final_failure api (some cron) timezone changes_timezone =
    failure_of (validate_schedule api cron timezone)
final_failure api none timezone changes_timezone =
    if changes_timezone then failure_of (validate_schedule api dummy_cron timezone) else none

abbrev pub unless_failed :
    Option ScheduleFailure → Database → Settled UpdateScheduleResult → Settled UpdateScheduleResult
unless_failed (some failure) now write = settled (invalid failure) now
unless_failed none now write = write

unfoldable pub execute_transition :
    ZoneApi
    → LoopId
    → Loop
    → ScheduleTransitionPatch
    → ScheduleTransitionResult
    → Database
    → Settled UpdateScheduleResult
execute_transition api id current patch noop now =
    verify_unchanged id current (unchanged current) now
execute_transition api id current patch schedule_revision_exhausted now =
    verify_unchanged id current revision_exhausted now
execute_transition api id current patch (ScheduleTransitionResult.changed writes) now =
    unless_failed
      (final_failure api (get_or patch.cron current.cron) (get_or patch.timezone current.timezone)
        (is_some patch.timezone))
      now
      (commit_loop now changed
        (cas_loop id current.revision (apply_schedule_writes writes) now.loops))

abbrev pub plan_patch :
    ZoneApi
    → Clock
    → LoopId
    → Loop
    → ScheduleFailure ⊎ ScheduleTransitionPatch
    → Database
    → Settled UpdateScheduleResult
plan_patch api clock id current (inl failure) now = settled (invalid failure) now
plan_patch api clock id current (inr patch) now =
    execute_transition api id current patch
      (plan_schedule_transition (core_state current) patch clock.iso) now

-- `patch.enabled === true`
abbrev pub enables : Option Bool → Bool
enables none = false
enables (some b) = b

unfoldable pub update_schedule_once :
    ZoneApi
    → Clock
    → LoopId
    → ScheduleTransitionPatch
    → Database
    → Database
    → Settled UpdateScheduleResult
update_schedule_once api clock id patch seen now = elim (find_loop id seen.loops) [
  | none ↦ settled not_found now
  | some current ↦
      if is_some current.completed_at && enables patch.enabled
      then verify_unchanged id current (loop_completed current) now
      else plan_patch api clock id current (normalize_and_validate_patch api current patch) now
]

unfoldable pub update_schedule :
    ZoneApi → Clock → LoopId → ScheduleTransitionPatch → Moments → Retried UpdateScheduleResult
unfolding update_schedule_once
update_schedule api clock id patch m = with_guard_retry (update_schedule_once api clock id patch) m
