-- ===== src/Store/Runs/Scheduled.antt =====
-- packages/server/src/store/runs.ts: a scheduled trigger, checked against the loop that was read
-- before the transaction. The clock and the calendar count milliseconds from one origin.
use loop_platform_zhb.Base.{
  ℕ, JsString, Bool, true, false, not, Option, none, some, ltb, ◌==◌, if◌then◌else◌, is_some,
}
use loop_platform_zhb.Db.{IsoTime, LoopId, RunId, Loop}
use loop_platform_zhb.Terminal.{str_lt}
use loop_platform_zhb.Schedule.Time.{is_occurrence}
use loop_platform_zhb.Schedule.Validate.{ZoneApi}
use loop_platform_zhb.Schedule.Iso.{
  Calendar, PersistedScheduleState, parse_rfc3339_ms, is_valid_persisted_schedule_state,
}
use loop_platform_zhb.Store.{
  Database, Clock, find_loop, Settled, settled, Retried, Moments, with_guard_retry,
}
use loop_platform_zhb.Store.Runs.{
  EnqueueRefusal, EnqueueExecRunResult, refused, raised, loop_not_found, machine_ineligible,
  stale_revision, not_active, invalid_schedule_state, not_an_occurrence, future_occurrence,
  before_activation, already_scheduled, scheduled, enqueue_tx, is_machine_execution_eligible,
}

pub record ScheduledTrigger : Type 0 where
  pub schedule_revision : ℕ
  pub scheduled_for : JsString

-- The canonical occurrence, a refusal, or a throw.
pub data ScheduledCheck : Type 0 where
  canonical : IsoTime → ScheduledCheck
  refuse : EnqueueRefusal → ScheduledCheck
  throws : ScheduledCheck

abbrev pub persisted_state : JsString → Loop → PersistedScheduleState
persisted_state cron loop = record {
  cron = cron;
  timezone = loop.timezone;
  schedule_revision = loop.schedule_revision;
  schedule_activated_at = loop.schedule_activated_at;
  last_scheduled_at = loop.last_scheduled_at;
}

-- `bound !== null && canonicalFor <= bound`
abbrev pub not_after : Option IsoTime → IsoTime → Bool
not_after none at = false
not_after (some bound) at = not (str_lt bound at)

-- The comparisons of a genuine occurrence with the clock, the activation and the watermark.
unfoldable pub check_bounds : Calendar → Clock → Loop → ℕ → ScheduledCheck
check_bounds calendar clock current scheduled_ms =
    if ltb clock.ms scheduled_ms
    then refuse future_occurrence
    else if not_after current.schedule_activated_at (calendar.to_iso scheduled_ms)
    then refuse before_activation
    else if not_after current.last_scheduled_at (calendar.to_iso scheduled_ms)
    then refuse already_scheduled
    else canonical (calendar.to_iso scheduled_ms)

abbrev pub if_occurrence : Option Bool → ScheduledCheck → ScheduledCheck
if_occurrence none next = throws
if_occurrence (some false) next = refuse not_an_occurrence
if_occurrence (some true) next = next

unfoldable pub check_occurrence :
    ZoneApi → Calendar → Clock → Loop → JsString → Option ℕ → ScheduledCheck
check_occurrence api calendar clock current cron none = refuse not_an_occurrence
check_occurrence api calendar clock current cron (some scheduled_ms) =
    if_occurrence
      (is_occurrence api.cron (record { cron = cron; timezone = current.timezone }) scheduled_ms)
      (check_bounds calendar clock current scheduled_ms)

unfoldable pub check_active :
    ZoneApi → Calendar → Clock → Loop → JsString → Option JsString → ScheduledCheck
check_active api calendar clock current scheduled_for none = refuse not_active
check_active api calendar clock current scheduled_for (some cron) =
    if not current.enabled
    then refuse not_active
    else if not (is_valid_persisted_schedule_state api calendar (persisted_state cron current))
    then refuse invalid_schedule_state
    else check_occurrence api calendar clock current cron (parse_rfc3339_ms calendar scheduled_for)

unfoldable pub check_scheduled :
    ZoneApi → Calendar → Clock → Loop → ScheduledTrigger → ScheduledCheck
check_scheduled api calendar clock current trigger =
    if is_some current.completed_at
    then refuse EnqueueRefusal.loop_completed
    else if not (current.schedule_revision == trigger.schedule_revision)
    then refuse stale_revision
    else check_active api calendar clock current trigger.scheduled_for current.cron

abbrev pub enqueue_checked :
    Clock → RunId → Loop → ScheduledCheck → Database → Settled EnqueueExecRunResult
enqueue_checked clock run_id current (canonical at) now =
    enqueue_tx clock run_id current (scheduled at) now
enqueue_checked clock run_id current (refuse reason) now = settled (refused reason) now
enqueue_checked clock run_id current throws now = settled raised now

-- One attempt of a scheduled enqueue.
unfoldable pub enqueue_scheduled_once :
    ZoneApi
    → Calendar
    → Clock
    → RunId
    → LoopId
    → ScheduledTrigger
    → Database
    → Database
    → Settled EnqueueExecRunResult
enqueue_scheduled_once api calendar clock run_id id trigger seen now =
    elim (find_loop id seen.loops) [
      | none ↦ settled (refused loop_not_found) now
      | some current ↦
          if not (is_machine_execution_eligible seen.machines current.machine_id)
          then settled (refused machine_ineligible) now
          else enqueue_checked clock run_id current
              (check_scheduled api calendar clock current trigger) now
    ]

unfoldable pub enqueue_scheduled :
    ZoneApi
    → Calendar
    → Clock
    → RunId
    → LoopId
    → ScheduledTrigger
    → Moments
    → Retried EnqueueExecRunResult
unfolding enqueue_scheduled_once
enqueue_scheduled api calendar clock run_id id trigger m =
    with_guard_retry (enqueue_scheduled_once api calendar clock run_id id trigger) m
