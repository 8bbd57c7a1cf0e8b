-- ===== src/Scenarios/Scheduling.antt =====
-- A schedule that fires every minute, its validation, a change of a schedule and a scheduled trigger.
use loop_platform_zhb.Base.{
  ℕ, ◌+◌, ◌*◌, ◌/◌, ◌%◌, ◌^◌, ◌≤◌, ◌<◌, ◌≡◌, refl, sym, subst, ◌⊎◌, inl, inr, JsString, js, Bool,
  true, false, Option, none, some, List, [], ◌∷◌, arith, ◌==◌, ==_iff, if◌then◌else◌, Bool-cases,
  trim,
}
use loop_platform_zhb.Db.{Loop}
use loop_platform_zhb.Schedule.{ScheduleTransitionPatch}
use loop_platform_zhb.Schedule.Time.{
  NormalizedSchedule, CronApi, Occurrence, answer, next_occurrence, latest_occurrence, found,
  turns_spent, earliest,
}
use loop_platform_zhb.Schedule.Time.Next.{next_occurrence-After, next_occurrence-Answers}
use loop_platform_zhb.Schedule.Time.Latest.{latest_occurrence-ends}
use loop_platform_zhb.Schedule.Time.Regular.{Regular, IsLatest, latest_occurrence-IsLatest}
use loop_platform_zhb.Schedule.Validate.{
  ZoneApi, ScheduleValidation, ok, validate_schedule, normalize_cron,
}
use loop_platform_zhb.Schedule.Validate.Normal.{validate_schedule_idem}
use loop_platform_zhb.Schedule.Iso.{Calendar, is_canonical_utc_iso}
use loop_platform_zhb.Store.{Database, Clock, find_loop, result}
use loop_platform_zhb.Store.Schedules.{UpdateScheduleResult, changed, update_schedule}
use loop_platform_zhb.Store.Schedules.Persisted.{
  IsNormal, AllNormal, ChangedRow, update_schedule-ChangedRow,
}
use loop_platform_zhb.Store.Runs.{
  EnqueueExecRunResult, enqueued, advance_watermark, pending_run, supersede_row,
}
use loop_platform_zhb.Store.Runs.Scheduled.{ScheduledTrigger, enqueue_scheduled}
use loop_platform_zhb.Store.Runs.Watermark.{Ticks, enqueue_scheduled-Ticks}
use loop_platform_zhb.Scenarios.{
  calm-Interfered, early, today, clock, goal_loop, idle_loop, running_run, queued_run, sibling_run,
  platform, calm,
}

-- A cron library that knows the start of every minute.
abbrev minutely : CronApi
minutely = record {
  constructs = λ cron timezone. true;
  next_run = λ schedule c. some ((c / 60000 + 1) * 60000);
  match = λ schedule t. t % 60000 == 0;
}

abbrev every_minute : NormalizedSchedule
every_minute = record { cron = js "* * * * *"; timezone = js "UTC" }

minutely-Regular : Regular minutely every_minute
minutely-Regular = record {
  constructs = refl;
  later = λ c t h. ground arith;
  matches = λ c t h. ground arith;
  first = λ c t u h k l. ground arith;
  last = λ c u h k. cc;
}

in_a_minute : next_occurrence minutely every_minute 1000 ≡ answer (some 60000)
unfolding next_occurrence loop_platform_zhb.Schedule.Time.next_from
    loop_platform_zhb.Schedule.Time.turn_on
in_a_minute = refl

next_occurrence-After_example : (1000 < 60000) × (minutely.match every_minute 60000 ≡ true)
next_occurrence-After_example = next_occurrence-After minutely every_minute 1000 60000 in_a_minute

settled_at_once :
    (c : ℕ)
    → 0 ≤ c
    → (minutely.next_run every_minute c ≡ none)
      ⊎ ((t : ℕ) × (minutely.next_run every_minute c ≡ some t)
          × (c < t)
          × (minutely.match every_minute t ≡ true))
settled_at_once c h = inr (
  (c / 60000 + 1) * 60000,
  refl,
  minutely-Regular.later c _ refl,
  minutely-Regular.matches c _ refl,
)

on_minutes : (c t : ℕ) → minutely.next_run every_minute c ≡ some t → t % 60000 ≡ 0
on_minutes c t h = ground arith

next_occurrence-Answers_example :
    (o : Option ℕ) × (next_occurrence minutely every_minute 1000 ≡ answer o)
next_occurrence-Answers_example =
    next_occurrence-Answers minutely every_minute 1000 0 refl on_minutes settled_at_once
      (omega arith)

abbrev noon : ℕ
noon = 31622500000

noon_small : noon < 2 ^ 53
noon_small = omega arith

latest_occurrence-ends_example : latest_occurrence minutely every_minute noon ≡ turns_spent → ⊥
latest_occurrence-ends_example = latest_occurrence-ends minutely every_minute noon noon_small

latest_occurrence-IsLatest_example :
    ((t : ℕ) × (latest_occurrence minutely every_minute noon ≡ found (some t))
      × IsLatest minutely every_minute minutely-Regular noon t)
    ⊎ ((latest_occurrence minutely every_minute noon ≡ found none)
        × ((u : ℕ) → earliest < u → u ≤ noon → minutely.match every_minute u ≡ false))
latest_occurrence-IsLatest_example =
    latest_occurrence-IsLatest minutely every_minute minutely-Regular noon noon_small

abbrev zones : ZoneApi
zones = record { cron = minutely; formats = λ timezone. true }

abbrev at_ten : NormalizedSchedule
at_ten = record { cron = js "0 10 * * *"; timezone = js "UTC" }

ten_accepted : validate_schedule zones (js " 0  10 * * *") (js "UTC ") ≡ ok at_ten
unfolding validate_schedule loop_platform_zhb.Schedule.Validate.check_raw
    loop_platform_zhb.Base.includes loop_platform_zhb.Schedule.Validate.check_cron
    loop_platform_zhb.Base.str_eq normalize_cron loop_platform_zhb.Schedule.Validate.collapse trim
    loop_platform_zhb.Artifact.starts_with loop_platform_zhb.Schedule.Validate.check_segments
    loop_platform_zhb.Artifact.split loop_platform_zhb.Schedule.Validate.out_of_range
    loop_platform_zhb.Schedule.Validate.parse_int loop_platform_zhb.Schedule.Validate.digits_from
    loop_platform_zhb.Schedule.Validate.check_timezone
ten_accepted = refl

validate_schedule_idem_example : validate_schedule zones (js "0 10 * * *") (js "UTC") ≡ ok at_ten
validate_schedule_idem_example =
    validate_schedule_idem zones (js " 0  10 * * *") (js "UTC ") at_ten ten_accepted

-- A calendar of two months.
abbrev months : Calendar
months = record {
  instant = λ w. some (w.month * 60000);
  to_iso = λ ms. if ms == 480000 then early else today;
}

today_canonical : is_canonical_utc_iso months today ≡ true
unfolding is_canonical_utc_iso loop_platform_zhb.Schedule.Iso.parse_rfc3339_ms
    loop_platform_zhb.Schedule.Iso.read_rfc3339 loop_platform_zhb.Schedule.Iso.number
    loop_platform_zhb.Schedule.Iso.expect loop_platform_zhb.Schedule.Iso.fraction
    loop_platform_zhb.Schedule.Iso.zone loop_platform_zhb.Schedule.Iso.fraction_digits
    loop_platform_zhb.Base.str_eq
today_canonical = refl

abbrev to_ten : ScheduleTransitionPatch
to_ten = record { cron = some (some (js " 0  10 * * *")); timezone = none; enabled = none }

abbrev ten_loop : Loop
ten_loop = record goal_loop {
  cron = some (js "0 10 * * *");
  schedule_revision = 3;
  schedule_activated_at = some today;
  last_scheduled_at = none;
  updated_at = today;
  revision = 6;
}

abbrev retimed : Database
retimed = record platform { loops = ten_loop ∷ idle_loop ∷ [] }

retimes : update_schedule zones clock 1 to_ten (calm platform) ≡ result (changed ten_loop) retimed
unfolding update_schedule loop_platform_zhb.Store.with_guard_retry find_loop
    loop_platform_zhb.Store.Schedules.normalize_and_validate_patch validate_schedule
    loop_platform_zhb.Schedule.Validate.check_raw loop_platform_zhb.Base.includes
    loop_platform_zhb.Schedule.Validate.check_cron loop_platform_zhb.Base.str_eq normalize_cron
    loop_platform_zhb.Schedule.Validate.collapse trim loop_platform_zhb.Artifact.starts_with
    loop_platform_zhb.Schedule.Validate.check_segments loop_platform_zhb.Artifact.split
    loop_platform_zhb.Schedule.Validate.out_of_range loop_platform_zhb.Schedule.Validate.parse_int
    loop_platform_zhb.Schedule.Validate.digits_from loop_platform_zhb.Artifact.push_unit
    loop_platform_zhb.Base.is_whitespace loop_platform_zhb.Base.trim_end
    loop_platform_zhb.Base.trim_start loop_platform_zhb.Schedule.Validate.check_timezone
    loop_platform_zhb.Schedule.Validate.push_blank loop_platform_zhb.Schedule.apply_schedule_writes
    loop_platform_zhb.Schedule.core_writes loop_platform_zhb.Schedule.is_schedule_no_op
    loop_platform_zhb.Schedule.plan_schedule_transition
    loop_platform_zhb.Store.Schedules.execute_transition
    loop_platform_zhb.Store.Schedules.update_schedule_once
    loop_platform_zhb.Store.Schedules.verify_unchanged loop_platform_zhb.Store.cas_loop
    loop_platform_zhb.Store.update_loop
retimes = refl

nine_normal : normalize_cron (js "0 9 * * *") ≡ js "0 9 * * *"
unfolding normalize_cron loop_platform_zhb.Schedule.Validate.collapse trim
nine_normal = refl

utc_normal : trim (js "UTC") ≡ js "UTC"
unfolding trim
utc_normal = refl

nine-IsNormal : (l : Loop) → l.cron ≡ some (js "0 9 * * *") → l.timezone ≡ js "UTC" → IsNormal l
nine-IsNormal l c z = record {
  timezone = subst (λ x. trim x ≡ x) (sym z) utc_normal;
  cron = λ cron e.
      let same : js "0 9 * * *" ≡ cron = ground (arith, c, e) in
      subst (λ x. normalize_cron x ≡ x) same nine_normal;
}

platform-AllNormal : AllNormal platform
unfolding find_loop
platform-AllNormal id l h = elim (Bool-cases (1 == id)) [
  | inl first ↦ nine-IsNormal l (ground arith) (ground arith)
  | inr other ↦ nine-IsNormal l (ground arith) (ground arith)
]

update_schedule-ChangedRow_example : ChangedRow zones months ten_loop retimed
update_schedule-ChangedRow_example =
    update_schedule-ChangedRow zones months clock 1 to_ten (calm platform) ten_loop retimed
      today_canonical (calm-Interfered platform) platform-AllNormal platform-AllNormal retimes

abbrev ten_minutes : Clock
ten_minutes = record { ms = 600000; iso = today }

abbrev tick : ScheduledTrigger
tick = record { schedule_revision = 2; scheduled_for = today }

abbrev ticked : Database
ticked = record platform {
  loops = goal_loop ∷ advance_watermark today idle_loop ∷ [];
  runs = running_run ∷ supersede_row today queued_run ∷ sibling_run ∷ pending_run 50 2 7 today ∷ [];
}

ticks :
    enqueue_scheduled zones months ten_minutes 50 2 tick (calm platform)
    ≡ result (enqueued 50 (12 ∷ [])) ticked
unfolding enqueue_scheduled loop_platform_zhb.Store.with_guard_retry find_loop
    loop_platform_zhb.Store.Runs.is_machine_execution_eligible
    loop_platform_zhb.Store.Runs.Scheduled.check_scheduled
    loop_platform_zhb.Store.Runs.Scheduled.check_active
    loop_platform_zhb.Schedule.Iso.is_valid_persisted_schedule_state validate_schedule
    loop_platform_zhb.Schedule.Validate.check_raw loop_platform_zhb.Base.includes
    loop_platform_zhb.Schedule.Validate.check_cron loop_platform_zhb.Base.str_eq normalize_cron
    loop_platform_zhb.Schedule.Validate.collapse trim loop_platform_zhb.Artifact.starts_with
    loop_platform_zhb.Schedule.Validate.check_segments loop_platform_zhb.Artifact.split
    loop_platform_zhb.Artifact.push_unit loop_platform_zhb.Base.is_whitespace
    loop_platform_zhb.Base.trim_end loop_platform_zhb.Base.trim_start
    loop_platform_zhb.Schedule.Iso.expect loop_platform_zhb.Schedule.Iso.fraction
    loop_platform_zhb.Schedule.Iso.fraction_digits is_canonical_utc_iso
    loop_platform_zhb.Schedule.Iso.number loop_platform_zhb.Schedule.Iso.parse_rfc3339_ms
    loop_platform_zhb.Schedule.Iso.read_rfc3339 loop_platform_zhb.Schedule.Iso.signed_offset
    loop_platform_zhb.Schedule.Iso.zone
    loop_platform_zhb.Schedule.Time.advance_within_five_part_minute
    loop_platform_zhb.Schedule.Time.is_occurrence loop_platform_zhb.Schedule.Time.is_occurrence_on
    loop_platform_zhb.Schedule.Time.next_from next_occurrence
    loop_platform_zhb.Schedule.Time.turn_on loop_platform_zhb.Schedule.Validate.check_timezone
    loop_platform_zhb.Schedule.Validate.digits_from loop_platform_zhb.Schedule.Validate.out_of_range
    loop_platform_zhb.Schedule.Validate.parse_int loop_platform_zhb.Schedule.Validate.push_blank
    loop_platform_zhb.Store.Runs.Scheduled.check_bounds
    loop_platform_zhb.Store.Runs.Scheduled.check_occurrence
    loop_platform_zhb.Store.Runs.Scheduled.enqueue_scheduled_once
    loop_platform_zhb.Store.Runs.enqueue_tx loop_platform_zhb.Store.Runs.insert_only
    loop_platform_zhb.Store.Runs.supersede_and_insert loop_platform_zhb.Store.cas_loop
    loop_platform_zhb.Store.update_loop loop_platform_zhb.Terminal.str_lt
ticks = refl

enqueue_scheduled-Ticks_example :
    Ticks zones months ten_minutes tick 2 (enqueued 50 (12 ∷ [])) platform ticked
    ⊎ Ticks zones months ten_minutes tick 2 (enqueued 50 (12 ∷ [])) platform ticked
enqueue_scheduled-Ticks_example =
    enqueue_scheduled-Ticks zones months ten_minutes tick 50 2 (calm platform)
      (enqueued 50 (12 ∷ [])) ticked (calm-Interfered platform) ticks
