-- ===== src/Schedule.antt =====
-- packages/server/src/schedule/transition.ts: the one computation of revision, activation and
-- watermark for a schedule change.
pub mod Laws
pub mod Time
pub mod Validate
pub mod Iso
use loop_platform_zhb.Base.{
  ℕ, ◌+◌, JsString, Bool, true, false, ◌&&◌, not, Option, none, some, leb, if◌then◌else◌, str_eq,
  get_or, is_some,
}
use loop_platform_zhb.Db.{IsoTime, Loop}

abbrev pub revision_int32_max : ℕ
revision_int32_max = 2147483647

pub record ScheduleCoreState : Type 0 where
  pub cron : Option JsString
  pub timezone : JsString
  pub enabled : Bool
  pub schedule_revision : ℕ

-- The slice of a loop row that the core reads.
abbrev pub core_state : Loop → ScheduleCoreState
core_state loop = record {
  cron = loop.cron;
  timezone = loop.timezone;
  enabled = loop.enabled;
  schedule_revision = loop.schedule_revision;
}

-- `none` is an absent key; `some none` for `cron` is an explicit null.
pub record ScheduleTransitionPatch : Type 0 where
  pub cron : Option (Option JsString)
  pub timezone : Option JsString
  pub enabled : Option Bool

pub record ScheduleCoreWrites : Type 0 where
  pub cron : Option (Option JsString)
  pub timezone : Option JsString
  pub enabled : Option Bool
  pub schedule_revision : ℕ
  pub schedule_activated_at : Option IsoTime
  pub last_scheduled_at : Option IsoTime
  pub updated_at : IsoTime

pub data ScheduleTransitionResult : Type 0 where
  noop schedule_revision_exhausted : ScheduleTransitionResult
  changed : ScheduleCoreWrites → ScheduleTransitionResult

abbrev pub bool_eq : Bool → Bool → Bool
bool_eq true b = b
bool_eq false b = not b

-- `a === b` for texts that may be null
abbrev pub opt_str_eq : Option JsString → Option JsString → Bool
opt_str_eq none none = true
opt_str_eq (some s) (some t) = str_eq s t
opt_str_eq _ _ = false

-- `specified === undefined || specified === current`
abbrev cron_kept : Option (Option JsString) → Option JsString → Bool
cron_kept none current = true
cron_kept (some specified) current = opt_str_eq specified current

abbrev timezone_kept : Option JsString → JsString → Bool
timezone_kept none current = true
timezone_kept (some specified) current = str_eq specified current

abbrev enabled_kept : Option Bool → Bool → Bool
enabled_kept none current = true
enabled_kept (some specified) current = bool_eq specified current

unfoldable pub is_schedule_no_op : ScheduleCoreState → ScheduleTransitionPatch → Bool
is_schedule_no_op current patch =
    if not (cron_kept patch.cron current.cron)
    then false
    else if not (timezone_kept patch.timezone current.timezone)
    then false
    else if not (enabled_kept patch.enabled current.enabled)
    then false
    else true

unfoldable pub core_writes :
    ScheduleCoreState → ScheduleTransitionPatch → IsoTime → ScheduleCoreWrites
core_writes current patch now_iso =
    let final_cron = get_or patch.cron current.cron in
    let final_enabled = get_or patch.enabled current.enabled in
    let is_active = final_enabled && is_some final_cron in
    record {
      cron = patch.cron;
      timezone = patch.timezone;
      enabled = patch.enabled;
      schedule_revision = current.schedule_revision + 1;
      schedule_activated_at = if is_active then some now_iso else none;
      last_scheduled_at = none;
      updated_at = now_iso;
    }

unfoldable pub plan_schedule_transition :
    ScheduleCoreState → ScheduleTransitionPatch → IsoTime → ScheduleTransitionResult
plan_schedule_transition current patch now_iso =
    if is_schedule_no_op current patch
    then noop
    else if leb revision_int32_max current.schedule_revision
    then schedule_revision_exhausted
    else changed (core_writes current patch now_iso)

-- `UPDATE loops SET …writes` of state-machine.ts: an absent key leaves its column.
unfoldable pub apply_schedule_writes : ScheduleCoreWrites → Loop → Loop
apply_schedule_writes writes loop = record loop {
  cron = get_or writes.cron loop.cron;
  timezone = get_or writes.timezone loop.timezone;
  enabled = get_or writes.enabled loop.enabled;
  schedule_revision = writes.schedule_revision;
  schedule_activated_at = writes.schedule_activated_at;
  last_scheduled_at = writes.last_scheduled_at;
  updated_at = writes.updated_at;
  revision = loop.revision + 1;
}
