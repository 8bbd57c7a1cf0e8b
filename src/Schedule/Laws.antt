-- ===== src/Schedule/Laws.antt =====
-- What a schedule transition does to a loop row.
use loop_platform_zhb.Base.{
  ◌+◌, ◌≤◌, ◌<◌, ◌≡◌, refl, ◌↔◌, JsString, Bool, true, false, ◌&&◌, Option, none, some, arith,
  str_eq_iff, get_or, is_some, Bool-cases, inl, inr, ◌⊎◌, sym, subst,
}
use loop_platform_zhb.Db.{IsoTime, Loop}
use loop_platform_zhb.Schedule.{
  ScheduleCoreState, ScheduleTransitionPatch, ScheduleCoreWrites, noop, schedule_revision_exhausted,
  changed, core_state, revision_int32_max, opt_str_eq, cron_kept, timezone_kept, enabled_kept,
  is_schedule_no_op, plan_schedule_transition, apply_schedule_writes, core_writes,
}

pub opt_str_eq_iff : (a b : Option JsString) → (opt_str_eq a b ≡ true) ↔ (a ≡ b)
opt_str_eq_iff none none = ground arith
opt_str_eq_iff none (some t) = ground arith
opt_str_eq_iff (some s) none = ground arith
opt_str_eq_iff (some s) (some t) = ground (arith, str_eq_iff s t)

cron_kept_iff :
    (p : Option (Option JsString)) (c : Option JsString) → (cron_kept p c ≡ true) ↔ (get_or p c ≡ c)
cron_kept_iff none c = ground arith
cron_kept_iff (some q) c = opt_str_eq_iff q c

timezone_kept_iff :
    (p : Option JsString) (c : JsString) → (timezone_kept p c ≡ true) ↔ (get_or p c ≡ c)
timezone_kept_iff none c = ground arith
timezone_kept_iff (some q) c = str_eq_iff q c

enabled_kept_iff : (p : Option Bool) (c : Bool) → (enabled_kept p c ≡ true) ↔ (get_or p c ≡ c)
enabled_kept_iff none c = ground arith
enabled_kept_iff (some q) c = ground arith

-- The row already has every value that the patch names.
pub record Satisfies (patch : ScheduleTransitionPatch) (loop : Loop) : Type 0 where
  pub cron : get_or patch.cron loop.cron ≡ loop.cron
  pub timezone : get_or patch.timezone loop.timezone ≡ loop.timezone
  pub enabled : get_or patch.enabled loop.enabled ≡ loop.enabled

pub is_schedule_no_op_iff :
    (loop : Loop) (patch : ScheduleTransitionPatch)
    → (is_schedule_no_op (core_state loop) patch ≡ true) ↔ Satisfies patch loop
unfolding is_schedule_no_op
is_schedule_no_op_iff loop patch =
    let c = cron_kept_iff patch.cron loop.cron in
    let t = timezone_kept_iff patch.timezone loop.timezone in
    let e = enabled_kept_iff patch.enabled loop.enabled in
    (
      λ h. record {
        cron = c.0 (ground arith);
        timezone = t.0 (ground arith);
        enabled = e.0 (ground arith);
      },
      λ s. ground (arith, c.1 s.cron, t.1 s.timezone, e.1 s.enabled),
    )

-- The activation stamp stands exactly on enabled loops with a cron expression.
abbrev pub IsArmed : Loop → Type 0
IsArmed loop = is_some loop.schedule_activated_at ≡ (loop.enabled && is_some loop.cron)

-- The row that an effective change leads to.
pub record Changed (patch : ScheduleTransitionPatch) (now_iso : IsoTime) (old loop : Loop)
    : Type 0 where
  pub satisfied : Satisfies patch loop
  pub cron : loop.cron ≡ get_or patch.cron old.cron
  pub timezone : loop.timezone ≡ get_or patch.timezone old.timezone
  pub enabled : loop.enabled ≡ get_or patch.enabled old.enabled
  pub armed : IsArmed loop
  pub fresh : (loop.schedule_activated_at ≡ none) ⊎ (loop.schedule_activated_at ≡ some now_iso)
  pub no_watermark : loop.last_scheduled_at ≡ none
  pub next_revision : loop.schedule_revision ≡ old.schedule_revision + 1
  pub in_range : loop.schedule_revision ≤ revision_int32_max
  pub stamped : loop.updated_at ≡ now_iso
  pub occ : loop.revision ≡ old.revision + 1

get_or_settled {ℓ} : {A : Type ℓ} (p : Option A) (c : A) → get_or p (get_or p c) ≡ get_or p c
get_or_settled none c = refl
get_or_settled (some a) c = refl

core_writes-Changed :
    (loop : Loop) (patch : ScheduleTransitionPatch) (now_iso : IsoTime)
    → loop.schedule_revision < revision_int32_max
    → Changed patch now_iso loop
        (apply_schedule_writes (core_writes (core_state loop) patch now_iso) loop)
unfolding core_writes apply_schedule_writes
core_writes-Changed loop patch now_iso room = record {
  satisfied = record {
    cron = get_or_settled patch.cron loop.cron;
    timezone = get_or_settled patch.timezone loop.timezone;
    enabled = get_or_settled patch.enabled loop.enabled;
  };
  cron = refl;
  timezone = refl;
  enabled = refl;
  armed = ground arith;
  fresh = ground arith;
  no_watermark = refl;
  next_revision = refl;
  in_range = omega arith;
  stamped = refl;
  occ = refl;
}

pub changed-inv :
    (current : ScheduleCoreState) (patch : ScheduleTransitionPatch) (now_iso : IsoTime)
    (writes : ScheduleCoreWrites)
    → plan_schedule_transition current patch now_iso ≡ changed writes
    → (is_schedule_no_op current patch ≡ false)
      × (current.schedule_revision < revision_int32_max)
      × (writes ≡ core_writes current patch now_iso)
unfolding plan_schedule_transition
changed-inv current patch now_iso writes h = (ground arith, ground arith, ground arith)

-- An effective schedule change gives the row every value that the patch names and keeps the others,
-- with the next revision within int32, an activation stamp of now exactly when it is enabled with a
-- cron, no watermark, and the next concurrency token.
pub plan_schedule_transition-Changed :
    (loop : Loop) (patch : ScheduleTransitionPatch) (now_iso : IsoTime)
    (writes : ScheduleCoreWrites)
    → plan_schedule_transition (core_state loop) patch now_iso ≡ changed writes
    → Changed patch now_iso loop (apply_schedule_writes writes loop)
plan_schedule_transition-Changed loop patch now_iso writes h =
    let (differs, room, same) = changed-inv (core_state loop) patch now_iso writes h in
    subst (λ w. Changed patch now_iso loop (apply_schedule_writes w loop)) (sym same)
      (core_writes-Changed loop patch now_iso room)

-- The plan is a no-op exactly when the row satisfies the patch, and exhausted exactly when it does
-- not and the revision has reached the int32 ceiling.
pub plan_schedule_transition_cases :
    (loop : Loop) (patch : ScheduleTransitionPatch) (now_iso : IsoTime)
    → ((plan_schedule_transition (core_state loop) patch now_iso ≡ noop) ↔ Satisfies patch loop)
      × ((plan_schedule_transition (core_state loop) patch now_iso ≡ schedule_revision_exhausted)
          ↔ ((¬ Satisfies patch loop) × (revision_int32_max ≤ loop.schedule_revision)))
unfolding plan_schedule_transition
plan_schedule_transition_cases loop patch now_iso =
    let i = is_schedule_no_op_iff loop patch in
    (
      (λ h. i.0 (ground arith), λ s. ground (arith, i.1 s)),
      (
        λ h. (λ s. ground (arith, i.1 s), ground arith),
        λ h. elim (Bool-cases (is_schedule_no_op (core_state loop) patch)) [
          | inl same ↦ absurd (h.0 (i.0 same))
          | inr differs ↦ ground arith
        ],
      ),
    )

-- Planning the same patch again on the changed row is a no-op.
pub plan_schedule_transition_settles :
    (loop : Loop) (patch : ScheduleTransitionPatch) (now_iso later : IsoTime)
    (writes : ScheduleCoreWrites)
    → plan_schedule_transition (core_state loop) patch now_iso ≡ changed writes
    → plan_schedule_transition (core_state (apply_schedule_writes writes loop)) patch later ≡ noop
plan_schedule_transition_settles loop patch now_iso later writes h =
    (plan_schedule_transition_cases (apply_schedule_writes writes loop) patch later).0.1
      (plan_schedule_transition-Changed loop patch now_iso writes h).satisfied
