-- ===== src/Store/Runs/Watermark.antt =====
-- packages/server/src/store/runs.ts: the checks of a scheduled enqueue, and the watermark.
use loop_platform_zhb.Base.{
  ℕ, ◌+◌, ◌≤◌, ◌≡◌, refl, sym, subst, ap, ◌∙◌, ◌⊎◌, inl, inr, JsString, Bool, true, false,
  if◌then◌else◌, Option, none, some, List, arith, is_some, Bool-cases, Option-cases,
}
use loop_platform_zhb.Db.{IsoTime, LoopId, RunId, Loop, running}
use loop_platform_zhb.Terminal.{str_lt}
use loop_platform_zhb.Schedule.Time.{is_occurrence}
use loop_platform_zhb.Schedule.Validate.{ZoneApi}
use loop_platform_zhb.Schedule.Iso.{Calendar, parse_rfc3339_ms}
use loop_platform_zhb.Store.{Database, Clock, find_loop, cas_loop, settled, result, Moments}
use loop_platform_zhb.Store.Occ.{Evolves, cas_loop-lands, cas_loop-found}
use loop_platform_zhb.Store.Manage.Laws.{Kept-refl, Settled-inj}
use loop_platform_zhb.Store.Manage.Retry.{Interfered, retry-By}
use loop_platform_zhb.Store.Runs.{
  EnqueueRefusal, running_exists, EnqueueExecRunResult, enqueued, refused, raised, scheduled,
  has_run_in_phase, is_machine_execution_eligible, enqueue_tx, advance_watermark,
  supersede_and_insert,
}
use loop_platform_zhb.Store.Runs.Live.{
  Enqueues, enqueue_tx-Enqueues, refused-Enqueues, guarded-inv, advance_watermark-Bumps,
}
use loop_platform_zhb.Store.Runs.Exclusive.{find_loop-id}
use loop_platform_zhb.Store.Runs.Scheduled.{
  ScheduledTrigger, ScheduledCheck, canonical, refuse, throws, check_bounds, if_occurrence,
  check_occurrence, check_active, check_scheduled, enqueue_checked, enqueue_scheduled_once,
  enqueue_scheduled,
}

-- Why a trigger fires on a row, at a canonical stamp.
pub record Fires (api : ZoneApi) (calendar : Calendar) (clock : Clock) (trigger : ScheduledTrigger)
    (loop : Loop) (at : IsoTime) : Type 0 where
  pub ms : ℕ
  pub cron : JsString
  pub parsed : parse_rfc3339_ms calendar trigger.scheduled_for ≡ some ms
  pub stamp : at ≡ calendar.to_iso ms
  pub scheduled_by : loop.cron ≡ some cron
  pub genuine :
      is_occurrence api.cron (record { cron = cron; timezone = loop.timezone }) ms ≡ some true
  pub past : ms ≤ clock.ms
  pub enabled : loop.enabled ≡ true
  pub not_completed : is_some loop.completed_at ≡ false
  pub current : loop.schedule_revision ≡ trigger.schedule_revision
  pub after_activation : (a : IsoTime) → loop.schedule_activated_at ≡ some a → str_lt a at ≡ true
  pub after_watermark : (w : IsoTime) → loop.last_scheduled_at ≡ some w → str_lt w at ≡ true

module _ (api : ZoneApi) (calendar : Calendar) (clock : Clock) (loop : Loop) where
  bounds-canonical :
      (ms : ℕ) (at : IsoTime)
      → check_bounds calendar clock loop ms ≡ canonical at
      → (at ≡ calendar.to_iso ms)
        × (ms ≤ clock.ms)
        × ((a : IsoTime) → loop.schedule_activated_at ≡ some a → str_lt a at ≡ true)
        × ((w : IsoTime) → loop.last_scheduled_at ≡ some w → str_lt w at ≡ true)
  unfolding check_bounds
  bounds-canonical ms at h = (ground arith, ground arith, λ a e. ground arith, λ w e. ground arith)

  if_occurrence-canonical :
      (o : Option Bool) (next : ScheduledCheck) (at : IsoTime)
      → if_occurrence o next ≡ canonical at
      → (o ≡ some true) × (next ≡ canonical at)
  if_occurrence-canonical none next at h = cc
  if_occurrence-canonical (some false) next at h = cc
  if_occurrence-canonical (some true) next at h = (refl, h)

  active-canonical :
      (scheduled_for : JsString) (o : Option JsString) (at : IsoTime)
      → check_active api calendar clock loop scheduled_for o ≡ canonical at
      → (cron : JsString) × (o ≡ some cron)
        × (loop.enabled ≡ true)
        × (check_occurrence api calendar clock loop cron (parse_rfc3339_ms calendar scheduled_for)
            ≡ canonical at)
  unfolding check_active
  active-canonical scheduled_for none at h = cc
  active-canonical scheduled_for (some cron) at h = (cron, refl, ground arith, ground arith)

  occurrence-canonical :
      (cron : JsString) (o : Option ℕ) (at : IsoTime)
      → check_occurrence api calendar clock loop cron o ≡ canonical at
      → (ms : ℕ) × (o ≡ some ms)
        × (is_occurrence api.cron (record { cron = cron; timezone = loop.timezone }) ms ≡ some true)
        × (check_bounds calendar clock loop ms ≡ canonical at)
  unfolding check_occurrence
  occurrence-canonical cron none at h = cc
  occurrence-canonical cron (some ms) at h =
      let (genuine, rest) =
        if_occurrence-canonical
          (is_occurrence api.cron (record { cron = cron; timezone = loop.timezone }) ms)
          (check_bounds calendar clock loop ms) at h in
      (ms, refl, genuine, rest)

  scheduled-canonical :
      (trigger : ScheduledTrigger) (at : IsoTime)
      → check_scheduled api calendar clock loop trigger ≡ canonical at
      → (is_some loop.completed_at ≡ false)
        × (loop.schedule_revision ≡ trigger.schedule_revision)
        × (check_active api calendar clock loop trigger.scheduled_for loop.cron ≡ canonical at)
  unfolding check_scheduled
  scheduled-canonical trigger at h = (ground arith, ground arith, ground arith)

  pub check_scheduled-Fires :
      (trigger : ScheduledTrigger) (at : IsoTime)
      → check_scheduled api calendar clock loop trigger ≡ canonical at
      → Fires api calendar clock trigger loop at
  check_scheduled-Fires trigger at h =
      let (fresh, same, active) = scheduled-canonical trigger at h in
      let (cron, e, on, occurs) = active-canonical trigger.scheduled_for loop.cron at active in
      let (ms, parsed, genuine, bounds) =
        occurrence-canonical cron (parse_rfc3339_ms calendar trigger.scheduled_for) at occurs in
      let (stamp, past, activation, watermark) = bounds-canonical ms at bounds in
      record {
        ms = ms;
        cron = cron;
        parsed = parsed;
        stamp = stamp;
        scheduled_by = e;
        genuine = genuine;
        past = past;
        enabled = on;
        not_completed = fresh;
        current = same;
        after_activation = activation;
        after_watermark = watermark;
      }

-- What a settled attempt at a scheduled enqueue establishes.
pub record Ticks (api : ZoneApi) (calendar : Calendar) (clock : Clock) (trigger : ScheduledTrigger)
    (id : LoopId) (r : EnqueueExecRunResult) (now db : Database) : Type 0 where
  pub enqueues : Enqueues id r now db
  pub fires :
      (run_id : RunId) (superseded : List RunId)
      → r ≡ enqueued run_id superseded
      → (old : Loop) × (at : IsoTime) × (find_loop id now.loops ≡ some old)
        × Fires api calendar clock trigger old at
        × (find_loop id db.loops
            ≡ some (record old { last_scheduled_at = some at; revision = old.revision + 1 }))

module _ (api : ZoneApi) (calendar : Calendar) (clock : Clock) (trigger : ScheduledTrigger) where
  refused-Ticks :
      (id : LoopId) (why : EnqueueRefusal) (r : EnqueueExecRunResult) (now db : Database)
      → settled (refused why) now ≡ settled r db
      → Ticks api calendar clock trigger id r now db
  refused-Ticks id why r now db h = record {
    enqueues = refused-Enqueues id why r now now db (Kept-refl now.loops) refl h;
    fires = λ run_id superseded e. absurd (ground (arith, (Settled-inj h).0));
  }

  raised-Ticks :
      (id : LoopId) (r : EnqueueExecRunResult) (now db : Database)
      → settled raised now ≡ settled r db
      → Ticks api calendar clock trigger id r now db
  raised-Ticks id r now db h =
      let same : now ≡ db = (Settled-inj h).1 in
      let answer : raised ≡ r = (Settled-inj h).0 in
      subst (Ticks api calendar clock trigger id r now) same (record {
        enqueues = record {
          sound = record { loops = Kept-refl now.loops; one = λ o. o };
          alone = λ run_id superseded e. absurd (ground arith);
        };
        fires = λ run_id superseded e. absurd (ground arith);
      })

  -- Where the transaction enqueues, its guarded write has advanced the watermark.
  tx-advances :
      (run_id : RunId) (current : Loop) (at : IsoTime) (seen now db : Database) (q : RunId)
      (superseded : List RunId)
      → Evolves seen.loops now.loops
      → find_loop current.id seen.loops ≡ some current
      → enqueue_tx clock run_id current (scheduled at) now ≡ settled (enqueued q superseded) db
      → (find_loop current.id now.loops ≡ some current)
        × (find_loop current.id db.loops ≡ some (advance_watermark at current))
  unfolding enqueue_tx supersede_and_insert
  tx-advances run_id current at seen now db q superseded ev s h =
      let (new, rows, e, k) =
        guarded-inv now (cas_loop current.id current.revision (advance_watermark at) now.loops)
          (λ after.
            if has_run_in_phase after.runs current.id running
            then settled (refused running_exists) after
            else supersede_and_insert clock run_id current.id current.machine_id after)
          (enqueued q superseded) db h in
      let (lands, same) =
        cas_loop-lands seen.loops now.loops current.id current (advance_watermark at) new rows ev s
          e in
      let there =
        cas_loop-found current.id (advance_watermark at) now.loops rows current new
          (advance_watermark-Bumps at) lands e in
      elim (Bool-cases (has_run_in_phase now.runs current.id running)) [
        | inl busy ↦ let z = (Settled-inj (rw busy at k)).0 in cc
        | inr idle ↦
            let z = ap (λ d. d.loops) (Settled-inj (rw idle at k)).1 in
            (
              lands,
              subst (λ x. find_loop current.id x ≡ some (advance_watermark at current)) z there,
            )
      ]

  checked-Ticks :
      (run_id : RunId) (current : Loop) (check : ScheduledCheck) (seen now db : Database)
      (r : EnqueueExecRunResult)
      → Evolves seen.loops now.loops
      → find_loop current.id seen.loops ≡ some current
      → check_scheduled api calendar clock current trigger ≡ check
      → enqueue_checked clock run_id current check now ≡ settled r db
      → Ticks api calendar clock trigger current.id r now db
  checked-Ticks run_id current (refuse why) seen now db r ev s c h =
      refused-Ticks current.id why r now db h
  checked-Ticks run_id current throws seen now db r ev s c h = raised-Ticks current.id r now db h
  checked-Ticks run_id current (canonical at) seen now db r ev s c h = record {
    enqueues = enqueue_tx-Enqueues clock run_id seen current (scheduled at) now db r ev s h;
    fires = λ q superseded e.
        let (lands, advanced) =
          tx-advances run_id current at seen now db q superseded ev s
            (h ∙ ap (λ x. settled x db) e) in
        (
          current,
          at,
          lands,
          check_scheduled-Fires api calendar clock current trigger at c,
          advanced,
        );
  }

  once-Ticks :
      (run_id : RunId) (id : LoopId) (seen now db : Database) (r : EnqueueExecRunResult)
      → Evolves seen.loops now.loops
      → enqueue_scheduled_once api calendar clock run_id id trigger seen now ≡ settled r db
      → Ticks api calendar clock trigger id r now db
  unfolding enqueue_scheduled_once
  once-Ticks run_id id seen now db r ev h = elim (Option-cases (find_loop id seen.loops)) [
    | inl missing ↦ refused-Ticks id _ r now db (rw (missing, enqueue_scheduled_once) at h)
    | inr (l, e) ↦ elim (Bool-cases (is_machine_execution_eligible seen.machines l.machine_id)) [
      | inr ineligible ↦
          refused-Ticks id _ r now db (rw (e, ineligible, enqueue_scheduled_once) at h)
      | inl eligible ↦
          let same = find_loop-id id seen.loops l e in
          subst (λ k. Ticks api calendar clock trigger k r now db) same
            (checked-Ticks run_id l (check_scheduled api calendar clock l trigger) seen now db r ev
              (subst (λ k. find_loop k seen.loops ≡ some l) (sym same) e) refl
              (rw (e, eligible, enqueue_scheduled_once) at h))
    ]
  ]

  -- A scheduled enqueue with its retry that settles, under token-increasing interference, keeps
  -- every loop valid, every row unchanged or with a greater token, and every loop to one exec run
  -- in flight; where it enqueues, the loop was enabled, not completed, of the trigger's revision,
  -- the stamp is a genuine occurrence of its schedule that is not in the future and lies after the
  -- activation and the watermark, and the stored row is that loop with the stamp as its watermark.
  pub enqueue_scheduled-Ticks :
      (run_id : RunId) (id : LoopId) (m : Moments) (r : EnqueueExecRunResult) (db : Database)
      → Interfered m
      → enqueue_scheduled api calendar clock run_id id trigger m ≡ result r db
      → Ticks api calendar clock trigger id r m.now db
        ⊎ Ticks api calendar clock trigger id r m.now_again db
  unfolding enqueue_scheduled
  enqueue_scheduled-Ticks run_id id m r db i h =
      retry-By (Ticks api calendar clock trigger id)
        (enqueue_scheduled_once api calendar clock run_id id trigger) m r db
        (λ seen now after q ev e. once-Ticks run_id id seen now after q ev e) i h
