-- ===== src/Store/Schedules/Laws.antt =====
-- packages/server/src/schedule/state-machine.ts: the attempts at a schedule change and their writes.
use loop_platform_zhb.Base.{
  ◌≡◌, refl, sym, subst, ◌∙◌, ◌≢◌, ◌⊎◌, inl, inr, Bool, false, ◌&&◌, ◌||◌, Option, none, some,
  arith, get_or, is_some, Bool-cases, Option-cases, Sum-cases, ◌==◌,
}
use loop_platform_zhb.Db.{IsoTime, LoopId, Loop}
use loop_platform_zhb.Schedule.{
  ScheduleTransitionPatch, ScheduleTransitionResult, ScheduleCoreWrites, noop,
  schedule_revision_exhausted, core_state, plan_schedule_transition, apply_schedule_writes,
}
use loop_platform_zhb.Schedule.Laws.{Changed, plan_schedule_transition-Changed}
use loop_platform_zhb.Schedule.Validate.{ZoneApi, ScheduleValidation, ok, failed}
use loop_platform_zhb.Lifecycle.Snapshot.{IsValid}
use loop_platform_zhb.Store.{Database, Clock, find_loop, cas_loop, settled, result, Moments}
use loop_platform_zhb.Store.Occ.{Evolves, Bumps}
use loop_platform_zhb.Store.Manage.{commit_loop}
use loop_platform_zhb.Store.Manage.Laws.{Kept, Kept-refl, Settled-inj, commit_loop-Kept}
use loop_platform_zhb.Store.Manage.Retry.{Interfered, KeptBy, retry-By}
use loop_platform_zhb.Store.Schedules.{
  UpdateScheduleResult, not_found, loop_completed, unchanged, changed, invalid, revision_exhausted,
  verify_unchanged, normalize_and_validate_patch, normalized_by, final_failure, execute_transition,
  enables, update_schedule_once, update_schedule,
}

-- A result that no write goes with.
abbrev pub NoChange : UpdateScheduleResult → Type 0
NoChange r = (l : Loop) → r ≢ changed l

verify_unchanged-inv :
    (id : LoopId) (current : Loop) (q r : UpdateScheduleResult) (now db : Database)
    → verify_unchanged id current q now ≡ settled r db
    → (q ≡ r) × (now ≡ db)
unfolding verify_unchanged
verify_unchanged-inv id current q r now db h = elim (Option-cases (find_loop id now.loops)) [
  | inl missing ↦ let k = rw (missing, verify_unchanged) at h in cc
  | inr (row, e) ↦ elim (Bool-cases (row.revision == current.revision)) [
    | inl same ↦ let k = rw (e, same, verify_unchanged) at h in Settled-inj k
    | inr moved ↦ let k = rw (e, moved, verify_unchanged) at h in cc
  ]
]

-- An attempt that reached its write.
pub record Written (api : ZoneApi) (clock : Clock) (id : LoopId) (patch : ScheduleTransitionPatch)
    (seen now db : Database) (r : UpdateScheduleResult) : Type 0 where
  pub current : Loop
  pub normal : ScheduleTransitionPatch
  pub writes : ScheduleCoreWrites
  pub found : find_loop id seen.loops ≡ some current
  pub open_row : (is_some current.completed_at && enables patch.enabled) ≡ false
  pub normalized : normalize_and_validate_patch api current patch ≡ inr normal
  pub planned :
      plan_schedule_transition (core_state current) normal clock.iso
      ≡ ScheduleTransitionResult.changed writes
  pub accepted :
      final_failure api
        (get_or normal.cron current.cron)
        (get_or normal.timezone current.timezone)
        (is_some normal.timezone)
      ≡ none
  pub committed :
      commit_loop now changed
        (cas_loop id current.revision (apply_schedule_writes writes) now.loops)
      ≡ settled r db

abbrev Attempted :
    ZoneApi
    → Clock
    → LoopId
    → ScheduleTransitionPatch
    → Database
    → Database
    → Database
    → UpdateScheduleResult
    → Type 0
Attempted api clock id patch seen now db r =
    (NoChange r × (now ≡ db)) ⊎ Written api clock id patch seen now db r

idle :
    (q r : UpdateScheduleResult) (now db : Database)
    → NoChange q
    → (q ≡ r) × (now ≡ db)
    → NoChange r × (now ≡ db)
idle q r now db quiet (same, same_db) = (subst NoChange same quiet, same_db)

pub update_schedule_once-inv :
    (api : ZoneApi) (clock : Clock) (id : LoopId) (patch : ScheduleTransitionPatch)
    (seen now db : Database) (r : UpdateScheduleResult)
    → update_schedule_once api clock id patch seen now ≡ settled r db
    → (NoChange r × (now ≡ db)) ⊎ Written api clock id patch seen now db r
unfolding update_schedule_once execute_transition
update_schedule_once-inv api clock id patch seen now db r h =
    elim (Option-cases (find_loop id seen.loops)) [
      | inl missing ↦ inl (
          idle not_found r now db (λ l e. cc)
            (Settled-inj (rw (missing, update_schedule_once) at h)))
      | inr (current, e) ↦
          elim (Bool-cases (is_some current.completed_at && enables patch.enabled)) [
            | inl closed ↦ inl (
                idle (loop_completed current) r now db (λ l k. cc)
                  (verify_unchanged-inv id current _ r now db
                    (rw (e, closed, update_schedule_once) at h)))
            | inr free ↦ elim (Sum-cases (normalize_and_validate_patch api current patch)) [
              | inl (f, bad) ↦ inl (
                  idle (invalid f) r now db (λ l k. cc)
                    (Settled-inj (rw (e, free, bad, update_schedule_once) at h)))
              | inr (p, good) ↦
                  go current e free p good
                    (plan_schedule_transition (core_state current) p clock.iso) refl
                    (rw (e, free, good, update_schedule_once) at h)
            ]
          ]
    ]
  where
    go :
        (current : Loop)
        → find_loop id seen.loops ≡ some current
        → (is_some current.completed_at && enables patch.enabled) ≡ false
        → (p : ScheduleTransitionPatch) → normalize_and_validate_patch api current patch ≡ inr p
        → (plan : ScheduleTransitionResult)
        → plan_schedule_transition (core_state current) p clock.iso ≡ plan
        → execute_transition api id current p plan now ≡ settled r db
        → Attempted api clock id patch seen now db r
    go current e free p good noop k w = inl (
        idle (unchanged current) r now db (λ l x. cc)
          (verify_unchanged-inv id current _ r now db w))
    go current e free p good schedule_revision_exhausted k w = inl (
        idle revision_exhausted r now db (λ l x. cc) (verify_unchanged-inv id current _ r now db w))
    go current e free p good (ScheduleTransitionResult.changed writes) k w =
        elim (Option-cases (
          final_failure api (get_or p.cron current.cron) (get_or p.timezone current.timezone)
            (is_some p.timezone))) [
              | inr (f, bad) ↦ inl (
                  idle (invalid f) r now db (λ l x. cc)
                    (Settled-inj (rw (bad, execute_transition) at w)))
              | inl fine ↦ inr (record {
                current = current;
                normal = p;
                writes = writes;
                found = e;
                open_row = free;
                normalized = good;
                planned = k;
                accepted = fine;
                committed = rw (fine, execute_transition) at w;
              })
            ]

pub apply_schedule_writes-Bumps :
    (writes : ScheduleCoreWrites) → Bumps (apply_schedule_writes writes)
unfolding apply_schedule_writes
apply_schedule_writes-Bumps writes = record { same_id = λ l. refl; next = λ l. refl }

normalized_by-enabled :
    (patch p : ScheduleTransitionPatch) (v : ScheduleValidation)
    → normalized_by patch v ≡ inr p
    → p.enabled ≡ patch.enabled
normalized_by-enabled patch p (ok n) h = sym (cc)
normalized_by-enabled patch p (failed f) h = cc

normalized-enabled :
    (api : ZoneApi) (current : Loop) (patch p : ScheduleTransitionPatch)
    → normalize_and_validate_patch api current patch ≡ inr p
    → p.enabled ≡ patch.enabled
unfolding normalize_and_validate_patch
normalized-enabled api current patch p h =
    elim (Bool-cases (is_some patch.cron || is_some patch.timezone)) [
      | inl checks ↦
          normalized_by-enabled patch p _ (rw (checks, normalize_and_validate_patch) at h)
      | inr plain ↦ let k = rw (plain, normalize_and_validate_patch) at h in ground arith
    ]

still_off : (e : Option Bool) (was : Bool) → enables e ≡ false → was ≡ false → get_or e was ≡ false
still_off none was h k = k
still_off (some b) was h k = h

written-IsValid :
    (old : Loop) (p : ScheduleTransitionPatch) (now_iso : IsoTime) (writes : ScheduleCoreWrites)
    → Changed p now_iso old (apply_schedule_writes writes old)
    → (is_some old.completed_at && enables p.enabled) ≡ false
    → IsValid old
    → IsValid (apply_schedule_writes writes old)
unfolding apply_schedule_writes
written-IsValid old p now_iso writes c free v = record {
  goal_revision = v.goal_revision;
  schedule_revision = c.in_range;
  goal = v.goal;
  completion = elim v.completion [
    | inl untouched ↦ inl untouched
    | inr (done, goal, reason, off) ↦
        inr (done, goal, reason, c.enabled ∙ still_off p.enabled old.enabled (ground arith) off)
  ];
}

-- The row that a change leads to.
pub Written-Changed :
    {api : ZoneApi} {clock : Clock} {id : LoopId} {patch : ScheduleTransitionPatch}
    {seen now db : Database} {r : UpdateScheduleResult}
    (w : Written api clock id patch seen now db r)
    → Changed w.normal clock.iso w.current (apply_schedule_writes w.writes w.current)
Written-Changed {clock = clock} w =
    plan_schedule_transition-Changed w.current w.normal clock.iso w.writes w.planned

Written-Kept :
    {api : ZoneApi} {clock : Clock} {id : LoopId} {patch : ScheduleTransitionPatch}
    {seen now db : Database} {r : UpdateScheduleResult}
    → Evolves seen.loops now.loops
    → Written api clock id patch seen now db r
    → Kept now.loops db.loops
Written-Kept {api} {clock} {id} {patch} {seen} {now} {db} {r} ev w =
    let same = normalized-enabled api w.current patch w.normal w.normalized in
    let free =
      subst (λ e. (is_some w.current.completed_at && enables e) ≡ false) (sym same) w.open_row in
    commit_loop-Kept seen now now db id w.current (apply_schedule_writes w.writes) changed r ev
      w.found (apply_schedule_writes-Bumps w.writes)
      (written-IsValid w.current w.normal clock.iso w.writes (Written-Changed w) free) w.committed

-- A schedule change with its retry that settles, under token-increasing interference, keeps every
-- loop valid and every row unchanged or with a greater token.
pub update_schedule-KeptBy :
    (api : ZoneApi) (clock : Clock) (id : LoopId) (patch : ScheduleTransitionPatch) (m : Moments)
    (r : UpdateScheduleResult) (db : Database)
    → Interfered m
    → update_schedule api clock id patch m ≡ result r db
    → KeptBy m db
unfolding update_schedule
update_schedule-KeptBy api clock id patch m r db i h =
    retry-By (λ q now after. Kept now.loops after.loops) (update_schedule_once api clock id patch) m
      r db
      (λ seen now after q ev e.
        elim (update_schedule_once-inv api clock id patch seen now after q e) [
          | inl (quiet, same) ↦ subst (λ d. Kept now.loops d.loops) same (Kept-refl now.loops)
          | inr w ↦ Written-Kept ev w
        ])
      i h
