-- ===== src/Store/Schedules/Persisted.antt =====
-- packages/server/src/schedule/state-machine.ts: the row that a schedule change persists, and the test of
-- persisted schedules in time-semantics.ts.
use loop_platform_zhb.Base.{
  ◌≡◌, refl, sym, subst, ap, ◌∙◌, ◌⊎◌, inl, inr, JsString, true, ◌||◌, Option, none, some, List,
  arith, get_or, is_some, trim, str_eq_iff, Bool-cases,
}
use loop_platform_zhb.Base.Trim.{trim_idem}
use loop_platform_zhb.Db.{LoopId, Loop}
use loop_platform_zhb.Schedule.{ScheduleTransitionPatch, apply_schedule_writes}
use loop_platform_zhb.Schedule.Laws.{Changed}
use loop_platform_zhb.Schedule.Time.{NormalizedSchedule}
use loop_platform_zhb.Schedule.Validate.{
  ZoneApi, ScheduleFailure, ScheduleValidation, ok, failed, validate_schedule, normalize_cron,
}
use loop_platform_zhb.Schedule.Validate.Normal.{validate_schedule_sound, normalize_cron_idem}
use loop_platform_zhb.Schedule.Iso.{
  Calendar, PersistedScheduleState, is_canonical_utc_iso, is_normalized, activation_ok,
  is_valid_persisted_schedule_state,
}
use loop_platform_zhb.Store.{Database, Clock, find_loop, cas_loop, settled, result, Moments}
use loop_platform_zhb.Store.Occ.{Evolves, cas_loop-lands, cas_loop-found, with_guard_retry-inv}
use loop_platform_zhb.Store.Manage.Laws.{Settled-inj}
use loop_platform_zhb.Store.Manage.{commit_loop}
use loop_platform_zhb.Store.Runs.Exclusive.{find_loop-id}
use loop_platform_zhb.Store.Manage.Retry.{Interfered}
use loop_platform_zhb.Store.Schedules.{
  UpdateScheduleResult, changed, normalize_and_validate_patch, final_failure, failure_of,
  normalized_by, normalized_cron, normalized_timezone, dummy_cron, update_schedule_once,
  update_schedule,
}
use loop_platform_zhb.Store.Schedules.Laws.{
  Written, Written-Changed, update_schedule_once-inv, apply_schedule_writes-Bumps,
}

-- The cron and the timezone of a row as normalisation leaves them.
pub record IsNormal (loop : Loop) : Type 0 where
  pub timezone : trim loop.timezone ≡ loop.timezone
  pub cron : (c : JsString) → loop.cron ≡ some c → normalize_cron c ≡ c

abbrev pub AllNormal : Database → Type 0
AllNormal db = (id : LoopId) (l : Loop) → find_loop id db.loops ≡ some l → IsNormal l

-- The slice of a row with a cron that the test reads.
abbrev pub persisted : JsString → Loop → PersistedScheduleState
persisted cron loop = record {
  cron = cron;
  timezone = loop.timezone;
  schedule_revision = loop.schedule_revision;
  schedule_activated_at = loop.schedule_activated_at;
  last_scheduled_at = loop.last_scheduled_at;
}

validation_ok :
    (v : ScheduleValidation) → failure_of v ≡ none → (n : NormalizedSchedule) × (v ≡ ok n)
validation_ok (ok n) h = (n, refl)
validation_ok (failed f) h = cc

-- A valid pair in normal form passes the round trip.
pub accepted-is_normalized :
    (api : ZoneApi) (cron timezone : JsString)
    → failure_of (validate_schedule api cron timezone) ≡ none
    → normalize_cron cron ≡ cron
    → trim timezone ≡ timezone
    → is_normalized (validate_schedule api cron timezone) cron timezone ≡ true
accepted-is_normalized api cron timezone h c t =
    let (n, e) = validation_ok (validate_schedule api cron timezone) h in
    let v = validate_schedule_sound api cron timezone n e in
    let same : n.cron ≡ cron = v.normal_cron ∙ c in
    let same_zone : n.timezone ≡ timezone = v.normal_timezone ∙ t in
    rw (e) (
      ground (arith, (str_eq_iff n.cron cron).1 same, (str_eq_iff n.timezone timezone).1 same_zone))

-- A patch whose values stand in normal form.
record Fresh (p : ScheduleTransitionPatch) : Type 0 where
  pub timezone : (t : JsString) → p.timezone ≡ some t → trim t ≡ t
  pub cron : (c : JsString) → p.cron ≡ some (some c) → normalize_cron c ≡ c

normalized_by-Fresh :
    (patch p : ScheduleTransitionPatch) (n : NormalizedSchedule)
    → trim n.timezone ≡ n.timezone
    → normalize_cron n.cron ≡ n.cron
    → normalized_by patch (ok n) ≡ inr p
    → Fresh p
normalized_by-Fresh patch p n zone cron h = record {
  timezone = λ t e. fresh_zone patch.timezone t (ap (λ x. x.timezone) (inr-inj h) ∙ e);
  cron = λ c e. fresh_cron patch.cron c (ap (λ x. x.cron) (inr-inj h) ∙ e);
}
  where
    inr-inj :
        {q : ScheduleTransitionPatch}
        → ◌≡◌ {A = ScheduleFailure ⊎ ScheduleTransitionPatch} (inr q) (inr p)
        → q ≡ p
    inr-inj e = cc

    fresh_zone :
        (o : Option JsString) (t : JsString) → normalized_timezone o n ≡ some t → trim t ≡ t
    fresh_zone none t e = cc
    fresh_zone (some x) t e = subst (λ z. trim z ≡ z) (ground arith) zone

    fresh_cron :
        (o : Option (Option JsString)) (c : JsString)
        → normalized_cron o n ≡ some (some c)
        → normalize_cron c ≡ c
    fresh_cron none c e = cc
    fresh_cron (some none) c e = ground arith
    fresh_cron (some (some x)) c e = subst (λ z. normalize_cron z ≡ z) (ground arith) cron

normalize_and_validate_patch-Fresh :
    (api : ZoneApi) (current : Loop) (patch p : ScheduleTransitionPatch)
    → normalize_and_validate_patch api current patch ≡ inr p
    → Fresh p
unfolding normalize_and_validate_patch
normalize_and_validate_patch-Fresh api current patch p h =
    elim (Bool-cases (is_some patch.cron || is_some patch.timezone)) [
      | inl checks ↦
          let raw_cron = get_or (get_or patch.cron current.cron) dummy_cron in
          let raw_zone = get_or patch.timezone current.timezone in
          let k = rw (checks, normalize_and_validate_patch) at h in
          let (n, e) = accepted_by patch p (validate_schedule api raw_cron raw_zone) k in
          let v = validate_schedule_sound api raw_cron raw_zone n e in
          normalized_by-Fresh patch p n
            (ap trim v.normal_timezone ∙ trim_idem raw_zone ∙ sym v.normal_timezone)
            (ap normalize_cron v.normal_cron ∙ normalize_cron_idem raw_cron ∙ sym v.normal_cron)
            (ap (normalized_by patch) (sym e) ∙ k)
      | inr plain ↦
          let same : patch ≡ p = ground (arith, rw (plain, normalize_and_validate_patch) at h) in
          subst Fresh same (record { timezone = λ t e. ground arith; cron = λ c e. ground arith })
    ]
  where
    accepted_by :
        (patch p : ScheduleTransitionPatch) (v : ScheduleValidation)
        → normalized_by patch v ≡ inr p
        → (n : NormalizedSchedule) × (v ≡ ok n)
    accepted_by patch p (ok n) e = (n, refl)
    accepted_by patch p (failed f) e = cc

get_or-cases {ℓ} : {A : Type ℓ} (o : Option A) (d a : A) → get_or o d ≡ a → (o ≡ some a) ⊎ (d ≡ a)
get_or-cases none d a h = inr h
get_or-cases (some x) d a h = inl (ap some h)

changed-IsNormal :
    (p : ScheduleTransitionPatch) (old new : Loop)
    → Fresh p
    → IsNormal old
    → new.cron ≡ get_or p.cron old.cron
    → new.timezone ≡ get_or p.timezone old.timezone
    → IsNormal new
changed-IsNormal p old new fresh normal c z = record {
  timezone = elim (get_or-cases p.timezone old.timezone new.timezone (sym z)) [
    | inl given ↦ fresh.timezone new.timezone given
    | inr kept ↦ subst (λ t. trim t ≡ t) kept normal.timezone
  ];
  cron = λ cron e. elim (get_or-cases p.cron old.cron (some cron) (sym c ∙ e)) [
    | inl given ↦ fresh.cron cron given
    | inr kept ↦ normal.cron cron kept
  ];
}

-- A row that a schedule change reports: stored, in normal form, and accepted where it is active.
pub record ChangedRow (api : ZoneApi) (calendar : Calendar) (l : Loop) (db : Database)
    : Type 0 where
  pub stored : find_loop l.id db.loops ≡ some l
  pub normal : IsNormal l
  pub persists :
      (c : JsString)
      → l.cron ≡ some c
      → l.enabled ≡ true
      → is_valid_persisted_schedule_state api calendar (persisted c l) ≡ true

activated-ok :
    (calendar : Calendar) (now_iso : JsString) (o : Option JsString)
    → is_canonical_utc_iso calendar now_iso ≡ true
    → (o ≡ none) ⊎ (o ≡ some now_iso)
    → is_some o ≡ true
    → activation_ok calendar o ≡ true
activated-ok calendar now_iso o canonical (inl e) some_o = ground arith
activated-ok calendar now_iso o canonical (inr e) some_o = rw e canonical

Changed-persists :
    (api : ZoneApi) (calendar : Calendar) (p : ScheduleTransitionPatch) (now_iso : JsString)
    (old new : Loop) (c : JsString)
    → is_canonical_utc_iso calendar now_iso ≡ true
    → Changed p now_iso old new
    → IsNormal new
    → final_failure api
        (get_or p.cron old.cron)
        (get_or p.timezone old.timezone)
        (is_some p.timezone)
      ≡ none
    → new.cron ≡ some c
    → new.enabled ≡ true
    → is_valid_persisted_schedule_state api calendar (persisted c new) ≡ true
unfolding is_valid_persisted_schedule_state
Changed-persists api calendar p now_iso old new c canonical ch normal fine e on =
    let cron_is : get_or p.cron old.cron ≡ some c = sym ch.cron ∙ e in
    let zone_is : get_or p.timezone old.timezone ≡ new.timezone = sym ch.timezone in
    let accepted : failure_of (validate_schedule api c new.timezone) ≡ none =
      rw (cron_is, zone_is) at fine in
    let round =
      accepted-is_normalized api c new.timezone accepted (normal.cron c e) normal.timezone in
    let armed : is_some new.schedule_activated_at ≡ true = ground (arith, ch.armed, e, on) in
    let activated =
      activated-ok calendar now_iso new.schedule_activated_at canonical ch.fresh armed in
    ground (arith, round, ch.in_range, activated, ch.no_watermark)

Written-ChangedRow :
    {api : ZoneApi} {clock : Clock} {id : LoopId} {patch : ScheduleTransitionPatch}
    {seen now db : Database} {r : UpdateScheduleResult} (calendar : Calendar) (l : Loop)
    → is_canonical_utc_iso calendar clock.iso ≡ true
    → Evolves seen.loops now.loops
    → AllNormal seen
    → Written api clock id patch seen now db r
    → r ≡ changed l
    → ChangedRow api calendar l db
Written-ChangedRow {api} {clock} {id} {patch} {seen} {now} {db} {r} calendar l canonical ev normal w
      e =
    let f = apply_schedule_writes w.writes in
    let (new, rows, cas, same_rows, answer) =
      commit_changed now db r (cas_loop id w.current.revision f now.loops) w.committed in
    let (lands, written) =
      cas_loop-lands seen.loops now.loops id w.current f new rows ev w.found cas in
    let there =
      cas_loop-found id f now.loops rows w.current new (apply_schedule_writes-Bumps w.writes) lands
        cas in
    let ch = Written-Changed w in
    let is_l : f w.current ≡ l = sym written ∙ ground (arith, answer, e) in
    let fresh = normalize_and_validate_patch-Fresh api w.current patch w.normal w.normalized in
    let row =
      changed-IsNormal w.normal w.current (f w.current) fresh (normal id w.current w.found) ch.cron
        ch.timezone in
    let same_id : (f w.current).id ≡ id =
      (apply_schedule_writes-Bumps w.writes).same_id w.current
      ∙ find_loop-id id now.loops w.current lands in
    subst (λ x. ChangedRow api calendar x db) is_l
      (record {
        stored =
            subst (λ x. find_loop (f w.current).id x ≡ some (f w.current)) (sym same_rows)
              (subst (λ x. find_loop x rows ≡ some (f w.current)) (sym same_id) there);
        normal = row;
        persists = λ c k on.
            Changed-persists api calendar w.normal clock.iso w.current (f w.current) c canonical ch
              row w.accepted k on;
      })
  where
    commit_changed :
        (now db : Database) (r : UpdateScheduleResult) (o : Option (Loop × List Loop))
        → commit_loop now changed o ≡ settled r db
        → (new : Loop) × (rows : List Loop) × (o ≡ some (new, rows))
          × (db.loops ≡ rows)
          × (changed new ≡ r)
    commit_changed now db r none h = cc
    commit_changed now db r (some (new, rows)) h =
        (new, rows, refl, sym (ap (λ d. d.loops) (Settled-inj h).1), (Settled-inj h).0)

-- A schedule change with its retry that reports a changed row, under token-increasing interference,
-- where the rows that the attempts saw have normalised cron and timezone and the clock's stamp is
-- canonical: the row is the one stored, it is normalised again, and where it is enabled with a cron
-- it passes the fail-closed test of persisted schedules.
pub update_schedule-ChangedRow :
    (api : ZoneApi) (calendar : Calendar) (clock : Clock) (id : LoopId)
    (patch : ScheduleTransitionPatch) (m : Moments) (l : Loop) (db : Database)
    → is_canonical_utc_iso calendar clock.iso ≡ true
    → Interfered m
    → AllNormal m.seen
    → AllNormal m.seen_again
    → update_schedule api clock id patch m ≡ result (changed l) db
    → ChangedRow api calendar l db
unfolding update_schedule
update_schedule-ChangedRow api calendar clock id patch m l db canonical i n n' h =
    elim (with_guard_retry-inv (update_schedule_once api clock id patch) m (changed l) db h) [
      | inl first ↦ attempt m.seen m.now i.first n first
      | inr (lost, second) ↦ attempt m.seen_again m.now_again i.second n' second
    ]
  where
    attempt :
        (seen now : Database)
        → Evolves seen.loops now.loops
        → AllNormal seen
        → update_schedule_once api clock id patch seen now ≡ settled (changed l) db
        → ChangedRow api calendar l db
    attempt seen now ev normal e =
        elim (update_schedule_once-inv api clock id patch seen now db (changed l) e) [
          | inl (quiet, same) ↦ absurd (quiet l refl)
          | inr w ↦ Written-ChangedRow calendar l canonical ev normal w refl
        ]
