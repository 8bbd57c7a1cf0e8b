-- ===== src/Store/Runs/Reclaim/Laws.antt =====
-- packages/server/src/store/runs.ts: the branches of a reclaim, in the terms of its own tests, and the
-- activity of a run.
use loop_platform_zhb.Base
use loop_platform_zhb.Base.{
  ℕ, ◌+◌, ◌≤◌, ◌≡◌, ◌≢◌, refl, sym, ap, subst, ◌⊎◌, inl, inr, Bool, true, false, ◌&&◌, Option, none,
  some, List, [], ◌∷◌, arith, any, ◌==◌, if◌then◌else◌, Bool-cases, Option-cases, not,
}
use loop_platform_zhb.Db.{IsoTime, RunId, Run, RunLeaseRow, running, phase_eq}
use loop_platform_zhb.Store.{Database, Clock, settled, update_where}
use loop_platform_zhb.Store.Dates.{DateApi}
use loop_platform_zhb.Store.Tables.{count, count-update_where_le}
use loop_platform_zhb.Store.Manage.Laws.{Settled-inj}
use loop_platform_zhb.Store.Runs.Claim.{find_run}
use loop_platform_zhb.Store.Runs.Inflight.{OneInflight, live_exec}
use loop_platform_zhb.Store.Runs.Revoke.{count-update_where_out}
use loop_platform_zhb.Store.Machines.{heartbeat_skew_slack_ms}
use loop_platform_zhb.Store.Runs.Reclaim.{
  progress_stamp, terminal_grace_ms, last_run_activity_ms, weigh, ReclaimOutcome, reclaimed,
  not_running, activity_fresh, is_fresh, unmoved, reclaim_row, active_of, grace_row, classify_lost,
  flip_lease, reclaim_candidate, reclaim_stale_run_tx,
}

-- The database after a reclaim of the candidate that was read.
pub record Taken (date : DateApi) (clock : Clock) (candidate : Run) (now db : Database)
    : Type 0 where
  pub runs : db.runs ≡ update_where (unmoved candidate) (reclaim_row clock.iso) now.runs
  pub leases :
      db.leases
      ≡ update_where
          (active_of candidate.id)
          (grace_row (date.to_iso (clock.ms + terminal_grace_ms)))
          now.leases
  pub loops : db.loops ≡ now.loops
  pub met : any (unmoved candidate) now.runs ≡ true
  pub single : count (active_of candidate.id) now.leases ≡ 1
  pub was_running : phase_eq candidate.phase running ≡ true
  pub others : db ≡ record now { runs = db.runs; leases = db.leases }

-- What a settled reclaim of a candidate establishes.
pub record Attempted (date : DateApi) (clock : Clock) (inactivity : ℕ) (candidate : Run)
    (outcome : ReclaimOutcome) (now db : Database) : Type 0 where
  pub loops : db.loops ≡ now.loops
  pub one : OneInflight now.runs → OneInflight db.runs
  pub refrains : outcome ≢ reclaimed → db ≡ now
  pub taken : outcome ≡ reclaimed → Taken date clock candidate now db
  pub silent :
      outcome ≡ reclaimed
      → is_fresh clock.ms inactivity (last_run_activity_ms date candidate clock.ms) ≡ false
  pub no_active : outcome ≡ reclaimed → count (active_of candidate.id) db.leases ≡ 0

refrained :
    (date : DateApi) (clock : Clock) (inactivity : ℕ) (candidate : Run)
    (why outcome : ReclaimOutcome) (now db : Database)
    → why ≢ reclaimed
    → settled why now ≡ settled outcome db
    → Attempted date clock inactivity candidate outcome now db
refrained date clock inactivity candidate why outcome now db other h =
    let same : now ≡ db = (Settled-inj h).1 in
    let answer : why ≡ outcome = (Settled-inj h).0 in
    record {
      loops = ap (λ d. d.loops) (sym same);
      one = λ o. subst (λ d. OneInflight d.runs) same o;
      refrains = λ e. sym same;
      taken = λ e. absurd (other (cc));
      silent = λ e. absurd (other (cc));
      no_active = λ e. absurd (other (cc));
    }

classify_lost_refrains :
    (date : DateApi) (now_ms inactivity : ℕ) (current : Option Run)
    → classify_lost date now_ms inactivity current ≢ reclaimed
unfolding classify_lost
classify_lost_refrains date now_ms inactivity none h = cc
classify_lost_refrains date now_ms inactivity (some current) h = ground arith

grace_row_out :
    (id : RunId) (at : IsoTime) (l : RunLeaseRow) → active_of id (grace_row at l) ≡ false
grace_row_out id at l = ground arith

flip_lease-Attempted :
    (date : DateApi) (clock : Clock) (inactivity : ℕ) (candidate : Run) (outcome : ReclaimOutcome)
    (now db : Database)
    → phase_eq candidate.phase running ≡ true
    → is_fresh clock.ms inactivity (last_run_activity_ms date candidate clock.ms) ≡ false
    → any (unmoved candidate) now.runs ≡ true
    → flip_lease date clock candidate.id
        (record now { runs = update_where (unmoved candidate) (reclaim_row clock.iso) now.runs })
      ≡ settled outcome db
    → Attempted date clock inactivity candidate outcome now db
unfolding flip_lease
flip_lease-Attempted date clock inactivity candidate outcome now db was stale met h =
    elim (Bool-cases (count (active_of candidate.id) now.leases == 1)) [
      | inr broken ↦ absurd (ground arith)
      | inl one_lease ↦
          subst (Attempted date clock inactivity candidate outcome now)
            (Settled-inj (rw (one_lease, flip_lease) at h)).1
            (record {
              loops = refl;
              one = λ o id. omega (
                arith,
                o id,
                count-update_where_le (live_exec id) (unmoved candidate) (reclaim_row clock.iso)
                    (λ r g k. ground arith) now.runs,
              );
              refrains =
                  λ other. absurd (other (sym (Settled-inj (rw (one_lease, flip_lease) at h)).0));
              taken = λ e. record {
                runs = refl;
                leases = refl;
                loops = refl;
                met = met;
                single = ground arith;
                was_running = was;
                others = refl;
              };
              silent = λ e. stale;
              no_active = λ e.
                  count-update_where_out (active_of candidate.id)
                    (grace_row (date.to_iso (clock.ms + terminal_grace_ms)))
                    (grace_row_out candidate.id (date.to_iso (clock.ms + terminal_grace_ms)))
                    now.leases;
            })
    ]

pub reclaim_candidate-Attempted :
    (date : DateApi) (clock : Clock) (inactivity : ℕ) (candidate : Run) (outcome : ReclaimOutcome)
    (now db : Database)
    → reclaim_candidate date clock inactivity candidate now ≡ settled outcome db
    → Attempted date clock inactivity candidate outcome now db
unfolding reclaim_candidate
reclaim_candidate-Attempted date clock inactivity candidate outcome now db h =
    elim (Bool-cases (phase_eq candidate.phase running)) [
      | inr stopped ↦
          refrained date clock inactivity candidate not_running outcome now db (λ e. cc)
            (rw (stopped, reclaim_candidate) at h)
      | inl was ↦
          elim (Bool-cases
            (is_fresh clock.ms inactivity (last_run_activity_ms date candidate clock.ms))) [
              | inl fresh ↦
                  refrained date clock inactivity candidate activity_fresh outcome now db (λ e. cc)
                    (rw (was, fresh, reclaim_candidate) at h)
              | inr stale ↦ elim (Bool-cases (any (unmoved candidate) now.runs)) [
                | inl met ↦
                    flip_lease-Attempted date clock inactivity candidate outcome now db was stale
                      met (rw (was, stale, met, reclaim_candidate) at h)
                | inr moved ↦
                    refrained date clock inactivity candidate
                      (classify_lost date clock.ms inactivity (find_run candidate.id now.runs))
                      outcome now db
                      (classify_lost_refrains date clock.ms inactivity
                        (find_run candidate.id now.runs))
                      (rw (was, stale, moved, reclaim_candidate) at h)
              ]
            ]
    ]

pub reclaim_stale_run_tx-Attempted :
    (date : DateApi) (clock : Clock) (id : RunId) (inactivity : ℕ) (candidate : Run)
    (outcome : ReclaimOutcome) (seen now db : Database)
    → find_run id seen.runs ≡ some candidate
    → reclaim_stale_run_tx date clock id inactivity seen now ≡ settled outcome db
    → Attempted date clock inactivity candidate outcome now db
unfolding reclaim_stale_run_tx
reclaim_stale_run_tx-Attempted date clock id inactivity candidate outcome seen now db found h =
    reclaim_candidate-Attempted date clock inactivity candidate outcome now db
      (rw (found, reclaim_stale_run_tx) at h)

-- A stamp that counts is neither missing nor ahead of the clock by more than the slack.
abbrev pub Counts : ℕ → ℕ → Type 0
Counts now_ms ms = ms ≤ now_ms + heartbeat_skew_slack_ms

pub weigh-latest :
    (now_ms : ℕ) (a b : Option ℕ) (ms : ℕ)
    → weigh now_ms (weigh now_ms none a) b ≡ some ms
    → Counts now_ms ms
      × ((s : ℕ) → a ≡ some s → Counts now_ms s → s ≤ ms)
      × ((s : ℕ) → b ≡ some s → Counts now_ms s → s ≤ ms)
unfolding weigh
weigh-latest now_ms none none ms h = cc
weigh-latest now_ms (some x) none ms h = (ground arith, λ s e c. ground arith, λ s e c. cc)
weigh-latest now_ms none (some y) ms h = (ground arith, λ s e c. cc, λ s e c. ground arith)
weigh-latest now_ms (some x) (some y) ms h =
    elim (Bool-cases (Base.ltb (now_ms + heartbeat_skew_slack_ms) x)) [
      | inl ahead ↦ (ground arith, λ s e c. ground arith, λ s e c. ground arith)
      | inr counts ↦ (ground arith, λ s e c. ground arith, λ s e c. ground arith)
    ]

-- The activity of a run, where it has any, is ahead of the clock by the skew slack at most, and no
-- earlier than its transition stamp or its progress stamp where that parses and is not ahead by
-- more.
pub last_run_activity_ms_latest :
    (date : DateApi) (run : Run) (now_ms ms : ℕ)
    → last_run_activity_ms date run now_ms ≡ some ms
    → Counts now_ms ms
      × ((s : ℕ) → date.parse run.ts ≡ some s → Counts now_ms s → s ≤ ms)
      × ((s : ℕ) → progress_stamp date run.progress ≡ some s → Counts now_ms s → s ≤ ms)
unfolding last_run_activity_ms
last_run_activity_ms_latest date run now_ms ms h =
    weigh-latest now_ms (date.parse run.ts) (progress_stamp date run.progress) ms h
