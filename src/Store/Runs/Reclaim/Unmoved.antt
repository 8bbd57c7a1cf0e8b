-- ===== src/Store/Runs/Reclaim/Unmoved.antt =====
-- packages/server/src/store/runs.ts, `reclaimStaleRunTx`: the rows that a reclaim meets and writes.
use loop_platform_zhb.Base.{
  ℕ, ◌+◌, ◌*◌, ◌≤◌, ◌<◌, ◌≡◌, ◌≢◌, refl, ◌↔◌, ◌⊎◌, true, js, Option, none, some, All, arith,
  str_eq_iff,
}
use loop_platform_zhb.Db.{
  IsoTime, RunId, Run, RunLeaseRow, RunPhase, RunOutcome, RunProgressRow, LeaseState,
}
use loop_platform_zhb.Db.Enums.{phase_eq_iff, lease_state_eq_iff}
use loop_platform_zhb.Schedule.Laws.{opt_str_eq_iff}
use loop_platform_zhb.Store.{Database, Clock}
use loop_platform_zhb.Store.Dates.{DateApi}
use loop_platform_zhb.Store.Tables.{Among, Rewritten, Replaced}
use loop_platform_zhb.Store.Runs.Claim.{find_run}
use loop_platform_zhb.Store.Runs.Inflight.{OneInflight}
use loop_platform_zhb.Store.Runs.Reclaim.{
  ReclaimOutcome, reclaimed, not_running, activity_fresh, activity_changed, progress_eq, unmoved,
  active_of,
}
use loop_platform_zhb.Store.Runs.Reclaim.Stamps.{IsEvidence}

-- A row of the candidate that is running with the stamp and the progress that were read.
pub record IsUnmoved (candidate r : Run) : Type 0 where
  pub same_run : r.id ≡ candidate.id
  pub on : r.phase ≡ RunPhase.running
  pub same_ts : r.ts ≡ candidate.ts
  pub same_progress : r.progress ≡ candidate.progress

abbrev pub IsErrored : IsoTime → Run → Run → Type 0
IsErrored ts r s = s ≡ record r {
  phase = RunPhase.error;
  outcome = some RunOutcome.error;
  error = some (js "machine timed out / disconnected");
  ts = ts;
}

abbrev pub IsActiveOf : RunId → RunLeaseRow → Type 0
IsActiveOf id lease = (lease.run_id ≡ id) × (lease.state ≡ LeaseState.active)

-- In grace, until the given stamp.
abbrev pub IsGraced : IsoTime → RunLeaseRow → RunLeaseRow → Type 0
IsGraced until r s = s ≡ record r { state = LeaseState.terminal_grace; expires_at = some until }

pub progress_eq_iff : (a b : Option RunProgressRow) → (progress_eq a b ≡ true) ↔ (a ≡ b)
progress_eq_iff none none = (λ h. refl, λ h. refl)
progress_eq_iff none (some q) = (λ h. cc, λ h. cc)
progress_eq_iff (some p) none = (λ h. cc, λ h. cc)
progress_eq_iff (some p) (some q) =
    ground (arith, str_eq_iff p.label q.label, opt_str_eq_iff p.at q.at)

pub unmoved_iff : (candidate r : Run) → (unmoved candidate r ≡ true) ↔ IsUnmoved candidate r
unmoved_iff candidate r =
    let on = phase_eq_iff r.phase RunPhase.running in
    let ts = str_eq_iff r.ts candidate.ts in
    let progress = progress_eq_iff r.progress candidate.progress in
    (
      λ h. record {
        same_run = ground arith;
        on = on.0 (ground arith);
        same_ts = ts.0 (ground arith);
        same_progress = progress.0 (ground arith);
      },
      λ u. ground (arith, u.same_run, on.1 u.on, ts.1 u.same_ts, progress.1 u.same_progress),
    )

pub active_of_iff : (id : RunId) (l : RunLeaseRow) → (active_of id l ≡ true) ↔ IsActiveOf id l
active_of_iff id l =
    let state = lease_state_eq_iff l.state LeaseState.active in
    (λ h. (ground arith, state.0 (ground arith)), λ (i, a). ground (arith, i, state.1 a))

-- Why a reclaim of a candidate refrains.
abbrev pub Refrains : DateApi → Clock → ℕ → Run → ReclaimOutcome → Database → Type 0
Refrains date clock inactivity candidate reclaimed now = ⊥
Refrains date clock inactivity candidate not_running now =
    (candidate.phase ≢ RunPhase.running)
    ⊎ ((r : Run) → find_run candidate.id now.runs ≡ some r → r.phase ≢ RunPhase.running)
Refrains date clock inactivity candidate activity_fresh now =
    (r : Run) × ((r ≡ candidate) ⊎ (find_run candidate.id now.runs ≡ some r))
    × (r.phase ≡ RunPhase.running)
    × ((s : ℕ) × IsEvidence date r clock.ms s × (clock.ms < s + inactivity))
Refrains date clock inactivity candidate activity_changed now =
    All (λ r. ¬ IsUnmoved candidate r) now.runs

-- What a reclaim writes: the row that has not moved since it was read goes to error, and the one
-- active lease of the run goes to grace for a day.
pub record Wrote (date : DateApi) (clock : Clock) (inactivity : ℕ) (candidate : Run)
    (now db : Database) : Type 0 where
  pub was_running : candidate.phase ≡ RunPhase.running
  pub silent : (s : ℕ) → IsEvidence date candidate clock.ms s → s + inactivity ≤ clock.ms
  pub met : (r : Run) × Among r now.runs × IsUnmoved candidate r
  pub runs : Rewritten (IsUnmoved candidate) (IsErrored clock.iso) now.runs db.runs
  pub leases :
      Replaced
        (IsActiveOf candidate.id)
        (IsGraced (date.to_iso (clock.ms + 24 * 60 * 60 * 1000)))
        now.leases
        db.leases
  pub others : db ≡ record now { runs = db.runs; leases = db.leases }

pub record Reclaims (date : DateApi) (clock : Clock) (inactivity : ℕ) (candidate : Run)
    (outcome : ReclaimOutcome) (now db : Database) : Type 0 where
  pub one : OneInflight now.runs → OneInflight db.runs
  pub wrote : outcome ≡ reclaimed → Wrote date clock inactivity candidate now db
  pub refrained :
      outcome ≢ reclaimed → (db ≡ now) × Refrains date clock inactivity candidate outcome now
