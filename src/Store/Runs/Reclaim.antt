-- ===== src/Store/Runs/Reclaim.antt =====
-- packages/server/src/store/runs.ts: reclaiming a run that has gone silent, and the activity rule that
-- the sweep shares with it. What the transaction read may have changed when it writes.
pub mod Laws
pub mod Stamps
pub mod Unmoved
pub mod Meaning
pub mod Grace
use loop_platform_zhb.Base
use loop_platform_zhb.Base.{
  ℕ, ◌+◌, ◌-◌, ◌*◌, JsString, js, Bool, true, false, ◌&&◌, not, Option, none, some, List, ltb, ◌==◌,
  if◌then◌else◌, str_eq,
}
use loop_platform_zhb.Db.{
  IsoTime, RunId, Run, RunLeaseRow, RunPhase, running, phase_eq, RunOutcome, RunProgressRow,
  LeaseState, active, terminal_grace, lease_state_eq,
}
use loop_platform_zhb.Schedule.{opt_str_eq}
use loop_platform_zhb.Store.{
  Database, Clock, Settled, settled, guard_lost, select_first, update_where,
}
use loop_platform_zhb.Store.Tables.{count}
use loop_platform_zhb.Store.Runs.Claim.{find_run}
use loop_platform_zhb.Store.Dates.{DateApi}
use loop_platform_zhb.Store.Machines.{is_heartbeat_watermark_anomalous}

abbrev pub reclaim_run_error : JsString
reclaim_run_error = js "machine timed out / disconnected"

abbrev pub terminal_grace_ms : ℕ
terminal_grace_ms = 24 * 60 * 60 * 1000

-- `best === null ? ms : Math.max(best, ms)`
abbrev later : Option ℕ → ℕ → ℕ
later none ms = ms
later (some best) ms = if ltb best ms then ms else best

-- One turn of the loop, with the parsed stamp.
unfoldable pub weigh : ℕ → Option ℕ → Option ℕ → Option ℕ
weigh now_ms best none = best
weigh now_ms best (some ms) =
    if is_heartbeat_watermark_anomalous ms now_ms then best else some (later best ms)

abbrev stamp : DateApi → Option IsoTime → Option ℕ
stamp date none = none
stamp date (some at) = date.parse at

abbrev pub progress_stamp : DateApi → Option RunProgressRow → Option ℕ
progress_stamp date none = none
progress_stamp date (some progress) = stamp date progress.at

unfoldable pub last_run_activity_ms : DateApi → Run → ℕ → Option ℕ
last_run_activity_ms date run now_ms =
    weigh now_ms (weigh now_ms none (date.parse run.ts)) (progress_stamp date run.progress)

pub data ReclaimOutcome : Type 0 where
  reclaimed not_running activity_fresh activity_changed : ReclaimOutcome

-- `activityMs !== null && nowMs - activityMs < runInactivityMs`, where a stamp ahead of the clock
-- makes the difference negative.
abbrev pub is_fresh : ℕ → ℕ → Option ℕ → Bool
is_fresh now_ms inactivity none = false
is_fresh now_ms inactivity (some ms) = ltb now_ms (ms + inactivity)

abbrev pub progress_eq : Option RunProgressRow → Option RunProgressRow → Bool
progress_eq none none = true
progress_eq (some p) (some q) = p.step == q.step && str_eq p.label q.label && opt_str_eq p.at q.at
progress_eq _ _ = false

-- The exact activity snapshot is carried through the write.
abbrev pub unmoved : Run → Run → Bool
unmoved candidate row =
    row.id == candidate.id
    && phase_eq row.phase running
    && str_eq row.ts candidate.ts
    && progress_eq row.progress candidate.progress

abbrev pub reclaim_row : IsoTime → Run → Run
reclaim_row ts run = record run {
  phase = RunPhase.error;
  outcome = some RunOutcome.error;
  error = some reclaim_run_error;
  ts = ts;
}

abbrev pub active_of : RunId → RunLeaseRow → Bool
active_of id lease = lease.run_id == id && lease_state_eq lease.state active

abbrev pub grace_row : IsoTime → RunLeaseRow → RunLeaseRow
grace_row expires_at lease = record lease { state = terminal_grace; expires_at = some expires_at }

-- Why a conditional update that met no row gave up.
unfoldable pub classify_lost : DateApi → ℕ → ℕ → Option Run → ReclaimOutcome
classify_lost date now_ms inactivity none = not_running
classify_lost date now_ms inactivity (some current) =
    if not (phase_eq current.phase running)
    then not_running
    else if is_fresh now_ms inactivity (last_run_activity_ms date current now_ms)
    then activity_fresh
    else activity_changed

-- Exactly one active lease flips, or the whole transaction rolls back.
unfoldable pub flip_lease : DateApi → Clock → RunId → Database → Settled ReclaimOutcome
flip_lease date clock id db =
    if count (active_of id) db.leases == 1
    then settled reclaimed (record db {
      leases =
          update_where (active_of id) (grace_row (date.to_iso (clock.ms + terminal_grace_ms)))
            db.leases;
    })
    else guard_lost

unfoldable pub reclaim_candidate : DateApi → Clock → ℕ → Run → Database → Settled ReclaimOutcome
reclaim_candidate date clock inactivity candidate now =
    if not (phase_eq candidate.phase running)
    then settled not_running now
    else if is_fresh clock.ms inactivity (last_run_activity_ms date candidate clock.ms)
    then settled activity_fresh now
    else if Base.any (unmoved candidate) now.runs
    then flip_lease date clock candidate.id
        (record now { runs = update_where (unmoved candidate) (reclaim_row clock.iso) now.runs })
    else settled (classify_lost date clock.ms inactivity (find_run candidate.id now.runs)) now

-- A lost guard is the thrown `ReclaimGuardLostError`.
unfoldable pub reclaim_stale_run_tx :
    DateApi → Clock → RunId → ℕ → Database → Database → Settled ReclaimOutcome
reclaim_stale_run_tx date clock id inactivity seen now = elim (find_run id seen.runs) [
  | none ↦ settled not_running now
  | some candidate ↦ reclaim_candidate date clock inactivity candidate now
]
