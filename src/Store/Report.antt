-- ===== src/Store/Report.antt =====
-- packages/server/src/store/report.ts and leases.ts: the report transaction. It reads lease, run and
-- loop in one snapshot; every write is guarded by what was read, and a lost guard rolls back.
pub mod Writes
pub mod LoopWrite
pub mod Planned
pub mod Laws
pub mod Once
pub mod Progress
pub mod Resolve
use loop_platform_zhb.Store.Dates.{DateApi, is_lease_dead}
use loop_platform_zhb.Base.{
  ℕ, ◌+◌, ◌≡◌, JsString, js, Bool, true, false, ◌&&◌, ◌||◌, not, Option, none, some, List, [], ◌∷◌,
  leb, ◌==◌, if◌then◌else◌, any, is_some,
}
use loop_platform_zhb.Db.{
  IsoTime, LoopId, RunId, MachineId, TokenHash, Loop, Run, RunLeaseRow, RunPhase, pending, running,
  canceled, phase_eq, RunOutcome, LeaseState, active, terminal_grace, lease_state_eq,
}
use loop_platform_zhb.WriteSet.{ReportRequest, RunWrites, build_report_write_set, apply_run_writes}
use loop_platform_zhb.Lifecycle.{LeaseAuthSnapshot, FinishClassification}
use loop_platform_zhb.Lifecycle.Report.{
  LoopV1Writes, ReportWritePlan, v0, v1_failure, v1_late_success, terminal_protocol_invalid,
  loop_state_invalid, v1_success, v1_finish, finish_rejected, stable_run_failure,
  classification_text, plan_report_writes, run_writes_of, apply_loop_v1_writes,
}
use loop_platform_zhb.Store.{
  Database, Clock, find_loop, cas_loop, Settled, settled, guard_lost, Retried, Moments,
  with_guard_retry, select_first, update_where, delete_where,
}
use loop_platform_zhb.Store.Runs.Claim.{find_run}
use loop_platform_zhb.Store.Binding.{ArtifactBinding, bind_artifact}

abbrev pub finish_canceled_message : JsString
finish_canceled_message = js "canceled: the loop's goal was completed by a sibling run"

pub data DenyReason : Type 0 where
  unknown_or_expired consumed_or_revoked orphaned_run stale_phase : DenyReason

-- `accepted reconciled schedulerReconcile`
pub data ReportOutcome : Type 0 where
  denied : DenyReason → ReportOutcome
  accepted : Bool → Option Loop → ReportOutcome

abbrev pub find_lease : TokenHash → List RunLeaseRow → Option RunLeaseRow
find_lease token_hash leases = select_first (λ lease. lease.token_hash == token_hash) leases

-- A guarded write, and what follows it; without a matching row the guard is lost.
abbrev pub and_then : {A R : Type 0} → Option A → (A → Settled R) → Settled R
and_then none k = guard_lost
and_then (some a) k = k a

abbrev pub observed : TokenHash → LeaseState → RunLeaseRow → Bool
observed token_hash state lease = lease.token_hash == token_hash && lease_state_eq lease.state state

unfoldable pub delete_observed_lease : TokenHash → LeaseState → Database → Option Database
delete_observed_lease token_hash state db =
    if any (observed token_hash state) db.leases
    then some (record db { leases = delete_where (observed token_hash state) db.leases })
    else none

abbrev pub unchanged : Run → Run → Bool
unchanged run row = row.id == run.id && phase_eq row.phase run.phase

unfoldable pub write_run : Run → RunWrites → Database → Option Database
write_run run writes db =
    if any (unchanged run) db.runs
    then some (record db { runs = update_where (unchanged run) (apply_run_writes writes) db.runs })
    else none

abbrev with_row : Database → Option (Loop × List Loop) → Option (Loop × Database)
with_row db none = none
with_row db (some (loop, rows)) = some (loop, record db { loops = rows })

unfoldable pub write_loop : LoopV1Writes → Loop → Database → Option (Loop × Database)
write_loop writes loop db =
    with_row db (cas_loop loop.id loop.revision (apply_loop_v1_writes writes) db.loops)

abbrev pub other_pending : LoopId → RunId → Run → Bool
other_pending loop_id run_id row =
    row.loop_id == loop_id && phase_eq row.phase pending && not (row.id == run_id)

abbrev pub retire_row : IsoTime → Run → Run
retire_row now_iso row = record row {
  phase = canceled;
  outcome = some RunOutcome.skipped;
  message = some finish_canceled_message;
  ts = now_iso;
}

-- The loop's other pending runs are canceled by a legal finish.
unfoldable pub retire_pending : LoopId → RunId → IsoTime → Database → Database
retire_pending loop_id run_id now_iso db = record db {
  runs = update_where (other_pending loop_id run_id) (retire_row now_iso) db.runs;
}

-- The guarded loop write of a plan, and the row that the scheduler is to reconcile.
unfoldable pub write_plan_loop :
    ReportWritePlan → Option Loop → Run → IsoTime → Database → Option (Option Loop × Database)
write_plan_loop (v1_success writes loop_writes) (some loop) run now_iso db =
    elim (write_loop loop_writes loop db) [
      | none ↦ none
      | some (updated, after) ↦ some (none, after)
    ]
write_plan_loop (v1_finish writes loop_writes) (some loop) run now_iso db =
    elim (write_loop loop_writes loop db) [
      | none ↦ none
      | some (updated, after) ↦ some (some updated, retire_pending updated.id run.id now_iso after)
    ]
write_plan_loop _ _ run now_iso db = some (none, db)

abbrev pub lease_auth : RunLeaseRow → LeaseAuthSnapshot
lease_auth lease = record {
  role = lease.role;
  can_finish = lease.can_finish;
  goal_revision = lease.goal_revision;
  terminal_protocol_version = lease.terminal_protocol_version;
}

-- A missing loop is the stable classification of a corrupt snapshot.
unfoldable pub plan_for :
    Option Loop → RunLeaseRow → Run → ReportRequest → IsoTime → ReportWritePlan
plan_for none lease run body now_iso =
    loop_state_invalid
      (stable_run_failure run (classification_text FinishClassification.invalid_loop_state) now_iso)
plan_for (some loop) lease run body now_iso =
    plan_report_writes loop (lease_auth lease) run body now_iso

-- The terminal writes of an eligible report.
unfoldable pub settle_v0 :
    Clock → TokenHash → ReportRequest → RunLeaseRow → Run → Bool → Database → Settled ReportOutcome
settle_v0 clock token_hash body lease run reconcile now =
    and_then (write_run run (build_report_write_set body run clock.iso) now) (λ written.
      and_then (delete_observed_lease token_hash lease.state written)
        (settled (accepted reconcile none)))

unfoldable pub settle_v1 :
    Clock
    → TokenHash
    → RunLeaseRow
    → Run
    → Option Loop
    → ReportWritePlan
    → Bool
    → Database
    → Settled ReportOutcome
settle_v1 clock token_hash lease run loop plan reconcile now =
    and_then (write_run run (run_writes_of plan) now) (λ written.
      and_then (write_plan_loop plan loop run clock.iso written) (λ (scheduler_reconcile, after).
        and_then (delete_observed_lease token_hash lease.state after)
          (settled (accepted reconcile scheduler_reconcile))))

-- A fail-closed cleanup commits its lease delete.
abbrev pub deny_observed : TokenHash → RunLeaseRow → DenyReason → Database → Settled ReportOutcome
deny_observed token_hash lease reason now =
    and_then (delete_observed_lease token_hash lease.state now) (settled (denied reason))

abbrev pub finalizes : RunLeaseRow → Run → Bool
finalizes lease run = lease_state_eq lease.state active && phase_eq run.phase running

abbrev pub reconciles : RunLeaseRow → Run → Bool
reconciles lease run =
    lease_state_eq lease.state terminal_grace && phase_eq run.phase RunPhase.error

-- What follows once the lease is known to be live.
unfoldable pub settle_live :
    ArtifactBinding
    → Clock
    → TokenHash
    → ReportRequest
    → RunLeaseRow
    → Option Run
    → Option Loop
    → Database
    → Database
    → Settled ReportOutcome
settle_live binding clock token_hash body lease none loop seen now =
    deny_observed token_hash lease orphaned_run now
settle_live binding clock token_hash body lease (some run) loop seen now =
    if not (finalizes lease run || reconciles lease run)
    then deny_observed token_hash lease stale_phase now
    else and_then (bind_artifact binding body run loop seen now) (λ bound.
      if lease.terminal_protocol_version == 0
      then settle_v0 clock token_hash body lease run (reconciles lease run) bound
      else settle_v1 clock token_hash lease run loop (plan_for loop lease run body clock.iso)
          (reconciles lease run) bound)

unfoldable pub run_report_tx :
    DateApi
    → ArtifactBinding
    → Clock
    → TokenHash
    → ReportRequest
    → Database
    → Database
    → Settled ReportOutcome
run_report_tx date binding clock token_hash body seen now =
    elim (find_lease token_hash seen.leases) [
      | none ↦ settled (denied consumed_or_revoked) now
      | some lease ↦
          if is_lease_dead date lease clock.ms
          then deny_observed token_hash lease unknown_or_expired now
          else settle_live binding clock token_hash body lease (find_run lease.run_id seen.runs)
              (find_loop lease.loop_id seen.loops) seen now
    ]

-- `withReportCasRetry`: a second loss is `ReportRaceLostError`.
unfoldable pub execute_report_tx :
    DateApi → ArtifactBinding → Clock → TokenHash → ReportRequest → Moments → Retried ReportOutcome
execute_report_tx date binding clock token_hash body m =
    with_guard_retry (run_report_tx date binding clock token_hash body) m
