-- ===== src/Store/Runs/Claim.antt =====
-- packages/server/src/store/runs.ts: claiming a run with its lease, and canceling one.
use loop_platform_zhb.Base.{
  Bool, true, false, ◌&&◌, not, Option, none, some, List, ◌==◌, if◌then◌else◌, any, is_some,
}
use loop_platform_zhb.Db.{
  IsoTime, LoopId, RunId, MachineId, TokenHash, Loop, Run, RunLeaseRow, pending, running, phase_eq,
  RunRole, role_eq, active,
}
use loop_platform_zhb.Store.{
  Database, Clock, find_loop, cas_loop, Settled, settled, guard_lost, Retried, Moments,
  with_guard_retry, select_first, update_where, delete_where, insert_row,
}
use loop_platform_zhb.Store.Manage.{cancel_row, is_live}
use loop_platform_zhb.Store.Runs.{bump}

pub record ClaimInput : Type 0 where
  pub run_id : RunId
  pub loop_id : LoopId
  pub machine_id : MachineId
  pub role : RunRole
  pub artifact_capable : Bool

-- `skipped` is the returned undefined, `claim_refused` the thrown `ClaimRefusedError`.
pub data ClaimResult : Type 0 where
  skipped claim_refused : ClaimResult
  claimed : Run → TokenHash → Loop → ClaimResult

abbrev pub find_run : RunId → List Run → Option Run
find_run id runs = select_first (λ r. r.id == id) runs

-- The full write-time eligibility of a candidate.
abbrev pub claimable : ClaimInput → Run → Bool
claimable input run =
    run.id == input.run_id
    && phase_eq run.phase pending
    && run.machine_id == input.machine_id
    && run.loop_id == input.loop_id
    && role_eq run.role input.role

abbrev pub start_row : IsoTime → Run → Run
start_row ts run = record run { phase = running; ts = ts }

abbrev pub mint_lease : Clock → TokenHash → Run → Loop → RunLeaseRow
mint_lease clock token_hash run loop = record {
  token_hash = token_hash;
  run_id = run.id;
  loop_id = run.loop_id;
  machine_id = run.machine_id;
  role = run.role;
  allow_control = false;
  can_set_ui = false;
  can_set_schema = false;
  can_set_workflow = false;
  can_finish = role_eq run.role RunRole.exec && is_some loop.goal;
  state = active;
  expires_at = none;
  terminal_protocol_version = 1;
  goal_revision = loop.goal_revision;
  created_at = clock.iso;
}

abbrev pub finish_claim :
    Clock
    → TokenHash
    → ClaimInput
    → Run
    → Database
    → Option (Loop × List Loop)
    → Settled ClaimResult
finish_claim clock token_hash input run now none = guard_lost
finish_claim clock token_hash input run now (some (loop, rows)) =
    let started = start_row clock.iso run in
    settled (claimed started token_hash loop) (record now {
      loops = rows;
      runs = update_where (claimable input) (start_row clock.iso) now.runs;
      leases = insert_row (mint_lease clock token_hash started loop) now.leases;
    })

-- The write transaction: the guarded flip, the token bump and the lease, or nothing.
unfoldable pub claim_tx : Clock → TokenHash → ClaimInput → Loop → Database → Settled ClaimResult
claim_tx clock token_hash input loop now = elim (select_first (claimable input) now.runs) [
  | none ↦ settled skipped now
  | some run ↦
      finish_claim clock token_hash input run now (cas_loop loop.id loop.revision bump now.loops)
]

abbrev pub candidate_ok : ClaimInput → Option Run → Bool
candidate_ok input none = false
candidate_ok input (some run) = claimable input run

unfoldable pub claim_run_with_lease_once :
    Clock → TokenHash → ClaimInput → Database → Database → Settled ClaimResult
unfolding claim_tx
claim_run_with_lease_once clock token_hash input seen now =
    if not (candidate_ok input (find_run input.run_id seen.runs))
    then settled skipped now
    else elim (find_loop input.loop_id seen.loops) [
      | none ↦ settled claim_refused now
      | some loop ↦
          if is_some loop.completed_at
          then settled claim_refused now
          else if is_some loop.artifact_dir && not input.artifact_capable
          then settled claim_refused now
          else claim_tx clock token_hash input loop now
    ]

unfoldable pub claim_run_with_lease : Clock → TokenHash → ClaimInput → Moments → Retried ClaimResult
unfolding claim_run_with_lease_once
claim_run_with_lease clock token_hash input m =
    with_guard_retry (claim_run_with_lease_once clock token_hash input) m

abbrev pub cancelable : RunId → Run → Bool
cancelable id run = run.id == id && is_live run.phase

-- Whether the run was canceled, and the database after it.
unfoldable pub cancel_run_tx : Clock → RunId → Database → Bool × Database
cancel_run_tx clock id db = if not (any (cancelable id) db.runs) then (false, db) else (
  true,
  record db {
    runs = update_where (cancelable id) (cancel_row clock.iso) db.runs;
    leases = delete_where (λ lease. lease.run_id == id) db.leases;
  },
)
