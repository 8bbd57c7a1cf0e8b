-- ===== src/Store/Runs.antt =====
-- packages/server/src/store/runs.ts: enqueueing a run, as a transaction on a database.
-- The transaction reads and writes one database, so its guard on each superseded row holds;
-- the superseded ids stand in the order of the rows, for the source's order by stamp and id. The
-- validation of a scheduled trigger before the transaction is in Scheduled.
pub mod Claim
pub mod Inflight
pub mod Reclaim
pub mod Exclusive
pub mod Claimable
pub mod Granted
pub mod Revoke
pub mod Live
pub mod Scheduled
pub mod Watermark
use loop_platform_zhb.Base.{
  ℕ, ◌+◌, ◌≡◌, JsString, js, Bool, true, false, ◌&&◌, ◌||◌, not, Option, none, some, List, [], ◌∷◌,
  ltb, leb, ◌==◌, if◌then◌else◌, any, is_some, str_eq, length, filter, map,
}
use loop_platform_zhb.Db.{
  IsoTime, LoopId, RunId, MachineId, TokenHash, Loop, Run, RunLeaseRow, Machine, RunPhase, pending,
  running, canceled, phase_eq, RunRole, role_eq, RunOutcome, LeaseState, active, terminal_grace,
  lease_state_eq, RunProgressRow,
}
use loop_platform_zhb.Store.{
  Database, Clock, find_loop, cas_loop, Settled, settled, guard_lost, Retried, Moments,
  with_guard_retry, select_first, update_where, delete_where, insert_row,
}
use loop_platform_zhb.Store.Manage.{in_phase, is_live}

abbrev pub superseded_message : JsString
superseded_message = js "superseded by a newer pending run"

abbrev pub has_run_in_phase : List Run → LoopId → RunPhase → Bool
has_run_in_phase runs id phase = any (in_phase id phase) runs

abbrev pub find_machine : MachineId → List Machine → Option Machine
find_machine id machines = select_first (λ m. m.id == id) machines

-- `isMachineExecutionEligible` of store/machines.ts
abbrev eligible : Option Machine → Bool
eligible none = false
eligible (some m) = is_some m.team_id && not (is_some m.revoked_at)

unfoldable pub is_machine_execution_eligible : List Machine → MachineId → Bool
is_machine_execution_eligible machines id = eligible (find_machine id machines)

pub data PendingPolicy : Type 0 where
  skip supersede : PendingPolicy

-- The transaction's view of the trigger: a scheduled one carries the checked canonical occurrence.
pub data TxTrigger : Type 0 where
  manual : PendingPolicy → TxTrigger
  scheduled : IsoTime → TxTrigger

pub data EnqueueRefusal : Type 0 where
  loop_not_found loop_completed running_exists pending_exists machine_ineligible : EnqueueRefusal
  stale_revision not_active invalid_schedule_state not_an_occurrence future_occurrence :
      EnqueueRefusal
  before_activation already_scheduled : EnqueueRefusal

-- `raised` is a throw of the cron library, which the call passes on.
pub data EnqueueExecRunResult : Type 0 where
  enqueued : RunId → List RunId → EnqueueExecRunResult
  refused : EnqueueRefusal → EnqueueExecRunResult
  raised : EnqueueExecRunResult

abbrev pub pending_exec : LoopId → Run → Bool
pending_exec id run =
    run.loop_id == id && phase_eq run.phase pending && role_eq run.role RunRole.exec

abbrev pub supersede_row : IsoTime → Run → Run
supersede_row ts run = record run {
  phase = canceled;
  outcome = some RunOutcome.skipped;
  message = some superseded_message;
  ts = ts;
}

abbrev pub pending_run : RunId → LoopId → MachineId → IsoTime → Run
pending_run run_id loop_id machine_id ts = record {
  id = run_id;
  loop_id = loop_id;
  machine_id = machine_id;
  phase = pending;
  role = RunRole.exec;
  ts = ts;
  outcome = none;
  status = none;
  message = none;
  duration_ms = none;
  error = none;
  state = none;
  session_id = none;
  progress = none;
  artifact_snapshot_id = none;
  artifact_sync_error = none;
}

-- The end of the transaction under `supersede` and under `skip`.
unfoldable pub supersede_and_insert :
    Clock → RunId → LoopId → MachineId → Database → Settled EnqueueExecRunResult
supersede_and_insert clock run_id id machine_id db =
    settled (enqueued run_id (map (λ run. run.id) (filter (pending_exec id) db.runs))) (record db {
      runs =
          insert_row (pending_run run_id id machine_id clock.iso)
            (update_where (pending_exec id) (supersede_row clock.iso) db.runs);
    })

unfoldable pub insert_only :
    Clock → RunId → LoopId → MachineId → Database → Settled EnqueueExecRunResult
insert_only clock run_id id machine_id db =
    settled (enqueued run_id [])
      (record db { runs = insert_row (pending_run run_id id machine_id clock.iso) db.runs })

abbrev pub bump : Loop → Loop
bump loop = record loop { revision = loop.revision + 1 }

abbrev pub advance_watermark : IsoTime → Loop → Loop
advance_watermark canonical_for loop = record loop {
  last_scheduled_at = some canonical_for;
  revision = loop.revision + 1;
}

abbrev pub guarded :
    {R : Type 0} → Database → Option (Loop × List Loop) → (Database → Settled R) → Settled R
guarded db none k = guard_lost
guarded db (some (loop, rows)) k = k (record db { loops = rows })

-- The write transaction of `enqueueExecRunTx`, for the loop row resolved before it. A scheduled
-- trigger advances the watermark before it looks for a running run, and keeps that advance.
unfoldable pub enqueue_tx :
    Clock → RunId → Loop → TxTrigger → Database → Settled EnqueueExecRunResult
unfolding supersede_and_insert insert_only
enqueue_tx clock run_id current (scheduled canonical_for) db =
    guarded db (cas_loop current.id current.revision (advance_watermark canonical_for) db.loops)
      (λ after.
        if has_run_in_phase after.runs current.id running
        then settled (refused running_exists) after
        else supersede_and_insert clock run_id current.id current.machine_id after)
enqueue_tx clock run_id current (manual supersede) db =
    if has_run_in_phase db.runs current.id running
    then settled (refused running_exists) db
    else guarded db (cas_loop current.id current.revision bump db.loops)
        (supersede_and_insert clock run_id current.id current.machine_id)
enqueue_tx clock run_id current (manual skip) db =
    if has_run_in_phase db.runs current.id running
    then settled (refused running_exists) db
    else if has_run_in_phase db.runs current.id pending
    then settled (refused pending_exists) db
    else guarded db (cas_loop current.id current.revision bump db.loops)
        (insert_only clock run_id current.id current.machine_id)

-- One attempt of a manual enqueue.
unfoldable pub enqueue_manual_once :
    Clock → RunId → LoopId → PendingPolicy → Database → Database → Settled EnqueueExecRunResult
unfolding enqueue_tx
enqueue_manual_once clock run_id id policy seen now = elim (find_loop id seen.loops) [
  | none ↦ settled (refused loop_not_found) now
  | some current ↦
      if not (is_machine_execution_eligible seen.machines current.machine_id)
      then settled (refused machine_ineligible) now
      else if is_some current.completed_at
      then settled (refused loop_completed) now
      else enqueue_tx clock run_id current (manual policy) now
]

unfoldable pub enqueue_manual :
    Clock → RunId → LoopId → PendingPolicy → Moments → Retried EnqueueExecRunResult
unfolding enqueue_manual_once
enqueue_manual clock run_id id policy m =
    with_guard_retry (enqueue_manual_once clock run_id id policy) m
