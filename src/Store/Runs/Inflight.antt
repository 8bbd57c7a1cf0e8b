-- ===== src/Store/Runs/Inflight.antt =====
-- packages/server/src/store/runs.ts: the runs in flight of a loop.
use loop_platform_zhb.Base.{
  ◌≤◌, ◌≡◌, refl, Bool, true, false, ◌&&◌, List, [], ◌∷◌, arith, any, ◌==◌,
}
use loop_platform_zhb.Db.{
  IsoTime, LoopId, RunId, MachineId, Run, RunPhase, pending, running, canceled, phase_eq, RunRole,
  role_eq,
}
use loop_platform_zhb.Store.{update_where, insert_row}
use loop_platform_zhb.Store.Tables.{count, count-insert_row, count-update_where_le}
use loop_platform_zhb.Store.Manage.{in_phase, is_live}
use loop_platform_zhb.Store.Runs.{pending_exec, supersede_row, pending_run}
use loop_platform_zhb.Store.Runs.Claim.{ClaimInput, claimable, start_row}

abbrev pub live_exec : LoopId → Run → Bool
live_exec id run = run.loop_id == id && is_live run.phase && role_eq run.role RunRole.exec

abbrev pub OneInflight : List Run → Type 0
OneInflight runs = (id : LoopId) → count (live_exec id) runs ≤ 1

live_pending :
    (p : RunPhase) → is_live p ≡ true → phase_eq p running ≡ false → phase_eq p pending ≡ true
live_pending pending h k = refl
live_pending running h k = cc
live_pending RunPhase.done h k = cc
live_pending RunPhase.error h k = cc
live_pending canceled h k = cc

pending_live : (p : RunPhase) → phase_eq p pending ≡ true → is_live p ≡ true
pending_live pending h = refl
pending_live running h = refl
pending_live RunPhase.done h = cc
pending_live RunPhase.error h = cc
pending_live canceled h = cc

-- No row is left in flight by a write that takes every pending exec run out of it, where no run
-- of the loop is running.
pub supersede-clears :
    (id : LoopId) (ts : IsoTime) (rows : List Run)
    → any (in_phase id running) rows ≡ false
    → count (live_exec id) (update_where (pending_exec id) (supersede_row ts) rows) ≡ 0
supersede-clears id ts [] h = refl
supersede-clears id ts (r ∷ rows) h =
    ground (arith, live_pending r.phase, supersede-clears id ts rows)

pub none_inflight :
    (id : LoopId) (rows : List Run)
    → any (in_phase id running) rows ≡ false
    → any (in_phase id pending) rows ≡ false
    → count (live_exec id) rows ≡ 0
none_inflight id [] h k = refl
none_inflight id (r ∷ rows) h k = ground (arith, live_pending r.phase, none_inflight id rows)

pub supersede-le :
    (id other : LoopId) (ts : IsoTime) (rows : List Run)
    → count (live_exec other) (update_where (pending_exec id) (supersede_row ts) rows)
      ≤ count (live_exec other) rows
supersede-le id other ts rows =
    count-update_where_le (live_exec other) (pending_exec id) (supersede_row ts)
      (λ r h k. ground arith) rows

-- A new pending exec run of a loop that has none in flight.
pub insert-OneInflight :
    (run_id : RunId) (id : LoopId) (machine_id : MachineId) (ts : IsoTime) (rows : List Run)
    → count (live_exec id) rows ≡ 0
    → OneInflight rows
    → OneInflight (insert_row (pending_run run_id id machine_id ts) rows)
insert-OneInflight run_id id machine_id ts rows empty one other = ground (
  arith,
  count-insert_row (live_exec other) (pending_run run_id id machine_id ts) rows,
  one other,
)

pub start-OneInflight :
    (input : ClaimInput) (ts : IsoTime) (rows : List Run)
    → OneInflight rows
    → OneInflight (update_where (claimable input) (start_row ts) rows)
start-OneInflight input ts rows one other = omega (
  arith,
  one other,
  count-update_where_le (live_exec other) (claimable input) (start_row ts)
      (λ r h k. ground (arith, pending_live r.phase)) rows,
)
