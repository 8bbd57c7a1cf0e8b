-- ===== src/Store/Runs/Live.antt =====
-- packages/server/src/store/runs.ts: enqueueing and the runs in flight.
use loop_platform_zhb.Base.{
  ◌≡◌, refl, sym, subst, inl, inr, false, Option, none, some, List, arith, if◌then◌else◌,
  Bool-cases,
}
use loop_platform_zhb.Db.{IsoTime, LoopId, RunId, MachineId, Loop, Run, pending, running}
use loop_platform_zhb.Lifecycle.Snapshot.{IsValid}
use loop_platform_zhb.Store.{
  Database, Clock, find_loop, cas_loop, Settled, settled, update_where, insert_row,
}
use loop_platform_zhb.Store.Occ.{Evolves, Bumps}
use loop_platform_zhb.Store.Tables.{count, count-insert_row}
use loop_platform_zhb.Store.Manage.Laws.{Kept, Kept-refl, cas_loop-Kept, Settled-inj}
use loop_platform_zhb.Store.Runs.{
  skip, supersede, TxTrigger, manual, scheduled, EnqueueRefusal, EnqueueExecRunResult, enqueued,
  refused, running_exists, pending_exists, has_run_in_phase, bump, advance_watermark, guarded,
  supersede_and_insert, insert_only, enqueue_tx, pending_exec, supersede_row, pending_run,
}
use loop_platform_zhb.Store.Runs.Inflight.{
  OneInflight, live_exec, insert-OneInflight, supersede-clears, supersede-le, none_inflight,
}

-- What an operation on runs may do: the loops are kept, and so is the bound on runs in flight.
pub record Sound (before after : Database) : Type 0 where
  pub loops : Kept before.loops after.loops
  pub one : OneInflight before.runs → OneInflight after.runs

pub unwritten :
    {R : Type 0} (now db : Database) (q r : R) → settled q now ≡ settled r db → Sound now db
unwritten now db q r h =
    subst (Sound now) (Settled-inj h).1 (record { loops = Kept-refl now.loops; one = λ o. o })

pub bump-Bumps : Bumps bump
bump-Bumps = record { same_id = λ l. refl; next = λ l. refl }

pub advance_watermark-Bumps : (at : IsoTime) → Bumps (advance_watermark at)
advance_watermark-Bumps at = record { same_id = λ l. refl; next = λ l. refl }

pub bump-IsValid : (l : Loop) → IsValid l → IsValid (bump l)
bump-IsValid l v = ground arith

advance_watermark-IsValid : (at : IsoTime) (l : Loop) → IsValid l → IsValid (advance_watermark at l)
advance_watermark-IsValid at l v = ground arith

pub guarded-inv :
    {R : Type 0} (db : Database) (o : Option (Loop × List Loop)) (k : Database → Settled R) (r : R)
    (db' : Database)
    → guarded db o k ≡ settled r db'
    → (new : Loop) × (rows : List Loop) × (o ≡ some (new, rows))
      × (k (record db { loops = rows }) ≡ settled r db')
guarded-inv db none k r db' h = cc
guarded-inv db (some (new, rows)) k r db' h = (new, rows, refl, h)

-- A database in which a new run is queued: no second one is in flight.
record Queued (id : LoopId) (now db : Database) : Type 0 where
  same_loops : db.loops ≡ now.loops
  kept_one : OneInflight now.runs → OneInflight db.runs
  single : count (live_exec id) db.runs ≡ 1

insert-Queued :
    (run_id : RunId) (id : LoopId) (machine_id : MachineId) (ts : IsoTime) (now : Database)
    (rows : List Run)
    → count (live_exec id) rows ≡ 0
    → (OneInflight now.runs → OneInflight rows)
    → Queued id now (record now { runs = insert_row (pending_run run_id id machine_id ts) rows })
insert-Queued run_id id machine_id ts now rows empty keeps = record {
  same_loops = refl;
  kept_one = λ o. insert-OneInflight run_id id machine_id ts rows empty (keeps o);
  single =
      ground (arith, count-insert_row (live_exec id) (pending_run run_id id machine_id ts) rows);
}

supersede_and_insert-Queued :
    (clock : Clock) (run_id : RunId) (id : LoopId) (machine_id : MachineId) (now db : Database)
    (r : EnqueueExecRunResult)
    → has_run_in_phase now.runs id running ≡ false
    → supersede_and_insert clock run_id id machine_id now ≡ settled r db
    → Queued id now db
unfolding supersede_and_insert
supersede_and_insert-Queued clock run_id id machine_id now db r idle h =
    subst (Queued id now) (Settled-inj h).1 (
      insert-Queued run_id id machine_id clock.iso now
        (update_where (pending_exec id) (supersede_row clock.iso) now.runs)
        (supersede-clears id clock.iso now.runs idle)
        (λ o other. omega (arith, o other, supersede-le id other clock.iso now.runs)))

insert_only-Queued :
    (clock : Clock) (run_id : RunId) (id : LoopId) (machine_id : MachineId) (now db : Database)
    (r : EnqueueExecRunResult)
    → has_run_in_phase now.runs id running ≡ false
    → has_run_in_phase now.runs id pending ≡ false
    → insert_only clock run_id id machine_id now ≡ settled r db
    → Queued id now db
unfolding insert_only
insert_only-Queued clock run_id id machine_id now db r idle free h =
    subst (Queued id now) (Settled-inj h).1 (
      insert-Queued run_id id machine_id clock.iso now now.runs
        (none_inflight id now.runs idle free) (λ o. o))

-- What the enqueue transaction establishes: it keeps the loops and the bound, and an accepted run
-- is the only one of its loop in flight.
pub record Enqueues (id : LoopId) (r : EnqueueExecRunResult) (now db : Database) : Type 0 where
  pub sound : Sound now db
  pub alone :
      (run_id : RunId) (superseded : List RunId)
      → r ≡ enqueued run_id superseded
      → count (live_exec id) db.runs ≡ 1

Queued-Enqueues :
    (id : LoopId) (r : EnqueueExecRunResult) (now mid db : Database)
    → Kept now.loops mid.loops
    → mid.runs ≡ now.runs
    → Queued id mid db
    → Enqueues id r now db
Queued-Enqueues id r now mid db kept same q = record {
  sound = record {
    loops = subst (Kept now.loops) (sym q.same_loops) kept;
    one = λ o. q.kept_one (subst OneInflight (sym same) o);
  };
  alone = λ run_id superseded h. q.single;
}

pub refused-Enqueues :
    (id : LoopId) (why : EnqueueRefusal) (r : EnqueueExecRunResult) (now mid db : Database)
    → Kept now.loops mid.loops
    → mid.runs ≡ now.runs
    → settled (refused why) mid ≡ settled r db
    → Enqueues id r now db
refused-Enqueues id why r now mid db kept same h =
    subst (λ d. Enqueues id r now d) (Settled-inj h).1
      (record {
        sound = record { loops = kept; one = subst OneInflight (sym same) };
        alone = λ run_id superseded e. absurd (ground (arith, (Settled-inj h).0));
      })

-- The bump of the token, and the queueing after it.
queue_once :
    (clock : Clock) (run_id : RunId) (seen : Database) (current : Loop) (now db : Database)
    (r : EnqueueExecRunResult)
    → Evolves seen.loops now.loops
    → find_loop current.id seen.loops ≡ some current
    → (k : Database → Settled EnqueueExecRunResult)
    → ((mid : Database) → mid.runs ≡ now.runs → k mid ≡ settled r db → Queued current.id mid db)
    → guarded now (cas_loop current.id current.revision bump now.loops) k ≡ settled r db
    → Enqueues current.id r now db
queue_once clock run_id seen current now db r ev s k queues h =
    let (new, rows, e, rest) =
      guarded-inv now (cas_loop current.id current.revision bump now.loops) k r db h in
    Queued-Enqueues current.id r now (record now { loops = rows }) db
      (cas_loop-Kept seen.loops now.loops current.id current new bump rows ev s bump-Bumps
        (bump-IsValid current) e)
      refl (queues (record now { loops = rows }) refl rest)

-- The enqueue transaction under every trigger, when its loop was read before token-increasing
-- interference: it keeps every loop valid and every row unchanged or with a greater token, keeps
-- every loop to one exec run in flight, and leaves the loop of an accepted enqueue with exactly
-- one.
pub enqueue_tx-Enqueues :
    (clock : Clock) (run_id : RunId) (seen : Database) (current : Loop) (trigger : TxTrigger)
    (now db : Database) (r : EnqueueExecRunResult)
    → Evolves seen.loops now.loops
    → find_loop current.id seen.loops ≡ some current
    → enqueue_tx clock run_id current trigger now ≡ settled r db
    → Enqueues current.id r now db
unfolding enqueue_tx
enqueue_tx-Enqueues clock run_id seen current (scheduled at) now db r ev s h =
    let (new, rows, e, k) =
      guarded-inv now (cas_loop current.id current.revision (advance_watermark at) now.loops)
        (λ after.
          if has_run_in_phase after.runs current.id running
          then settled (refused running_exists) after
          else supersede_and_insert clock run_id current.id current.machine_id after)
        r db h in
    let kept =
      cas_loop-Kept seen.loops now.loops current.id current new (advance_watermark at) rows ev s
        (advance_watermark-Bumps at) (advance_watermark-IsValid at current) e in
    let mid = record now { loops = rows } in
    elim (Bool-cases (has_run_in_phase now.runs current.id running)) [
      | inl busy ↦ refused-Enqueues current.id running_exists r now mid db kept refl (rw busy at k)
      | inr idle ↦ Queued-Enqueues current.id r now mid db kept refl (
          supersede_and_insert-Queued clock run_id current.id current.machine_id mid db r idle
            (rw idle at k))
    ]
enqueue_tx-Enqueues clock run_id seen current (manual supersede) now db r ev s h =
    elim (Bool-cases (has_run_in_phase now.runs current.id running)) [
      | inl busy ↦
          refused-Enqueues current.id running_exists r now now db (Kept-refl now.loops) refl
            (rw (busy, enqueue_tx) at h)
      | inr idle ↦
          queue_once clock run_id seen current now db r ev s
            (supersede_and_insert clock run_id current.id current.machine_id)
            (λ mid same k.
              supersede_and_insert-Queued clock run_id current.id current.machine_id mid db r
                (rw same (idle)) k)
            (rw (idle, enqueue_tx) at h)
    ]
enqueue_tx-Enqueues clock run_id seen current (manual skip) now db r ev s h =
    elim (Bool-cases (has_run_in_phase now.runs current.id running)) [
      | inl busy ↦
          refused-Enqueues current.id running_exists r now now db (Kept-refl now.loops) refl
            (rw (busy, enqueue_tx) at h)
      | inr idle ↦ elim (Bool-cases (has_run_in_phase now.runs current.id pending)) [
        | inl queued ↦
            refused-Enqueues current.id pending_exists r now now db (Kept-refl now.loops) refl
              (rw (idle, queued, enqueue_tx) at h)
        | inr free ↦
            queue_once clock run_id seen current now db r ev s
              (insert_only clock run_id current.id current.machine_id)
              (λ mid same k.
                insert_only-Queued clock run_id current.id current.machine_id mid db r
                  (rw same (idle)) (rw same (free)) k)
              (rw (idle, free, enqueue_tx) at h)
      ]
    ]
