-- ===== src/Store/Manage/Retry.antt =====
-- packages/server/src/loop-lifecycle/ops.ts: the management operations with their retry, under
-- interference between resolving and writing.
use loop_platform_zhb.Base.{
  ◌≡◌, refl, ◌⊎◌, inl, inr, JsString, Option, some, arith, Bool-cases, Option-cases,
}
use loop_platform_zhb.Db.{LoopId}
use loop_platform_zhb.Lifecycle.{plan_goal_update, plan_reopen}
use loop_platform_zhb.Store.{
  Database, Clock, find_loop, Settled, settled, result, Moments, with_guard_retry,
}
use loop_platform_zhb.Store.Occ.{Evolves, with_guard_retry-inv}
use loop_platform_zhb.Store.Manage.{
  UpdateGoalResult, update_goal_once, update_goal, UpdateTaskFileResult, retarget,
  update_task_file_once, update_task_file, ReopenLoopResult, reopen_loop_once, reopen_loop,
}
use loop_platform_zhb.Store.Manage.Laws.{
  Kept, same_database, retarget-IsValid, retarget-Bumps, goal_plan-Kept, reopen_plan-Kept,
  commit_loop-Kept,
}
use loop_platform_zhb.Base.{any}
use loop_platform_zhb.Db.{running}
use loop_platform_zhb.Schedule.{opt_str_eq}
use loop_platform_zhb.Store.Manage.{in_phase}

-- What an attempt may do to the loops.
abbrev pub Keeps : {R : Type 0} → (Database → Database → Settled R) → Type 0
Keeps {R} attempt =
    (seen now db : Database) (r : R)
    → Evolves seen.loops now.loops
    → attempt seen now ≡ settled r db
    → Kept now.loops db.loops

update_goal_once-Keeps :
    (clock : Clock) (id : LoopId) (command : Option JsString)
    → Keeps (update_goal_once clock id command)
unfolding update_goal_once
update_goal_once-Keeps clock id command seen now db r ev h =
    elim (Option-cases (find_loop id seen.loops)) [
      | inl missing ↦ same_database now db r UpdateGoalResult.not_found (ground arith)
      | inr (l, e) ↦
          goal_plan-Kept seen now db id l command clock.iso (plan_goal_update l command clock.iso) r
            ev e refl (rw (e, update_goal_once) at h)
    ]

update_task_file_once-Keeps :
    (clock : Clock) (id : LoopId) (task_file : JsString)
    → Keeps (update_task_file_once clock id task_file)
unfolding update_task_file_once
update_task_file_once-Keeps clock id task_file seen now db r ev h =
    elim (Option-cases (find_loop id seen.loops)) [
      | inl missing ↦ same_database now db r UpdateTaskFileResult.not_found (ground arith)
      | inr (l, e) ↦ elim (Bool-cases (opt_str_eq l.task_file (some task_file))) [
        | inl same ↦ same_database now db r (UpdateTaskFileResult.noop l) (ground arith)
        | inr differs ↦ elim (Bool-cases (any (in_phase id running) now.runs)) [
          | inl busy ↦ same_database now db r UpdateTaskFileResult.run_in_progress (ground arith)
          | inr idle ↦
              commit_loop-Kept seen now now db id l (retarget task_file clock.iso)
                UpdateTaskFileResult.changed r ev e (retarget-Bumps task_file clock.iso)
                (retarget-IsValid task_file clock.iso l)
                (rw (e, differs, idle, update_task_file_once) at h)
        ]
      ]
    ]

reopen_loop_once-Keeps : (clock : Clock) (id : LoopId) → Keeps (reopen_loop_once clock id)
unfolding reopen_loop_once
reopen_loop_once-Keeps clock id seen now db r ev h = elim (Option-cases (find_loop id seen.loops)) [
  | inl missing ↦ same_database now db r ReopenLoopResult.not_found (ground arith)
  | inr (l, e) ↦
      reopen_plan-Kept seen now db id l clock (plan_reopen l clock.iso) r ev e refl
        (rw (e, reopen_loop_once) at h)
]

-- The databases of the two attempts, when others have only committed token-bumping writes between
-- what an attempt saw and what it writes.
pub record Interfered (m : Moments) : Type 0 where
  pub first : Evolves m.seen.loops m.now.loops
  pub second : Evolves m.seen_again.loops m.now_again.loops

-- The rows that an operation leaves, against those of the attempt that settled.
abbrev pub KeptBy : Moments → Database → Type 0
KeptBy m db = Kept m.now.loops db.loops ⊎ Kept m.now_again.loops db.loops

-- What every settling attempt establishes of the database it writes holds after the retries.
pub retry-By :
    {R : Type 0} (P : R → Database → Database → Type 0) (attempt : Database → Database → Settled R)
    (m : Moments) (r : R) (db : Database)
    → ((seen now after : Database) (q : R)
        → Evolves seen.loops now.loops
        → attempt seen now ≡ settled q after
        → P q now after)
    → Interfered m
    → with_guard_retry attempt m ≡ result r db
    → P r m.now db ⊎ P r m.now_again db
retry-By P attempt m r db keeps i h = elim (with_guard_retry-inv attempt m r db h) [
  | inl first ↦ inl (keeps m.seen m.now db r i.first first)
  | inr (lost, second) ↦ inr (keeps m.seen_again m.now_again db r i.second second)
]

retry-KeptBy :
    {R : Type 0} (attempt : Database → Database → Settled R) (m : Moments) (r : R) (db : Database)
    → Keeps attempt
    → Interfered m
    → with_guard_retry attempt m ≡ result r db
    → KeptBy m db
retry-KeptBy attempt m r db keeps i h =
    retry-By (λ q now after. Kept now.loops after.loops) attempt m r db keeps i h

-- A goal update with its retry that settles, under token-increasing interference, keeps every loop
-- valid and every row unchanged or with a greater token.
pub update_goal-KeptBy :
    (clock : Clock) (id : LoopId) (command : Option JsString) (m : Moments) (r : UpdateGoalResult)
    (db : Database)
    → Interfered m
    → update_goal clock id command m ≡ result r db
    → KeptBy m db
unfolding update_goal
update_goal-KeptBy clock id command m r db i h =
    retry-KeptBy (update_goal_once clock id command) m r db
      (update_goal_once-Keeps clock id command) i h

-- Retargeting the task file with its retry, where it settles, under token-increasing interference,
-- keeps every loop valid and every row unchanged or with a greater token.
pub update_task_file-KeptBy :
    (clock : Clock) (id : LoopId) (task_file : JsString) (m : Moments) (r : UpdateTaskFileResult)
    (db : Database)
    → Interfered m
    → update_task_file clock id task_file m ≡ result r db
    → KeptBy m db
unfolding update_task_file
update_task_file-KeptBy clock id task_file m r db i h =
    retry-KeptBy (update_task_file_once clock id task_file) m r db
      (update_task_file_once-Keeps clock id task_file) i h

-- A reopening with its retry that settles, under token-increasing interference, keeps every loop
-- valid and every row unchanged or with a greater token.
pub reopen_loop-KeptBy :
    (clock : Clock) (id : LoopId) (m : Moments) (r : ReopenLoopResult) (db : Database)
    → Interfered m
    → reopen_loop clock id m ≡ result r db
    → KeptBy m db
unfolding reopen_loop
reopen_loop-KeptBy clock id m r db i h =
    retry-KeptBy (reopen_loop_once clock id) m r db (reopen_loop_once-Keeps clock id) i h
