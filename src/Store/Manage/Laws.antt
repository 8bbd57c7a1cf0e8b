-- ===== src/Store/Manage/Laws.antt =====
-- packages/server/src/loop-lifecycle/ops.ts: the writes of the management operations, one attempt.
use loop_platform_zhb.Base.{
  ◌≡◌, refl, sym, ap, subst, ◌∙◌, JsString, Bool, true, false, Option, none, some, List, arith,
  ◌==◌, if◌then◌else◌,
}
use mathlib.Core.Option
use loop_platform_zhb.Db.{IsoTime, LoopId, Loop}
use loop_platform_zhb.Lifecycle.{
  GoalUpdatePlan, GoalPatch, plan_goal_update, apply_goal_patch, ReopenPlan, ReopenWrites,
  plan_reopen, apply_reopen_writes,
}
use loop_platform_zhb.Lifecycle.Snapshot.{IsValid, plan_goal_update-GoalChanged}
use loop_platform_zhb.Lifecycle.Finish.{plan_reopen-Reopened}
use loop_platform_zhb.Store.{Database, Clock, find_loop, update_loop, cas_loop, settled}
use loop_platform_zhb.Store.Tables.{find_loop-update_loop}
use loop_platform_zhb.Store.Occ.{
  Evolves, Evolves-refl, Bumps, cas_loop-inv, cas_loop-Evolves, cas_loop-lands,
}
use loop_platform_zhb.Store.Manage.{
  UpdateGoalResult, retarget, revoke_generation, ReopenLoopResult, commit_loop, execute_goal_plan,
  execute_reopen_plan,
}

-- Every loop row that can be found is valid.
abbrev pub AllValid : List Loop → Type 0
AllValid rows = (id : LoopId) (l : Loop) → find_loop id rows ≡ some l → IsValid l

-- The rows after an operation: valid if they were, and evolved from those before it.
pub record Kept (old new : List Loop) : Type 0 where
  pub evolves : Evolves old new
  pub valid : AllValid old → AllValid new

pub Kept-refl : (rows : List Loop) → Kept rows rows
Kept-refl rows = record { evolves = Evolves-refl rows; valid = λ v. v }

found-IsValid :
    (f : Loop → Loop) (same : Bool) (o : Option Loop) (l : Loop)
    → ((m : Loop) → o ≡ some m → IsValid m)
    → ((m : Loop) → o ≡ some m → same ≡ true → IsValid (f m))
    → (if same then Option.map f o else o) ≡ some l
    → IsValid l
found-IsValid f true none l v w h = cc
found-IsValid f true (some m) l v w h = subst IsValid (ground arith) (w m refl refl)
found-IsValid f false o l v w h = v l h

update_loop-AllValid :
    (id : LoopId) (f : Loop → Loop) (rows : List Loop)
    → Bumps f
    → ((m : Loop) → find_loop id rows ≡ some m → IsValid (f m))
    → AllValid rows
    → AllValid (update_loop id f rows)
update_loop-AllValid id f rows b w v other l h =
    found-IsValid f (id == other) (find_loop other rows) l (v other)
      (λ m e same. w m (subst (λ k. find_loop k rows ≡ some m) (ground arith) e))
      (sym (find_loop-update_loop id other f b.same_id rows) ∙ h)

-- A guarded write planned from a row seen earlier, whose result is valid.
pub cas_loop-Kept :
    (seen now : List Loop) (id : LoopId) (l new : Loop) (f : Loop → Loop) (rows' : List Loop)
    → Evolves seen now
    → find_loop id seen ≡ some l
    → Bumps f
    → (IsValid l → IsValid (f l))
    → cas_loop id l.revision f now ≡ some (new, rows')
    → Kept now rows'
cas_loop-Kept seen now id l new f rows' ev s b fine h =
    let (lands, written) = cas_loop-lands seen now id l f new rows' ev s h in
    let (m, e, r, n, same) = cas_loop-inv id l.revision f now new rows' h in
    record {
      evolves = cas_loop-Evolves id l.revision f now new rows' b h;
      valid = λ v. subst AllValid (sym same) (
          update_loop-AllValid id f now b
            (λ k found. subst (λ x. IsValid (f x)) (ground arith) (fine (v id l lands))) v);
    }

pub Settled-inj :
    {R : Type 0} {r q : R} {a b : Database} → settled r a ≡ settled q b → (r ≡ q) × (a ≡ b)
Settled-inj h = (cc, cc)

-- What settles: nothing is written, or a guarded update went through.
pub commit_loop-inv :
    {R : Type 0} (db : Database) (answer : Loop → R) (o : Option (Loop × List Loop)) (r : R)
    (db' : Database)
    → commit_loop db answer o ≡ settled r db'
    → (new : Loop) × (rows : List Loop) × (o ≡ some (new, rows)) × (db'.loops ≡ rows)
commit_loop-inv db answer none r db' h = cc
commit_loop-inv db answer (some (new, rows)) r db' h =
    (new, rows, refl, sym (ap (λ d. d.loops) (Settled-inj h).1))

apply_goal_patch-Bumps : (writes : GoalPatch) → Bumps (apply_goal_patch writes)
unfolding apply_goal_patch
apply_goal_patch-Bumps writes = record { same_id = λ l. refl; next = λ l. refl }

pub retarget-Bumps : (task_file : JsString) (now_iso : IsoTime) → Bumps (retarget task_file now_iso)
unfolding retarget
retarget-Bumps task_file now_iso = record { same_id = λ l. refl; next = λ l. refl }

apply_reopen_writes-Bumps : (writes : ReopenWrites) → Bumps (apply_reopen_writes writes)
unfolding apply_reopen_writes
apply_reopen_writes-Bumps writes = record { same_id = λ l. refl; next = λ l. refl }

-- Where an operation settles by a guarded update planned from a row that it saw.
pub commit_loop-Kept :
    {R : Type 0} (seen now db db' : Database) (id : LoopId) (l : Loop) (f : Loop → Loop)
    (answer : Loop → R) (r : R)
    → Evolves seen.loops now.loops
    → find_loop id seen.loops ≡ some l
    → Bumps f
    → (IsValid l → IsValid (f l))
    → commit_loop db answer (cas_loop id l.revision f now.loops) ≡ settled r db'
    → Kept now.loops db'.loops
commit_loop-Kept seen now db db' id l f answer r ev s b fine h =
    let (new, rows, e, same) =
      commit_loop-inv db answer (cas_loop id l.revision f now.loops) r db' h in
    subst (Kept now.loops) (sym same)
      (cas_loop-Kept seen.loops now.loops id l new f rows ev s b fine e)

pub same_database :
    {R : Type 0} (now db : Database) (r q : R)
    → settled q now ≡ settled r db
    → Kept now.loops db.loops
same_database now db r q h =
    subst (λ d. Kept now.loops d.loops) (Settled-inj h).1 (Kept-refl now.loops)

pub retarget-IsValid :
    (task_file : JsString) (now_iso : IsoTime) (l : Loop)
    → IsValid l
    → IsValid (retarget task_file now_iso l)
unfolding retarget
retarget-IsValid task_file now_iso l v = ground arith

pub goal_plan-Kept :
    (seen now db : Database) (id : LoopId) (l : Loop) (command : Option JsString)
    (now_iso : IsoTime) (plan : GoalUpdatePlan) (r : UpdateGoalResult)
    → Evolves seen.loops now.loops
    → find_loop id seen.loops ≡ some l
    → plan_goal_update l command now_iso ≡ plan
    → execute_goal_plan id l plan now ≡ settled r db
    → Kept now.loops db.loops
goal_plan-Kept seen now db id l command now_iso GoalUpdatePlan.noop r ev s p h =
    same_database now db r _ h
goal_plan-Kept seen now db id l command now_iso (GoalUpdatePlan.rejected reason) r ev s p h =
    same_database now db r _ h
goal_plan-Kept seen now db id l command now_iso (GoalUpdatePlan.changed writes) r ev s p h =
    commit_loop-Kept seen now now db id l (apply_goal_patch writes) UpdateGoalResult.changed r ev s
      (apply_goal_patch-Bumps writes)
      (λ v. (plan_goal_update-GoalChanged l command now_iso writes p).valid) h

pub reopen_plan-Kept :
    (seen now db : Database) (id : LoopId) (l : Loop) (clock : Clock) (plan : ReopenPlan)
    (r : ReopenLoopResult)
    → Evolves seen.loops now.loops
    → find_loop id seen.loops ≡ some l
    → plan_reopen l clock.iso ≡ plan
    → execute_reopen_plan clock id l plan now ≡ settled r db
    → Kept now.loops db.loops
reopen_plan-Kept seen now db id l clock (ReopenPlan.rejected reason) r ev s p h =
    same_database now db r _ h
reopen_plan-Kept seen now db id l clock (ReopenPlan.changed writes) r ev s p h =
    commit_loop-Kept seen now (revoke_generation id clock.iso now) db id l
      (apply_reopen_writes writes) ReopenLoopResult.changed r ev s
      (apply_reopen_writes-Bumps writes) (λ v. (plan_reopen-Reopened l clock.iso writes p).valid) h
