-- ===== src/Store/Report/Planned.antt =====
-- packages/server/src/store/report.ts: the loop write of a report's plan, with the cancelation of
-- siblings by a finish.
use loop_platform_zhb.Base.{
  ◌≡◌, refl, subst, ◌∙◌, inl, inr, false, Option, none, some, List, arith, Option-cases,
}
use loop_platform_zhb.Db.{IsoTime, LoopId, RunId, Loop, Run}
use loop_platform_zhb.Lifecycle.Snapshot.{IsValid}
use loop_platform_zhb.Lifecycle.Report.{
  LoopV1Writes, ReportWritePlan, v1_success, v1_finish, loop_writes_of, apply_loop_v1_writes,
}
use loop_platform_zhb.Store.{Database, find_loop}
use loop_platform_zhb.Store.Occ.{Evolves}
use loop_platform_zhb.Store.Tables.{count, count-update_where_le}
use loop_platform_zhb.Store.Manage.Laws.{Kept-refl}
use loop_platform_zhb.Store.Runs.Inflight.{live_exec}
use loop_platform_zhb.Store.Report.{
  write_loop, write_plan_loop, other_pending, retire_row, retire_pending,
}
use loop_platform_zhb.Store.Report.Writes.{Sound-trans, Quiet}
use loop_platform_zhb.Lifecycle.Report.{
  v0, v1_failure, v1_late_success, terminal_protocol_invalid, loop_state_invalid, finish_rejected,
}
use loop_platform_zhb.Store.Runs.Revoke.{count-update_where_out}
use loop_platform_zhb.Store.Report.LoopWrite.{Writes, write_loop-Writes}

retire_out :
    (loop_id : LoopId) (run_id : RunId) (now_iso : IsoTime) (r : Run)
    → other_pending loop_id run_id (retire_row now_iso r) ≡ false
retire_out loop_id run_id now_iso r = ground arith

retire_pending-Quiet :
    (loop_id : LoopId) (run_id : RunId) (now_iso : IsoTime) (db : Database)
    → Quiet db (retire_pending loop_id run_id now_iso db)
unfolding retire_pending
retire_pending-Quiet loop_id run_id now_iso db = record {
  sound = record {
    loops = Kept-refl db.loops;
    one = λ o id. omega (
      arith,
      o id,
      count-update_where_le (live_exec id) (other_pending loop_id run_id) (retire_row now_iso)
          (λ r g k. ground arith) db.runs,
    );
  };
  same_leases = refl;
}

pub Quiet-trans : (a b c : Database) → Quiet a b → Quiet b c → Quiet a c
Quiet-trans a b c h k = record {
  sound = Sound-trans a b c h.sound k.sound;
  same_leases = k.same_leases ∙ h.same_leases;
}

-- The row that a report hands to the scheduler is the one stored, and of the loop's other runs
-- none is pending.
abbrev pub Hands : RunId → Option Loop → Database → Type 0
Hands run_id reconcile db =
    (l : Loop)
    → reconcile ≡ some l
    → (find_loop l.id db.loops ≡ some l) × (count (other_pending l.id run_id) db.runs ≡ 0)

pub record Planned (run_id : RunId) (reconcile : Option Loop) (now db : Database) : Type 0 where
  pub quiet : Quiet now db
  pub hands : Hands run_id reconcile db

unplanned : (run_id : RunId) (now : Database) → Planned run_id none now now
unplanned run_id now = record {
  quiet = record {
    sound = record { loops = Kept-refl now.loops; one = λ o. o };
    same_leases = refl;
  };
  hands = λ l e. cc;
}

Planned-subst :
    (run_id : RunId) (now after db : Database) (q reconcile : Option Loop)
    → Planned run_id q now after
    → ◌≡◌ {A = Option (Option Loop × Database)} (some (q, after)) (some (reconcile, db))
    → Planned run_id reconcile now db
Planned-subst run_id now after db q reconcile p h =
    let same : q ≡ reconcile = cc in
    let same_db : after ≡ db = cc in
    subst (λ x. Planned run_id x now db) same (subst (Planned run_id q now) same_db p)

finish_written :
    (run_id : RunId) (now_iso : IsoTime) (l new : Loop) (w : LoopV1Writes) (now after : Database)
    → Writes l new w now after
    → Planned run_id (some new) now (retire_pending new.id run_id now_iso after)
unfolding retire_pending
finish_written run_id now_iso l new w now after wrote = record {
  quiet =
      Quiet-trans now after (retire_pending new.id run_id now_iso after) wrote.quiet
        (retire_pending-Quiet new.id run_id now_iso after);
  hands = λ k e.
      let same : new ≡ k = cc in
      subst
        (λ x.
          (find_loop x.id after.loops ≡ some x)
          × (count (other_pending x.id run_id) (retire_pending new.id run_id now_iso after).runs
              ≡ 0))
        same
        (
          wrote.found,
          count-update_where_out (other_pending new.id run_id) (retire_row now_iso)
              (retire_out new.id run_id now_iso) after.runs,
        );
}

success_written :
    (run_id : RunId) (l new : Loop) (w : LoopV1Writes) (now after : Database)
    → Writes l new w now after
    → Planned run_id none now after
success_written run_id l new w now after wrote = record { quiet = wrote.quiet; hands = λ k e. cc }

-- The loop of the plan is as it was read, and its write keeps it valid.
pub record PlanFits (plan : ReportWritePlan) (seen : List Loop) (loop : Option Loop) : Type 0 where
  pub found : (l : Loop) → loop ≡ some l → find_loop l.id seen ≡ some l
  pub valid :
      (l : Loop) (w : LoopV1Writes)
      → loop ≡ some l
      → loop_writes_of plan ≡ some w
      → IsValid (apply_loop_v1_writes w l)

pub write_plan_loop-Planned :
    (plan : ReportWritePlan) (loop : Option Loop) (run : Run) (now_iso : IsoTime) (seen : List Loop)
    (now db : Database) (reconcile : Option Loop)
    → Evolves seen now.loops
    → PlanFits plan seen loop
    → write_plan_loop plan loop run now_iso now ≡ some (reconcile, db)
    → Planned run.id reconcile now db
unfolding write_plan_loop
write_plan_loop-Planned (v1_success r w) (some l) run now_iso seen now db reconcile ev fits h =
    elim (Option-cases (write_loop w l now)) [
      | inl lost ↦ absurd (ground arith)
      | inr ((new, after), e) ↦
          Planned-subst run.id now after db none reconcile
            (success_written run.id l new w now after (
              write_loop-Writes seen w l now after new ev (fits.found l refl)
                (λ v. fits.valid l w refl refl) e))
            (rw (e, write_plan_loop) at h)
    ]
write_plan_loop-Planned (v1_finish r w) (some l) run now_iso seen now db reconcile ev fits h =
    elim (Option-cases (write_loop w l now)) [
      | inl lost ↦ absurd (ground arith)
      | inr ((new, after), e) ↦
          Planned-subst run.id now (retire_pending new.id run.id now_iso after) db (some new)
            reconcile
            (finish_written run.id now_iso l new w now after (
              write_loop-Writes seen w l now after new ev (fits.found l refl)
                (λ v. fits.valid l w refl refl) e))
            (rw (e, write_plan_loop) at h)
    ]
write_plan_loop-Planned (v1_success r w) none run now_iso seen now db reconcile ev fits h =
    Planned-subst run.id now now db none reconcile (unplanned run.id now) h
write_plan_loop-Planned (v1_finish r w) none run now_iso seen now db reconcile ev fits h =
    Planned-subst run.id now now db none reconcile (unplanned run.id now) h
write_plan_loop-Planned (v0 r) loop run now_iso seen now db reconcile ev fits h =
    Planned-subst run.id now now db none reconcile (unplanned run.id now) h
write_plan_loop-Planned (v1_failure r) loop run now_iso seen now db reconcile ev fits h =
    Planned-subst run.id now now db none reconcile (unplanned run.id now) h
write_plan_loop-Planned (v1_late_success r) loop run now_iso seen now db reconcile ev fits h =
    Planned-subst run.id now now db none reconcile (unplanned run.id now) h
write_plan_loop-Planned (terminal_protocol_invalid r) loop run now_iso seen now db reconcile ev fits
      h =
    Planned-subst run.id now now db none reconcile (unplanned run.id now) h
write_plan_loop-Planned (loop_state_invalid r) loop run now_iso seen now db reconcile ev fits h =
    Planned-subst run.id now now db none reconcile (unplanned run.id now) h
write_plan_loop-Planned (finish_rejected c r) loop run now_iso seen now db reconcile ev fits h =
    Planned-subst run.id now now db none reconcile (unplanned run.id now) h
