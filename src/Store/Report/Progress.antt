-- ===== src/Store/Report/Progress.antt =====
-- packages/server/src/store/report.ts: a report that nothing interferes with.
use loop_platform_zhb.Db.Enums.{phase_eq_refl}
use loop_platform_zhb.Store.Dates.{DateApi, is_lease_dead}
use loop_platform_zhb.Base.{
  ◌≡◌, refl, sym, ap, subst, ◌∙◌, inl, inr, Bool, true, false, ◌||◌, Option, none, some, List, [],
  ◌∷◌, arith, any, ◌==◌, Bool-cases,
}
use loop_platform_zhb.Db.{
  IsoTime, LoopId, RunId, TokenHash, Loop, Run, RunLeaseRow, LeaseState, lease_state_eq,
}
use loop_platform_zhb.WriteSet.{RunWrites, apply_run_writes}
use loop_platform_zhb.Lifecycle.Report.{
  LoopV1Writes, ReportWritePlan, v1_success, v1_finish, apply_loop_v1_writes,
}
use loop_platform_zhb.Store.{
  Database, Clock, find_loop, cas_loop, Settled, settled, update_where, delete_where,
}
use loop_platform_zhb.Store.Binding.{ArtifactBinding}
use loop_platform_zhb.Store.Binding.Writes.{
  OnlyArtifacts, OnlyArtifacts-leases, OnlyArtifacts-loops, any-erased, bind_artifact-OnlyArtifacts,
  bind_artifact-goes,
}
use loop_platform_zhb.Store.Report.{
  observed, delete_observed_lease, unchanged, write_run, write_loop, write_plan_loop,
  retire_pending,
}
use loop_platform_zhb.Store.Report.Writes.{has_token}
use loop_platform_zhb.Lifecycle.Report.{
  v0, v1_failure, v1_late_success, terminal_protocol_invalid, loop_state_invalid, finish_rejected,
}
use loop_platform_zhb.WriteSet.{ReportRequest, build_report_write_set}
use loop_platform_zhb.Lifecycle.Report.{run_writes_of}
use loop_platform_zhb.Store.{select_first}
use loop_platform_zhb.Store.Runs.Claim.{find_run}
use loop_platform_zhb.Store.Runs.Exclusive.{find_loop-id}
use loop_platform_zhb.Store.Report.{
  DateApi, is_lease_dead, ReportOutcome, accepted, find_lease, plan_for, settle_v0, settle_v1,
  finalizes, reconciles, settle_live, run_report_tx,
}
use loop_platform_zhb.Store.{update_loop}

module _ {A : Type 0} where
  -- A row that is found satisfies every test that follows from being the found one.
  any-select_first :
      (p q : A → Bool) (rows : List A) (a : A)
      → select_first p rows ≡ some a
      → q a ≡ true
      → any q rows ≡ true
  any-select_first p q [] a h k = cc
  any-select_first p q (r ∷ rows) a h k = elim (Bool-cases (p r)) [
    | inl here ↦ ground arith
    | inr there ↦ ground (arith, any-select_first p q rows a)
  ]

  select_first-test :
      (p : A → Bool) (rows : List A) (a : A) → select_first p rows ≡ some a → p a ≡ true
  select_first-test p [] a h = cc
  select_first-test p (r ∷ rows) a h = ground (arith, select_first-test p rows a)

lease_state_eq_refl : (s : LeaseState) → lease_state_eq s s ≡ true
lease_state_eq_refl LeaseState.active = refl
lease_state_eq_refl LeaseState.terminal_grace = refl

found-unchanged :
    (id : RunId) (run : Run) (db : Database)
    → find_run id db.runs ≡ some run
    → any (unchanged run) db.runs ≡ true
found-unchanged id run db h =
    any-select_first (λ r. r.id == id) (unchanged run) db.runs run h
      (ground (arith, phase_eq_refl run.phase))

write_run-lands :
    (run : Run) (w : RunWrites) (db : Database)
    → any (unchanged run) db.runs ≡ true
    → (after : Database) × (write_run run w db ≡ some after)
      × (after.leases ≡ db.leases)
      × (after.loops ≡ db.loops)
unfolding write_run
write_run-lands run w db present = (
  record db { runs = update_where (unchanged run) (apply_run_writes w) db.runs },
  rw (present, write_run) refl,
  refl,
  refl,
)

cas_loop-goes :
    (id : LoopId) (l : Loop) (f : Loop → Loop) (rows : List Loop)
    → find_loop id rows ≡ some l
    → cas_loop id l.revision f rows ≡ some (f l, update_loop id f rows)
unfolding cas_loop
cas_loop-goes id l f rows h = rw (h, cas_loop) (ground arith)

write_loop-goes :
    (w : LoopV1Writes) (l : Loop) (db : Database)
    → find_loop l.id db.loops ≡ some l
    → write_loop w l db
      ≡ some (
        apply_loop_v1_writes w l,
        record db { loops = update_loop l.id (apply_loop_v1_writes w) db.loops },
      )
unfolding write_loop
write_loop-goes w l db h =
    rw (cas_loop-goes l.id l (apply_loop_v1_writes w) db.loops h, write_loop) refl

-- A planned loop write goes through where the loop read is the one stored.
Goes : Option (Option Loop × Database) → Database → Type 0
Goes out db =
    (o : Option Loop) × (after : Database) × (out ≡ some (o, after)) × (after.leases ≡ db.leases)

write_plan_loop-Goes :
    (plan : ReportWritePlan) (loop : Option Loop) (run : Run) (now_iso : IsoTime) (db : Database)
    → ((l : Loop) → loop ≡ some l → find_loop l.id db.loops ≡ some l)
    → Goes (write_plan_loop plan loop run now_iso db) db
unfolding write_plan_loop retire_pending Goes
write_plan_loop-Goes (v1_success r w) (some l) run now_iso db found = (
  none,
  record db { loops = update_loop l.id (apply_loop_v1_writes w) db.loops },
  rw (write_loop-goes w l db (found l refl), write_plan_loop) refl,
  refl,
)
write_plan_loop-Goes (v1_finish r w) (some l) run now_iso db found =
    let new = apply_loop_v1_writes w l in
    (
      some new,
      retire_pending new.id run.id now_iso
          (record db { loops = update_loop l.id (apply_loop_v1_writes w) db.loops }),
      rw (write_loop-goes w l db (found l refl), write_plan_loop) refl,
      refl,
    )
write_plan_loop-Goes (v1_success r w) none run now_iso db found = (none, db, refl, refl)
write_plan_loop-Goes (v1_finish r w) none run now_iso db found = (none, db, refl, refl)
write_plan_loop-Goes (v0 r) loop run now_iso db found = (none, db, refl, refl)
write_plan_loop-Goes (v1_failure r) loop run now_iso db found = (none, db, refl, refl)
write_plan_loop-Goes (v1_late_success r) loop run now_iso db found = (none, db, refl, refl)
write_plan_loop-Goes (terminal_protocol_invalid r) loop run now_iso db found =
    (none, db, refl, refl)
write_plan_loop-Goes (loop_state_invalid r) loop run now_iso db found = (none, db, refl, refl)
write_plan_loop-Goes (finish_rejected c r) loop run now_iso db found = (none, db, refl, refl)

delete_observed_lease-goes :
    (token_hash : TokenHash) (lease : RunLeaseRow) (leases : List RunLeaseRow) (db : Database)
    → find_lease token_hash leases ≡ some lease
    → db.leases ≡ leases
    → (after : Database) × (delete_observed_lease token_hash lease.state db ≡ some after)
unfolding delete_observed_lease
delete_observed_lease-goes token_hash lease leases db h same =
    let present : any (observed token_hash lease.state) db.leases ≡ true =
      subst (λ rows. any (observed token_hash lease.state) rows ≡ true) (sym same)
        (any-select_first (has_token token_hash) (observed token_hash lease.state) leases lease h (
          ground (
            arith,
            lease_state_eq_refl lease.state,
            select_first-test (has_token token_hash) leases lease h,
          ))) in
    (
      record db { leases = delete_where (observed token_hash lease.state) db.leases },
      rw (present, delete_observed_lease) refl,
    )

-- An answer, and the database it leaves.
abbrev pub Accepts : Bool → Settled ReportOutcome → Type 0
Accepts reconcile out =
    (o : Option Loop) × (after : Database) × (out ≡ settled (accepted reconcile o) after)

settle_v1-Accepts :
    (clock : Clock) (token_hash : TokenHash) (lease : RunLeaseRow) (run : Run) (loop : Option Loop)
    (plan : ReportWritePlan) (reconcile : Bool) (db : Database)
    → find_lease token_hash db.leases ≡ some lease
    → any (unchanged run) db.runs ≡ true
    → ((l : Loop) → loop ≡ some l → find_loop l.id db.loops ≡ some l)
    → Accepts reconcile (settle_v1 clock token_hash lease run loop plan reconcile db)
unfolding settle_v1 Goes
settle_v1-Accepts clock token_hash lease run loop plan reconcile db e f found =
    let (mid, w, same, loops) = write_run-lands run (run_writes_of plan) db f in
    let (o, after, p, kept) =
      write_plan_loop-Goes plan loop run clock.iso mid
        (λ l q. subst (λ rows. find_loop l.id rows ≡ some l) (sym loops) (found l q)) in
    let (last, d) = delete_observed_lease-goes token_hash lease db.leases after e (kept ∙ same) in
    (o, last, rw (w, p, d, settle_v1) refl)

settle_v0-Accepts :
    (clock : Clock) (token_hash : TokenHash) (body : ReportRequest) (lease : RunLeaseRow)
    (run : Run) (reconcile : Bool) (db : Database)
    → find_lease token_hash db.leases ≡ some lease
    → any (unchanged run) db.runs ≡ true
    → Accepts reconcile (settle_v0 clock token_hash body lease run reconcile db)
unfolding settle_v0
settle_v0-Accepts clock token_hash body lease run reconcile db e f =
    let (mid, w, same, loops) =
      write_run-lands run (build_report_write_set body run clock.iso) db f in
    let (last, d) = delete_observed_lease-goes token_hash lease db.leases mid e same in
    (none, last, rw (w, d, settle_v0) refl)

bound-unchanged :
    (body : ReportRequest) (run : Run) (db bound : Database)
    → OnlyArtifacts body run db bound
    → any (unchanged run) db.runs ≡ true
    → any (unchanged run) bound.runs ≡ true
bound-unchanged body run db bound o h =
    sym (any-erased (unchanged run) (λ r. refl) bound.runs)
    ∙ ap (any (unchanged run)) o.runs
    ∙ any-erased (unchanged run) (λ r. refl) db.runs
    ∙ h

-- A report that finds a lease which is not dead, and its run either running under an active lease
-- or in error under one in grace, is accepted when it writes the database that it read, whatever it
-- says, and is marked reconciled exactly in the second case.
pub run_report_tx-Accepts :
    (date : DateApi) (binding : ArtifactBinding) (clock : Clock) (token_hash : TokenHash)
    (body : ReportRequest) (db : Database) (lease : RunLeaseRow) (run : Run)
    → find_lease token_hash db.leases ≡ some lease
    → is_lease_dead date lease clock.ms ≡ false
    → find_run lease.run_id db.runs ≡ some run
    → (finalizes lease run || reconciles lease run) ≡ true
    → Accepts (reconciles lease run) (run_report_tx date binding clock token_hash body db db)
unfolding run_report_tx settle_live
run_report_tx-Accepts date binding clock token_hash body db lease run e live f eligible =
    let loop = find_loop lease.loop_id db.loops in
    let found : (l : Loop) → loop ≡ some l → find_loop l.id db.loops ≡ some l = λ l q.
      subst (λ k. find_loop k db.loops ≡ some l) (sym (find_loop-id lease.loop_id db.loops l q))
        q in
    let here = found-unchanged lease.run_id run db f in
    let (bound, b) = bind_artifact-goes binding body run loop db here found in
    let only = bind_artifact-OnlyArtifacts binding body run loop db db bound b in
    let here' = bound-unchanged body run db bound only here in
    let e' =
      subst (λ rows. find_lease token_hash rows ≡ some lease) (sym (OnlyArtifacts-leases only)) e in
    let found' : (l : Loop) → loop ≡ some l → find_loop l.id bound.loops ≡ some l = λ l q.
      subst (λ rows. find_loop l.id rows ≡ some l) (sym (OnlyArtifacts-loops only)) (found l q) in
    elim (Bool-cases (lease.terminal_protocol_version == 0)) [
      | inl version0 ↦
          let (o, after, h) =
            settle_v0-Accepts clock token_hash body lease run (reconciles lease run) bound e'
              here' in
          (o, after, rw (e, live, f, eligible, b, version0, h, run_report_tx, settle_live) refl)
      | inr version1 ↦
          let (o, after, h) =
            settle_v1-Accepts clock token_hash lease run loop
              (plan_for loop lease run body clock.iso) (reconciles lease run) bound e' here'
              found' in
          (o, after, rw (e, live, f, eligible, b, version1, h, run_report_tx, settle_live) refl)
    ]
