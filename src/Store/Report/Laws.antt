-- ===== src/Store/Report/Laws.antt =====
-- packages/server/src/store/report.ts: the branches of a settled report.
use loop_platform_zhb.Base.{
  ◌≤◌, ◌≡◌, refl, sym, subst, ◌∙◌, inl, inr, Bool, ◌||◌, Option, none, some, List, arith, ◌==◌,
  Bool-cases,
}
use loop_platform_zhb.Db.{IsoTime, LoopId, RunId, TokenHash, Loop, Run, RunLeaseRow, LeaseState}
use loop_platform_zhb.Lifecycle.Report.{ReportWritePlan, loop_writes_of}
use loop_platform_zhb.Lifecycle.Report.Laws.{Ends}
use loop_platform_zhb.Store.{Database, Clock, find_loop, Settled, settled}
use loop_platform_zhb.Store.Occ.{Evolves, Evolves-trans}
use loop_platform_zhb.Store.Runs.Live.{Sound}
use loop_platform_zhb.Store.Report.{and_then, delete_observed_lease, write_run, write_plan_loop}
use loop_platform_zhb.Lifecycle.Report.Laws.{plan_report_writes-Ends}
use loop_platform_zhb.Store.Report.Writes.{
  leases_under, Sound-trans, Quiet, delete_observed_lease-Consumes, write_run-Quiet,
}
use loop_platform_zhb.Store.Report.Planned.{
  Hands, Planned, PlanFits, Quiet-trans, write_plan_loop-Planned,
}
use loop_platform_zhb.WriteSet.{ReportRequest, build_report_write_set}
use loop_platform_zhb.Lifecycle.Report.{run_writes_of}
use loop_platform_zhb.Lifecycle.Report.Laws.{build-Ends, failure-Ends}
use loop_platform_zhb.Lifecycle.Report.Promotion.{plan_report_writes-IsValid}
use loop_platform_zhb.Store.Manage.Laws.{Settled-inj}
use loop_platform_zhb.Store.Runs.Exclusive.{find_loop-id}
use loop_platform_zhb.Base.{if◌then◌else◌}
use loop_platform_zhb.Store.Tables.{count}
use loop_platform_zhb.Store.Report.Writes.{has_token}
use loop_platform_zhb.Store.Binding.{ArtifactBinding, bind_artifact}
use loop_platform_zhb.Store.Binding.Writes.{
  OnlyArtifacts, OnlyArtifacts-leases, OnlyArtifacts-loops, OnlyArtifacts-Sound,
  bind_artifact-OnlyArtifacts,
}
use loop_platform_zhb.Store.Report.{
  DenyReason, orphaned_run, stale_phase, ReportOutcome, denied, accepted, lease_auth, plan_for,
  settle_v0, settle_v1, deny_observed, finalizes, reconciles, settle_live,
}

and_then-inv :
    {A R : Type 0} (o : Option A) (k : A → Settled R) (r : R) (db : Database)
    → and_then o k ≡ settled r db
    → (a : A) × (o ≡ some a) × (k a ≡ settled r db)
and_then-inv none k r db h = cc
and_then-inv (some a) k r db h = (a, refl, h)

-- What a settled report establishes, for the lease under its credential.
pub record Reported (token_hash : TokenHash) (run_id : RunId) (r : ReportOutcome)
    (now db : Database) : Type 0 where
  pub sound : Sound now db
  pub consumed :
      (b : Bool) (o : Option Loop)
      → r ≡ accepted b o
      → leases_under token_hash now ≤ 1
      → leases_under token_hash db ≡ 0
  pub hands : (b : Bool) (o : Option Loop) → r ≡ accepted b o → Hands run_id o db

pub deny_observed-Reported :
    (token_hash : TokenHash) (run_id : RunId) (lease : RunLeaseRow) (why : DenyReason)
    (r : ReportOutcome) (now db : Database)
    → deny_observed token_hash lease why now ≡ settled r db
    → Reported token_hash run_id r now db
deny_observed-Reported token_hash run_id lease why r now db h =
    let (after, e, k) =
      and_then-inv (delete_observed_lease token_hash lease.state now) (settled (denied why)) r db
        h in
    let c = delete_observed_lease-Consumes token_hash lease.state now after e in
    let answer : denied why ≡ r = (Settled-inj k).0 in
    record {
      sound = subst (Sound now) (Settled-inj k).1 c.sound;
      consumed = λ b o same. absurd (ground arith);
      hands = λ b o same. absurd (ground arith);
    }

-- The deletion of the lease after quiet writes, and the answer.
consume_last :
    (token_hash : TokenHash) (state : LeaseState) (run_id : RunId) (reconcile : Bool)
    (o : Option Loop) (r : ReportOutcome) (now mid db : Database)
    → Planned run_id o now mid
    → and_then (delete_observed_lease token_hash state mid) (settled (accepted reconcile o))
      ≡ settled r db
    → Reported token_hash run_id r now db
consume_last token_hash state run_id reconcile o r now mid db p h =
    let (after, e, k) =
      and_then-inv (delete_observed_lease token_hash state mid) (settled (accepted reconcile o)) r
        db h in
    let c = delete_observed_lease-Consumes token_hash state mid after e in
    let answer : accepted reconcile o ≡ r = (Settled-inj k).0 in
    subst (Reported token_hash run_id r now) (Settled-inj k).1 (record {
      sound = Sound-trans now mid after p.quiet.sound c.sound;
      consumed = λ b q same one. c.gone (rw p.quiet.same_leases one);
      hands = λ b q same l found.
          let was : o ≡ q = cc in rw (c.same_loops, c.same_runs) (p.hands l (was ∙ found));
    })

unfinished-Planned :
    (run_id : RunId) (now mid : Database) → Quiet now mid → Planned run_id none now mid
unfinished-Planned run_id now mid q = record { quiet = q; hands = λ l e. cc }

settle_v0-Reported :
    (clock : Clock) (token_hash : TokenHash) (body : ReportRequest) (lease : RunLeaseRow)
    (run : Run) (reconcile : Bool) (r : ReportOutcome) (now db : Database)
    → settle_v0 clock token_hash body lease run reconcile now ≡ settled r db
    → Reported token_hash run.id r now db
unfolding settle_v0
settle_v0-Reported clock token_hash body lease run reconcile r now db h =
    let w = build_report_write_set body run clock.iso in
    let (mid, e, k) =
      and_then-inv (write_run run w now)
        (λ written.
          and_then (delete_observed_lease token_hash lease.state written)
            (settled (accepted reconcile none)))
        r db h in
    consume_last token_hash lease.state run.id reconcile none r now mid db
      (unfinished-Planned run.id now mid
        (write_run-Quiet run w now mid (build-Ends body run clock.iso) e))
      k

settle_v1-Reported :
    (clock : Clock) (token_hash : TokenHash) (lease : RunLeaseRow) (run : Run) (loop : Option Loop)
    (plan : ReportWritePlan) (reconcile : Bool) (r : ReportOutcome) (seen : List Loop)
    (now db : Database)
    → Evolves seen now.loops
    → Ends (run_writes_of plan)
    → PlanFits plan seen loop
    → settle_v1 clock token_hash lease run loop plan reconcile now ≡ settled r db
    → Reported token_hash run.id r now db
unfolding settle_v1
settle_v1-Reported clock token_hash lease run loop plan reconcile r seen now db ev ends fits h =
    let last : (Option Loop × Database) → Settled ReportOutcome = λ (o, after).
      and_then (delete_observed_lease token_hash lease.state after)
        (settled (accepted reconcile o)) in
    let (mid, e, k) =
      and_then-inv (write_run run (run_writes_of plan) now)
        (λ written. and_then (write_plan_loop plan loop run clock.iso written) last) r db h in
    let ((o, after), w, j) =
      and_then-inv (write_plan_loop plan loop run clock.iso mid) last r db k in
    let q = write_run-Quiet run (run_writes_of plan) now mid ends e in
    let p =
      write_plan_loop-Planned plan loop run clock.iso seen mid after o
        (Evolves-trans seen now.loops mid.loops ev q.sound.loops.evolves) fits w in
    consume_last token_hash lease.state run.id reconcile o r now after db
      (record { quiet = Quiet-trans now mid after q p.quiet; hands = p.hands }) j

plan_for-Ends :
    (loop : Option Loop) (lease : RunLeaseRow) (run : Run) (body : ReportRequest)
    (now_iso : IsoTime)
    → Ends (run_writes_of (plan_for loop lease run body now_iso))
unfolding plan_for
plan_for-Ends none lease run body now_iso = failure-Ends run _ now_iso
plan_for-Ends (some l) lease run body now_iso =
    plan_report_writes-Ends l (lease_auth lease) run body now_iso

plan_for-PlanFits :
    (seen : List Loop) (id : LoopId) (lease : RunLeaseRow) (run : Run) (body : ReportRequest)
    (now_iso : IsoTime)
    → PlanFits (plan_for (find_loop id seen) lease run body now_iso) seen (find_loop id seen)
unfolding plan_for
plan_for-PlanFits seen id lease run body now_iso = record {
  found = λ l e. subst (λ k. find_loop k seen ≡ some l) (sym (find_loop-id id seen l e)) e;
  valid = λ l w e p.
      plan_report_writes-IsValid l (lease_auth lease) run body now_iso w
        (subst (λ o. loop_writes_of (plan_for o lease run body now_iso) ≡ some w) e p);
}

Reported-after :
    (body : ReportRequest) (run : Run) (token_hash : TokenHash) (run_id : RunId) (r : ReportOutcome)
    (now bound db : Database)
    → OnlyArtifacts body run now bound
    → Reported token_hash run_id r bound db
    → Reported token_hash run_id r now db
Reported-after body run token_hash run_id r now bound db o h = record {
  sound = Sound-trans now bound db (OnlyArtifacts-Sound body run now bound o) h.sound;
  consumed = λ b l e one.
      h.consumed b l e
        (subst (λ rows. count (has_token token_hash) rows ≤ 1) (sym (OnlyArtifacts-leases o)) one);
  hands = h.hands;
}

pub settle_live-Reported :
    (binding : ArtifactBinding) (clock : Clock) (token_hash : TokenHash) (body : ReportRequest)
    (lease : RunLeaseRow) (run : Option Run) (run_id : RunId) (r : ReportOutcome)
    (seen now db : Database)
    → ((found : Run) → run ≡ some found → found.id ≡ run_id)
    → Evolves seen.loops now.loops
    → settle_live binding clock token_hash body lease run
        (find_loop lease.loop_id seen.loops)
        seen
        now
      ≡ settled r db
    → Reported token_hash run_id r now db
unfolding settle_live
settle_live-Reported binding clock token_hash body lease none run_id r seen now db same ev h =
    deny_observed-Reported token_hash run_id lease orphaned_run r now db h
settle_live-Reported binding clock token_hash body lease (some run) run_id r seen now db same ev h =
    elim (Bool-cases (finalizes lease run || reconciles lease run)) [
      | inr stale ↦
          deny_observed-Reported token_hash run_id lease stale_phase r now db
            (rw (stale, settle_live) at h)
      | inl eligible ↦
          let loop = find_loop lease.loop_id seen.loops in
          let (bound, e, k) =
            and_then-inv (bind_artifact binding body run loop seen now)
              (λ bound.
                if lease.terminal_protocol_version == 0
                then settle_v0 clock token_hash body lease run (reconciles lease run) bound
                else settle_v1 clock token_hash lease run loop
                    (plan_for loop lease run body clock.iso) (reconciles lease run) bound)
              r db (rw (eligible, settle_live) at h) in
          let only = bind_artifact-OnlyArtifacts binding body run loop seen now bound e in
          let ev' = subst (Evolves seen.loops) (sym (OnlyArtifacts-loops only)) ev in
          Reported-after body run token_hash run_id r now bound db only (
            subst (λ k. Reported token_hash k r bound db) (same run refl)
              (elim (Bool-cases (lease.terminal_protocol_version == 0)) [
                | inl version0 ↦
                    settle_v0-Reported clock token_hash body lease run (reconciles lease run) r
                      bound db (rw version0 at k)
                | inr version1 ↦
                    settle_v1-Reported clock token_hash lease run loop
                      (plan_for loop lease run body clock.iso) (reconciles lease run) r seen.loops
                      bound db ev' (plan_for-Ends loop lease run body clock.iso)
                      (plan_for-PlanFits seen.loops lease.loop_id lease run body clock.iso)
                      (rw version1 at k)
              ]))
    ]
