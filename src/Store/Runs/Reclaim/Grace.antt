-- ===== src/Store/Runs/Reclaim/Grace.antt =====
-- packages/server/src/store/runs.ts and packages/server/src/store/report.ts: a report in the grace
-- window that a reclaim opens.
use loop_platform_zhb.Base.{
  ℕ, ◌+◌, ◌<◌, ◌≡◌, refl, sym, subst, ◌∙◌, inl, inr, Bool, true, Option, none, some, List, [], ◌∷◌,
  arith, ◌==◌, if◌then◌else◌, ◌≤◌, Bool-cases, Option-cases, leb, str_eq_refl,
}
use loop_platform_zhb.Db.{TokenHash, Run, RunLeaseRow, running, phase_eq, RunProgressRow}
use loop_platform_zhb.Schedule.Laws.{opt_str_eq_iff}
use loop_platform_zhb.WriteSet.{ReportRequest}
use loop_platform_zhb.Store.{Database, Clock, settled, update_where, select_first}
use loop_platform_zhb.Store.Dates.{DateApi, is_lease_dead}
use loop_platform_zhb.Store.Runs.Claim.{find_run}
use loop_platform_zhb.Store.Binding.{ArtifactBinding}
use loop_platform_zhb.Store.Report.{
  ReportOutcome, denied, unknown_or_expired, find_lease, delete_observed_lease, run_report_tx,
}
use loop_platform_zhb.Store.Manage.Laws.{Settled-inj}
use loop_platform_zhb.Store.Report.Progress.{Accepts, run_report_tx-Accepts}
use loop_platform_zhb.Store.Runs.Reclaim.{
  terminal_grace_ms, reclaimed, unmoved, progress_eq, reclaim_row, active_of, grace_row,
  reclaim_stale_run_tx,
}
use loop_platform_zhb.Store.Runs.Reclaim.Laws.{Taken, reclaim_stale_run_tx-Attempted}

-- A lease put in grace at one moment is dead at another exactly when the whole window has passed.
pub is_lease_dead-grace_row :
    (date : DateApi) (from at : ℕ) (l : RunLeaseRow)
    → is_lease_dead date (grace_row (date.to_iso (from + terminal_grace_ms)) l) at
      ≡ leb (from + terminal_grace_ms) at
unfolding is_lease_dead
is_lease_dead-grace_row date from at l = rw (date.parse-to_iso (from + terminal_grace_ms)) refl

module _ {A : Type 0} where
  -- What is found after an update that leaves the key alone.
  select_first-update_where :
      (p q : A → Bool) (f : A → A) (rows : List A) (a : A)
      → ((r : A) → p (f r) ≡ p r)
      → select_first p rows ≡ some a
      → select_first p (update_where q f rows) ≡ some (if q a then f a else a)
  select_first-update_where p q f [] a keeps h = cc
  select_first-update_where p q f (r ∷ rows) a keeps h = elim (Bool-cases (p r)) [
    | inl here ↦ ground (arith, keeps r)
    | inr there ↦ ground (arith, keeps r, select_first-update_where p q f rows a keeps)
  ]

progress_eq_refl : (p : Option RunProgressRow) → progress_eq p p ≡ true
progress_eq_refl none = refl
progress_eq_refl (some p) = ground (arith, str_eq_refl p.label, (opt_str_eq_iff p.at p.at).1 refl)

unmoved_self :
    (candidate : Run) → phase_eq candidate.phase running ≡ true → unmoved candidate candidate ≡ true
unmoved_self candidate h =
    ground (arith, str_eq_refl candidate.ts, progress_eq_refl candidate.progress)

lease_after :
    (date : DateApi) (clock : Clock) (candidate : Run) (now db : Database) (token_hash : TokenHash)
    (lease : RunLeaseRow)
    → Taken date clock candidate now db
    → find_lease token_hash now.leases ≡ some lease
    → active_of candidate.id lease ≡ true
    → find_lease token_hash db.leases
      ≡ some (grace_row (date.to_iso (clock.ms + terminal_grace_ms)) lease)
lease_after date clock candidate now db token_hash lease t e mine =
    let f = grace_row (date.to_iso (clock.ms + terminal_grace_ms)) in
    let found =
      select_first-update_where (λ l. l.token_hash == token_hash) (active_of candidate.id) f
        now.leases lease (λ r. refl) e in
    subst (λ rows. find_lease token_hash rows ≡ some (f lease)) (sym t.leases)
      (subst
        (λ b.
          find_lease token_hash (update_where (active_of candidate.id) f now.leases)
          ≡ some (if b then f lease else lease))
        mine found)

run_after :
    (date : DateApi) (clock : Clock) (candidate : Run) (now db : Database)
    → Taken date clock candidate now db
    → find_run candidate.id now.runs ≡ some candidate
    → find_run candidate.id db.runs ≡ some (reclaim_row clock.iso candidate)
run_after date clock candidate now db t e =
    let f = reclaim_row clock.iso in
    let found =
      select_first-update_where (λ r. r.id == candidate.id) (unmoved candidate) f now.runs candidate
        (λ r. refl) e in
    subst (λ rows. find_run candidate.id rows ≡ some (f candidate)) (sym t.runs)
      (subst
        (λ b.
          find_run candidate.id (update_where (unmoved candidate) f now.runs)
          ≡ some (if b then f candidate else candidate))
        (unmoved_self candidate t.was_running) found)

-- Where a reclaim of a run succeeds on the database that it read, every report under the credential
-- of the lease that was active for that run, made less than the grace window later on the database
-- left behind, is accepted as a reconciliation.
pub reclaimed_report-Accepts :
    (date : DateApi) (binding : ArtifactBinding) (clock : Clock) (candidate : Run) (inactivity : ℕ)
    (now db : Database) (token_hash : TokenHash) (lease : RunLeaseRow) (later : Clock)
    (body : ReportRequest)
    → find_run candidate.id now.runs ≡ some candidate
    → find_lease token_hash now.leases ≡ some lease
    → active_of candidate.id lease ≡ true
    → reclaim_stale_run_tx date clock candidate.id inactivity now now ≡ settled reclaimed db
    → later.ms < clock.ms + terminal_grace_ms
    → Accepts true (run_report_tx date binding later token_hash body db db)
reclaimed_report-Accepts date binding clock candidate inactivity now db token_hash lease later body
      run e mine h within =
    let r =
      reclaim_stale_run_tx-Attempted date clock candidate.id inactivity candidate reclaimed now now
        db run h in
    let t = r.taken refl in
    let graced = grace_row (date.to_iso (clock.ms + terminal_grace_ms)) lease in
    let same : lease.run_id ≡ candidate.id = ground arith in
    run_report_tx-Accepts date binding later token_hash body db graced
      (reclaim_row clock.iso candidate)
      (lease_after date clock candidate now db token_hash lease t e mine)
      (is_lease_dead-grace_row date clock.ms later.ms lease ∙ ground arith)
      (subst (λ k. find_run k db.runs ≡ some (reclaim_row clock.iso candidate)) (sym same)
        (run_after date clock candidate now db t run))
      refl

-- A report under a credential whose lease is dead is denied as unknown or expired, where it settles.
dead_report-denied :
    (date : DateApi) (binding : ArtifactBinding) (clock : Clock) (token_hash : TokenHash)
    (body : ReportRequest) (seen now db : Database) (lease : RunLeaseRow) (r : ReportOutcome)
    → find_lease token_hash seen.leases ≡ some lease
    → is_lease_dead date lease clock.ms ≡ true
    → run_report_tx date binding clock token_hash body seen now ≡ settled r db
    → r ≡ denied unknown_or_expired
unfolding run_report_tx
dead_report-denied date binding clock token_hash body seen now db lease r e dead h =
    let k = rw (e, dead, run_report_tx) at h in
    elim (Option-cases (delete_observed_lease token_hash lease.state now)) [
      | inl lost ↦ let j = rw lost at k in cc
      | inr (after, d) ↦ sym (Settled-inj (rw d at k)).0
    ]

-- Where a reclaim of a run succeeds on the database that it read, a report under the credential of
-- the lease that was active for that run, made on the database left behind when the grace window has
-- passed or later, is denied where it settles.
pub expired_report-denied :
    (date : DateApi) (binding : ArtifactBinding) (clock : Clock) (candidate : Run) (inactivity : ℕ)
    (now db now' db' : Database) (token_hash : TokenHash) (lease : RunLeaseRow) (later : Clock)
    (body : ReportRequest) (r : ReportOutcome)
    → find_run candidate.id now.runs ≡ some candidate
    → find_lease token_hash now.leases ≡ some lease
    → active_of candidate.id lease ≡ true
    → reclaim_stale_run_tx date clock candidate.id inactivity now now ≡ settled reclaimed db
    → clock.ms + terminal_grace_ms ≤ later.ms
    → run_report_tx date binding later token_hash body db now' ≡ settled r db'
    → r ≡ denied unknown_or_expired
expired_report-denied date binding clock candidate inactivity now db now' db' token_hash lease later
      body r run e mine h past k =
    let t =
      (reclaim_stale_run_tx-Attempted date clock candidate.id inactivity candidate reclaimed now now
          db run h).taken
        refl in
    let graced = grace_row (date.to_iso (clock.ms + terminal_grace_ms)) lease in
    dead_report-denied date binding later token_hash body db now' db' graced r
      (lease_after date clock candidate now db token_hash lease t e mine)
      (is_lease_dead-grace_row date clock.ms later.ms lease ∙ ground arith) k
