-- ===== src/Store/Report/Once.antt =====
-- packages/server/src/store/report.ts: the report transaction on the whole database, with its retry.
use loop_platform_zhb.Store.Dates.{DateApi, is_lease_dead}
use loop_platform_zhb.Base.{
  ◌≤◌, ◌≡◌, refl, ◌⊎◌, inl, inr, Bool, Option, none, some, List, [], ◌∷◌, arith, Bool-cases,
  Option-cases,
}
use loop_platform_zhb.Db.{RunId, TokenHash, Loop, Run, RunLeaseRow}
use loop_platform_zhb.Store.{Database, Clock, settled}
use loop_platform_zhb.Store.Occ.{Evolves, with_guard_retry-inv}
use loop_platform_zhb.Store.Tables.{count}
use loop_platform_zhb.Store.Report.Writes.{has_token, leases_under}
use loop_platform_zhb.WriteSet.{ReportRequest}
use loop_platform_zhb.Store.{result, Moments}
use loop_platform_zhb.Store.Manage.Retry.{Interfered}
use loop_platform_zhb.Store.Runs.Claim.{find_run}
use loop_platform_zhb.Store.Binding.{ArtifactBinding}
use loop_platform_zhb.Store.Report.{
  unknown_or_expired, consumed_or_revoked, ReportOutcome, denied, accepted, find_lease,
  run_report_tx, execute_report_tx,
}
use loop_platform_zhb.Store.Report.Laws.{Reported, settle_live-Reported, deny_observed-Reported}

pub find_run-id : (id : RunId) (rows : List Run) (r : Run) → find_run id rows ≡ some r → r.id ≡ id
find_run-id id [] r h = cc
find_run-id id (q ∷ rows) r h = ground (arith, find_run-id id rows r)

find_lease-none :
    (token_hash : TokenHash) (rows : List RunLeaseRow)
    → count (has_token token_hash) rows ≡ 0
    → find_lease token_hash rows ≡ none
find_lease-none token_hash [] h = refl
find_lease-none token_hash (l ∷ rows) h = ground (arith, find_lease-none token_hash rows)

-- For the lease that was read under the credential, where there is one.
pub Settles : TokenHash → Option RunLeaseRow → ReportOutcome → Database → Database → Type 0
Settles token_hash none r now db = (r ≡ denied consumed_or_revoked) × (db ≡ now)
Settles token_hash (some lease) r now db = Reported token_hash lease.run_id r now db

run_report_tx-Settles :
    (date : DateApi) (binding : ArtifactBinding) (clock : Clock) (token_hash : TokenHash)
    (body : ReportRequest) (seen now db : Database) (r : ReportOutcome)
    → Evolves seen.loops now.loops
    → run_report_tx date binding clock token_hash body seen now ≡ settled r db
    → Settles token_hash (find_lease token_hash seen.leases) r now db
unfolding run_report_tx Settles
run_report_tx-Settles date binding clock token_hash body seen now db r ev h =
    elim (Option-cases (find_lease token_hash seen.leases)) [
      | inl gone ↦ rw gone (cc, cc)
      | inr (lease, e) ↦ rw e (elim (Bool-cases (is_lease_dead date lease clock.ms)) [
        | inl dead ↦
            deny_observed-Reported token_hash lease.run_id lease unknown_or_expired r now db
              (rw (e, dead, run_report_tx) at h)
        | inr live ↦
            settle_live-Reported binding clock token_hash body lease
              (find_run lease.run_id seen.runs) lease.run_id r seen now db
              (find_run-id lease.run_id seen.runs) ev (rw (e, live, run_report_tx) at h)
      ])
    ]

-- A report with its one retry that settles, when the rows committed between an attempt's reads and
-- its writes have each stayed or gained a greater token: without a lease under the credential it is
-- denied and changes nothing; otherwise it keeps every loop valid and every row unchanged or with a
-- greater token, keeps every loop to one exec run in flight, an accepted report leaves no lease
-- under its credential where there was one at most, and the loop it hands to the scheduler is the
-- stored one with no other run of it pending.
pub execute_report_tx-Settles :
    (date : DateApi) (binding : ArtifactBinding) (clock : Clock) (token_hash : TokenHash)
    (body : ReportRequest) (m : Moments) (r : ReportOutcome) (db : Database)
    → Interfered m
    → execute_report_tx date binding clock token_hash body m ≡ result r db
    → Settles token_hash (find_lease token_hash m.seen.leases) r m.now db
      ⊎ Settles token_hash (find_lease token_hash m.seen_again.leases) r m.now_again db
unfolding execute_report_tx
execute_report_tx-Settles date binding clock token_hash body m r db i h =
    elim (with_guard_retry-inv (run_report_tx date binding clock token_hash body) m r db h) [
      | inl first ↦
          inl (
            run_report_tx-Settles date binding clock token_hash body m.seen m.now db r i.first
              first)
      | inr (lost, second) ↦ inr (
          run_report_tx-Settles date binding clock token_hash body m.seen_again m.now_again db r
            i.second second)
    ]

accepted-gone :
    (token_hash : TokenHash) (lease : Option RunLeaseRow) (b : Bool) (o : Option Loop)
    (now db : Database)
    → Settles token_hash lease (accepted b o) now db
    → leases_under token_hash now ≤ 1
    → leases_under token_hash db ≡ 0
unfolding Settles
accepted-gone token_hash none b o now db s one = absurd (ground (arith, s.0))
accepted-gone token_hash (some lease) b o now db s one = s.consumed b o refl one

refused_without_lease :
    (date : DateApi) (binding : ArtifactBinding) (clock : Clock) (token_hash : TokenHash)
    (body : ReportRequest) (seen now : Database)
    → leases_under token_hash seen ≡ 0
    → run_report_tx date binding clock token_hash body seen now
      ≡ settled (denied consumed_or_revoked) now
unfolding run_report_tx
refused_without_lease date binding clock token_hash body seen now h =
    rw (find_lease-none token_hash seen.leases h, run_report_tx) refl

-- Where a credential has one lease at most and only token-increasing writes interfere, an accepted
-- report consumes it: every later report under it that reads the database left behind is denied as
-- consumed or revoked and writes nothing.
pub execute_report_tx-once :
    (date : DateApi) (binding : ArtifactBinding) (clock : Clock) (token_hash : TokenHash)
    (body : ReportRequest) (m : Moments) (b : Bool) (o : Option Loop) (db : Database)
    → Interfered m
    → leases_under token_hash m.now ≤ 1
    → leases_under token_hash m.now_again ≤ 1
    → execute_report_tx date binding clock token_hash body m ≡ result (accepted b o) db
    → (later : Clock) (again : ReportRequest) (now : Database)
    → run_report_tx date binding later token_hash again db now
      ≡ settled (denied consumed_or_revoked) now
execute_report_tx-once date binding clock token_hash body m b o db i one two h later again now =
    refused_without_lease date binding later token_hash again db now
      (elim (execute_report_tx-Settles date binding clock token_hash body m (accepted b o) db i h) [
        | inl s ↦ accepted-gone token_hash _ b o m.now db s one
        | inr s ↦ accepted-gone token_hash _ b o m.now_again db s two
      ])
