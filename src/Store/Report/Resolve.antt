-- ===== src/Store/Report/Resolve.antt =====
-- packages/server/src/store/leases.ts: the read-side resolution of a credential, which drops a dead
-- lease. Its deletion may meet another database than its read.
use loop_platform_zhb.Base.{
  ◌≡◌, refl, ◌↔◌, ◌⊎◌, inl, inr, false, Option, none, some, arith, if◌then◌else◌, Bool-cases,
  Option-cases,
}
use loop_platform_zhb.Db.{TokenHash, RunLeaseRow}
use loop_platform_zhb.Store.{Database, Clock, delete_where}
use loop_platform_zhb.Store.Dates.{DateApi, is_lease_dead}
use loop_platform_zhb.Store.Runs.Revoke.{count-delete_where}
use loop_platform_zhb.Store.Report.{find_lease}
use loop_platform_zhb.Store.Report.Writes.{has_token, leases_under}

unfoldable pub resolve_live_lease :
    DateApi → Clock → TokenHash → Database → Database → Option RunLeaseRow × Database
resolve_live_lease date clock token_hash seen now = elim (find_lease token_hash seen.leases) [
  | none ↦ (none, now)
  | some row ↦
      if is_lease_dead date row clock.ms
      then (none, record now { leases = delete_where (has_token token_hash) now.leases })
      else (some row, now)
]

-- What the resolution answers and leaves.
pub record Resolves (date : DateApi) (clock : Clock) (token_hash : TokenHash) (seen now : Database)
    (answer : Option RunLeaseRow) (db : Database) : Type 0 where
  pub live :
      (l : RunLeaseRow)
      → (answer ≡ some l)
        ↔ ((find_lease token_hash seen.leases ≡ some l) × (is_lease_dead date l clock.ms ≡ false))
  pub dropped :
      answer ≡ none → (find_lease token_hash seen.leases ≡ none) ⊎ (leases_under token_hash db ≡ 0)
  pub untouched : (l : RunLeaseRow) → answer ≡ some l → db ≡ now
  pub others : (db.loops ≡ now.loops) × (db.runs ≡ now.runs)

-- Resolving a credential answers with a lease exactly when it is the one read under the credential
-- and is not dead, and then writes nothing; without an answer there was no lease to read, or none
-- is left under the credential; loops and runs are never changed.
pub resolve_live_lease-Resolves :
    (date : DateApi) (clock : Clock) (token_hash : TokenHash) (seen now : Database)
    → Resolves date clock token_hash seen now
        (resolve_live_lease date clock token_hash seen now).0
        (resolve_live_lease date clock token_hash seen now).1
unfolding resolve_live_lease
resolve_live_lease-Resolves date clock token_hash seen now =
    elim (Option-cases (find_lease token_hash seen.leases)) [
      | inl missing ↦
          rw (missing, resolve_live_lease)
            (record {
              live = λ l. ((λ h. cc), (λ h. cc));
              dropped = λ h. inl missing;
              untouched = λ l h. refl;
              others = (refl, refl);
            })
      | inr (row, e) ↦ elim (Bool-cases (is_lease_dead date row clock.ms)) [
        | inl dead ↦
            rw (e, dead, resolve_live_lease)
              (record {
                live = λ l. ((λ h. cc), (λ h. ground arith));
                dropped = λ h. inr (count-delete_where (has_token token_hash) now.leases);
                untouched = λ l h. cc;
                others = (refl, refl);
              })
        | inr alive ↦
            rw (e, alive, resolve_live_lease)
              (record {
                live = λ l. ((λ h. (ground arith, ground arith)), (λ h. ground arith));
                dropped = λ h. cc;
                untouched = λ l h. refl;
                others = (refl, refl);
              })
      ]
    ]
