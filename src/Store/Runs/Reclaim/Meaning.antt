-- ===== src/Store/Runs/Reclaim/Meaning.antt =====
-- packages/server/src/store/runs.ts, `reclaimStaleRunTx`: when it reclaims, and what is written then.
use loop_platform_zhb.Base.{
  ℕ, ◌+◌, ◌≡◌, ◌≢◌, refl, sym, ap, subst, ◌∙◌, inl, inr, false, Option, none, some, arith, any,
  Bool-cases,
}
use loop_platform_zhb.Db.{RunId, Run, RunPhase, running, phase_eq}
use loop_platform_zhb.Db.Enums.{phase_eq_iff}
use loop_platform_zhb.Store.{Database, Clock, settled}
use loop_platform_zhb.Store.Dates.{DateApi}
use loop_platform_zhb.Store.Tables.{
  Rewritten, Replaced, any-Among, any-none, update_where-Rewritten, update_where-Replaced,
}
use loop_platform_zhb.Store.Manage.Laws.{Settled-inj}
use loop_platform_zhb.Store.Runs.Claim.{find_run}
use loop_platform_zhb.Store.Runs.Reclaim.{
  terminal_grace_ms, ReclaimOutcome, reclaimed, is_fresh, unmoved, reclaim_row, active_of,
  grace_row, classify_lost, last_run_activity_ms, flip_lease, reclaim_candidate,
  reclaim_stale_run_tx,
}
use loop_platform_zhb.Store.Runs.Reclaim.Laws.{Attempted, reclaim_candidate-Attempted}
use loop_platform_zhb.Store.Runs.Reclaim.Stamps.{is_fresh-silent, is_fresh-IsEvidence}
use loop_platform_zhb.Store.Runs.Reclaim.Unmoved.{
  IsUnmoved, IsErrored, IsActiveOf, IsGraced, unmoved_iff, active_of_iff, Refrains, Wrote, Reclaims,
}

lost-Refrains :
    (date : DateApi) (clock : Clock) (inactivity : ℕ) (candidate : Run) (now : Database)
    → any (unmoved candidate) now.runs ≡ false
    → (o : Option Run) → find_run candidate.id now.runs ≡ o
    → Refrains date clock inactivity candidate (classify_lost date clock.ms inactivity o) now
unfolding classify_lost
lost-Refrains date clock inactivity candidate now moved none e = inr (λ r k. cc)
lost-Refrains date clock inactivity candidate now moved (some current) e =
    elim (Bool-cases (phase_eq current.phase running)) [
      | inr stopped ↦
          rw (stopped, classify_lost)
            (inr (λ r k on.
              let same : current ≡ r = cc in
              let hit =
                (phase_eq_iff current.phase RunPhase.running).1 (ap (λ x. x.phase) same ∙ on) in
              cc))
      | inl on ↦
          elim (Bool-cases
            (is_fresh clock.ms inactivity (last_run_activity_ms date current clock.ms))) [
              | inl fresh ↦
                  rw (on, fresh, classify_lost)
                    (
                      current,
                      inr e,
                      (phase_eq_iff current.phase RunPhase.running).0 on,
                      is_fresh-IsEvidence date current clock.ms inactivity fresh,
                    )
              | inr stale ↦
                  rw (on, stale, classify_lost)
                    (any-none (unmoved candidate) (IsUnmoved candidate) (unmoved_iff candidate)
                      now.runs moved)
            ]
    ]

flip_lease-reclaims :
    (date : DateApi) (clock : Clock) (id : RunId) (outcome : ReclaimOutcome) (now db : Database)
    → flip_lease date clock id now ≡ settled outcome db
    → outcome ≡ reclaimed
unfolding flip_lease
flip_lease-reclaims date clock id outcome now db h = ground arith

-- A reclaim that does not reclaim answers with a reason that holds.
reclaim_candidate-Refrains :
    (date : DateApi) (clock : Clock) (inactivity : ℕ) (candidate : Run) (outcome : ReclaimOutcome)
    (now db : Database)
    → reclaim_candidate date clock inactivity candidate now ≡ settled outcome db
    → outcome ≢ reclaimed
    → Refrains date clock inactivity candidate outcome now
unfolding reclaim_candidate
reclaim_candidate-Refrains date clock inactivity candidate outcome now db h other =
    let P : ReclaimOutcome → Type 0 = λ o. Refrains date clock inactivity candidate o now in
    elim (Bool-cases (phase_eq candidate.phase running)) [
      | inr stopped ↦
          subst P (Settled-inj (rw (stopped, reclaim_candidate) at h)).0
            (inl (λ on. let hit = (phase_eq_iff candidate.phase RunPhase.running).1 on in cc))
      | inl was ↦
          elim (Bool-cases
            (is_fresh clock.ms inactivity (last_run_activity_ms date candidate clock.ms))) [
              | inl fresh ↦ subst P (Settled-inj (rw (was, fresh, reclaim_candidate) at h)).0 (
                candidate,
                inl refl,
                (phase_eq_iff candidate.phase RunPhase.running).0 was,
                is_fresh-IsEvidence date candidate clock.ms inactivity fresh,
              )
              | inr stale ↦ elim (Bool-cases (any (unmoved candidate) now.runs)) [
                | inl met ↦ absurd (
                    other (
                      flip_lease-reclaims date clock candidate.id outcome _ db
                        (rw (was, stale, met, reclaim_candidate) at h)))
                | inr moved ↦
                    subst P (Settled-inj (rw (was, stale, moved, reclaim_candidate) at h)).0 (
                      lost-Refrains date clock inactivity candidate now moved
                        (find_run candidate.id now.runs) refl)
              ]
            ]
    ]

Attempted-Wrote :
    (date : DateApi) (clock : Clock) (inactivity : ℕ) (candidate : Run) (outcome : ReclaimOutcome)
    (now db : Database)
    → Attempted date clock inactivity candidate outcome now db
    → outcome ≡ reclaimed
    → Wrote date clock inactivity candidate now db
Attempted-Wrote date clock inactivity candidate outcome now db a e =
    let t = a.taken e in
    let until = date.to_iso (clock.ms + terminal_grace_ms) in
    record {
      was_running = (phase_eq_iff candidate.phase RunPhase.running).0 t.was_running;
      silent = is_fresh-silent date candidate clock.ms inactivity (a.silent e);
      met =
          any-Among (unmoved candidate) (IsUnmoved candidate) (unmoved_iff candidate) now.runs
            t.met;
      runs = subst (Rewritten (IsUnmoved candidate) (IsErrored clock.iso) now.runs) (sym t.runs) (
          update_where-Rewritten (unmoved candidate) (IsUnmoved candidate) (unmoved_iff candidate)
            (IsErrored clock.iso) (reclaim_row clock.iso) (λ r k. refl) now.runs);
      leases =
          subst (Replaced (IsActiveOf candidate.id) (IsGraced until) now.leases) (sym t.leases) (
            update_where-Replaced (active_of candidate.id) (IsActiveOf candidate.id)
              (active_of_iff candidate.id) (IsGraced until) (grace_row until) (λ r k. refl)
              now.leases t.single);
      others = t.others;
    }

-- A settled reclaim of the run that was read keeps every loop to one exec run in flight. Where it
-- reclaims, the run was read as running, each of its stamps that parses and is at most five minutes
-- ahead of the clock is at least the timeout old, a row that is running with the same stamp and
-- progress goes to error with the fixed text, the one active lease of the run goes to grace for 24
-- hours, and nothing else changes. Otherwise nothing is written, and the reason holds: the run is
-- not running, it has a stamp that is younger than the timeout, or its row is not as it was read.
pub reclaim_stale_run_tx-Reclaims :
    (date : DateApi) (clock : Clock) (id : RunId) (inactivity : ℕ) (candidate : Run)
    (outcome : ReclaimOutcome) (seen now db : Database)
    → find_run id seen.runs ≡ some candidate
    → reclaim_stale_run_tx date clock id inactivity seen now ≡ settled outcome db
    → Reclaims date clock inactivity candidate outcome now db
unfolding reclaim_stale_run_tx
reclaim_stale_run_tx-Reclaims date clock id inactivity candidate outcome seen now db found h =
    let k = rw (found, reclaim_stale_run_tx) at h in
    let a = reclaim_candidate-Attempted date clock inactivity candidate outcome now db k in
    record {
      one = a.one;
      wrote = Attempted-Wrote date clock inactivity candidate outcome now db a;
      refrained = λ other. (
        a.refrains other,
        reclaim_candidate-Refrains date clock inactivity candidate outcome now db k other,
      );
    }
