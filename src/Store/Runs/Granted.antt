-- ===== src/Store/Runs/Granted.antt =====
-- packages/server/src/store/runs.ts: what a claim reads and writes, with its retry.
use loop_platform_zhb.Base.{
  ◌≡◌, ◌∙◌, refl, sym, ap, subst, ◌⊎◌, inl, inr, true, false, ◌&&◌, JsString, Option, none, some,
  List, arith, Bool-cases, Option-cases, is_some, not,
}
use loop_platform_zhb.Db.{TokenHash, Loop, Run}
use loop_platform_zhb.Store.Tables.{
  Among, select_first-Among, update_where-Rewritten, insert_row-append,
}
use loop_platform_zhb.Store.{
  Database, Clock, find_loop, cas_loop, settled, result, Moments, select_first, update_where,
  insert_row,
}
use loop_platform_zhb.Store.Occ.{Evolves, cas_loop-lands, cas_loop-found}
use loop_platform_zhb.Store.Manage.Laws.{Kept, cas_loop-Kept, Settled-inj}
use loop_platform_zhb.Store.Manage.Retry.{Interfered, retry-By}
use loop_platform_zhb.Store.Runs.{bump}
use loop_platform_zhb.Store.Runs.Claim.{
  ClaimInput, ClaimResult, claim_tx, claim_run_with_lease_once, claim_run_with_lease, claimable,
  finish_claim, candidate_ok, find_run,
}
use loop_platform_zhb.Store.Runs.Inflight.{start-OneInflight}
use loop_platform_zhb.Store.Runs.Live.{bump-Bumps, bump-IsValid}
use loop_platform_zhb.Store.Runs.Claim.{start_row, mint_lease}
use loop_platform_zhb.Store.Runs.Exclusive.{find_loop-id}
use loop_platform_zhb.Store.Runs.Claimable.{
  IsClaimable, IsStarted, claimable_iff, Granted, Claims, not_claimed, not_is_some,
  mint_lease-IsMinted,
}

-- The two ways in which a claimed result names its run and its loop.
claimed-inj :
    (run run' : Run) (t t' : TokenHash) (l l' : Loop)
    → ClaimResult.claimed run t l ≡ ClaimResult.claimed run' t' l'
    → (run ≡ run') × (t ≡ t') × (l ≡ l')
claimed-inj run run' t t' l l' h = (cc, cc, cc)

may_run :
    (input : ClaimInput) (dir : Option JsString)
    → (is_some dir && not input.artifact_capable) ≡ false
    → (dir ≡ none) ⊎ (input.artifact_capable ≡ true)
may_run input none h = inl refl
may_run input (some dir) h = inr (ground arith)

finish_claim-Claims :
    (clock : Clock) (token_hash : TokenHash) (input : ClaimInput) (run : Run) (now db : Database)
    (new : Loop) (rows : List Loop) (r : ClaimResult)
    → Among run now.runs
    → IsClaimable input run
    → Kept now.loops rows
    → find_loop input.loop_id rows ≡ some new
    → new.completed_at ≡ none
    → (new.artifact_dir ≡ none) ⊎ (input.artifact_capable ≡ true)
    → finish_claim clock token_hash input run now (some (new, rows)) ≡ settled r db
    → Claims clock token_hash input r now db
finish_claim-Claims clock token_hash input run now db new rows r at fit kept found unfinished
      capable h =
    let started = start_row clock.iso run in
    let after = record now {
      loops = rows;
      runs = update_where (claimable input) (start_row clock.iso) now.runs;
      leases = insert_row (mint_lease clock token_hash started new) now.leases;
    } in
    subst (Claims clock token_hash input r now) (Settled-inj h).1 (record {
      sound = record { loops = kept; one = start-OneInflight input clock.iso now.runs };
      refrains = λ other. absurd (other started token_hash new (sym (Settled-inj h).0));
      granted = λ run' t' l' e.
          let (a, b, c) = claimed-inj started run' token_hash t' new l' ((Settled-inj h).0 ∙ e) in
          (
            sym b,
            subst (λ l. Granted clock token_hash input run' l now after) c
                (record {
                  old = run;
                  among = at;
                  eligible = fit;
                  started = sym a;
                  runs =
                      update_where-Rewritten (claimable input) (IsClaimable input)
                        (claimable_iff input) (IsStarted clock.iso) (start_row clock.iso)
                        (λ q k. refl) now.runs;
                  stored = found;
                  unfinished = unfinished;
                  capable = capable;
                  lease = mint_lease clock token_hash started new;
                  minted = mint_lease-IsMinted clock token_hash input run new fit;
                  leases = insert_row-append (mint_lease clock token_hash started new) now.leases;
                  others = refl;
                }),
          );
    })

claim_write :
    (clock : Clock) (token_hash : TokenHash) (input : ClaimInput) (seen now db : Database)
    (l : Loop) (run : Run) (new : Loop) (rows : List Loop) (r : ClaimResult)
    → Evolves seen.loops now.loops
    → find_loop l.id seen.loops ≡ some l
    → l.id ≡ input.loop_id
    → is_some l.completed_at ≡ false
    → (l.artifact_dir ≡ none) ⊎ (input.artifact_capable ≡ true)
    → Among run now.runs
    → IsClaimable input run
    → cas_loop l.id l.revision bump now.loops ≡ some (new, rows)
    → finish_claim clock token_hash input run now (some (new, rows)) ≡ settled r db
    → Claims clock token_hash input r now db
claim_write clock token_hash input seen now db l run new rows r ev found same unfinished capable at
      fit w h =
    let (lands, written) = cas_loop-lands seen.loops now.loops l.id l bump new rows ev found w in
    finish_claim-Claims clock token_hash input run now db new rows r at fit
      (cas_loop-Kept seen.loops now.loops l.id l new bump rows ev found bump-Bumps (bump-IsValid l)
        w)
      (subst (λ k. find_loop k rows ≡ some new) same
        (cas_loop-found l.id bump now.loops rows l new bump-Bumps lands w ∙ ap some (sym written)))
      (subst (λ x. x.completed_at ≡ none) (sym written) (not_is_some l.completed_at unfinished))
      (subst (λ x. (x.artifact_dir ≡ none) ⊎ (input.artifact_capable ≡ true)) (sym written) capable)
      h

claim_tx-Claims :
    (clock : Clock) (token_hash : TokenHash) (input : ClaimInput) (seen now db : Database)
    (l : Loop) (r : ClaimResult)
    → Evolves seen.loops now.loops
    → find_loop l.id seen.loops ≡ some l
    → l.id ≡ input.loop_id
    → is_some l.completed_at ≡ false
    → (l.artifact_dir ≡ none) ⊎ (input.artifact_capable ≡ true)
    → claim_tx clock token_hash input l now ≡ settled r db
    → Claims clock token_hash input r now db
unfolding claim_tx
claim_tx-Claims clock token_hash input seen now db l r ev found same unfinished capable h =
    elim (Option-cases (select_first (claimable input) now.runs)) [
      | inl gone ↦
          not_claimed clock token_hash input now db r ClaimResult.skipped (λ run t loop e. cc)
            (rw (gone, claim_tx) at h)
      | inr (run, e) ↦ elim (Option-cases (cas_loop l.id l.revision bump now.loops)) [
        | inl lost ↦ absurd (ground arith)
        | inr (written, w) ↦
            let (at, fit) =
              select_first-Among (claimable input) (IsClaimable input) (claimable_iff input)
                now.runs run e in
            claim_write clock token_hash input seen now db l run written.0 written.1 r ev found same
              unfinished capable at fit w (rw (e, w, claim_tx) at h)
      ]
    ]

claim_run_with_lease_once-Claims :
    (clock : Clock) (token_hash : TokenHash) (input : ClaimInput) (seen now db : Database)
    (r : ClaimResult)
    → Evolves seen.loops now.loops
    → claim_run_with_lease_once clock token_hash input seen now ≡ settled r db
    → Claims clock token_hash input r now db
unfolding claim_run_with_lease_once
claim_run_with_lease_once-Claims clock token_hash input seen now db r ev h =
    elim (Bool-cases (candidate_ok input (find_run input.run_id seen.runs))) [
      | inr wrong ↦
          not_claimed clock token_hash input now db r ClaimResult.skipped (λ run t loop e. cc)
            (rw (wrong, claim_run_with_lease_once) at h)
      | inl right ↦ elim (Option-cases (find_loop input.loop_id seen.loops)) [
        | inl missing ↦
            not_claimed clock token_hash input now db r ClaimResult.claim_refused
              (λ run t loop e. cc) (rw (right, missing, claim_run_with_lease_once) at h)
        | inr (l, e) ↦ elim (Bool-cases (is_some l.completed_at)) [
          | inl completed ↦
              not_claimed clock token_hash input now db r ClaimResult.claim_refused
                (λ run t loop e. cc) (rw (right, e, completed, claim_run_with_lease_once) at h)
          | inr unfinished ↦
              elim (Bool-cases (is_some l.artifact_dir && not input.artifact_capable)) [
                | inl incapable ↦
                    not_claimed clock token_hash input now db r ClaimResult.claim_refused
                      (λ run t loop e. cc)
                      (rw (right, e, unfinished, incapable, claim_run_with_lease_once) at h)
                | inr capable ↦
                    claim_tx-Claims clock token_hash input seen now db l r ev
                      (subst (λ k. find_loop k seen.loops ≡ some l)
                        (sym (find_loop-id input.loop_id seen.loops l e)) e)
                      (find_loop-id input.loop_id seen.loops l e) unfinished
                      (may_run input l.artifact_dir capable)
                      (rw (right, e, unfinished, capable, claim_run_with_lease_once) at h)
              ]
        ]
      ]
    ]

-- A claim with its retry that settles, under token-increasing interference, keeps the loops and the
-- bound on runs in flight, and writes nothing unless it grants. What it grants is a run that was
-- pending under the id, machine, loop and role of the input and is stored as running at the clock's
-- stamp, with the stored row of its loop, which is not completed and whose artifact directory, if
-- any, the machine can serve; it adds one active lease for that run, machine, loop and role under
-- the given token, without control and without an end, at the loop's goal revision, which may
-- finish exactly if the run is an exec one and the loop has a goal; the other tables stay.
pub claim_run_with_lease-Claims :
    (clock : Clock) (token_hash : TokenHash) (input : ClaimInput) (m : Moments) (r : ClaimResult)
    (db : Database)
    → Interfered m
    → claim_run_with_lease clock token_hash input m ≡ result r db
    → Claims clock token_hash input r m.now db ⊎ Claims clock token_hash input r m.now_again db
unfolding claim_run_with_lease
claim_run_with_lease-Claims clock token_hash input m r db i h =
    retry-By (Claims clock token_hash input) (claim_run_with_lease_once clock token_hash input) m r
      db (claim_run_with_lease_once-Claims clock token_hash input) i h
