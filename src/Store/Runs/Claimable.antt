-- ===== src/Store/Runs/Claimable.antt =====
-- packages/server/src/store/runs.ts: the row that a claim takes, and the lease that it adds.
use loop_platform_zhb.Base.{
  ◌≡◌, ◌≢◌, ◌∙◌, refl, sym, ◌⊎◌, true, false, ◌++◌, ◌↔◌, JsString, Option, none, some, [], ◌∷◌,
  arith, is_some,
}
use loop_platform_zhb.Db.{IsoTime, TokenHash, Loop, Run, RunLeaseRow, RunPhase, RunRole, LeaseState}
use loop_platform_zhb.Db.Enums.{phase_eq_iff, role_eq_iff}
use loop_platform_zhb.Store.Tables.{Among, Rewritten}
use loop_platform_zhb.Store.{Database, Clock, find_loop, settled}
use loop_platform_zhb.Store.Manage.Laws.{Settled-inj}
use loop_platform_zhb.Store.Runs.Claim.{ClaimInput, ClaimResult, claimable}
use loop_platform_zhb.Store.Runs.Live.{Sound, unwritten}
use loop_platform_zhb.Store.Runs.Claim.{start_row, mint_lease}

-- The pending row of the run, machine, loop and role that a claim names.
pub record IsClaimable (input : ClaimInput) (r : Run) : Type 0 where
  pub same_run : r.id ≡ input.run_id
  pub queued : r.phase ≡ RunPhase.pending
  pub same_machine : r.machine_id ≡ input.machine_id
  pub same_loop : r.loop_id ≡ input.loop_id
  pub same_role : r.role ≡ input.role

abbrev pub IsStarted : IsoTime → Run → Run → Type 0
IsStarted ts r s = s ≡ record r { phase = RunPhase.running; ts = ts }

pub claimable_iff :
    (input : ClaimInput) (r : Run) → (claimable input r ≡ true) ↔ IsClaimable input r
claimable_iff input r =
    let phase = phase_eq_iff r.phase RunPhase.pending in
    let role = role_eq_iff r.role input.role in
    (
      λ h. record {
        same_run = ground arith;
        queued = phase.0 (ground arith);
        same_machine = ground arith;
        same_loop = ground arith;
        same_role = role.0 (ground arith);
      },
      λ c.
          ground
            (arith, c.same_run, phase.1 c.queued, c.same_machine, c.same_loop, role.1 c.same_role),
    )

-- The lease of a claim: for the run, machine, loop and role that it names, without control, at the
-- loop's goal revision, and with the right to finish exactly for an exec run of a loop with a goal.
pub record IsMinted (clock : Clock) (token_hash : TokenHash) (input : ClaimInput) (loop : Loop)
    (lease : RunLeaseRow) : Type 0 where
  pub token : lease.token_hash ≡ token_hash
  pub of_run : lease.run_id ≡ input.run_id
  pub of_loop : lease.loop_id ≡ input.loop_id
  pub of_machine : lease.machine_id ≡ input.machine_id
  pub role : lease.role ≡ input.role
  pub no_control : lease.allow_control ≡ false
  pub no_ui : lease.can_set_ui ≡ false
  pub no_schema : lease.can_set_schema ≡ false
  pub no_workflow : lease.can_set_workflow ≡ false
  pub can_finish : (lease.can_finish ≡ true) ↔ ((input.role ≡ RunRole.exec) × (loop.goal ≢ none))
  pub state : lease.state ≡ LeaseState.active
  pub no_end : lease.expires_at ≡ none
  pub protocol : lease.terminal_protocol_version ≡ 1
  pub at_goal : lease.goal_revision ≡ loop.goal_revision
  pub created : lease.created_at ≡ clock.iso

-- A granted claim: the run was claimable and is running, and its loop may run on that machine.
pub record Granted (clock : Clock) (token_hash : TokenHash) (input : ClaimInput) (run : Run)
    (loop : Loop) (now db : Database) : Type 0 where
  pub old : Run
  pub among : Among old now.runs
  pub eligible : IsClaimable input old
  pub started : IsStarted clock.iso old run
  pub runs : Rewritten (IsClaimable input) (IsStarted clock.iso) now.runs db.runs
  pub stored : find_loop input.loop_id db.loops ≡ some loop
  pub unfinished : loop.completed_at ≡ none
  pub capable : (loop.artifact_dir ≡ none) ⊎ (input.artifact_capable ≡ true)
  pub lease : RunLeaseRow
  pub minted : IsMinted clock token_hash input loop lease
  pub leases : db.leases ≡ now.leases ++ (lease ∷ [])
  pub others : db ≡ record now { loops = db.loops; runs = db.runs; leases = db.leases }

-- What a claim establishes: it keeps the loops and the bound, writes nothing unless it grants, and
-- what it grants is as above under the token that it was given.
pub record Claims (clock : Clock) (token_hash : TokenHash) (input : ClaimInput) (r : ClaimResult)
    (now db : Database) : Type 0 where
  pub sound : Sound now db
  pub refrains :
      ((run : Run) (token : TokenHash) (loop : Loop) → r ≢ ClaimResult.claimed run token loop)
      → db ≡ now
  pub granted :
      (run : Run) (token : TokenHash) (loop : Loop)
      → r ≡ ClaimResult.claimed run token loop
      → (token ≡ token_hash) × Granted clock token_hash input run loop now db

pub not_claimed :
    (clock : Clock) (token_hash : TokenHash) (input : ClaimInput) (now db : Database)
    (r q : ClaimResult)
    → ((run : Run) (token : TokenHash) (loop : Loop) → q ≢ ClaimResult.claimed run token loop)
    → settled q now ≡ settled r db
    → Claims clock token_hash input r now db
not_claimed clock token_hash input now db r q other h = record {
  sound = unwritten now db q r h;
  refrains = λ k. sym (Settled-inj h).1;
  granted = λ run token loop e. absurd (other run token loop ((Settled-inj h).0 ∙ e));
}

pub not_is_some : {A : Type 0} (o : Option A) → is_some o ≡ false → o ≡ none
not_is_some none h = refl
not_is_some (some a) h = cc

present_goal : (o : Option JsString) → (is_some o ≡ true) ↔ (o ≢ none)
present_goal none = (λ h. cc, λ h. absurd (h refl))
present_goal (some a) = (λ h e. cc, λ h. refl)

pub mint_lease-IsMinted :
    (clock : Clock) (token_hash : TokenHash) (input : ClaimInput) (old : Run) (loop : Loop)
    → IsClaimable input old
    → IsMinted clock token_hash input loop
        (mint_lease clock token_hash (start_row clock.iso old) loop)
mint_lease-IsMinted clock token_hash input old loop c =
    let role = role_eq_iff old.role RunRole.exec in
    let goal = present_goal loop.goal in
    record {
      token = refl;
      of_run = c.same_run;
      of_loop = c.same_loop;
      of_machine = c.same_machine;
      role = c.same_role;
      no_control = refl;
      no_ui = refl;
      no_schema = refl;
      no_workflow = refl;
      can_finish = (
        λ h. (sym c.same_role ∙ role.0 (ground arith), goal.0 (ground arith)),
        λ (r, g). ground (arith, role.1 (c.same_role ∙ r), goal.1 g),
      );
      state = refl;
      no_end = refl;
      protocol = refl;
      at_goal = refl;
      created = refl;
    }
