-- ===== src/Scenarios/Runs.antt =====
-- Enqueueing, claiming and canceling on the platform.
use loop_platform_zhb.Base.{◌≡◌, refl, false, some, [], ◌∷◌, ◌⊎◌}
use loop_platform_zhb.Db.{RunRole}
use loop_platform_zhb.Store.{
  Database, Clock, Moments, find_loop, update_loop, cas_loop, settled, result, select_first,
}
use loop_platform_zhb.Store.Runs.{
  PendingPolicy, TxTrigger, EnqueueExecRunResult, EnqueueRefusal, enqueue_tx, enqueue_manual, bump,
  supersede_row, pending_run, advance_watermark,
}
use loop_platform_zhb.Store.Runs.Live.{Enqueues}
use loop_platform_zhb.Store.Runs.Claim.{
  ClaimInput, ClaimResult, claim_run_with_lease, mint_lease, start_row, cancel_run_tx,
}
use loop_platform_zhb.Store.Runs.Exclusive.{enqueue_manual-Enqueues}
use loop_platform_zhb.Store.Runs.Granted.{claim_run_with_lease-Claims}
use loop_platform_zhb.Store.Runs.Claimable.{Claims}
use loop_platform_zhb.Store.Runs.Revoke.{Cancels, cancel_run_tx-Cancels}
use loop_platform_zhb.Scenarios.{
  calm-Interfered, today, clock, goal_loop, idle_loop, running_run, queued_run, sibling_run, lease,
  platform, calm,
}

-- The second loop's queued run gives way to a new one.
abbrev enqueued : Database
enqueued = record platform {
  loops = goal_loop ∷ bump idle_loop ∷ [];
  runs = running_run ∷ supersede_row today queued_run ∷ sibling_run ∷ pending_run 20 2 7 today ∷ [];
}

abbrev replaced : EnqueueExecRunResult
replaced = EnqueueExecRunResult.enqueued 20 (12 ∷ [])

enqueues :
    enqueue_manual clock 20 2 PendingPolicy.supersede (calm platform) ≡ result replaced enqueued
unfolding enqueue_manual loop_platform_zhb.Store.with_guard_retry find_loop
    loop_platform_zhb.Store.Runs.is_machine_execution_eligible cas_loop update_loop
enqueues = refl

enqueue_manual-Enqueues_example :
    Enqueues 2 replaced platform enqueued ⊎ Enqueues 2 replaced platform enqueued
enqueue_manual-Enqueues_example =
    enqueue_manual-Enqueues clock 20 2 PendingPolicy.supersede (calm platform) replaced enqueued
      (calm-Interfered platform) enqueues

-- The scheduled trigger on the loop with a running run keeps the watermark that it advanced.
abbrev advanced : Database
advanced = record platform { loops = advance_watermark today goal_loop ∷ idle_loop ∷ [] }

abbrev busy : EnqueueExecRunResult
busy = EnqueueExecRunResult.refused EnqueueRefusal.running_exists

advances :
    enqueue_tx clock 20 goal_loop (TxTrigger.scheduled today) platform ≡ settled busy advanced
unfolding enqueue_tx cas_loop find_loop update_loop
advances = refl

finds : find_loop 1 platform.loops ≡ some goal_loop
unfolding find_loop
finds = refl

abbrev claim : ClaimInput
claim = record {
  run_id = 12;
  loop_id = 2;
  machine_id = 7;
  role = RunRole.exec;
  artifact_capable = false;
}

abbrev claimed : Database
claimed = record platform {
  loops = goal_loop ∷ bump idle_loop ∷ [];
  runs = running_run ∷ start_row today queued_run ∷ sibling_run ∷ [];
  leases = lease ∷ mint_lease clock 77 (start_row today queued_run) (bump idle_loop) ∷ [];
}

abbrev granted : ClaimResult
granted = ClaimResult.claimed (start_row today queued_run) 77 (bump idle_loop)

claims : claim_run_with_lease clock 77 claim (calm platform) ≡ result granted claimed
unfolding claim_run_with_lease loop_platform_zhb.Store.with_guard_retry find_loop cas_loop
    update_loop
claims = refl

claim_run_with_lease-Claims_example :
    Claims clock 77 claim granted platform claimed ⊎ Claims clock 77 claim granted platform claimed
claim_run_with_lease-Claims_example =
    claim_run_with_lease-Claims clock 77 claim (calm platform) granted claimed
      (calm-Interfered platform) claims

cancel_run_tx-Cancels_example :
    Cancels today 11
      (cancel_run_tx clock 11 platform).0
      platform
      (cancel_run_tx clock 11 platform).1
cancel_run_tx-Cancels_example = cancel_run_tx-Cancels clock 11 platform
