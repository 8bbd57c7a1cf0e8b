-- ===== src/Scenarios/Reclaiming.antt =====
-- A run that has gone silent, reclaimed, and reported late within the window.
use loop_platform_zhb.Base.{
  ℕ, ◌+◌, ◌≤◌, ◌≡◌, refl, Bool, true, false, Option, none, some, List, [], ◌∷◌, arith, leb,
}
use loop_platform_zhb.Base
use loop_platform_zhb.Db.{Run}
use loop_platform_zhb.Store.{Database, Clock, settled}
use loop_platform_zhb.Store.Runs.Reclaim.{
  last_run_activity_ms, progress_stamp, ReclaimOutcome, reclaim_row, grace_row,
  reclaim_stale_run_tx, terminal_grace_ms,
}
use loop_platform_zhb.Store.Runs.Reclaim.Meaning.{reclaim_stale_run_tx-Reclaims}
use loop_platform_zhb.Store.Runs.Reclaim.Unmoved.{Reclaims}
use loop_platform_zhb.Store.Runs.Reclaim.Grace.{reclaimed_report-Accepts}
use loop_platform_zhb.Store.Report.{run_report_tx}
use loop_platform_zhb.Store.Report.Progress.{Accepts}
use loop_platform_zhb.Scenarios.{
  today, clock, unit_dates, attributed, running_run, lease, platform, finish_report,
}

-- Last heard of at moment 100; the clock stands at 1000.
abbrev silent_run : Run
silent_run = record running_run { ts = 100 ∷ [] }

abbrev silent : Database
silent = record platform { runs = silent_run ∷ [] }

abbrev taken : Database
taken = record silent {
  runs = reclaim_row today silent_run ∷ [];
  leases = grace_row ((1000 + terminal_grace_ms) ∷ []) lease ∷ [];
}

heard_of : last_run_activity_ms unit_dates silent_run 1000 ≡ some 100
unfolding last_run_activity_ms loop_platform_zhb.Store.Runs.Reclaim.weigh
heard_of = refl

reclaims :
    reclaim_stale_run_tx unit_dates clock 11 500 silent silent
    ≡ settled ReclaimOutcome.reclaimed taken
unfolding reclaim_stale_run_tx loop_platform_zhb.Store.Runs.Reclaim.reclaim_candidate
    last_run_activity_ms loop_platform_zhb.Store.Runs.Reclaim.weigh Base.str_eq
    loop_platform_zhb.Store.Runs.Reclaim.flip_lease
reclaims = refl

reclaim_stale_run_tx-Reclaims_example :
    Reclaims unit_dates clock 500 silent_run ReclaimOutcome.reclaimed silent taken
reclaim_stale_run_tx-Reclaims_example =
    reclaim_stale_run_tx-Reclaims unit_dates clock 11 500 silent_run ReclaimOutcome.reclaimed silent
      silent taken refl reclaims

abbrev late : Clock
late = record { ms = 2000; iso = today }

reclaimed_report-Accepts_example :
    Accepts true (run_report_tx unit_dates attributed late 99 finish_report taken taken)
reclaimed_report-Accepts_example =
    reclaimed_report-Accepts unit_dates attributed clock silent_run 500 silent taken 99 lease late
      finish_report refl refl refl reclaims (omega arith)
