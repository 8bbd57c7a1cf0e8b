-- ===== src/Store/Runs/Exclusive.antt =====
-- packages/server/src/store/runs.ts: a manual enqueue with its retry.
use loop_platform_zhb.Base.{
  ◌≡◌, refl, sym, subst, ◌⊎◌, inl, inr, some, List, [], ◌∷◌, arith, Bool-cases, Option-cases,
  is_some,
}
use loop_platform_zhb.Db.{LoopId, RunId, Loop}
use loop_platform_zhb.Store.{Database, Clock, find_loop, settled, result, Moments}
use loop_platform_zhb.Store.Occ.{Evolves}
use loop_platform_zhb.Store.Manage.Laws.{Kept-refl}
use loop_platform_zhb.Store.Manage.Retry.{Interfered, retry-By}
use loop_platform_zhb.Store.Runs.{
  PendingPolicy, manual, EnqueueExecRunResult, enqueue_manual_once, enqueue_manual,
  is_machine_execution_eligible,
}
use loop_platform_zhb.Store.Runs.Live.{refused-Enqueues, Enqueues, enqueue_tx-Enqueues}

pub find_loop-id :
    (id : LoopId) (rows : List Loop) (l : Loop) → find_loop id rows ≡ some l → l.id ≡ id
unfolding find_loop
find_loop-id id [] l h = cc
find_loop-id id (r ∷ rows) l h = ground (arith, find_loop-id id rows l)

enqueue_manual_once-Enqueues :
    (clock : Clock) (run_id : RunId) (id : LoopId) (policy : PendingPolicy) (seen now db : Database)
    (r : EnqueueExecRunResult)
    → Evolves seen.loops now.loops
    → enqueue_manual_once clock run_id id policy seen now ≡ settled r db
    → Enqueues id r now db
unfolding enqueue_manual_once
enqueue_manual_once-Enqueues clock run_id id policy seen now db r ev h =
    elim (Option-cases (find_loop id seen.loops)) [
      | inl missing ↦
          refused-Enqueues id _ r now now db (Kept-refl now.loops) refl
            (rw (missing, enqueue_manual_once) at h)
      | inr (l, e) ↦ elim (Bool-cases (is_machine_execution_eligible seen.machines l.machine_id)) [
        | inr ineligible ↦
            refused-Enqueues id _ r now now db (Kept-refl now.loops) refl
              (rw (e, ineligible, enqueue_manual_once) at h)
        | inl eligible ↦ elim (Bool-cases (is_some l.completed_at)) [
          | inl completed ↦
              refused-Enqueues id _ r now now db (Kept-refl now.loops) refl
                (rw (e, eligible, completed, enqueue_manual_once) at h)
          | inr unfinished ↦
              subst (λ k. Enqueues k r now db) (find_loop-id id seen.loops l e)
                (enqueue_tx-Enqueues clock run_id seen l (manual policy) now db r ev
                  (subst (λ k. find_loop k seen.loops ≡ some l)
                    (sym (find_loop-id id seen.loops l e)) e)
                  (rw (e, eligible, unfinished, enqueue_manual_once) at h))
        ]
      ]
    ]

-- A manual enqueue with its retry that settles, under token-increasing interference, keeps every
-- loop valid and every row unchanged or with a greater token, keeps every loop to one exec run in
-- flight, and leaves the loop of an accepted enqueue with exactly one.
pub enqueue_manual-Enqueues :
    (clock : Clock) (run_id : RunId) (id : LoopId) (policy : PendingPolicy) (m : Moments)
    (r : EnqueueExecRunResult) (db : Database)
    → Interfered m
    → enqueue_manual clock run_id id policy m ≡ result r db
    → Enqueues id r m.now db ⊎ Enqueues id r m.now_again db
unfolding enqueue_manual
enqueue_manual-Enqueues clock run_id id policy m r db i h =
    retry-By (Enqueues id) (enqueue_manual_once clock run_id id policy) m r db
      (enqueue_manual_once-Enqueues clock run_id id policy) i h
