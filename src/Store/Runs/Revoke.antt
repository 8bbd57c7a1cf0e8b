-- ===== src/Store/Runs/Revoke.antt =====
-- packages/server/src/store/runs.ts and packages/server/src/loop-lifecycle/ops.ts: canceling one run,
-- and revoking a whole generation of them.
use loop_platform_zhb.Base.{
  ◌≡◌, refl, ◌↔◌, ◌⊎◌, Bool, true, false, List, [], ◌∷◌, All, arith, any, ◌==◌, ==_iff, Bool-cases,
  inl, inr,
}
use loop_platform_zhb.Db.{IsoTime, LoopId, RunId, Run, RunPhase}
use loop_platform_zhb.Store.{Database, Clock, update_where, delete_where}
use loop_platform_zhb.Store.Tables.{
  count, count-update_where_le, Among, Rewritten, Filtered, any-Among, any-none, Rewritten-none,
  update_where-Rewritten, delete_where-Filtered,
}
use loop_platform_zhb.Store.Manage.{is_live, cancel_row, live_in_loop, revoke_generation}
use loop_platform_zhb.Store.Runs.Claim.{cancelable, cancel_run_tx}
use loop_platform_zhb.Store.Runs.Inflight.{OneInflight, live_exec}

module _ {A : Type 0} where
  pub count-delete_where : (p : A → Bool) (rows : List A) → count p (delete_where p rows) ≡ 0
  count-delete_where p [] = refl
  count-delete_where p (r ∷ rows) = ground (arith, count-delete_where p rows)

  -- Rows that an update takes out of the predicate it selects them by.
  pub count-update_where_out :
      (p : A → Bool) (f : A → A)
      → ((r : A) → p (f r) ≡ false)
      → (rows : List A) → count p (update_where p f rows) ≡ 0
  count-update_where_out p f out [] = refl
  count-update_where_out p f out (r ∷ rows) =
      ground (arith, out r, count-update_where_out p f out rows)

live_out : (id : LoopId) (ts : IsoTime) (r : Run) → live_in_loop id (cancel_row ts r) ≡ false
live_out id ts r = ground arith

-- A pending or running row of the run.
abbrev pub IsLiveOf : RunId → Run → Type 0
IsLiveOf id r = (r.id ≡ id) × ((r.phase ≡ RunPhase.pending) ⊎ (r.phase ≡ RunPhase.running))

abbrev pub IsCanceled : IsoTime → Run → Run → Type 0
IsCanceled ts r s = s ≡ record r { phase = RunPhase.canceled; ts = ts }

is_live_iff :
    (p : RunPhase) → (is_live p ≡ true) ↔ ((p ≡ RunPhase.pending) ⊎ (p ≡ RunPhase.running))
is_live_iff RunPhase.pending = (λ h. inl refl, λ h. refl)
is_live_iff RunPhase.running = (λ h. inr refl, λ h. refl)
is_live_iff RunPhase.done = (λ h. cc, λ h. elim h [ inl e ↦ cc | inr e ↦ cc ])
is_live_iff RunPhase.error = (λ h. cc, λ h. elim h [ inl e ↦ cc | inr e ↦ cc ])
is_live_iff RunPhase.canceled = (λ h. cc, λ h. elim h [ inl e ↦ cc | inr e ↦ cc ])

cancelable_iff : (id : RunId) (r : Run) → (cancelable id r ≡ true) ↔ IsLiveOf id r
cancelable_iff id r =
    let live = is_live_iff r.phase in
    (λ h. (ground arith, live.0 (ground arith)), λ (e, l). ground (arith, live.1 l))

-- What canceling a run does to a database at a moment, where the run is live or not.
pub record Cancels (ts : IsoTime) (id : RunId) (did : Bool) (before after : Database) : Type 0 where
  pub acts : did ≡ true → (r : Run) × Among r before.runs × IsLiveOf id r
  pub refrains : did ≡ false → All (λ r. ¬ IsLiveOf id r) before.runs × (after ≡ before)
  pub runs : Rewritten (IsLiveOf id) (IsCanceled ts) before.runs after.runs
  pub leases : did ≡ true → Filtered (λ lease. lease.run_id ≡ id) before.leases after.leases
  pub others : after ≡ record before { runs = after.runs; leases = after.leases }
  pub one : OneInflight before.runs → OneInflight after.runs

-- A cancel answers true exactly where a row of the run is pending or running; then those rows, and
-- no others, become canceled at the clock's stamp and the leases of the run, and no others, are
-- deleted; where there is none, nothing is written. The other tables are as they were, and no loop
-- gains a run in flight beyond one.
pub cancel_run_tx-Cancels :
    (clock : Clock) (id : RunId) (db : Database)
    → Cancels clock.iso id (cancel_run_tx clock id db).0 db (cancel_run_tx clock id db).1
unfolding cancel_run_tx
cancel_run_tx-Cancels clock id db =
    let reads = cancelable_iff id in
    elim (Bool-cases (any (cancelable id) db.runs)) [
      | inr dead ↦
          let idle = any-none (cancelable id) (IsLiveOf id) reads db.runs dead in
          rw dead (record {
            acts = λ h. cc;
            refrains = λ h. (idle, refl);
            runs = Rewritten-none (IsLiveOf id) (IsCanceled clock.iso) db.runs idle;
            leases = λ h. cc;
            others = refl;
            one = λ o. o;
          })
      | inl live ↦ rw live (record {
        acts = λ h. any-Among (cancelable id) (IsLiveOf id) reads db.runs live;
        refrains = λ h. cc;
        runs =
            update_where-Rewritten (cancelable id) (IsLiveOf id) reads (IsCanceled clock.iso)
              (cancel_row clock.iso) (λ r h. refl) db.runs;
        leases = λ h.
            delete_where-Filtered (λ lease. lease.run_id == id) (λ lease. lease.run_id ≡ id)
              (λ lease. ==_iff lease.run_id id) db.leases;
        others = refl;
        one = λ o other. omega (
          arith,
          o other,
          count-update_where_le (live_exec other) (cancelable id) (cancel_row clock.iso)
              (λ r h k. ground arith) db.runs,
        );
      })
    ]

pub record Revokes (id : LoopId) (before after : Database) : Type 0 where
  pub loops : after.loops ≡ before.loops
  pub out : count (live_in_loop id) after.runs ≡ 0
  pub revoked : count (λ lease. lease.loop_id == id) after.leases ≡ 0
  pub one : OneInflight before.runs → OneInflight after.runs

-- After the revocation that precedes a reopening the loop has no pending or running run and no
-- lease, the loops are as they were, and no loop gains a run in flight beyond one.
pub revoke_generation-Revokes :
    (id : LoopId) (ts : IsoTime) (db : Database) → Revokes id db (revoke_generation id ts db)
unfolding revoke_generation
revoke_generation-Revokes id ts db = record {
  loops = refl;
  out = count-update_where_out (live_in_loop id) (cancel_row ts) (live_out id ts) db.runs;
  revoked = count-delete_where (λ lease. lease.loop_id == id) db.leases;
  one = λ o other. omega (
    arith,
    o other,
    count-update_where_le (live_exec other) (live_in_loop id) (cancel_row ts)
        (λ r h k. ground arith) db.runs,
  );
}
