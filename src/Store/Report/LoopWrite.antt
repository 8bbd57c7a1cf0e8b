-- ===== src/Store/Report/LoopWrite.antt =====
-- packages/server/src/store/report.ts: the guarded loop write of a report.
use loop_platform_zhb.Base.{◌≡◌, refl, sym, ap, subst, ◌∙◌, Option, none, some, List}
use loop_platform_zhb.Db.{Loop}
use loop_platform_zhb.Lifecycle.{CompletionWrites, apply_completion}
use loop_platform_zhb.Lifecycle.Snapshot.{IsValid}
use loop_platform_zhb.Lifecycle.Report.{LoopV1Writes, apply_loop_v1_writes, complete}
use loop_platform_zhb.Store.{Database, find_loop, cas_loop}
use loop_platform_zhb.Store.Occ.{Evolves, Bumps, cas_loop-lands, cas_loop-found}
use loop_platform_zhb.Store.Manage.Laws.{cas_loop-Kept}
use loop_platform_zhb.Store.Report.{write_loop, with_row}
use loop_platform_zhb.Store.Report.Writes.{Quiet}

complete-same :
    (c : Option CompletionWrites) (l : Loop)
    → ((complete c l).id ≡ l.id) × ((complete c l).revision ≡ l.revision)
unfolding apply_completion
complete-same none l = (refl, refl)
complete-same (some w) l = (refl, refl)

apply_loop_v1_writes-Bumps : (w : LoopV1Writes) → Bumps (apply_loop_v1_writes w)
unfolding apply_loop_v1_writes
apply_loop_v1_writes-Bumps w = record {
  same_id = λ l. (complete-same w.completion _).0;
  next = λ l. (complete-same w.completion _).1;
}

with_row-inv :
    (now db : Database) (o : Option (Loop × List Loop)) (new : Loop)
    → with_row now o ≡ some (new, db)
    → (rows : List Loop) × (o ≡ some (new, rows)) × (record now { loops = rows } ≡ db)
with_row-inv now db none new h = cc
with_row-inv now db (some (l, rows)) new h = (rows, cc, cc)

-- A planned loop write: the loop read is the one that is written.
pub record Writes (loop new : Loop) (w : LoopV1Writes) (now db : Database) : Type 0 where
  pub quiet : Quiet now db
  pub same_runs : db.runs ≡ now.runs
  pub found : find_loop new.id db.loops ≡ some new
  pub written : new ≡ apply_loop_v1_writes w loop

pub write_loop-Writes :
    (seen : List Loop) (w : LoopV1Writes) (l : Loop) (now db : Database) (new : Loop)
    → Evolves seen now.loops
    → find_loop l.id seen ≡ some l
    → (IsValid l → IsValid (apply_loop_v1_writes w l))
    → write_loop w l now ≡ some (new, db)
    → Writes l new w now db
unfolding write_loop
write_loop-Writes seen w l now db new ev found valid h =
    let f = apply_loop_v1_writes w in
    let b = apply_loop_v1_writes-Bumps w in
    let (rows, e, same) = with_row-inv now db (cas_loop l.id l.revision f now.loops) new h in
    let (lands, written) = cas_loop-lands seen now.loops l.id l f new rows ev found e in
    subst (Writes l new w now) same (record {
      quiet = record {
        sound = record {
          loops = cas_loop-Kept seen now.loops l.id l new f rows ev found b valid e;
          one = λ o. o;
        };
        same_leases = refl;
      };
      same_runs = refl;
      found =
          subst (λ k. find_loop k rows ≡ some new)
            (sym (b.same_id l) ∙ ap (λ x. x.id) (sym written))
            (cas_loop-found l.id f now.loops rows l new b lands e ∙ ap some (sym written));
      written = written;
    })
