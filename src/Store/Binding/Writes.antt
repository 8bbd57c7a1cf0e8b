-- ===== src/Store/Binding/Writes.antt =====
-- packages/server/src/artifact/binding-plan.ts and packages/server/src/store/report.ts: the writes of
-- the binding step of a report.
use loop_platform_zhb.Base.{
  ℕ, ◌≡◌, refl, sym, subst, ap, ◌∙◌, ◌↔◌, ◌⊎◌, inl, inr, JsString, Bool, true, ◌&&◌, ◌||◌, Option,
  none, some, List, [], ◌∷◌, map, arith, any, is_some, ==_iff, Bool-cases,
}
use loop_platform_zhb.Db.{ManifestId, Loop, Run}
use loop_platform_zhb.Db.Enums.{phase_eq_iff}
use loop_platform_zhb.Store.{Database, find_loop, update_where}
use loop_platform_zhb.Store.Tables.{count, Rewritten, update_where-Rewritten}
use loop_platform_zhb.Store.Manage.Laws.{Kept, Kept-refl}
use loop_platform_zhb.Store.Runs.Inflight.{live_exec}
use loop_platform_zhb.Store.Runs.Live.{Sound}
use loop_platform_zhb.WriteSet.{ReportRequest}
use loop_platform_zhb.Store.Binding.{
  ArtifactBinding, ArtifactBindingPlan, skip, bind, record_error, bind_row, error_row, resolved,
  generation_is, update_resolved, apply_artifact_binding_plan, bind_artifact, plan_report_binding,
}
use loop_platform_zhb.Store.Binding.Laws.{Binds-sound}

-- A run without its artifact columns.
abbrev pub erased : Run → Run
erased run = record run { artifact_snapshot_id = none; artifact_sync_error = none }

update_where-erased :
    (p : Run → Bool) (f : Run → Run)
    → ((r : Run) → erased (f r) ≡ erased r)
    → (rows : List Run) → map erased (update_where p f rows) ≡ map erased rows
update_where-erased p f keep [] = refl
update_where-erased p f keep (r ∷ rows) = elim (Bool-cases (p r)) [
  | inl hit ↦ let ih = update_where-erased p f keep rows in let k = keep r in rw hit (cc (ih, k))
  | inr miss ↦ let ih = update_where-erased p f keep rows in rw miss (ap (λ l. erased r ∷ l) ih)
]

-- A row of the run in the phase that was read; its identifier is the primary key.
abbrev pub IsRead : Run → Run → Type 0
IsRead run r = (r.id ≡ run.id) × (r.phase ≡ run.phase)

-- A row with the snapshot of the report bound, its error column as it was, or with an error in place
-- of a snapshot.
abbrev pub IsBound : ReportRequest → Run → Run → Type 0
IsBound body r s =
    ((id : ManifestId) × (body.artifact_snapshot_id ≡ some id)
      × (body.artifact_sync_error ≡ none)
      × (s ≡ record r { artifact_snapshot_id = some id }))
    ⊎ ((reason : JsString) × (s
          ≡ record r { artifact_snapshot_id = none; artifact_sync_error = some reason }))

resolved_iff : (run r : Run) → (resolved run r ≡ true) ↔ IsRead run r
resolved_iff run r =
    let same = phase_eq_iff r.phase run.phase in
    (λ h. (ground arith, same.0 (ground arith)), λ (i, p). ground (arith, i, same.1 p))

-- What the binding step leaves alone.
pub record OnlyArtifacts (body : ReportRequest) (run : Run) (now db : Database) : Type 0 where
  pub one_run : (db.runs ≡ now.runs) ⊎ Rewritten (IsRead run) (IsBound body) now.runs db.runs
  pub others : db ≡ record now { runs = db.runs }
  pub runs : map erased db.runs ≡ map erased now.runs

-- The tables that it does not write.
module _ {body : ReportRequest} {run : Run} {now db : Database}
    (o : OnlyArtifacts body run now db) where
  pub OnlyArtifacts-loops : db.loops ≡ now.loops
  OnlyArtifacts-loops = ap (λ d. d.loops) o.others

  pub OnlyArtifacts-leases : db.leases ≡ now.leases
  OnlyArtifacts-leases = ap (λ d. d.leases) o.others

OnlyArtifacts-refl :
    (body : ReportRequest) (run : Run) (db : Database) → OnlyArtifacts body run db db
OnlyArtifacts-refl body run db = record { one_run = inl refl; others = refl; runs = refl }

some-db : {a b : Database} → ◌≡◌ {A = Option Database} (some a) (some b) → a ≡ b
some-db h = cc

update_resolved-OnlyArtifacts :
    (body : ReportRequest) (run : Run) (write : Run → Run) (guard : Bool) (now db : Database)
    → ((r : Run) → erased (write r) ≡ erased r)
    → ((r : Run) → IsBound body r (write r))
    → update_resolved run write guard now ≡ some db
    → OnlyArtifacts body run now db
unfolding update_resolved
update_resolved-OnlyArtifacts body run write guard now db keep binds h =
    elim (Bool-cases (guard && any (resolved run) now.runs)) [
      | inr lost ↦ let k = rw (lost, update_resolved) at h in cc
      | inl held ↦
          subst (OnlyArtifacts body run now) (some-db (rw (held, update_resolved) at h)) (record {
            one_run = inr (
                update_where-Rewritten (resolved run) (IsRead run) (resolved_iff run) (IsBound body)
                  write (λ r at. binds r) now.runs);
            others = refl;
            runs = update_where-erased (resolved run) write keep now.runs;
          })
    ]

pub apply-OnlyArtifacts :
    (body : ReportRequest) (run : Run) (plan : ArtifactBindingPlan) (now db : Database)
    → ((id : ManifestId) (generation : ℕ)
        → plan ≡ bind id generation
        → (body.artifact_snapshot_id ≡ some id) × (body.artifact_sync_error ≡ none))
    → apply_artifact_binding_plan run plan now ≡ some db
    → OnlyArtifacts body run now db
unfolding apply_artifact_binding_plan
apply-OnlyArtifacts body run skip now db carries h =
    subst (OnlyArtifacts body run now) (some-db h) (OnlyArtifacts-refl body run now)
apply-OnlyArtifacts body run (bind id generation) now db carries h =
    let (at, alone) = carries id generation refl in
    update_resolved-OnlyArtifacts body run (bind_row id) _ now db (λ r. refl)
      (λ r. inl (id, at, alone, refl)) h
apply-OnlyArtifacts body run (record_error reason) now db carries h =
    update_resolved-OnlyArtifacts body run (error_row reason) true now db (λ r. refl)
      (λ r. inr (reason, refl)) h

-- Where the binding step of a report goes through, it writes nothing, or of all tables only the row
-- of that run in the phase that was read: it binds the snapshot that the report carries without a
-- sync error and leaves the error column, or clears the snapshot and stores an error.
pub bind_artifact-OnlyArtifacts :
    (binding : ArtifactBinding) (body : ReportRequest) (run : Run) (loop : Option Loop)
    (seen now db : Database)
    → bind_artifact binding body run loop seen now ≡ some db
    → OnlyArtifacts body run now db
unfolding bind_artifact plan_report_binding
bind_artifact-OnlyArtifacts none body run loop seen now db h =
    subst (OnlyArtifacts body run now) (some-db h) (OnlyArtifacts-refl body run now)
bind_artifact-OnlyArtifacts (some resolve) body run none seen now db h =
    subst (OnlyArtifacts body run now) (some-db h) (OnlyArtifacts-refl body run now)
bind_artifact-OnlyArtifacts (some resolve) body run (some loop) seen now db h =
    elim (Bool-cases (is_some body.artifact_snapshot_id || is_some body.artifact_sync_error)) [
      | inl carried ↦
          apply-OnlyArtifacts body run
            (plan_report_binding (resolve run.machine_id seen) body run loop seen) now db
            (λ id generation planned.
              let b =
                Binds-sound run loop _ _ _ _ (resolve run.machine_id seen) id generation planned in
              (b.carried, b.no_error))
            (rw (carried, bind_artifact) at h)
      | inr plain ↦
          subst (OnlyArtifacts body run now) (some-db (rw (plain, bind_artifact) at h))
            (OnlyArtifacts-refl body run now)
    ]

-- A test that does not read the artifact columns counts the same rows.
pub count-erased :
    (p : Run → Bool)
    → ((r : Run) → p (erased r) ≡ p r)
    → (rows : List Run) → count p (map erased rows) ≡ count p rows
count-erased p blind [] = refl
count-erased p blind (r ∷ rows) = rw (blind r, count-erased p blind rows) refl

pub any-erased :
    (p : Run → Bool)
    → ((r : Run) → p (erased r) ≡ p r)
    → (rows : List Run) → any p (map erased rows) ≡ any p rows
any-erased p blind [] = refl
any-erased p blind (r ∷ rows) = rw (blind r, any-erased p blind rows) refl

pub OnlyArtifacts-Sound :
    (body : ReportRequest) (run : Run) (now db : Database)
    → OnlyArtifacts body run now db
    → Sound now db
OnlyArtifacts-Sound body run now db o = record {
  loops = subst (Kept now.loops) (sym (OnlyArtifacts-loops o)) (Kept-refl now.loops);
  one = λ one id.
      let same =
        sym (count-erased (live_exec id) (λ r. refl) db.runs)
        ∙ ap (count (live_exec id)) o.runs
        ∙ count-erased (live_exec id) (λ r. refl) now.runs in
      omega (arith, one id, same);
}

update_resolved-goes :
    (run : Run) (write : Run → Run) (guard : Bool) (db : Database)
    → guard ≡ true
    → any (resolved run) db.runs ≡ true
    → (bound : Database) × (update_resolved run write guard db ≡ some bound)
unfolding update_resolved
update_resolved-goes run write guard db holds here = (
  record db { runs = update_where (resolved run) write db.runs },
  rw (holds, here, update_resolved) refl,
)

apply-goes :
    (run : Run) (plan : ArtifactBindingPlan) (db : Database)
    → any (resolved run) db.runs ≡ true
    → ((id : ManifestId) (generation : ℕ)
        → plan ≡ bind id generation
        → generation_is generation (find_loop run.loop_id db.loops) ≡ true)
    → (bound : Database) × (apply_artifact_binding_plan run plan db ≡ some bound)
unfolding apply_artifact_binding_plan
apply-goes run skip db here guard = (db, refl)
apply-goes run (bind id generation) db here guard =
    update_resolved-goes run (bind_row id) _ db (guard id generation refl) here
apply-goes run (record_error reason) db here guard =
    update_resolved-goes run (error_row reason) true db refl here

-- On the database that was read, with the run and the loop that were found, no guard is lost.
pub bind_artifact-goes :
    (binding : ArtifactBinding) (body : ReportRequest) (run : Run) (loop : Option Loop)
    (db : Database)
    → any (resolved run) db.runs ≡ true
    → ((l : Loop) → loop ≡ some l → find_loop l.id db.loops ≡ some l)
    → (bound : Database) × (bind_artifact binding body run loop db db ≡ some bound)
unfolding bind_artifact plan_report_binding
bind_artifact-goes none body run loop db here found = (db, refl)
bind_artifact-goes (some resolve) body run none db here found = (db, refl)
bind_artifact-goes (some resolve) body run (some l) db here found =
    elim (Bool-cases (is_some body.artifact_snapshot_id || is_some body.artifact_sync_error)) [
      | inr plain ↦ (db, rw (plain, bind_artifact) refl)
      | inl carried ↦
          let plan = plan_report_binding (resolve run.machine_id db) body run l db in
          let (bound, e) = apply-goes run plan db here (λ id generation planned.
            let b = Binds-sound run l _ _ _ _ (resolve run.machine_id db) id generation planned in
            let at : find_loop run.loop_id db.loops ≡ some l =
              subst (λ k. find_loop k db.loops ≡ some l) (sym b.verified.loop_id) (found l refl) in
            rw at ((==_iff _ _).1 (sym b.current))) in
          (bound, rw (carried, bind_artifact) e)
    ]
