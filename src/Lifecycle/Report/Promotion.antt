-- ===== src/Lifecycle/Report/Promotion.antt =====
-- packages/server/src/loop-lifecycle/index.ts: the reports that write their loop.
use loop_platform_zhb.Base.{
  ◌≡◌, refl, inl, inr, sym, subst, JsString, true, Option, none, some, arith, Option-cases,
}
use loop_platform_zhb.Terminal.{text_ok, validate_finish_reason}
use loop_platform_zhb.Terminal.State.{JsValue}
use loop_platform_zhb.Db.{IsoTime, Loop, Run}
use loop_platform_zhb.WriteSet.{TerminalCommand, report, finish, ReportRequest}
use loop_platform_zhb.Lifecycle.{
  LeaseAuthSnapshot, CompletionWrites, FinishPlan, is_valid_loop_snapshot, plan_finish,
  completion_writes,
}
use loop_platform_zhb.Lifecycle.Snapshot.{IsValid, is_valid_loop_snapshot-IsValid}
use loop_platform_zhb.Lifecycle.Finish.{MayFinish, plan_finish_iff}
use loop_platform_zhb.Lifecycle.Report.{
  LoopV1Writes, TerminalFacts, terminal_facts, terminal_state, checked_state, loop_v1_writes,
  plan_plain_report, plan_finish_report, plan_settled, plan_success, plan_report_writes,
  loop_writes_of, apply_loop_v1_writes,
}
use loop_platform_zhb.Lifecycle.Report.Laws.{FinishPlan-cases}

-- A completion patch that a finish with an acceptable reason allows.
pub data Completes (loop : Loop) (lease : LeaseAuthSnapshot) (now_iso : IsoTime)
    : Option CompletionWrites → Type 0 where
  plain : Completes loop lease now_iso none
  finishing :
      (reason : JsString)
      → text_ok (validate_finish_reason reason) ≡ true
      → MayFinish loop lease
      → Completes loop lease now_iso (some (completion_writes loop reason now_iso))

-- The circumstances in which a report writes its loop.
pub record Promotes (loop : Loop) (lease : LeaseAuthSnapshot) (body : ReportRequest)
    (now_iso : IsoTime) (writes : LoopV1Writes) : Type 0 where
  pub version : lease.terminal_protocol_version ≡ 1
  pub success : body.ok ≡ true
  pub valid : IsValid loop
  pub not_completed : loop.completed_at ≡ none
  pub completes : Completes loop lease now_iso writes.completion

facts-reason :
    (terminal : TerminalCommand) (facts : TerminalFacts) (reason : JsString)
    → terminal_facts terminal ≡ some facts
    → facts.finish_reason ≡ some reason
    → text_ok (validate_finish_reason reason) ≡ true
unfolding terminal_facts
facts-reason (report status message state) facts reason h k = ground arith
facts-reason (finish r message state) facts reason h k = ground arith

module _ (loop : Loop) (lease : LeaseAuthSnapshot) (run : Run) (body : ReportRequest)
    (now_iso : IsoTime) (writes : LoopV1Writes) where
  plain_writes :
      (facts : TerminalFacts) (state : Option JsValue)
      → loop_writes_of (plan_plain_report loop run body facts state now_iso) ≡ some writes
      → (is_valid_loop_snapshot loop ≡ true)
        × (loop.completed_at ≡ none)
        × (writes ≡ loop_v1_writes body state none now_iso)
  unfolding plan_plain_report
  plain_writes facts state h = (ground arith, ground arith, ground arith)

  finish_writes :
      (facts : TerminalFacts) (state : Option JsValue) (reason : JsString)
      → loop_writes_of (plan_finish_report loop lease run body facts state reason now_iso)
        ≡ some writes
      → (w : CompletionWrites) × (plan_finish loop lease reason now_iso ≡ FinishPlan.allowed w)
        × (writes ≡ loop_v1_writes body state (some w) now_iso)
  unfolding plan_finish_report
  finish_writes facts state reason h =
      elim (FinishPlan-cases (plan_finish loop lease reason now_iso)) [
        | inl (w, e) ↦ (w, e, ground arith)
        | inr (c, e) ↦ absurd (ground arith)
      ]

  settled-Completes :
      (facts : TerminalFacts) (state : Option JsValue) (reason : Option JsString)
      → ((r : JsString) → reason ≡ some r → text_ok (validate_finish_reason r) ≡ true)
      → loop_writes_of (plan_settled loop lease run body facts state reason now_iso) ≡ some writes
      → IsValid loop × (loop.completed_at ≡ none) × Completes loop lease now_iso writes.completion
  unfolding loop_v1_writes
  settled-Completes facts state none fits h =
      let (v, open_yet, e) = plain_writes facts state h in
      (
        (is_valid_loop_snapshot-IsValid loop).0 v,
        open_yet,
        subst (λ w. Completes loop lease now_iso w.completion) (sym e) plain,
      )
  settled-Completes facts state (some reason) fits h =
      let (w, allowed, e) = finish_writes facts state reason h in
      let (m, same) = (plan_finish_iff loop lease reason now_iso w).0 allowed in
      (
        m.valid,
        m.not_completed,
        subst (λ v. Completes loop lease now_iso v.completion) (sym e)
            (subst (λ v. Completes loop lease now_iso (some v)) (sym same)
              (finishing reason (fits reason refl) m)),
      )

  success-Completes :
      (terminal : TerminalCommand)
      → loop_writes_of (plan_success loop lease run body terminal now_iso) ≡ some writes
      → IsValid loop × (loop.completed_at ≡ none) × Completes loop lease now_iso writes.completion
  unfolding plan_success
  success-Completes terminal h = elim (Option-cases (terminal_facts terminal)) [
    | inl refused ↦ absurd (ground arith)
    | inr (facts, e) ↦ elim (Option-cases (checked_state (terminal_state terminal))) [
      | inl refused ↦ absurd (ground arith)
      | inr (state, f) ↦
          settled-Completes facts state facts.finish_reason
            (λ r k. facts-reason terminal facts r e k) (ground arith)
    ]
  ]

  -- A report writes its loop only if it is a success on a version-1 lease and the loop is valid and
  -- not completed; it completes the loop only if the lease may finish it, with an acceptable
  -- reason.
  pub plan_report_writes-Promotes :
      loop_writes_of (plan_report_writes loop lease run body now_iso) ≡ some writes
      → Promotes loop lease body now_iso writes
  unfolding plan_report_writes
  plan_report_writes-Promotes h = elim (Option-cases body.terminal) [
    | inl missing ↦ absurd (ground arith)
    | inr (terminal, e) ↦
        let (v, open_yet, c) = success-Completes terminal (ground arith) in
        record {
          version = ground arith;
          success = ground arith;
          valid = v;
          not_completed = open_yet;
          completes = c;
        }
  ]

Completes-IsValid :
    (loop : Loop) (lease : LeaseAuthSnapshot) (now_iso : IsoTime) (writes : LoopV1Writes)
    {completion : Option CompletionWrites}
    → IsValid loop
    → writes.completion ≡ completion
    → Completes loop lease now_iso completion
    → IsValid (apply_loop_v1_writes writes loop)
unfolding apply_loop_v1_writes completion_writes
Completes-IsValid loop lease now_iso writes v e plain = ground arith
Completes-IsValid loop lease now_iso writes v e (finishing reason fits m) = ground arith

-- Where a report writes its loop, the row it leaves is valid.
pub plan_report_writes-IsValid :
    (loop : Loop) (lease : LeaseAuthSnapshot) (run : Run) (body : ReportRequest) (now_iso : IsoTime)
    (writes : LoopV1Writes)
    → loop_writes_of (plan_report_writes loop lease run body now_iso) ≡ some writes
    → IsValid (apply_loop_v1_writes writes loop)
plan_report_writes-IsValid loop lease run body now_iso writes h =
    let p = plan_report_writes-Promotes loop lease run body now_iso writes h in
    Completes-IsValid loop lease now_iso writes p.valid refl p.completes
