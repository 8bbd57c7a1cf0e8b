-- ===== src/Lifecycle/Report/Laws.antt =====
-- packages/server/src/loop-lifecycle/index.ts: the report decision, and what it does to the run.
use loop_platform_zhb.Base.{
  ◌≡◌, refl, ◌⊎◌, inl, inr, JsString, true, Option, none, some, arith, Option-cases, is_some,
}
use loop_platform_zhb.Terminal.State.{JsValue}
use loop_platform_zhb.Db.{IsoTime, Loop, Run, RunPhase, RunOutcome}
use loop_platform_zhb.WriteSet.{TerminalCommand, ReportRequest, RunWrites, build_report_write_set}
use loop_platform_zhb.Lifecycle.{
  LeaseAuthSnapshot, CompletionWrites, FinishPlan, FinishClassification, plan_finish,
}
use loop_platform_zhb.Lifecycle.Report.{
  TerminalFacts, terminal_facts, terminal_state, terminal_protocol_invalid_text, checked_state,
  success_run_writes, stable_run_failure, classification_text, plan_plain_report,
  plan_finish_report, plan_settled, plan_success, plan_report_writes, run_writes_of,
}

-- How a run ends: with success and no error, or with an error text.
abbrev pub Ends : RunWrites → Type 0
Ends w =
    ((w.phase ≡ RunPhase.done) × (w.outcome ≡ some RunOutcome.exec) × (w.error ≡ none))
    ⊎ ((w.phase ≡ RunPhase.error) × (w.outcome ≡ some RunOutcome.error) × (is_some w.error ≡ true))

pub build-Ends :
    (body : ReportRequest) (run : Run) (now_iso : IsoTime)
    → Ends (build_report_write_set body run now_iso)
unfolding build_report_write_set
build-Ends body run now_iso = ground arith

pub failure-Ends :
    (run : Run) (c : JsString) (now_iso : IsoTime) → Ends (stable_run_failure run c now_iso)
unfolding stable_run_failure
failure-Ends run c now_iso = build-Ends _ run now_iso

success-Ends :
    (body : ReportRequest) (run : Run) (facts : TerminalFacts) (state : Option JsValue)
    (now_iso : IsoTime)
    → Ends (success_run_writes body run facts state now_iso)
unfolding success_run_writes
success-Ends body run facts state now_iso = inl (refl, refl, refl)

pub FinishPlan-cases :
    (p : FinishPlan)
    → ((w : CompletionWrites) × (p ≡ FinishPlan.allowed w))
      ⊎ ((c : FinishClassification) × (p ≡ FinishPlan.rejected c))
FinishPlan-cases (FinishPlan.allowed w) = inl (w, refl)
FinishPlan-cases (FinishPlan.rejected c) = inr (c, refl)

module _ (loop : Loop) (lease : LeaseAuthSnapshot) (run : Run) (body : ReportRequest)
    (now_iso : IsoTime) where
  settled-Ends :
      (facts : TerminalFacts) (state : Option JsValue) (reason : Option JsString)
      → Ends (run_writes_of (plan_settled loop lease run body facts state reason now_iso))
  unfolding plan_plain_report plan_finish_report
  settled-Ends facts state none = ground (
    arith,
    success-Ends body run facts state now_iso,
    failure-Ends run (classification_text FinishClassification.invalid_loop_state) now_iso,
  )
  settled-Ends facts state (some reason) =
      elim (FinishPlan-cases (plan_finish loop lease reason now_iso)) [
        | inl (w, e) ↦ ground (
          arith,
          success-Ends body run facts state now_iso,
          failure-Ends run (classification_text FinishClassification.invalid_loop_state) now_iso,
        )
        | inr (c, e) ↦ ground (
          arith,
          failure-Ends run (classification_text c) now_iso,
          failure-Ends run (classification_text FinishClassification.invalid_loop_state) now_iso,
        )
      ]

  invalid-Ends : Ends (stable_run_failure run terminal_protocol_invalid_text now_iso)
  invalid-Ends = failure-Ends run terminal_protocol_invalid_text now_iso

  success_plan-Ends :
      (terminal : TerminalCommand)
      → Ends (run_writes_of (plan_success loop lease run body terminal now_iso))
  unfolding plan_success
  success_plan-Ends terminal = elim (Option-cases (terminal_facts terminal)) [
    | inl refused ↦ ground (arith, invalid-Ends)
    | inr (facts, e) ↦ elim (Option-cases (checked_state (terminal_state terminal))) [
      | inl refused ↦ ground (arith, invalid-Ends)
      | inr (state, f) ↦ ground (arith, invalid-Ends, settled-Ends facts state facts.finish_reason)
    ]
  ]

  -- Every report ends its run: as done with an exec outcome and no error, or as an error with an
  -- error text.
  pub plan_report_writes-Ends :
      Ends (run_writes_of (plan_report_writes loop lease run body now_iso))
  unfolding plan_report_writes
  plan_report_writes-Ends = elim (Option-cases body.terminal) [
    | inl missing ↦ ground (arith, invalid-Ends, build-Ends body run now_iso)
    | inr (terminal, e) ↦
        ground (arith, invalid-Ends, build-Ends body run now_iso, success_plan-Ends terminal)
  ]
