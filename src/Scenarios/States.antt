-- ===== src/Scenarios/States.antt =====
-- Terminal states: a counter, and an array with a hole.
use loop_platform_zhb.Base.{◌≡◌, ◌≢◌, ◌↔◌, refl, js, true, [], JsString, Bool}
use loop_platform_zhb.Terminal.State.{
  JsValue, number, array, object, Items, nil, cons, hole, Props, end, prop, TerminalStateValidation,
  ok, rejected, unfinished, TerminalStateFailure, not_json, outcome, clone_terminal_state,
  validate_terminal_state,
}
use loop_platform_zhb.Terminal.State.Direct.{clone}
use loop_platform_zhb.Terminal.State.Accepted.{
  IsState, answer, clone_terminal_state-clone, validate_terminal_state_iff,
}

abbrev counter : JsValue
counter = object true (prop (js "count") (number true (js "1")) end)

counter_accepted : validate_terminal_state counter ≡ ok counter
unfolding validate_terminal_state clone_terminal_state outcome loop_platform_zhb.Terminal.State.run
    loop_platform_zhb.Terminal.State.turns loop_platform_zhb.Terminal.State.step
    loop_platform_zhb.Terminal.State.visit loop_platform_zhb.Terminal.State.resume
    loop_platform_zhb.Terminal.is_pg_representable_text loop_platform_zhb.Base.includes
    loop_platform_zhb.Terminal.has_unpaired_surrogate loop_platform_zhb.Terminal.State.string_bytes
    loop_platform_zhb.Base.utf8_length loop_platform_zhb.Terminal.State.escapes
    loop_platform_zhb.Terminal.State.attach
counter_accepted = refl

validate_terminal_state_iff_example :
    (validate_terminal_state counter ≡ ok counter) ↔ ((counter ≡ counter) × IsState counter)
validate_terminal_state_iff_example = validate_terminal_state_iff counter counter

abbrev sparse : JsValue
sparse = array (cons (number true (js "1")) (hole nil))

sparse_refused : clone_terminal_state sparse ≡ rejected not_json
unfolding clone_terminal_state outcome loop_platform_zhb.Terminal.State.run
    loop_platform_zhb.Terminal.State.turns loop_platform_zhb.Terminal.State.step
    loop_platform_zhb.Terminal.State.visit loop_platform_zhb.Terminal.State.resume
    loop_platform_zhb.Terminal.State.attach
sparse_refused = refl

clone_terminal_state-clone_example :
    (clone_terminal_state sparse ≢ unfinished)
    × (clone_terminal_state sparse ≡ answer (clone sparse))
clone_terminal_state-clone_example = clone_terminal_state-clone sparse
