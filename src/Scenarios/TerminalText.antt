-- ===== src/Scenarios/TerminalText.antt =====
-- The text policies on concrete texts.
use loop_platform_zhb.Base.{
  ◌≡◌, refl, ◌↔◌, ◌≢◌, JsString, js, Option, some, none, List, [], ◌∷◌, false, true, ◌≤◌, ltb,
}
use loop_platform_zhb.Base
use loop_platform_zhb.Terminal.{
  GoalValidation, normalize_goal, check_goal, utf8_bytes_exceed, has_unpaired_surrogate,
}
use loop_platform_zhb.Terminal.Goal.{IsGoal, normalize_goal_iff}

abbrev padded : JsString
padded = js "  ship it\n"

abbrev trimmed : JsString
trimmed = js "ship it"

normalize_goal_iff_example :
    (normalize_goal padded ≡ GoalValidation.ok trimmed)
    ↔ ((trimmed ≡ Base.trim padded) × IsGoal trimmed)
normalize_goal_iff_example = normalize_goal_iff padded trimmed

accepted : normalize_goal padded ≡ GoalValidation.ok trimmed
unfolding normalize_goal check_goal utf8_bytes_exceed has_unpaired_surrogate Base.trim
    Base.trim_start Base.trim_end Base.includes Base.is_whitespace Base.utf8_length Base.str_eq
accepted = refl

-- A high surrogate without its low half.
abbrev torn : JsString
torn = 65 ∷ 0xd83d ∷ []

torn_is_found : has_unpaired_surrogate torn ≡ true
unfolding has_unpaired_surrogate
torn_is_found = refl
