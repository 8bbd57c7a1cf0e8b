-- ===== src/Terminal.antt =====
-- packages/protocol/src/terminal-policy.ts: the value rules for goals, terminal texts, task-file
-- sync results and capability snapshots. A rejected value carries its stable classification.
pub mod Unicode
pub mod Goal
pub mod Capabilities
pub mod State
use loop_platform_zhb.Base.{
  ℕ, suc, JsString, js, ◌≡◌, Bool, true, false, ◌&&◌, ◌||◌, not, Option, none, some, List, [], ◌∷◌,
  length, ltb, leb, ◌==◌, if◌then◌else◌, str_eq, includes, trim, is_high, is_low, utf8_length,
  is_some,
}

-- A text longer than the limit in code units is over it without being encoded.
unfoldable pub utf8_bytes_exceed : JsString → ℕ → Bool
utf8_bytes_exceed value max_bytes =
    if ltb max_bytes (length value) then true else ltb max_bytes (utf8_length value)

-- Past the end `charCodeAt` is NaN, which fails the pair test.
unfoldable pub has_unpaired_surrogate : JsString → Bool
has_unpaired_surrogate [] = false
has_unpaired_surrogate (c ∷ []) = is_high c || is_low c
has_unpaired_surrogate (c ∷ d ∷ s) =
    let after_pair = has_unpaired_surrogate s in
    let after_unit = has_unpaired_surrogate (d ∷ s) in
    if is_high c
    then (if is_low d then after_pair else true)
    else (if is_low c then true else after_unit)

unfoldable pub is_pg_representable_text : JsString → Bool
is_pg_representable_text value = not (includes value 0) && not (has_unpaired_surrogate value)

abbrev pub goal_max_utf8_bytes : ℕ
goal_max_utf8_bytes = 2000

pub data GoalValidationFailure : Type 0 where
  empty contains_nul not_single_line malformed_unicode too_long : GoalValidationFailure

pub data GoalValidation : Type 0 where
  ok : JsString → GoalValidation
  rejected : GoalValidationFailure → GoalValidation

-- the guards of `normalizeGoal`, on the trimmed text
unfoldable pub check_goal : JsString → GoalValidation
check_goal goal =
    if str_eq goal []
    then rejected empty
    else if includes goal 0
    then rejected contains_nul
    else if includes goal b'\r' || includes goal b'\n'
    then rejected not_single_line
    else if has_unpaired_surrogate goal
    then rejected malformed_unicode
    else if utf8_bytes_exceed goal goal_max_utf8_bytes
    then rejected too_long
    else ok goal

unfoldable pub normalize_goal : JsString → GoalValidation
normalize_goal raw = check_goal (trim raw)

abbrev pub terminal_text_max_utf8_bytes : ℕ
terminal_text_max_utf8_bytes = 2000

pub data TerminalTextFailure : Type 0 where
  empty contains_nul malformed_unicode too_long : TerminalTextFailure

pub data TerminalTextValidation : Type 0 where
  ok : TerminalTextValidation
  rejected : TerminalTextFailure → TerminalTextValidation

unfoldable pub validate_terminal_text : JsString → Bool → TerminalTextValidation
validate_terminal_text raw require_non_empty =
    if require_non_empty && str_eq raw []
    then rejected empty
    else if includes raw 0
    then rejected contains_nul
    else if has_unpaired_surrogate raw
    then rejected malformed_unicode
    else if utf8_bytes_exceed raw terminal_text_max_utf8_bytes
    then rejected too_long
    else ok

unfoldable pub validate_terminal_message : JsString → TerminalTextValidation
validate_terminal_message raw = validate_terminal_text raw false

unfoldable pub validate_finish_reason : JsString → TerminalTextValidation
validate_finish_reason raw = validate_terminal_text raw true

-- `result.ok`
abbrev pub text_ok : TerminalTextValidation → Bool
text_ok ok = true
text_ok (rejected failure) = false

-- the wire's `TASK_FILE_SYNC_ERRORS`
pub data TaskFileSyncError : Type 0 where
  missing unreadable outside_jail changed too_large : TaskFileSyncError

abbrev pub task_file_content_max_utf8_bytes : ℕ
task_file_content_max_utf8_bytes = 262144

pub data TaskFileSyncFailure : Type 0 where
  both_present both_missing content_not_representable content_too_large : TaskFileSyncFailure

pub data TaskFileSyncValidation : Type 0 where
  ok : TaskFileSyncValidation
  rejected : TaskFileSyncFailure → TaskFileSyncValidation

unfoldable pub validate_task_file_sync_result :
    Option JsString → Option TaskFileSyncError → TaskFileSyncValidation
validate_task_file_sync_result (some content) (some error) = rejected both_present
validate_task_file_sync_result none none = rejected both_missing
validate_task_file_sync_result (some content) none =
    if not (is_pg_representable_text content)
    then rejected content_not_representable
    else if utf8_bytes_exceed content task_file_content_max_utf8_bytes
    then rejected content_too_large
    else ok
validate_task_file_sync_result none (some error) = ok

abbrev pub sync_ok : TaskFileSyncValidation → Bool
sync_ok ok = true
sync_ok (rejected failure) = false

abbrev pub terminal_journal_v1_capability : JsString
terminal_journal_v1_capability = js "terminal-journal-v1"

-- `a < b` on strings: by code units
unfoldable pub str_lt : JsString → JsString → Bool
str_lt s [] = false
str_lt [] (d ∷ t) = true
str_lt (c ∷ s) (d ∷ t) = ltb c d || (c == d && str_lt s t)

-- `[...new Set(input)].sort()`: each value goes to its place, and one that is there stays alone.
unfoldable pub insert_sorted : JsString → List JsString → List JsString
insert_sorted x [] = x ∷ []
insert_sorted x (y ∷ ys) =
    let rest = insert_sorted x ys in
    if str_lt x y then x ∷ y ∷ ys else if str_eq x y then y ∷ ys else y ∷ rest

unfoldable pub sorted_set : List JsString → List JsString
unfolding insert_sorted
sorted_set [] = []
sorted_set (x ∷ xs) = insert_sorted x (sorted_set xs)

unfoldable pub normalize_capabilities : Option (List JsString) → Option (List JsString)
normalize_capabilities none = none
normalize_capabilities (some input) = some (sorted_set input)

unfoldable pub contains : List JsString → JsString → Bool
contains [] x = false
contains (y ∷ ys) x = str_eq y x || contains ys x

unfoldable pub has_terminal_journal_v1 : Option (List JsString) → Bool
has_terminal_journal_v1 none = false
has_terminal_journal_v1 (some capabilities) = contains capabilities terminal_journal_v1_capability
