-- ===== src/Schedule/Validate.antt =====
-- packages/server/src/schedule/time-semantics.ts: validation and normalisation of a cron expression
-- with its timezone. The constructor of the cron library and `Intl` are parameters.
pub mod Normal
use loop_platform_zhb.Base.{
  ℕ, suc, ◌+◌, ◌*◌, ◌-◌, JsString, js, Bool, true, false, ◌&&◌, ◌||◌, not, Option, none, some, List,
  [], ◌∷◌, length, leb, ltb, ◌==◌, if◌then◌else◌, str_eq, includes, is_whitespace, trim,
}
use loop_platform_zhb.Artifact.{split, starts_with}
use loop_platform_zhb.Schedule.Time.{NormalizedSchedule, CronApi}

-- The cron library, and whether `new Intl.DateTimeFormat("en-US", { timeZone })` does not throw.
pub record ZoneApi : Type 0 where
  pub cron : CronApi
  pub formats : JsString → Bool

-- The field and the rule that failed.
pub data ScheduleFailure : Type 0 where
  cron_contains_nul cron_too_long cron_empty cron_macro cron_segments : ScheduleFailure
  minute_out_of_range hour_out_of_range day_out_of_range month_out_of_range : ScheduleFailure
  cron_invalid timezone_contains_nul timezone_too_long timezone_empty timezone_unrecognized :
      ScheduleFailure

pub data ScheduleValidation : Type 0 where
  ok : NormalizedSchedule → ScheduleValidation
  failed : ScheduleFailure → ScheduleValidation

abbrev pub max_field_length : ℕ
max_field_length = 255

-- `.replace(/\s+/g, " ")`: a run of white space is one blank; a rest that starts with a blank starts
-- with white space.
unfoldable pub push_blank : JsString → JsString
push_blank [] = 32 ∷ []
push_blank (c ∷ rest) = if c == 32 then c ∷ rest else 32 ∷ c ∷ rest

unfoldable pub collapse : JsString → JsString
unfolding push_blank
collapse [] = []
collapse (c ∷ s) = let rest = collapse s in if is_whitespace c then push_blank rest else c ∷ rest

unfoldable pub normalize_cron : JsString → JsString
normalize_cron cron = collapse (trim cron)

-- The decimal digits at the start of a text, after an optional plus: `Number.parseInt(value, 10)`
-- of a text without blanks and without a minus.
unfoldable pub digits_from : ℕ → JsString → ℕ
digits_from value [] = value
digits_from value (c ∷ s) =
    let more = digits_from (value * 10 + (c - 48)) s in if leb 48 c && leb c 57 then more else value

abbrev pub drop_plus : JsString → JsString
drop_plus [] = []
drop_plus (c ∷ s) = if c == b'+' then s else c ∷ s

abbrev pub starts_with_digit : JsString → Bool
starts_with_digit [] = false
starts_with_digit (c ∷ s) = leb 48 c && leb c 57

unfoldable pub parse_int : JsString → Option ℕ
parse_int value =
    if starts_with_digit (drop_plus value) then some (digits_from 0 (drop_plus value)) else none

abbrev pub outside : ℕ → ℕ → Option ℕ → Bool
outside min max none = false
outside min max (some num) = ltb num min || ltb max num

-- `checkRange`: whether it throws.
unfoldable pub out_of_range : ℕ → ℕ → JsString → Bool
out_of_range min max value =
    if str_eq value (js "*") || includes value b'-' || includes value b',' || includes value b'/'
    then false
    else outside min max (parse_int value)

-- The checks of the segments, which stop at a count other than five.
unfoldable pub check_segments : List JsString → Option ScheduleFailure
check_segments (minute ∷ hour ∷ day ∷ month ∷ weekday ∷ []) =
    if out_of_range 0 59 minute
    then some minute_out_of_range
    else if out_of_range 0 23 hour
    then some hour_out_of_range
    else if out_of_range 1 31 day
    then some day_out_of_range
    else if out_of_range 1 12 month
    then some month_out_of_range
    else none
check_segments _ = some cron_segments

-- The checks of a normalised expression.
unfoldable pub check_cron : CronApi → JsString → Option ScheduleFailure
check_cron api cron =
    if str_eq cron []
    then some cron_empty
    else if starts_with (js "@") cron
    then some cron_macro
    else elim (check_segments (split 32 cron)) [
      | some failure ↦ some failure
      | none ↦ if api.constructs cron (js "UTC") then none else some cron_invalid
    ]

-- The checks of a trimmed timezone.
unfoldable pub check_timezone : ZoneApi → JsString → Option ScheduleFailure
check_timezone api timezone =
    if str_eq timezone []
    then some timezone_empty
    else if not (api.cron.constructs (js "0 0 * * *") timezone)
    then some timezone_unrecognized
    else if not (api.formats timezone)
    then some timezone_unrecognized
    else none

-- The checks of a raw text that stand before its normalisation.
unfoldable pub check_raw : ScheduleFailure → ScheduleFailure → JsString → Option ScheduleFailure
check_raw contains_nul too_long raw =
    if includes raw 0
    then some contains_nul
    else if ltb max_field_length (length raw)
    then some too_long
    else none

-- The first of two failures.
abbrev pub or_else : Option ScheduleFailure → Option ScheduleFailure → Option ScheduleFailure
or_else (some failure) later = some failure
or_else none later = later

abbrev pub settle : NormalizedSchedule → Option ScheduleFailure → ScheduleValidation
settle schedule none = ok schedule
settle schedule (some failure) = failed failure

unfoldable pub validate_schedule : ZoneApi → JsString → JsString → ScheduleValidation
validate_schedule api cron timezone =
    settle (record { cron = normalize_cron cron; timezone = trim timezone })
      (or_else (check_raw cron_contains_nul cron_too_long cron) (
        or_else (check_cron api.cron (normalize_cron cron)) (
          or_else (check_raw timezone_contains_nul timezone_too_long timezone)
            (check_timezone api (trim timezone)))))
