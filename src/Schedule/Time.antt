-- ===== src/Schedule/Time.antt =====
-- packages/server/src/schedule/time-semantics.ts: the occurrences of a schedule. An instant is the
-- number of milliseconds since the start of year 0, a year before the earliest that the code looks
-- at; a whole minute is one there too. The cron library is a parameter.
pub mod Next
pub mod Latest
pub mod Regular
use loop_platform_zhb.Base.{
  ℕ, zero, suc, ◌+◌, ◌-◌, ◌*◌, ◌/◌, ◌%◌, JsString, Bool, true, false, ◌&&◌, not, Option, none, some,
  leb, ltb, ◌==◌, if◌then◌else◌,
}

pub record NormalizedSchedule : Type 0 where
  pub cron : JsString
  pub timezone : JsString

-- The `croner` package: whether `new Cron(cron, { timezone, mode: "5-part" })` does not throw, and
-- `nextRun` and `match` of the object that it makes.
pub record CronApi : Type 0 where
  pub constructs : JsString → JsString → Bool
  pub next_run : NormalizedSchedule → ℕ → Option ℕ
  pub match : NormalizedSchedule → ℕ → Bool

-- A call returns a date or null, or throws.
pub data Occurrence : Type 0 where
  answer : Option ℕ → Occurrence
  threw : Occurrence

abbrev pub max_discontinuity_recovery_steps : ℕ
max_discontinuity_recovery_steps = 6000

unfoldable pub advance_within_five_part_minute : ℕ → ℕ
advance_within_five_part_minute cursor =
    let minute_end = (cursor / 60000) * 60000 + 59999 in
    if ltb cursor minute_end then minute_end else cursor + 1

-- One turn of the loop of `nextOccurrence` returns, or goes on from a cursor.
pub data Turn : Type 0 where
  return : Option ℕ → Turn
  continue : ℕ → Turn

unfoldable pub turn_on : CronApi → NormalizedSchedule → ℕ → Option ℕ → Turn
turn_on api schedule cursor none = return none
turn_on api schedule cursor (some candidate) =
    if leb candidate cursor
    then continue (advance_within_five_part_minute cursor)
    else if not (api.match schedule candidate)
    then continue candidate
    else return (some candidate)

-- The loop, with the turns that are left.
unfoldable pub next_from : CronApi → NormalizedSchedule → ℕ → ℕ → Occurrence
next_from api schedule zero cursor = threw
next_from api schedule (suc steps) cursor =
    elim (turn_on api schedule cursor (api.next_run schedule cursor)) [
      | return result ↦ answer result
      | continue next ↦ next_from api schedule steps next
    ]

unfoldable pub next_occurrence : CronApi → NormalizedSchedule → ℕ → Occurrence
next_occurrence api schedule after =
    if not (api.constructs schedule.cron schedule.timezone)
    then threw
    else next_from api schedule max_discontinuity_recovery_steps after

-- What the tests of `latestOccurrence` make of a call: a date up to `at`, another answer, or a throw.
pub data Tested : Type 0 where
  reached : ℕ → Tested
  beyond : Tested
  failed : Tested

unfoldable pub test_on : ℕ → Occurrence → Tested
test_on at (answer (some t)) = if leb t at then reached t else beyond
test_on at (answer none) = beyond
test_on at threw = failed

unfoldable pub next_until : CronApi → NormalizedSchedule → ℕ → ℕ → Tested
next_until api schedule at cursor = test_on at (next_occurrence api schedule cursor)

-- The result of a loop: its value, an early return of null, a throw, or no turn left.
pub data Search : Type 0 where
  low_at : ℕ → Search
  nothing : Search
  raised : Search
  unfinished : Search

abbrev pub smaller : ℕ → ℕ → ℕ
smaller a b = if leb a b then a else b

abbrev pub larger : ℕ → ℕ → ℕ
larger a b = if leb a b then b else a

-- the start of year 1
abbrev pub earliest : ℕ
earliest = 31622400000

-- `startMs` and `probeMs`
abbrev pub start_of : ℕ → ℕ → ℕ
start_of at window = larger earliest (at - window)

abbrev pub probe_of : ℕ → ℕ → ℕ
probe_of at window = larger earliest (start_of at window - 1)

-- The backward windows, which double until one reaches an occurrence or year 1.
unfoldable pub probe_back : CronApi → NormalizedSchedule → ℕ → ℕ → ℕ → Search
probe_back api schedule zero at window = unfinished
probe_back api schedule (suc turns) at window =
    elim (next_until api schedule at (probe_of at window)) [
      | failed ↦ raised
      | reached t ↦ low_at (probe_of at window)
      | beyond ↦ elim (start_of at window == earliest) [
        | true ↦ nothing
        | false ↦ probe_back api schedule turns at (smaller (window * 2) (at - earliest))
      ]
    ]

-- The bisection for the last cursor whose next occurrence is not after `at`.
unfoldable pub bisect : CronApi → NormalizedSchedule → ℕ → ℕ → ℕ → ℕ → Search
bisect api schedule at zero low high = if ltb 1 (high - low) then unfinished else low_at low
bisect api schedule at (suc turns) low high = elim (ltb 1 (high - low)) [
  | false ↦ low_at low
  | true ↦ elim (next_until api schedule at (low + (high - low) / 2)) [
    | failed ↦ raised
    | reached t ↦ bisect api schedule at turns (low + (high - low) / 2) high
    | beyond ↦ bisect api schedule at turns low (low + (high - low) / 2)
  ]
]

pub data LatestResult : Type 0 where
  found : Option ℕ → LatestResult
  latest_threw : LatestResult
  turns_spent : LatestResult

-- The turns allotted to each loop: instants are below 2 ^ 53.
abbrev pub latest_turns : ℕ
latest_turns = 53

abbrev pub final_test : Tested → LatestResult
final_test (reached t) = found (some t)
final_test beyond = found none
final_test failed = latest_threw

abbrev pub last_of : CronApi → NormalizedSchedule → ℕ → Search → LatestResult
last_of api schedule at (low_at low) = final_test (next_until api schedule at low)
last_of api schedule at nothing = found none
last_of api schedule at raised = latest_threw
last_of api schedule at unfinished = turns_spent

-- The bisection starts from the cursor that the backward search found.
abbrev pub bisected : CronApi → NormalizedSchedule → ℕ → Search → Search
bisected api schedule at (low_at low) = bisect api schedule at latest_turns low at
bisected api schedule at nothing = nothing
bisected api schedule at raised = raised
bisected api schedule at unfinished = unfinished

unfoldable pub latest_occurrence : CronApi → NormalizedSchedule → ℕ → LatestResult
latest_occurrence api schedule at =
    last_of api schedule at
      (bisected api schedule at (probe_back api schedule latest_turns at 120000))

-- `next !== null && next.getTime() === at.getTime()`; a throw is passed on.
unfoldable pub is_occurrence_on : ℕ → Occurrence → Option Bool
is_occurrence_on at (answer (some t)) = some (t == at)
is_occurrence_on at (answer none) = some false
is_occurrence_on at threw = none

unfoldable pub is_occurrence : CronApi → NormalizedSchedule → ℕ → Option Bool
is_occurrence api schedule at = is_occurrence_on at (next_occurrence api schedule (at - 1))
