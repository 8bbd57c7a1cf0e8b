-- ===== src/Schedule/Iso.antt =====
-- packages/server/src/schedule/time-semantics.ts: the accepted subset of RFC 3339, the canonical
-- spelling, and the validity of a persisted schedule. The calendar of the platform is a parameter.
use loop_platform_zhb.Base.{
  ℕ, max_safe_integer, zero, suc, ◌+◌, ◌*◌, ◌-◌, ◌^◌, JsString, Bool, true, false, ◌&&◌, ◌||◌, not,
  Option, none, some, [], ◌∷◌, leb, ltb, ◌==◌, if◌then◌else◌, str_eq, ◌>>=◌,
}
use loop_platform_zhb.Schedule.Validate.{ZoneApi, ScheduleValidation, ok, failed, validate_schedule}

-- The fields that a wall clock is written with.
pub record WallClock : Type 0 where
  pub year : ℕ
  pub month : ℕ
  pub day : ℕ
  pub hour : ℕ
  pub minute : ℕ
  pub second : ℕ
  pub millisecond : ℕ

-- `Date` of the platform: the instant that `setUTCFullYear` and `setUTCHours` give, where the UTC
-- getters read the same fields back; and `new Date(ms).toISOString()`.
pub record Calendar : Type 0 where
  pub instant : WallClock → Option ℕ
  pub to_iso : ℕ → JsString

-- `(\d{n})`, and the text after it.
unfoldable pub number : ℕ → ℕ → JsString → Option (ℕ × JsString)
number zero value s = some (value, s)
number (suc n) value [] = none
number (suc n) value (c ∷ s) =
    let rest = number n (value * 10 + (c - 48)) s in if leb 48 c && leb c 57 then rest else none

unfoldable pub expect : ℕ → JsString → Option JsString
expect c [] = none
expect c (d ∷ s) = if d == c then some s else none

-- Up to three digits, padded at the end with zeros.
unfoldable pub fraction_digits : ℕ → ℕ → JsString → ℕ × JsString
fraction_digits zero value s = (value, s)
fraction_digits (suc n) value [] = (value * 10 ^ suc n, [])
fraction_digits (suc n) value (c ∷ s) =
    let rest = fraction_digits n (value * 10 + (c - 48)) s in
    if leb 48 c && leb c 57 then rest else (value * 10 ^ suc n, c ∷ s)

-- `(?:\.(\d{1,3}))?`
unfoldable pub fraction : JsString → Option (ℕ × JsString)
fraction [] = some (0, [])
fraction (c ∷ s) =
    if c == b'.'
    then number 1 0 s >>= (λ (first, rest). some (fraction_digits 2 first rest))
    else some (0, c ∷ s)

-- The offset in minutes, and whether it stands behind a minus.
pub record Offset : Type 0 where
  pub minus : Bool
  pub hour : ℕ
  pub minute : ℕ

-- `([+-])(\d{2}):(\d{2})$`
unfoldable pub signed_offset : Bool → JsString → Option Offset
signed_offset minus s = do
  (hour, s) ← number 2 0 s
  s ← expect b':' s
  (minute, s) ← number 2 0 s
  if str_eq s [] then some (record { minus = minus; hour = hour; minute = minute }) else none

-- `(Z|([+-])(\d{2}):(\d{2}))$`
unfoldable pub zone : JsString → Option Offset
zone [] = none
zone (c ∷ s) =
    if c == b'Z'
    then (if str_eq s [] then some (record { minus = false; hour = 0; minute = 0 }) else none)
    else if c == b'+'
    then signed_offset false s
    else if c == b'-'
    then signed_offset true s
    else none

unfoldable pub read_rfc3339 : JsString → Option (WallClock × Offset)
read_rfc3339 value = do
  (year, s) ← number 4 0 value
  s ← expect b'-' s
  (month, s) ← number 2 0 s
  s ← expect b'-' s
  (day, s) ← number 2 0 s
  s ← expect b'T' s
  (hour, s) ← number 2 0 s
  s ← expect b':' s
  (minute, s) ← number 2 0 s
  s ← expect b':' s
  (second, s) ← number 2 0 s
  (millisecond, s) ← fraction s
  offset ← zone s
  some (
    record {
      year = year;
      month = month;
      day = day;
      hour = hour;
      minute = minute;
      second = second;
      millisecond = millisecond;
    },
    offset,
  )

abbrev pub out_of_calendar : WallClock → Offset → Bool
out_of_calendar w o =
    ltb w.year 1
    || ltb w.month 1
    || ltb 12 w.month
    || ltb w.day 1
    || ltb 31 w.day
    || ltb 23 w.hour
    || ltb 59 w.minute
    || ltb 59 w.second
    || ltb 23 o.hour
    || ltb 59 o.minute

abbrev pub offset_ms : Offset → ℕ
offset_ms o = (o.hour * 60 + o.minute) * 60000

unfoldable pub parse_rfc3339_ms : Calendar → JsString → Option ℕ
parse_rfc3339_ms calendar value = do
  (wall, offset) ← read_rfc3339 value
  wall_ms ← if out_of_calendar wall offset then none else calendar.instant wall
  some (if offset.minus then wall_ms + offset_ms offset else wall_ms - offset_ms offset)

unfoldable pub is_canonical_utc_iso : Calendar → JsString → Bool
is_canonical_utc_iso calendar value = elim (parse_rfc3339_ms calendar value) [
  | none ↦ false
  | some ms ↦ str_eq (calendar.to_iso ms) value
]

pub record PersistedScheduleState : Type 0 where
  pub cron : JsString
  pub timezone : JsString
  pub schedule_revision : ℕ
  pub schedule_activated_at : Option JsString
  pub last_scheduled_at : Option JsString

-- `value === null || !isCanonicalUtcIso(value)`, and its negation for a value that may be null
abbrev pub activation_ok : Calendar → Option JsString → Bool
activation_ok calendar none = false
activation_ok calendar (some value) = is_canonical_utc_iso calendar value

abbrev pub watermark_ok : Calendar → Option JsString → Bool
watermark_ok calendar none = true
watermark_ok calendar (some value) = is_canonical_utc_iso calendar value

abbrev pub is_normalized : ScheduleValidation → JsString → JsString → Bool
is_normalized (ok n) cron timezone = str_eq n.cron cron && str_eq n.timezone timezone
is_normalized (failed failure) cron timezone = false

unfoldable pub is_valid_persisted_schedule_state :
    ZoneApi → Calendar → PersistedScheduleState → Bool
is_valid_persisted_schedule_state api calendar state =
    if not
      (is_normalized (validate_schedule api state.cron state.timezone) state.cron state.timezone)
    then false
    else if ltb max_safe_integer state.schedule_revision
    then false
    else if not (activation_ok calendar state.schedule_activated_at)
    then false
    else if not (watermark_ok calendar state.last_scheduled_at)
    then false
    else true
