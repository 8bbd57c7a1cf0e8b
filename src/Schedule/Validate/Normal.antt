-- ===== src/Schedule/Validate/Normal.antt =====
-- packages/server/src/schedule/time-semantics.ts: an accepted schedule is its own normal form.
use loop_platform_zhb.Base.{
  ℕ, suc, ◌≤◌, ◌≡◌, refl, ap, sym, subst, ◌∙◌, ◌≢◌, inl, inr, JsString, false, Option, none, some,
  [], ◌∷◌, arith, length, Bool-cases, includes, is_whitespace, trim, trim_start, trim_end, is_empty,
  if◌then◌else◌,
}
use loop_platform_zhb.Base.Trim.{
  trim_idem, trim_end_idem, StartsInk, trim_start_of_StartsInk, trim_start-StartsInk,
  trim_end-StartsInk,
}
use loop_platform_zhb.Schedule.Time.{NormalizedSchedule}
use loop_platform_zhb.Schedule.Validate.{
  ZoneApi, ScheduleFailure, cron_contains_nul, cron_too_long, timezone_contains_nul,
  timezone_too_long, ok, push_blank, collapse, normalize_cron, check_raw, check_cron,
  check_timezone, or_else, settle, validate_schedule,
}

collapse-push_blank : (s : JsString) → collapse (push_blank s) ≡ push_blank (collapse s)
unfolding collapse push_blank is_whitespace
collapse-push_blank [] = refl
collapse-push_blank (c ∷ s) = ground arith

collapse_idem : (s : JsString) → collapse (collapse s) ≡ collapse s
unfolding collapse
collapse_idem [] = refl
collapse_idem (c ∷ s) = elim (Bool-cases (is_whitespace c)) [
  | inl blank ↦ rw blank (collapse-push_blank (collapse s) ∙ ap push_blank (collapse_idem s))
  | inr ink ↦ rw (ink, ink) (ap (λ l. c ∷ l) (collapse_idem s))
]

trim_end-push_blank :
    (s : JsString)
    → trim_end (push_blank s) ≡ (if is_empty (trim_end s) then [] else push_blank (trim_end s))
unfolding trim_end push_blank is_whitespace
trim_end-push_blank [] = refl
trim_end-push_blank (c ∷ s) = ground arith

is_empty-collapse : (s : JsString) → is_empty (collapse s) ≡ is_empty s
unfolding collapse push_blank
is_empty-collapse [] = refl
is_empty-collapse (c ∷ s) = ground arith

trim_end-collapse : (s : JsString) → trim_end (collapse s) ≡ collapse (trim_end s)
unfolding trim_end collapse
trim_end-collapse [] = refl
trim_end-collapse (c ∷ s) =
    let ih = trim_end-collapse s in
    elim (Bool-cases (is_whitespace c)) [
      | inr ink ↦ rw (ink, ink) (ap (λ l. c ∷ l) ih)
      | inl blank ↦ elim (Bool-cases (is_empty (trim_end s))) [
        | inl none_left ↦
            let e = trim_end-push_blank (collapse s) in
            let k = is_empty-collapse (trim_end s) in
            rw (blank, none_left) (rw (ih, k, none_left) at e)
        | inr some_left ↦
            let e = trim_end-push_blank (collapse s) in
            let k = is_empty-collapse (trim_end s) in
            rw (blank, some_left, blank) (rw (ih, k, some_left) at e)
      ]
    ]

collapse-StartsInk : (s : JsString) → StartsInk s → StartsInk (collapse s)
unfolding collapse
collapse-StartsInk [] h = tt
collapse-StartsInk (c ∷ s) h = rw h h

pub normalize_cron_idem : (s : JsString) → normalize_cron (normalize_cron s) ≡ normalize_cron s
unfolding normalize_cron trim
normalize_cron_idem s =
    let ink = trim_end-StartsInk (trim_start s) (trim_start-StartsInk s) in
    let starts =
      trim_start_of_StartsInk (collapse (trim_end (trim_start s))) (collapse-StartsInk _ ink) in
    let ends =
      trim_end-collapse (trim_end (trim_start s)) ∙ ap collapse (trim_end_idem (trim_start s)) in
    ap (λ z. collapse (trim_end z)) starts ∙ ap collapse ends ∙ collapse_idem _

-- What normalising a text cannot bring in: a code unit other than a blank, or length.
record NoMore (s t : JsString) : Type 0 where
  pub units : (c : ℕ) → c ≢ 32 → includes s c ≡ false → includes t c ≡ false
  pub shorter : length t ≤ length s

NoMore-trim_start : (s : JsString) → NoMore s (trim_start s)
unfolding trim_start includes
NoMore-trim_start [] = record { units = λ c ne h. h; shorter = omega arith }
NoMore-trim_start (d ∷ s) =
    let ih = NoMore-trim_start s in
    record { units = λ c ne h. ground (arith, ih.units c ne); shorter = ground (arith, ih.shorter) }

NoMore-trim_end : (s : JsString) → NoMore s (trim_end s)
unfolding trim_end includes
NoMore-trim_end [] = record { units = λ c ne h. h; shorter = omega arith }
NoMore-trim_end (d ∷ s) =
    let ih = NoMore-trim_end s in
    record { units = λ c ne h. ground (arith, ih.units c ne); shorter = ground (arith, ih.shorter) }

NoMore-collapse : (s : JsString) → NoMore s (collapse s)
unfolding collapse includes
NoMore-collapse [] = record { units = λ c ne h. h; shorter = omega arith }
NoMore-collapse (d ∷ s) =
    let ih = NoMore-collapse s in
    let push = blank_units (collapse s) in
    record {
      units = λ c ne h. ground (arith, ih.units c ne, push.0 c ne);
      shorter = ground (arith, ih.shorter, push.1);
    }
  where
    blank_units :
        (t : JsString)
        → ((c : ℕ) → c ≢ 32 → includes t c ≡ false → includes (push_blank t) c ≡ false)
          × (length (push_blank t) ≤ suc (length t))
    blank_units [] = (λ c ne h. ground arith, omega arith)
    blank_units (e ∷ t) = (λ c ne h. ground arith, ground arith)

NoMore-trans : {s t u : JsString} → NoMore s t → NoMore t u → NoMore s u
NoMore-trans h k = record {
  units = λ c ne e. k.units c ne (h.units c ne e);
  shorter = omega (arith, h.shorter, k.shorter);
}

NoMore-trim : (s : JsString) → NoMore s (trim s)
unfolding trim
NoMore-trim s = NoMore-trans (NoMore-trim_start s) (NoMore-trim_end (trim_start s))

NoMore-normalize_cron : (s : JsString) → NoMore s (normalize_cron s)
unfolding normalize_cron
NoMore-normalize_cron s = NoMore-trans (NoMore-trim s) (NoMore-collapse (trim s))

check_raw-NoMore :
    (a b : ScheduleFailure) (s t : JsString)
    → NoMore s t
    → check_raw a b s ≡ none
    → check_raw a b t ≡ none
unfolding check_raw
check_raw-NoMore a b s t n h = ground (arith, n.units 0 (λ e. cc), n.shorter)

or_else-none : (a b : Option ScheduleFailure) → or_else a b ≡ none → (a ≡ none) × (b ≡ none)
or_else-none none b h = (refl, h)
or_else-none (some f) b h = cc

settle-ok :
    (n m : NormalizedSchedule) (o : Option ScheduleFailure)
    → settle n o ≡ ok m
    → (o ≡ none) × (n ≡ m)
settle-ok n m none h = (refl, cc)
settle-ok n m (some f) h = cc

pub record Checked (api : ZoneApi) (cron timezone : JsString) (n : NormalizedSchedule)
    : Type 0 where
  pub normal_cron : n.cron ≡ normalize_cron cron
  pub normal_timezone : n.timezone ≡ trim timezone
  pub raw_cron : check_raw cron_contains_nul cron_too_long cron ≡ none
  pub good_cron : check_cron api.cron n.cron ≡ none
  pub raw_timezone : check_raw timezone_contains_nul timezone_too_long timezone ≡ none
  pub good_timezone : check_timezone api n.timezone ≡ none

pub validate_schedule_sound :
    (api : ZoneApi) (cron timezone : JsString) (n : NormalizedSchedule)
    → validate_schedule api cron timezone ≡ ok n
    → Checked api cron timezone n
unfolding validate_schedule
validate_schedule_sound api cron timezone n h =
    let (all, same) = settle-ok _ n _ h in
    let (a, rest) = or_else-none _ _ all in
    let (b, rest') = or_else-none _ _ rest in
    let (c, d) = or_else-none _ _ rest' in
    let cron_same : normalize_cron cron ≡ n.cron = ap (λ x. x.cron) same in
    let zone_same : trim timezone ≡ n.timezone = ap (λ x. x.timezone) same in
    record {
      normal_cron = sym cron_same;
      normal_timezone = sym zone_same;
      raw_cron = a;
      good_cron = subst (λ x. check_cron api.cron x ≡ none) cron_same b;
      raw_timezone = c;
      good_timezone = subst (λ x. check_timezone api x ≡ none) zone_same d;
    }

-- An accepted schedule is accepted again in its normal form, and is its own normal form.
pub validate_schedule_idem :
    (api : ZoneApi) (cron timezone : JsString) (n : NormalizedSchedule)
    → validate_schedule api cron timezone ≡ ok n
    → validate_schedule api n.cron n.timezone ≡ ok n
unfolding validate_schedule
validate_schedule_idem api cron timezone n h =
    let v = validate_schedule_sound api cron timezone n h in
    let again : normalize_cron n.cron ≡ n.cron =
      ap normalize_cron v.normal_cron ∙ normalize_cron_idem cron ∙ sym v.normal_cron in
    let zone_again : trim n.timezone ≡ n.timezone =
      ap trim v.normal_timezone ∙ trim_idem timezone ∙ sym v.normal_timezone in
    let a : check_raw cron_contains_nul cron_too_long n.cron ≡ none =
      check_raw-NoMore _ _ cron n.cron
        (subst (NoMore cron) (sym v.normal_cron) (NoMore-normalize_cron cron)) v.raw_cron in
    let b : check_raw timezone_contains_nul timezone_too_long n.timezone ≡ none =
      check_raw-NoMore _ _ timezone n.timezone
        (subst (NoMore timezone) (sym v.normal_timezone) (NoMore-trim timezone)) v.raw_timezone in
    rw (again, zone_again, a, v.good_cron, b, v.good_timezone) refl
