-- ===== src/Schedule/Time/Next.antt =====
-- packages/server/src/schedule/time-semantics.ts: what the next occurrence is, and that the turns of
-- its loop are enough.
use loop_platform_zhb.Base.{
  ℕ, zero, suc, ap, ◌∙◌, ◌+◌, ◌*◌, ◌/◌, ◌%◌, ◌≤◌, ◌<◌, ◌≡◌, refl, ◌≢◌, ◌⊎◌, inl, inr, true, Option,
  none, some, arith, ◌==◌, Bool-cases, Option-cases, if◌then◌else◌,
}
use loop_platform_zhb.Schedule.Time.{
  NormalizedSchedule, CronApi, answer, advance_within_five_part_minute, Turn, return, continue,
  turn_on, next_from, next_occurrence, max_discontinuity_recovery_steps,
}

Turn-cases : (turn : Turn) → ((o : Option ℕ) × (turn ≡ return o)) ⊎ ((c : ℕ) × (turn ≡ continue c))
Turn-cases (return o) = inl (o, refl)
Turn-cases (continue c) = inr (c, refl)

module _ (api : CronApi) (schedule : NormalizedSchedule) where
  advance_lt : (cursor : ℕ) → cursor < advance_within_five_part_minute cursor
  unfolding advance_within_five_part_minute
  advance_lt cursor = ground arith

  turn_on-return :
      (cursor t : ℕ) (o : Option ℕ)
      → turn_on api schedule cursor o ≡ return (some t)
      → (cursor < t) × (o ≡ some t) × (api.match schedule t ≡ true)
  unfolding turn_on
  turn_on-return cursor t none h = ground arith
  turn_on-return cursor t (some c) h = ground arith

  turn_on-continue :
      (cursor next : ℕ) (o : Option ℕ)
      → turn_on api schedule cursor o ≡ continue next
      → cursor < next
  unfolding turn_on
  turn_on-continue cursor next none h = ground arith
  turn_on-continue cursor next (some c) h = ground (arith, advance_lt cursor)

  next_from-After :
      (steps cursor t : ℕ)
      → next_from api schedule steps cursor ≡ answer (some t)
      → (cursor < t) × (api.match schedule t ≡ true)
  unfolding next_from
  next_from-After zero cursor t h = cc
  next_from-After (suc steps) cursor t h =
      elim (Turn-cases (turn_on api schedule cursor (api.next_run schedule cursor))) [
        | inl (o, e) ↦
            let k = rw (e, next_from) at h in
            let (later, run, ok) =
              turn_on-return cursor t (api.next_run schedule cursor)
                (e ∙ ap return (ground arith)) in
            (later, ok)
        | inr (c, e) ↦
            let k = rw (e, next_from) at h in
            let (later, ok) = next_from-After steps c t k in
            (ground (arith, turn_on-continue cursor c (api.next_run schedule cursor) e), ok)
      ]

  -- Half minutes: every turn that goes on passes at least one.
  halves : ℕ → ℕ
  halves c = 2 * (c / 60000) + (if c % 60000 == 59999 then 1 else 0)

  advance-halves : (c : ℕ) → halves c < halves (advance_within_five_part_minute c)
  unfolding halves advance_within_five_part_minute
  advance-halves c = ground arith

  minute-halves : (c d : ℕ) → d % 60000 ≡ 0 → c < d → halves c < halves d
  unfolding halves
  minute-halves c d h k = ground arith

  -- From the horizon on every answer is null, or later and a match.
  abbrev pub SettledFrom : ℕ → Type 0
  SettledFrom horizon =
      (c : ℕ)
      → horizon ≤ c
      → (api.next_run schedule c ≡ none)
        ⊎ ((t : ℕ) × (api.next_run schedule c ≡ some t) × (c < t) × (api.match schedule t ≡ true))

  abbrev pub OnMinutes : Type 0
  OnMinutes = (c t : ℕ) → api.next_run schedule c ≡ some t → t % 60000 ≡ 0

  halves_le : (c d : ℕ) → c ≤ d → halves c ≤ halves d
  unfolding halves
  halves_le c d h = ground arith

  continue-halves :
      (c d : ℕ)
      → OnMinutes
      → turn_on api schedule c (api.next_run schedule c) ≡ continue d
      → halves c < halves d
  unfolding turn_on
  continue-halves c d minutes h = elim (Option-cases (api.next_run schedule c)) [
    | inl e ↦ ground arith
    | inr (t, e) ↦ ground (arith, minutes c t e, advance-halves c, minute-halves c t)
  ]

  settled-return :
      (horizon c d : ℕ)
      → SettledFrom horizon
      → horizon ≤ c
      → turn_on api schedule c (api.next_run schedule c) ≢ continue d
  unfolding turn_on
  settled-return horizon c d settled past h = elim (settled c past) [
    | inl e ↦ ground arith
    | inr (t, e, later, ok) ↦ ground arith
  ]

  next_from-Answers :
      (horizon steps c : ℕ)
      → OnMinutes
      → SettledFrom horizon
      → halves horizon < halves c + steps
      → (o : Option ℕ) × (next_from api schedule (suc steps) c ≡ answer o)
  unfolding next_from
  next_from-Answers horizon zero c minutes settled near =
      let past : horizon ≤ c = ground (arith, halves_le c horizon) in
      elim (Turn-cases (turn_on api schedule c (api.next_run schedule c))) [
        | inl (o, e) ↦ (o, rw (e, next_from) refl)
        | inr (d, e) ↦ absurd (settled-return horizon c d settled past e)
      ]
  next_from-Answers horizon (suc steps) c minutes settled near =
      elim (Turn-cases (turn_on api schedule c (api.next_run schedule c))) [
        | inl (o, e) ↦ (o, rw (e, next_from) refl)
        | inr (d, e) ↦
            let (o, k) =
              next_from-Answers horizon steps d minutes settled
                (omega (arith, near, continue-halves c d minutes e)) in
            (o, rw (e, next_from) k)
      ]

  -- A next occurrence is after the instant asked for, and a match of the schedule.
  pub next_occurrence-After :
      (after t : ℕ)
      → next_occurrence api schedule after ≡ answer (some t)
      → (after < t) × (api.match schedule t ≡ true)
  unfolding next_occurrence
  next_occurrence-After after t h =
      elim (Bool-cases (api.constructs schedule.cron schedule.timezone)) [
        | inl good ↦
            next_from-After max_discontinuity_recovery_steps after t
              (rw (good, next_occurrence) at h)
        | inr bad ↦ let k = rw (bad, next_occurrence) at h in cc
      ]

  -- Where the constructor takes the schedule, every answer of the cron library is a whole minute,
  -- and from a horizon at most 2998 minutes ahead on each is null or a later match, the 6000 turns
  -- of the next-occurrence loop are enough: it returns.
  pub next_occurrence-Answers :
      (after horizon : ℕ)
      → api.constructs schedule.cron schedule.timezone ≡ true
      → OnMinutes
      → SettledFrom horizon
      → horizon ≤ after + 179880000
      → (o : Option ℕ) × (next_occurrence api schedule after ≡ answer o)
  unfolding next_occurrence halves
  next_occurrence-Answers after horizon good minutes settled near =
      let (o, e) = next_from-Answers horizon 5999 after minutes settled (ground arith) in
      (o, rw (good, next_occurrence) e)
