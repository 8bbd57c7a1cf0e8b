-- ===== src/Schedule/Time/Regular.antt =====
-- packages/server/src/schedule/time-semantics.ts where no timezone discontinuity disturbs the cron
-- library: the backward search finds exactly the latest occurrence.
use loop_platform_zhb.Base.{
  ℕ, zero, suc, ◌+◌, ◌-◌, ◌*◌, ◌/◌, ◌^◌, ◌≤◌, ◌<◌, ◌≡◌, refl, ◌⊎◌, inl, inr, true, false, none,
  some, arith, leb, ltb, ◌==◌, Bool-cases, Option-cases,
}
use loop_platform_zhb.Schedule.Time.{
  NormalizedSchedule, CronApi, answer, reached, beyond, test_on, next_until, next_occurrence,
  next_from, turn_on, Search, low_at, nothing, raised, unfinished, smaller, earliest, start_of,
  probe_of, probe_back, bisect, bisected, LatestResult, found, turns_spent, latest_turns, last_of,
  latest_occurrence, is_occurrence, is_occurrence_on,
}
use loop_platform_zhb.Schedule.Time.Latest.{latest_occurrence-ends}

-- `nextRun` gives the first match after the cursor, or null where there is none.
pub record Regular (api : CronApi) (schedule : NormalizedSchedule) : Type 0 where
  pub constructs : api.constructs schedule.cron schedule.timezone ≡ true
  pub later : (c t : ℕ) → api.next_run schedule c ≡ some t → c < t
  pub matches : (c t : ℕ) → api.next_run schedule c ≡ some t → api.match schedule t ≡ true
  pub first :
      (c t u : ℕ) → api.next_run schedule c ≡ some t → c < u → u < t → api.match schedule u ≡ false
  pub last : (c u : ℕ) → api.next_run schedule c ≡ none → c < u → api.match schedule u ≡ false

module _ (api : CronApi) (schedule : NormalizedSchedule) (regular : Regular api schedule) where
  next_from-next_run :
      (n c : ℕ) → next_from api schedule (suc n) c ≡ answer (api.next_run schedule c)
  unfolding next_from turn_on
  next_from-next_run n c = elim (Option-cases (api.next_run schedule c)) [
    | inl e ↦ rw (e, next_from) refl
    | inr (t, e) ↦ rw (e, next_from) (ground (arith, regular.later c t e, regular.matches c t e))
  ]

  next_occurrence-next_run :
      (c : ℕ) → next_occurrence api schedule c ≡ answer (api.next_run schedule c)
  unfolding next_occurrence
  next_occurrence-next_run c = rw (regular.constructs, next_occurrence) (next_from-next_run 5999 c)

  -- No match after one instant up to another.
  abbrev pub NoneIn : ℕ → ℕ → Type 0
  NoneIn c at = (u : ℕ) → c < u → u ≤ at → api.match schedule u ≡ false

  pub record FirstIn (c at t : ℕ) : Type 0 where
    pub after : c < t
    pub within : t ≤ at
    pub matches : api.match schedule t ≡ true
    pub first : (u : ℕ) → c < u → u < t → api.match schedule u ≡ false

  next_until_cases :
      (at c : ℕ)
      → ((t : ℕ) × (next_until api schedule at c ≡ reached t) × FirstIn c at t)
        ⊎ ((next_until api schedule at c ≡ beyond) × NoneIn c at)
  unfolding next_until test_on
  next_until_cases at c =
      let e = next_occurrence-next_run c in
      elim (Option-cases (api.next_run schedule c)) [
        | inl k ↦ inr (rw (e, k) refl, λ u later. λ within. regular.last c u k later)
        | inr (t, k) ↦ elim (Bool-cases (leb t at)) [
          | inl small ↦ inl (
            t,
            rw (e, k, small) refl,
            record {
              after = regular.later c t k;
              within = ground arith;
              matches = regular.matches c t k;
              first = λ u. regular.first c t u k;
            },
          )
          | inr large ↦ inr (
            rw (e, k, large) refl,
            λ u later. λ within. regular.first c t u k later (ground arith),
          )
        ]
      ]

  -- What a search left behind: a low cursor before an occurrence, with none after a higher one.
  data Found (at : ℕ) : Search → Type 0 where
    low_found : {low t : ℕ} → earliest ≤ low → FirstIn low at t → Found at (low_at low)
    none_found : NoneIn earliest at → Found at nothing
    more_turns : Found at unfinished

  probe_back-Found : (at n window : ℕ) → Found at (probe_back api schedule n at window)
  unfolding probe_back
  probe_back-Found at zero window = more_turns
  probe_back-Found at (suc n) window = elim (next_until_cases at (probe_of at window)) [
    | inl (t, k, v) ↦ rw (k, probe_back) (low_found (ground arith) v)
    | inr (k, free) ↦ elim (Bool-cases (start_of at window == earliest)) [
      | inl start ↦ rw (k, start, probe_back) (none_found (λ u later. free u (ground arith)))
      | inr more ↦
          rw (k, more, probe_back) (probe_back-Found at n (smaller (window * 2) (at - earliest)))
    ]
  ]

  -- The last cursor with an occurrence up to `at`.
  data Pinned (at : ℕ) : Search → Type 0 where
    pinned :
        {low t : ℕ}
        → earliest ≤ low
        → FirstIn low at t
        → NoneIn (low + 1) at
        → Pinned at (low_at low)
    no_pin : NoneIn earliest at → Pinned at nothing
    spent : Pinned at unfinished

  bisect-Pinned :
      (at n low high t : ℕ)
      → earliest ≤ low
      → FirstIn low at t
      → NoneIn high at
      → Pinned at (bisect api schedule at n low high)
  unfolding bisect
  bisect-Pinned at zero low high t floor v free = elim (Bool-cases (ltb 1 (high - low))) [
    | inl wide ↦ rw (wide, bisect) spent
    | inr close ↦ rw (close, bisect) (pinned floor v (λ u later. free u (ground arith)))
  ]
  bisect-Pinned at (suc n) low high t floor v free = elim (Bool-cases (ltb 1 (high - low))) [
    | inr close ↦ rw (close, bisect) (pinned floor v (λ u later. free u (ground arith)))
    | inl wide ↦ elim (next_until_cases at (low + (high - low) / 2)) [
      | inl (u, k, w) ↦
          rw (wide, k, bisect)
            (bisect-Pinned at n (low + (high - low) / 2) high u (omega (arith, floor)) w free)
      | inr (k, none_here) ↦
          rw (wide, k, bisect) (bisect-Pinned at n low (low + (high - low) / 2) t floor v none_here)
    ]
  ]

  bisected-Pinned : (at : ℕ) (s : Search) → Found at s → Pinned at (bisected api schedule at s)
  bisected-Pinned at (low_at low) (low_found {t = t} floor v) =
      bisect-Pinned at latest_turns low at t floor v
        (λ u later. λ within. absurd (omega (arith, later, within)))
  bisected-Pinned at nothing (none_found free) = no_pin free
  bisected-Pinned at raised f = elim f [ ]
  bisected-Pinned at unfinished more_turns = spent

  -- The latest match up to an instant, after the start of year 1.
  pub record IsLatest (at t : ℕ) : Type 0 where
    pub after : earliest < t
    pub within : t ≤ at
    pub matches : api.match schedule t ≡ true
    pub latest : (u : ℕ) → t < u → u ≤ at → api.match schedule u ≡ false

  abbrev LatestIn : ℕ → LatestResult → Type 0
  LatestIn at r =
      ((t : ℕ) × (r ≡ found (some t)) × IsLatest at t)
      ⊎ (((r ≡ found none) × NoneIn earliest at) ⊎ (r ≡ turns_spent))

  last_of-Latest : (at : ℕ) (s : Search) → Pinned at s → LatestIn at (last_of api schedule at s)
  last_of-Latest at (low_at low) (pinned {t = t} floor v free) = elim (next_until_cases at low) [
    | inl (u, k, w) ↦ rw k (
        inl (
          u,
          refl,
          record {
            after = omega (arith, floor, w.after);
            within = w.within;
            matches = w.matches;
            latest = λ x later. free x (omega (arith, later, w.after));
          },
        ))
    | inr (k, none_here) ↦ absurd (ground (arith, none_here t v.after v.within, v.matches))
  ]
  last_of-Latest at nothing (no_pin free) = inr (inl (refl, free))
  last_of-Latest at raised p = elim p [ ]
  last_of-Latest at unfinished spent = inr (inr refl)

  -- Where the cron library gives the first match after every cursor, the backward search with its
  -- bisection answers, for an instant below 2 ^ 53, with the latest match up to it that is after
  -- the start of year 1, or with null where there is none.
  pub latest_occurrence-IsLatest :
      (at : ℕ)
      → at < 2 ^ 53
      → ((t : ℕ) × (latest_occurrence api schedule at ≡ found (some t)) × IsLatest at t)
        ⊎ ((latest_occurrence api schedule at ≡ found none) × NoneIn earliest at)
  unfolding latest_occurrence
  latest_occurrence-IsLatest at small =
      let search = probe_back api schedule latest_turns at 120000 in
      elim (last_of-Latest at (bisected api schedule at search)
        (bisected-Pinned at search (probe_back-Found at latest_turns 120000))) [
          | inl one ↦ inl one
          | inr (inl none_here) ↦ inr none_here
          | inr (inr out) ↦ absurd (latest_occurrence-ends api schedule at small out)
        ]

  pub is_occurrence-match :
      (at : ℕ) → 0 < at → is_occurrence api schedule at ≡ some (api.match schedule at)
  unfolding is_occurrence is_occurrence_on
  is_occurrence-match at positive =
      let e = next_occurrence-next_run (at - 1) in
      let before : at - 1 < at = omega (arith, positive) in
      elim (Option-cases (api.next_run schedule (at - 1))) [
        | inl k ↦ rw (e, k) (ground (arith, regular.last (at - 1) at k before))
        | inr (t, k) ↦
            rw (e, k)
              (ground (
                arith,
                regular.later (at - 1) t k,
                regular.matches (at - 1) t k,
                regular.first (at - 1) t at k before,
              ))
      ]
