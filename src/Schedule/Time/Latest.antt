-- ===== src/Schedule/Time/Latest.antt =====
-- packages/server/src/schedule/time-semantics.ts: the backward search and the bisection end within
-- their turns, and an occurrence that they find is not after the instant asked for.
use loop_platform_zhb.Base.{
  ℕ, zero, suc, ◌+◌, ◌-◌, ◌*◌, ◌/◌, ◌^◌, ◌≤◌, ◌<◌, ◌≡◌, refl, ap, ◌∙◌, ◌≢◌, ◌⊎◌, inl, inr, true,
  false, none, some, arith, leb, ltb, ◌==◌, Bool-cases,
}
use loop_platform_zhb.Schedule.Time.{
  NormalizedSchedule, CronApi, Occurrence, answer, threw, Tested, reached, beyond, failed, test_on,
  next_until, next_occurrence, Search, low_at, nothing, raised, unfinished, smaller, earliest,
  start_of, probe_of, probe_back, bisect, found, turns_spent, latest_turns, last_of, bisected,
  latest_occurrence,
}
use loop_platform_zhb.Schedule.Time.Next.{next_occurrence-After}

-- A number doubled some times.
abbrev doubled : ℕ → ℕ → ℕ
doubled w zero = w
doubled w (suc n) = doubled (w * 2) n

doubled_le : (v w n : ℕ) → v ≤ w → doubled v n ≤ doubled w n
doubled_le v w zero h = h
doubled_le v w (suc n) h = doubled_le (v * 2) (w * 2) n (omega (arith, h))

le-doubled : (w n : ℕ) → w ≤ doubled w n
le-doubled w zero = omega arith
le-doubled w (suc n) = omega (arith, le-doubled (w * 2) n)

doubled_twice : (w n : ℕ) → doubled (w * 2) n ≡ 2 * doubled w n
doubled_twice w zero = omega arith
doubled_twice w (suc n) = doubled_twice (w * 2) n

pub Tested-cases : (r : Tested) → ((t : ℕ) × (r ≡ reached t)) ⊎ ((r ≡ beyond) ⊎ (r ≡ failed))
Tested-cases (reached t) = inl (t, refl)
Tested-cases beyond = inr (inl refl)
Tested-cases failed = inr (inr refl)

module _ (api : CronApi) (schedule : NormalizedSchedule) (at : ℕ) where
  next_window :
      (n window : ℕ)
      → at - earliest ≤ doubled window (suc n)
      → at - earliest ≤ doubled (smaller (window * 2) (at - earliest)) n
  next_window n window h = elim (Bool-cases (leb (window * 2) (at - earliest))) [
    | inl small ↦ rw small h
    | inr large ↦ rw large (le-doubled (at - earliest) n)
  ]

  probe_back-unfinished :
      (n window : ℕ)
      → probe_back api schedule (suc n) at window ≡ unfinished
      → ((start_of at window == earliest) ≡ false)
        × (probe_back api schedule n at (smaller (window * 2) (at - earliest)) ≡ unfinished)
  unfolding probe_back
  probe_back-unfinished n window e =
      elim (Tested-cases (next_until api schedule at (probe_of at window))) [
        | inl (t, k) ↦ let r = rw (k, probe_back) at e in cc
        | inr (inr k) ↦ let r = rw (k, probe_back) at e in cc
        | inr (inl k) ↦ elim (Bool-cases (start_of at window == earliest)) [
          | inl start ↦ let r = rw (k, start, probe_back) at e in cc
          | inr later ↦ (later, rw (k, later, probe_back) at e)
        ]
      ]

  probe_back-ends :
      (n window : ℕ)
      → at - earliest ≤ doubled window n
      → probe_back api schedule (suc n) at window ≢ unfinished
  probe_back-ends zero window h e = ground (arith, (probe_back-unfinished zero window e).0)
  probe_back-ends (suc n) window h e =
      probe_back-ends n (smaller (window * 2) (at - earliest)) (next_window n window h)
        (probe_back-unfinished (suc n) window e).1

  bisect-ends :
      (n low high : ℕ) → high - low ≤ doubled 1 n → bisect api schedule at n low high ≢ unfinished
  unfolding bisect
  bisect-ends zero low high h e = ground arith
  bisect-ends (suc n) low high h e =
      let half : high - low ≤ 2 * doubled 1 n = omega (arith, h, doubled_twice 1 n) in
      elim (Bool-cases (ltb 1 (high - low))) [
        | inr close ↦ let r = rw (close, bisect) at e in cc
        | inl wide ↦ elim (Tested-cases (next_until api schedule at (low + (high - low) / 2))) [
          | inl (t, k) ↦
              bisect-ends n (low + (high - low) / 2) high (omega (arith, half))
                (rw (wide, k, bisect) at e)
          | inr (inl k) ↦
              bisect-ends n low (low + (high - low) / 2) (omega (arith, half))
                (rw (wide, k, bisect) at e)
          | inr (inr k) ↦ let r = rw (wide, k, bisect) at e in cc
        ]
      ]

  last_of-within :
      (s : Search) (t : ℕ)
      → last_of api schedule at s ≡ found (some t)
      → (low : ℕ) × (next_until api schedule at low ≡ reached t)
  last_of-within (low_at low) t e = elim (Tested-cases (next_until api schedule at low)) [
    | inl (u, k) ↦ let r = rw k at e in let same : u ≡ t = cc in (low, k ∙ ap reached same)
    | inr (inl k) ↦ let r = rw k at e in cc
    | inr (inr k) ↦ let r = rw k at e in cc
  ]
  last_of-within nothing t e = cc
  last_of-within raised t e = cc
  last_of-within unfinished t e = cc

  last_of-ends : (s : Search) → s ≢ unfinished → last_of api schedule at s ≢ turns_spent
  last_of-ends (low_at low) h = elim (Tested-cases (next_until api schedule at low)) [
    | inl (u, k) ↦ rw k (λ e. cc)
    | inr (inl k) ↦ rw k (λ e. cc)
    | inr (inr k) ↦ rw k (λ e. cc)
  ]
  last_of-ends nothing h = λ e. cc
  last_of-ends raised h = λ e. cc
  last_of-ends unfinished h = λ e. h refl

  next_until-reached :
      (c t : ℕ)
      → next_until api schedule at c ≡ reached t
      → (next_occurrence api schedule c ≡ answer (some t)) × (t ≤ at)
  unfolding next_until test_on
  next_until-reached c t h = go (next_occurrence api schedule c) h
    where
      go : (o : Occurrence) → test_on at o ≡ reached t → (o ≡ answer (some t)) × (t ≤ at)
      go (answer (some u)) h = ground arith
      go (answer none) h = cc
      go threw h = cc

  bisected-ends :
      (s : Search) → at ≤ doubled 1 53 → s ≢ unfinished → bisected api schedule at s ≢ unfinished
  bisected-ends (low_at low) small h = bisect-ends 53 low at (omega (arith, small))
  bisected-ends nothing small h = h
  bisected-ends raised small h = h
  bisected-ends unfinished small h = h

  -- For an instant below 2 ^ 53 the doubling windows and the bisection each end within 53 turns,
  -- whatever the cron library answers.
  pub latest_occurrence-ends : at < 2 ^ 53 → latest_occurrence api schedule at ≢ turns_spent
  unfolding latest_occurrence
  latest_occurrence-ends small =
      let within : at ≤ doubled 1 53 = omega (arith, small) in
      let wide : at - earliest ≤ doubled 120000 52 = omega (arith, small) in
      last_of-ends (bisected api schedule at (probe_back api schedule latest_turns at 120000)) (
        bisected-ends (probe_back api schedule latest_turns at 120000) within
          (probe_back-ends 52 120000 wide))

  pub latest_occurrence-Within :
      (t : ℕ)
      → latest_occurrence api schedule at ≡ found (some t)
      → (t ≤ at) × (api.match schedule t ≡ true)
  unfolding latest_occurrence
  latest_occurrence-Within t h =
      let (low, k) =
        last_of-within (bisected api schedule at (probe_back api schedule latest_turns at 120000)) t
          h in
      let (e, within) = next_until-reached low t k in
      (within, (next_occurrence-After api schedule low t e).1)
