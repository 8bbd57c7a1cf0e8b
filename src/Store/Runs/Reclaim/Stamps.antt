-- ===== src/Store/Runs/Reclaim/Stamps.antt =====
-- packages/server/src/store/runs.ts, `lastRunActivityMs`: the stamps of a run, and what silence means.
use loop_platform_zhb.Base.{
  ℕ, ◌+◌, ◌*◌, ◌≤◌, ◌<◌, ◌≡◌, refl, ◌↔◌, ◌⊎◌, inl, inr, true, false, Option, none, some, arith, ltb,
  Bool-cases, Option-cases,
}
use loop_platform_zhb.Db.{IsoTime, Run, RunProgressRow}
use loop_platform_zhb.Store.Dates.{DateApi}
use loop_platform_zhb.Store.Machines.{heartbeat_skew_slack_ms}
use loop_platform_zhb.Store.Runs.Reclaim.{progress_stamp, last_run_activity_ms, weigh, is_fresh}
use loop_platform_zhb.Store.Runs.Reclaim.Laws.{last_run_activity_ms_latest}

-- A stamp of the run that parses: of its transition, or of its progress.
abbrev pub IsStamp : DateApi → Run → ℕ → Type 0
IsStamp date r s =
    (date.parse r.ts ≡ some s)
    ⊎ ((p : RunProgressRow) × (at : IsoTime) × (r.progress ≡ some p)
        × (p.at ≡ some at)
        × (date.parse at ≡ some s))

-- A stamp that is at most five minutes ahead of the clock.
abbrev pub IsEvidence : DateApi → Run → ℕ → ℕ → Type 0
IsEvidence date r now_ms s = IsStamp date r s × (s ≤ now_ms + 5 * 60 * 1000)

progress_stamp_iff :
    (date : DateApi) (o : Option RunProgressRow) (s : ℕ)
    → (progress_stamp date o ≡ some s) ↔ (
        (p : RunProgressRow) × (at : IsoTime) × (o ≡ some p)
        × (p.at ≡ some at)
        × (date.parse at ≡ some s))
progress_stamp_iff date o s = (sound o, complete o)
  where
    stamped :
        (p : RunProgressRow) (at : Option IsoTime)
        → p.at ≡ at
        → progress_stamp date (some p) ≡ some s
        → (q : RunProgressRow) × (t : IsoTime) × (some p ≡ some q)
          × (q.at ≡ some t)
          × (date.parse t ≡ some s)
    stamped p none e h = let k = rw e at h in cc
    stamped p (some t) e h = (p, t, refl, e, rw e at h)

    sound :
        (o : Option RunProgressRow)
        → progress_stamp date o ≡ some s
        → (p : RunProgressRow) × (at : IsoTime) × (o ≡ some p)
          × (p.at ≡ some at)
          × (date.parse at ≡ some s)
    sound none h = cc
    sound (some p) h = stamped p p.at refl h

    complete :
        (o : Option RunProgressRow)
        → (p : RunProgressRow) × (at : IsoTime) × (o ≡ some p)
          × (p.at ≡ some at)
          × (date.parse at ≡ some s)
        → progress_stamp date o ≡ some s
    complete o (p, t, e, a, q) = rw (e, a) q

weigh-none :
    (now_ms : ℕ) (a b : Option ℕ) (s : ℕ)
    → weigh now_ms (weigh now_ms none a) b ≡ none
    → (a ≡ some s) ⊎ (b ≡ some s)
    → now_ms + heartbeat_skew_slack_ms < s
unfolding weigh
weigh-none now_ms none none s h e = elim e [ inl k ↦ cc | inr k ↦ cc ]
weigh-none now_ms (some x) none s h e = elim e [ inl k ↦ ground arith | inr k ↦ cc ]
weigh-none now_ms none (some y) s h e = elim e [ inl k ↦ cc | inr k ↦ ground arith ]
weigh-none now_ms (some x) (some y) s h e =
    elim (Bool-cases (ltb (now_ms + heartbeat_skew_slack_ms) x)) [
      | inl ahead ↦ elim e [ inl k ↦ ground arith | inr k ↦ ground arith ]
      | inr counts ↦ elim e [ inl k ↦ ground arith | inr k ↦ ground arith ]
    ]

weigh-one :
    (now_ms : ℕ) (a b : Option ℕ) (ms : ℕ)
    → weigh now_ms (weigh now_ms none a) b ≡ some ms
    → (a ≡ some ms) ⊎ (b ≡ some ms)
unfolding weigh
weigh-one now_ms none none ms h = cc
weigh-one now_ms (some x) none ms h = inl (ground arith)
weigh-one now_ms none (some y) ms h = inr (ground arith)
weigh-one now_ms (some x) (some y) ms h = elim (Bool-cases (ltb x y)) [
  | inl later ↦ elim (Bool-cases (ltb (now_ms + heartbeat_skew_slack_ms) y)) [
    | inl ahead ↦ inl (ground arith)
    | inr counts ↦ inr (ground arith)
  ]
  | inr before ↦ elim (Bool-cases (ltb (now_ms + heartbeat_skew_slack_ms) x)) [
    | inl ahead ↦ inr (ground arith)
    | inr counts ↦ inl (ground arith)
  ]
]

module _ (date : DateApi) (run : Run) (now_ms inactivity : ℕ) where
  stamp_of :
      (s : ℕ)
      → IsStamp date run s
      → (date.parse run.ts ≡ some s) ⊎ (progress_stamp date run.progress ≡ some s)
  stamp_of s (inl e) = inl e
  stamp_of s (inr e) = inr ((progress_stamp_iff date run.progress s).1 e)

  -- Without fresh activity, every stamp that counts is older than the timeout.
  pub is_fresh-silent :
      is_fresh now_ms inactivity (last_run_activity_ms date run now_ms) ≡ false
      → (s : ℕ) → IsEvidence date run now_ms s
      → s + inactivity ≤ now_ms
  unfolding last_run_activity_ms
  is_fresh-silent h s (at, le) = elim (Option-cases (last_run_activity_ms date run now_ms)) [
    | inl no_stamp ↦
        let k =
          weigh-none now_ms (date.parse run.ts) (progress_stamp date run.progress) s no_stamp
            (stamp_of s at) in
        absurd (omega (arith, k, le))
    | inr (ms, e) ↦
        let (c, a, b) = last_run_activity_ms_latest date run now_ms ms e in
        let last : ms + inactivity ≤ now_ms = ground (arith, rw e at h) in
        let before : s ≤ ms = elim (stamp_of s at) [ inl k ↦ a s k le | inr k ↦ b s k le ] in
        omega (arith, last, before)
  ]

  -- Fresh activity is a stamp that counts and is younger than the timeout.
  pub is_fresh-IsEvidence :
      is_fresh now_ms inactivity (last_run_activity_ms date run now_ms) ≡ true
      → (s : ℕ) × IsEvidence date run now_ms s × (now_ms < s + inactivity)
  unfolding last_run_activity_ms
  is_fresh-IsEvidence h = elim (Option-cases (last_run_activity_ms date run now_ms)) [
    | inl no_stamp ↦ let k = rw no_stamp at h in cc
    | inr (ms, e) ↦
        let (c, a, b) = last_run_activity_ms_latest date run now_ms ms e in
        let young : now_ms < ms + inactivity = ground (arith, rw e at h) in
        let at : IsStamp date run ms =
          elim (weigh-one now_ms (date.parse run.ts) (progress_stamp date run.progress) ms e) [
            | inl k ↦ inl k
            | inr k ↦ inr ((progress_stamp_iff date run.progress ms).0 k)
          ] in
        (ms, (at, c), young)
  ]
