-- ===== src/Terminal/Unicode.antt =====
-- packages/protocol/src/terminal-policy.ts: the unpaired-surrogate scan and the byte measure.
use loop_platform_zhb.Base.{
  ℕ, ◌≡◌, refl, ◌↔◌, ◌≤◌, JsString, true, false, [], ◌∷◌, arith, length, ltb, Bool-cases, inl, inr,
  is_high, is_low, utf8_length,
}
use loop_platform_zhb.Terminal.{has_unpaired_surrogate, utf8_bytes_exceed}

-- Text in which every surrogate is one half of a pair, high half first.
pub data WellFormed : JsString → Type 0 where
  nil : WellFormed []
  unit :
      {c : ℕ} {s : JsString}
      → is_high c ≡ false
      → is_low c ≡ false
      → WellFormed s
      → WellFormed (c ∷ s)
  pair :
      {c d : ℕ} {s : JsString}
      → is_high c ≡ true
      → is_low d ≡ true
      → WellFormed s
      → WellFormed (c ∷ d ∷ s)

scan_sound : (s : JsString) → has_unpaired_surrogate s ≡ false → WellFormed s
unfolding has_unpaired_surrogate
scan_sound [] h = nil
scan_sound (c ∷ []) h = unit (ground arith) (ground arith) nil
scan_sound (c ∷ d ∷ s) h = elim (Bool-cases (is_high c)) [
  | inl high ↦ pair high (ground arith) (scan_sound s (ground arith))
  | inr no_high ↦ unit no_high (ground arith) (scan_sound (d ∷ s) (ground arith))
]

scan_complete : {s : JsString} → WellFormed s → has_unpaired_surrogate s ≡ false
unfolding has_unpaired_surrogate
scan_complete nil = refl
scan_complete (unit {s = []} h l w) = ground arith
scan_complete (unit {s = d ∷ s} h l w) = ground (arith, scan_complete w)
scan_complete (pair h l w) = ground (arith, scan_complete w)

-- The scan finds no unpaired surrogate exactly when the text is well-formed UTF-16.
pub has_unpaired_surrogate_iff : (s : JsString) → (has_unpaired_surrogate s ≡ false) ↔ WellFormed s
has_unpaired_surrogate_iff s = (scan_sound s, scan_complete)

pub length-le-utf8_length : (s : JsString) → length s ≤ utf8_length s
unfolding utf8_length
length-le-utf8_length [] = omega arith
length-le-utf8_length (c ∷ []) = ground arith
length-le-utf8_length (c ∷ d ∷ s) =
    ground (arith, length-le-utf8_length s, length-le-utf8_length (d ∷ s))

-- The test with its fast path is exactly whether the UTF-8 encoding is longer than the limit.
pub utf8_bytes_exceed_exact :
    (s : JsString) (max : ℕ) → utf8_bytes_exceed s max ≡ ltb max (utf8_length s)
unfolding utf8_bytes_exceed
utf8_bytes_exceed_exact s max = ground (arith, length-le-utf8_length s)
