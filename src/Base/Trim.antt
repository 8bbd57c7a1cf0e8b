-- ===== src/Base/Trim.antt =====
-- Laws of the JavaScript string operations.
use loop_platform_zhb.Base.{
  ℕ, ◌≡◌, refl, ap, ◌∙◌, ◌≢◌, ◌↔◌, inl, inr, JsString, false, [], ◌∷◌, arith, Bool-cases, All,
  includes, is_whitespace, trim_start, trim_end, trim,
}

pub includes-eq-false_iff : (s : JsString) (c : ℕ) → (includes s c ≡ false) ↔ All (λ d. d ≢ c) s
unfolding includes
includes-eq-false_iff [] c = ground arith
includes-eq-false_iff (d ∷ s) c = ground (arith, includes-eq-false_iff s c)

abbrev pub StartsInk : JsString → Type 0
StartsInk [] = Unit
StartsInk (c ∷ s) = is_whitespace c ≡ false

pub trim_start-StartsInk : (s : JsString) → StartsInk (trim_start s)
unfolding trim_start
trim_start-StartsInk [] = tt
trim_start-StartsInk (c ∷ s) = elim (Bool-cases (is_whitespace c)) [
  | inl blank ↦ rw blank (trim_start-StartsInk s)
  | inr ink ↦ rw ink ink
]

pub trim_start_of_StartsInk : (s : JsString) → StartsInk s → trim_start s ≡ s
unfolding trim_start
trim_start_of_StartsInk [] h = refl
trim_start_of_StartsInk (c ∷ s) h = rw h

pub trim_end-StartsInk : (s : JsString) → StartsInk s → StartsInk (trim_end s)
unfolding trim_end
trim_end-StartsInk [] h = tt
trim_end-StartsInk (c ∷ s) h = rw h h

pub trim_end_idem : (s : JsString) → trim_end (trim_end s) ≡ trim_end s
unfolding trim_end
trim_end_idem [] = refl
trim_end_idem (c ∷ s) = ground (arith, trim_end_idem s)

-- Trimming twice is trimming once.
pub trim_idem : (s : JsString) → trim (trim s) ≡ trim s
unfolding trim
trim_idem s =
    ap trim_end
      (trim_start_of_StartsInk _ (trim_end-StartsInk (trim_start s) (trim_start-StartsInk s)))
    ∙ trim_end_idem (trim_start s)
