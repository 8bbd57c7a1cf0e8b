-- ===== src/Artifact/Prefixes.antt =====
-- packages/protocol/src/artifact-policy.ts: the directories that the loop over the segments of a path
-- goes through.
use loop_platform_zhb.Base.{
  ℕ, ◌≡◌, refl, ap, ◌∙◌, sym, subst, ◌≢◌, ◌↔◌, JsString, true, List, [], ◌∷◌, ◌++◌, arith, ◌==◌,
  ==_iff, Bool-cases, inl, inr, All, str_eq_iff, str_eq,
}
use loop_platform_zhb.Terminal.{contains}
use loop_platform_zhb.Artifact.{split, push_unit}
use loop_platform_zhb.Artifact.NeverSync.{split-append, split-NonEmpty}
use loop_platform_zhb.Artifact.Manifest.{join_segment, prefixes_from, dir_prefixes}

-- The path `p` lies below the directory `d`.
abbrev pub Below : JsString → JsString → Type 0
Below d p = (rest : JsString) × (p ≡ d ++ b'/' ∷ rest)

abbrev pub NonEmpty : List JsString → Type 0
NonEmpty segments = All (λ s. s ≢ []) segments

abbrev join : List JsString → JsString
join [] = []
join (s ∷ []) = s
join (s ∷ t ∷ segments) = s ++ b'/' ∷ join (t ∷ segments)

join-push_unit :
    (d : ℕ) (s : JsString) (l : List JsString) → join (push_unit d (s ∷ l)) ≡ d ∷ join (s ∷ l)
unfolding push_unit
join-push_unit d s [] = refl
join-push_unit d s (t ∷ l) = refl

-- The segments joined again are the path.
pub join-split : (p : JsString) → join (split b'/' p) ≡ p
unfolding split
join-split [] = refl
join-split (d ∷ p) =
    let (s, l, e) = split-NonEmpty b'/' p in
    let rest : join (s ∷ l) ≡ p = subst (λ z. join z ≡ p) e (join-split p) in
    let push = join-push_unit d s l in
    elim (Bool-cases (d == b'/')) [
      | inl same ↦ let at = (==_iff d b'/').0 same in rw (same, e) (cc (rest, at))
      | inr other ↦ rw (other, e) (cc (push, rest))
    ]

append_assoc : (a b c : JsString) → (a ++ b) ++ c ≡ a ++ (b ++ c)
append_assoc [] b c = refl
append_assoc (x ∷ a) b c = ap (λ l. x ∷ l) (append_assoc a b c)

-- Joining is by a slash, unless nothing stands before.
join_segment_slash : (x s : JsString) → x ≢ [] → join_segment x s ≡ x ++ b'/' ∷ s
unfolding join_segment
join_segment_slash [] s ne = ground (arith, ne refl)
join_segment_slash (c ∷ x) s ne = refl

join_segment-append :
    (x s rest : JsString) → join_segment x (s ++ b'/' ∷ rest) ≡ join_segment x s ++ b'/' ∷ rest
unfolding join_segment
join_segment-append [] s rest = refl
join_segment-append (c ∷ x) s rest = ap (λ l. c ∷ l) (sym (append_assoc x (b'/' ∷ s) (b'/' ∷ rest)))

join_segment_ne : (x s : JsString) → s ≢ [] → join_segment x s ≢ []
unfolding join_segment
join_segment_ne [] s ne = ne
join_segment_ne (c ∷ x) s ne = λ e. cc

join_segment_twice :
    (x s rest : JsString)
    → s ≢ []
    → join_segment (join_segment x s) rest ≡ join_segment x (s ++ b'/' ∷ rest)
join_segment_twice x s rest ne =
    join_segment_slash (join_segment x s) rest (join_segment_ne x s ne)
    ∙ sym (join_segment-append x s rest)

prefix-Below :
    (x d : JsString) (l : List JsString)
    → NonEmpty l
    → contains (prefixes_from x l) d ≡ true
    → Below d (join_segment x (join l))
unfolding prefixes_from contains
prefix-Below x d [] ne h = cc
prefix-Below x d (s ∷ []) ne h = cc
prefix-Below x d (s ∷ t ∷ l) (ne, more) h = elim (Bool-cases (str_eq (join_segment x s) d)) [
  | inl here ↦
      let at = (str_eq_iff (join_segment x s) d).0 here in
      (join (t ∷ l), join_segment-append x s (join (t ∷ l)) ∙ ap (λ z. z ++ b'/' ∷ join (t ∷ l)) at)
  | inr later ↦
      let (rest, e) = prefix-Below (join_segment x s) d (t ∷ l) more (ground arith) in
      (rest, sym (join_segment_twice x s (join (t ∷ l)) ne) ∙ e)
]

Below-prefix :
    (x s : JsString) (l : List JsString) (t : JsString) (m : List JsString)
    → NonEmpty (s ∷ l)
    → contains (prefixes_from x (s ∷ (l ++ t ∷ m))) (join_segment x (join (s ∷ l))) ≡ true
unfolding prefixes_from contains
Below-prefix x s [] t m ne = ground (arith, str_eq_iff (join_segment x s) (join_segment x s))
Below-prefix x s (u ∷ l) t m (ne, more) =
    let later : contains (prefixes_from (join_segment x s) (u ∷ (l ++ t ∷ m)))
          (join_segment x (join (s ∷ u ∷ l)))
        ≡ true =
      subst (λ z. contains (prefixes_from (join_segment x s) (u ∷ (l ++ t ∷ m))) z ≡ true)
        (join_segment_twice x s (join (u ∷ l)) ne) (Below-prefix (join_segment x s) u l t m more) in
    ground (arith, later)

NonEmpty-left : (l m : List JsString) → NonEmpty (l ++ m) → NonEmpty l
NonEmpty-left [] m h = tt
NonEmpty-left (s ∷ l) m (h, hs) = (h, NonEmpty-left l m hs)

above : (d p : JsString) → NonEmpty (split b'/' p) → Below d p → contains (dir_prefixes p) d ≡ true
unfolding dir_prefixes join_segment
above d p ne (rest, e) =
    let (s, l, es) = split-NonEmpty b'/' d in
    let (t, m, et) = split-NonEmpty b'/' rest in
    let cut : split b'/' p ≡ s ∷ (l ++ t ∷ m) =
      ap (split b'/') e ∙ split-append b'/' d rest ∙ cc (es, et) in
    let whole : join_segment [] (join (s ∷ l)) ≡ d = subst (λ z. join z ≡ d) es (join-split d) in
    let ne' : NonEmpty (s ∷ l) = NonEmpty-left (s ∷ l) (t ∷ m) (subst NonEmpty cut ne) in
    let found = Below-prefix [] s l t m ne' in
    rw (cut) (subst (λ z. contains (prefixes_from [] (s ∷ (l ++ t ∷ m))) z ≡ true) whole found)

-- The loop over a path without empty segments meets exactly the directories above it.
pub dir_prefixes_iff :
    (d p : JsString) → NonEmpty (split b'/' p) → (contains (dir_prefixes p) d ≡ true) ↔ Below d p
unfolding dir_prefixes join_segment
dir_prefixes_iff d p ne = (
  λ h. let (rest, e) = prefix-Below [] d (split b'/' p) ne h in (rest, sym (join-split p) ∙ e),
  above d p ne,
)
