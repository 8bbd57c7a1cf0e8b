-- ===== src/Artifact/NeverSync.antt =====
-- packages/protocol/src/artifact-policy.ts: the never-sync rules on folded paths.
use loop_platform_zhb.Base.{
  ℕ, ◌≡◌, refl, ap, JsString, Bool, true, List, [], ◌∷◌, ◌++◌, map, any, arith, ◌==◌, Bool-cases,
  inl, inr,
}
use loop_platform_zhb.Artifact.{
  ascii_lower, lower_unit, split, push_unit, window_at, has_window,
  matches_never_sync_directory_window, folded_segments, is_never_sync_path,
  is_never_sync_directory_path, never_sync_directory_rules,
}

ascii_lower_idem : (s : JsString) → ascii_lower (ascii_lower s) ≡ ascii_lower s
unfolding ascii_lower
ascii_lower_idem [] = refl
ascii_lower_idem (c ∷ s) = ground (arith, ascii_lower_idem s)

push_unit-folded :
    (c d : ℕ) (l l' : List JsString)
    → lower_unit c ≡ lower_unit d
    → map ascii_lower l ≡ map ascii_lower l'
    → map ascii_lower (push_unit c l) ≡ map ascii_lower (push_unit d l')
unfolding push_unit ascii_lower
push_unit-folded c d [] [] h e = ap (λ x. (x ∷ []) ∷ []) h
push_unit-folded c d [] (s ∷ l) h e = cc
push_unit-folded c d (s ∷ l) [] h e = cc
push_unit-folded c d (s ∷ l) (t ∷ l') h e = cc (h, e)

split-ascii_lower :
    (p : JsString) → map ascii_lower (split b'/' (ascii_lower p)) ≡ map ascii_lower (split b'/' p)
unfolding split ascii_lower
split-ascii_lower [] = refl
split-ascii_lower (c ∷ s) =
    let step =
      push_unit-folded (lower_unit c) c (split b'/' (ascii_lower s)) (split b'/' s) (ground arith)
        (split-ascii_lower s) in
    ground (arith, split-ascii_lower s, step)

-- Folding the letters changes neither answer.
pub is_never_sync_path-ascii_lower :
    (p : JsString)
    → (is_never_sync_path (ascii_lower p) ≡ is_never_sync_path p)
      × (is_never_sync_directory_path (ascii_lower p) ≡ is_never_sync_directory_path p)
unfolding is_never_sync_path is_never_sync_directory_path
is_never_sync_path-ascii_lower p = (rw (split-ascii_lower p) refl, rw (split-ascii_lower p) refl)

push_unit-append :
    (d : ℕ) (s : JsString) (l m : List JsString)
    → push_unit d ((s ∷ l) ++ m) ≡ push_unit d (s ∷ l) ++ m
unfolding push_unit
push_unit-append d s l m = refl

pub split-NonEmpty :
    (c : ℕ) (p : JsString) → (s : JsString) × (l : List JsString) × (split c p ≡ s ∷ l)
unfolding split push_unit
split-NonEmpty c [] = ([], [], refl)
split-NonEmpty c (d ∷ p) =
    let (s, l, e) = split-NonEmpty c p in
    elim (Bool-cases (d == c)) [
      | inl same ↦ ([], split c p, rw same refl)
      | inr other ↦ (d ∷ s, l, rw (other, e) refl)
    ]

-- A separator splits the text in two.
pub split-append : (c : ℕ) (p q : JsString) → split c (p ++ c ∷ q) ≡ split c p ++ split c q
unfolding split
split-append c [] q = ground arith
split-append c (d ∷ p) q =
    let (s, l, e) = split-NonEmpty c p in
    let both = split-append c p q in
    let push = push_unit-append d s l (split c q) in
    elim (Bool-cases (d == c)) [
      | inl same ↦ rw (same, both) refl
      | inr other ↦ rw (other, both, e) push
    ]

map-append : {A B : Type 0} (f : A → B) (l m : List A) → map f (l ++ m) ≡ map f l ++ map f m
map-append f [] m = refl
map-append f (x ∷ l) m = cc (map-append f l m)

window_at-append :
    (rule l m : List JsString) → window_at rule l ≡ true → window_at rule (l ++ m) ≡ true
unfolding window_at
window_at-append [] l m h = refl
window_at-append (r ∷ rule) [] m h = cc
window_at-append (r ∷ rule) (s ∷ l) m h = ground (arith, window_at-append rule l m)

has_window_nil : (rule m : List JsString) → window_at rule [] ≡ true → has_window rule m ≡ true
unfolding window_at has_window
has_window_nil [] [] h = refl
has_window_nil [] (s ∷ m) h = refl
has_window_nil (r ∷ rule) m h = cc

has_window-append :
    (rule l m : List JsString) → has_window rule l ≡ true → has_window rule (l ++ m) ≡ true
unfolding has_window
has_window-append rule [] m h = has_window_nil rule m h
has_window-append rule (s ∷ l) m h =
    ground (arith, window_at-append rule (s ∷ l) m, has_window-append rule l m)

has_window_below :
    (rule l m : List JsString) → has_window rule m ≡ true → has_window rule (l ++ m) ≡ true
unfolding has_window
has_window_below rule [] m h = h
has_window_below rule (s ∷ l) m h = ground (arith, has_window_below rule l m h)

any_mono :
    {A : Type 0} (p q : A → Bool)
    → ((x : A) → p x ≡ true → q x ≡ true)
    → (l : List A) → any p l ≡ true
    → any q l ≡ true
any_mono p q f [] h = cc
any_mono p q f (x ∷ l) h = ground (arith, f x, any_mono p q f l)

matches_below :
    (l m : List JsString)
    → matches_never_sync_directory_window l ≡ true
    → matches_never_sync_directory_window (l ++ m) ≡ true
unfolding matches_never_sync_directory_window
matches_below l m h =
    any_mono _ _ (λ rule. has_window-append (split b'/' (ascii_lower rule)) l m)
      never_sync_directory_rules h

matches_above :
    (l m : List JsString)
    → matches_never_sync_directory_window m ≡ true
    → matches_never_sync_directory_window (l ++ m) ≡ true
unfolding matches_never_sync_directory_window
matches_above l m h =
    any_mono _ _ (λ rule. has_window_below (split b'/' (ascii_lower rule)) l m)
      never_sync_directory_rules h

folded_append :
    (p q : JsString) → folded_segments (p ++ b'/' ∷ q) ≡ folded_segments p ++ folded_segments q
folded_append p q =
    rw (split-append b'/' p q) (map-append ascii_lower (split b'/' p) (split b'/' q))

-- What stands below a never-sync directory is a never-sync path, and such a directory stays one
-- below any other directory.
pub is_never_sync_directory_path-spreads :
    (above d below : JsString)
    → is_never_sync_directory_path d ≡ true
    → (is_never_sync_directory_path (above ++ b'/' ∷ d) ≡ true)
      × (is_never_sync_path (d ++ b'/' ∷ below) ≡ true)
      × (is_never_sync_path (above ++ b'/' ∷ (d ++ b'/' ∷ below)) ≡ true)
unfolding is_never_sync_path is_never_sync_directory_path
is_never_sync_directory_path-spreads above d below h =
    let up = matches_above (folded_segments above) (folded_segments d) h in
    let down = matches_below (folded_segments d) (folded_segments below) h in
    let both =
      matches_above (folded_segments above) (folded_segments d ++ folded_segments below) down in
    (
      rw (folded_append above d) up,
      rw (folded_append d below, down) refl,
      rw (folded_append above (d ++ b'/' ∷ below), folded_append d below, both) refl,
    )
