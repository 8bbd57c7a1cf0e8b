-- ===== src/Terminal/Capabilities.antt =====
-- packages/protocol/src/terminal-policy.ts: capability snapshots.
use loop_platform_zhb.Base.{
  ◌≡◌, refl, sym, subst, ap, ◌∙◌, ◌||◌, inl, inr, JsString, true, false, Option, none, some, List,
  [], ◌∷◌, arith, Bool-cases, All, str_eq, str_eq_iff, str_eq_refl,
}
use loop_platform_zhb.Terminal.{
  str_lt, insert_sorted, sorted_set, normalize_capabilities, contains, has_terminal_journal_v1,
  terminal_journal_v1_capability,
}

pub str_lt_irrefl : (s : JsString) → str_lt s s ≡ false
unfolding str_lt
str_lt_irrefl [] = refl
str_lt_irrefl (c ∷ s) = ground (arith, str_lt_irrefl s)

pub str_lt_trans : (s t u : JsString) → str_lt s t ≡ true → str_lt t u ≡ true → str_lt s u ≡ true
unfolding str_lt
str_lt_trans s [] u h k = cc
str_lt_trans s (d ∷ t) [] h k = cc
str_lt_trans [] (d ∷ t) (e ∷ u) h k = refl
str_lt_trans (c ∷ s) (d ∷ t) (e ∷ u) h k = ground (arith, str_lt_trans s t u)

pub str_lt_total : (s t : JsString) → str_lt s t ≡ false → str_eq s t ≡ false → str_lt t s ≡ true
unfolding str_lt str_eq
str_lt_total [] [] h k = cc
str_lt_total [] (d ∷ t) h k = cc
str_lt_total (c ∷ s) [] h k = refl
str_lt_total (c ∷ s) (d ∷ t) h k = ground (arith, str_lt_total s t)

-- Strictly ascending in code-unit order, so no value stands twice.
abbrev pub Ascending : List JsString → Type 0
Ascending [] = Unit
Ascending (x ∷ xs) = All (λ y. str_lt x y ≡ true) xs × Ascending xs

pub All-trans :
    (x y : JsString) (zs : List JsString)
    → str_lt x y ≡ true
    → All (λ z. str_lt y z ≡ true) zs
    → All (λ z. str_lt x z ≡ true) zs
All-trans x y [] h a = tt
All-trans x y (z ∷ zs) h a = (str_lt_trans x y z h a.0, All-trans x y zs h a.1)

All-insert_sorted :
    (w x : JsString) (ys : List JsString)
    → str_lt w x ≡ true
    → All (λ z. str_lt w z ≡ true) ys
    → All (λ z. str_lt w z ≡ true) (insert_sorted x ys)
unfolding insert_sorted
All-insert_sorted w x [] h a = (h, tt)
All-insert_sorted w x (y ∷ ys) h a = ground (arith, All-insert_sorted w x ys h a.1)

insert_sorted-Ascending :
    (x : JsString) (ys : List JsString) → Ascending ys → Ascending (insert_sorted x ys)
unfolding insert_sorted
insert_sorted-Ascending x [] a = (tt, tt)
insert_sorted-Ascending x (y ∷ ys) (above, a) = elim (Bool-cases (str_lt x y)) [
  | inl less ↦ rw less ((less, All-trans x y ys less above), (above, a))
  | inr not_less ↦ elim (Bool-cases (str_eq x y)) [
    | inl same ↦ rw (not_less, same) (above, a)
    | inr other ↦
        rw (not_less, other)
          (
            All-insert_sorted y x ys (str_lt_total x y not_less other) above,
            insert_sorted-Ascending x ys a,
          )
  ]
]

sorted_set-Ascending : (xs : List JsString) → Ascending (sorted_set xs)
unfolding sorted_set
sorted_set-Ascending [] = tt
sorted_set-Ascending (x ∷ xs) = insert_sorted-Ascending x (sorted_set xs) (sorted_set-Ascending xs)

contains-insert_sorted :
    (x z : JsString) (ys : List JsString)
    → contains (insert_sorted x ys) z ≡ (str_eq x z || contains ys z)
unfolding insert_sorted contains
contains-insert_sorted x z [] = refl
contains-insert_sorted x z (y ∷ ys) =
    ground (arith, contains-insert_sorted x z ys, str_eq_iff x y, str_eq_iff x z, str_eq_iff y z)

contains-sorted_set :
    (z : JsString) (xs : List JsString) → contains (sorted_set xs) z ≡ contains xs z
unfolding sorted_set contains
contains-sorted_set z [] = refl
contains-sorted_set z (x ∷ xs) =
    ground (arith, contains-insert_sorted x z (sorted_set xs), contains-sorted_set z xs)

All-contains :
    (x z : JsString) (ys : List JsString)
    → All (λ y. str_lt x y ≡ true) ys
    → contains ys z ≡ true
    → str_lt x z ≡ true
unfolding contains
All-contains x z [] a h = cc
All-contains x z (y ∷ ys) a h = ground (arith, All-contains x z ys a.1, str_eq_iff y z)

abbrev SameMembers : List JsString → List JsString → Type 0
SameMembers xs ys = (z : JsString) → contains xs z ≡ contains ys z

head_eq :
    (x y : JsString) (xs ys : List JsString)
    → Ascending (x ∷ xs)
    → Ascending (y ∷ ys)
    → SameMembers (x ∷ xs) (y ∷ ys)
    → x ≡ y
unfolding contains
head_eq x y xs ys a b same = ground (
  arith,
  same x,
  same y,
  str_eq_iff x y,
  str_eq_iff y x,
  str_eq_refl x,
  str_eq_refl y,
  All-contains x y xs a.0,
  All-contains y x ys b.0,
  str_lt_trans x y x,
  str_lt_irrefl x,
)

tail_same :
    (x : JsString) (xs ys : List JsString)
    → Ascending (x ∷ xs)
    → Ascending (x ∷ ys)
    → SameMembers (x ∷ xs) (x ∷ ys)
    → SameMembers xs ys
unfolding contains
tail_same x xs ys a b same z = ground (
  arith,
  same z,
  str_eq_iff x z,
  All-contains x x xs a.0,
  All-contains x x ys b.0,
  str_lt_irrefl x,
)

Ascending-unique :
    (xs ys : List JsString) → Ascending xs → Ascending ys → SameMembers xs ys → xs ≡ ys
unfolding contains
Ascending-unique [] [] a b same = refl
Ascending-unique [] (y ∷ ys) a b same = ground (arith, same y, str_eq_refl y)
Ascending-unique (x ∷ xs) [] a b same = ground (arith, same x, str_eq_refl x)
Ascending-unique (x ∷ xs) (y ∷ ys) a b same =
    let e : x ≡ y = head_eq x y xs ys a b same in
    let b' : Ascending (x ∷ ys) = subst (λ w. Ascending (w ∷ ys)) (sym e) b in
    let same' : SameMembers (x ∷ xs) (x ∷ ys) =
      subst (λ w. SameMembers (x ∷ xs) (w ∷ ys)) (sym e) same in
    let tails = Ascending-unique xs ys a.1 b'.1 (tail_same x xs ys a b' same') in cc (e, tails)

-- A declared snapshot is stored strictly ascending and with exactly the declared members.
pub normalize_capabilities-Ascending :
    (declared : List JsString)
    → (stored : List JsString) × (normalize_capabilities (some declared) ≡ some stored)
      × Ascending stored
      × ((z : JsString) → contains stored z ≡ contains declared z)
unfolding normalize_capabilities
normalize_capabilities-Ascending declared =
    (sorted_set declared, refl, sorted_set-Ascending declared, λ z. contains-sorted_set z declared)

-- Two declarations with the same members give the same snapshot, whatever their order and
-- repetitions.
pub normalize_capabilities_canonical :
    (a b : List JsString)
    → ((z : JsString) → contains a z ≡ contains b z)
    → normalize_capabilities (some a) ≡ normalize_capabilities (some b)
unfolding normalize_capabilities
normalize_capabilities_canonical a b same = ap some (
    Ascending-unique (sorted_set a) (sorted_set b) (sorted_set-Ascending a) (sorted_set-Ascending b)
      (λ z. contains-sorted_set z a ∙ same z ∙ sym (contains-sorted_set z b)))

-- Normalising keeps the answer of the terminal-journal gate.
pub has_terminal_journal_v1-normalize :
    (input : Option (List JsString))
    → has_terminal_journal_v1 (normalize_capabilities input) ≡ has_terminal_journal_v1 input
unfolding has_terminal_journal_v1 normalize_capabilities
has_terminal_journal_v1-normalize none = refl
has_terminal_journal_v1-normalize (some input) =
    contains-sorted_set terminal_journal_v1_capability input
