-- ===== src/Store/Tables.antt =====
-- Laws of the table operations.
use loop_platform_zhb.Base.{
  ℕ, ◌≡◌, refl, sym, subst, ap, ◌≤◌, ◌+◌, ◌↔◌, ◌⊎◌, inl, inr, Bool, true, false, some, List, [],
  ◌∷◌, ◌++◌, All, arith, any, ◌==◌, if◌then◌else◌, Bool-cases,
}
use mathlib.Core.Option
use loop_platform_zhb.Db.{LoopId, Loop}
use loop_platform_zhb.Store.{
  find_loop, update_loop, select_first, update_where, delete_where, insert_row,
}

-- An update by key changes what is found under that key and nothing else.
pub find_loop-update_loop :
    (id other : LoopId) (f : Loop → Loop)
    → ((l : Loop) → (f l).id ≡ l.id)
    → (rows : List Loop)
    → find_loop other (update_loop id f rows)
      ≡ (if id == other then Option.map f (find_loop other rows) else find_loop other rows)
unfolding find_loop update_loop
find_loop-update_loop id other f keeps [] = ground arith
find_loop-update_loop id other f keeps (l ∷ rows) =
    ground (arith, keeps l, find_loop-update_loop id other f keeps rows)

module _ {ℓ} {A : Type ℓ} where
  abbrev pub count : (A → Bool) → List A → ℕ
  count p [] = 0
  count p (r ∷ rows) = (if p r then 1 else 0) + count p rows

  pub count-insert_row :
      (p : A → Bool) (r : A) (rows : List A)
      → count p (insert_row r rows) ≡ (if p r then 1 else 0) + count p rows
  count-insert_row p r [] = refl
  count-insert_row p r (q ∷ rows) = omega (arith, count-insert_row p r rows)

  -- An update after which no more rows satisfy `p` than before.
  pub count-update_where_le :
      (p q : A → Bool) (f : A → A)
      → ((r : A) → q r ≡ true → p (f r) ≡ true → p r ≡ true)
      → (rows : List A) → count p (update_where q f rows) ≤ count p rows
  count-update_where_le p q f back [] = omega arith
  count-update_where_le p q f back (r ∷ rows) =
      ground (arith, back r, count-update_where_le p q f back rows)

module _ {A : Type 0} where
  -- A row of a table.
  abbrev pub Among : A → List A → Type 0
  Among a [] = ⊥
  Among a (r ∷ rows) = (a ≡ r) ⊎ Among a rows

  -- Every row with a property has become one that is related to it, and every other is as it was.
  abbrev pub Rewritten : (A → Type 0) → (A → A → Type 0) → List A → List A → Type 0
  Rewritten P Q [] [] = Unit
  Rewritten P Q [] (s ∷ new) = ⊥
  Rewritten P Q (r ∷ old) [] = ⊥
  Rewritten P Q (r ∷ old) (s ∷ new) = ((P r × Q r s) ⊎ ((¬ P r) × (s ≡ r))) × Rewritten P Q old new

  -- The rows without a property, in their order.
  abbrev pub Filtered : (A → Type 0) → List A → List A → Type 0
  Filtered P [] new = new ≡ []
  Filtered P (r ∷ old) new =
      (P r × Filtered P old new)
      ⊎ ((¬ P r) × ((rest : List A) × (new ≡ r ∷ rest) × Filtered P old rest))

  pub Rewritten-none :
      (P : A → Type 0) (Q : A → A → Type 0) (rows : List A)
      → All (λ r. ¬ P r) rows
      → Rewritten P Q rows rows
  Rewritten-none P Q [] h = tt
  Rewritten-none P Q (r ∷ rows) h = (inr (h.0, refl), Rewritten-none P Q rows h.1)

  pub insert_row-append : (r : A) (rows : List A) → insert_row r rows ≡ rows ++ (r ∷ [])
  insert_row-append r [] = refl
  insert_row-append r (q ∷ rows) = ap (λ l. q ∷ l) (insert_row-append r rows)

  -- One row with a property, no other like it, and the table with another row in its place.
  pub record Replaced (P : A → Type 0) (Q : A → A → Type 0) (old new : List A) : Type 0 where
    pub before : List A
    pub after : List A
    pub row : A
    pub row' : A
    pub was : old ≡ before ++ (row ∷ after)
    pub is : new ≡ before ++ (row' ∷ after)
    pub holds : P row
    pub becomes : Q row row'
    pub others : All (λ r. ¬ P r) before × All (λ r. ¬ P r) after

  module _ (p : A → Bool) (P : A → Type 0) (reads : (r : A) → (p r ≡ true) ↔ P r) where
    pub any-Among : (rows : List A) → any p rows ≡ true → (r : A) × Among r rows × P r
    any-Among [] h = cc
    any-Among (r ∷ rows) h = elim (Bool-cases (p r)) [
      | inl here ↦ (r, inl refl, (reads r).0 here)
      | inr other ↦ let (q, at, k) = any-Among rows (ground (arith, other)) in (q, inr at, k)
    ]

    pub select_first-Among :
        (rows : List A) (r : A) → select_first p rows ≡ some r → Among r rows × P r
    select_first-Among [] r h = cc
    select_first-Among (q ∷ rows) r h = elim (Bool-cases (p q)) [
      | inl here ↦
          let same : q ≡ r = ground (arith, here) in
          (inl (sym same), subst P same ((reads q).0 here))
      | inr other ↦ let (at, k) = select_first-Among rows r (ground (arith, other)) in (inr at, k)
    ]

    pub any-none : (rows : List A) → any p rows ≡ false → All (λ r. ¬ P r) rows
    any-none [] h = tt
    any-none (r ∷ rows) h = (λ k. ground (arith, (reads r).1 k), any-none rows (ground arith))

    pub delete_where-Filtered : (rows : List A) → Filtered P rows (delete_where p rows)
    delete_where-Filtered [] = refl
    delete_where-Filtered (r ∷ rows) = elim (Bool-cases (p r)) [
      | inl hit ↦ rw hit (inl ((reads r).0 hit, delete_where-Filtered rows))
      | inr miss ↦
          rw miss (inr (λ k. ground (arith, (reads r).1 k), (_, refl, delete_where-Filtered rows)))
    ]

    count-none : (rows : List A) → count p rows ≡ 0 → All (λ r. ¬ P r) rows
    count-none [] h = tt
    count-none (r ∷ rows) h = (λ k. ground (arith, (reads r).1 k), count-none rows (ground arith))

    module _ (Q : A → A → Type 0) (f : A → A) (writes : (r : A) → P r → Q r (f r)) where
      pub update_where-Rewritten : (rows : List A) → Rewritten P Q rows (update_where p f rows)
      update_where-Rewritten [] = tt
      update_where-Rewritten (r ∷ rows) = elim (Bool-cases (p r)) [
        | inl hit ↦
            rw hit (inl ((reads r).0 hit, writes r ((reads r).0 hit)), update_where-Rewritten rows)
        | inr miss ↦
            rw miss (inr (λ k. ground (arith, (reads r).1 k), refl), update_where-Rewritten rows)
      ]

      update_where-none : (rows : List A) → count p rows ≡ 0 → update_where p f rows ≡ rows
      update_where-none [] h = refl
      update_where-none (r ∷ rows) h = ground (arith, update_where-none rows)

      pub update_where-Replaced :
          (rows : List A) → count p rows ≡ 1 → Replaced P Q rows (update_where p f rows)
      update_where-Replaced [] h = cc
      update_where-Replaced (r ∷ rows) h = elim (Bool-cases (p r)) [
        | inl hit ↦
            let rest : count p rows ≡ 0 = ground (arith, hit) in
            record {
              before = [];
              after = rows;
              row = r;
              row' = f r;
              was = refl;
              is = rw (hit, update_where-none rows rest) refl;
              holds = (reads r).0 hit;
              becomes = writes r ((reads r).0 hit);
              others = (tt, count-none rows rest);
            }
        | inr miss ↦
            let w = update_where-Replaced rows (ground (arith, miss)) in
            record {
              before = r ∷ w.before;
              after = w.after;
              row = w.row;
              row' = w.row';
              was = ap (λ l. r ∷ l) w.was;
              is = rw miss (ap (λ l. r ∷ l) w.is);
              holds = w.holds;
              becomes = w.becomes;
              others = ((λ k. ground (arith, (reads r).1 k), w.others.0), w.others.1);
            }
      ]
