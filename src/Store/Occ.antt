-- ===== src/Store/Occ.antt =====
-- packages/server/src/store/guard-retry.ts: the concurrency token of loops, under interference.
use loop_platform_zhb.Base.{
  ℕ, ◌+◌, ◌<◌, ◌≡◌, refl, sym, subst, ◌⊎◌, inl, inr, Option, none, some, List, arith, Bool-cases,
  Option-cases, ◌==◌,
}
use mathlib.Core.Option
use loop_platform_zhb.Db.{LoopId, Loop}
use loop_platform_zhb.Store.{
  Database, find_loop, update_loop, cas_loop, Settled, settled, guard_lost, result, Moments,
  with_guard_retry,
}
use loop_platform_zhb.Store.Tables.{find_loop-update_loop}

-- A row stays as it is, or its token has grown; it does not disappear.
abbrev pub Newer : Option Loop → Option Loop → Type 0
Newer none later = Unit
Newer (some l) none = ⊥
Newer (some l) (some l') = (l' ≡ l) ⊎ (l.revision < l'.revision)

abbrev pub Evolves : List Loop → List Loop → Type 0
Evolves old new = (id : LoopId) → Newer (find_loop id old) (find_loop id new)

Newer-refl : (o : Option Loop) → Newer o o
Newer-refl none = tt
Newer-refl (some l) = inl refl

Newer-trans : (a b c : Option Loop) → Newer a b → Newer b c → Newer a c
Newer-trans none b c h k = tt
Newer-trans (some l) none c h k = absurd h
Newer-trans (some l) (some m) none h k = absurd k
Newer-trans (some l) (some m) (some n) h k = ground arith

pub Evolves-refl : (rows : List Loop) → Evolves rows rows
Evolves-refl rows id = Newer-refl (find_loop id rows)

pub Evolves-trans : (a b c : List Loop) → Evolves a b → Evolves b c → Evolves a c
Evolves-trans a b c h k id =
    Newer-trans (find_loop id a) (find_loop id b) (find_loop id c) (h id) (k id)

-- A function that writes a row and bumps its token.
pub record Bumps (f : Loop → Loop) : Type 0 where
  pub same_id : (l : Loop) → (f l).id ≡ l.id
  pub next : (l : Loop) → (f l).revision ≡ l.revision + 1

map-Newer : (f : Loop → Loop) → Bumps f → (o : Option Loop) → Newer o (Option.map f o)
map-Newer f b none = tt
map-Newer f b (some l) = inr (omega (arith, b.next l))

update_loop-Evolves :
    (id : LoopId) (f : Loop → Loop)
    → Bumps f
    → (rows : List Loop) → Evolves rows (update_loop id f rows)
update_loop-Evolves id f b rows other =
    rw (find_loop-update_loop id other f b.same_id rows) (elim (Bool-cases (id == other)) [
      | inl same ↦ rw same (map-Newer f b (find_loop other rows))
      | inr different ↦ rw different (Newer-refl (find_loop other rows))
    ])

pub cas_loop-inv :
    (id : LoopId) (revision : ℕ) (f : Loop → Loop) (rows : List Loop) (new : Loop)
    (rows' : List Loop)
    → cas_loop id revision f rows ≡ some (new, rows')
    → (l : Loop) × (find_loop id rows ≡ some l)
      × (l.revision ≡ revision)
      × (new ≡ f l)
      × (rows' ≡ update_loop id f rows)
unfolding cas_loop
cas_loop-inv id revision f rows new rows' h = elim (Option-cases (find_loop id rows)) [
  | inl missing ↦ absurd (ground arith)
  | inr (l, e) ↦ (l, e, ground arith, ground arith, ground arith)
]

pub cas_loop-Evolves :
    (id : LoopId) (revision : ℕ) (f : Loop → Loop) (rows : List Loop) (new : Loop)
    (rows' : List Loop)
    → Bumps f
    → cas_loop id revision f rows ≡ some (new, rows')
    → Evolves rows rows'
cas_loop-Evolves id revision f rows new rows' b h =
    let (l, e, r, n, s) = cas_loop-inv id revision f rows new rows' h in
    subst (Evolves rows) (sym s) (update_loop-Evolves id f b rows)

same_token :
    (o p : Option Loop) (l m : Loop)
    → Newer o p
    → o ≡ some l
    → p ≡ some m
    → m.revision ≡ l.revision
    → m ≡ l
same_token none p l m n h k e = cc
same_token (some a) none l m n h k e = cc
same_token (some a) (some b) l m n h k e = ground arith

-- Under token-increasing interference, a write guarded by the token of a row seen earlier lands, if
-- it succeeds, on that very row, and returns the function of it.
pub cas_loop-lands :
    (seen now : List Loop) (id : LoopId) (l : Loop) (f : Loop → Loop) (new : Loop)
    (rows' : List Loop)
    → Evolves seen now
    → find_loop id seen ≡ some l
    → cas_loop id l.revision f now ≡ some (new, rows')
    → (find_loop id now ≡ some l) × (new ≡ f l)
cas_loop-lands seen now id l f new rows' ev s h =
    let (m, e, r, n, rest) = cas_loop-inv id l.revision f now new rows' h in
    let same = same_token (find_loop id seen) (find_loop id now) l m (ev id) s e r in
    (subst (λ x. find_loop id now ≡ some x) same e, subst (λ x. new ≡ f x) same n)

-- The row that a guarded write returns is the one found afterwards.
pub cas_loop-found :
    (id : LoopId) (f : Loop → Loop) (now rows : List Loop) (l new : Loop)
    → Bumps f
    → find_loop id now ≡ some l
    → cas_loop id l.revision f now ≡ some (new, rows)
    → find_loop id rows ≡ some (f l)
unfolding cas_loop
cas_loop-found id f now rows l new b e h =
    let (m, e', r, n, same) = cas_loop-inv id l.revision f now new rows h in
    rw (same, find_loop-update_loop id id f b.same_id now, e) (ground arith)

module _ {R : Type 0} where
  Settled-cases :
      (s : Settled R) → (s ≡ guard_lost) ⊎ ((r : R) × (db : Database) × (s ≡ settled r db))
  Settled-cases guard_lost = inl refl
  Settled-cases (settled r db) = inr (r, db, refl)

  -- A retried operation's result is that of its first attempt, or of the second after the first
  -- lost its guard.
  pub with_guard_retry-inv :
      (attempt : Database → Database → Settled R) (m : Moments) (r : R) (db : Database)
      → with_guard_retry attempt m ≡ result r db
      → (attempt m.seen m.now ≡ settled r db)
        ⊎ ((attempt m.seen m.now ≡ guard_lost) × (attempt m.seen_again m.now_again ≡ settled r db))
  unfolding with_guard_retry
  with_guard_retry-inv attempt m r db h = elim (Settled-cases (attempt m.seen m.now)) [
    | inl lost ↦ elim (Settled-cases (attempt m.seen_again m.now_again)) [
      | inl lost_again ↦ absurd (ground arith)
      | inr (q, db', e) ↦ inr (lost, ground arith)
    ]
    | inr (q, db', e) ↦ inl (ground arith)
  ]
