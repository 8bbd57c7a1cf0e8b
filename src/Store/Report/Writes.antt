-- ===== src/Store/Report/Writes.antt =====
-- packages/server/src/store/report.ts: the guarded writes of the report transaction, one by one.
use loop_platform_zhb.Base.{
  ℕ, ◌≤◌, ◌≡◌, refl, subst, inl, inr, Bool, true, false, some, List, [], ◌∷◌, arith, any, ◌==◌,
  Bool-cases,
}
use loop_platform_zhb.Db.{TokenHash, Loop, Run, RunLeaseRow, LeaseState}
use loop_platform_zhb.WriteSet.{RunWrites, apply_run_writes}
use loop_platform_zhb.Lifecycle.Report.Laws.{Ends}
use loop_platform_zhb.Store.{Database, delete_where}
use loop_platform_zhb.Store.Occ.{Evolves-trans}
use loop_platform_zhb.Store.Tables.{count, count-update_where_le}
use loop_platform_zhb.Store.Manage.{is_live}
use loop_platform_zhb.Store.Manage.Laws.{Kept, Kept-refl}
use loop_platform_zhb.Store.Runs.Inflight.{live_exec}
use loop_platform_zhb.Store.Runs.Live.{Sound}
use loop_platform_zhb.Store.Report.{observed, delete_observed_lease, unchanged, write_run}

-- The leases under a credential; one at most, for it is the table's key.
abbrev pub has_token : TokenHash → RunLeaseRow → Bool
has_token token_hash lease = lease.token_hash == token_hash

abbrev pub leases_under : TokenHash → Database → ℕ
leases_under token_hash db = count (has_token token_hash) db.leases

Kept-trans : (a b c : List Loop) → Kept a b → Kept b c → Kept a c
Kept-trans a b c h k = record {
  evolves = Evolves-trans a b c h.evolves k.evolves;
  valid = λ v. k.valid (h.valid v);
}

pub Sound-trans : (a b c : Database) → Sound a b → Sound b c → Sound a c
Sound-trans a b c h k = record {
  loops = Kept-trans a.loops b.loops c.loops h.loops k.loops;
  one = λ o. k.one (h.one o);
}

module _ {A : Type 0} where
  any-count_ge : (p : A → Bool) (rows : List A) → any p rows ≡ true → 1 ≤ count p rows
  any-count_ge p [] h = cc
  any-count_ge p (r ∷ rows) h = ground (arith, any-count_ge p rows)

  count-delete_where_le :
      (p q : A → Bool) (rows : List A) → count p (delete_where q rows) ≤ count p rows
  count-delete_where_le p q [] = omega arith
  count-delete_where_le p q (r ∷ rows) = ground (arith, count-delete_where_le p q rows)

  count_mono :
      (p q : A → Bool)
      → ((r : A) → p r ≡ true → q r ≡ true)
      → (rows : List A) → count p rows ≤ count q rows
  count_mono p q imp [] = omega arith
  count_mono p q imp (r ∷ rows) = ground (arith, imp r, count_mono p q imp rows)

  -- The only row of a key is deleted by a narrower condition that some row satisfies.
  delete_where-only :
      (p q : A → Bool)
      → ((r : A) → q r ≡ true → p r ≡ true)
      → (rows : List A) → any q rows ≡ true
      → count p rows ≤ 1
      → count p (delete_where q rows) ≡ 0
  delete_where-only p q imp [] h k = cc
  delete_where-only p q imp (r ∷ rows) h k = ground (
    arith,
    imp r,
    any-count_ge q rows,
    count_mono q p imp rows,
    count-delete_where_le p q rows,
    delete_where-only p q imp rows,
  )

-- A write that leaves the leases as they are.
pub record Quiet (before after : Database) : Type 0 where
  pub sound : Sound before after
  pub same_leases : after.leases ≡ before.leases

-- The deletion of the lease that was read.
pub record Consumes (token_hash : TokenHash) (before after : Database) : Type 0 where
  pub sound : Sound before after
  pub same_runs : after.runs ≡ before.runs
  pub same_loops : after.loops ≡ before.loops
  pub gone : leases_under token_hash before ≤ 1 → leases_under token_hash after ≡ 0

some-inj : {A : Type 0} {a b : A} → some a ≡ some b → a ≡ b
some-inj h = cc

observed-has_token :
    (token_hash : TokenHash) (state : LeaseState) (l : RunLeaseRow)
    → observed token_hash state l ≡ true
    → has_token token_hash l ≡ true
observed-has_token token_hash state l h = ground arith

pub delete_observed_lease-Consumes :
    (token_hash : TokenHash) (state : LeaseState) (now db : Database)
    → delete_observed_lease token_hash state now ≡ some db
    → Consumes token_hash now db
unfolding delete_observed_lease
delete_observed_lease-Consumes token_hash state now db h =
    elim (Bool-cases (any (observed token_hash state) now.leases)) [
      | inr lost ↦ absurd (ground arith)
      | inl seen ↦
          subst (Consumes token_hash now) (some-inj (rw (seen, delete_observed_lease) at h))
            (record {
              sound = record { loops = Kept-refl now.loops; one = λ o. o };
              same_runs = refl;
              same_loops = refl;
              gone = λ k.
                  delete_where-only (has_token token_hash) (observed token_hash state)
                    (observed-has_token token_hash state) now.leases seen k;
            })
    ]

Ends-dead : (w : RunWrites) → Ends w → is_live w.phase ≡ false
Ends-dead w (inl (p, o, e)) = rw p refl
Ends-dead w (inr (p, o, e)) = rw p refl

pub write_run-Quiet :
    (run : Run) (w : RunWrites) (now db : Database)
    → Ends w
    → write_run run w now ≡ some db
    → Quiet now db
unfolding write_run apply_run_writes
write_run-Quiet run w now db ends h = elim (Bool-cases (any (unchanged run) now.runs)) [
  | inr lost ↦ absurd (ground arith)
  | inl seen ↦ subst (Quiet now) (some-inj (rw (seen, write_run) at h)) (record {
    sound = record {
      loops = Kept-refl now.loops;
      one = λ o id. omega (
        arith,
        o id,
        count-update_where_le (live_exec id) (unchanged run) (apply_run_writes w)
            (λ r g k. ground (arith, Ends-dead w ends)) now.runs,
      );
    };
    same_leases = refl;
  })
]
