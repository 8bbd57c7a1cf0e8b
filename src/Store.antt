-- ===== src/Store.antt =====
-- The database of packages/server and the bounded guard retry of packages/server/src/store/guard-retry.ts.
-- A table is a list of rows. A primary key is unique, so that an update by key is an update of the
-- first row with it. An operation that resolves a snapshot before its transaction takes two
-- databases: the one that it saw and the one that it writes; between them others may have committed.
pub mod Tables
pub mod Occ
pub mod Dates
pub mod Manage
pub mod Runs
pub mod Report
pub mod Schedules
pub mod Binding
pub mod Configuration
pub mod Machines
use loop_platform_zhb.Base.{
  ℕ, ◌+◌, Bool, true, false, ◌&&◌, ◌||◌, Option, none, some, List, [], ◌∷◌, ◌==◌, if◌then◌else◌,
  map, any, filter,
}
use loop_platform_zhb.Db.{
  IsoTime, LoopId, RunId, MachineId, Loop, Run, RunLeaseRow, Machine, ArtifactManifestRow, RunPhase,
  phase_eq,
}

pub record Database : Type 0 where
  pub loops : List Loop
  pub runs : List Run
  pub leases : List RunLeaseRow
  pub machines : List Machine
  pub manifests : List ArtifactManifestRow

-- One reading of the injected clock, as the number and as the text of `toISOString()`.
pub record Clock : Type 0 where
  pub ms : ℕ
  pub iso : IsoTime

module _ {ℓ} {A : Type ℓ} where
  -- `(await SELECT … WHERE p)[0]`
  abbrev pub select_first : (A → Bool) → List A → Option A
  select_first p [] = none
  select_first p (r ∷ rows) = let rest = select_first p rows in if p r then some r else rest

  -- `UPDATE … SET f WHERE p`
  abbrev pub update_where : (A → Bool) → (A → A) → List A → List A
  update_where p f [] = []
  update_where p f (r ∷ rows) = (if p r then f r else r) ∷ update_where p f rows

  -- `DELETE … WHERE p`
  abbrev pub delete_where : (A → Bool) → List A → List A
  delete_where p [] = []
  delete_where p (r ∷ rows) = let rest = delete_where p rows in if p r then rest else r ∷ rest

  -- `INSERT`
  abbrev pub insert_row : A → List A → List A
  insert_row r [] = r ∷ []
  insert_row r (q ∷ rows) = q ∷ insert_row r rows

unfoldable pub find_loop : LoopId → List Loop → Option Loop
find_loop id [] = none
find_loop id (l ∷ rows) = let rest = find_loop id rows in if l.id == id then some l else rest

-- An update by primary key.
unfoldable pub update_loop : LoopId → (Loop → Loop) → List Loop → List Loop
update_loop id f [] = []
update_loop id f (l ∷ rows) =
    let rest = l ∷ update_loop id f rows in if l.id == id then f l ∷ rows else rest

-- `UPDATE loops SET f WHERE id = ? AND revision = ? RETURNING`: `none` where no row matches.
unfoldable pub cas_loop : LoopId → ℕ → (Loop → Loop) → List Loop → Option (Loop × List Loop)
cas_loop id revision f rows = elim (find_loop id rows) [
  | none ↦ none
  | some l ↦ if l.revision == revision then some (f l, update_loop id f rows) else none
]

-- An attempt settles with a result, or loses its guard and is rolled back.
pub data Settled (R : Type 0) : Type 0 where
  settled : R → Database → Settled R
  guard_lost : Settled R

pub data Retried (R : Type 0) : Type 0 where
  result : R → Database → Retried R
  race_lost : Retried R

-- The database that each of the two attempts sees and the one that it writes.
pub record Moments : Type 0 where
  pub seen : Database
  pub now : Database
  pub seen_again : Database
  pub now_again : Database

abbrev second_attempt : {R : Type 0} → Settled R → Retried R
second_attempt (settled r db) = result r db
second_attempt guard_lost = race_lost

unfoldable pub with_guard_retry :
    {R : Type 0} → (Database → Database → Settled R) → Moments → Retried R
with_guard_retry attempt m = elim (attempt m.seen m.now) [
  | settled r db ↦ result r db
  | guard_lost ↦ second_attempt (attempt m.seen_again m.now_again)
]
