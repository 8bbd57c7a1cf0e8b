-- ===== src/Store/Machines/Returns.antt =====
-- packages/server/src/store/machines.ts: a contact that nothing interferes with.
use loop_platform_zhb.Base.{
  ◌≡◌, refl, sym, ap, subst, ◌∙◌, inl, inr, JsString, Bool, true, false, ◌&&◌, not, Option, some,
  List, [], ◌∷◌, arith, ◌==◌, any, Bool-cases,
}
use loop_platform_zhb.Db.{IsoTime, MachineId, Machine}
use loop_platform_zhb.Schedule.Laws.{opt_str_eq_iff}
use loop_platform_zhb.Store.{Database, Clock, update_where}
use loop_platform_zhb.Store.Dates.{DateApi}
use loop_platform_zhb.Store.Runs.{find_machine}
use loop_platform_zhb.Store.Machines.{
  PollIdentity, contact_patch, identity_changed, Observed, to_repair, legal, observe, apply_patch,
  greatest_of, tried, observed_row, settle_contact, try_apply_contact, ContactMoment, contacted,
  contact_turns, apply_machine_poll_contact,
}
use loop_platform_zhb.Store.Machines.Contact.{
  if_true, find_machine-update_where, apply_patch-id, apply_patch-last_seen, observe-broken,
  PicksLater,
}
use loop_platform_zhb.Store.Machines.Fresh.{
  Identified, applied-Identified, quiet-Identified, IsAlive, stamped-IsAlive, IsStored,
  fresh-IsAlive, later-IsAlive,
}

-- What a contact leaves: the row that is read back is alive and has the identity that was reported.
pub record Contacted (date : DateApi) (clock : Clock) (identity : PollIdentity)
    (declared : Option (List JsString)) (old : Machine) (row : Option Machine) (db : Database)
    : Type 0 where
  pub new : Machine
  pub answered : row ≡ some new
  pub found : find_machine old.id db.machines ≡ some new
  pub alive : IsAlive date new.last_seen clock.ms
  pub identified : Identified identity declared old new

any-found :
    (id : MachineId) (t : IsoTime) (rows : List Machine) (m : Machine)
    → find_machine id rows ≡ some m
    → observed_row id t m ≡ true
    → any (observed_row id t) rows ≡ true
any-found id t [] m h k = cc
any-found id t (q ∷ rows) m h k = elim (Bool-cases (q.id == id)) [
  | inl here ↦
      let same : q ≡ m = ground arith in
      let hit : observed_row id t q ≡ true = subst (λ x. observed_row id t x ≡ true) (sym same) k in
      ground arith
  | inr other ↦ let ih = any-found id t rows m (ground arith) k in ground arith
]

module _ (date : DateApi) (greatest : IsoTime → IsoTime → IsoTime) (clock : Clock)
    (identity : PollIdentity) (declared : Option (List JsString)) (old : Machine) (now : Database)
    (found : find_machine old.id now.machines ≡ some old) where
  abbrev Settles : Observed → Type 0
  Settles seen =
      (row : Option Machine) × (db : Database) × (settle_contact greatest clock old
          (contact_patch old identity declared) seen now
        ≡ tried row db)
      × Contacted date clock identity declared old row db

  applied-Contacted :
      (p : Machine → Bool) (stamp : Option IsoTime → IsoTime)
      → p old ≡ true
      → IsAlive date (some (stamp old.last_seen)) clock.ms
      → let f = apply_patch (contact_patch old identity declared) stamp in
        let rows = update_where p f now.machines in
        Contacted date clock identity declared old
          (find_machine old.id rows)
          (record now { machines = rows })
  applied-Contacted p stamp hit live =
      let f = apply_patch (contact_patch old identity declared) stamp in
      let there : find_machine old.id (update_where p f now.machines) ≡ some (f old) =
        find_machine-update_where old.id p f
          (apply_patch-id (contact_patch old identity declared) stamp) now.machines
        ∙ rw found (ap some (if_true (p old) (f old) old hit)) in
      record {
        new = f old;
        answered = there;
        found = there;
        alive =
            subst (λ x. IsAlive date x clock.ms)
              (sym (apply_patch-last_seen (contact_patch old identity declared) stamp old)) live;
        identified = applied-Identified identity declared stamp old;
      }

  settle_contact-Settles :
      PicksLater date greatest
      → clock.iso ≡ date.to_iso clock.ms
      → IsStored date old.last_seen
      → (seen : Observed) → observe date old.last_seen clock.ms ≡ seen
      → Settles seen
  settle_contact-Settles picks iso stored (to_repair t) o =
      let at = (observe-broken date old.last_seen t clock.ms o).0 in
      let hit : observed_row old.id t old ≡ true =
        ground (arith, (opt_str_eq_iff old.last_seen (some t)).1 at) in
      let here = any-found old.id t now.machines old found hit in
      (
        _,
        _,
        rw here refl,
        applied-Contacted (observed_row old.id t) (λ seen. clock.iso) hit
            (rw iso (stamped-IsAlive date clock.ms)),
      )
  settle_contact-Settles picks iso stored (legal stale) o =
      elim (Bool-cases
        (not stale && not (identity_changed (contact_patch old identity declared)))) [
          | inl quiet ↦
              let fresh : observe date old.last_seen clock.ms ≡ legal false =
                o ∙ ap legal (ground arith) in
              (
                some old,
                now,
                rw quiet refl,
                record {
                  new = old;
                  answered = refl;
                  found = found;
                  alive = fresh-IsAlive date old.last_seen clock.ms stored fresh;
                  identified = quiet-Identified identity declared old (ground arith);
                },
              )
          | inr writes ↦ (
            _,
            _,
            rw writes refl,
            applied-Contacted (λ m. m.id == old.id) (greatest_of greatest clock.iso) (ground arith)
                (rw iso (later-IsAlive date greatest old.last_seen clock.ms stale picks stored o)),
          )
        ]

-- Where GREATEST picks the later of two stamps, the clock's stamp is the text of its instant, and
-- the first attempt finds the row that was verified, with a watermark that is null, does not parse
-- or is the platform's: the contact returns the row that it leaves, whose watermark is valid and
-- less than ten seconds old, whose identity is the cleaned one that was reported, a blank name
-- filled by the hostname, and whose capabilities are the declared ones.
pub apply_machine_poll_contact-Contacts :
    (date : DateApi) (greatest : IsoTime → IsoTime → IsoTime) (identity : PollIdentity)
    (declared : Option (List JsString)) (first second third : ContactMoment) (old : Machine)
    → PicksLater date greatest
    → first.clock.iso ≡ date.to_iso first.clock.ms
    → IsStored date old.last_seen
    → find_machine old.id first.now.machines ≡ some old
    → (row : Option Machine) × (db : Database) × (apply_machine_poll_contact date greatest identity
          declared first second third old
        ≡ contacted row db)
      × Contacted date first.clock identity declared old row db
unfolding apply_machine_poll_contact try_apply_contact
apply_machine_poll_contact-Contacts date greatest identity declared first second third old picks iso
      stored found =
    let (row, db, e, c) =
      settle_contact-Settles date greatest first.clock identity declared old first.now found picks
        iso stored (observe date old.last_seen first.clock.ms) refl in
    (row, db, rw (contact_turns, try_apply_contact, e) refl, c)
