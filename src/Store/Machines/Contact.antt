-- ===== src/Store/Machines/Contact.antt =====
-- packages/server/src/store/machines.ts: what a contact leaves of the heartbeat watermark.
use loop_platform_zhb.Base.{
  ℕ, ◌+◌, ◌≤◌, ◌≡◌, refl, sym, ap, subst, ◌∙◌, inl, inr, JsString, Bool, true, false, ◌&&◌, not,
  Option, none, some, List, [], ◌∷◌, arith, ◌==◌, if◌then◌else◌, leb, any, Bool-cases,
}
use mathlib.Core.Option
use loop_platform_zhb.Db.{IsoTime, MachineId, Machine}
use loop_platform_zhb.Schedule.{opt_str_eq}
use loop_platform_zhb.Schedule.Laws.{opt_str_eq_iff}
use loop_platform_zhb.Store.{Database, Clock, update_where}
use loop_platform_zhb.Store.Dates.{DateApi}
use loop_platform_zhb.Store.Runs.{find_machine}
use loop_platform_zhb.Store.Machines.{
  heartbeat_skew_slack_ms, PollIdentity, MachinePatch, contact_patch, identity_changed, broken,
  Observed, to_repair, legal, observe, apply_patch, greatest_of, tried, observed_row,
  settle_contact, try_apply_contact,
}

pub if_true : {A : Type 0} (b : Bool) (x y : A) → b ≡ true → (if b then x else y) ≡ x
if_true true x y h = refl
if_true false x y h = cc

pub if_false : {A : Type 0} (b : Bool) (x y : A) → b ≡ false → (if b then x else y) ≡ y
if_false true x y h = cc
if_false false x y h = refl

-- What an update writes is found in the place of what it was.
pub find_machine-update_where :
    (id : MachineId) (p : Machine → Bool) (f : Machine → Machine)
    → ((m : Machine) → (f m).id ≡ m.id)
    → (rows : List Machine)
    → find_machine id (update_where p f rows)
      ≡ Option.map (λ m. if p m then f m else m) (find_machine id rows)
find_machine-update_where id p f same [] = refl
find_machine-update_where id p f same (m ∷ rows) =
    let ih = find_machine-update_where id p f same rows in
    let kept = same m in
    elim (Bool-cases (p m)) [
      | inl here ↦ ground (arith, here, kept, ih)
      | inr other ↦ ground (arith, other, kept, ih)
    ]

pub apply_patch-id :
    (p : MachinePatch) (stamp : Option IsoTime → IsoTime) (m : Machine)
    → (apply_patch p stamp m).id ≡ m.id
unfolding apply_patch
apply_patch-id p stamp m = refl

pub apply_patch-last_seen :
    (p : MachinePatch) (stamp : Option IsoTime → IsoTime) (m : Machine)
    → (apply_patch p stamp m).last_seen ≡ some (stamp m.last_seen)
unfolding apply_patch
apply_patch-last_seen p stamp m = refl

-- A watermark that is repaired is not a legal one.
pub observe-broken :
    (date : DateApi) (seen : Option IsoTime) (t : IsoTime) (poll_ms : ℕ)
    → observe date seen poll_ms ≡ to_repair t
    → (seen ≡ some t) × (broken (date.parse t) poll_ms ≡ true)
unfolding observe
observe-broken date none t poll_ms h = cc
observe-broken date (some u) t poll_ms h = elim (Bool-cases (broken (date.parse u) poll_ms)) [
  | inl bad ↦
      let k = rw (bad, observe) at h in
      let same : u ≡ t = cc in
      (ap some same, subst (λ x. broken (date.parse x) poll_ms ≡ true) same bad)
  | inr good ↦ let k = rw (good, observe) at h in cc
]

-- GREATEST picks the later of two stamps that the server has written.
abbrev pub PicksLater : DateApi → (IsoTime → IsoTime → IsoTime) → Type 0
PicksLater date greatest =
    (a b : ℕ) → greatest (date.to_iso a) (date.to_iso b) ≡ date.to_iso (if leb a b then b else a)

-- The row found after a contact has a watermark that is not earlier than an instant.
pub record NotBefore (date : DateApi) (id : MachineId) (s : ℕ) (db : Database) : Type 0 where
  pub row : Machine
  pub at : ℕ
  pub found : find_machine id db.machines ≡ some row
  pub seen : row.last_seen ≡ some (date.to_iso at)
  pub later : s ≤ at

module _ (date : DateApi) (greatest : IsoTime → IsoTime → IsoTime) (clock : Clock) (old : Machine)
    (s : ℕ) (at : old.last_seen ≡ some (date.to_iso s)) where
  unchanged-NotBefore :
      (id : MachineId) (db : Database)
      → find_machine id db.machines ≡ some old
      → NotBefore date id s db
  unchanged-NotBefore id db h = record {
    row = old;
    at = s;
    found = h;
    seen = at;
    later = omega arith;
  }

  stamped-NotBefore :
      (id : MachineId) (patch : MachinePatch) (now : Database)
      → PicksLater date greatest
      → clock.iso ≡ date.to_iso clock.ms
      → find_machine id now.machines ≡ some old
      → old.id ≡ id
      → NotBefore date id s (record now {
        machines =
            update_where
              (λ m. m.id == id)
              (apply_patch patch (greatest_of greatest clock.iso))
              now.machines;
      })
  stamped-NotBefore id patch now picks iso h same = record {
    row = apply_patch patch (greatest_of greatest clock.iso) old;
    at = if leb s clock.ms then clock.ms else s;
    found =
        find_machine-update_where id (λ m. m.id == id)
          (apply_patch patch (greatest_of greatest clock.iso))
          (apply_patch-id patch (greatest_of greatest clock.iso)) now.machines
        ∙ rw h (ap some (if_true (old.id == id) _ old (ground (arith, same))));
    seen =
        apply_patch-last_seen patch (greatest_of greatest clock.iso) old
        ∙ ap (λ x. some (greatest_of greatest clock.iso x)) at
        ∙ ap some (ap (greatest (date.to_iso s)) iso ∙ picks s clock.ms);
    later = ground arith;
  }

  -- A repair keys on a watermark that is not legal, and so leaves a legal one.
  repaired-NotBefore :
      (id : MachineId) (patch : MachinePatch) (t : IsoTime) (now : Database)
      → s ≤ clock.ms + heartbeat_skew_slack_ms
      → broken (date.parse t) clock.ms ≡ true
      → find_machine id now.machines ≡ some old
      → NotBefore date id s (record now {
        machines =
            update_where (observed_row id t) (apply_patch patch (λ seen. clock.iso)) now.machines;
      })
  repaired-NotBefore id patch t now le bad h = record {
    row = old;
    at = s;
    found =
        find_machine-update_where id (observed_row id t) (apply_patch patch (λ seen. clock.iso))
          (apply_patch-id patch (λ seen. clock.iso)) now.machines
        ∙ rw h (
            ap some (
              if_false (observed_row id t old) _ old
                (elim (Bool-cases (opt_str_eq old.last_seen (some t))) [
                  | inl hit ↦ absurd (legal_stamp ((opt_str_eq_iff old.last_seen (some t)).0 hit))
                  | inr miss ↦ ground (arith, miss)
                ])));
    seen = at;
    later = omega arith;
  }
    where
      legal_stamp : old.last_seen ≡ some t → ⊥
      legal_stamp e =
          let same : date.to_iso s ≡ t = cc in
          let k : broken (date.parse (date.to_iso s)) clock.ms ≡ true =
            subst (λ x. broken (date.parse x) clock.ms ≡ true) (sym same) bad in
          let j = rw (date.parse-to_iso s) at k in ground arith

pub find_machine-id :
    (id : MachineId) (rows : List Machine) (m : Machine) → find_machine id rows ≡ some m → m.id ≡ id
find_machine-id id [] m h = cc
find_machine-id id (q ∷ rows) m h = elim (Bool-cases (q.id == id)) [
  | inl here ↦ ground arith
  | inr other ↦ find_machine-id id rows m (ground arith)
]

Tried-inj : {a b : Option Machine} {d e : Database} → tried a d ≡ tried b e → d ≡ e
Tried-inj h = cc

-- Where GREATEST picks the later of two stamps, the clock's stamp is the text of its instant, and a
-- contact settles, then whatever row it was given: a watermark of that machine in the database that
-- is at most five minutes ahead of the clock is not followed by an earlier one.
pub try_apply_contact-NotBefore :
    (date : DateApi) (greatest : IsoTime → IsoTime → IsoTime) (clock : Clock)
    (machine old : Machine) (identity : PollIdentity) (capabilities : Option (List JsString))
    (s : ℕ) (row : Option Machine) (now db : Database)
    → PicksLater date greatest
    → clock.iso ≡ date.to_iso clock.ms
    → find_machine machine.id now.machines ≡ some old
    → old.last_seen ≡ some (date.to_iso s)
    → s ≤ clock.ms + heartbeat_skew_slack_ms
    → try_apply_contact date greatest clock machine identity capabilities now ≡ tried row db
    → NotBefore date machine.id s db
unfolding try_apply_contact
try_apply_contact-NotBefore date greatest clock machine old identity capabilities s row now db picks
      iso e at le h =
    go (observe date machine.last_seen clock.ms) refl h
  where
    patch : MachinePatch
    patch = contact_patch machine identity capabilities

    go :
        (seen : Observed)
        → observe date machine.last_seen clock.ms ≡ seen
        → settle_contact greatest clock machine patch seen now ≡ tried row db
        → NotBefore date machine.id s db
    go (to_repair t) o w = elim (Bool-cases (any (observed_row machine.id t) now.machines)) [
      | inl found ↦ subst (NotBefore date machine.id s) (Tried-inj (rw found at w)) (
          repaired-NotBefore date greatest clock old s at machine.id patch t now le
            (observe-broken date machine.last_seen t clock.ms o).1 e)
      | inr lost ↦ let k = rw lost at w in cc
    ]
    go (legal stale) o w = elim (Bool-cases (not stale && not (identity_changed patch))) [
      | inl quiet ↦
          subst (NotBefore date machine.id s) (Tried-inj (rw quiet at w))
            (unchanged-NotBefore date greatest clock old s at machine.id now e)
      | inr writes ↦ subst (NotBefore date machine.id s) (Tried-inj (rw writes at w)) (
          stamped-NotBefore date greatest clock old s at machine.id patch now picks iso e
            (find_machine-id machine.id now.machines old e))
    ]
