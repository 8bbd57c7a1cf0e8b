-- ===== src/Scenarios/Contacting.antt =====
-- A machine that polls, first with a stale watermark and then with one of the far future.
use loop_platform_zhb.Base.{
  ℕ, ◌+◌, ◌≤◌, ◌≡◌, refl, inl, inr, JsString, js, Bool, true, false, Option, none, some, List, [],
  ◌∷◌, arith, if◌then◌else◌, leb, Bool-cases,
}
use loop_platform_zhb.Db.{IsoTime, Machine}
use loop_platform_zhb.Store.{Database, Clock}
use loop_platform_zhb.Store.Machines.{
  PollIdentity, Tried, tried, try_apply_contact, ContactMoment, ContactResult, contacted,
  contention, apply_machine_poll_contact, CapabilitySnapshot, snapshot,
  capability_declaration_invalid, capability_snapshot_from_poll,
}
use loop_platform_zhb.Store.Machines.Contact.{PicksLater, NotBefore, try_apply_contact-NotBefore}
use loop_platform_zhb.Store.Machines.Returns.{Contacted, apply_machine_poll_contact-Contacts}
use loop_platform_zhb.Scenarios.{unit_dates, machine, platform}

abbrev later_unit : IsoTime → IsoTime → IsoTime
later_unit (a ∷ []) (b ∷ []) = (if leb a b then b else a) ∷ []
later_unit s t = t

unit-PicksLater : PicksLater unit_dates later_unit
unit-PicksLater a b = refl

abbrev noon : Clock
noon = record { ms = 1000000; iso = 1000000 ∷ [] }

abbrev seen_machine : Machine
seen_machine = record machine { last_seen = some (900000 ∷ []) }

abbrev farm : Database
farm = record platform { machines = seen_machine ∷ [] }

abbrev laptop : PollIdentity
laptop = record { host = some (js " lap "); platform = none; arch = none; version = none }

abbrev declared : Option (List JsString)
declared = some (js "artifact-sync-v1" ∷ [])

abbrev named_machine : Machine
named_machine = record machine {
  name = js "lap";
  hostname = some (js "lap");
  last_seen = some (1000000 ∷ []);
  capabilities = declared;
}

abbrev named_farm : Database
named_farm = record platform { machines = named_machine ∷ [] }

names :
    try_apply_contact unit_dates later_unit noon seen_machine laptop declared farm
    ≡ tried (some named_machine) named_farm
unfolding try_apply_contact loop_platform_zhb.Store.Machines.observe
    loop_platform_zhb.Store.Machines.apply_patch loop_platform_zhb.Store.Machines.contact_patch
    loop_platform_zhb.Store.Machines.clean_identity_field loop_platform_zhb.Base.str_eq
    loop_platform_zhb.Base.trim loop_platform_zhb.WriteSet.strip_nul
    loop_platform_zhb.WriteSet.slice
names = refl

-- A declaration with a name in capitals is refused.
refuses_capitals :
    capability_snapshot_from_poll (some (js "Sync" ∷ [])) ≡ capability_declaration_invalid
unfolding capability_snapshot_from_poll
refuses_capitals = refl

-- A row that was read before its watermark was repaired loses to the repair, and the next attempt,
-- on the row read again, has nothing to write.
abbrev broken_machine : Machine
broken_machine = record named_machine { last_seen = some (9000000 ∷ []) }

abbrev noon_moment : ContactMoment
noon_moment = record { clock = noon; now = named_farm; reread = named_farm }

retries :
    apply_machine_poll_contact unit_dates later_unit laptop declared noon_moment noon_moment
      noon_moment broken_machine
    ≡ contacted (some named_machine) named_farm
unfolding apply_machine_poll_contact try_apply_contact loop_platform_zhb.Store.Machines.observe
    loop_platform_zhb.Base.str_eq loop_platform_zhb.Store.Machines.contact_patch
    loop_platform_zhb.Store.Machines.clean_identity_field loop_platform_zhb.Base.trim
    loop_platform_zhb.WriteSet.strip_nul loop_platform_zhb.WriteSet.slice
    loop_platform_zhb.Store.Machines.names_equal
retries = refl

try_apply_contact-NotBefore_example : NotBefore unit_dates 7 900000 named_farm
try_apply_contact-NotBefore_example =
    try_apply_contact-NotBefore unit_dates later_unit noon seen_machine seen_machine laptop declared
      900000 (some named_machine) farm named_farm unit-PicksLater refl refl refl (omega arith) names

abbrev farm_moment : ContactMoment
farm_moment = record { clock = noon; now = farm; reread = farm }

apply_machine_poll_contact-Contacts_example :
    (row : Option Machine) × (db : Database) × (apply_machine_poll_contact unit_dates later_unit
        laptop declared farm_moment farm_moment farm_moment seen_machine
      ≡ contacted row db)
    × Contacted unit_dates noon laptop declared seen_machine row db
apply_machine_poll_contact-Contacts_example =
    apply_machine_poll_contact-Contacts unit_dates later_unit laptop declared farm_moment
      farm_moment farm_moment seen_machine unit-PicksLater refl (inr (900000, refl)) refl
