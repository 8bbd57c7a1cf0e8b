-- ===== src/Store/Machines.antt =====
-- packages/server/src/store/machines.ts: the capability declaration, the heartbeat watermark and the
-- contact that every poll writes. GREATEST of the database is a parameter. What the source throws is
-- a result here.
pub mod Contact
pub mod Fresh
pub mod Returns
use loop_platform_zhb.Base.{
  ℕ, zero, suc, ◌+◌, ◌-◌, ◌*◌, JsString, js, Bool, true, false, ◌&&◌, ◌||◌, not, Option, none, some,
  List, [], ◌∷◌, ◌==◌, if◌then◌else◌, str_eq, trim, ltb, leb, length, all, any, is_some,
}
use loop_platform_zhb.Db.{IsoTime, MachineId, Machine}
use loop_platform_zhb.Schedule.{opt_str_eq}
use loop_platform_zhb.Terminal.{normalize_capabilities}
use loop_platform_zhb.WriteSet.{strip_nul, slice}
use loop_platform_zhb.Store.{Database, Clock, update_where}
use loop_platform_zhb.Store.Dates.{DateApi}
use loop_platform_zhb.Store.Runs.{find_machine}

abbrev pub capability_max_entries : ℕ
capability_max_entries = 32

-- `[a-z0-9]`
abbrev is_name_start : ℕ → Bool
is_name_start c = (leb b'a' c && leb c b'z') || (leb b'0' c && leb c b'9')

-- `[a-z0-9._-]`
abbrev is_name_unit : ℕ → Bool
is_name_unit c = is_name_start c || c == b'.' || c == b'_' || c == b'-'

-- `CAPABILITY_NAME_RE`
abbrev pub is_capability_name : JsString → Bool
is_capability_name [] = false
is_capability_name (c ∷ s) = is_name_start c && all is_name_unit s && leb (length s) 63

pub data CapabilitySnapshot : Type 0 where
  snapshot : Option (List JsString) → CapabilitySnapshot
  capability_declaration_invalid : CapabilitySnapshot

unfoldable pub capability_snapshot_from_poll : Option (List JsString) → CapabilitySnapshot
capability_snapshot_from_poll none = snapshot none
capability_snapshot_from_poll (some raw) =
    if ltb capability_max_entries (length raw) || any (λ name. not (is_capability_name name)) raw
    then capability_declaration_invalid
    else snapshot (normalize_capabilities (some raw))

-- The same names at the same places.
unfoldable pub names_equal : List JsString → List JsString → Bool
names_equal [] [] = true
names_equal (a ∷ l) (b ∷ m) = str_eq a b && names_equal l m
names_equal _ _ = false

abbrev pub capabilities_equal : Option (List JsString) → Option (List JsString) → Bool
capabilities_equal none none = true
capabilities_equal (some a) (some b) = names_equal a b
capabilities_equal _ _ = false

abbrev pub last_seen_refresh_ms : ℕ
last_seen_refresh_ms = 10000

abbrev pub heartbeat_skew_slack_ms : ℕ
heartbeat_skew_slack_ms = 5 * 60 * 1000

abbrev pub is_heartbeat_watermark_anomalous : ℕ → ℕ → Bool
is_heartbeat_watermark_anomalous stored_ms now_ms = ltb (now_ms + heartbeat_skew_slack_ms) stored_ms

pub data HeartbeatWatermarkClass : Type 0 where
  absent invalid anomalous_future valid : HeartbeatWatermarkClass

abbrev class_of : Option ℕ → ℕ → HeartbeatWatermarkClass
class_of none now_ms = invalid
class_of (some stored_ms) now_ms =
    if is_heartbeat_watermark_anomalous stored_ms now_ms then anomalous_future else valid

abbrev pub classify_heartbeat_watermark : DateApi → Option IsoTime → ℕ → HeartbeatWatermarkClass
classify_heartbeat_watermark date none now_ms = absent
classify_heartbeat_watermark date (some t) now_ms = class_of (date.parse t) now_ms

-- `Math.max(0, nowMs - storedMs)` of a valid watermark
abbrev age_of : Option ℕ → ℕ → Option ℕ
age_of none now_ms = none
age_of (some stored_ms) now_ms =
    if is_heartbeat_watermark_anomalous stored_ms now_ms then none else some (now_ms - stored_ms)

abbrev pub heartbeat_age_ms : DateApi → Option IsoTime → ℕ → Option ℕ
heartbeat_age_ms date none now_ms = none
heartbeat_age_ms date (some t) now_ms = age_of (date.parse t) now_ms

pub record PollIdentity : Type 0 where
  pub host : Option JsString
  pub platform : Option JsString
  pub arch : Option JsString
  pub version : Option JsString

unfoldable pub clean_identity_field : Option JsString → ℕ → Option JsString
clean_identity_field none cap = none
clean_identity_field (some value) cap =
    let cleaned = trim (strip_nul value) in
    if str_eq cleaned [] then none else some (slice cap cleaned)

-- An absent key is `none`.
pub record MachinePatch : Type 0 where
  pub hostname : Option JsString
  pub platform : Option JsString
  pub arch : Option JsString
  pub daemon_version : Option JsString
  pub name : Option JsString
  pub capabilities : Option (Option (List JsString))

-- A reported value that differs from the stored one.
abbrev pub changed_field : Option JsString → Option JsString → Option JsString
changed_field none current = none
changed_field (some v) current = if opt_str_eq (some v) current then none else some v

abbrev pub filled_name : Option JsString → JsString → Option JsString
filled_name none name = none
filled_name (some hostname) name = if str_eq (trim name) [] then some hostname else none

unfoldable pub contact_patch : Machine → PollIdentity → Option (List JsString) → MachinePatch
contact_patch machine identity capabilities =
    let hostname = clean_identity_field identity.host 255 in
    record {
      hostname = changed_field hostname machine.hostname;
      platform = changed_field (clean_identity_field identity.platform 64) machine.platform;
      arch = changed_field (clean_identity_field identity.arch 64) machine.arch;
      daemon_version =
          changed_field (clean_identity_field identity.version 64) machine.daemon_version;
      name = filled_name hostname machine.name;
      capabilities =
          if capabilities_equal capabilities machine.capabilities then none else some capabilities;
    }

abbrev pub identity_changed : MachinePatch → Bool
identity_changed p =
    is_some p.hostname
    || is_some p.platform
    || is_some p.arch
    || is_some p.daemon_version
    || is_some p.name
    || is_some p.capabilities

-- `garbage || anomalousFuture`, of a watermark that is present
abbrev pub broken : Option ℕ → ℕ → Bool
broken none poll_ms = true
broken (some stored_ms) poll_ms = is_heartbeat_watermark_anomalous stored_ms poll_ms

-- The watermark that a contact finds: one to repair, with its text, or one that is stale or not.
pub data Observed : Type 0 where
  to_repair : IsoTime → Observed
  legal : Bool → Observed

abbrev stale_ms : Option ℕ → ℕ → Bool
stale_ms none poll_ms = false
stale_ms (some stored_ms) poll_ms =
    not (ltb poll_ms stored_ms) && leb (stored_ms + last_seen_refresh_ms) poll_ms

unfoldable pub observe : DateApi → Option IsoTime → ℕ → Observed
observe date none poll_ms = legal true
observe date (some t) poll_ms =
    if broken (date.parse t) poll_ms then to_repair t else legal (stale_ms (date.parse t) poll_ms)

abbrev pub set_field {ℓ} : {A : Type ℓ} → Option A → A → A
set_field none current = current
set_field (some v) current = v

abbrev pub set_text : Option JsString → Option JsString → Option JsString
set_text none current = current
set_text (some v) current = some v

-- `SET {…patch, lastSeen}`
unfoldable pub apply_patch : MachinePatch → (Option IsoTime → IsoTime) → Machine → Machine
apply_patch p stamp m = record m {
  name = set_field p.name m.name;
  hostname = set_text p.hostname m.hostname;
  platform = set_text p.platform m.platform;
  arch = set_text p.arch m.arch;
  daemon_version = set_text p.daemon_version m.daemon_version;
  last_seen = some (stamp m.last_seen);
  capabilities = set_field p.capabilities m.capabilities;
}

-- GREATEST of a column and a value: a null is passed over.
abbrev pub greatest_of : (IsoTime → IsoTime → IsoTime) → IsoTime → Option IsoTime → IsoTime
greatest_of greatest iso none = iso
greatest_of greatest iso (some t) = greatest t iso

pub data Tried : Type 0 where
  tried : Option Machine → Database → Tried
  cas_lost : Tried

abbrev pub observed_row : MachineId → IsoTime → Machine → Bool
observed_row id t m = m.id == id && opt_str_eq m.last_seen (some t)

-- The row is read again after the write.
abbrev pub written : MachineId → List Machine → Database → Tried
written id machines db = tried (find_machine id machines) (record db { machines = machines })

abbrev pub settle_contact :
    (IsoTime → IsoTime → IsoTime) → Clock → Machine → MachinePatch → Observed → Database → Tried
settle_contact greatest clock machine patch (to_repair t) db =
    if any (observed_row machine.id t) db.machines
    then written machine.id
        (update_where (observed_row machine.id t) (apply_patch patch (λ old. clock.iso))
          db.machines)
        db
    else cas_lost
settle_contact greatest clock machine patch (legal stale) db =
    if not stale && not (identity_changed patch)
    then tried (some machine) db
    else written machine.id
        (update_where (λ m. m.id == machine.id) (apply_patch patch (greatest_of greatest clock.iso))
          db.machines)
        db

unfoldable pub try_apply_contact :
    DateApi
    → (IsoTime → IsoTime → IsoTime)
    → Clock
    → Machine
    → PollIdentity
    → Option (List JsString)
    → Database
    → Tried
try_apply_contact date greatest clock machine identity capabilities db =
    settle_contact greatest clock machine (contact_patch machine identity capabilities)
      (observe date machine.last_seen clock.ms) db

-- The time of an attempt, the database that it writes, and the one that is read after a loss.
pub record ContactMoment : Type 0 where
  pub clock : Clock
  pub now : Database
  pub reread : Database

pub data ContactResult : Type 0 where
  contacted : Option Machine → Database → ContactResult
  contention machine_vanished : ContactResult

abbrev after_loss : ContactResult → (Machine → ContactResult) → Option Machine → ContactResult
after_loss vanished go none = vanished
after_loss vanished go (some m) = go m

-- The turns that are left, one for each moment.
unfoldable pub contact_turns :
    DateApi
    → (IsoTime → IsoTime → IsoTime)
    → PollIdentity
    → Option (List JsString)
    → List ContactMoment
    → Machine
    → ContactResult
contact_turns date greatest identity capabilities [] machine = contention
contact_turns date greatest identity capabilities (m ∷ moments) machine =
    elim (try_apply_contact date greatest m.clock machine identity capabilities m.now) [
      | tried row db ↦ contacted row db
      | cas_lost ↦
          after_loss machine_vanished (contact_turns date greatest identity capabilities moments)
            (find_machine machine.id m.reread.machines)
    ]

unfoldable pub apply_machine_poll_contact :
    DateApi
    → (IsoTime → IsoTime → IsoTime)
    → PollIdentity
    → Option (List JsString)
    → ContactMoment
    → ContactMoment
    → ContactMoment
    → Machine
    → ContactResult
unfolding contact_turns
apply_machine_poll_contact date greatest identity capabilities first second third machine =
    contact_turns date greatest identity capabilities (first ∷ second ∷ third ∷ []) machine
