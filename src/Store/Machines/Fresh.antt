-- ===== src/Store/Machines/Fresh.antt =====
-- packages/server/src/store/machines.ts: the identity that a contact stores, and the age of the
-- watermark that it leaves.
use loop_platform_zhb.Base.{
  ℕ, ◌-◌, ◌<◌, ◌≡◌, refl, sym, ap, subst, ◌∙◌, ◌⊎◌, inl, inr, JsString, Bool, true, false, Option,
  none, some, List, [], ◌∷◌, arith, if◌then◌else◌, str_eq_iff, leb, is_some, Bool-cases,
}
use loop_platform_zhb.Db.{IsoTime, Machine}
use loop_platform_zhb.Schedule.{opt_str_eq}
use loop_platform_zhb.Schedule.Laws.{opt_str_eq_iff}
use loop_platform_zhb.Store.Dates.{DateApi}
use loop_platform_zhb.Store.Machines.{
  names_equal, capabilities_equal, last_seen_refresh_ms, heartbeat_age_ms, PollIdentity,
  clean_identity_field, changed_field, filled_name, contact_patch, identity_changed, legal, observe,
  set_field, set_text, apply_patch, greatest_of,
}
use loop_platform_zhb.Store.Machines.Contact.{if_true, if_false, PicksLater}

-- A value that was reported, or else the stored one.
abbrev pub reported : Option JsString → Option JsString → Option JsString
reported none current = current
reported (some v) current = some v

set-changed :
    (v current : Option JsString) → set_text (changed_field v current) current ≡ reported v current
set-changed none current = refl
set-changed (some v) current = elim (Bool-cases (opt_str_eq (some v) current)) [
  | inl same ↦ let e = (opt_str_eq_iff (some v) current).0 same in ground (arith, same, e)
  | inr differs ↦ ground (arith, differs)
]

names_equal_sound : (a b : List JsString) → names_equal a b ≡ true → a ≡ b
unfolding names_equal
names_equal_sound [] [] h = refl
names_equal_sound [] (y ∷ b) h = cc
names_equal_sound (x ∷ a) [] h = cc
names_equal_sound (x ∷ a) (y ∷ b) h = ground (arith, str_eq_iff x y, names_equal_sound a b)

capabilities_equal_sound : (a b : Option (List JsString)) → capabilities_equal a b ≡ true → a ≡ b
capabilities_equal_sound none none h = refl
capabilities_equal_sound none (some b) h = cc
capabilities_equal_sound (some a) none h = cc
capabilities_equal_sound (some a) (some b) h = ap some (names_equal_sound a b h)

set-capabilities :
    (a b : Option (List JsString))
    → set_field (if capabilities_equal a b then none else some a) b ≡ a
set-capabilities a b = elim (Bool-cases (capabilities_equal a b)) [
  | inl same ↦ rw same (sym (capabilities_equal_sound a b same))
  | inr differs ↦ rw differs refl
]

-- The identity that a poll reports is the one of the row; a blank name is filled.
pub record Identified (identity : PollIdentity) (declared : Option (List JsString))
    (old new : Machine) : Type 0 where
  pub hostname : new.hostname ≡ reported (clean_identity_field identity.host 255) old.hostname
  pub platform : new.platform ≡ reported (clean_identity_field identity.platform 64) old.platform
  pub arch : new.arch ≡ reported (clean_identity_field identity.arch 64) old.arch
  pub version :
      new.daemon_version ≡ reported (clean_identity_field identity.version 64) old.daemon_version
  pub name :
      new.name ≡ set_field (filled_name (clean_identity_field identity.host 255) old.name) old.name
  pub capabilities : new.capabilities ≡ declared

pub applied-Identified :
    (identity : PollIdentity) (capabilities : Option (List JsString))
    (stamp : Option IsoTime → IsoTime) (old : Machine)
    → Identified identity capabilities old
        (apply_patch (contact_patch old identity capabilities) stamp old)
unfolding apply_patch contact_patch
applied-Identified identity capabilities stamp old = record {
  hostname = set-changed (clean_identity_field identity.host 255) old.hostname;
  platform = set-changed (clean_identity_field identity.platform 64) old.platform;
  arch = set-changed (clean_identity_field identity.arch 64) old.arch;
  version = set-changed (clean_identity_field identity.version 64) old.daemon_version;
  name = refl;
  capabilities = set-capabilities capabilities old.capabilities;
}

none_of : {A : Type 0} (o : Option A) → is_some o ≡ false → o ≡ none
none_of none h = refl
none_of (some a) h = cc

stays :
    (v current : Option JsString) → changed_field v current ≡ none → current ≡ reported v current
stays v current e = ap (λ x. set_text x current) (sym e) ∙ set-changed v current

-- Where no field of the patch is set, it asks for the row as it is.
pub quiet-Identified :
    (identity : PollIdentity) (capabilities : Option (List JsString)) (old : Machine)
    → identity_changed (contact_patch old identity capabilities) ≡ false
    → Identified identity capabilities old old
unfolding contact_patch
quiet-Identified identity capabilities old h =
    let p = contact_patch old identity capabilities in
    record {
      hostname = stays _ old.hostname (none_of p.hostname (ground arith));
      platform = stays _ old.platform (none_of p.platform (ground arith));
      arch = stays _ old.arch (none_of p.arch (ground arith));
      version = stays _ old.daemon_version (none_of p.daemon_version (ground arith));
      name = ap (λ x. set_field x old.name) (sym (none_of p.name (ground arith)));
      capabilities =
          ap (λ x. set_field x old.capabilities) (sym (none_of p.capabilities (ground arith)))
          ∙ set-capabilities capabilities old.capabilities;
    }

-- The watermark is valid and less than ten seconds old.
abbrev pub IsAlive : DateApi → Option IsoTime → ℕ → Type 0
IsAlive date seen now_ms =
    (age : ℕ) × (heartbeat_age_ms date seen now_ms ≡ some age) × (age < last_seen_refresh_ms)

pub stamped-IsAlive : (date : DateApi) (ms : ℕ) → IsAlive date (some (date.to_iso ms)) ms
stamped-IsAlive date ms = (0, rw (date.parse-to_iso ms) (ground arith), omega arith)

-- A watermark of the platform's dates, one that does not parse, or none.
abbrev pub IsStored : DateApi → Option IsoTime → Type 0
IsStored date none = Unit
IsStored date (some t) = (date.parse t ≡ none) ⊎ ((s : ℕ) × (t ≡ date.to_iso s))

pub fresh-IsAlive :
    (date : DateApi) (seen : Option IsoTime) (ms : ℕ)
    → IsStored date seen
    → observe date seen ms ≡ legal false
    → IsAlive date seen ms
unfolding observe
fresh-IsAlive date none ms c h = cc
fresh-IsAlive date (some t) ms (inl bad) h = let k = rw (bad, observe) at h in cc
fresh-IsAlive date (some t) ms (inr (s, e)) h =
    let p : date.parse t ≡ some s = ap date.parse e ∙ date.parse-to_iso s in
    let k = rw (p, observe) at h in (ms - s, rw p (ground arith), ground arith)

pub later-IsAlive :
    (date : DateApi) (greatest : IsoTime → IsoTime → IsoTime) (seen : Option IsoTime) (ms : ℕ)
    (stale : Bool)
    → PicksLater date greatest
    → IsStored date seen
    → observe date seen ms ≡ legal stale
    → IsAlive date (some (greatest_of greatest (date.to_iso ms) seen)) ms
unfolding observe
later-IsAlive date greatest none ms stale picks c h = stamped-IsAlive date ms
later-IsAlive date greatest (some t) ms stale picks (inl bad) h =
    let k = rw (bad, observe) at h in cc
later-IsAlive date greatest (some t) ms stale picks (inr (s, e)) h =
    let p : date.parse t ≡ some s = ap date.parse e ∙ date.parse-to_iso s in
    let g : greatest t (date.to_iso ms) ≡ date.to_iso (if leb s ms then ms else s) =
      ap (λ x. greatest x (date.to_iso ms)) e ∙ picks s ms in
    let k = rw (p, observe) at h in
    elim (Bool-cases (leb s ms)) [
      | inl past ↦
          subst (λ x. IsAlive date (some x) ms)
            (sym (g ∙ ap date.to_iso (if_true (leb s ms) ms s past))) (stamped-IsAlive date ms)
      | inr ahead ↦
          subst (λ x. IsAlive date (some x) ms)
            (sym (g ∙ ap date.to_iso (if_false (leb s ms) ms s ahead)))
            (0, rw (date.parse-to_iso s) (ground arith), omega arith)
    ]
