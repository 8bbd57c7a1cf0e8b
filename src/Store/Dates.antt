-- ===== src/Store/Dates.antt =====
-- The dates of the platform, and packages/server/src/store/leases.ts: when a lease is dead.
use loop_platform_zhb.Base.{ℕ, ◌≡◌, Bool, true, false, ◌&&◌, Option, none, some, leb, is_some}
use loop_platform_zhb.Db.{IsoTime, RunLeaseRow, active, terminal_grace, lease_state_eq}

-- `new Date(ms).toISOString()` and `Date.parse` of the platform.
pub record DateApi : Type 0 where
  pub to_iso : ℕ → IsoTime
  pub parse : IsoTime → Option ℕ
  pub parse-to_iso : (ms : ℕ) → parse (to_iso ms) ≡ some ms

-- `Number.isNaN(expiryMs) || nowMs >= expiryMs`
abbrev expired : ℕ → Option ℕ → Bool
expired now_ms none = true
expired now_ms (some expiry_ms) = leb expiry_ms now_ms

abbrev grace_dead : DateApi → ℕ → Option IsoTime → Bool
grace_dead date now_ms none = true
grace_dead date now_ms (some expires_at) = expired now_ms (date.parse expires_at)

unfoldable pub is_lease_dead : DateApi → RunLeaseRow → ℕ → Bool
is_lease_dead date lease now_ms = elim lease.state [
  | active ↦ false
  | terminal_grace ↦ grace_dead date now_ms lease.expires_at
]

unfoldable pub is_active_lease_anomalous : RunLeaseRow → Bool
is_active_lease_anomalous lease = lease_state_eq lease.state active && is_some lease.expires_at
