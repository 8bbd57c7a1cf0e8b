-- ===== src/Db/Enums.antt =====
-- The tests on the enumerations of the rows.
use loop_platform_zhb.Base.{◌≡◌, refl, ap, ◌∙◌, ◌↔◌, true}
use loop_platform_zhb.Db.{RunPhase, phase_eq, RunRole, role_eq, LeaseState, lease_state_eq}

pub phase_eq_sound : (p q : RunPhase) → phase_eq p q ≡ true → p ≡ q
phase_eq_sound RunPhase.pending RunPhase.pending h = refl
phase_eq_sound RunPhase.pending RunPhase.running h = cc
phase_eq_sound RunPhase.pending RunPhase.done h = cc
phase_eq_sound RunPhase.pending RunPhase.error h = cc
phase_eq_sound RunPhase.pending RunPhase.canceled h = cc
phase_eq_sound RunPhase.running RunPhase.pending h = cc
phase_eq_sound RunPhase.running RunPhase.running h = refl
phase_eq_sound RunPhase.running RunPhase.done h = cc
phase_eq_sound RunPhase.running RunPhase.error h = cc
phase_eq_sound RunPhase.running RunPhase.canceled h = cc
phase_eq_sound RunPhase.done RunPhase.pending h = cc
phase_eq_sound RunPhase.done RunPhase.running h = cc
phase_eq_sound RunPhase.done RunPhase.done h = refl
phase_eq_sound RunPhase.done RunPhase.error h = cc
phase_eq_sound RunPhase.done RunPhase.canceled h = cc
phase_eq_sound RunPhase.error RunPhase.pending h = cc
phase_eq_sound RunPhase.error RunPhase.running h = cc
phase_eq_sound RunPhase.error RunPhase.done h = cc
phase_eq_sound RunPhase.error RunPhase.error h = refl
phase_eq_sound RunPhase.error RunPhase.canceled h = cc
phase_eq_sound RunPhase.canceled RunPhase.pending h = cc
phase_eq_sound RunPhase.canceled RunPhase.running h = cc
phase_eq_sound RunPhase.canceled RunPhase.done h = cc
phase_eq_sound RunPhase.canceled RunPhase.error h = cc
phase_eq_sound RunPhase.canceled RunPhase.canceled h = refl

pub phase_eq_refl : (p : RunPhase) → phase_eq p p ≡ true
phase_eq_refl RunPhase.pending = refl
phase_eq_refl RunPhase.running = refl
phase_eq_refl RunPhase.done = refl
phase_eq_refl RunPhase.error = refl
phase_eq_refl RunPhase.canceled = refl

pub phase_eq_iff : (p q : RunPhase) → (phase_eq p q ≡ true) ↔ (p ≡ q)
phase_eq_iff p q = (phase_eq_sound p q, λ e. ap (λ x. phase_eq x q) e ∙ phase_eq_refl q)

pub role_eq_sound : (p q : RunRole) → role_eq p q ≡ true → p ≡ q
role_eq_sound RunRole.exec RunRole.exec h = refl
role_eq_sound RunRole.exec RunRole.evolve h = cc
role_eq_sound RunRole.exec RunRole.edit h = cc
role_eq_sound RunRole.evolve RunRole.exec h = cc
role_eq_sound RunRole.evolve RunRole.evolve h = refl
role_eq_sound RunRole.evolve RunRole.edit h = cc
role_eq_sound RunRole.edit RunRole.exec h = cc
role_eq_sound RunRole.edit RunRole.evolve h = cc
role_eq_sound RunRole.edit RunRole.edit h = refl

pub role_eq_refl : (p : RunRole) → role_eq p p ≡ true
role_eq_refl RunRole.exec = refl
role_eq_refl RunRole.evolve = refl
role_eq_refl RunRole.edit = refl

pub role_eq_iff : (p q : RunRole) → (role_eq p q ≡ true) ↔ (p ≡ q)
role_eq_iff p q = (role_eq_sound p q, λ e. ap (λ x. role_eq x q) e ∙ role_eq_refl q)

pub lease_state_eq_sound : (p q : LeaseState) → lease_state_eq p q ≡ true → p ≡ q
lease_state_eq_sound LeaseState.active LeaseState.active h = refl
lease_state_eq_sound LeaseState.active LeaseState.terminal_grace h = cc
lease_state_eq_sound LeaseState.terminal_grace LeaseState.active h = cc
lease_state_eq_sound LeaseState.terminal_grace LeaseState.terminal_grace h = refl

pub lease_state_eq_refl : (p : LeaseState) → lease_state_eq p p ≡ true
lease_state_eq_refl LeaseState.active = refl
lease_state_eq_refl LeaseState.terminal_grace = refl

pub lease_state_eq_iff : (p q : LeaseState) → (lease_state_eq p q ≡ true) ↔ (p ≡ q)
lease_state_eq_iff p q =
    (lease_state_eq_sound p q, λ e. ap (λ x. lease_state_eq x q) e ∙ lease_state_eq_refl q)
