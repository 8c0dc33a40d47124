-- ===== src/SessionManager/Access.antt =====
-- Which services the session manager lets through.
use cant.Prelude.{
  ℕ, ◌≤◌, ◌<◌, ◌≡◌, Bool, true, ◌&&◌, ◌||◌, List, [], ◌∷◌, any, arith, leb, ◌==◌, ap, sym, ◌∙◌, ◌⊎◌,
  inl, inr,
}
use cant.SessionManager.{
  SessionManager, session_default, session_programming, session_extended_diagnostic,
  session_safety_system,
}
use cant.SessionManager.Calls.{is_service_allowed, find_service_access}

-- The services that need no security level.
abbrev pub open_services : List ℕ
open_services = 0x10 ∷ 0x27 ∷ 0x3E ∷ 0x22 ∷ 0x24 ∷ 0x2A ∷ 0x19 ∷ []

-- The services of the programming and the extended diagnostic session.
abbrev pub inner_services : List ℕ
inner_services =
    0x28 ∷ 0x83 ∷ 0x84 ∷ 0x85 ∷ 0x86 ∷ 0x87 ∷ 0x23 ∷ 0x2E ∷ 0x3D ∷ 0x14 ∷ 0x2F ∷ 0x31 ∷ []

-- The transfer of software: request download, request upload, transfer data and exit.
abbrev pub transfer_services : List ℕ
transfer_services = 0x34 ∷ 0x35 ∷ 0x36 ∷ 0x37 ∷ []

abbrev pub among : ℕ → List ℕ → Bool
among id ids = any (λ k. k == id) ids

-- The rule by session and security level.
abbrev pub permitted : ℕ → ℕ → ℕ → Bool
permitted session level id =
    among id open_services
    || (leb 1 level && id == 0x11)
    || (leb 1 level
        && (session == session_programming || session == session_extended_diagnostic)
        && among id inner_services)
    || (leb 2 level && session == session_default && among id transfer_services)

one_of_four :
    (s : ℕ)
    → 0 < s
    → s ≤ session_safety_system
    → (s ≡ session_default)
      ⊎ ((s ≡ session_programming)
          ⊎ ((s ≡ session_extended_diagnostic) ⊎ (s ≡ session_safety_system)))
one_of_four s p q = omega arith

module _ (m : SessionManager) (id : ℕ) (on : m.initialized ≡ true) where
  allowed_at_default :
      m.state.active_session ≡ session_default
      → is_service_allowed m id ≡ permitted session_default m.state.security_level id
  unfolding is_service_allowed find_service_access
  allowed_at_default s = ground arith

  allowed_at_programming :
      m.state.active_session ≡ session_programming
      → is_service_allowed m id ≡ permitted session_programming m.state.security_level id
  unfolding is_service_allowed find_service_access
  allowed_at_programming s = ground arith

  allowed_at_extended :
      m.state.active_session ≡ session_extended_diagnostic
      → is_service_allowed m id ≡ permitted session_extended_diagnostic m.state.security_level id
  unfolding is_service_allowed find_service_access
  allowed_at_extended s = ground arith

  allowed_at_safety :
      m.state.active_session ≡ session_safety_system
      → is_service_allowed m id ≡ permitted session_safety_system m.state.security_level id
  unfolding is_service_allowed find_service_access
  allowed_at_safety s = ground arith

  permitted_same :
      (s : ℕ)
      → m.state.active_session ≡ s
      → permitted s m.state.security_level id
        ≡ permitted m.state.active_session m.state.security_level id
  permitted_same s e = ap (λ t. permitted t m.state.security_level id) (sym e)

  -- In each of the four sessions a service is let through exactly by the rule: always if it is
  -- open, from level 1 on a reset and, in the programming and the extended diagnostic session, the
  -- inner services, and from level 2 on, in the default session only, the transfer of software.
  pub is_service_allowed_lem :
      0 < m.state.active_session
      → m.state.active_session ≤ session_safety_system
      → is_service_allowed m id ≡ permitted m.state.active_session m.state.security_level id
  is_service_allowed_lem p q = elim (one_of_four m.state.active_session p q) [
    | inl a ↦ allowed_at_default a ∙ permitted_same session_default a
    | inr (inl b) ↦ allowed_at_programming b ∙ permitted_same session_programming b
    | inr (inr (inl c)) ↦ allowed_at_extended c ∙ permitted_same session_extended_diagnostic c
    | inr (inr (inr d)) ↦ allowed_at_safety d ∙ permitted_same session_safety_system d
  ]
