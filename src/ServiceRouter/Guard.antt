-- ===== src/ServiceRouter/Guard.antt =====
-- Requests that the router does not let through to a handler.
use cant.Prelude.{ℕ, ◌<◌, ◌≤◌, ◌≡◌, refl, true, false, Option, none, some, ◌⊎◌, inl, arith, ap}
use cant.SessionManager.{SessionManager, session_safety_system}
use cant.SessionManager.Calls.{get_state}
use cant.SessionManager.Access.{permitted, is_service_allowed_lem}
use cant.ServiceRouter.{
  UdsMessage, ServiceRoute, ServiceRouter, pre_process, process_request, dispatch, get_route,
  response_service_not_supported, response_conditions_not_correct, response_security_access_denied,
}

-- Why a request does not reach its handler: there is no route, the rule of the session manager is
-- against it, or the route asks for a higher security level.
abbrev pub Refused : {W : Type 0} → SessionManager → ℕ → Option (ServiceRoute W) → Type 0
Refused m id none = Unit
Refused m id (some route) =
    (permitted m.state.active_session m.state.security_level id ≡ false)
    ⊎ ((route.requires_security ≡ true) × (m.state.security_level < route.min_security_level))

-- The three codes of a refusal.
abbrev pub IsRefusal : ℕ → Type 0
IsRefusal code =
    (code ≡ response_service_not_supported)
    ⊎ ((code ≡ response_conditions_not_correct) ⊎ (code ≡ response_security_access_denied))

module _ {W : Type 0} (sessions : W → SessionManager) where
  dispatch-Refused :
      (r : ServiceRouter W) (w : W) (request response : UdsMessage) (o : Option (ServiceRoute W))
      → (sessions w).initialized ≡ true
      → 0 < (sessions w).state.active_session
      → (sessions w).state.active_session ≤ session_safety_system
      → Refused (sessions w) request.service_id o
      → let (w', response', code) = dispatch sessions r w request response o in
        (w' ≡ w) × (response' ≡ response) × IsRefusal code
  unfolding dispatch get_state
  dispatch-Refused r w request response none on p q h = (refl, refl, inl refl)
  dispatch-Refused r w request response (some route) on p q h =
      ground (arith, is_service_allowed_lem (sessions w) request.service_id on p q)

  process_request_on :
      (r : ServiceRouter W) (w : W) (request response : UdsMessage)
      → r.initialized ≡ true
      → process_request sessions r w (some request) (some response) ≡ (
          let d =
            dispatch sessions r
              (pre_process r w request)
              request
              response
              (get_route r request.service_id) in
          (d.0, some (d.1), d.2))
  unfolding process_request get_route
  process_request_on r w request response ready = rw ready refl

  -- A request on a router that is set up, where the session manager after the pre-process callback
  -- is set up and in one of its four sessions: without a route, against the session manager's rule
  -- or below the route's security level nothing but that callback has happened, the response is
  -- untouched, and the code says that the service is not supported, that conditions are not correct
  -- or that security access is denied.
  pub process_request-Refused :
      (r : ServiceRouter W) (w : W) (request response : UdsMessage)
      → r.initialized ≡ true
      → (sessions (pre_process r w request)).initialized ≡ true
      → 0 < (sessions (pre_process r w request)).state.active_session
      → (sessions (pre_process r w request)).state.active_session ≤ session_safety_system
      → Refused
          (sessions (pre_process r w request))
          request.service_id
          (get_route r request.service_id)
      → let (w', response', code) = process_request sessions r w (some request) (some response) in
        (w' ≡ pre_process r w request) × (response' ≡ some response) × IsRefusal code
  process_request-Refused r w request response ready on p q h =
      let (a, b, c) =
        dispatch-Refused r (pre_process r w request) request response
          (get_route r request.service_id) on p q h in
      rw (process_request_on r w request response ready) (a, ap some b, c)
