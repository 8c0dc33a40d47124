-- ===== src/ServiceRouter/Tests.antt =====
-- The router's theorems at concrete inputs.
use cant.Prelude.{
  ℕ, ◌+◌, ◌≡◌, refl, true, false, not, ◌&&◌, none, some, [], ◌∷◌, inl, arith, ltb, ◌==◌,
  if◌then◌else◌, replicate,
}
use cant.SessionManager.{SessionManager, session_default}
use cant.SessionManager.Calls
use cant.ServiceRouter.{
  UdsMessage, ServiceRoute, ServiceRouter, deinit, pre_process, process_request, add_route,
  remove_route, get_route, max_routes, route_id,
}
use cant.Prelude.Table.{Distinct, lookup, find_by, is_some}
use cant.ServiceRouter.Routes.{IsValid, add_route_lem, remove_route_lem}
use cant.ServiceRouter.Guard.{IsRefusal, process_request-Refused}

-- A state that is the session manager and a count of handled requests.
abbrev World : Type 0
World = SessionManager × ℕ

abbrev manager : SessionManager
manager = record Calls.deinit {
  state = record {
    active_session = session_default;
    session_start_time = 0;
    last_activity_time = 0;
    security_level = 0;
    suppress_response = false;
    session_locked = false;
  };
  initialized = true;
}

abbrev route : ℕ → ServiceRoute World
route id = record {
  service_id = id;
  handler = some (λ w request response. ((w.0, w.1 + 1), response, 0));
  requires_security = true;
  min_security_level = 1;
}

abbrev router : ServiceRouter World
router = record deinit {
  routes = route 0x31 ∷ route 0x22 ∷ replicate 48 (route 0);
  route_count = 2;
  initialized = true;
}

abbrev message : ℕ → UdsMessage
message id = record { service_id = id; sub_function = 0; bytes = []; length = 0 }

last-Distinct : Distinct route_id (route 0x22 ∷ [])
unfolding lookup
last-Distinct = (refl, tt)

router-IsValid : IsValid router
unfolding deinit lookup
router-IsValid = record { sized = refl; bounded = omega arith; distinct = (refl, last-Distinct) }

add_route_lem_example :
    let (r', done) = add_route router (some (route 0x2E)) in
    IsValid r'
    × (done ≡ (not (is_some (get_route router 0x2E)) && ltb 2 max_routes))
    × (get_route r' 0x2E
        ≡ (if done && 0x2E == 0x2E then some (route 0x2E) else get_route router 0x2E))
add_route_lem_example = add_route_lem router (route 0x2E) 0x2E router-IsValid refl

remove_route_lem_example :
    let (r', done) = remove_route router 0x31 in
    IsValid r'
    × (done ≡ is_some (get_route router 0x31))
    × (get_route r' 0x22 ≡ (if 0x22 == 0x31 then none else get_route router 0x22))
remove_route_lem_example = remove_route_lem router 0x31 0x22 router-IsValid refl

process_request-Refused_example :
    let (w', response', code) =
      process_request
        (λ (w : World). w.0)
        router
        (manager, 7)
        (some (message 0x31))
        (some (message 0)) in
    (w' ≡ pre_process router (manager, 7) (message 0x31))
    × (response' ≡ some (message 0))
    × IsRefusal code
unfolding deinit pre_process get_route find_by
process_request-Refused_example =
    process_request-Refused (λ (w : World). w.0) router (manager, 7) (message 0x31) (message 0) refl
      refl (omega arith) (omega arith) (inl refl)
