-- ===== src/ServiceRouter.antt =====
-- The service router of src/runtime/diagnostic/service_router.c and service_router.h. The static
-- `service_router` is a record that each function takes and returns. `W` is the state that the
-- handlers and the callbacks work on; it holds the session manager, which `sessions` reads. The
-- messages and the response codes are those of uds_handler.h, the codes as their values. A call
-- under the lock is one step.
pub mod Routes
pub mod Guard
mod Tests
use cant.Prelude.{
  ℕ, suc, ◌+◌, ◌-◌, Bool, true, false, not, ◌&&◌, Option, none, some, List, ◌++◌, [], ◌∷◌, ltb, leb,
  ◌==◌, if◌then◌else◌, take, drop, set, replicate,
}
use cant.Prelude.Table.{find_by, entry_of, shift_down}
use cant.SessionManager.{SessionManager}
use cant.SessionManager.Calls.{is_service_allowed, get_state}

-- `UdsMessage`; `bytes` is what `data` points to.
pub record UdsMessage : Type 0 where
  pub service_id : ℕ
  pub sub_function : ℕ
  pub bytes : List ℕ
  pub length : ℕ

-- `UdsResponseCode`
abbrev pub response_general_reject : ℕ
response_general_reject = 0x10

abbrev pub response_service_not_supported : ℕ
response_service_not_supported = 0x11

abbrev pub response_conditions_not_correct : ℕ
response_conditions_not_correct = 0x22

abbrev pub response_security_access_denied : ℕ
response_security_access_denied = 0x33

-- `ServiceHandler`: the state, the response and the code that the handler leaves.
abbrev pub ServiceHandler : Type 0 → Type 0
ServiceHandler W = W → UdsMessage → UdsMessage → W × UdsMessage × ℕ

-- `ServiceRoute`; `none` for a NULL handler.
pub record ServiceRoute (W : Type 0) : Type 0 where
  pub service_id : ℕ
  pub handler : Option (ServiceHandler W)
  pub requires_security : Bool
  pub min_security_level : ℕ

-- `ServiceRouterConfig`
pub record ServiceRouterConfig (W : Type 0) : Type 0 where
  pub routes : Option (List (ServiceRoute W))
  pub route_count : ℕ
  pub pre_process_callback : Option (W → UdsMessage → W)
  pub post_process_callback : Option (W → UdsMessage → UdsMessage → W)

-- `ServiceRouter`; `routes` is the array of 50.
pub record ServiceRouter (W : Type 0) : Type 0 where
  pub config : ServiceRouterConfig W
  pub routes : List (ServiceRoute W)
  pub route_count : ℕ
  pub initialized : Bool

abbrev pub max_routes : ℕ
max_routes = 50

-- The entries that the loops visit.
abbrev pub active : {W : Type 0} → ServiceRouter W → List (ServiceRoute W)
active r = take r.route_count r.routes

-- The id under which a route is found.
abbrev pub route_id : {W : Type 0} → ServiceRoute W → ℕ
route_id r = r.service_id

-- `find_route` over the entries that are in use, with the index.
abbrev pub find_route : {W : Type 0} → ℕ → List (ServiceRoute W) → Option (ℕ × ServiceRoute W)
find_route id xs = find_by route_id id xs

-- The routes that `Service_Router_Init` copies.
unfoldable pub copy_routes :
    {W : Type 0} → ServiceRouter W → Option (List (ServiceRoute W)) → ℕ → ServiceRouter W
copy_routes r none n = record r { route_count = 0 }
copy_routes r (some routes) n =
    let copy_count = if leb n max_routes then n else max_routes in
    if ltb 0 n
    then record r {
      routes = take copy_count routes ++ drop copy_count r.routes;
      route_count = copy_count;
    }
    else record r { route_count = 0 }

-- `Service_Router_Init`
unfoldable pub init :
    {W : Type 0} → ServiceRouter W → Option (ServiceRouterConfig W) → ServiceRouter W × Bool
unfolding copy_routes
init r none = (r, false)
init r (some config) = (
  record (copy_routes (record r { config = config }) config.routes config.route_count) {
    initialized = true;
  },
  true,
)

abbrev no_route : {W : Type 0} → ServiceRoute W
no_route = record {
  service_id = 0;
  handler = none;
  requires_security = false;
  min_security_level = 0;
}

-- `Service_Router_DeInit`: `memset` to zero.
unfoldable pub deinit : {W : Type 0} → ServiceRouter W
deinit = record {
  config = record {
    routes = none;
    route_count = 0;
    pre_process_callback = none;
    post_process_callback = none;
  };
  routes = replicate max_routes no_route;
  route_count = 0;
  initialized = false;
}

-- What `Service_Router_AddRoute` does with a route after the search for its id.
unfoldable pub add_in :
    {W : Type 0}
    → ServiceRouter W
    → ServiceRoute W
    → Option (ℕ × ServiceRoute W)
    → ServiceRouter W × Bool
add_in r route (some found) = (r, false)
add_in r route none = if leb max_routes r.route_count then (r, false) else (
  record r { routes = set r.routes r.route_count route; route_count = r.route_count + 1 },
  true,
)

-- `Service_Router_AddRoute`
unfoldable pub add_route :
    {W : Type 0} → ServiceRouter W → Option (ServiceRoute W) → ServiceRouter W × Bool
add_route r none = (r, false)
add_route r (some route) =
    if not r.initialized
    then (r, false)
    else add_in r route (find_route route.service_id (active r))

-- The removal of the route that has been found: the ones after it move down.
unfoldable pub remove_in :
    {W : Type 0} → ServiceRouter W → Option (ℕ × ServiceRoute W) → ServiceRouter W × Bool
remove_in r none = (r, false)
remove_in r (some (i, found)) = (
  record r { routes = shift_down r.routes r.route_count i; route_count = r.route_count - 1 },
  true,
)

-- `Service_Router_RemoveRoute`
unfoldable pub remove_route : {W : Type 0} → ServiceRouter W → ℕ → ServiceRouter W × Bool
remove_route r id = if not r.initialized then (r, false) else remove_in r (find_route id (active r))

-- `Service_Router_GetRoute`
unfoldable pub get_route : {W : Type 0} → ServiceRouter W → ℕ → Option (ServiceRoute W)
get_route r id = if not r.initialized then none else entry_of (find_route id (active r))

-- `Service_Router_GetRouteCount`
unfoldable pub get_route_count : {W : Type 0} → ServiceRouter W → ℕ
get_route_count r = if not r.initialized then 0 else r.route_count

-- The pre-process callback.
unfoldable pub pre_process : {W : Type 0} → ServiceRouter W → W → UdsMessage → W
pre_process r w request = elim (r.config.pre_process_callback) [ none ↦ w | some f ↦ f w request ]

-- The call of the handler, if there is one.
unfoldable pub call_handler :
    {W : Type 0} → Option (ServiceHandler W) → W → UdsMessage → UdsMessage → W × UdsMessage × ℕ
call_handler none w request response = (w, response, response_general_reject)
call_handler (some h) w request response = h w request response

-- The post-process callback.
unfoldable pub post_process :
    {W : Type 0} → ServiceRouter W → UdsMessage → W × UdsMessage × ℕ → W × UdsMessage × ℕ
post_process r request (w, response, result) = (
  elim (r.config.post_process_callback) [ none ↦ w | some f ↦ f w request response ],
  response,
  result,
)

-- The handler and then the post-process callback.
unfoldable pub execute :
    {W : Type 0}
    → ServiceRouter W
    → ServiceRoute W
    → W
    → UdsMessage
    → UdsMessage
    → W × UdsMessage × ℕ
execute r route w request response =
    post_process r request (call_handler route.handler w request response)

module _ {W : Type 0} (sessions : W → SessionManager) where
  -- The checks of a route that has been searched for, and its execution.
  unfoldable pub dispatch :
      ServiceRouter W → W → UdsMessage → UdsMessage → Option (ServiceRoute W) → W × UdsMessage × ℕ
  dispatch r w request response none = (w, response, response_service_not_supported)
  dispatch r w request response (some route) =
      if not (is_service_allowed (sessions w) request.service_id)
      then (w, response, response_conditions_not_correct)
      else if route.requires_security
          && ltb (get_state (sessions w)).security_level route.min_security_level
      then (w, response, response_security_access_denied)
      else execute r route w request response

  -- `Service_Router_ProcessRequest`
  unfoldable pub process_request :
      ServiceRouter W → W → Option UdsMessage → Option UdsMessage → W × Option UdsMessage × ℕ
  process_request r w none response = (w, response, response_general_reject)
  process_request r w (some request) none = (w, none, response_general_reject)
  process_request r w (some request) (some response) =
      if not r.initialized
      then (w, some response, response_general_reject)
      else let (w', response', result) =
          dispatch r (pre_process r w request) request response
            (entry_of (find_route request.service_id (active r))) in
        (w', some response', result)
