-- ===== src/ServiceRouter/Routes.antt =====
-- Adding, removing and finding routes.
use cant.Prelude.{
  ℕ, ◌≡◌, refl, true, not, ◌&&◌, Option, none, some, ◌==◌, ltb, leb, if◌then◌else◌, arith, ◌∙◌,
  Bool-cases, inl, inr,
}
use cant.ServiceRouter.{
  ServiceRoute, ServiceRouter, route_id, find_route, active, max_routes, add_in, add_route,
  remove_in, remove_route, get_route,
}
use cant.Prelude.Table.{is_some, find_by-Found, entry_of-find_by, lookup, Found}
use cant.Prelude.Table.Arrays.{IsTable, add-IsTable, lookup_added, remove-IsTable, lookup_removed}

-- The array keeps its length, the count its bound, and the ids in use are different.
abbrev pub IsValid : {W : Type 0} → ServiceRouter W → Type 0
IsValid r = IsTable route_id max_routes r.routes r.route_count

module _ {W : Type 0} where
  -- A search of a table that is set up gives the first route with the id.
  pub get_route_lem :
      (r : ServiceRouter W) (id : ℕ)
      → r.initialized ≡ true
      → get_route r id ≡ lookup route_id id (active r)
  unfolding get_route
  get_route_lem r id on = rw on (entry_of-find_by route_id id (active r))

  add_in_lem :
      (r : ServiceRouter W) (route : ServiceRoute W) (id : ℕ) (o : Option (ℕ × ServiceRoute W))
      → IsValid r
      → Found route_id route.service_id (active r) o
      → let (r', done) = add_in r route o in
        IsValid r'
        × (r'.initialized ≡ r.initialized)
        × (done ≡ (
            not (is_some (lookup route_id route.service_id (active r)))
            && ltb r.route_count max_routes))
        × (lookup route_id id (active r') ≡ (
            if done && route.service_id == id then some route else lookup route_id id (active r)))
  unfolding add_in
  add_in_lem r route id (some (i, c)) v h = (v, refl, rw (h.1) refl, refl)
  add_in_lem r route id none v h = elim (Bool-cases (leb max_routes r.route_count)) [
    | inl full ↦ rw full (v, refl, rw h (ground arith), refl)
    | inr room ↦ rw room (
      add-IsTable v route (ground arith) h,
      refl,
      rw h (ground arith),
      lookup_added v id route (ground arith) h ∙ ground arith,
    )
  ]

  add_route_on :
      (r : ServiceRouter W) (route : ServiceRoute W)
      → r.initialized ≡ true
      → add_route r (some route) ≡ add_in r route (find_route route.service_id (active r))
  unfolding add_route
  add_route_on r route on = rw on refl

  -- `Service_Router_AddRoute` on a valid table succeeds exactly if no route has the id and there
  -- are fewer than 50 routes; then the new route is found under its id, and every other search
  -- gives what it gave before. The table stays valid.
  pub add_route_lem :
      (r : ServiceRouter W) (route : ServiceRoute W) (id : ℕ)
      → IsValid r
      → r.initialized ≡ true
      → let (r', done) = add_route r (some route) in
        IsValid r'
        × (done ≡ (not (is_some (get_route r route.service_id)) && ltb r.route_count max_routes))
        × (get_route r' id
            ≡ (if done && route.service_id == id then some route else get_route r id))
  add_route_lem r route id v on =
      let (w, on', done, found) =
        add_in_lem r route id (find_route route.service_id (active r)) v
          (find_by-Found route_id route.service_id (active r)) in
      let r' = (add_in r route (find_route route.service_id (active r))).0 in
      rw
        (
          add_route_on r route on,
          get_route_lem r route.service_id on,
          get_route_lem r' id (on' ∙ on),
          get_route_lem r id on,
        )
        (w, done, found)

  remove_in_lem :
      (r : ServiceRouter W) (id k : ℕ) (o : Option (ℕ × ServiceRoute W))
      → IsValid r
      → Found route_id id (active r) o
      → let (r', done) = remove_in r o in
        IsValid r'
        × (r'.initialized ≡ r.initialized)
        × (done ≡ is_some (lookup route_id id (active r)))
        × (lookup route_id k (active r') ≡ (if k == id then none else lookup route_id k (active r)))
  unfolding remove_in
  remove_in_lem r id k none v h = (v, refl, rw h refl, ground (arith, h))
  remove_in_lem r id k (some (i, c)) v h =
      (remove-IsTable v id i c h, refl, rw (h.1) refl, lookup_removed v id k i c h)

  remove_route_on :
      (r : ServiceRouter W) (id : ℕ)
      → r.initialized ≡ true
      → remove_route r id ≡ remove_in r (find_route id (active r))
  unfolding remove_route
  remove_route_on r id on = rw on refl

  -- `Service_Router_RemoveRoute` on a valid table succeeds exactly if a route has the id; afterwards
  -- none has, every other search gives what it gave before, and the table stays valid.
  pub remove_route_lem :
      (r : ServiceRouter W) (id k : ℕ)
      → IsValid r
      → r.initialized ≡ true
      → let (r', done) = remove_route r id in
        IsValid r'
        × (done ≡ is_some (get_route r id))
        × (get_route r' k ≡ (if k == id then none else get_route r k))
  remove_route_lem r id k v on =
      let (w, on', done, found) =
        remove_in_lem r id k (find_route id (active r)) v (find_by-Found route_id id (active r)) in
      let r' = (remove_in r (find_route id (active r))).0 in
      rw
        (
          remove_route_on r id on,
          get_route_lem r id on,
          get_route_lem r' k (on' ∙ on),
          get_route_lem r k on,
        )
        (w, done, found)
