-- ===== src/Adapter/Tool/Routes.antt =====
-- A permitted host is reached only at the endpoints of the schemas.
use atlas_alpha.Prelude.{◌≡◌, refl, sym, subst, String, List, [], ◌∷◌, In, inl, inr}
use atlas_alpha.Prelude.Result.{ok, >>=-eq-ok, ok-injective}
use atlas_alpha.Egress.{Url, EgressRoute, EgressPolicy, Network, Pin, route_of, prepare_pinned}
use atlas_alpha.Egress.Pinned.{prepare_pinned-IsSafe, IsAllowedUrl-route}
use atlas_alpha.Adapter.{ToolSchema}
use atlas_alpha.Adapter.Tool.{routes_of, build_egress_policy}

module _ (net : Network) where
  -- The route is that of the endpoint of a schema.
  abbrev pub IsEndpoint : List ToolSchema → EgressRoute → Type 0
  IsEndpoint schemas route =
      (schema : ToolSchema) × (endpoint : Url) × In schema schemas
      × (net.parse_url schema.endpoint ≡ ok endpoint)
      × (route_of net.lower endpoint ≡ route)

  routes_of-IsEndpoint :
      (schemas : List ToolSchema) (routes : List EgressRoute) (route : EgressRoute)
      → routes_of net schemas ≡ ok routes
      → In route routes
      → IsEndpoint schemas route
  unfolding routes_of
  routes_of-IsEndpoint [] routes route h i =
      elim (subst (In route) (sym (ok-injective _ routes h)) i) [ ]
  routes_of-IsEndpoint (schema ∷ schemas) routes route h i =
      let (url, e, h1) = >>=-eq-ok (net.parse_url schema.endpoint) _ routes h in
      let (rest, f, h2) = >>=-eq-ok (routes_of net schemas) _ routes h1 in
      elim (subst (In route) (sym (ok-injective _ routes h2)) i) [
        | inl here ↦ (schema, url, inl refl, e, here)
        | inr there ↦
            let (s, u, j, p, q) = routes_of-IsEndpoint schemas rest route f there in
            (s, u, inr j, p, q)
      ]

  -- Under the policy that is built from the schemas, a request that is let out goes to the method, host,
  -- port and path of the endpoint of one of the schemas.
  pub prepare_pinned-IsEndpoint :
      (schemas : List ToolSchema) (hosts : List String) (policy : EgressPolicy) (url : String)
      (pin : Pin)
      → build_egress_policy net schemas hosts ≡ ok policy
      → prepare_pinned net policy url ≡ ok pin
      → (parsed : Url) × (net.parse_url url ≡ ok parsed)
        × IsEndpoint schemas (route_of net.lower parsed)
        × (pin.url ≡ record parsed { host = pin.url.host })
  unfolding build_egress_policy
  prepare_pinned-IsEndpoint schemas hosts policy url pin built h =
      let (parsed, e, allowed, _, goes, _) = prepare_pinned-IsSafe net policy url pin h in
      let (routes, f, same) = >>=-eq-ok (routes_of net schemas) _ policy built in
      let route = IsAllowedUrl-route net.lower policy parsed allowed in
      (
        parsed,
        e,
        routes_of-IsEndpoint schemas routes (route_of net.lower parsed) f (
            subst (λ p. In (route_of net.lower parsed) p.routes) (sym (ok-injective _ policy same))
              route),
        goes,
      )
