-- ===== src/Egress/Pinned.antt =====
-- A pinned request goes to an address that was vetted, by a route that was allowed.
use atlas_alpha.Prelude.{
  ℕ, ◌≡◌, refl, sym, ap, subst, true, false, String, Option, none, some, List, [], ◌∷◌, ◌==◌,
  eq_iff, and_iff, nat_beq_iff, contains, In, inl, inr, Some, Bool-cases,
}
use atlas_alpha.Prelude.Result.{Result, ok, err, >>=-eq-ok, ok-injective, Result-cases}
use atlas_alpha.Egress.{
  Url, EgressRoute, EgressPolicy, Address, Network, Pin, or_https_port, route_beq, has_route,
  route_of, assert_allowed, prepare_validated, ip_is_blocked, unscoped, vetted, pick, resolved,
  chosen, some_of, resolve_safe_ip, prepare_pinned,
}

route_beq-eq : (a b : EgressRoute) → route_beq a b ≡ true → a ≡ b
route_beq-eq a b h =
    let (m, r) = (and_iff _ _).0 h in
    let (o, q) = (and_iff _ _).0 r in
    let (p, t) = (and_iff _ _).0 q in
    let method = (eq_iff a.method b.method).0 m in
    let host = (eq_iff a.host b.host).0 o in
    let port = (nat_beq_iff a.port b.port).0 p in let path = (eq_iff a.path b.path).0 t in cc

has_route-In :
    (routes : List EgressRoute) (r : EgressRoute) → has_route routes r ≡ true → In r routes
unfolding has_route
has_route-In [] r h = cc
has_route-In (x ∷ routes) r h = elim (Bool-cases (route_beq x r)) [
  | inl e ↦ inl (route_beq-eq x r e)
  | inr e ↦ inr (has_route-In routes r (rw e at h))
]

-- What a policy allows of a URL.
unfoldable pub IsAllowedUrl : (String → String) → EgressPolicy → Url → Type 0
IsAllowedUrl lower policy url =
    (url.scheme ≡ "https")
    × (url.userinfo ≡ "")
    × (contains policy.allowed_hosts (lower url.host) ≡ true)
    × In (route_of lower url) policy.routes

pub IsAllowedUrl-route :
    (lower : String → String) (policy : EgressPolicy) (url : Url)
    → IsAllowedUrl lower policy url
    → In (route_of lower url) policy.routes
unfolding IsAllowedUrl
IsAllowedUrl-route lower policy url (_, _, _, route) = route

-- The text is that of an address that is not blocked.
unfoldable pub IsSafe : Network → String → Type 0
IsSafe net ip =
    (address : Address) × (net.ip_address ip ≡ ok address) × (ip_is_blocked address ≡ false)

-- Each text is that of an address that is not blocked.
unfoldable pub AreSafe : Network → List String → Type 0
unfolding IsSafe
AreSafe net [] = Unit
AreSafe net (info ∷ infos) = IsSafe net (unscoped info) × AreSafe net infos

module _ (net : Network) where
  assert_allowed-IsAllowedUrl :
      (policy : EgressPolicy) (url url' : Url)
      → assert_allowed net policy url ≡ ok url'
      → (url ≡ url') × IsAllowedUrl net.lower policy url
  unfolding assert_allowed IsAllowedUrl
  assert_allowed-IsAllowedUrl policy url url' h = elim (Bool-cases (url.scheme == "https")) [
    | inr e ↦ let bad = rw e at h in cc
    | inl s ↦ elim (Bool-cases (url.userinfo == "")) [
      | inr e ↦ let bad = rw (s, e) at h in cc
      | inl u ↦ elim (Bool-cases (net.lower url.host == "")) [
        | inl e ↦ let bad = rw (s, u, e) at h in cc
        | inr o ↦ elim (Bool-cases (contains policy.allowed_hosts (net.lower url.host))) [
          | inr e ↦ let bad = rw (s, u, o, e) at h in cc
          | inl i ↦ elim (Bool-cases (has_route policy.routes (route_of net.lower url))) [
            | inr e ↦ let bad = rw (s, u, o, i, e) at h in cc
            | inl r ↦ (
              ok-injective url url' (rw (s, u, o, i, r) at h),
              ((eq_iff _ _).0 s, (eq_iff _ _).0 u, i, has_route-In policy.routes _ r),
            )
          ]
        ]
      ]
    ]
  ]

  vetted-ok :
      (ip : String) (rest : Result (Option String)) (out : Option String)
      → vetted ip (net.ip_address ip) rest ≡ ok out
      → IsSafe net ip × (rest ≡ ok out)
  unfolding vetted IsSafe
  vetted-ok ip rest out h = elim (Result-cases (net.ip_address ip)) [
    | inr (e, q) ↦ let bad = rw q at h in cc
    | inl (address, q) ↦ elim (Bool-cases (ip_is_blocked address)) [
      | inl b ↦ let bad = rw (q, b) at h in cc
      | inr b ↦ ((address, q, b), rw (q, b) at h)
    ]
  ]

  pick-AreSafe :
      (infos : List String) (safe out : Option String)
      → pick net safe infos ≡ ok out
      → AreSafe net infos
  unfolding pick AreSafe
  pick-AreSafe [] safe out h = tt
  pick-AreSafe (info ∷ infos) safe out h =
      let (first, rest) = vetted-ok (unscoped info) _ out h in
      (first, pick-AreSafe infos _ out rest)

  pick-keeps :
      (ip : String) (out : Option String) (infos : List String)
      → pick net (some ip) infos ≡ ok out
      → out ≡ some ip
  unfolding pick
  pick-keeps ip out [] h = sym (ok-injective _ _ h)
  pick-keeps ip out (info ∷ infos) h = pick-keeps ip out infos (vetted-ok (unscoped info) _ out h).1

  -- The address that is taken is the first.
  pick-IsSafe :
      (host ip : String) (infos : List String) (safe : Option String)
      → pick net none infos ≡ ok safe
      → chosen host safe ≡ ok ip
      → Some (λ info. unscoped info ≡ ip) infos × IsSafe net ip
  unfolding pick
  pick-IsSafe host ip [] safe h c = let bad = rw (sym (ok-injective _ _ h)) at c in cc
  pick-IsSafe host ip (info ∷ infos) safe h c =
      let (first, rest) = vetted-ok (unscoped info) _ safe h in
      let same : unscoped info ≡ ip =
        ok-injective _ ip (rw (pick-keeps (unscoped info) safe infos rest) at c) in
      (inl same, subst (IsSafe net) same first)

  resolved-ok :
      (host : String) (r : Result (List String)) (infos : List String)
      → resolved host r ≡ ok infos
      → r ≡ ok infos
  resolved-ok host (ok found) infos h = h
  resolved-ok host (err e) infos h = elim (Bool-cases (e.kind == "gaierror")) [
    | inl q ↦ let bad = rw q at h in cc
    | inr q ↦ let bad = rw q at h in cc
  ]

  some_of-ok :
      (host : String) (found infos : List String) → some_of host found ≡ ok infos → found ≡ infos
  some_of-ok host [] infos h = cc
  some_of-ok host (info ∷ found) infos h = ok-injective _ infos h

  resolve_safe_ip-IsSafe :
      (host ip : String) (port : Option ℕ)
      → resolve_safe_ip net host port ≡ ok ip
      → (infos : List String) × (net.getaddrinfo host (or_https_port port) ≡ ok infos)
        × AreSafe net infos
        × Some (λ info. unscoped info ≡ ip) infos
        × IsSafe net ip
  unfolding resolve_safe_ip
  resolve_safe_ip-IsSafe host ip port h =
      let (found, e, h') =
        >>=-eq-ok (resolved host (net.getaddrinfo host (or_https_port port))) _ ip h in
      let (infos, f, h'') = >>=-eq-ok (some_of host found) _ ip h' in
      let (safe, g, c) = >>=-eq-ok (pick net none infos) _ ip h'' in
      let answered = resolved-ok host _ found e in
      let (chose, safe_ip) = pick-IsSafe host ip infos safe g c in
      (
        infos,
        subst (λ x. net.getaddrinfo host (or_https_port port) ≡ ok x)
            (some_of-ok host found infos f) answered,
        pick-AreSafe infos none safe g,
        chose,
        safe_ip,
      )

  -- Where the direct transport pins a request, the URL was parsed once, and what was parsed is allowed by
  -- the policy: it is https without user information, its host is on the allowlist and its route is one
  -- of the policy's. Every address that the host resolves to is one that is not blocked, the request
  -- goes to one of these and otherwise to the URL as parsed, and TLS verifies the parsed host.
  pub prepare_pinned-IsSafe :
      (policy : EgressPolicy) (url : String) (pin : Pin)
      → prepare_pinned net policy url ≡ ok pin
      → (parsed : Url) × (net.parse_url url ≡ ok parsed)
        × IsAllowedUrl net.lower policy parsed
        × ((infos : List String) × (net.getaddrinfo parsed.host (or_https_port parsed.port)
              ≡ ok infos)
            × AreSafe net infos
            × Some (λ info. unscoped info ≡ pin.url.host) infos
            × IsSafe net pin.url.host)
        × (pin.url ≡ record parsed { host = pin.url.host })
        × (pin.sni_hostname ≡ parsed.host)
  unfolding prepare_pinned
  prepare_pinned-IsSafe policy url pin h =
      let (parsed, e, h') = >>=-eq-ok (prepare_validated net policy url) _ pin h in
      let (ip, f, h'') = >>=-eq-ok (resolve_safe_ip net parsed.host parsed.port) _ pin h' in
      let (read, g, allowed) = >>=-eq-ok (net.parse_url url) (assert_allowed net policy) parsed e in
      let (same, is_allowed) = assert_allowed-IsAllowedUrl policy read parsed allowed in
      let pinned = ok-injective _ pin h'' in
      let host = ap (λ p. p.url.host) pinned in
      (
        parsed,
        subst (λ u. net.parse_url url ≡ ok u) same g,
        subst (IsAllowedUrl net.lower policy) same is_allowed,
        subst
            (λ x.
              (infos : List String) × (net.getaddrinfo parsed.host (or_https_port parsed.port)
                ≡ ok infos)
              × AreSafe net infos
              × Some (λ info. unscoped info ≡ x) infos
              × IsSafe net x)
            host (resolve_safe_ip-IsSafe parsed.host ip parsed.port f),
        subst (λ p. p.url ≡ record parsed { host = p.url.host }) pinned refl,
        sym (ap (λ p. p.sni_hostname) pinned),
      )
