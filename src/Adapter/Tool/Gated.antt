-- ===== src/Adapter/Tool/Gated.antt =====
-- A tool that is built from a schema is gated like the others.
use atlas_alpha.Prelude.{
  ◌≡◌, ◌≢◌, refl, sym, ap, true, false, List, subst, String, Option, none, some, ◌==◌, eq_iff,
  arith, inl, inr, ◌⊎◌, Bool-cases, contains,
}
use atlas_alpha.Prelude.Result.{ok, >>=-eq-ok, ok-injective}
use atlas_alpha.Actions.{RiskTier, read, write, send, delete, pay, tier, requires_approval}
use atlas_alpha.Registry.{Tool}
use atlas_alpha.Egress.{Url, Network, host_allowed, assert_host_allowed}
use atlas_alpha.Adapter.{ToolSchema}
use atlas_alpha.Adapter.Tool.{
  Engine, host_of, is_read, is_named, schema_tool, validate_security, build_tool,
}

-- The endpoint is an https URL without user information, and its host is on the allowlist.
pub record IsAllowedEndpoint (net : Network) (allowlist : List String) (endpoint : String)
    : Type 0 where
  pub url : Url
  pub parsed : net.parse_url endpoint ≡ ok url
  pub secure : url.scheme ≡ "https"
  pub plain : url.userinfo ≡ ""
  pub listed : contains allowlist (net.lower url.host) ≡ true

host_allowed-eq-ok :
    (net : Network) (allowlist : List String) (url url' : Url)
    → host_allowed net allowlist url ≡ ok url'
    → (url.scheme ≡ "https")
      × (url.userinfo ≡ "")
      × (contains allowlist (net.lower url.host) ≡ true)
host_allowed-eq-ok net allowlist url url' h = elim (Bool-cases (url.scheme == "https")) [
  | inr e ↦ let bad = rw e at h in cc
  | inl s ↦ elim (Bool-cases (url.userinfo == "")) [
    | inr e ↦ let bad = rw (s, e) at h in cc
    | inl u ↦ elim (Bool-cases (net.lower url.host == "")) [
      | inl e ↦ let bad = rw (s, u, e) at h in cc
      | inr o ↦ elim (Bool-cases (contains allowlist (net.lower url.host))) [
        | inr e ↦ let bad = rw (s, u, o, e) at h in cc
        | inl i ↦ ((eq_iff url.scheme "https").0 s, (eq_iff url.userinfo "").0 u, i)
      ]
    ]
  ]
]

is_read-requires_approval : (t : RiskTier) → is_read t ≡ false → requires_approval (tier t) ≡ true
unfolding requires_approval
is_read-requires_approval read h = cc
is_read-requires_approval write h = refl
is_read-requires_approval send h = refl
is_read-requires_approval delete h = refl
is_read-requires_approval pay h = refl

is_read-eq : (t : RiskTier) → is_read t ≡ true → t ≡ read
is_read-eq read h = refl
is_read-eq write h = cc
is_read-eq send h = cc
is_read-eq delete h = cc
is_read-eq pay h = cc

is_named-some :
    (o : Option String)
    → is_named o ≡ true
    → (permission : String) × (o ≡ some permission) × (permission ≢ "")
is_named-some none h = cc
is_named-some (some p) h = (p, refl, ground (arith, eq_iff p ""))

module _ {W : Type 0} (engine : Engine W) (schema : ToolSchema) where
  -- The tool may run by itself only if a reviewed list names it; else a person has to approve each call,
  -- and the caller needs a permission.
  abbrev pub IsAnchored : Tool W → Type 0
  IsAnchored tool =
      ((tool.risk_tier ≡ read) × (contains engine.read_tier_allowlist tool.name ≡ true))
      ⊎ ((requires_approval (tier tool.risk_tier) ≡ true)
          × ((permission : String) × (tool.required_permission ≡ some permission)
              × (permission ≢ "")))

  assert_host_allowed-eq-ok :
      (url : Url)
      → assert_host_allowed engine.network schema.endpoint engine.allowlist ≡ ok url
      → IsAllowedEndpoint engine.network engine.allowlist schema.endpoint
  unfolding assert_host_allowed
  assert_host_allowed-eq-ok url h =
      let (parsed, e, h1) = >>=-eq-ok (engine.network.parse_url schema.endpoint) _ url h in
      let (secure, plain, listed) =
        host_allowed-eq-ok engine.network engine.allowlist parsed url h1 in
      record { url = parsed; parsed = e; secure = secure; plain = plain; listed = listed }

  validate_security-IsAnchored :
      (url : Url) (host : String)
      → validate_security engine schema ≡ ok url
      → IsAnchored (schema_tool engine schema host)
        × IsAllowedEndpoint engine.network engine.allowlist schema.endpoint
  unfolding validate_security schema_tool
  validate_security-IsAnchored url host h = elim (Bool-cases (is_read schema.risk_tier)) [
    | inl r ↦ elim (Bool-cases (contains engine.read_tier_allowlist schema.name)) [
      | inr e ↦ let bad = rw (r, e) at h in cc
      | inl e ↦
          (inl (is_read-eq schema.risk_tier r, e), assert_host_allowed-eq-ok url (rw (r, e) at h))
    ]
    | inr r ↦ elim (Bool-cases (is_named schema.required_permission)) [
      | inr e ↦ let bad = rw (r, e) at h in cc
      | inl e ↦ (
        inr (
          is_read-requires_approval schema.risk_tier r,
          is_named-some schema.required_permission e,
        ),
        assert_host_allowed-eq-ok url (rw (r, e) at h),
      )
    ]
  ]

  -- A tool that is built from a schema has the schema's name and tier. It runs by itself only if its tier
  -- is a read and its name is on the reviewed list; else a person has to approve each call and the caller
  -- needs a permission that is not empty. Its endpoint is https, without user information, at a host of
  -- the allowlist.
  pub build_tool-IsAnchored :
      (tool : Tool W)
      → build_tool engine schema ≡ ok tool
      → (tool.name ≡ schema.name)
        × (tool.risk_tier ≡ schema.risk_tier)
        × IsAnchored tool
        × IsAllowedEndpoint engine.network engine.allowlist schema.endpoint
  unfolding build_tool schema_tool
  build_tool-IsAnchored tool h =
      let (url, e, h1) = >>=-eq-ok (validate_security engine schema) _ tool h in
      let (host, f, h2) = >>=-eq-ok (host_of engine schema) _ tool h1 in
      let same = ok-injective _ tool h2 in
      let (anchored, allowed) = validate_security-IsAnchored url host e in
      (
        ap (λ t. t.name) (sym same),
        ap (λ t. t.risk_tier) (sym same),
        subst IsAnchored same anchored,
        allowed,
      )
