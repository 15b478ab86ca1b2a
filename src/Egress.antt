-- ===== src/Egress.antt =====
-- src/atlas/tool_egress.py: what an outbound request of a tool may reach. The parsing of a URL, the
-- lower-casing of a text, the resolver and the classes of an address are the libraries' (httpx, socket,
-- ipaddress), and so arguments. The message on a scheme leaves out the scheme's repr.
pub mod Pinned
use atlas_alpha.Prelude.{
  ℕ, Bool, true, false, not, ◌&&◌, ◌||◌, String, Option, none, some, List, [], ◌∷◌, ◌==◌, append,
  nat_beq, contains, if◌then◌else◌,
}
use Prim.Native.Char.{Char}
use atlas_alpha.Prelude.Result.{Error, Result, ok, err, raise, ◌>>=◌}

-- The parts of an `httpx.URL` that the code reads.
pub record Url : Type 0 where
  pub scheme : String
  pub userinfo : String
  pub host : String
  pub port : Option ℕ
  pub path : String

pub record EgressRoute : Type 0 where
  pub method : String
  pub host : String
  pub port : ℕ
  pub path : String

pub record EgressPolicy : Type 0 where
  pub allowed_hosts : List String
  pub routes : List EgressRoute

-- What `ipaddress` says of an address.
pub record Class : Type 0 where
  pub is_global : Bool
  pub is_multicast : Bool
  pub is_unspecified : Bool

pub record Address : Type 0 where
  pub class : Class
  pub ipv4_mapped : Option Class

pub record Network : Type 0 where
  pub parse_url : String → Result Url
  pub lower : String → String
  pub getaddrinfo : String → ℕ → Result (List String)
  pub ip_address : String → Result Address
  pub shown_port : ℕ → String

pub record Pin : Type 0 where
  pub url : Url
  pub host_header : String
  pub sni_hostname : String

abbrev pub allowed_method : String
allowed_method = "POST"

-- `port or _DEFAULT_HTTPS_PORT`
abbrev pub or_https_port : Option ℕ → ℕ
or_https_port none = 443
or_https_port (some port) = if nat_beq port 0 then 443 else port

abbrev pub refused {ℓ} : {A : Type ℓ} → String → Result A
refused message = raise "EgressNotAllowed" message

abbrev pub route_beq : EgressRoute → EgressRoute → Bool
route_beq a b =
    a.method == b.method && (a.host == b.host && (nat_beq a.port b.port && a.path == b.path))

-- `route in self.routes`
pub has_route : List EgressRoute → EgressRoute → Bool
has_route [] route = false
has_route (r ∷ routes) route = if route_beq r route then true else has_route routes route

-- The route that a request to a URL takes.
abbrev pub route_of : (String → String) → Url → EgressRoute
route_of lower url = record {
  method = allowed_method;
  host = lower url.host;
  port = or_https_port url.port;
  path = url.path;
}

-- `_normalize_hosts`
abbrev normalize_hosts : (String → String) → List String → List String
normalize_hosts lower [] = []
normalize_hosts lower (host ∷ hosts) = lower host ∷ normalize_hosts lower hosts

abbrev pub egress_policy : (String → String) → List String → List EgressRoute → EgressPolicy
egress_policy lower hosts routes = record {
  allowed_hosts = normalize_hosts lower hosts;
  routes = routes;
}

-- `EgressPolicy.assert_allowed`
pub assert_allowed : Network → EgressPolicy → Url → Result Url
unfolding has_route
assert_allowed net policy url =
    let host = net.lower url.host in
    if not (url.scheme == "https")
    then refused "scheme not allowed"
    else if not (url.userinfo == "")
    then refused "url must not contain userinfo"
    else if host == ""
    then refused "outbound url has no host"
    else if not (contains policy.allowed_hosts host)
    then refused (append "host not on egress allowlist: " host)
    else if not (has_route policy.routes (route_of net.lower url))
    then refused (
        append "route not allowed: POST "
          (append host (append ":" (append (net.shown_port (or_https_port url.port)) url.path))))
    else ok url

abbrev pub host_allowed : Network → List String → Url → Result Url
host_allowed net allowlist parsed =
    let host = net.lower parsed.host in
    if not (parsed.scheme == "https")
    then refused "scheme not allowed"
    else if not (parsed.userinfo == "")
    then refused "url must not contain userinfo"
    else if host == ""
    then refused "outbound url has no host"
    else if not (contains allowlist host)
    then refused (append "host not on egress allowlist: " host)
    else ok parsed

-- `assert_host_allowed`: the check of an endpoint when its tool is built
unfoldable pub assert_host_allowed : Network → String → List String → Result Url
assert_host_allowed net url allowlist = net.parse_url url >>= host_allowed net allowlist

-- `prepare_validated`
abbrev pub prepare_validated : Network → EgressPolicy → String → Result Url
unfolding assert_allowed
prepare_validated net policy url = do parsed ← net.parse_url url; assert_allowed net policy parsed

-- `_ip_is_blocked`
abbrev pub class_is_blocked : Class → Bool
class_is_blocked c = not c.is_global || (c.is_multicast || c.is_unspecified)

pub ip_is_blocked : Address → Bool
ip_is_blocked ip = elim ip.ipv4_mapped [
  | none ↦ class_is_blocked ip.class
  | some mapped ↦ class_is_blocked mapped
]

-- `ip_str.split("%", 1)[0]`
pub unscoped : String → String
unscoped String.[] = ""
unscoped (String.◌∷◌ c s) =
    let rest = unscoped s in if String.◌∷◌ c "" == "%" then "" else String.◌∷◌ c rest

-- `safe_ip`, once an address is taken
abbrev pub first_of : Option String → String → Option String
first_of none ip = some ip
first_of (some safe) ip = some safe

-- The check of one address before the rest of the loop.
pub vetted : String → Result Address → Result (Option String) → Result (Option String)
unfolding ip_is_blocked
vetted ip (err e) rest = err e
vetted ip (ok address) rest =
    if ip_is_blocked address
    then refused (append "host resolves to a blocked address: " ip)
    else rest

-- The loop over the addresses of a host.
pub pick : Network → Option String → List String → Result (Option String)
unfolding unscoped vetted
pick net safe [] = ok safe
pick net safe (info ∷ infos) =
    let ip = unscoped info in vetted ip (net.ip_address ip) (pick net (first_of safe ip) infos)

abbrev pub resolved : String → Result (List String) → Result (List String)
resolved host (ok infos) = ok infos
resolved host (err e) =
    if e.kind == "gaierror" then refused (append "could not resolve host: " host) else err e

abbrev pub chosen : String → Option String → Result String
chosen host (some ip) = ok ip
chosen host none = refused (append "no usable address for host: " host)

abbrev pub some_of : String → List String → Result (List String)
some_of host [] = refused (append "no addresses for host: " host)
some_of host (info ∷ infos) = ok (info ∷ infos)

pub resolve_safe_ip : Network → String → Option ℕ → Result String
unfolding pick
resolve_safe_ip net host port = do
  found ← resolved host (net.getaddrinfo host (or_https_port port))
  infos ← some_of host found
  safe ← pick net none infos
  chosen host safe

abbrev pub host_header : Network → Url → String
host_header net url = elim url.port [
  | none ↦ url.host
  | some port ↦ append url.host (append ":" (net.shown_port port))
]

-- `HttpxTransport.prepare_pinned`
unfoldable pub prepare_pinned : Network → EgressPolicy → String → Result Pin
unfolding assert_allowed resolve_safe_ip
prepare_pinned net policy url = do
  parsed ← prepare_validated net policy url
  ip ← resolve_safe_ip net parsed.host parsed.port
  ok (record {
    url = record parsed { host = ip };
    host_header = host_header net parsed;
    sni_hostname = parsed.host;
  })
