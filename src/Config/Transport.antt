-- ===== src/Config/Transport.antt =====
-- The transport that src/atlas/tool_egress.py picks by the settings: `make_adapter_transport` and the
-- checks of `ProxyTransport`, with the settings' own properties of the proxy.
pub mod Validated
use atlas_alpha.Prelude.{
  Bool, true, false, not, ◌&&◌, String, Option, none, some, ◌==◌, if◌then◌else◌, strip,
}
use atlas_alpha.Prelude.Result.{Result, ok, ◌>>=◌}
use atlas_alpha.Egress.{Url, EgressPolicy, refused}
use atlas_alpha.Config.{Settings, Parsers, literal_is_blocked}

pub record ProxyTransport : Type 0 where
  pub policy : EgressPolicy
  pub proxy_url : String
  pub proxy_auth : Option (String × String)

pub data Transport : Type 0 where
  direct : EgressPolicy → Transport
  through : ProxyTransport → Transport

abbrev pub has_auth : Option (String × String) → Bool
has_auth none = false
has_auth (some _) = true

-- The checks of `ProxyTransport.__init__` on the parsed URL
abbrev pub check_parsed : Parsers → Option (String × String) → Url → Result Url
check_parsed parsers proxy_auth parsed =
    if not (parsed.scheme == "http") && not (parsed.scheme == "https")
    then refused "proxy url scheme not allowed"
    else if parsed.host == ""
    then refused "proxy url must include a host"
    else if literal_is_blocked (parsers.ip_address parsed.host)
    then refused "ATLAS_ADAPTER_EGRESS_PROXY_URL host resolves to a blocked address range."
    else if not (parsed.userinfo == "")
    then refused "proxy url must not contain userinfo"
    else if has_auth proxy_auth && not (parsed.scheme == "https")
    then refused "proxy auth requires an https:// proxy url"
    else ok parsed

-- `ProxyTransport.__init__`
unfoldable pub proxy_transport :
    Parsers → EgressPolicy → String → Option (String × String) → Result ProxyTransport
proxy_transport parsers policy proxy_url proxy_auth = do
  parsed ← parsers.parse_url (strip proxy_url)
  checked ← check_parsed parsers proxy_auth parsed
  ok (record { policy = policy; proxy_url = strip proxy_url; proxy_auth = proxy_auth })

-- `adapter_egress_proxy_enabled` and `adapter_egress_proxy_auth`
abbrev pub adapter_egress_proxy_enabled : Settings → Bool
adapter_egress_proxy_enabled s = not (strip s.adapter_egress_proxy_url == "")

abbrev pub auth_of : String → Option String → Option (String × String)
auth_of user none = none
auth_of user (some secret) = if strip secret == "" then none else some (user, secret)

abbrev pub adapter_egress_proxy_auth : Settings → Option (String × String)
adapter_egress_proxy_auth s =
    auth_of (strip s.adapter_egress_proxy_username) s.adapter_egress_proxy_password

-- `make_adapter_transport`
unfoldable pub make_adapter_transport : Parsers → Settings → EgressPolicy → Result Transport
unfolding proxy_transport
make_adapter_transport parsers s policy =
    if adapter_egress_proxy_enabled s
    then (proxy_transport parsers policy (strip s.adapter_egress_proxy_url)
          (adapter_egress_proxy_auth s)
        >>= (λ transport. ok (through transport)))
    else ok (direct policy)
