-- ===== src/Tests/Egress.antt =====
-- An outbound request at a concrete URL, host and resolver.
use atlas_alpha.Prelude.{
  ◌≡◌, refl, true, false, String, ◌==◌, none, List, [], ◌∷◌, Some, contains, if◌then◌else◌,
}
use atlas_alpha.Prelude.Result.{ok, raise}
use atlas_alpha.Egress.{
  Url, EgressPolicy, Address, Network, Pin, or_https_port, egress_policy, unscoped, prepare_pinned,
}
use atlas_alpha.Egress.Pinned.{IsAllowedUrl, AreSafe, IsSafe, prepare_pinned-IsSafe}

abbrev pub crm : Url
crm = record {
  scheme = "https";
  userinfo = "";
  host = "api.crm.io";
  port = none;
  path = "/v1/notes";
}

abbrev pub public_address : Address
public_address = record {
  class = record { is_global = true; is_multicast = false; is_unspecified = false };
  ipv4_mapped = none;
}

abbrev pub private_address : Address
private_address = record {
  class = record { is_global = false; is_multicast = false; is_unspecified = false };
  ipv4_mapped = none;
}

-- A network in which the host has two addresses, one of them with a scope id.
abbrev pub network : Network
network = record {
  parse_url = λ text.
      if text == "https://api.crm.io/v1/notes" then ok crm else raise "InvalidURL" "no such url";
  lower = λ host. host;
  getaddrinfo = λ host port. ok ("8.8.8.8%eth0" ∷ "9.9.9.9" ∷ []);
  ip_address = λ ip. ok (if ip == "10.0.0.1" then private_address else public_address);
  shown_port = λ port. "8443";
}

abbrev pub crm_policy : EgressPolicy
crm_policy =
    egress_policy network.lower ("api.crm.io" ∷ [])
      (record { method = "POST"; host = "api.crm.io"; port = 443; path = "/v1/notes" } ∷ [])

abbrev pub crm_pin : Pin
crm_pin = record {
  url = record crm { host = "8.8.8.8" };
  host_header = "api.crm.io";
  sni_hostname = "api.crm.io";
}

pub pinned : prepare_pinned network crm_policy "https://api.crm.io/v1/notes" ≡ ok crm_pin
unfolding prepare_pinned contains
pinned = refl

prepare_pinned-IsSafe_example :
    (parsed : Url) × (network.parse_url "https://api.crm.io/v1/notes" ≡ ok parsed)
    × IsAllowedUrl network.lower crm_policy parsed
    × ((infos : List String) × (network.getaddrinfo parsed.host (or_https_port parsed.port)
          ≡ ok infos)
        × AreSafe network infos
        × Some (λ info. unscoped info ≡ crm_pin.url.host) infos
        × IsSafe network crm_pin.url.host)
    × (crm_pin.url ≡ record parsed { host = crm_pin.url.host })
    × (crm_pin.sni_hostname ≡ parsed.host)
prepare_pinned-IsSafe_example =
    prepare_pinned-IsSafe network crm_policy "https://api.crm.io/v1/notes" crm_pin pinned
