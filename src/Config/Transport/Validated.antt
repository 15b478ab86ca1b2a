-- ===== src/Config/Transport/Validated.antt =====
-- Settings that pass the check of the proxy give a transport.
use Prim.Native.Char.{Char}
use Prim.Native.String.{[], ◌∷◌}
use atlas_alpha.Prelude.{
  ◌≡◌, refl, sym, ap, ◌∙◌, Bool, true, false, not, ◌&&◌, ◌||◌, String, Option, none, some, ◌==◌,
  eq_iff, inl, inr, ◌⊎◌, Bool-cases, strip, strip_left, strip_right, is_space,
}
use atlas_alpha.Prelude.Result.{ok, >>=-eq-ok, then-eq-ok}
use atlas_alpha.Egress.{Url, EgressPolicy}
use atlas_alpha.Config.{Settings, Parsers, nonempty, literal_is_blocked}
use atlas_alpha.Config.Checks.{
  proxy_user, proxy_password, check_proxy_url, check_proxy, proxy_auth_paired, proxy_auth_has_url,
  validate_adapter_egress_proxy,
}
use atlas_alpha.Config.Consistent.{reject-eq-ok, not-eq-false}
use atlas_alpha.Config.Transport.{
  direct, through, has_auth, check_parsed, proxy_transport, auth_of, adapter_egress_proxy_auth,
  make_adapter_transport,
}

strip_left_kept : (c : Char) (s : String) → is_space c ≡ false → strip_left (c ∷ s) ≡ c ∷ s
unfolding strip_left
strip_left_kept c s e = rw e refl

strip_right_kept :
    (c : Char) (s : String) → is_space c ≡ false → strip_right (c ∷ s) ≡ c ∷ strip_right s
unfolding strip_right
strip_right_kept c s e = elim (Bool-cases (strip_right s == "")) [
  | inl f ↦ rw (f, e) refl
  | inr f ↦ rw f refl
]

strip_left-strip_right :
    (s : String) → strip_left (strip_right (strip_left s)) ≡ strip_right (strip_left s)
unfolding strip_left strip_right
strip_left-strip_right [] = refl
strip_left-strip_right (c ∷ s) = elim (Bool-cases (is_space c)) [
  | inl e ↦ rw e (strip_left-strip_right s)
  | inr e ↦
      let kept = ap strip_right (strip_left_kept c s e) ∙ strip_right_kept c s e in
      ap strip_left kept ∙ strip_left_kept c (strip_right s) e ∙ sym kept
]

strip_right_twice : (s : String) → strip_right (strip_right s) ≡ strip_right s
unfolding strip_right
strip_right_twice [] = refl
strip_right_twice (c ∷ s) = elim (Bool-cases (strip_right s == "" && is_space c)) [
  | inl e ↦ rw e refl
  | inr e ↦ rw (e, strip_right_twice s, e) refl
]

strip_twice : (s : String) → strip (strip s) ≡ strip s
unfolding strip
strip_twice s = ap strip_right (strip_left-strip_right s) ∙ strip_right_twice (strip_left s)

has_auth-auth_of :
    (user : String) (password : Option String)
    → has_auth (auth_of user password) ≡ nonempty password
has_auth-auth_of user none = refl
has_auth-auth_of user (some secret) = elim (Bool-cases (strip secret == "")) [
  | inl e ↦ rw e refl
  | inr e ↦ rw e refl
]

-- A password that comes with a user is sent over https alone.
password_secure :
    (user password https : Bool)
    → ((user && not password) || (not user && password)) ≡ false
    → (user && (password && not https)) ≡ false
    → (password && not https) ≡ false
password_secure true password https paired h = h
password_secure false false https paired h = refl
password_secure false true https paired h = cc

-- The URL of a proxy that passed, and whether it takes the credentials.
pub record IsUsable (parsers : Parsers) (auth : Option (String × String)) (url : Url) : Type 0 where
  pub has_host : (url.host == "") ≡ false
  pub plain : (url.userinfo == "") ≡ true
  pub reachable : literal_is_blocked (parsers.ip_address url.host) ≡ false
  pub secure : (has_auth auth && not (url.scheme == "https")) ≡ false
  pub web : (not (url.scheme == "http") && not (url.scheme == "https")) ≡ false

module _ (parsers : Parsers) (s t : Settings) where
  check_proxy_url-IsUsable :
      (url : Url)
      → ((proxy_user s && not (proxy_password s)) || (not (proxy_user s) && proxy_password s))
        ≡ false
      → check_proxy_url s parsers url ≡ ok t
      → IsUsable parsers (adapter_egress_proxy_auth s) url
  check_proxy_url-IsUsable url paired h =
      let ((_, web), h1) = then-eq-ok _ _ t h in
      let ((_, host), h2) = then-eq-ok _ _ t h1 in
      let ((_, plain), h3) = then-eq-ok _ _ t h2 in
      let ((_, secure), blocked) = then-eq-ok _ _ t h3 in
      record {
        has_host = reject-eq-ok _ _ s _ host;
        plain = not-eq-false _ (reject-eq-ok _ _ s _ plain);
        reachable = reject-eq-ok _ _ s _ blocked;
        secure =
            ap (λ b. b && not (url.scheme == "https"))
              (has_auth-auth_of (strip s.adapter_egress_proxy_username)
                s.adapter_egress_proxy_password)
            ∙ password_secure (proxy_user s) (proxy_password s) (url.scheme == "https") paired
                (reject-eq-ok _ _ s _ secure);
        web = reject-eq-ok _ _ s _ web;
      }

  check_parsed-ok :
      (auth : Option (String × String)) (url : Url)
      → IsUsable parsers auth url
      → check_parsed parsers auth url ≡ ok url
  check_parsed-ok auth url u = rw (u.web, u.has_host, u.reachable, u.plain, u.secure) refl

  -- Settings that pass the check of the proxy never fail to give a transport, under any policy: the
  -- direct one where no proxy is set, and else one through the proxy of the settings, whose address is
  -- not blocked and which gets the credentials over https alone.
  pub make_adapter_transport-ok :
      (policy : EgressPolicy)
      → validate_adapter_egress_proxy s parsers ≡ ok t
      → ((strip s.adapter_egress_proxy_url ≡ "")
          × (make_adapter_transport parsers s policy ≡ ok (direct policy)))
        ⊎ ((url : Url) × (parsers.parse_url (strip s.adapter_egress_proxy_url) ≡ ok url)
            × IsUsable parsers (adapter_egress_proxy_auth s) url
            × (make_adapter_transport parsers s policy
                ≡ ok (
                    through (record {
                      policy = policy;
                      proxy_url = strip s.adapter_egress_proxy_url;
                      proxy_auth = adapter_egress_proxy_auth s;
                    }))))
  unfolding validate_adapter_egress_proxy make_adapter_transport proxy_transport
  make_adapter_transport-ok policy h =
      let ((v, paired), h1) = then-eq-ok (proxy_auth_paired s) _ t h in
      let (_, rest) = then-eq-ok (proxy_auth_has_url s) (check_proxy s parsers) t h1 in
      elim (Bool-cases (strip s.adapter_egress_proxy_url == "")) [
        | inl e ↦ inl ((eq_iff _ _).0 e, rw e refl)
        | inr e ↦
            let (url, parsed, checks) =
              >>=-eq-ok (parsers.parse_url (strip s.adapter_egress_proxy_url))
                (check_proxy_url s parsers) t (rw e at rest) in
            let usable = check_proxy_url-IsUsable url (reject-eq-ok _ _ s v paired) checks in
            inr (
              url,
              parsed,
              usable,
              rw
                  (
                    e,
                    strip_twice s.adapter_egress_proxy_url,
                    parsed,
                    check_parsed-ok (adapter_egress_proxy_auth s) url usable,
                  )
                  refl,
            )
      ]
