-- ===== src/Config/Consistent.antt =====
-- What settings that pass the checks are good for.
use atlas_alpha.Prelude.{◌≡◌, refl, Bool, true, false, not, ◌&&◌, String, inl, inr, ◌⊎◌}
use atlas_alpha.Prelude.Result.{ok}
use atlas_alpha.OAuth.State.{StateSettings, oauth_state_key}
use atlas_alpha.Config.{
  is_positive, Settings, Parsers, nonempty, oidc_enabled, vault_configured, oauth_routes_enabled,
  email_configured,
}
use atlas_alpha.Config.Checks.{reject, secure}

pub reject-eq-ok :
    (b : Bool) (message : String) (s s' : Settings) → reject b message s ≡ ok s' → b ≡ false
unfolding reject
reject-eq-ok true message s s' h = cc
reject-eq-ok false message s s' h = refl

pub and-eq-false : (a b : Bool) → (a && b) ≡ false → (a ≡ false) ⊎ (b ≡ false)
and-eq-false true b h = inr h
and-eq-false false b h = inl refl

pub not-eq-false : (b : Bool) → not b ≡ false → b ≡ true
not-eq-false true h = refl
not-eq-false false h = cc

-- `_oauth_state_key`'s settings
abbrev pub state_settings : Settings → StateSettings
state_settings s = record {
  oauth_state_secret = s.oauth_state_secret;
  oauth_allow_insecure_state = s.oauth_allow_insecure_state;
}

pub record IsConsistent (parsers : Parsers) (s : Settings) : Type 0 where
  pub oidc :
      (oidc_enabled s ≡ true)
      ⊎ ((nonempty s.oidc_issuer ≡ false)
          × (nonempty s.oidc_audience ≡ false)
          × (nonempty s.oidc_jwks_uri ≡ false))
  pub oidc_secure :
      (oidc_enabled s ≡ false)
      ⊎ ((s.oidc_allow_insecure_http ≡ true)
          ⊎ ((secure parsers s.oidc_issuer ≡ true) × (secure parsers s.oidc_jwks_uri ≡ true)))
  pub state_key :
      (oauth_routes_enabled s ≡ false)
      ⊎ ((key : String) × (oauth_state_key (state_settings s) ≡ ok key))
  pub durable_vault :
      (oauth_routes_enabled s ≡ false)
      ⊎ ((nonempty s.database_url ≡ false) ⊎ (vault_configured s ≡ true))
  pub email :
      (email_configured s ≡ true)
      ⊎ ((nonempty s.resend_api_key ≡ false) × (nonempty s.email_from ≡ false))
  pub budget : is_positive s.rate_limit_requests ≡ true
  pub window : is_positive s.rate_limit_window_seconds ≡ true
