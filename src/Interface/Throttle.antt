-- ===== src/Interface/Throttle.antt =====
-- src/atlas/interface/rate_limit.py: the rate limit of a request. The backend's answer is an argument,
-- as are the digest of an identified principal and the clock; times are in milliseconds.
use Prim.Native.Nat.{◌/◌, ◌-◌}
use atlas_alpha.Prelude.{
  ℕ, ◌+◌, ◌≡◌, refl, sym, ap, ◌∙◌, Bool, true, false, String, Option, none, some, ◌↔◌, inl, inr,
  Bool-cases, append, if◌then◌else◌,
}
use mathlib.Core.Option.{some-injective}
use atlas_alpha.Prelude.Result.{Result, ok, err}
use atlas_alpha.Policy.{Principal, anonymous, is_anonymous}

pub record RateLimitDecision : Type 0 where
  pub allowed : Bool
  pub retry_after : ℕ

-- A response of the backend: whether there is budget, and when the window ends.
pub record Response : Type 0 where
  pub allowed : Bool
  pub reset : ℕ

abbrev decided : ℕ → Result Response → RateLimitDecision
decided now (err _) = record { allowed = true; retry_after = 0 }
decided now (ok r) =
    if r.allowed
    then record { allowed = true; retry_after = 0 }
    else record { allowed = false; retry_after = r.reset - now }

-- `UpstashRateLimiter.acquire`: fail-open
unfoldable pub acquire : (String → Result Response) → ℕ → String → RateLimitDecision
acquire limit now key = decided now (limit key)

-- The host of the client, if the request has one.
abbrev host_of : Option String → String
host_of none = "unknown"
host_of (some host) = host

-- `rate_limit_key`; `digest` is that of `_identified_principal_key`.
unfoldable pub rate_limit_key :
    (Option String → String → String) → Principal → Option String → String
rate_limit_key digest principal host =
    if is_anonymous principal
    then append "ip|" (host_of host)
    else append "u|" (digest principal.org_id principal.user_id)

-- `ceil` of a time, in seconds
abbrev seconds : ℕ → ℕ
seconds t = (t + 999) / 1000

-- The answer to a request that is not let through: status 429 with its Retry-After.
pub record TooManyRequests : Type 0 where
  pub retry_after : ℕ

abbrev verdict : RateLimitDecision → Option TooManyRequests
verdict d = if d.allowed then none else some (record { retry_after = seconds d.retry_after })

-- `enforce_rate_limit`: `none` where the request goes on
unfoldable pub enforce_rate_limit :
    (Option String → String → String)
    → Option (String → Result Response)
    → ℕ
    → Option String
    → Principal
    → Option TooManyRequests
unfolding acquire rate_limit_key
enforce_rate_limit digest none now host principal = none
enforce_rate_limit digest (some limit) now host principal =
    verdict (acquire limit now (rate_limit_key digest principal host))

-- `enforce_rate_limit_by_ip`
unfoldable pub enforce_rate_limit_by_ip :
    (Option String → String → String)
    → Option (String → Result Response)
    → ℕ
    → Option String
    → Option TooManyRequests
unfolding acquire rate_limit_key
enforce_rate_limit_by_ip digest none now host = none
enforce_rate_limit_by_ip digest (some limit) now host =
    verdict (acquire limit now (rate_limit_key digest anonymous host))

abbrev allowed_of : Result Response → Bool
allowed_of (ok r) = r.allowed
allowed_of (err _) = true

abbrev reset_of : Result Response → ℕ
reset_of (ok r) = r.reset
reset_of (err _) = 0

verdict-some :
    (now : ℕ) (r : Result Response) (t : TooManyRequests)
    → (verdict (decided now r) ≡ some t) ↔ (
        (response : Response) × (r ≡ ok response)
        × (response.allowed ≡ false)
        × (t ≡ record { retry_after = seconds (response.reset - now) }))
verdict-some now (err e) t = (λ h. cc, λ (response, e', _, _). cc)
verdict-some now (ok r) t = elim (Bool-cases r.allowed) [
  | inl e ↦ (
    λ h. let bad : none ≡ some t = rw e at h in cc,
    λ (response, same, refused, _).
        let bad : r.allowed ≡ false = ap allowed_of same ∙ refused in cc,
  )
  | inr e ↦ (
    λ h.
        let here : some (record { retry_after = seconds (r.reset - now) }) ≡ some t = rw e at h in
        (r, refl, e, sym (some-injective _ t here)),
    λ (response, same, _, q). rw e (
        ap (λ x. some x)
          (ap (λ x. record { retry_after = seconds (reset_of x - now) }) same ∙ sym q)),
  )
]

module _ (digest : Option String → String → String) (limit : String → Result Response)
    (now : ℕ) where
  -- A request is refused exactly if the backend answers, for the bucket of the caller, that there is no
  -- budget, and then with the seconds to the end of the window, rounded up; an outage lets it through.
  pub enforce_rate_limit-some_iff :
      (host : Option String) (principal : Principal) (t : TooManyRequests)
      → (enforce_rate_limit digest (some limit) now host principal ≡ some t) ↔ (
          (response : Response) × (limit (rate_limit_key digest principal host) ≡ ok response)
          × (response.allowed ≡ false)
          × (t ≡ record { retry_after = seconds (response.reset - now) }))
  unfolding enforce_rate_limit acquire
  enforce_rate_limit-some_iff host principal t =
      verdict-some now (limit (rate_limit_key digest principal host)) t
