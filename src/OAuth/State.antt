-- ===== src/OAuth/State.antt =====
-- src/atlas/interface/oauth_state.py and oauth_pending.py: the signed state of an OAuth round trip, and
-- the cookie that binds it to a browser. A time is a number of seconds since the epoch.
pub mod Genuine
use Prim.Native.Char.{Char, code}
use atlas_alpha.Prelude.{
  ℕ, ◌+◌, Bool, true, false, not, ◌&&◌, ◌||◌, List, String, Option, none, some, ◌==◌, append, ltb,
  strip, if◌then◌else◌,
}
use atlas_alpha.Prelude.Result.{Result, ok, raise, ◌>>=◌}
use atlas_alpha.Value.{Value, null, bool, int, number, text, obj, arr, Fields, end, field, get}
use atlas_alpha.Policy.{Principal, is_anonymous}
use atlas_alpha.Credentials.{OAuthProvider, provider_value}

-- The library calls on texts: `encode` is the URL-safe base 64 of a payload's sorted JSON and `decode`
-- reads it back, `hmac` is the hexadecimal HMAC-SHA256 under a key, and `parse_int` is what `int` makes
-- of a text, or of a number that is not a count.
pub record Codec : Type 0 where
  pub encode : Fields → String
  pub decode : String → Option Fields
  pub hmac : String → String → String
  pub parse_int : String → Result ℕ
  pub lower : String → String

-- The settings that the state's key depends on.
pub record StateSettings : Type 0 where
  pub oauth_state_secret : Option String
  pub oauth_allow_insecure_state : Bool

abbrev pub insecure_dev_state_key : String
insecure_dev_state_key = "atlas-dev-oauth-state-insecure-flag-only"

abbrev pub state_error {ℓ} : {A : Type ℓ} → String → Result A
state_error message = raise "OAuthStateError" message

abbrev pub secret_text : Option String → String
secret_text none = ""
secret_text (some secret) = strip secret

-- `oauth_state_key`
unfoldable pub oauth_state_key : StateSettings → Result String
oauth_state_key settings =
    let secret = secret_text settings.oauth_state_secret in
    if not (secret == "")
    then ok secret
    else if settings.oauth_allow_insecure_state
    then ok insecure_dev_state_key
    else state_error "ATLAS_OAUTH_STATE_SECRET is not configured"

abbrev pub add_front : Char → String → Option (String × String) → Option (String × String)
add_front c s (some (front, back)) = some (String.◌∷◌ c front, back)
add_front c s none = if String.◌∷◌ c "" == "." then some ("", s) else none

-- `s.rsplit(".", 1)`, where there is a dot
unfoldable pub rsplit_dot : String → Option (String × String)
rsplit_dot String.[] = none
rsplit_dot (String.◌∷◌ c s) = add_front c s (rsplit_dot s)

unfoldable pub is_ascii : String → Bool
is_ascii String.[] = true
is_ascii (String.◌∷◌ c s) = ltb (code c) 128 && is_ascii s

-- `hmac.compare_digest` on texts
unfoldable pub compare_digest : String → String → Result Bool
unfolding is_ascii
compare_digest a b =
    if is_ascii a && is_ascii b
    then ok (a == b)
    else raise "TypeError" "comparing strings with non-ASCII characters is not supported"

abbrev pub org_value : Option String → Value
org_value none = null
org_value (some org_id) = text org_id

-- `normalize_email`
abbrev pub normalize_email : Codec → String → String
normalize_email codec email = codec.lower (strip email)

-- The payload that is signed.
abbrev pub state_payload : Codec → Principal → OAuthProvider → String → String → ℕ → Fields
state_payload codec principal provider binding_email nonce exp =
    field "user_id" (text principal.user_id) (
      field "org_id" (org_value principal.org_id) (
        field "provider" (text (provider_value provider)) (
          field "binding_email" (text (normalize_email codec binding_email))
            (field "nonce" (text nonce) (field "exp" (int exp) end)))))

-- `issue_oauth_state`, given the nonce and the time
unfoldable pub issue_oauth_state :
    Codec → StateSettings → Principal → OAuthProvider → String → ℕ → String → ℕ → Result String
unfolding oauth_state_key
issue_oauth_state codec settings principal provider binding_email ttl_seconds nonce now = do
  key ← oauth_state_key settings
  let payload = state_payload codec principal provider binding_email nonce (now + ttl_seconds)
  let body = codec.encode payload
  ok (append body (append "." (codec.hmac key body)))

-- `int(value)`
abbrev pub int_of : Codec → Value → Result ℕ
int_of codec (int n) = ok n
int_of codec (bool b) = ok (if b then 1 else 0)
int_of codec (number literal _) = codec.parse_int literal
int_of codec (text s) = codec.parse_int s
int_of codec null = raise "TypeError" "int() argument must be a string or a real number"
int_of codec (obj _) = raise "TypeError" "int() argument must be a string or a real number"
int_of codec (arr _) = raise "TypeError" "int() argument must be a string or a real number"

-- `payload.get("exp", 0)`
abbrev pub expiry : Fields → Value
expiry payload = elim (get "exp" payload) [ none ↦ int 0 | some v ↦ v ]

abbrev pub two_parts : Option (String × String) → Result (String × String)
two_parts none = state_error "malformed state"
two_parts (some parts) = ok parts

abbrev pub signed : Bool → Result Bool
signed true = ok true
signed false = state_error "invalid state signature"

abbrev pub decoded : Option Fields → Result Fields
decoded none = state_error "invalid state payload"
decoded (some payload) = ok payload

abbrev pub unexpired : ℕ → ℕ → Fields → Result Fields
unexpired exp now payload = if ltb exp now then state_error "expired state" else ok payload

-- `consume_oauth_state`
unfoldable pub consume_oauth_state : Codec → StateSettings → String → ℕ → Result Fields
unfolding rsplit_dot oauth_state_key compare_digest
consume_oauth_state codec settings state now = do
  parts ← two_parts (rsplit_dot state)
  key ← oauth_state_key settings
  equal ← compare_digest (codec.hmac key parts.0) parts.1
  valid ← signed equal
  payload ← decoded (codec.decode parts.0)
  exp ← int_of codec (expiry payload)
  unexpired exp now payload

-- `isinstance(raw, str) and raw.strip()`
abbrev pub stated : Option Value → Option String
stated (some (text s)) = if strip s == "" then none else some s
stated _ = none

abbrev pub required : String → Option String → Result String
required message none = state_error message
required message (some s) = ok s

-- `principal_from_payload`
unfoldable pub principal_from_payload : Fields → Result Principal
principal_from_payload payload = do
  user_id ← required "state missing user_id" (stated (get "user_id" payload))
  org_id ← required "org_id required" (stated (get "org_id" payload))
  ok (record { user_id = user_id; roles = List.[]; org_id = some org_id })

-- `payload.get(key) == s`, where `s` is a text or None
unfoldable pub value_is : Option Value → Option String → Bool
value_is (some (text t)) (some s) = t == s
value_is (some null) none = true
value_is none none = true
value_is _ _ = false

abbrev pub has_org : Option String → Bool
has_org none = false
has_org (some org_id) = not (org_id == "")

-- `principal_from_state`
pub principal_from_state : Fields → Principal → Result Principal
unfolding value_is
principal_from_state payload caller =
    if is_anonymous caller
    then state_error "authentication required"
    else if not (value_is (get "user_id" payload) (some caller.user_id))
        || not (value_is (get "org_id" payload) caller.org_id)
    then state_error "state principal mismatch"
    else if not (has_org caller.org_id)
    then state_error "org_id required"
    else ok caller

-- `sign_pending_nonce`
unfoldable pub sign_pending_nonce : Codec → StateSettings → String → Result String
unfolding oauth_state_key
sign_pending_nonce codec settings nonce = do
  key ← oauth_state_key settings
  ok (codec.hmac key nonce)

abbrev pub nonce_of : Option Value → Option String
nonce_of (some (text nonce)) = if nonce == "" then none else some nonce
nonce_of _ = none

abbrev pub cookie_matches : Codec → StateSettings → String → Option String → Result Bool
cookie_matches codec settings cookie none = ok false
cookie_matches codec settings cookie (some nonce) =
    sign_pending_nonce codec settings nonce >>= λ expected. compare_digest expected cookie

-- `verify_oauth_pending_cookie`
unfoldable pub verify_oauth_pending_cookie : Codec → StateSettings → String → Fields → Result Bool
unfolding sign_pending_nonce compare_digest
verify_oauth_pending_cookie codec settings cookie payload =
    cookie_matches codec settings cookie (nonce_of (get "nonce" payload))
