-- ===== src/Tools.antt =====
-- The tools of src/atlas/tools.py that come with the program: their argument checks, the segments that
-- scope their permissions, their runs and the registries. What pydantic reads for a text field, the
-- lower- and upper-casing of texts, the senders and the resolver of tokens are arguments; a sender may
-- change the world. The checks that an argument is an instance of its model are left out: a run gets
-- what the model has validated.
pub mod Catalog
pub mod Recipients
pub mod Channels
pub mod Durable
use Prim.Native.Char.{Char}
use Prim.Native.String.{[], ◌∷◌}
use atlas_alpha.Prelude.{
  ℕ, Bool, true, false, not, ◌&&◌, ◌||◌, String, Option, none, some, ◌==◌, append, if◌then◌else◌,
  strip, is_space, starts_with, List, Dict,
}
use atlas_alpha.Prelude.Result.{Error, Result, ok, err, raise, ◌>>=◌}
use atlas_alpha.Value.{Value, text, arr, obj, cons, nil, Fields, end, field, get}
use atlas_alpha.Actions.{RiskTier, read, send}
use atlas_alpha.Policy.{Principal}
use atlas_alpha.Audit.{AuditToolContext}
use atlas_alpha.Credentials.{OAuthProvider, google, slack}
use atlas_alpha.Registry.{Tool, register}

-- The library calls: `read_text name min_length max_length default args` is what pydantic reads for a
-- field `name: str`, `lower` and `upper` are those of `str`, and `repr` is that of a text.
pub record Texts : Type 0 where
  pub read_text : String → ℕ → Option ℕ → Option String → Fields → Result String
  pub lower : String → String
  pub upper : String → String
  pub repr : String → String

abbrev pub no_context : AuditToolContext
no_context = record {
  tool_schema = none;
  schema_version = none;
  destination_host = none;
  provider = none;
  principal = none;
}

-- An argument of validated arguments.
abbrev pub argument : String → Fields → String
unfolding get
argument name args = elim (get name args) [ some (text s) ↦ s | _ ↦ "" ]

-- `s[1:]` and `s[:1]`
abbrev pub rest_of : String → String
rest_of [] = ""
rest_of (c ∷ s) = s

abbrev pub first_of : String → String
first_of [] = ""
first_of (c ∷ s) = c ∷ ""

-- `slack_channel_resource_segment`
pub slack_channel_resource_segment : Texts → String → String
slack_channel_resource_segment texts channel =
    if starts_with channel "#"
    then append "channel:" (texts.lower (rest_of channel))
    else append "channel:" channel

-- A character of `[^@\s]`.
abbrev pub is_plain : Char → Bool
is_plain c = not (c ∷ "" == "@") && not (is_space c)

-- Whether a text matches `[^@\s]*`, and `[^@\s]+`
unfoldable pub plain : String → Bool
plain [] = true
plain (c ∷ s) = is_plain c && plain s

abbrev pub plain_word : String → Bool
unfolding plain
plain_word s = not (s == "") && plain s

-- Whether a text matches `[^@\s]*@[^@\s]+`
unfoldable pub has_domain : String → Bool
unfolding plain
has_domain [] = false
has_domain (c ∷ s) =
    let later = is_plain c && has_domain s in if c ∷ "" == "@" then plain_word s else later

-- `_EMAIL_RECIPIENT_RE.fullmatch(value)`
unfoldable pub is_recipient : String → Bool
unfolding has_domain
is_recipient [] = false
is_recipient (c ∷ s) = is_plain c && has_domain s

-- `_validated_recipient`
unfoldable pub validated_recipient : String → Result String
unfolding is_recipient
validated_recipient value =
    if is_recipient value
    then ok value
    else raise "ValueError" "recipient must be a plain email address (local@domain)"

abbrev pub after_at : Char → String → Option String → Option String
after_at c s (some domain) = some domain
after_at c s none = if c ∷ "" == "@" then some s else none

-- What follows the last `@`, if there is one.
pub rpartition_at : String → Option String
rpartition_at [] = none
rpartition_at (c ∷ s) = after_at c s (rpartition_at s)

abbrev pub or_whole : String → Option String → String
or_whole recipient none = recipient
or_whole recipient (some domain) = domain

-- `_recipient_domain`
pub recipient_domain : Texts → String → String
unfolding rpartition_at
recipient_domain texts recipient =
    let domain = texts.lower (or_whole recipient (rpartition_at recipient)) in
    if domain == "" then texts.lower recipient else domain

-- `_SlackPostArgs.reject_non_channel_targets`
unfoldable pub reject_non_channel_targets : Texts → String → Result String
reject_non_channel_targets texts value =
    let stripped = strip value in
    let kind = texts.upper (first_of stripped) in
    if starts_with stripped "@"
    then raise "ValueError"
        "channel must be a channel name or ID (C…/G…/#name); @-mentions are not allowed for slack_post"
    else if (kind == "U" || kind == "D") && not (rest_of stripped == "")
    then raise "ValueError"
        "channel must be a channel name or ID (C…/G…/#name); user/DM targets are not allowed for slack_post"
    else if starts_with stripped "#"
    then ok (append "#" (texts.lower (rest_of stripped)))
    else ok stripped

module _ (texts : Texts) where
  -- The model of `_SendEmailArgs` and `_GmailSendArgs`
  pub email_args : Fields → Result Fields
  unfolding validated_recipient
  email_args args = do
    raw ← texts.read_text "to" 3 none none args
    to ← validated_recipient raw
    subject ← texts.read_text "subject" 0 none (some "") args
    body ← texts.read_text "body" 0 none (some "") args
    ok (field "to" (text to) (field "subject" (text subject) (field "body" (text body) end)))

  abbrev pub domain_segment : Fields → Result (Option String)
  unfolding recipient_domain
  domain_segment args = ok (some (append "domain:" (recipient_domain texts (argument "to" args))))

  -- `_SlackPostArgs`
  pub slack_args : Fields → Result Fields
  unfolding reject_non_channel_targets
  slack_args args = do
    raw ← texts.read_text "channel" 1 none none args
    channel ← reject_non_channel_targets texts raw
    message ← texts.read_text "text" 1 (some 40000) none args
    ok (field "channel" (text channel) (field "text" (text message) end))

  -- `_SlackPostAsUserArgs`
  pub slack_user_args : Fields → Result Fields
  slack_user_args args = do
    channel ← texts.read_text "channel" 1 none none args
    message ← texts.read_text "text" 1 (some 40000) none args
    ok (field "channel" (text channel) (field "text" (text message) end))

  -- `_CalendarCreateEventArgs`
  pub calendar_args : Fields → Result Fields
  calendar_args args = do
    summary ← texts.read_text "summary" 1 none none args
    start ← texts.read_text "start" 1 none none args
    until ← texts.read_text "end" 1 none none args
    description ← texts.read_text "description" 0 none (some "") args
    location ← texts.read_text "location" 0 none (some "") args
    timezone ← texts.read_text "timezone" 0 none (some "UTC") args
    ok (
        field "summary" (text summary) (
          field "start" (text start) (
            field "end" (text until) (
              field "description" (text description)
                (field "location" (text location) (field "timezone" (text timezone) end))))))

  abbrev pub search_args : Fields → Result Fields
  search_args args = do
    query ← texts.read_text "query" 1 none none args
    ok (field "query" (text query) end)
