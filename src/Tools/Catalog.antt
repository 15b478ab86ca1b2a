-- ===== src/Tools/Catalog.antt =====
-- The tools that come with the program, and `default_registry`.
use atlas_alpha.Prelude.{
  Bool, false, String, Option, none, some, ◌==◌, append, if◌then◌else◌, List, Dict,
}
use atlas_alpha.Prelude.Result.{Result, ok, err, raise, ◌>>=◌}
use atlas_alpha.Value.{Value, null, text, arr, obj, cons, nil, Fields, end, field}
use atlas_alpha.Actions.{read, send}
use atlas_alpha.Policy.{Principal}
use atlas_alpha.Credentials.{OAuthProvider, google, slack}
use atlas_alpha.Registry.{Tool, register}
use atlas_alpha.Tools.{
  Texts, no_context, argument, slack_channel_resource_segment, email_args, domain_segment,
  slack_args, slack_user_args, calendar_args, search_args,
}

-- What a tool hands to its sender: a message made of the validated arguments, and a token for a user's own account.
module _ (W : Type 0) where
  abbrev pub Sender : Type 0
  Sender = Fields → W → Result Value × W

  abbrev pub UserSender : Type 0
  UserSender = Fields → String → W → Result Value × W

  -- `CredentialResolver.get_access_token`
  abbrev pub Tokens : Type 0
  Tokens = Principal → OAuthProvider → String → W → Result String × W

  pub record Backends : Type 0 where
    pub email_sender : Option Sender
    pub slack_sender : Option Sender
    pub gmail_sender : Option UserSender
    pub calendar_client : Option UserSender
    pub slack_user_sender : Option UserSender
    pub resolver : Option Tokens

-- `EmailMessage` and `GmailMessage`: an empty body is no text.
abbrev pub email_message : Fields → Fields
email_message args = field "to" (text (argument "to" args)) (
    field "subject" (text (argument "subject" args))
      (field "text" (if argument "body" args == "" then null else text (argument "body" args)) end))

-- `SlackMessage`, `SlackUserMessage` and `CalendarEvent` have the fields of the arguments.
abbrev pub same_fields : Fields → Fields
same_fields args = args

module _ {W : Type 0} (texts : Texts) where
  abbrev pub plain_run :
      String → (Fields → Fields) → Option (Sender W) → Fields → Principal → W → Result Value × W
  plain_run message build none args principal world = (raise "RuntimeError" message, world)
  plain_run message build (some deliver) args principal world = deliver (build args) world

  abbrev pub with_token : UserSender W → Fields → Result String × W → Result Value × W
  with_token deliver args (err e, world) = (err e, world)
  with_token deliver args (ok token, world) = deliver args token world

  abbrev pub user_run :
      String
      → (Fields → Fields)
      → OAuthProvider
      → String
      → Option (UserSender W)
      → Option (Tokens W)
      → Fields
      → Principal
      → W
      → Result Value × W
  user_run message build provider scope (some deliver) (some tokens) args principal world =
      with_token deliver (build args) (tokens principal provider scope world)
  user_run message build provider scope none tokens args principal world =
      (raise "RuntimeError" message, world)
  user_run message build provider scope (some deliver) none args principal world =
      (raise "RuntimeError" message, world)

  abbrev pub search_tool : Tool W
  search_tool = record {
    name = "search";
    description = "Search the knowledge base for information. Read-only.";
    risk_tier = read;
    required_permission = none;
    validate = search_args texts;
    resource_permission = λ args. ok none;
    run = λ args principal world. (
      ok (
          obj (
            field "query" (text (argument "query" args)) (
              field "results"
                (arr (
                  cons (text (append "(mock) top result for " (texts.repr (argument "query" args))))
                    nil))
                (field "source" (text "mock-knowledge-base") end)))),
      world,
    );
    audit_metadata = no_context;
  }

  abbrev pub send_email_tool : Option (Sender W) → Tool W
  send_email_tool sender = record {
    name = "send_email";
    description = "Send an email to a recipient. Irreversible external action.";
    risk_tier = send;
    required_permission = some "tool:send";
    validate = email_args texts;
    resource_permission = domain_segment texts;
    run = plain_run "email not configured" email_message sender;
    audit_metadata = no_context;
  }

  abbrev pub slack_post_tool : Option (Sender W) → Tool W
  slack_post_tool sender = record {
    name = "slack_post";
    description = "Post a message to a Slack channel. Irreversible external action.";
    risk_tier = send;
    required_permission = some "tool:slack:post";
    validate = slack_args texts;
    resource_permission =
        λ args. ok (some (slack_channel_resource_segment texts (argument "channel" args)));
    run = plain_run "slack not configured" same_fields sender;
    audit_metadata = no_context;
  }

  abbrev pub gmail_send_tool : Option (UserSender W) → Option (Tokens W) → Tool W
  gmail_send_tool sender tokens = record {
    name = "gmail_send";
    description =
        "Send an email as the authenticated user via Gmail. Irreversible external action.";
    risk_tier = send;
    required_permission = some "tool:gmail:send";
    validate = email_args texts;
    resource_permission = domain_segment texts;
    run =
        user_run "gmail not configured" email_message google
          "https://www.googleapis.com/auth/gmail.send" sender tokens;
    audit_metadata = no_context;
  }

  abbrev pub calendar_create_event_tool : Option (UserSender W) → Option (Tokens W) → Tool W
  calendar_create_event_tool client tokens = record {
    name = "calendar_create_event";
    description =
        "Create a calendar event as the authenticated user. Irreversible external action.";
    risk_tier = send;
    required_permission = some "tool:calendar:write";
    validate = calendar_args texts;
    resource_permission = λ args. ok none;
    run =
        user_run "calendar not configured" same_fields google
          "https://www.googleapis.com/auth/calendar.events" client tokens;
    audit_metadata = no_context;
  }

  abbrev pub slack_post_as_user_tool : Option (UserSender W) → Option (Tokens W) → Tool W
  slack_post_as_user_tool sender tokens = record {
    name = "slack_post_as_user";
    description = "Post a Slack message as the authenticated user. Irreversible external action.";
    risk_tier = send;
    required_permission = some "tool:slack:post_as_user";
    validate = slack_user_args texts;
    resource_permission = λ args. ok none;
    run = user_run "slack user post not configured" same_fields slack "chat:write" sender tokens;
    audit_metadata = no_context;
  }

  -- The registrations of `offline_registry`, `default_registry` and `_register_oauth_tools`
  unfoldable pub registry : Backends W → Result (Dict (Tool W))
  registry b = do
    r1 ← register search_tool false List.[]
    r2 ← register (send_email_tool b.email_sender) false r1
    r3 ← register (slack_post_tool b.slack_sender) false r2
    r4 ← register (gmail_send_tool b.gmail_sender b.resolver) false r3
    r5 ← register (calendar_create_event_tool b.calendar_client b.resolver) false r4
    register (slack_post_as_user_tool b.slack_user_sender b.resolver) false r5

-- The settings that decide which senders are live.
pub record ToolSettings : Type 0 where
  pub email_configured : Bool
  pub slack_configured : Bool
  pub database_url : Option String

-- The senders of the real services.
pub record Live (W : Type 0) : Type 0 where
  pub email : Sender W
  pub slack : Sender W
  pub gmail : UserSender W
  pub calendar : UserSender W
  pub slack_user : UserSender W

module _ {W : Type 0} (settings : ToolSettings) (live : Live W) where
  -- `_resolve_email_sender` and `_resolve_slack_sender`
  abbrev pub durable : Bool → Sender W → Option String → Option (Sender W)
  durable configured sender none = none
  durable configured sender (some _) = if configured then some sender else none

  abbrev pub user_sender : UserSender W → Option String → Option (Tokens W) → Option (UserSender W)
  user_sender sender (some _) (some _) = some sender
  user_sender sender none resolver = none
  user_sender sender (some _) none = none

  abbrev pub durable_tokens : Option String → Option (Tokens W) → Option (Tokens W)
  durable_tokens (some _) resolver = resolver
  durable_tokens none resolver = none

  -- What `default_registry` wires, with `_resolve_oauth_tools`
  unfoldable pub resolve_backends : Option (Tokens W) → Backends W
  resolve_backends resolver = record {
    email_sender = durable settings.email_configured live.email settings.database_url;
    slack_sender = durable settings.slack_configured live.slack settings.database_url;
    gmail_sender = user_sender live.gmail settings.database_url resolver;
    calendar_client = user_sender live.calendar settings.database_url resolver;
    slack_user_sender = user_sender live.slack_user settings.database_url resolver;
    resolver = durable_tokens settings.database_url resolver;
  }

  -- `default_registry`
  unfoldable pub default_registry : Texts → Option (Tokens W) → Result (Dict (Tool W))
  unfolding registry resolve_backends
  default_registry texts resolver = registry texts (resolve_backends resolver)
