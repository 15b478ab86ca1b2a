-- ===== src/OAuth.antt =====
-- Connecting a user's Google or Slack account: the signed state, the binding of the account to the user
-- who asked for it, and the callback that stores the credential.
pub mod State
pub mod Binding
pub mod Callback
pub mod Connect
