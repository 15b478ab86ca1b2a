-- ===== src/Tools/Durable.antt =====
-- The default registry: every tool but the search is gated, and without a durable audit log none has an
-- effect.
use mathlib.Core.Option.{some-injective}
use atlas_alpha.Prelude.{
  ◌≡◌, refl, subst, true, String, Option, none, some, [], ◌∷◌, ◌==◌, eq_iff, inl, inr, ◌⊎◌, All,
  Bool-cases, Option-cases, Dict, lookup, insert,
}
use atlas_alpha.Prelude.Result.{ok}
use atlas_alpha.Value.{Fields}
use atlas_alpha.Actions.{tier, requires_approval}
use atlas_alpha.Policy.{Principal}
use atlas_alpha.Registry.{Tool, register}
use atlas_alpha.Tools.{Texts}
use atlas_alpha.Tools.Catalog.{
  Tokens, Backends, search_tool, send_email_tool, slack_post_tool, gmail_send_tool,
  calendar_create_event_tool, slack_post_as_user_tool, registry, ToolSettings, Live,
  resolve_backends, default_registry,
}

All-lookup :
    {V : Type 0} (P : String × V → Type 0) (d : Dict V) (k : String) (v : V)
    → All P d
    → lookup k d ≡ some v
    → P (k, v)
unfolding lookup
All-lookup P [] k v all h = cc
All-lookup P ((j, w) ∷ d) k v (p, all) h = elim (Bool-cases (j == k)) [
  | inl e ↦
      let name = (eq_iff j k).0 e in
      let value = some-injective w v (rw e at h) in
      let same : (j, w) ≡ (k, v) = cc in subst P same p
  | inr e ↦ All-lookup P d k v all (rw e at h)
]

module _ {W : Type 0} (texts : Texts) (b : Backends W) where
  abbrev catalog : Dict (Tool W)
  catalog =
      ("search", search_tool texts)
      ∷ ("send_email", send_email_tool texts b.email_sender)
      ∷ ("slack_post", slack_post_tool texts b.slack_sender)
      ∷ ("gmail_send", gmail_send_tool texts b.gmail_sender b.resolver)
      ∷ ("calendar_create_event", calendar_create_event_tool texts b.calendar_client b.resolver)
      ∷ ("slack_post_as_user", slack_post_as_user_tool texts b.slack_user_sender b.resolver)
      ∷ []

  registry-catalog : registry texts b ≡ ok catalog
  unfolding registry register lookup insert
  registry-catalog = refl

-- No run of the tool has an effect on the world.
abbrev pub IsHarmless : {W : Type 0} → Tool W → Type 0
IsHarmless {W} tool =
    (args : Fields) (principal : Principal) (world : W) → (tool.run args principal world).1 ≡ world

-- A person has to approve each call, and the caller needs a permission.
abbrev pub IsGated : {W : Type 0} → Tool W → Type 0
IsGated {W} tool =
    (requires_approval (tier tool.risk_tier) ≡ true)
    × ((permission : String) × (tool.required_permission ≡ some permission))

module _ {W : Type 0} (texts : Texts) (settings : ToolSettings) (live : Live W)
    (resolver : Option (Tokens W)) where
  abbrev tools : Dict (Tool W)
  tools = catalog texts (resolve_backends settings live resolver)

  abbrev IsExpected : String × Tool W → Type 0
  IsExpected (name, tool) = (tool.name ≡ name) × ((name ≡ "search") ⊎ IsGated tool)

  catalog-IsExpected : All IsExpected tools
  unfolding requires_approval
  catalog-IsExpected = (
    (refl, inl refl),
    (
      (refl, inr (refl, ("tool:send", refl))),
      (
        (refl, inr (refl, ("tool:slack:post", refl))),
        (
          (refl, inr (refl, ("tool:gmail:send", refl))),
          (
            (refl, inr (refl, ("tool:calendar:write", refl))),
            ((refl, inr (refl, ("tool:slack:post_as_user", refl))), tt),
          ),
        ),
      ),
    ),
  )

  -- Without a database no sender is there.
  catalog-IsHarmless : settings.database_url ≡ none → All (λ e. IsHarmless e.1) tools
  unfolding resolve_backends
  catalog-IsHarmless e = (
    λ args p w. refl,
    (
      λ args p w. rw e refl,
      (
        λ args p w. rw e refl,
        (λ args p w. rw e refl, (λ args p w. rw e refl, (λ args p w. rw e refl, tt))),
      ),
    ),
  )

  -- The default registry is built, and each of its tools stands under its own name. Every tool but
  -- `search` needs a person's approval and a permission, and unless a database keeps the audit log no tool
  -- has an effect outside, whatever else is configured.
  pub default_registry-IsGated :
      (tools : Dict (Tool W)) × (default_registry settings live texts resolver ≡ ok tools)
      × ((name : String) (tool : Tool W)
          → lookup name tools ≡ some tool
          → (tool.name ≡ name)
            × ((name ≡ "search") ⊎ IsGated tool)
            × (((url : String) × (settings.database_url ≡ some url)) ⊎ IsHarmless tool))
  unfolding default_registry
  default_registry-IsGated = (
    tools,
    registry-catalog texts (resolve_backends settings live resolver),
    λ name tool found.
        let (named, gated) = All-lookup IsExpected tools name tool catalog-IsExpected found in
        (
          named,
          gated,
          elim (Option-cases settings.database_url) [
            | inr durable_log ↦ inl durable_log
            | inl e ↦
                inr (All-lookup (λ x. IsHarmless x.1) tools name tool (catalog-IsHarmless e) found)
          ],
        ),
  )
