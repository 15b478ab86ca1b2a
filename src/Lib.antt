-- ===== src/Lib.antt =====
-- A verification library for atlas, an agent that plans tool calls, asks a human to approve those that
-- are not plain reads, runs them, and keeps a tamper-evident log of what it did.
--
-- A request enters by src/atlas/interface/routes.py, which starts a fresh thread. The graph of
-- src/atlas/orchestration/graph.py takes the thread through four nodes: the planner proposes actions
-- that the registry has stamped with a tier and a permission, and drops those that the policy denies;
-- the approval node waits for a human's decision on the gated ones; the executor checks every action
-- again and runs it through guarded execution; the responder reports. All of them write to the audit
-- log, and the planner reads the knowledge graph under the requester's access rights.
--
-- The files, by the part that they model:
--   Prelude      lists, texts, dictionaries, Boolean tests and results, shared by all parts
--   Value        Python values that the program passes on (dict[str, Any], Any), with dict's operations
--   Actions      src/atlas/actions.py: RiskTier, requires_approval, the action contracts
--   Policy       src/atlas/governance/rbac.py and policy.py: expand_roles, permission_satisfied, can;
--                and persistence/policy_store.py (Policy.Durable), the table a list of its rows
--   Audit        src/atlas/governance/audit.py: compute_event_hash, verify_chain, link, the recorders
--                (Audit.Recorders), has_executed
--   Registry     src/atlas/tools.py: BaseTool as the record Tool, ToolRegistry's register, get, names,
--                propose and execute
--   Execution    src/atlas/execution.py: GuardedExecutor.execute_guarded on a state of log and world
--   Knowledge    src/atlas/knowledge/interfaces.py (can_read) and memory_store.py (Knowledge.Memory)
--   Confidence   src/atlas/governance/confidence.py: collect_sources, score_confidence
--   Orchestration
--     State      src/atlas/orchestration/state.py, and the collaborators of the nodes as a record Agent
--     Decisions  _parse_decisions of src/atlas/orchestration/nodes.py
--     Gate       _required_permission_for and the checks of the executor's loop
--     Planner, Approval, Executor, Responder
--                the nodes of src/atlas/orchestration/nodes.py; a node takes the thread's state, and the
--                log and world where it changes them, and returns the state with its update written in
--     Turn       route_after_planner and the edges of build_graph, with the runtime's steps as a relation
--   Knowledge.Ingestion
--                src/atlas/knowledge/ingestion.py: chunk_text (Chunks), _persist_extraction and
--                _collect_relations (Extraction), IngestionService.ingest
--   Interface    src/atlas/interface/security.py (Identity), rate_limit.py (Throttle) and
--                resume_lock.py (Locks: the entries and leases, each call taken whole;
--                Contention: the same, step by step, with any number of callers; Resume)
--   Tools        src/atlas/tools.py: the argument checks and permission segments of the tools, and the
--                tools themselves with the default registry (Tools.Catalog)
--   Egress       src/atlas/tool_egress.py: assert_allowed, assert_host_allowed, resolve_safe_ip,
--                prepare_pinned
--   Adapter      src/atlas/adapter_engine.py: the validation of a ToolSchema, and the tool and the egress
--                policy that are built from it (Adapter.Tool)
--   Credentials  src/atlas/governance/credentials.py: the contract of a credential vault as a record, the
--                in-memory vault that fills it, and CredentialResolver over any vault
--                (Credentials.Resolver)
--   OAuth
--     State      src/atlas/interface/oauth_state.py and oauth_pending.py: the signed state and its cookie
--     Binding    src/atlas/integrations/oauth_binding.py: assert_provider_email_binding and its parts
--     Callback, Connect
--                src/atlas/interface/oauth_routes.py, over any vault
--   Config       src/atlas/config.py: the properties of Settings and its validators (Config.Checks),
--                and the choice of the transport in src/atlas/tool_egress.py (Config.Transport)
--   Tests        concrete inputs
--
-- How the source is read: a raise is a value (Prelude.Result) whose message stands where a caller shows
-- it; a dict is an association list in insertion order; a set is a list of its elements; a confidence is
-- a natural number of hundredths. Loops are structural recursion over the list that the source loops
-- over, except that chunk_text's loop and the printing of a number run on fuel: the length of the text
-- (each turn drops a character) and one more than the number's value (each digit divides it by ten).
-- The log and the tools' world are passed through explicitly, and what a tool did to the world stays
-- when it raises.
--
-- Parameters stand for what the repository does not define: the canonical bytes of an event, SHA-256,
-- event ids and the clock (Audit.Env); the tools' validation and effects (Registry.Tool, over any type
-- of world); the planning strategy, the narrator, the text of a value and the direction of a rounding at
-- a half (Orchestration.State.Agent); the lower-casing and case folding of texts and the extractor
-- (Knowledge.Memory.query, Knowledge.Ingestion.Service); request headers, token verification and the
-- rate limiter's backend (Interface); the parsing of a URL, the resolver and the classes of an address
-- (Egress.Network); base 64, JSON and HMAC (OAuth.State.Codec); the answers of the OAuth providers
-- (OAuth.Binding.Accounts, OAuth.Callback.Client); what pydantic reads for a field (Tools.Texts,
-- Adapter.Tool.Engine); the senders and the transport (Tools.Catalog.Live, Adapter.Tool.Engine); urlparse,
-- httpx.URL and ipaddress (Config.Parsers). A vault is a record of operations over a state of
-- its own, and the resolver and the routes are written over any vault.
--
-- Not modelled: the SQL and HTTP backends of the other stores and of the vault, which hold queries
-- rather than logic; the model providers and the clients of external services, with the parsing of a
-- token's answer, which the routes take as arguments; the reading of schema files and of the
-- environment; FastAPI's wiring and streaming; scripts, evaluations and tests.
pub mod Prelude
pub mod Value
pub mod Actions
pub mod Policy
pub mod Audit
pub mod Registry
pub mod Config
pub mod Tools
pub mod Adapter
pub mod Execution
pub mod Knowledge
pub mod Confidence
pub mod Orchestration
pub mod Credentials
pub mod OAuth
pub mod Egress
pub mod Interface
pub mod Tests
