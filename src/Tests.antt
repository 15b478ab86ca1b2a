-- ===== src/Tests.antt =====
-- Concrete inputs for the theorems: an agent with two tools, a policy, users, a graph and an audit log.
mod Fixtures
mod Governance
mod Memory
mod Turns
mod Requests
mod Documents
mod Egress
mod Contention
mod Codec
mod Accounts
mod Catalog
