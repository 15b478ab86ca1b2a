-- ===== src/Interface.antt =====
-- What the HTTP interface decides: who calls, who may resume a thread, and how often.
pub mod Identity
pub mod Throttle
pub mod Locks
pub mod Resume
pub mod Contention
