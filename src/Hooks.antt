-- ===== src/Hooks.antt =====
-- runtime/src/hooks.rs: the interposed sigaction, malloc and free, with the allocations before the real
-- malloc is known and the guard against a second free from win32u.
pub mod Signals
pub mod Bootstrap
pub mod Guard
pub mod SetUp
