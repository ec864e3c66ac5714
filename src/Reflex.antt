-- ===== src/Reflex.antt =====
-- protocol/reflex: the registration of a Reflex client and the routing of its syscalls.
pub mod Control
pub mod Enums
pub mod State
pub mod Rank
pub mod Machine
pub mod HandleCpuid
pub mod Route
pub mod Threads
