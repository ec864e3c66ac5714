-- ===== src/CpuidTrap.antt =====
-- runtime/src/cpuid.rs: the SIGSEGV handler of CPUID faults.
pub mod Caches
pub mod Callers
pub mod Replies
pub mod Handler
