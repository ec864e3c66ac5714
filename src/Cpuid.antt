-- ===== src/Cpuid.antt =====
-- protocol/cpuid.rs: the CPU that the game is shown, its encoding in one word, and the canned replies.
pub mod Identity
pub mod Replies
pub mod Active
