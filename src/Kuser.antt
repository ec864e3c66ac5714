-- ===== src/Kuser.antt =====
-- protocol/kuser.rs: the recipes of writes to the shared page, and the arbitration between them.
pub mod Recipe
pub mod Writes
pub mod Buffer
pub mod Patch
pub mod SharedPage
pub mod SharedTime
