-- ===== src/PeStub.antt =====
-- runtime/src/syscall/pe_stub_layout.rs: the rewriting of thunk tails in a read of a PE file, and the
-- record of the copies of an image.
pub mod Thunks
pub mod Copies
pub mod Views
