-- ===== src/Syscall.antt =====
-- runtime/src/syscall: what happens to a trapped syscall or `int 2e`, and what it reads of PE images.
pub mod Registers
pub mod Markers
pub mod WindowList
pub mod Router
pub mod Int2e
pub mod Dispatch
pub mod UnixlibRepair
