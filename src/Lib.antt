-- ===== src/Lib.antt =====
-- The linuwux runtime: a preloaded library that lets a Windows game under Wine see the CPU, the
-- KUSER_SHARED_DATA page and the syscalls that its protection expects. This library models the
-- decisions of the program and proves what its parts promise each other.
--
-- The parts and their files:
-- * Reflex (protocol/reflex/state.rs and control.rs): the state that the control CPUID leaves write
--   and that the syscall router reads. Reflex.Control has the numbers of the leaves, Reflex.Enums the
--   states as they are stored in an atomic word, Reflex.State the statics, getters and the trait Host,
--   Reflex.Machine the registration loops, Reflex.HandleCpuid `handle_cpuid`, Reflex.Route
--   `route_syscall`. Reflex.Threads takes the two loops apart into single accesses of many threads.
-- * Kuser (protocol/kuser.rs and `kuser_apply_to_buffer` of runtime/src/kuser.rs): the recipes as lists
--   of writes (Kuser.Writes), their application to a page (Kuser.Buffer), and the word that serialises
--   the recipes (Kuser.Patch). Kuser.SharedPage puts them together as runtime/src/kuser.rs does for the
--   page that Wine shares, after the check of Kuser.SharedTime (runtime/src/shared_time.rs) that it is
--   Wine's, which the bridge of Hooks prepares again. `handle_cpuid` reaches it through the field `patch_kuser` of Host.
-- * PageGuard (runtime/src/page_guard.rs): the guard under which the page is patched, as the accesses of the
--   threads of a process and of those that it forks.
-- * Debug (protocol/debug.rs, runtime/src/debug.rs): the lines of the log. The other parts leave their calls
--   of it out.
-- * Cpuid (protocol/cpuid.rs): the CPU that the game is shown, the canned replies, and the atomic word
--   that holds it, which `handle_cpuid` changes through the field `select_legacy_presentation`.
-- * PendingFrees (runtime/src/hooks/pending_frees.rs): the ring of frees with its hash index, which
--   the allocation hooks ask; PendingFrees.Reference is the ring without the index.
-- * Hooks (runtime/src/hooks.rs): Signals is the interposed sigaction with the bridge and the forwarding of
--   signals, Signals.Readers the accesses to a slot of many threads; Bootstrap is the pool in front of the
--   real malloc, Guard what malloc and free do around the real ones with the history of PendingFrees, and
--   SetUp the constructor and the fork.
-- * PeStub (runtime/src/syscall/pe_stub_layout.rs): the rewriting of syscall thunks in a read of a PE
--   file, and the record of the private copies of an image. PeStub.Views has the interposed `read`,
--   `pread` and `mmap`.
-- * Text (protocol/gamescope.rs, runtime/src/maps.rs): the recognition of Gamescope, and the reader of
--   /proc/self/maps with its parser.
-- * Session (runtime/src/gamescope.rs): the walk from a process up to Gamescope, with the recognition of
--   Text, and the interposed setenv and unsetenv. Session.Proc says what /proc shows of a tree of
--   processes, and Session.Parents that the walk reads it.
-- * FakeTime (protocol/faketime.rs): the clock offset that the leaf SET_TIME asks for. SharedClock
--   (runtime/src/faketime.rs, clock.rs) is the offset of a process, which others get over a socket pair.
-- * Registry (runtime/src/registry.rs): the scan of the registry file, and in Registry/Append
--   `init_registry`, with the answers of the C library in `RegistryCalls`, the reads of the file included.
-- * Environment (runtime/src/environment.rs, protocol/environment.rs): whether a process is the game's, and
--   the DLL overrides that are forced in it.
-- * Memory (runtime/src/procmem.rs): the process's own memory, which the parts below read.
-- * PeExport (runtime/src/syscall/pe_export.rs): the base of a loaded module, and the service number in
--   an export; PeExport.Search is about the binary search.
-- * Syscall (runtime/src/syscall): Registers is the part of a signal's context that is used. Dispatch
--   (kuser_dispatch.rs, mem.rs) is called by its Bridge, an interpreter of the naked code, from the slot
--   that Install fills; it chooses between Wine's dispatcher and a raw syscall, which it marks in
--   Markers (reflex_markers.rs); Router (sigsys_router.rs) takes the trap of that syscall to Reflex and
--   its second trap to Wine, and asks WindowList (win32u_zero_list.rs) on the way; UnixlibRepair
--   (unixlib_repair.rs) is the repair that both make; Int2e (int2e.rs) resumes an `int 2e`.
-- * CpuidTrap (runtime/src/cpuid.rs, and the Host of runtime/src/reflex.rs): the SIGSEGV handler. It tries
--   Int2e first, then the replies of Cpuid, then `handle_cpuid` of Reflex, then the processor.
--
-- Conventions. Machine words are native natural numbers, with the wrap-around written out where the
-- code relies on it. An array is a function from indices, and a page of memory is one from offsets.
-- What the code calls through a trait or a closure is an argument. A weak compare-exchange takes its
-- spurious failures from a list, and behind the end of the list it fails only for another value.
--
-- Fuel. The loops of the registration return with two rounds more than there are spurious failures,
-- since each further round needs a failure or follows the one wait; the loop of `patch` needs a round
-- for each failure and for each of its 4096 waits; `find` needs one more round than the ring has
-- entries, since a chain has each entry at most once; the search for thunks needs as many rounds as
-- the buffer has bytes. For the registration, `patch` and `find` the theorems that they return are in
-- the list below; the search for thunks and for a desktop name is a structural recursion on fuel that
-- has left its loop, since nothing of the buffer is left, when there is no fuel. The binary search of the
-- exports has one round more than names, and a round leaves fewer of them; the theorem about it has it
-- end in the answer of a scan. The probes, the walks of the loader's list and of the import table and
-- the searches for an image count the rounds that the code counts itself.
--
-- Not modelled: the other interposed libc entry points, which only call libc; the spin locks and
-- seqlocks, so that a call on a shared table runs to its end before the next one, except for the loops of
-- Reflex.Threads and of the words of Kuser.Patch and Cpuid.Active, for the guard of PageGuard and for the snapshots of Hooks.Signals.Readers; the traces of
-- the debug feature; the table of titles in protocol/quirks.rs, which no code reads; and the build tool.
-- What the kernel answers (mmap, mprotect, arch_prctl, process_vm_readv, /proc/self/maps) is an argument
-- of the models that use it. Memory ordering is not modelled either: the accesses of threads are
-- interleaved.
pub mod Base
pub mod Kuser
pub mod Reflex
pub mod Cpuid
pub mod PendingFrees
pub mod PeStub
pub mod Text
pub mod FakeTime
pub mod Registry
pub mod Memory
pub mod PeExport
pub mod Environment
pub mod Syscall
pub mod CpuidTrap
pub mod Hooks
pub mod Session
pub mod SharedClock
pub mod PageGuard
pub mod Debug
pub mod Tests
