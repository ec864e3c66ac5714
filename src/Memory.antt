-- ===== src/Memory.antt =====
-- runtime/src/procmem.rs: the reads and writes of this process's own memory. `process_vm_readv` moves
-- all the bytes or is taken to fail, so that memory is a function from an address to its byte, or to
-- `none` where a read would fail; that a write of mapped memory may be refused is the caller's
-- argument of the functions that write.
pub mod ProcessId
use linuwux_runtime.Base.{
  ℕ, zero, suc, ◌+◌, ◌*◌, Bool, false, ◌||◌, ◌>>=◌, Option, none, some, List, [], ◌∷◌, ◌==◌, ltb,
  u64_max, if◌then◌else◌, bytes_eq, length,
}

abbrev pub Memory : Type 0
Memory = ℕ → Option ℕ

-- `bytes[..n]` from an address on.
unfoldable pub bytes_at : Memory → ℕ → ℕ → Option (List ℕ)
bytes_at m address zero = some []
bytes_at m address (suc n) = do
  byte ← m address
  rest ← bytes_at m (address + 1) n
  some (byte ∷ rest)

unfoldable pub read_memory : Memory → ℕ → ℕ → Option (List ℕ)
read_memory m address n = if (address == 0) || (n == 0) then none else bytes_at m address n

-- `from_le_bytes`
unfoldable pub from_le_bytes : List ℕ → ℕ
from_le_bytes [] = 0
from_le_bytes (byte ∷ bytes) = byte + 256 * from_le_bytes bytes

abbrev pub read_word : ℕ → Memory → ℕ → Option ℕ
read_word n m address = do bytes ← read_memory m address n; some (from_le_bytes bytes)

unfoldable pub read_u16 : Memory → ℕ → Option ℕ
read_u16 m address = read_word 2 m address

unfoldable pub read_u32 : Memory → ℕ → Option ℕ
read_u32 m address = read_word 4 m address

unfoldable pub read_u64 : Memory → ℕ → Option ℕ
read_u64 m address = read_word 8 m address

-- Whether the memory at an address can be read and is some bytes.
abbrev pub is_some_eq : Option (List ℕ) → List ℕ → Bool
is_some_eq none expected = false
is_some_eq (some bytes) expected = bytes_eq bytes expected

unfoldable pub reads_as : Memory → ℕ → List ℕ → Bool
reads_as m address expected = is_some_eq (read_memory m address (length expected)) expected

-- `base.checked_add(amount)`
unfoldable pub checked_add : ℕ → ℕ → Option ℕ
checked_add base amount = if ltb u64_max (base + amount) then none else some (base + amount)

-- The memory with some bytes written.
unfoldable pub store_bytes : Memory → ℕ → List ℕ → Memory
store_bytes m address [] = m
store_bytes m address (byte ∷ bytes) =
    store_bytes (λ a. if a == address then some byte else m a) (address + 1) bytes
