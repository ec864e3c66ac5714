-- ===== src/SharedClock.antt =====
-- runtime/src/faketime.rs and clock.rs: the offset of the clock that processes share over a socket pair, and
-- the interposed gettimeofday. The socket pair is a type `S`; what the kernel and the C library answer are
-- arguments. The once-only log messages are left out.
pub mod Published
use linuwux_runtime.Base.{
  ℕ, ◌+◌, ◌-◌, ◌*◌, ◌/◌, ◌%◌, Bool, true, false, not, ◌&&◌, ◌||◌, Option, none, some, List, [], ◌∷◌,
  ◌++◌, ◌==◌, ltb, if◌then◌else◌, u64_mod, u64_max,
}
use linuwux_runtime.FakeTime.{wrapping_sub, offset_from_filetime, apply_offset}

-- `coarse_milliseconds`, of the seconds and nanoseconds that clock_gettime gives.
unfoldable pub coarse_milliseconds : Option (ℕ × ℕ) → ℕ
coarse_milliseconds none = 0
coarse_milliseconds (some (sec, nsec)) = (sec * 1000 % u64_mod + nsec / 1000000) % u64_mod

abbrev pub offset_recv_fd : ℕ
offset_recv_fd = 67

abbrev pub offset_send_fd : ℕ
offset_send_fd = 69

-- The statics of a process.
pub record Clock : Type 0 where
  pub initialized : Bool
  pub ready : Bool
  pub offset : ℕ
  pub last_peek_ms : ℕ

abbrev pub new_clock : Clock
new_clock = record { initialized = false; ready = false; offset = 0; last_peek_ms = u64_max }

-- What `init_socketpair` is told: whether the two descriptors are sockets and whether they are open, the
-- pair that socketpair makes, and whether the two calls of dup2 succeed.
pub record PairCalls : Type 0 where
  pub recv_is_socket : Bool
  pub send_is_socket : Bool
  pub recv_is_open : Bool
  pub send_is_open : Bool
  pub pair : Option (ℕ × ℕ)
  pub dups_recv : Bool
  pub dups_send : Bool

abbrev pub close_if_other : ℕ → List ℕ
close_if_other fd = if not (fd == offset_recv_fd) && not (fd == offset_send_fd) then fd ∷ [] else []

-- The new pair at its descriptors: whether it is ready, and what is closed.
unfoldable pub place_pair : PairCalls → ℕ → ℕ → Bool × List ℕ
place_pair c recv_fd send_fd =
    if not c.dups_recv || not c.dups_send
    then (false, recv_fd ∷ send_fd ∷ [])
    else (true, close_if_other recv_fd ++ close_if_other send_fd)

unfoldable pub make_pair : PairCalls → Bool × List ℕ
make_pair c =
    if c.recv_is_socket && c.send_is_socket
    then (true, [])
    else if (not c.recv_is_socket && c.recv_is_open) || (not c.send_is_socket && c.send_is_open)
    then (false, [])
    else elim c.pair [ none ↦ (false, []) | some (recv_fd, send_fd) ↦ place_pair c recv_fd send_fd ]

unfoldable pub init_socketpair : PairCalls → Clock → Clock × List ℕ
init_socketpair c p =
    if p.initialized
    then (p, [])
    else (let (made, closed) = make_pair c in
        (record p { initialized = true; ready = if made then true else p.ready }, closed))

abbrev pub peek_interval_ms : ℕ
peek_interval_ms = 10

unfoldable pub peek_due : ℕ → Clock → Bool × Clock
peek_due now p =
    if not (p.last_peek_ms == u64_max) && ltb (wrapping_sub now p.last_peek_ms) peek_interval_ms
    then (false, p)
    else (true, record p { last_peek_ms = now })

-- The socket pair: the first datagram, which is read and left, and the sending of one.
pub record Socket (S : Type 0) : Type 0 where
  pub peek : S → Option ℕ
  pub send : ℕ → S → Bool × S

-- What set_offset depends on: whether the page guard is acquired, and the real clock.
pub record SetCalls : Type 0 where
  pub guards : Bool
  pub real_seconds : Option ℕ

module _ {S : Type 0} (socket : Socket S) where
  -- Behind the look at the socket.
  unfoldable pub received : S → Clock → ℕ × Clock
  received channel p = elim (socket.peek channel) [
    | none ↦ (p.offset, p)
    | some offset ↦ (offset, record p { offset = offset })
  ]

  -- Behind `peek_due`.
  unfoldable pub looked : S → Bool × Clock → ℕ × Clock
  looked channel (due, p) = if due then received channel p else (p.offset, p)

  unfoldable pub current_offset : ℕ → S → Clock → ℕ × Clock
  current_offset now channel p =
      if not (p.offset == 0)
      then (p.offset, p)
      else if not p.ready
      then (p.offset, p)
      else looked channel (peek_due now p)

  -- The seconds that the caller gets, if the real call succeeds and has a place for them.
  unfoldable pub gettimeofday : ℕ → S → Option ℕ → Clock → Option ℕ × Clock
  gettimeofday now channel none p = (none, p)
  gettimeofday now channel (some seconds) p =
      let (offset, p') = current_offset now channel p in (some (apply_offset seconds offset), p')

  -- The last step of `set_offset`, in a process that has the socket pair or not.
  unfoldable pub publish : Bool → ℕ → S → S
  publish false offset channel = channel
  publish true offset channel = (socket.send offset channel).1

  unfoldable pub set_offset : SetCalls → ℕ → S → Clock → Clock × S
  set_offset c filetime channel p = if not c.guards then (p, channel) else elim c.real_seconds [
    | none ↦ (p, channel)
    | some seconds ↦
        let offset = offset_from_filetime seconds filetime in
        (record p { offset = offset }, publish p.ready offset channel)
  ]
