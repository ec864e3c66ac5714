-- ===== src/SharedClock/Published.antt =====
-- What SET_TIME sets in one process is the time that another shows.
use linuwux_runtime.Base.{
  ℕ, ◌+◌, ◌-◌, ◌/◌, ◌≤◌, ◌<◌, ◌≡◌, refl, ap, ◌∙◌, Bool, true, false, some, u64_mod, arith,
}
use linuwux_runtime.FakeTime.{
  ticks_per_second, seconds_1601_to_1970, offset_from_filetime, apply_offset,
  apply_offset-offset_from_filetime,
}
use linuwux_runtime.SharedClock.{
  Clock, Socket, SetCalls, peek_due, received, looked, current_offset, gettimeofday, publish,
  set_offset,
}

-- A look finds what was sent into a pair that nothing waits in.
pub record Delivers {S : Type 0} (socket : Socket S) (empty : S) : Type 0 where
  pub waits : (offset : ℕ) → socket.peek (socket.send offset empty).1 ≡ some offset

module _ {S : Type 0} (socket : Socket S) (empty : S) (delivers : Delivers socket empty) where
  looked_due :
      (offset : ℕ) (r : Bool × Clock)
      → r.0 ≡ true
      → (looked socket (socket.send offset empty).1 r).0 ≡ offset
  unfolding looked received
  looked_due offset (true, p) is_due = rw (received, delivers.waits offset) refl
  looked_due offset (false, p) is_due = absurd (ground (arith, is_due))

  peek_due-offset : (now : ℕ) (p : Clock) → (peek_due now p).1.offset ≡ p.offset
  unfolding peek_due
  peek_due-offset now p = ground arith

  -- A look that finds what was sent, or is not made, in a process with that offset.
  looked_own :
      (offset : ℕ) (r : Bool × Clock)
      → r.1.offset ≡ offset
      → (looked socket (socket.send offset empty).1 r).0 ≡ offset
  unfolding looked
  looked_own offset (true, p) own = looked_due offset (true, p) refl
  looked_own offset (false, p) own = own

  -- A process without an offset of its own.
  current_offset_unset :
      (now : ℕ) (channel : S) (p : Clock)
      → p.ready ≡ true
      → p.offset ≡ 0
      → current_offset socket now channel p ≡ looked socket channel (peek_due now p)
  unfolding current_offset
  current_offset_unset now channel p ready unset = ground arith

  current_offset_own :
      (now : ℕ) (p : Clock)
      → p.ready ≡ true
      → (current_offset socket now (socket.send p.offset empty).1 p).0 ≡ p.offset
  unfolding current_offset
  current_offset_own now p ready =
      let look = looked_own p.offset (peek_due now p) (peek_due-offset now p) in
      ground (arith, look)

  shown_lem :
      (offset now seconds : ℕ) (reader : Clock)
      → reader.ready ≡ true
      → reader.offset ≡ 0
      → (peek_due now reader).0 ≡ true
      → (gettimeofday socket now (socket.send offset empty).1 (some seconds) reader).0
        ≡ some (apply_offset seconds offset)
  unfolding gettimeofday
  shown_lem offset now seconds reader ready unset due =
      ap (λ (o : ℕ). some (apply_offset seconds o))
        (ap (λ (r : ℕ × Clock). r.0)
            (current_offset_unset now (socket.send offset empty).1 reader ready unset)
          ∙ looked_due offset (peek_due now reader) due)

  kept_lem :
      (now seconds : ℕ) (writer : Clock)
      → writer.ready ≡ true
      → (gettimeofday socket now (socket.send writer.offset empty).1 (some seconds) writer).0
        ≡ some (apply_offset seconds writer.offset)
  unfolding gettimeofday
  kept_lem now seconds writer ready =
      ap (λ (o : ℕ). some (apply_offset seconds o)) (current_offset_own now writer ready)

  set_offset_lem :
      (now filetime : ℕ) (writer : Clock)
      → writer.ready ≡ true
      → set_offset socket (record { guards = true; real_seconds = some now }) filetime empty writer
        ≡ (
          record writer { offset = offset_from_filetime now filetime },
          (socket.send (offset_from_filetime now filetime) empty).1,
        )
  unfolding set_offset publish
  set_offset_lem now filetime writer ready =
      ap
        (λ (b : Bool). (
          record writer { offset = offset_from_filetime now filetime },
          publish socket b (offset_from_filetime now filetime) empty,
        ))
        ready

  -- If the guard is free and the clock can be read, the socket pair serves both processes and nothing waits
  -- in it, and the other process has no offset and is due for a look: then after SET_TIME the process that
  -- made the call and the other one show the requested time, and the seconds passed since, under the
  -- conditions on the request under which the arithmetic of the offset does not overflow.
  pub set_offset-gettimeofday :
      (now filetime passed ms : ℕ) (writer reader : Clock)
      → now + passed < u64_mod
      → seconds_1601_to_1970 ≤ filetime / ticks_per_second
      → filetime / ticks_per_second - seconds_1601_to_1970 + passed < u64_mod
      → writer.ready ≡ true
      → reader.ready ≡ true
      → reader.offset ≡ 0
      → (peek_due ms reader).0 ≡ true
      → let c : SetCalls = record { guards = true; real_seconds = some now } in
        let (writer', channel) = set_offset socket c filetime empty writer in
        let shown : ℕ = filetime / ticks_per_second - seconds_1601_to_1970 + passed in
        ((gettimeofday socket ms channel (some (now + passed)) reader).0 ≡ some shown)
        × ((gettimeofday socket ms channel (some (now + passed)) writer').0 ≡ some shown)
  set_offset-gettimeofday now filetime passed ms writer reader fits after_1970 small ready
        reader_ready unset due =
      let offset = offset_from_filetime now filetime in
      let time =
        ap (λ (s : ℕ). some s)
          (apply_offset-offset_from_filetime now filetime passed fits after_1970 small) in
      rw (set_offset_lem now filetime writer ready) (
        shown_lem offset ms (now + passed) reader reader_ready unset due ∙ time,
        kept_lem ms (now + passed) (record writer { offset = offset }) ready ∙ time,
      )
