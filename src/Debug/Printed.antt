-- ===== src/Debug/Printed.antt =====
-- What the lines of the log show.
use linuwux_runtime.Base.{
  ℕ, zero, suc, ◌+◌, ◌-◌, ◌*◌, ◌/◌, ◌%◌, ◌^◌, ◌≤◌, ◌<◌, ◌≡◌, ◌⊎◌, ◌||◌, refl, sym, ap, ◌∙◌, Bool,
  true, false, not, Option, none, some, List, [], ◌∷◌, ◌++◌, ◌==◌, ltb, length, take, length-append,
  length-take, append_assoc, if◌then◌else◌, Bool-cases, inl, inr, arith,
}
use linuwux_runtime.Debug.{
  Line, remaining, smaller, push, append, base, digit, digits, number, with_thread, ends_line, new,
  finish, append_text, append_string, Log, new_line, emit, debug_log, debug_log_hex, debug_log_dec,
  pid_label, tid_label,
}

-- A number as a reader of the log reads it.
abbrev pub digit_value : ℕ → ℕ
digit_value c = if ltb c 0x3a then c - 0x30 else c - 0x61 + 10

abbrev pub read_from : Bool → List ℕ → ℕ → ℕ
read_from hex [] value = value
read_from hex (c ∷ cs) value = read_from hex cs (value * base hex + digit_value c)

abbrev pub read_number : Bool → List ℕ → ℕ
read_number hex cs = read_from hex cs 0

-- The numbers of so many digits are below this.
abbrev limit : Bool → ℕ → ℕ
limit hex zero = 1
limit hex (suc places) = base hex * limit hex places

-- The step of the reader that takes the last digit of a number.
last_digit :
    (hex : Bool) (value : ℕ)
    → value / base hex * base hex + digit_value (digit (value % base hex)) ≡ value
last_digit true value = ground arith
last_digit false value = ground arith

limit-quotient :
    (hex : Bool) (places value : ℕ)
    → value < limit hex (suc places)
    → value / base hex < limit hex places
limit-quotient true places value lt = omega arith
limit-quotient false places value lt = omega arith

read_from-digits :
    (places : ℕ) (hex : Bool) (value : ℕ) (written : List ℕ)
    → value < limit hex places
    → read_from hex (digits places hex value written) 0 ≡ read_from hex written value
unfolding digits
read_from-digits zero hex value written lt = ap (read_from hex written) (omega arith)
read_from-digits (suc places) hex value written lt =
    let whole = last_digit hex value in
    elim (Bool-cases (value / base hex == 0)) [
      | inl one ↦
          let none_left : value / base hex ≡ 0 = ground (arith, one) in
          rw (one) (
            ap (read_from hex written) (
              ap (λ q. q * base hex + digit_value (digit (value % base hex))) (sym none_left)
              ∙ whole))
      | inr more ↦ rw (more) (
          read_from-digits places hex (value / base hex) (digit (value % base hex) ∷ written)
            (limit-quotient hex places value lt)
          ∙ ap (read_from hex written) whole)
    ]

length-digits :
    (places : ℕ) (hex : Bool) (value : ℕ) (written : List ℕ)
    → length (digits places hex value written) ≤ places + length written
unfolding digits
length-digits zero hex value written = omega arith
length-digits (suc places) hex value written =
    ground (arith, length-digits places hex (value / base hex) (digit (value % base hex) ∷ written))

take_whole : (bs : List ℕ) → take (length bs) bs ≡ bs
take_whole [] = refl
take_whole (b ∷ bs) = ap (λ r. b ∷ r) (take_whole bs)

append-fits :
    (text line : List ℕ) → length line + length text ≤ 511 → append text line ≡ line ++ text
unfolding append remaining
append-fits text line le =
    let whole = take_whole text in ap (λ t. line ++ t) (ground (arith, whole))

append_bound : (text line : List ℕ) → length (append text line) ≤ length line + length text
unfolding append remaining
append_bound text line =
    let joined = length-append line (take (smaller (length text) (remaining line)) text) in
    let taken = length-take (smaller (length text) (remaining line)) text in
    ground (arith, joined, taken)

number_bound :
    (value : ℕ) (hex : Bool) (line : Line) → length (number value hex line) ≤ length line + 20
unfolding number
number_bound value hex line =
    omega (arith, append_bound (digits 20 hex value []) line, length-digits 20 hex value [])

with_thread_bound :
    (thread_id : Option ℕ) (line : Line) → length (with_thread thread_id line) ≤ length line + 31
with_thread_bound none line = omega arith
with_thread_bound (some tid) line =
    omega (arith, number_bound tid false (append tid_label line), append_bound tid_label line)

new_bound : (pid : ℕ) (thread_id : Option ℕ) → length (new pid thread_id) ≤ 66
unfolding new
new_bound pid thread_id =
    let labelled = append pid_label [] in
    let numbered = number pid false labelled in
    omega (
      arith,
      append_bound (0x20 ∷ []) (with_thread thread_id numbered),
      with_thread_bound thread_id numbered,
      number_bound pid false labelled,
      append_bound pid_label [],
    )

append_end : (xs : List ℕ) → xs ++ [] ≡ xs
append_end [] = refl
append_end (x ∷ xs) = ap (λ r. x ∷ r) (append_end xs)

push-fits : (b : ℕ) (line : Line) → length line < 511 → push b line ≡ line ++ b ∷ []
unfolding push remaining
push-fits b line lt = ground arith

append_text-fits :
    (text line : List ℕ) → length line + length text ≤ 511 → append_text text line ≡ line ++ text
unfolding append_text remaining
append_text-fits [] line le = sym (append_end line)
append_text-fits (b ∷ bs) line le =
    let room : (remaining line == 0) ≡ false = ground arith in
    let one = push-fits b line (omega arith) in
    let joined = length-append line (b ∷ []) in
    rw (room, one)
      (append_text-fits bs (line ++ b ∷ []) (omega (arith, joined)) ∙ append_assoc line (b ∷ []) bs)

u64_limit : (value : ℕ) (hex : Bool) → value < 2 ^ 64 → value < limit hex 20
u64_limit value true lt = omega arith
u64_limit value false lt = omega arith

finish_forced : (line : Line) → length line ≤ 511 → finish true line ≡ line ++ 0x0a ∷ []
unfolding finish
finish_forced line le = ground arith

new_line_bound : (log : Log) → length (new_line log) ≤ 66
unfolding new_line
new_line_bound log = new_bound log.pid (if ltb 0 log.tid then some log.tid else none)

number-fits :
    (value : ℕ) (hex : Bool) (line : Line)
    → length line ≤ 491
    → number value hex line ≡ line ++ digits 20 hex value []
unfolding number
number-fits value hex line le =
    append-fits (digits 20 hex value []) line (omega (arith, length-digits 20 hex value []))

emit_file :
    (log : Log) (line : Line)
    → log.on ≡ true
    → log.has_file ≡ true
    → (emit log (line ++ 0x0a ∷ [])).0 ≡ line ++ 0x0a ∷ []
unfolding emit
emit_file log line on file = let joined = length-append line (0x0a ∷ []) in ground (arith, joined)

logged_line :
    (log : Log) (prefix : List ℕ) (value : ℕ)
    → log.on ≡ true
    → (debug_log_hex log (some prefix) value).0
      ≡ (emit log (
          finish true
            (number value true (append (0x30 ∷ 0x78 ∷ []) (append_text prefix (new_line log)))))).0
unfolding debug_log_hex
logged_line log prefix value on = ground arith

-- What debug_log_hex writes to the log file when it is on, for a 64-bit value and a text of at most 423
-- bytes, begins with the head of the line, goes on with the text and "0x", and has behind them digits
-- that read as the value, and a newline; nothing of them is cut off.
pub debug_log_hex-read_number :
    (log : Log) (prefix : List ℕ) (value : ℕ)
    → log.on ≡ true
    → log.has_file ≡ true
    → length prefix ≤ 423
    → value < 2 ^ 64
    → (ds : List ℕ) × ((debug_log_hex log (some prefix) value).0
        ≡ (((new_line log ++ prefix) ++ 0x30 ∷ 0x78 ∷ []) ++ ds) ++ 0x0a ∷ [])
      × (read_number true ds ≡ value)
debug_log_hex-read_number log prefix value on file short fits =
    let start = new_line log in
    let ds = digits 20 true value [] in
    let labelled = (start ++ prefix) ++ 0x30 ∷ 0x78 ∷ [] in
    let bound = new_line_bound log in
    let joined = length-append start prefix in
    let joined_label = length-append (start ++ prefix) (0x30 ∷ 0x78 ∷ []) in
    let joined_digits = length-append labelled ds in
    let short_digits = length-digits 20 true value [] in
    (
      ds,
      logged_line log prefix value on
          ∙ ap (λ line. (emit log line).0)
              (rw
                (
                  append_text-fits prefix start (omega arith),
                  append-fits (0x30 ∷ 0x78 ∷ []) (start ++ prefix) (omega arith),
                  number-fits value true labelled (omega arith),
                  finish_forced (labelled ++ ds) (omega arith),
                )
                refl)
          ∙ emit_file log (labelled ++ ds) on file,
      read_from-digits 20 true value [] (u64_limit value true fits),
    )

-- Nothing, or at most a buffer's bytes with a newline at the end.
abbrev pub Ended : List ℕ → Type 0
Ended bytes = (bytes ≡ []) ⊎ ((length bytes ≤ 512) × (ends_line bytes ≡ true))

abbrev pub BothEnded : List ℕ × List ℕ → Type 0
BothEnded out = Ended out.0 × Ended out.1

ends_line-append : (line : Line) → ends_line (line ++ 0x0a ∷ []) ≡ true
ends_line-append [] = refl
ends_line-append (b ∷ []) = refl
ends_line-append (b ∷ c ∷ bs) = ends_line-append (c ∷ bs)

finish-Ended : (force : Bool) (line : Line) → length line ≤ 511 → Ended (finish force line)
unfolding finish
finish-Ended force line le =
    let joined = length-append line (0x0a ∷ []) in
    let last = ends_line-append line in inr (ground (arith, joined, last))

chosen : (there : Bool) (bytes : List ℕ) → Ended bytes → Ended (if there then bytes else [])
chosen true bytes ended = ended
chosen false bytes ended = inl refl

emit-BothEnded : (log : Log) (bytes : List ℕ) → Ended bytes → BothEnded (emit log bytes)
unfolding emit
emit-BothEnded log bytes ended = elim (Bool-cases (not log.on || (length bytes == 0))) [
  | inl silent ↦ rw (silent) (inl refl, inl refl)
  | inr written ↦ rw (written) (chosen log.has_file bytes ended, chosen log.has_stderr bytes ended)
]

append-kept : (text line : List ℕ) → length line ≤ 511 → length (append text line) ≤ 511
unfolding append remaining
append-kept text line le =
    let joined = length-append line (take (smaller (length text) (remaining line)) text) in
    let taken = length-take (smaller (length text) (remaining line)) text in
    ground (arith, joined, taken)

push-kept : (b : ℕ) (line : Line) → length line ≤ 511 → length (push b line) ≤ 511
unfolding push remaining
push-kept b line le = let joined = length-append line (b ∷ []) in ground (arith, joined)

append_text-kept : (text line : List ℕ) → length line ≤ 511 → length (append_text text line) ≤ 511
unfolding append_text
append_text-kept [] line le = le
append_text-kept (b ∷ bs) line le = elim (Bool-cases (remaining line == 0)) [
  | inl full ↦ rw (full) le
  | inr room ↦ let rest = append_text-kept bs (push b line) (push-kept b line le) in rw (room) rest
]

append_string-kept :
    (text : Option (List ℕ)) (line : Line)
    → length line ≤ 511
    → length (append_string text line) ≤ 511
append_string-kept none line le = le
append_string-kept (some text) line le = append_text-kept text line le

written_when_on :
    (log : Log) (force : Bool) (line : Line)
    → length line ≤ 511
    → BothEnded (if not log.on then ([], []) else emit log (finish force line))
written_when_on log force line le = elim (Bool-cases (not log.on)) [
  | inl off ↦ rw (off) (inl refl, inl refl)
  | inr on ↦ rw (on) (emit-BothEnded log (finish force line) (finish-Ended force line le))
]

debug_log-BothEnded : (log : Log) (text : Option (List ℕ)) → BothEnded (debug_log log text)
unfolding debug_log
debug_log-BothEnded log none = (inl refl, inl refl)
debug_log-BothEnded log (some message) =
    written_when_on log false (append_text message (new_line log))
      (append_text-kept message (new_line log) (omega (arith, new_line_bound log)))

-- Whatever the text and the value: what a call of the three functions writes to the log file and to
-- stderr is nothing, or at most 512 bytes that end in a newline.
lines_ended :
    (log : Log) (text : Option (List ℕ)) (value : ℕ)
    → BothEnded (debug_log log text)
      × BothEnded (debug_log_hex log text value)
      × BothEnded (debug_log_dec log text value)
unfolding debug_log_hex debug_log_dec number
lines_ended log text value =
    let start = append_string text (new_line log) in
    let room = append_string-kept text (new_line log) (omega (arith, new_line_bound log)) in
    let labelled = append (0x30 ∷ 0x78 ∷ []) start in
    let labelled_room = append-kept (0x30 ∷ 0x78 ∷ []) start room in
    (
      debug_log-BothEnded log text,
      written_when_on log true (number value true labelled)
          (append-kept (digits 20 true value []) labelled labelled_room),
      written_when_on log true (number value false start)
          (append-kept (digits 20 false value []) start room),
    )
