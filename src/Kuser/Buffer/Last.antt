-- ===== src/Kuser/Buffer/Last.antt =====
-- What a list of writes leaves at an offset: the byte of its last write there.
use linuwux_runtime.Base.{
  ℕ, zero, suc, ◌+◌, ◌≤◌, ◌<◌, ◌≡◌, refl, Option, none, some, Bool, true, false, List, [], ◌∷◌,
  ◌++◌, arith, ◌==◌, ltb, ◌&&◌, if◌then◌else◌, ◌∙◌,
}
use linuwux_runtime.Kuser.Writes.{Write, zero_range}
use linuwux_runtime.Kuser.Buffer.{Page, set_byte, write_all}

unfoldable pub last_write : List Write → ℕ → Option ℕ
last_write [] o = none
last_write (w ∷ ws) o = elim (last_write ws o) [
  | some byte ↦ some byte
  | none ↦ if w.at == o then some w.byte else none
]

abbrev pub or_byte : Option ℕ → ℕ → ℕ
or_byte (some byte) b = byte
or_byte none b = b

last_write-cons :
    (w : Write) (ws : List Write) (page : Page) (o : ℕ)
    → or_byte (last_write ws o) (set_byte page w.at w.byte o)
      ≡ or_byte (last_write (w ∷ ws) o) (page o)
unfolding last_write
last_write-cons w ws page o = ground arith

pub write_all-last_write :
    (ws : List Write) (page : Page) (o : ℕ)
    → write_all ws page o ≡ or_byte (last_write ws o) (page o)
unfolding write_all last_write
write_all-last_write [] page o = refl
write_all-last_write (w ∷ ws) page o =
    write_all-last_write ws (set_byte page w.at w.byte) o ∙ last_write-cons w ws page o

pub write_all-write_all :
    (ws : List Write) (page : Page) (o : ℕ)
    → write_all ws (write_all ws page) o ≡ write_all ws page o
write_all-write_all ws page o =
    ground (arith, write_all-last_write ws (write_all ws page) o, write_all-last_write ws page o)

abbrev pub or_write : Option ℕ → Option ℕ → Option ℕ
or_write (some byte) earlier = some byte
or_write none earlier = earlier

pub last_write-append :
    (ws vs : List Write) (o : ℕ)
    → last_write (ws ++ vs) o ≡ or_write (last_write vs o) (last_write ws o)
unfolding last_write
last_write-append [] vs o = ground arith
last_write-append (w ∷ ws) vs o = ground (arith, last_write-append ws vs o)

pub last_write-zero_range :
    (start count o : ℕ)
    → last_write (zero_range start count) o
      ≡ (if ltb o start then none else if ltb o (start + count) then some 0 else none)
unfolding last_write zero_range
last_write-zero_range start zero o = ground arith
last_write-zero_range start (suc count) o =
    ground (arith, last_write-zero_range (start + 1) count o)

-- Every write lies below `bound`.
unfoldable pub fits : ℕ → List Write → Bool
fits bound [] = true
fits bound (w ∷ ws) = ltb w.at bound && fits bound ws

pub last_write-fits :
    (bound : ℕ) (ws : List Write) (o : ℕ)
    → fits bound ws ≡ true
    → bound ≤ o
    → last_write ws o ≡ none
unfolding fits last_write
last_write-fits bound [] o h le = refl
last_write-fits bound (w ∷ ws) o h le = ground (arith, last_write-fits bound ws o)

abbrev same_write : Option ℕ → Option ℕ → Bool
same_write none none = true
same_write none (some b) = false
same_write (some a) none = false
same_write (some a) (some b) = a == b

-- The writes leave what `f` says at the offsets below `n`.
unfoldable pub agree : ℕ → List Write → (ℕ → Option ℕ) → Bool
agree zero ws f = true
agree (suc n) ws f = same_write (last_write ws n) (f n) && agree n ws f

pub agree_lem :
    (n : ℕ) (ws : List Write) (f : ℕ → Option ℕ) (o : ℕ)
    → agree n ws f ≡ true
    → o < n
    → last_write ws o ≡ f o
unfolding agree
agree_lem zero ws f o h lt = absurd (omega arith)
agree_lem (suc n) ws f o h lt = ground (arith, agree_lem n ws f o)
