-- ===== src/Session/Proc.antt =====
-- What /proc shows of a tree of processes: the link to the executable of each, and the line with its
-- parent in its status. The documented form of both is `Describes`.
use linuwux_runtime.Base.{
  ℕ, ◌+◌, ◌-◌, ◌*◌, ◌≤◌, ◌<◌, ◌≡◌, ◌↔◌, refl, sym, ap, ◌∙◌, Bool, true, false, not, ◌&&◌, Option,
  none, some, List, [], ◌∷◌, ◌++◌, ◌==◌, length, length-append, take, bytes_eq, bytes_eq_refl,
  bytes_eq_sound, leb, Bool-cases, inl, inr, arith,
}
use linuwux_runtime.Text.Bytes.{is_ascii_digit, take_while, split_first, split_others, last_of}
use linuwux_runtime.Text.Gamescope.{gamescope, is_gamescope_path, ppid, i32_max}
use linuwux_runtime.Session.{Processes, process_is_gamescope, is_zero, path_max}

-- The parent of each process, 0 where it has none or it cannot be read, and the directory and the name of
-- its executable, where they can be read.
pub record Tree : Type 0 where
  pub parent : ℕ → ℕ
  pub executable : ℕ → Option (List ℕ × List ℕ)

abbrev pub lacks : ℕ → List ℕ → Bool
lacks b [] = true
lacks b (c ∷ cs) = not (c == b) && lacks b cs

abbrev pub link_of : Option (List ℕ × List ℕ) → Option (List ℕ)
link_of none = none
link_of (some (directory, name)) = some (directory ++ 0x2f ∷ name)

-- The name has no slash, and the link is shorter than the array that is read into.
abbrev pub IsPath : Option (List ℕ × List ℕ) → Type 0
IsPath none = Unit {0}
IsPath (some (directory, name)) =
    (lacks 0 directory ≡ true)
    × (lacks 0 name ≡ true)
    × (lacks 0x2f name ≡ true)
    × (length (directory ++ 0x2f ∷ name) < path_max)

abbrev pub all_digits : List ℕ → Bool
all_digits [] = true
all_digits (b ∷ bs) = is_ascii_digit b && all_digits bs

abbrev pub decimal : List ℕ → ℕ → ℕ
decimal [] value = value
decimal (b ∷ bs) value = decimal bs (value * 10 + (b - 0x30))

-- "PPid:\t", the digits and a newline
abbrev pub parent_line : List ℕ → List ℕ
parent_line digits = ppid ++ 9 ∷ (digits ++ 10 ∷ [])

-- Lines that name no parent.
abbrev pub Others : List (List ℕ) → Type 0
Others [] = Unit {0}
Others (line ∷ lines) = (lacks 0 line ≡ true) × (bytes_eq (take 5 line) ppid ≡ false) × Others lines

abbrev pub Shows : ℕ → Option (List (List ℕ)) → Type 0
Shows parent none = parent ≡ 0
Shows parent (some lines) =
    (before after : List (List ℕ)) × (d : ℕ) × (ds : List ℕ) × (lines
      ≡ before ++ parent_line (d ∷ ds) ∷ after)
    × Others before
    × (all_digits (d ∷ ds) ≡ true)
    × (decimal (d ∷ ds) 0 ≡ parent)

-- Process 1 has no parent, and 0 is no process.
pub record Describes (ps : Processes) (t : Tree) : Type 0 where
  pub links : (pid : ℕ) → ps.exe pid ≡ link_of (t.executable pid)
  pub paths : (pid : ℕ) → IsPath (t.executable pid)
  pub statuses : (pid : ℕ) → Shows (t.parent pid) (ps.status pid)
  pub ids : (pid : ℕ) → t.parent pid ≤ i32_max
  pub first : t.parent 1 ≡ 0
  pub none_above : t.parent 0 ≡ 0

-- The process runs an executable with this name.
abbrev pub Gamescope : Tree → ℕ → Type 0
Gamescope t pid = (directory : List ℕ) × (t.executable pid ≡ some (directory, gamescope))

pub lacks-append :
    (b : ℕ) (xs ys : List ℕ) → lacks b xs ≡ true → lacks b ys ≡ true → lacks b (xs ++ ys) ≡ true
lacks-append b [] ys l r = r
lacks-append b (x ∷ xs) ys l r = ground (arith, lacks-append b xs ys)

pub split_first-lacks : (xs : List ℕ) → lacks 0 xs ≡ true → split_first is_zero xs ≡ xs
unfolding split_first take_while
split_first-lacks [] l = refl
split_first-lacks (x ∷ xs) l = ground (arith, split_first-lacks xs)

abbrev is_slash : ℕ → Bool
is_slash b = b == 0x2f

split_first-name : (xs : List ℕ) → lacks 0x2f xs ≡ true → split_first is_slash xs ≡ xs
unfolding split_first take_while
split_first-name [] l = refl
split_first-name (x ∷ xs) l = ground (arith, split_first-name xs)

split_others-name : (xs : List ℕ) → lacks 0x2f xs ≡ true → split_others is_slash xs ≡ []
unfolding split_others
split_others-name [] l = refl
split_others-name (x ∷ xs) l = ground (arith, split_others-name xs)

last_of-name :
    (directory name piece : List ℕ)
    → lacks 0x2f name ≡ true
    → last_of piece (split_others is_slash (directory ++ 0x2f ∷ name)) ≡ name
unfolding split_others
last_of-name [] name piece l = rw (split_others-name name l) (split_first-name name l)
last_of-name (b ∷ bs) name piece l = elim (Bool-cases (b == 0x2f)) [
  | inl slash ↦
      rw (split_others, slash) (last_of-name bs name (split_first is_slash (bs ++ 0x2f ∷ name)) l)
  | inr other ↦ rw (split_others, other) (last_of-name bs name piece l)
]

link_lem :
    (ps : Processes) (pid : ℕ) (directory name : List ℕ)
    → ps.exe pid ≡ some (directory ++ 0x2f ∷ name)
    → IsPath (some (directory, name))
    → process_is_gamescope ps pid ≡ bytes_eq name gamescope
unfolding process_is_gamescope is_gamescope_path
link_lem ps pid directory name e (clean, clean_name, plain, short) =
    let link = directory ++ 0x2f ∷ name in
    let joined = length-append directory (0x2f ∷ name) in
    let some_bytes : (length link == 0) ≡ false = ground (arith, joined) in
    let fits : leb path_max (length link) ≡ false = ground (arith, short) in
    let whole =
      split_first-lacks link
        (lacks-append 0 directory (0x2f ∷ name) clean (ground (arith, clean_name))) in
    let last = last_of-name directory name (split_first is_slash link) plain in
    rw (process_is_gamescope, e, some_bytes, fits, whole, is_gamescope_path, last) refl

link_iff :
    (ps : Processes) (pid : ℕ) (x : Option (List ℕ × List ℕ))
    → ps.exe pid ≡ link_of x
    → IsPath x
    → (process_is_gamescope ps pid ≡ true)
      ↔ ((directory : List ℕ) × (x ≡ some (directory, gamescope)))
unfolding process_is_gamescope
link_iff ps pid none e path = (λ found. absurd (ground (arith, e, found)), λ (d, same). cc)
link_iff ps pid (some (directory, name)) e path =
    let is = link_lem ps pid directory name e path in
    (
      λ found. (
        directory,
        ap (λ n. some (directory, n)) (bytes_eq_sound name gamescope (sym is ∙ found)),
      ),
      λ (d, same).
          let named : name ≡ gamescope = cc in
          is ∙ ap (λ n. bytes_eq n gamescope) named ∙ bytes_eq_refl gamescope,
    )

-- The link is recognised exactly if it is to an executable of this name.
pub process_is_gamescope_iff :
    (ps : Processes) (t : Tree) (pid : ℕ)
    → Describes ps t
    → (process_is_gamescope ps pid ≡ true) ↔ Gamescope t pid
process_is_gamescope_iff ps t pid shown =
    link_iff ps pid (t.executable pid) (shown.links pid) (shown.paths pid)
