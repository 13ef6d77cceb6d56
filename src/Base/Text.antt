-- ===== src/Base/Text.antt =====
-- Python's text operations that the program calls, over code points.
use Prim.Native.Char.{Char, code}
use Prim.Native.String
use Prim.Native.String.{String, [], ◌∷◌}
use Prim.Native.Nat.{ℕ, zero, suc, ◌+◌, ◌-◌, ◌/◌, ◌%◌}
use text.Mathlib.Text.{starts_with, ◌==◌}
use text.Mathlib.TextEquality.{eq_iff}
use mathlib.Core.Path.{◌≡◌, refl, ap}
use mathlib.Core.Bool.{Bool, true, false, not, ◌||◌, ◌&&◌}
use mathlib.Core.List.{List}
use lxd_management_api.Base.Tests.{ltb, leb, num_eq, if◌then◌else◌}

-- `bool(text)`.
abbrev pub nonempty : String → Bool
nonempty [] = false
nonempty (c ∷ s) = true

filled : (b : Bool) → (b ≡ true → true ≡ false) → true ≡ not b
filled true h = h refl
filled false h = refl

pub nonempty_eq : (s : String) → nonempty s ≡ not (s == "")
nonempty_eq [] = refl
nonempty_eq (c ∷ s) = filled ((c ∷ s) == []) (λ e. ap nonempty ((eq_iff (c ∷ s) []).0 e))

-- `text[:n]`.
unfoldable pub prefix : ℕ → String → String
prefix zero s = []
prefix (suc n) [] = []
prefix (suc n) (c ∷ s) = c ∷ prefix n s

-- `text.split(sep)[-1]`: what follows the last separator.
unfoldable pub last_part_from : ℕ → String → String → String
last_part_from sep cur [] = cur
last_part_from sep cur (c ∷ s) =
    last_part_from sep (if num_eq (code c) sep then [] else String.◌++◌ cur (c ∷ [])) s

unfoldable pub last_part : ℕ → String → String
unfolding last_part_from
last_part sep s = last_part_from sep [] s

-- `text.split(sep)`, for a separator of one character.
split_from : ℕ → String → String → List String
split_from sep cur [] = List.◌∷◌ cur List.[]
split_from sep cur (c ∷ s) =
    let closed = List.◌∷◌ cur (split_from sep [] s) in
    let longer = split_from sep (String.◌++◌ cur (c ∷ [])) s in
    if num_eq (code c) sep then closed else longer

unfoldable pub split : ℕ → String → List String
unfolding split_from
split sep s = split_from sep [] s

-- One character in front of a text that has been stripped on the right.
unfoldable pub cons_unless : (ℕ → Bool) → Char → String → String
cons_unless drops c [] = if drops (code c) then [] else c ∷ []
cons_unless drops c (d ∷ s) = c ∷ (d ∷ s)

-- `text.rstrip(chars)`.
unfoldable pub rstrip : (ℕ → Bool) → String → String
unfolding cons_unless
rstrip drops [] = []
rstrip drops (c ∷ s) = cons_unless drops c (rstrip drops s)

-- `text.lstrip(chars)`.
unfoldable pub lstrip : (ℕ → Bool) → String → String
lstrip drops [] = []
lstrip drops (c ∷ s) = let rest = lstrip drops s in if drops (code c) then rest else c ∷ s

-- The rest of `text.replace(old, new)`, with characters of `old` left to skip.
replace_from : String → String → ℕ → String → String
replace_from old new skip [] = []
replace_from old new (suc skip) (c ∷ s) = replace_from old new skip s
replace_from old new zero (c ∷ s) =
    let replaced = String.◌++◌ new (replace_from old new (String.count old - 1) s) in
    let kept = c ∷ replace_from old new 0 s in if starts_with (c ∷ s) old then replaced else kept

-- `text.replace(old, new)`, for an `old` that is not empty.
unfoldable pub replace : String → String → String → String
unfolding replace_from
replace old new s = replace_from old new 0 s

-- The white space that `strip()` removes, within ASCII.
abbrev pub is_space : ℕ → Bool
is_space c = num_eq c 32 || (leb 9 c && leb c 13) || (leb 28 c && leb c 31)

abbrev pub is_slash : ℕ → Bool
is_slash c = num_eq c b'/'

-- `text.strip()`.
unfoldable pub strip : String → String
unfolding rstrip lstrip
strip s = lstrip is_space (rstrip is_space s)

-- A decimal digit.
digit : ℕ → String
digit d =
    if num_eq d 0
    then "0"
    else if num_eq d 1
    then "1"
    else if num_eq d 2
    then "2"
    else if num_eq d 3
    then "3"
    else if num_eq d 4
    then "4"
    else if num_eq d 5
    then "5"
    else if num_eq d 6
    then "6"
    else if num_eq d 7
    then "7"
    else if num_eq d 8
    then "8"
    else "9"

-- `str(n)`; a number has at most as many digits as its value, or one.
show_from : ℕ → ℕ → String → String
show_from zero n acc = acc
show_from (suc fuel) n acc =
    let rest = show_from fuel (n / 10) (String.◌++◌ (digit (n % 10)) acc) in
    if ltb n 10 then String.◌++◌ (digit n) acc else rest

unfoldable pub show : ℕ → String
unfolding show_from digit
show n = show_from (n + 1) n []

-- Whether `c` occurs in the text.
unfoldable pub contains : ℕ → String → Bool
contains c [] = false
contains c (d ∷ s) = num_eq (code d) c || contains c s

-- Whether every character of a text passes.
unfoldable pub all_chars : (ℕ → Bool) → String → Bool
all_chars p [] = true
all_chars p (c ∷ s) = p (code c) && all_chars p s
