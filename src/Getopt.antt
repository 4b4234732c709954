-- ===== src/Getopt.antt =====
-- `getopt_long` of the GNU C library, as iperf/src/main.c calls it, where POSIXLY_CORRECT is not
-- set: operands are passed over, and what it delivers, one option after the other, is a list.
pub mod Given
use Prim.Native.Char.{Char, code}
use Prim.Native.String.{String}
use kernel_testkit.Base.{
  ℕ, ◌==◌, Bool, true, false, not, ◌&&◌, ◌||◌, if◌then◌else◌, Option, none, some, List, [], ◌∷◌,
  ◌++◌,
}

-- `struct option`, with `flag` NULL.
pub record Long : Type 0 where
  pub name : String
  pub has_arg : Bool
  pub val : ℕ

-- Options with their arguments, and perhaps one that still waits for the next word.
abbrev pub Found : Type 0
Found = List (ℕ × Option String) × Option ℕ

pub data Word : Type 0 where
  terminator operand : Word
  options : Found → Word

-- '?', for an option that is unknown, ambiguous or not as it should be.
abbrev pub invalid : ℕ
invalid = 63

abbrev pub refused : Found
refused = ((invalid, none) ∷ [], none)

abbrev pub colon_first : String → Bool
colon_first String.[] = false
colon_first (String.◌∷◌ c s) = code c == 58

-- Whether the option takes an argument; `none` where it is not in the string.
unfoldable pub find_short : String → ℕ → Option Bool
find_short String.[] c = none
find_short (String.◌∷◌ d s) c =
    let later = find_short s c in
    if (c == 58) || (c == 59) then none else (if code d == c then some (colon_first s) else later)

-- A letter, whether it takes an argument, what is behind it, and what that gives.
abbrev pub short_found : ℕ → Option Bool → String → Found → Found
short_found c none s rest = ((invalid, none) ∷ rest.0, rest.1)
short_found c (some false) s rest = ((c, none) ∷ rest.0, rest.1)
short_found c (some true) String.[] rest = ([], some c)
short_found c (some true) s rest = ((c, some s) ∷ [], none)

-- The letters behind one `-`.
unfoldable pub shorts : String → String → Found
shorts opts String.[] = ([], none)
shorts opts (String.◌∷◌ c s) =
    let rest = shorts opts s in short_found (code c) (find_short opts (code c)) s rest

unfoldable pub starts_with : (prefix s : String) → Bool
starts_with String.[] s = true
starts_with (String.◌∷◌ c p) String.[] = false
starts_with (String.◌∷◌ c p) (String.◌∷◌ d s) = (code c == code d) && starts_with p s

-- A word at its first `=`.
unfoldable pub split : String → String × Option String
split String.[] = (String.[], none)
split (String.◌∷◌ c s) =
    let rest = split s in
    if code c == 61 then (String.[], some s) else (String.◌∷◌ c rest.0, rest.1)

unfoldable pub exact : String → List Long → Option Long
exact s [] = none
exact s (l ∷ ls) =
    let later = exact s ls in if starts_with s l.name && starts_with l.name s then some l else later

unfoldable pub abbreviated : String → List Long → List Long
abbreviated s [] = []
abbreviated s (l ∷ ls) =
    let later = abbreviated s ls in if starts_with s l.name then l ∷ later else later

abbrev pub same_flag : Bool → Bool → Bool
same_flag true b = b
same_flag false b = not b

unfoldable pub all_like : Long → List Long → Bool
all_like l [] = true
all_like l (m ∷ ms) = (same_flag l.has_arg m.has_arg && (l.val == m.val)) && all_like l ms

abbrev pub only : List Long → Option Long
only [] = none
only (l ∷ ls) = if all_like l ls then some l else none

-- The option of that name, or the one that the name abbreviates.
unfoldable pub find_long : String → List Long → Option Long
find_long s ls = elim (exact s ls) [ some l ↦ some l | none ↦ only (abbreviated s ls) ]

abbrev pub long_arg : Long → Option String → Found
long_arg l (some v) = if l.has_arg then ((l.val, some v) ∷ [], none) else refused
long_arg l none = if l.has_arg then ([], some l.val) else ((l.val, none) ∷ [], none)

abbrev pub long_found : Option Long → Option String → Found
long_found none v = refused
long_found (some l) v = long_arg l v

-- What is behind `--`.
abbrev pub long_word : List Long → String → Word
long_word longs String.[] = terminator
long_word longs s = options (long_found (find_long ((split s).0) longs) ((split s).1))

unfoldable pub read_word : String → List Long → String → Word
read_word opts longs (String.◌∷◌ c (String.◌∷◌ d s)) =
    if not (code c == 45)
    then operand
    else (if not (code d == 45) then options (shorts opts (String.◌∷◌ d s)) else long_word longs s)
read_word opts longs s = operand

-- The words of the command line behind the program's name. An option may wait for its argument.
unfoldable pub getopt_loop : String → List Long → Option ℕ → List String → List (ℕ × Option String)
getopt_loop opts longs none [] = []
getopt_loop opts longs (some flag) [] = (invalid, none) ∷ []
getopt_loop opts longs (some flag) (w ∷ ws) = (flag, some w) ∷ getopt_loop opts longs none ws
getopt_loop opts longs none (w ∷ ws) = elim (read_word opts longs w) [
  | terminator ↦ []
  | operand ↦ getopt_loop opts longs none ws
  | options found ↦ found.0 ++ getopt_loop opts longs (found.1) ws
]

abbrev pub getopt_long : String → List Long → List String → List (ℕ × Option String)
getopt_long opts longs words = getopt_loop opts longs none words
