-- ===== src/Base/Text.antt =====
-- Texts as bytes.
use Prim.Native.Char.{code}
use Prim.Native.String.{String}
use mathlib.Core.Bool.{Bool, ◌&&◌, ◌||◌}
use mathlib.Core.List.{List, [], ◌∷◌, ◌++◌}
use Prim.Native.Nat.{ℕ, zero, suc, ◌+◌, ◌-◌, ◌*◌, ◌/◌, ◌%◌, ◌^◌, min}
use kernel_testkit.Base.Tests.{ltb, leb, ◌==◌, if◌then◌else◌}
use kernel_testkit.Base.Int.{ℤ, pos, negsuc, to_int}

-- The bytes of a character in UTF-8.
unfoldable pub utf8_char : ℕ → List ℕ
utf8_char c =
    if ltb c 128
    then c ∷ []
    else (if ltb c 2048
        then (192 + c / 64) ∷ (128 + c % 64) ∷ []
        else (if ltb c 65536
            then (224 + c / 4096) ∷ (128 + c / 64 % 64) ∷ (128 + c % 64) ∷ []
            else (240 + c / 262144)
              ∷ (128 + c / 4096 % 64)
              ∷ (128 + c / 64 % 64)
              ∷ (128 + c % 64)
              ∷ []))

unfoldable pub utf8 : String → List ℕ
unfolding utf8_char
utf8 String.[] = []
utf8 (String.◌∷◌ c s) = utf8_char (code c) ++ utf8 s

-- The decimal digits of `n`, in ASCII, in front of `acc`.
unfoldable pub digits_from : ℕ → ℕ → List ℕ → List ℕ
digits_from zero n acc = acc
digits_from (suc k) n acc =
    let more = digits_from k (n / 10) ((48 + n % 10) ∷ acc) in
    if ltb n 10 then (48 + n) ∷ acc else more

-- What `%d` prints; eleven rounds are enough for an `int`.
unfoldable pub decimal : ℤ → List ℕ
unfolding digits_from
decimal (pos n) = digits_from 11 n []
decimal (negsuc n) = 45 ∷ digits_from 11 (suc n) []

-- `isspace`
abbrev is_space : ℕ → Bool
is_space c = (c == 32) || (leb 9 c && leb c 13)

digits : String → ℕ → ℕ
digits String.[] acc = acc
digits (String.◌∷◌ c s) acc =
    let more = digits s (acc * 10 + (code c - 48)) in
    if leb 48 (code c) && leb (code c) 57 then more else acc

-- `strtol` to 64 bits, of the digits behind a sign, and `atoi`, which converts that to `int`.
unfoldable pub atoi : String → ℤ
unfolding digits
atoi String.[] = pos 0
atoi (String.◌∷◌ c s) =
    let skip = atoi s in
    if is_space (code c)
    then skip
    else (if code c == 45
        then to_int (negative (min (digits s 0) (2 ^ 63)))
        else (if code c == 43
            then to_int (pos (min (digits s 0) (2 ^ 63 - 1)))
            else to_int (pos (min (digits (String.◌∷◌ c s) 0) (2 ^ 63 - 1)))))
  where
    negative : ℕ → ℤ
    negative n = if n == 0 then pos 0 else negsuc (n - 1)

-- `*s` as a byte of the text in UTF-8.
unfoldable pub first_byte : String → ℕ
first_byte String.[] = 0
first_byte (String.◌∷◌ c s) =
    if ltb (code c) 128
    then code c
    else (if ltb (code c) 2048
        then 192 + code c / 64
        else (if ltb (code c) 65536 then 224 + code c / 4096 else 240 + code c / 262144))
