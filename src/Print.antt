-- ===== src/Print.antt =====
-- `printf` as the program uses it: the arguments that a format takes, and the text that a format
-- of plain `%s`, `%d` and `%%` gives.
pub mod Types
use kernel_testkit.Base.{
  ℕ, ◌==◌, leb, Bool, true, false, ◌&&◌, ◌||◌, if◌then◌else◌, Option, none, some, List, [], ◌∷◌,
  ◌++◌,
}
use kernel_testkit.Base.Int.{ℤ}
use kernel_testkit.Base.Text.{decimal}

-- The type of an argument: `char *`, `int`, `unsigned`, a longer integer, or `double`.
pub data Kind : Type 0 where
  text_kind int_kind unsigned_kind char_kind long_kind double_kind : Kind

-- An argument; `unset` is a variable that was never written to.
pub data Arg : Type 0 where
  text : List ℕ → Arg
  number : ℤ → Arg
  unset : Arg

-- Flags, digits and the point: - + blank # 0…9 .
abbrev pub is_modifier : ℕ → Bool
is_modifier c =
    ((c == 45) || (c == 43)) || (((c == 32) || (c == 35)) || ((c == 46) || (leb 48 c && leb c 57)))

-- `l`
abbrev pub is_long : ℕ → Bool
is_long c = c == 108

-- Where a scan of a format stands: in plain text, or behind a `%`, with or without an `l`.
pub data Mode : Type 0 where
  plain : Mode
  spec : (long : Bool) → Mode

-- What a conversion takes, by its letter.
abbrev pub kind_of : Bool → ℕ → Option Kind
kind_of long c =
    if c == 115
    then some text_kind
    else (if c == 99
        then some char_kind
        else (if (c == 100) || (c == 117)
            then some (if long then long_kind else (if c == 100 then int_kind else unsigned_kind))
            else (if (c == 102) || (c == 103) then some double_kind else none)))

abbrev pub cons_kind : Option Kind → Option (List Kind) → Option (List Kind)
cons_kind none ks = none
cons_kind (some k) none = none
cons_kind (some k) (some ks) = some (k ∷ ks)

-- The arguments that a format takes; `none` where it is no format.
unfoldable pub kinds : Mode → List ℕ → Option (List Kind)
kinds plain [] = some []
kinds (spec long) [] = none
kinds plain (c ∷ f) =
    let in_spec = kinds (spec false) f in
    let in_text = kinds plain f in if c == 37 then in_spec else in_text
kinds (spec long) (c ∷ f) =
    let again = kinds (spec long) f in
    let longer = kinds (spec true) f in
    let rest = kinds plain f in
    if is_modifier c
    then again
    else (if is_long c then longer else (if c == 37 then rest else cons_kind (kind_of long c) rest))

abbrev pub before : List ℕ → Option (List ℕ) → Option (List ℕ)
before b none = none
before b (some t) = some (b ++ t)

-- One plain conversion: its text, and the arguments that are left.
abbrev pub convert : ℕ → List Arg → Option (List ℕ × List Arg)
convert c [] = none
convert c (text t ∷ args) = if c == 115 then some (t, args) else none
convert c (number n ∷ args) = if c == 100 then some (decimal n, args) else none
convert c (unset ∷ args) = none

abbrev pub after : Option (List ℕ × List Arg) → (List Arg → Option (List ℕ)) → Option (List ℕ)
after none next = none
after (some (t, args)) next = before t (next args)

-- The text; `none` where it is not determined, or a conversion is not plain. The flag is set
-- behind a `%`.
unfoldable pub format : Bool → List ℕ → List Arg → Option (List ℕ)
format false [] args = some []
format true [] args = none
format false (c ∷ f) args =
    let in_spec = format true f args in
    let in_text = format false f args in if c == 37 then in_spec else before (c ∷ []) in_text
format true (c ∷ f) args =
    let rest = format false f args in
    if c == 37 then before (37 ∷ []) rest else after (convert c args) (format false f)
