-- ===== src/Getopt/Given.antt =====
-- What `getopt_long` sees to: an option that its tables give an argument has one.
use Prim.Native.Char.{code}
use Prim.Native.String.{String}
use kernel_testkit.Base.{
  ℕ, ◌==◌, ◌≡◌, refl, Bool, true, false, not, ◌&&◌, ◌||◌, Option, none, some, List, [], ◌∷◌, ◌++◌,
  inl, inr, Bool-cases, arith,
}
use kernel_testkit.Getopt.{
  Long, Found, Word, terminator, operand, options, invalid, find_short, short_found, shorts, exact,
  abbreviated, all_like, only, find_long, long_arg, long_found, long_word, split, starts_with,
  read_word, getopt_loop, getopt_long,
}

module _ (needs_arg : ℕ → Bool) where
  abbrev pub IsGiven : List (ℕ × Option String) → Type 0
  IsGiven [] = Unit
  IsGiven ((flag, none) ∷ rest) = (needs_arg flag ≡ false) × IsGiven rest
  IsGiven ((flag, some _) ∷ rest) = IsGiven rest

  -- An option without an argument in the table is not one that needs one.
  abbrev pub IsShort : String → Type 0
  IsShort opts = (c : ℕ) → find_short opts c ≡ some false → needs_arg c ≡ false

  abbrev IsLong : Long → Type 0
  IsLong l = l.has_arg ≡ false → needs_arg l.val ≡ false

  abbrev pub AreLong : List Long → Type 0
  AreLong [] = Unit
  AreLong (l ∷ ls) = IsLong l × AreLong ls

  abbrev pub are_long : List Long → Bool
  are_long [] = true
  are_long (l ∷ ls) = (l.has_arg || not (needs_arg l.val)) && are_long ls

  pub are_long-AreLong : (ls : List Long) → are_long ls ≡ true → AreLong ls
  are_long-AreLong [] e = tt
  are_long-AreLong (l ∷ ls) e = ((λ h. ground arith), are_long-AreLong ls (ground arith))

  abbrev FoundLong : Option Long → Type 0
  FoundLong none = Unit
  FoundLong (some l) = IsLong l

  append-Given : (xs ys : List (ℕ × Option String)) → IsGiven xs → IsGiven ys → IsGiven (xs ++ ys)
  append-Given [] ys a b = b
  append-Given ((flag, none) ∷ xs) ys (n, a) b = (n, append-Given xs ys a b)
  append-Given ((flag, some v) ∷ xs) ys a b = append-Given xs ys a b

  exact-IsLong : (s : String) (ls : List Long) → AreLong ls → FoundLong (exact s ls)
  unfolding exact
  exact-IsLong s [] h = tt
  exact-IsLong s (l ∷ ls) (a, h) =
      elim (Bool-cases (starts_with s l.name && starts_with l.name s)) [
        | inl t ↦ rw t a
        | inr f ↦ rw f (exact-IsLong s ls h)
      ]

  abbreviated-AreLong : (s : String) (ls : List Long) → AreLong ls → AreLong (abbreviated s ls)
  unfolding abbreviated
  abbreviated-AreLong s [] h = tt
  abbreviated-AreLong s (l ∷ ls) (a, h) = elim (Bool-cases (starts_with s l.name)) [
    | inl t ↦ rw t (a, abbreviated-AreLong s ls h)
    | inr f ↦ rw f (abbreviated-AreLong s ls h)
  ]

  only-IsLong : (ls : List Long) → AreLong ls → FoundLong (only ls)
  only-IsLong [] h = tt
  only-IsLong (l ∷ ls) (a, h) = elim (Bool-cases (all_like l ls)) [
    | inl t ↦ rw t a
    | inr f ↦ rw f tt
  ]

  either-IsLong :
      (o p : Option Long)
      → FoundLong o
      → FoundLong p
      → FoundLong (elim o [ some l ↦ some l | none ↦ p ])
  either-IsLong none p a b = b
  either-IsLong (some l) p a b = a

  find_long-IsLong : (s : String) (ls : List Long) → AreLong ls → FoundLong (find_long s ls)
  unfolding find_long
  find_long-IsLong s ls h =
      either-IsLong (exact s ls) (only (abbreviated s ls)) (exact-IsLong s ls h)
        (only-IsLong (abbreviated s ls) (abbreviated-AreLong s ls h))

  module _ (bad : needs_arg invalid ≡ false) where
    short_found-Given :
        (c : ℕ) (o : Option Bool) (s : String) (rest : Found)
        → (o ≡ some false → needs_arg c ≡ false)
        → IsGiven (rest.0)
        → IsGiven ((short_found c o s rest).0)
    short_found-Given c none s rest h g = (bad, g)
    short_found-Given c (some false) s rest h g = (h refl, g)
    short_found-Given c (some true) String.[] rest h g = tt
    short_found-Given c (some true) (String.◌∷◌ d s) rest h g = tt

    shorts-Given : (opts s : String) → IsShort opts → IsGiven ((shorts opts s).0)
    unfolding shorts
    shorts-Given opts String.[] h = tt
    shorts-Given opts (String.◌∷◌ c s) h =
        short_found-Given (code c) (find_short opts (code c)) s (shorts opts s) (h (code c))
          (shorts-Given opts s h)

    long_arg-Given : (l : Long) (v : Option String) → IsLong l → IsGiven ((long_arg l v).0)
    long_arg-Given l (some v) h = elim (Bool-cases l.has_arg) [
      | inl t ↦ rw t tt
      | inr f ↦ rw f (bad, tt)
    ]
    long_arg-Given l none h = elim (Bool-cases l.has_arg) [
      | inl t ↦ rw t tt
      | inr f ↦ rw f (h f, tt)
    ]

    long_found-Given :
        (o : Option Long) (v : Option String) → FoundLong o → IsGiven ((long_found o v).0)
    long_found-Given none v h = (bad, tt)
    long_found-Given (some l) v h = long_arg-Given l v h

    abbrev WordGiven : Word → Type 0
    WordGiven terminator = Unit
    WordGiven operand = Unit
    WordGiven (options found) = IsGiven (found.0)

    long_word-Given : (ls : List Long) (s : String) → AreLong ls → WordGiven (long_word ls s)
    long_word-Given ls String.[] h = tt
    long_word-Given ls (String.◌∷◌ c s) h =
        let w = String.◌∷◌ c s in
        long_found-Given (find_long ((split w).0) ls) ((split w).1)
          (find_long-IsLong ((split w).0) ls h)

    module _ (opts : String) (ls : List Long) (short : IsShort opts) (long : AreLong ls) where
      read_word-Given : (w : String) → WordGiven (read_word opts ls w)
      unfolding read_word
      read_word-Given String.[] = tt
      read_word-Given (String.◌∷◌ c String.[]) = tt
      read_word-Given (String.◌∷◌ c (String.◌∷◌ d s)) = elim (Bool-cases (code c == 45)) [
        | inr f ↦ rw f tt
        | inl t ↦ elim (Bool-cases (code d == 45)) [
          | inr f ↦ rw (t, f) (shorts-Given opts (String.◌∷◌ d s) short)
          | inl u ↦ rw (t, u) (long_word-Given ls s long)
        ]
      ]

      word-Given :
          (w : Word) (ws : List String)
          → WordGiven w
          → ((o : Option ℕ) → IsGiven (getopt_loop opts ls o ws))
          → IsGiven (elim w [
            | terminator ↦ []
            | operand ↦ getopt_loop opts ls none ws
            | options found ↦ found.0 ++ getopt_loop opts ls (found.1) ws
          ])
      word-Given terminator ws h rest = tt
      word-Given operand ws h rest = rest none
      word-Given (options found) ws h rest =
          append-Given (found.0) (getopt_loop opts ls (found.1) ws) h (rest (found.1))

      loop-Given : (o : Option ℕ) (ws : List String) → IsGiven (getopt_loop opts ls o ws)
      unfolding getopt_loop
      loop-Given none [] = tt
      loop-Given (some flag) [] = (bad, tt)
      loop-Given (some flag) (w ∷ ws) = loop-Given none ws
      loop-Given none (w ∷ ws) =
          word-Given (read_word opts ls w) ws (read_word-Given w) λ o. loop-Given o ws

      -- Every option that needs an argument is delivered with one.
      pub getopt_long-Given : (ws : List String) → IsGiven (getopt_long opts ls ws)
      getopt_long-Given ws = loop-Given none ws
