-- ===== src/Print/Types.antt =====
-- Formats and the kinds of their arguments.
use kernel_testkit.Base.{
  ℕ, ◌==◌, ◌≡◌, refl, Bool, true, false, not, ◌&&◌, ◌||◌, Option, none, some, List, [], ◌∷◌, ◌++◌,
  arith, Bool-cases, inl, inr, subst,
}
use kernel_testkit.Base.Text.{decimal}
use kernel_testkit.Print.{
  Kind, text_kind, int_kind, Arg, text, number, unset, Mode, plain, spec, is_modifier, is_long,
  kind_of, cons_kind, kinds, before, convert, after, format,
}

abbrev pub arg_kind : Arg → Option Kind
arg_kind (text _) = some text_kind
arg_kind (number _) = some int_kind
arg_kind unset = none

-- The arguments are of these kinds; there may be more of them.
abbrev pub Fits : List Kind → List Arg → Type 0
Fits [] args = Unit
Fits (k ∷ ks) [] = ⊥
Fits (k ∷ ks) (a ∷ args) = (arg_kind a ≡ some k) × Fits ks args

-- No conversion has flags, a width, a precision or a length.
unfoldable pub is_plain : Bool → List ℕ → Bool
is_plain behind [] = true
is_plain false (c ∷ f) = is_plain (c == 37) f
is_plain true (c ∷ f) = not (is_modifier c || is_long c) && is_plain false f

abbrev mode : Bool → Mode
mode false = plain
mode true = spec false

abbrev Given : {A : Type 0} → Option A → Type 0
Given {A} o = (a : A) × (o ≡ some a)

-- One conversion of the right kind.
convert-Given :
    (c : ℕ) (a : Arg) (args : List Arg) (k : Kind)
    → kind_of false c ≡ some k
    → arg_kind a ≡ some k
    → (t : List ℕ) × (convert c (a ∷ args) ≡ some (t, args))
convert-Given c (text t) args k e h =
    let is_s : (c == 115) ≡ true = ground arith in (t, rw is_s refl)
convert-Given c (number n) args k e h =
    let is_d : (c == 100) ≡ true = ground arith in (decimal n, rw is_d refl)
convert-Given c unset args k e h = cc

before-Given : (b : List ℕ) (o : Option (List ℕ)) → Given o → Given (before b o)
before-Given b none (t, e) = cc
before-Given b (some u) g = (b ++ u, refl)

after-Given :
    (c : ℕ) (o : Option Kind) (ks : Option (List Kind)) (ks' : List Kind) (args : List Arg)
    (next : List Arg → Option (List ℕ))
    → kind_of false c ≡ o
    → cons_kind o ks ≡ some ks'
    → Fits ks' args
    → ((ks'' : List Kind) (args' : List Arg)
        → ks ≡ some ks''
        → Fits ks'' args'
        → Given (next args'))
    → Given (after (convert c args) next)
after-Given c none ks ks' args next e h fits ih = cc
after-Given c (some k) none ks' args next e h fits ih = cc
after-Given c (some k) (some ks) [] args next e h fits ih = cc
after-Given c (some k) (some ks) (k' ∷ ks') [] next e h fits ih = absurd fits
after-Given c (some k) (some ks) (k' ∷ ks') (a ∷ args) next e h fits ih =
    let (t, conv) = convert-Given c a args k e (ground arith) in
    let same : ks' ≡ ks = cc in
    rw conv (before-Given t (next args) (ih ks args refl (subst (λ q. Fits q args) same fits.1)))

-- A plain format whose arguments fit has a text.
pub format-Given :
    (behind : Bool) (f : List ℕ) (ks : List Kind) (args : List Arg)
    → is_plain behind f ≡ true
    → kinds (mode behind) f ≡ some ks
    → Fits ks args
    → (t : List ℕ) × (format behind f args ≡ some t)
unfolding is_plain kinds format
format-Given false [] ks args p e fits = ([], refl)
format-Given true [] ks args p e fits = cc
format-Given false (c ∷ f) ks args p e fits = elim (Bool-cases (c == 37)) [
  | inl t ↦ rw t (format-Given true f ks args (rw t at p) (rw t at e) fits)
  | inr n ↦ rw n (
      before-Given (c ∷ []) (format false f args)
        (format-Given false f ks args (rw n at p) (rw n at e) fits))
]
format-Given true (c ∷ f) ks args p e fits =
    let m : is_modifier c ≡ false = ground arith in
    let l : is_long c ≡ false = ground arith in
    let q : is_plain false f ≡ true = ground arith in
    elim (Bool-cases (c == 37)) [
      | inl t ↦ rw t (
          before-Given (37 ∷ []) (format false f args)
            (format-Given false f ks args q (rw (m, l, t) at e) fits))
      | inr n ↦ rw n (
          after-Given c (kind_of false c) (kinds plain f) ks args (format false f) refl
            (rw (m, l, n) at e) fits
            λ ks'' args' e' fits'. format-Given false f ks'' args' q e' fits')
    ]
