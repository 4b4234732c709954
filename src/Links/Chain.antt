-- ===== src/Links/Chain.antt =====
-- What a ring of `list_head`s stands for, and how one survives writes elsewhere.
use kernel_testkit.Base.{◌≡◌, refl, ◌≢◌, true, false, ◌||◌, List, [], ◌∷◌, ◌++◌, arith, has}
use kernel_testkit.Links.{Ptr, Links}

infix 40 ◌∈◌ ◌∉◌
abbrev pub ◌∈◌ : Ptr → List Ptr → Type 0
a ∈ xs = has a xs ≡ true

abbrev pub ◌∉◌ : Ptr → List Ptr → Type 0
a ∉ xs = has a xs ≡ false

abbrev pub Distinct : List Ptr → Type 0
Distinct [] = Unit
Distinct (x ∷ xs) = (x ∉ xs) × Distinct xs

-- From `a` the links lead through `xs` to `b`, and back.
abbrev pub Chain : Links → Ptr → List Ptr → Ptr → Type 0
Chain h a [] b = (h.next a ≡ b) × (h.prev b ≡ a)
Chain h a (x ∷ xs) b = (h.next a ≡ x) × (h.prev x ≡ a) × Chain h x xs b

-- The list at `head` has the entries `xs`.
pub record IsRing (h : Links) (head : Ptr) (xs : List Ptr) : Type 0 where
  pub chain : Chain h head xs head
  pub distinct : Distinct (head ∷ xs)

-- The last of `a ∷ xs`, and the first of `xs` with `b` behind.
abbrev pub last : Ptr → List Ptr → Ptr
last a [] = a
last a (x ∷ xs) = last x xs

abbrev pub first : List Ptr → Ptr → Ptr
first [] b = b
first (x ∷ xs) b = x

pub last-mem : (a : Ptr) (xs : List Ptr) → last a xs ∈ (a ∷ xs)
last-mem a [] = ground arith
last-mem a (x ∷ xs) = ground (arith, last-mem x xs)

pub has-append : (a : Ptr) (xs ys : List Ptr) → has a (xs ++ ys) ≡ (has a xs || has a ys)
has-append a [] ys = refl
has-append a (x ∷ xs) ys = ground (arith, has-append a xs ys)

pub Distinct-append : (xs ys : List Ptr) → Distinct (xs ++ ys) → Distinct xs × Distinct ys
Distinct-append [] ys d = (tt, d)
Distinct-append (x ∷ xs) ys d = ground (arith, has-append x xs ys, Distinct-append xs ys)

-- Lists of distinct entries have no entry in common if together they are distinct.
pub apart : (q : Ptr) (xs ys : List Ptr) → Distinct (xs ++ ys) → q ∈ xs → q ∉ ys
apart q [] ys d m = ground arith
apart q (x ∷ xs) ys d m = ground (arith, has-append x xs ys, apart q xs ys d.1)

module _ (h : Links) where
  pub next-first : (a : Ptr) (xs : List Ptr) (b : Ptr) → Chain h a xs b → h.next a ≡ first xs b
  next-first a [] b c = c.0
  next-first a (x ∷ xs) b c = c.0

  pub prev-last : (a : Ptr) (xs : List Ptr) (b : Ptr) → Chain h a xs b → h.prev b ≡ last a xs
  prev-last a [] b c = c.1
  prev-last a (x ∷ xs) b c = prev-last x xs b c.2

  pub next-last : (a : Ptr) (xs : List Ptr) (b : Ptr) → Chain h a xs b → h.next (last a xs) ≡ b
  next-last a [] b c = c.0
  next-last a (x ∷ xs) b c = next-last x xs b c.2

  pub split :
      (a : Ptr) (xs : List Ptr) (y : Ptr) (ys : List Ptr) (b : Ptr)
      → Chain h a (xs ++ (y ∷ ys)) b
      → Chain h a xs y × Chain h y ys b
  split a [] y ys b c = ((c.0, c.1), c.2)
  split a (x ∷ xs) y ys b c = let r = split x xs y ys b c.2 in ((c.0, c.1, r.0), r.1)

  pub join :
      (a : Ptr) (xs : List Ptr) (y : Ptr) (ys : List Ptr) (b : Ptr)
      → Chain h a xs y
      → Chain h y ys b
      → Chain h a (xs ++ (y ∷ ys)) b
  join a [] y ys b c d = (c.0, c.1, d)
  join a (x ∷ xs) y ys b c d = (c.0, c.1, join x xs y ys b c.2 d)

module _ (h g : Links) where
  -- A chain survives writes that spare its links.
  pub frame :
      (a : Ptr) (xs : List Ptr) (b : Ptr)
      → Chain h a xs b
      → ((q : Ptr) → q ∈ (a ∷ xs) → g.next q ≡ h.next q)
      → ((q : Ptr) → q ∈ (b ∷ xs) → g.prev q ≡ h.prev q)
      → Chain g a xs b
  frame a [] b c n p = ground (arith, n a, p b)
  frame a (x ∷ xs) b c n p =
      let n' = λ (q : Ptr) (m : q ∈ (x ∷ xs)). n q (ground arith) in
      let p' = λ (q : Ptr) (m : q ∈ (b ∷ xs)). p q (ground arith) in
      (ground (arith, n a), ground (arith, p x), frame x xs b c.2 n' p')

  -- A chain whose last link alone is turned, towards `m`.
  pub relink :
      (a : Ptr) (xs : List Ptr) (b m : Ptr)
      → Chain h a xs b
      → Distinct (a ∷ xs)
      → g.next (last a xs) ≡ m
      → g.prev m ≡ last a xs
      → ((q : Ptr) → q ∈ (a ∷ xs) → q ≢ last a xs → g.next q ≡ h.next q)
      → ((q : Ptr) → q ∈ xs → g.prev q ≡ h.prev q)
      → Chain g a xs m
  relink a [] b m c d to back n p = (to, back)
  relink a (x ∷ xs) b m c d to back n p =
      let n' = λ (q : Ptr) (m : q ∈ (x ∷ xs)). n q (ground arith) in
      let p' = λ (q : Ptr) (m : q ∈ xs). p q (ground arith) in
      (
        ground (arith, n a, last-mem x xs),
        ground (arith, p x),
        relink x xs b m c.2 d.1 to back n' p',
      )

-- `g` has the fields of `h` at every address that is not among `xs`.
abbrev pub SameOutside : List Ptr → Links → Links → Type 0
SameOutside xs h g = (q : Ptr) → q ∉ xs → (g.next q ≡ h.next q) × (g.prev q ≡ h.prev q)

-- A ring is kept by writes outside it.
pub IsRing-SameOutside :
    (h g : Links) (head : Ptr) (xs ws : List Ptr)
    → IsRing h head xs
    → SameOutside ws h g
    → ((q : Ptr) → q ∈ (head ∷ xs) → q ∉ ws)
    → IsRing g head xs
IsRing-SameOutside h g head xs ws r same out = record {
  chain =
      frame h g head xs head r.chain (λ q m. (same q (out q m)).0) (λ q m. (same q (out q m)).1);
  distinct = r.distinct;
}

pub Distinct-snoc : (xs : List Ptr) (e : Ptr) → Distinct xs → e ∉ xs → Distinct (xs ++ (e ∷ []))
Distinct-snoc [] e d out = (refl, tt)
Distinct-snoc (x ∷ xs) e d out = ground (arith, has-append x xs (e ∷ []), Distinct-snoc xs e d.1)
