-- ===== src/Links/Store.antt =====
-- The lists of iperf/include/list.h as one store: many lists in one memory, and any sequence of
-- the operations on them.
use kernel_testkit.Base.{
  ◌==◌, ◌≡◌, ◌≢◌, refl, sym, ◌∙◌, ◌⊎◌, inl, inr, Bool-cases, if◌then◌else◌, Option, none, some,
  List, [], ◌∷◌, arith,
}
use kernel_testkit.Links.{Ptr, Links}
use kernel_testkit.Links.Chain.{◌∈◌, ◌∉◌, IsRing, SameOutside, IsRing-SameOutside}
use kernel_testkit.Links.Spliced.{Separate, absent}

-- The entries of each list, by the address of its head.
abbrev pub Store : Type 0
Store = Ptr → Option (List Ptr)

-- The memory has a ring for every list of the store, and no address belongs to two of them.
pub record Represents (h : Links) (σ : Store) : Type 0 where
  pub ring : (a : Ptr) (xs : List Ptr) → σ a ≡ some xs → IsRing h a xs
  pub separate :
      (a b : Ptr) (xs ys : List Ptr) → σ a ≡ some xs → σ b ≡ some ys → a ≢ b → Separate a xs b ys

-- The list at `a` is now this.
abbrev pub set : Store → Ptr → Option (List Ptr) → Store
set σ a v = λ b. if b == a then v else σ b

-- `q` is in no list but the one at `a`.
abbrev pub Only : Store → Ptr → Ptr → Type 0
Only σ a q = (b : Ptr) (ys : List Ptr) → σ b ≡ some ys → b ≢ a → q ∉ (b ∷ ys)

set-cases :
    (σ : Store) (a : Ptr) (zs : List Ptr) (b : Ptr) (xs : List Ptr)
    → set σ a (some zs) b ≡ some xs
    → ((b ≡ a) × (xs ≡ zs)) ⊎ ((b ≢ a) × (σ b ≡ some xs))
set-cases σ a zs b xs e = elim (Bool-cases (b == a)) [
  | inl t ↦ let found : some zs ≡ some xs = (rw t at e) in inl (ground arith, cc found)
  | inr f ↦ inr (ground arith, (rw f at e))
]

pub drop-cases :
    (σ : Store) (a b : Ptr) (xs : List Ptr) → set σ a none b ≡ some xs → (b ≢ a) × (σ b ≡ some xs)
drop-cases σ a b xs e = elim (Bool-cases (b == a)) [
  | inl t ↦ let no : none ≡ some xs = (rw t at e) in cc no
  | inr f ↦ (ground arith, (rw f at e))
]

-- A store that has lost a list.
pub Represents-drop :
    (h : Links) (σ : Store) (a : Ptr) → Represents h σ → Represents h (set σ a none)
Represents-drop h σ a r = record {
  ring = λ b xs e. r.ring b xs (drop-cases σ a b xs e).1;
  separate = λ b c xs ys e f ne.
      r.separate b c xs ys (drop-cases σ a b xs e).1 (drop-cases σ a c ys f).1 ne;
}

-- A memory that has a new ring at `a`, within `ws`, and no other list that meets `ws`.
pub put :
    (h g : Links) (σ : Store) (a : Ptr) (zs ws : List Ptr)
    → Represents h σ
    → SameOutside ws h g
    → IsRing g a zs
    → ((q : Ptr) → q ∈ (a ∷ zs) → q ∈ ws)
    → ((q : Ptr) → q ∈ ws → Only σ a q)
    → Represents g (set σ a (some zs))
put h g σ a zs ws r same new inside only = record {
  ring = λ b xs e. elim (set-cases σ a zs b xs e) [
    | inl (here, v) ↦ rw (here, v) new
    | inr (ne, old) ↦
        IsRing-SameOutside h g b xs ws (r.ring b xs old) same (λ q m. outside b xs ne old q m)
  ];
  separate = λ b c xs ys e f ne q m. elim (set-cases σ a zs b xs e) [
    | inl (bh, bv) ↦ elim (set-cases σ a zs c ys f) [
      | inl (ch, cv) ↦ absurd (ne (bh ∙ sym ch))
      | inr (cne, cold) ↦ only q (inside q (ground (arith, m))) c ys cold cne
    ]
    | inr (bne, bold) ↦ elim (set-cases σ a zs c ys f) [
      | inl (ch, cv) ↦
          absent q (c ∷ ys)
            (λ n. ground (arith, only q (inside q (ground (arith, n))) b xs bold bne))
      | inr (cne, cold) ↦ r.separate b c xs ys bold cold ne q m
    ]
  ];
}
  where
    outside : (b : Ptr) (xs : List Ptr) → b ≢ a → σ b ≡ some xs → (q : Ptr) → q ∈ (b ∷ xs) → q ∉ ws
    outside b xs ne old q m = absent q ws (λ n. ground (arith, only q n b xs old ne, m))

-- An address that is in no list of a store is in none after a list has changed, if it is not put
-- there.
pub Only-set :
    (σ : Store) (a l q : Ptr) (zs : List Ptr)
    → Only σ a q
    → q ∉ (a ∷ zs)
    → Only (set σ a (some zs)) l q
Only-set σ a l q zs only new b ys e ne = elim (set-cases σ a zs b ys e) [
  | inl (h, v) ↦ rw (h, v) new
  | inr (bne, old) ↦ only b ys old bne
]

-- An empty list of its own, whose head is in no other.
pub put_empty :
    (g : Links) (σ : Store) (l : Ptr)
    → Represents g σ
    → IsRing g l []
    → Only σ l l
    → Represents g (set σ l (some []))
put_empty g σ l r own only =
    put g g σ l [] (l ∷ []) r (λ q out. (refl, refl)) own (λ q m. m)
      λ q m b ys e ne. ground (arith, only b ys e ne)
