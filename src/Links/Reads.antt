-- ===== src/Links/Reads.antt =====
-- The macros that read a list, against the list of its entries.
use kernel_testkit.Base.{
  ℕ, ◌<◌, ◌≡◌, refl, ap, sym, true, false, Bool, some, List, [], ◌∷◌, arith, ◌==◌, length,
  Bool-cases, inl, inr, ◌↔◌,
}
use kernel_testkit.Links.{
  Ptr, null, Links, list_empty, list_is_singular, list_first_entry, list_first_entry_or_null,
  list_last_entry, list_for_each,
}
use kernel_testkit.Links.Chain.{IsRing, first, last, next-first, prev-last}
use kernel_testkit.Links.Walk.{list_empty-nil, list_is_singular-length, list_for_each_lem}

-- A test is a Boolean of the list, if it holds in the same cases.
same_test : (b : Bool) (m n : ℕ) → ((b ≡ true) ↔ (m ≡ n)) → b ≡ (m == n)
same_test true m n e = let q = e.0 refl in ground arith
same_test false m n e = elim (Bool-cases (m == n)) [
  | inl t ↦ let q = e.1 (ground arith) in cc
  | inr f ↦ sym f
]

first-null :
    (h : Links) (head : Ptr) (xs : List Ptr)
    → IsRing h head xs
    → list_first_entry_or_null head h ≡ first xs null
unfolding list_first_entry_or_null
first-null h head [] r = ground (arith, r.chain)
first-null h head (x ∷ xs) r = ground (arith, r.chain, r.distinct)

empty_test :
    (h : Links) (head : Ptr) (xs : List Ptr)
    → IsRing h head xs
    → list_empty head h ≡ (length xs == 0)
empty_test h head [] r = (list_empty-nil h head [] r).1 refl
empty_test h head (x ∷ xs) r =
    same_test (list_empty head h) (length (x ∷ xs)) 0
      ((λ t. ap length ((list_empty-nil h head (x ∷ xs) r).0 t)), (λ q. absurd (grind arith)))

-- On a ring of links that stands for the list of addresses xs, the macros compute what xs says:
-- whether it is empty, whether it has one entry, its first entry (or the head, or NULL, where
-- there is none), its last, and, with more rounds than entries, all of them in order.
pub list_reads :
    (h : Links) (head : Ptr) (xs : List Ptr) (k : ℕ)
    → IsRing h head xs
    → length xs < k
    → (list_empty head h ≡ (length xs == 0))
      × (list_is_singular head h ≡ (length xs == 1))
      × (list_first_entry head h ≡ first xs head)
      × (list_first_entry_or_null head h ≡ first xs null)
      × (list_last_entry head h ≡ last head xs)
      × (list_for_each k head h ≡ some xs)
unfolding list_first_entry list_last_entry
list_reads h head xs k r fuel = (
  empty_test h head xs r,
  same_test (list_is_singular head h) (length xs) 1 (list_is_singular-length h head xs r),
  next-first h head xs head r.chain,
  first-null h head xs r,
  prev-last h head xs head r.chain,
  list_for_each_lem h head xs k r fuel,
)
