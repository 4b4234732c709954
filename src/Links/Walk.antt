-- ===== src/Links/Walk.antt =====
-- What the tests and the loops over a list see: `list_empty`, `list_is_singular`, the entry
-- macros, and the four `list_for_each` loops.
use kernel_testkit.Base.{
  ℕ, zero, suc, ◌<◌, ◌≡◌, refl, ap, ◌↔◌, true, false, some, List, [], ◌∷◌, arith, ◌==◌, length,
}
use kernel_testkit.Links.{
  Ptr, null, Links, list_empty, list_is_singular, visit, list_for_each, each_safe,
  list_for_each_entry_safe, list_del,
}
use kernel_testkit.Links.Chain.{
  ◌∈◌, ◌∉◌, Chain, IsRing, first, last-mem, next-first, prev-last, SameOutside,
}
use kernel_testkit.Links.Remove.{list_del_lem}

-- `list_empty` holds exactly of a list without entries.
pub list_empty-nil :
    (h : Links) (head : Ptr) (xs : List Ptr)
    → IsRing h head xs
    → (list_empty head h ≡ true) ↔ (xs ≡ [])
unfolding list_empty
list_empty-nil h head [] r = ground (arith, r.chain)
list_empty-nil h head (x ∷ xs) r = ground (arith, r.chain, r.distinct)

-- `list_is_singular` holds exactly of a list with one entry.
pub list_is_singular-length :
    (h : Links) (head : Ptr) (xs : List Ptr)
    → IsRing h head xs
    → (list_is_singular head h ≡ true) ↔ (length xs ≡ 1)
unfolding list_is_singular
list_is_singular-length h head [] r = ground (arith, r.chain)
list_is_singular-length h head (x ∷ []) r = ground (arith, r.chain, r.distinct)
list_is_singular-length h head (x ∷ y ∷ xs) r =
    ground (arith, r.chain, r.distinct, prev-last h head (x ∷ y ∷ xs) head r.chain, last-mem y xs)

module _ (h : Links) (head : Ptr) where
  visit-Chain :
      (k : ℕ) (a : Ptr) (xs : List Ptr)
      → Chain h a xs head
      → head ∉ xs
      → length xs < k
      → visit k (h.next a) head h ≡ some xs
  unfolding visit
  visit-Chain zero a xs c out fuel = absurd (omega arith)
  visit-Chain (suc k) a [] c out fuel = ground arith
  visit-Chain (suc k) a (x ∷ xs) c out fuel =
      let rest = visit-Chain k x xs c.2 (ground arith) (omega arith) in
      let e : (x == head) ≡ false = ground arith in rw (c.0, e, rest) (ap (λ p. some (p ∷ xs)) c.0)

  -- With more rounds than entries a `list_for_each` loop over a list ends, and visits the
  -- entries in order.
  pub list_for_each_lem :
      (xs : List Ptr) (k : ℕ) → IsRing h head xs → length xs < k → list_for_each k head h ≡ some xs
  unfolding list_for_each
  list_for_each_lem xs k r fuel = visit-Chain k head xs r.chain r.distinct.0 fuel

-- The entries `xs` have left the list at `head`, which is empty, and their fields are cleared.
abbrev pub Cleared : Links → Ptr → List Ptr → Links → Type 0
Cleared h head xs g =
    IsRing g head []
    × ((q : Ptr) → q ∈ xs → (g.next q ≡ null) × (g.prev q ≡ null))
    × SameOutside (head ∷ xs) h g

del_first :
    (h : Links) (head x : Ptr) (xs : List Ptr) (g : Links)
    → IsRing h head (x ∷ xs)
    → Cleared (list_del x h) head xs g
    → Cleared h head (x ∷ xs) g
del_first h head x xs g r (ring, null, same) =
    let (_, n, p, out) = list_del_lem h head x [] xs r in
    let d = r.distinct in
    (ring, λ q m. ground (arith, null q, same q), λ q o. ground (arith, same q, out q))

each_safe-Cleared :
    (k : ℕ) (h : Links) (head : Ptr) (xs : List Ptr)
    → IsRing h head xs
    → length xs < k
    → (g : Links) × (each_safe list_del k (first xs head) (h.next (first xs head)) head h ≡ some g)
      × Cleared h head xs g
unfolding each_safe
each_safe-Cleared zero h head xs r fuel = absurd (omega arith)
each_safe-Cleared (suc k) h head [] r fuel = (h, ground arith, (r, λ q m. cc, λ q o. (refl, refl)))
each_safe-Cleared (suc k) h head (x ∷ xs) r fuel =
    let e : (x == head) ≡ false = ground (arith, r.distinct) in
    let step = next-first h x xs head r.chain.2 in
    let rest =
      each_safe-Cleared k (list_del x h) head xs (list_del_lem h head x [] xs r).0 (omega arith) in
    (rest.0, rw (e, step) rest.1, del_first h head x xs rest.0 r rest.2)

-- A `list_for_each_entry_safe` loop that deletes each entry it visits ends, empties the list,
-- clears the fields of every entry, and touches no other list.
pub list_for_each_entry_safe-Cleared :
    (h : Links) (head : Ptr) (xs : List Ptr) (k : ℕ)
    → IsRing h head xs
    → length xs < k
    → (g : Links) × (list_for_each_entry_safe list_del k head h ≡ some g) × Cleared h head xs g
unfolding list_for_each_entry_safe
list_for_each_entry_safe-Cleared h head xs k r fuel =
    rw (next-first h head xs head r.chain) (each_safe-Cleared k h head xs r fuel)
