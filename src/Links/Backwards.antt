-- ===== src/Links/Backwards.antt =====
-- `list_for_each_entry_safe_reverse`: the loop from the end of a list.
use kernel_testkit.Base.{
  ℕ, zero, suc, ◌<◌, ◌≡◌, refl, subst, sym, ◌⊎◌, inl, inr, false, some, List, [], ◌∷◌, ◌++◌, arith,
  ◌==◌, length, length-append, append-nil,
}
use kernel_testkit.Links.{
  Ptr, null, Links, each_safe_reverse, list_for_each_entry_safe, list_for_each_entry_safe_reverse,
  list_del,
}
use kernel_testkit.Links.Chain.{IsRing, last, prev-last, split, has-append}
use kernel_testkit.Links.Remove.{list_del_lem}
use kernel_testkit.Links.Walk.{Cleared, list_for_each_entry_safe-Cleared}

snoc-cases : (xs : List Ptr) → (xs ≡ []) ⊎ ((ys : List Ptr) × (y : Ptr) × (xs ≡ ys ++ (y ∷ [])))
snoc-cases [] = inl refl
snoc-cases (x ∷ xs) = elim (snoc-cases xs) [
  | inl e ↦ inr ([], x, rw e refl)
  | inr (ys, y, e) ↦ inr (x ∷ ys, y, rw e refl)
]

-- The last entry has left, and then the rest.
del_last :
    (h : Links) (head y : Ptr) (ys : List Ptr) (g : Links)
    → IsRing h head (ys ++ (y ∷ []))
    → Cleared (list_del y h) head ys g
    → Cleared h head (ys ++ (y ∷ [])) g
del_last h head y ys g r (ring, null, same) =
    let (_, n, p, out) = list_del_lem h head y ys [] r in
    let d = r.distinct in
    (
      ring,
      λ q m. ground (arith, null q, same q, has-append q ys (y ∷ []), has-append head ys (y ∷ [])),
      λ q o. ground (arith, same q, out q, has-append q ys (y ∷ [])),
    )

-- What the loop leaves, from the last entry on.
abbrev Emptied : ℕ → Links → Ptr → List Ptr → Type 0
Emptied k h head xs =
    (g : Links) × (each_safe_reverse list_del k (h.prev head) (h.prev (h.prev head)) head h
      ≡ some g)
    × Cleared h head xs g

each_safe_reverse-Cleared :
    (k : ℕ) (h : Links) (head : Ptr) (xs : List Ptr)
    → IsRing h head xs
    → length xs < k
    → Emptied k h head xs
unfolding each_safe_reverse
each_safe_reverse-Cleared zero h head xs r fuel = absurd (omega arith)
each_safe_reverse-Cleared (suc k) h head xs r fuel = elim (snoc-cases xs) [
  | inl e ↦
      let r0 : IsRing h head [] = subst (IsRing h head) e r in
      subst (Emptied (suc k) h head) (sym e)
        (h, ground (arith, r0.chain), (r0, λ q m. cc, λ q o. (refl, refl)))
  | inr (ys, y, e) ↦
      let r1 : IsRing h head (ys ++ (y ∷ [])) = subst (IsRing h head) e r in
      let (before, after) = split h head ys y [] head r1.chain in
      let h' = list_del y h in
      let r2 : IsRing h' head ys =
        subst (IsRing h' head) (append-nil ys) (list_del_lem h head y ys [] r1).0 in
      let rest =
        each_safe_reverse-Cleared k h' head ys r2 (ground (arith, length-append ys (y ∷ []), e)) in
      let to : h.prev head ≡ y = after.1 in
      let ne : (y == head) ≡ false = ground (arith, r1.distinct, has-append head ys (y ∷ [])) in
      let back : h.prev y ≡ last head ys = prev-last h head ys y before in
      let run =
        subst (λ q. each_safe_reverse list_del k q (h'.prev q) head h' ≡ some rest.0)
          (prev-last h' head ys head r2.chain) rest.1 in
      subst (Emptied (suc k) h head) (sym e)
        (rest.0, rw (to, ne, back) run, del_last h head y ys rest.0 r1 rest.2)
]

-- With more rounds than entries, a `list_for_each_entry_safe` loop and a
-- `list_for_each_entry_safe_reverse` loop that delete each entry they visit both end, and each
-- empties the list, clears the fields of every entry, and touches no other list.
pub safe_loops-Cleared :
    (h : Links) (head : Ptr) (xs : List Ptr) (k : ℕ)
    → IsRing h head xs
    → length xs < k
    → ((g : Links) × (list_for_each_entry_safe list_del k head h ≡ some g) × Cleared h head xs g)
      × ((g : Links) × (list_for_each_entry_safe_reverse list_del k head h ≡ some g)
          × Cleared h head xs g)
unfolding list_for_each_entry_safe_reverse
safe_loops-Cleared h head xs k r fuel = (
  list_for_each_entry_safe-Cleared h head xs k r fuel,
  each_safe_reverse-Cleared k h head xs r fuel,
)
