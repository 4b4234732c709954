-- ===== src/Links/Insert.antt =====
-- `init_list_head`, `list_add` and `list_add_tail`.
use kernel_testkit.Base.{refl, List, [], ◌∷◌, ◌++◌, arith}
use kernel_testkit.Links.{Ptr, Links, init_list_head, list_add, list_add_tail}
use kernel_testkit.Links.Chain.{
  ◌∉◌, Distinct, Chain, IsRing, last-mem, next-last, prev-last, join, frame, relink, SameOutside,
  Distinct-snoc,
}

-- After `init_list_head` the list is empty, and no other list is touched.
pub init_list_head-IsRing :
    (list : Ptr) (h : Links)
    → IsRing (init_list_head list h) list [] × SameOutside (list ∷ []) h (init_list_head list h)
unfolding init_list_head
init_list_head-IsRing list h =
    (record { chain = ground arith; distinct = (refl, tt) }, λ q out. ground arith)

module _ (h : Links) (entry head : Ptr) where
  add-Chain :
      (xs : List Ptr)
      → Chain h head xs head
      → Distinct (head ∷ xs)
      → entry ∉ (head ∷ xs)
      → Chain (list_add entry head h) head (entry ∷ xs) head
  unfolding list_add
  add-Chain [] c d out = ground arith
  add-Chain (x ∷ xs) c d out =
      let g = list_add entry head h in
      let rest = frame h g x xs head c.2 (λ q m. ground arith) (λ q m. ground arith) in
      (ground arith, ground arith, (ground arith, ground arith, rest))

  add-SameOutside :
      (xs : List Ptr)
      → Chain h head xs head
      → SameOutside (entry ∷ head ∷ xs) h (list_add entry head h)
  unfolding list_add
  add-SameOutside [] c q out = ground arith
  add-SameOutside (x ∷ xs) c q out = ground arith

  -- `list_add` puts a new entry in front of a list, and touches no other list.
  pub list_add-cons :
      (xs : List Ptr)
      → IsRing h head xs
      → entry ∉ (head ∷ xs)
      → IsRing (list_add entry head h) head (entry ∷ xs)
        × SameOutside (entry ∷ head ∷ xs) h (list_add entry head h)
  list_add-cons xs r out = (
    record { chain = add-Chain xs r.chain r.distinct out; distinct = ground (arith, r.distinct) },
    add-SameOutside xs r.chain,
  )

  -- The three other writes of `list_add_tail` after the last link has been turned.
  tail-Chain :
      (xs : List Ptr)
      → Chain h head xs head
      → Distinct (head ∷ xs)
      → entry ∉ (head ∷ xs)
      → Chain (list_add_tail entry head h) head (xs ++ (entry ∷ [])) head
  unfolding list_add_tail
  tail-Chain xs c d out =
      let g = list_add_tail entry head h in
      let before = prev-last h head xs head c in
      let after = next-last h head xs head c in
      let member = last-mem head xs in
      join g head xs entry [] head
        (relink h g head xs head entry c d (ground arith) (ground arith) (λ q m ne. ground arith)
          (λ q m. ground arith))
        (ground arith, ground arith)

  tail-SameOutside :
      (xs : List Ptr)
      → Chain h head xs head
      → SameOutside (entry ∷ head ∷ xs) h (list_add_tail entry head h)
  unfolding list_add_tail
  tail-SameOutside xs c q out =
      ground (arith, prev-last h head xs head c, next-last h head xs head c, last-mem head xs)

  -- `list_add_tail` puts a new entry behind a list, and touches no other list.
  pub list_add_tail-snoc :
      (xs : List Ptr)
      → IsRing h head xs
      → entry ∉ (head ∷ xs)
      → IsRing (list_add_tail entry head h) head (xs ++ (entry ∷ []))
        × SameOutside (entry ∷ head ∷ xs) h (list_add_tail entry head h)
  list_add_tail-snoc xs r out = (
    record {
      chain = tail-Chain xs r.chain r.distinct out;
      distinct = Distinct-snoc (head ∷ xs) entry r.distinct out;
    },
    tail-SameOutside xs r.chain,
  )
