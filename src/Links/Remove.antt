-- ===== src/Links/Remove.antt =====
-- `list_del` and `list_del_init`.
use kernel_testkit.Base.{
  ◌≡◌, refl, ◌≢◌, List, [], ◌∷◌, ◌++◌, arith, ◌==◌, append-nil, if◌then◌else◌,
}
use kernel_testkit.Links.{Ptr, null, Links, list_del, list_del_init}
use kernel_testkit.Links.Chain.{
  ◌∈◌, Distinct, Chain, IsRing, last, first, last-mem, next-first, prev-last, join, split, frame,
  relink, SameOutside, Distinct-append, apart, has-append,
}

-- `g` has the links of `h` but for the two that lead round `e`.
record Bypass (h g : Links) (e : Ptr) : Type 0 where
  ahead : (q : Ptr) → q ≢ e → g.next q ≡ (if q == h.prev e then h.next e else h.next q)
  back : (q : Ptr) → q ≢ e → g.prev q ≡ (if q == h.next e then h.prev e else h.prev q)

module _ (h g : Links) (head e : Ptr) (by : Bypass h g e) where
  -- The part before `e` now leads to what followed `e`.
  before-Chain :
      (xs ys : List Ptr)
      → Chain h head xs e
      → Chain h e ys head
      → Distinct ((head ∷ xs) ++ (e ∷ ys))
      → Chain g head xs (first ys head)
  before-Chain xs ys c c' d =
      let p = last head xs in
      let n = first ys head in
      let ends = Distinct-append (head ∷ xs) (e ∷ ys) d in
      let member = last-mem head xs in
      let to = prev-last h head xs e c in
      let from = next-first h e ys head c' in
      let apart-e = λ (q : Ptr) (m : q ∈ (head ∷ xs)). apart q (head ∷ xs) (e ∷ ys) d m in
      relink h g head xs e n c ends.0 (ground (arith, by.ahead p, apart-e p))
        (first-back xs ys c c' d) (λ q m ne. ground (arith, by.ahead q, apart-e q))
        (λ q m. inner-back xs ys c' d q m)
    where
      first-back :
          (xs ys : List Ptr)
          → Chain h head xs e
          → Chain h e ys head
          → Distinct ((head ∷ xs) ++ (e ∷ ys))
          → g.prev (first ys head) ≡ last head xs
      first-back xs [] c c' d =
          ground (arith, by.back head, prev-last h head xs e c, apart head (head ∷ xs) (e ∷ []) d)
      first-back xs (y ∷ ys) c c' d =
          ground
            (arith, by.back y, prev-last h head xs e c, Distinct-append (head ∷ xs) (e ∷ y ∷ ys) d)

      inner-back :
          (xs ys : List Ptr)
          → Chain h e ys head
          → Distinct ((head ∷ xs) ++ (e ∷ ys))
          → (q : Ptr) → q ∈ xs
          → g.prev q ≡ h.prev q
      inner-back xs [] c' d q m =
          ground (
            arith,
            by.back q,
            apart q (head ∷ xs) (e ∷ []) d,
            Distinct-append (head ∷ xs) (e ∷ []) d,
          )
      inner-back xs (y ∷ ys) c' d q m =
          ground (arith, by.back q, apart q (head ∷ xs) (e ∷ y ∷ ys) d)

  bypass-Chain :
      (xs ys : List Ptr)
      → Chain h head xs e
      → Chain h e ys head
      → Distinct ((head ∷ xs) ++ (e ∷ ys))
      → Chain g head (xs ++ ys) head
  bypass-Chain xs [] c c' d = rw (append-nil xs) (before-Chain xs [] c c' d)
  bypass-Chain xs (y ∷ ys) c c' d =
      let ends = (Distinct-append (head ∷ xs) (e ∷ y ∷ ys) d).1 in
      let member = apart (last head xs) (head ∷ xs) (e ∷ y ∷ ys) d (last-mem head xs) in
      let outer = apart head (head ∷ xs) (e ∷ y ∷ ys) d (ground arith) in
      let to = prev-last h head xs e c in
      join g head xs y ys head (before-Chain xs (y ∷ ys) c c' d) (
        frame h g y ys head c'.2 (λ q m. ground (arith, by.ahead q))
          (λ q m. ground (arith, by.back q)))

Distinct-remove :
    (xs : List Ptr) (e : Ptr) (ys : List Ptr) → Distinct (xs ++ (e ∷ ys)) → Distinct (xs ++ ys)
Distinct-remove [] e ys d = d.1
Distinct-remove (x ∷ xs) e ys d =
    ground (arith, has-append x xs ys, has-append x xs (e ∷ ys), Distinct-remove xs e ys d.1)

bypass-IsRing :
    (h g : Links) (head e : Ptr) (xs ys : List Ptr)
    → Bypass h g e
    → IsRing h head (xs ++ (e ∷ ys))
    → IsRing g head (xs ++ ys)
bypass-IsRing h g head e xs ys by r =
    let parts = split h head xs e ys head r.chain in
    record {
      chain = bypass-Chain h g head e by xs ys parts.0 parts.1 r.distinct;
      distinct = Distinct-remove (head ∷ xs) e ys r.distinct;
    }

-- What a delete writes lies on the ring.
neighbours :
    (h : Links) (head e : Ptr) (xs ys : List Ptr)
    → IsRing h head (xs ++ (e ∷ ys))
    → (h.prev e ∈ ((head ∷ xs) ++ (e ∷ ys))) × (h.next e ∈ ((head ∷ xs) ++ (e ∷ ys)))
neighbours h head e xs [] r =
    let parts = split h head xs e [] head r.chain in
    ground (
      arith,
      prev-last h head xs e parts.0,
      last-mem head xs,
      has-append (h.prev e) (head ∷ xs) (e ∷ []),
    )
neighbours h head e xs (y ∷ ys) r =
    let parts = split h head xs e (y ∷ ys) head r.chain in
    ground (
      arith,
      prev-last h head xs e parts.0,
      last-mem head xs,
      has-append (h.prev e) (head ∷ xs) (e ∷ y ∷ ys),
      has-append y (head ∷ xs) (e ∷ y ∷ ys),
    )

module _ (h : Links) (head e : Ptr) (xs ys : List Ptr) (r : IsRing h head (xs ++ (e ∷ ys))) where
  -- `list_del` takes an entry out of its list, leaves the rest in order, clears the entry's
  -- fields and touches no other list.
  pub list_del_lem :
      IsRing (list_del e h) head (xs ++ ys)
      × ((list_del e h).next e ≡ null)
      × ((list_del e h).prev e ≡ null)
      × SameOutside (head ∷ xs ++ (e ∷ ys)) h (list_del e h)
  unfolding list_del
  list_del_lem = (
    bypass-IsRing h (list_del e h) head e xs ys
        (record { ahead = λ q ne. ground arith; back = λ q ne. ground arith }) r,
    ground arith,
    ground arith,
    λ q out. ground (arith, neighbours h head e xs ys r, has-append e (head ∷ xs) (e ∷ ys)),
  )

  -- `list_del_init` takes an entry out of its list, leaves the rest in order, makes the entry an
  -- empty list of its own and touches no other list.
  pub list_del_init_lem :
      IsRing (list_del_init e h) head (xs ++ ys)
      × IsRing (list_del_init e h) e []
      × SameOutside (head ∷ xs ++ (e ∷ ys)) h (list_del_init e h)
  unfolding list_del_init
  list_del_init_lem = (
    bypass-IsRing h (list_del_init e h) head e xs ys
        (record { ahead = λ q ne. ground arith; back = λ q ne. ground arith }) r,
    record { chain = ground arith; distinct = (refl, tt) },
    λ q out. ground (arith, neighbours h head e xs ys r, has-append e (head ∷ xs) (e ∷ ys)),
  )
