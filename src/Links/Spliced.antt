-- ===== src/Links/Spliced.antt =====
-- What `__list_splice` of iperf/include/list.h leaves: chains through both lists.
use kernel_testkit.Base.{◌≡◌, ◌≢◌, List, [], ◌∷◌, ◌++◌, arith, ◌==◌, append-nil, if◌then◌else◌}
use kernel_testkit.Links.{Ptr, Links}
use kernel_testkit.Links.Chain.{
  ◌∈◌, ◌∉◌, Distinct, Chain, IsRing, last, last-mem, prev-last, join, frame, relink, has-append,
}

-- `g` has the links of `h`, away from `list`, but for the four by which the entries of `list` are
-- hung between `before` and `after`.
pub record Spliced (h g : Links) (list before after : Ptr) : Type 0 where
  pub ahead :
      (q : Ptr)
      → q ≢ list
      → g.next q
        ≡ (if q == h.prev list then after else (if q == before then h.next list else h.next q))
  pub back :
      (q : Ptr)
      → q ≢ list
      → g.prev q
        ≡ (if q == after then h.prev list else (if q == h.next list then before else h.prev q))

-- Two lists that share no address.
abbrev pub Separate : Ptr → List Ptr → Ptr → List Ptr → Type 0
Separate list xs head ys = (q : Ptr) → q ∈ (list ∷ xs) → q ∉ (head ∷ ys)

module _ (h g : Links) (list head : Ptr) where
  pub front-Chain :
      (f : Ptr) (xs ys : List Ptr)
      → IsRing h list (f ∷ xs)
      → IsRing h head ys
      → Separate list (f ∷ xs) head ys
      → Spliced h g list head (h.next head)
      → Chain g head ((f ∷ xs) ++ ys) head
  front-Chain f xs [] r s sep sp =
      let l = last f xs in
      let to = prev-last h f xs list r.chain.2 in
      let mem = last-mem f xs in
      let d = r.distinct in
      (
        ground (arith, sp.ahead head, sep head, sep list, sep l),
        ground (arith, sp.back f, sep f, s.chain),
        rw (append-nil xs) (
            relink h g f xs list head r.chain.2 d.1 (ground (arith, sp.ahead l, s.chain))
              (ground (arith, sp.back head, sep list, s.chain))
              (λ q m ne. ground (arith, sp.ahead q, sep q))
              (λ q m. ground (arith, sp.back q, sep q, s.chain))),
      )
  front-Chain f xs (y ∷ ys) r s sep sp =
      let l = last f xs in
      let to = prev-last h f xs list r.chain.2 in
      let mem = last-mem f xs in
      let d = r.distinct in
      let c = s.chain in
      (
        ground (arith, sp.ahead head, sep head, sep list, sep l),
        ground (arith, sp.back f, sep f),
        join g f xs y ys head
            (relink h g f xs list y r.chain.2 d.1 (ground (arith, sp.ahead l))
              (ground (arith, sp.back y, sep list)) (λ q m ne. ground (arith, sp.ahead q, sep q))
              (λ q m. ground (arith, sp.back q, sep q)))
            (frame h g y ys head c.2
              (λ q m. ground (arith, sp.ahead q, sep list, sep l, s.distinct))
              (λ q m. ground (arith, sp.back q, sep list, sep f, s.distinct))),
      )

  pub tail-Chain :
      (f : Ptr) (xs ys : List Ptr)
      → IsRing h list (f ∷ xs)
      → IsRing h head ys
      → Separate list (f ∷ xs) head ys
      → Spliced h g list (h.prev head) head
      → Chain g head (ys ++ (f ∷ xs)) head
  tail-Chain f xs ys r s sep sp =
      let l = last f xs in
      let p = last head ys in
      let to = prev-last h f xs list r.chain.2 in
      let end = prev-last h head ys head s.chain in
      let mem = last-mem f xs in
      let mem' = last-mem head ys in
      let d = r.distinct in
      let d' = s.distinct in
      join g head ys f xs head
        (relink h g head ys head f s.chain s.distinct
          (ground (arith, sp.ahead p, sep list, sep l, r.chain))
          (ground (arith, sp.back f, sep f, r.chain))
          (λ q m ne. ground (arith, sp.ahead q, sep list, sep l))
          (λ q m. ground (arith, sp.back q, sep list, sep f, r.chain)))
        (relink h g f xs list head r.chain.2 d.1 (ground (arith, sp.ahead l))
          (ground (arith, sp.back head, sep list)) (λ q m ne. ground (arith, sp.ahead q, sep q))
          (λ q m. ground (arith, sp.back q, sep q, r.chain)))

pub Distinct-join :
    (xs ys : List Ptr)
    → Distinct xs
    → Distinct ys
    → ((q : Ptr) → q ∈ xs → q ∉ ys)
    → Distinct (xs ++ ys)
Distinct-join [] ys d d' sep = d'
Distinct-join (x ∷ xs) ys d d' sep =
    let sep' = λ (q : Ptr) (m : q ∈ xs). sep q (ground arith) in
    ground (arith, has-append x xs ys, sep x, Distinct-join xs ys d.1 d' sep')

pub absent : (q : Ptr) (xs : List Ptr) → (q ∈ xs → ⊥) → q ∉ xs
absent q xs h = ground arith

-- The entries of both lists behind `head` are distinct, in either order.
pub joined :
    (list : Ptr) (xs : List Ptr) (head : Ptr) (ys : List Ptr)
    → Distinct (list ∷ xs)
    → Distinct (head ∷ ys)
    → Separate list xs head ys
    → Distinct (head ∷ (xs ++ ys)) × Distinct (head ∷ (ys ++ xs))
joined list xs head ys d d' sep =
    let out : head ∉ xs = absent head xs (λ m. ground (arith, sep head)) in
    let there = Distinct-join xs ys d.1 d'.1 (λ q m. ground (arith, sep q)) in
    let back = Distinct-join ys xs d'.1 d.1 λ q m. absent q xs (λ n. ground (arith, sep q)) in
    ((ground (arith, has-append head xs ys), there), (ground (arith, has-append head ys xs), back))
