-- ===== src/Links/Splice.antt =====
-- `list_splice`, `list_splice_init` and `list_splice_tail_init`.
use kernel_testkit.Base.{
  ◌≡◌, refl, ◌≢◌, true, false, List, [], ◌∷◌, ◌++◌, arith, ◌==◌, has, append-nil, ap,
}
use kernel_testkit.Links.{Ptr, Links, list_splice, list_splice_init, list_splice_tail_init}
use kernel_testkit.Links.Chain.{
  ◌∈◌, ◌∉◌, Chain, IsRing, last-mem, prev-last, SameOutside, has-append,
}
use kernel_testkit.Links.Spliced.{Separate, front-Chain, tail-Chain, joined}

-- The addresses that a splice may write.
abbrev pub both : Ptr → List Ptr → Ptr → List Ptr → List Ptr
both list xs head ys = (list ∷ xs) ++ (head ∷ ys)

ne_of_mem : (q m : Ptr) (xs : List Ptr) → q ∉ xs → m ∈ xs → q ≢ m
ne_of_mem q m xs out mem e = cc (ap (λ a. has a xs) e)

ends :
    (h : Links) (head : Ptr) (xs : List Ptr)
    → IsRing h head xs
    → (h.next head ∈ (head ∷ xs)) × (h.prev head ∈ (head ∷ xs))
ends h head [] r = ground (arith, r.chain)
ends h head (x ∷ xs) r =
    ground (arith, r.chain, prev-last h head (x ∷ xs) head r.chain, last-mem head (x ∷ xs))

module _ (h : Links) (list head : Ptr) (xs ys : List Ptr) (r : IsRing h list xs)
    (s : IsRing h head ys) where
  away :
      (q : Ptr)
      → q ∉ both list xs head ys
      → (q ≢ list)
        × (q ≢ h.next list)
        × (q ≢ h.prev list)
        × (q ≢ head)
        × (q ≢ h.next head)
        × (q ≢ h.prev head)
  away q out =
      let one : q ∉ (list ∷ xs) = ground (arith, has-append q xs (head ∷ ys)) in
      let two : q ∉ (head ∷ ys) = ground (arith, has-append q xs (head ∷ ys)) in
      (
        ground arith,
        ne_of_mem q (h.next list) (list ∷ xs) one (ends h list xs r).0,
        ne_of_mem q (h.prev list) (list ∷ xs) one (ends h list xs r).1,
        ground arith,
        ne_of_mem q (h.next head) (head ∷ ys) two (ends h head ys s).0,
        ne_of_mem q (h.prev head) (head ∷ ys) two (ends h head ys s).1,
      )

  splice-SameOutside : SameOutside (both list xs head ys) h (list_splice list head h)
  unfolding list_splice
  splice-SameOutside q out = ground (arith, away q out)

  splice_init-SameOutside : SameOutside (both list xs head ys) h (list_splice_init list head h)
  unfolding list_splice_init
  splice_init-SameOutside q out = ground (arith, away q out)

  splice_tail_init-SameOutside :
      SameOutside (both list xs head ys) h (list_splice_tail_init list head h)
  unfolding list_splice_tail_init
  splice_tail_init-SameOutside q out = ground (arith, away q out)

module _ (h : Links) (list head : Ptr) where
  splice-Chain :
      (xs ys : List Ptr)
      → IsRing h list xs
      → IsRing h head ys
      → Separate list xs head ys
      → Chain (list_splice list head h) head (xs ++ ys) head
        × Chain (list_splice_init list head h) head (xs ++ ys) head
        × Chain (list_splice_tail_init list head h) head (ys ++ xs) head
  unfolding list_splice list_splice_init list_splice_tail_init
  splice-Chain [] ys r s sep =
      let e : (h.next list == list) ≡ true = ground arith in
      rw (e, append-nil ys) (s.chain, s.chain, s.chain)
  splice-Chain (f ∷ xs) ys r s sep =
      let c = r.chain in
      let d = r.distinct in
      (
        front-Chain h (list_splice list head h) list head f xs ys r s sep
            (record { ahead = λ q ne. ground arith; back = λ q ne. ground arith }),
        front-Chain h (list_splice_init list head h) list head f xs ys r s sep
            (record { ahead = λ q ne. ground arith; back = λ q ne. ground arith }),
        tail-Chain h (list_splice_tail_init list head h) list head f xs ys r s sep
            (record { ahead = λ q ne. ground arith; back = λ q ne. ground arith }),
      )

  -- The `_init` forms leave `list` empty.
  emptied :
      (xs ys : List Ptr)
      → IsRing h list xs
      → IsRing h head ys
      → Separate list xs head ys
      → IsRing (list_splice_init list head h) list []
        × IsRing (list_splice_tail_init list head h) list []
  unfolding list_splice_init list_splice_tail_init
  emptied [] ys r s sep = let e : (h.next list == list) ≡ true = ground arith in rw e (r, r)
  emptied (x ∷ xs) ys r s sep =
      let e : (h.next list == list) ≡ false = ground (arith, r.chain, r.distinct) in
      rw e (
        record { chain = ground arith; distinct = (refl, tt) },
        record { chain = ground arith; distinct = (refl, tt) },
      )

  module _ (xs ys : List Ptr) (r : IsRing h list xs) (s : IsRing h head ys)
      (sep : Separate list xs head ys) where
    -- `list_splice` puts the entries of `list`, in order, in front of those of `head`, and
    -- touches no third list.
    pub list_splice-append :
        IsRing (list_splice list head h) head (xs ++ ys)
        × SameOutside (both list xs head ys) h (list_splice list head h)
    list_splice-append = (
      record {
        chain = (splice-Chain xs ys r s sep).0;
        distinct = (joined list xs head ys r.distinct s.distinct sep).0;
      },
      splice-SameOutside h list head xs ys r s,
    )

    -- `list_splice_init` puts the entries of `list`, in order, in front of those of `head`,
    -- leaves `list` empty and touches no third list.
    pub list_splice_init-append :
        IsRing (list_splice_init list head h) head (xs ++ ys)
        × IsRing (list_splice_init list head h) list []
        × SameOutside (both list xs head ys) h (list_splice_init list head h)
    list_splice_init-append = (
      record {
        chain = (splice-Chain xs ys r s sep).1;
        distinct = (joined list xs head ys r.distinct s.distinct sep).0;
      },
      (emptied xs ys r s sep).0,
      splice_init-SameOutside h list head xs ys r s,
    )

    -- `list_splice_tail_init` puts the entries of `list`, in order, behind those of `head`,
    -- leaves `list` empty and touches no third list.
    pub list_splice_tail_init-append :
        IsRing (list_splice_tail_init list head h) head (ys ++ xs)
        × IsRing (list_splice_tail_init list head h) list []
        × SameOutside (both list xs head ys) h (list_splice_tail_init list head h)
    list_splice_tail_init-append = (
      record {
        chain = (splice-Chain xs ys r s sep).2;
        distinct = (joined list xs head ys r.distinct s.distinct sep).1;
      },
      (emptied xs ys r s sep).1,
      splice_tail_init-SameOutside h list head xs ys r s,
    )
