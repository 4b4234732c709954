-- ===== src/Links/Preserve.antt =====
-- What each operation of iperf/include/list.h does to the lists of one memory.
use kernel_testkit.Base.{◌≡◌, ◌≢◌, sym, none, some, List, [], ◌∷◌, ◌++◌, arith}
use kernel_testkit.Links.{
  Ptr, Links, init_list_head, list_add, list_add_tail, list_del, list_del_init, list_splice,
  list_splice_init, list_splice_tail_init,
}
use kernel_testkit.Links.Chain.{◌∈◌, ◌∉◌, Distinct, has-append}
use kernel_testkit.Links.Insert.{init_list_head-IsRing, list_add-cons, list_add_tail-snoc}
use kernel_testkit.Links.Remove.{list_del_lem, list_del_init_lem}
use kernel_testkit.Links.Spliced.{Separate, absent}
use kernel_testkit.Links.Splice.{
  both, list_splice-append, list_splice_init-append, list_splice_tail_init-append,
}
use kernel_testkit.Links.Store.{
  Store, Represents, set, Only, put, put_empty, Only-set, drop-cases, Represents-drop,
}

-- A deleted entry is no longer in its list.
gone : (a e : Ptr) (xs ys : List Ptr) → Distinct (a ∷ (xs ++ (e ∷ ys))) → e ∉ (a ∷ (xs ++ ys))
gone a e [] ys d = ground arith
gone a e (x ∷ xs) ys d =
    ground (arith, has-append a xs (e ∷ ys), has-append x xs (e ∷ ys), gone a e xs ys)

module _ (h : Links) (σ : Store) (r : Represents h σ) where
  pub init-Represents : (l : Ptr) → Only σ l l → Represents (init_list_head l h) (set σ l (some []))
  init-Represents l only =
      let (ring, same) = init_list_head-IsRing l h in
      put h (init_list_head l h) σ l [] (l ∷ []) r same ring (λ q m. m)
        λ q m b ys e ne. ground (arith, only b ys e ne)

  module _ (e a : Ptr) (xs : List Ptr) (at : σ a ≡ some xs) (only : Only σ a e)
      (new : e ∉ (a ∷ xs)) where
    -- What `list_add` and `list_add_tail` write meets no other list.
    spared : (q : Ptr) → q ∈ (e ∷ a ∷ xs) → Only σ a q
    spared q m b ys f ne =
        absent q (b ∷ ys)
          λ n. ground (arith, r.separate a b xs ys at f (λ p. ne (sym p)) q, only b ys f ne)

    pub add-Represents : Represents (list_add e a h) (set σ a (some (e ∷ xs)))
    add-Represents =
        let (ring, same) = list_add-cons h e a xs (r.ring a xs at) new in
        put h (list_add e a h) σ a (e ∷ xs) (e ∷ a ∷ xs) r same ring (λ q m. ground arith) spared

    pub add_tail-Represents : Represents (list_add_tail e a h) (set σ a (some (xs ++ (e ∷ []))))
    add_tail-Represents =
        let (ring, same) = list_add_tail-snoc h e a xs (r.ring a xs at) new in
        put h (list_add_tail e a h) σ a (xs ++ (e ∷ [])) (e ∷ a ∷ xs) r same ring
          (λ q m. ground (arith, has-append q xs (e ∷ []))) spared

  module _ (e a : Ptr) (xs ys : List Ptr) (at : σ a ≡ some (xs ++ (e ∷ ys))) where
    -- What a delete writes meets no other list, and what is left lies within it.
    alone : (q : Ptr) → q ∈ (a ∷ (xs ++ (e ∷ ys))) → Only σ a q
    alone q m b zs f ne = r.separate a b (xs ++ (e ∷ ys)) zs at f (λ p. ne (sym p)) q m

    within : (q : Ptr) → q ∈ (a ∷ (xs ++ ys)) → q ∈ (a ∷ (xs ++ (e ∷ ys)))
    within q m = ground (arith, has-append q xs ys, has-append q xs (e ∷ ys))

    pub del-Represents : Represents (list_del e h) (set σ a (some (xs ++ ys)))
    del-Represents =
        let (ring, _, _, same) = list_del_lem h a e xs ys (r.ring a _ at) in
        put h (list_del e h) σ a (xs ++ ys) (a ∷ (xs ++ (e ∷ ys))) r same ring within alone

    pub del_init-Represents :
        Represents (list_del_init e h) (set (set σ a (some (xs ++ ys))) e (some []))
    del_init-Represents =
        let (ring, own, same) = list_del_init_lem h a e xs ys (r.ring a _ at) in
        let g = list_del_init e h in
        let τ = set σ a (some (xs ++ ys)) in
        put_empty g τ e (put h g σ a (xs ++ ys) (a ∷ (xs ++ (e ∷ ys))) r same ring within alone) own
          (Only-set σ a e e (xs ++ ys) (alone e (ground (arith, has-append e xs (e ∷ ys))))
            (gone a e xs ys (r.ring a _ at).distinct))

  module _ (l a : Ptr) (xs ys : List Ptr) (at_l : σ l ≡ some xs) (at_a : σ a ≡ some ys)
      (ne : l ≢ a) where
    apart : Separate l xs a ys
    apart = r.separate l a xs ys at_l at_a ne

    -- What a splice writes meets no third list, and both joins lie within it.
    aside : (q : Ptr) → q ∈ both l xs a ys → Only (set σ l none) a q
    aside q m b zs f bne =
        let (lne, old) = drop-cases σ l b zs f in
        absent q (b ∷ zs) λ n. ground (
          arith,
          has-append q (l ∷ xs) (a ∷ ys),
          r.separate b l zs xs old at_l lne q n,
          r.separate b a zs ys old at_a bne q n,
        )

    front : (q : Ptr) → q ∈ (a ∷ (xs ++ ys)) → q ∈ both l xs a ys
    front q m = ground (arith, has-append q xs ys, has-append q (l ∷ xs) (a ∷ ys))

    back : (q : Ptr) → q ∈ (a ∷ (ys ++ xs)) → q ∈ both l xs a ys
    back q m = ground (arith, has-append q ys xs, has-append q (l ∷ xs) (a ∷ ys))

    rest : Represents h (set σ l none)
    rest = Represents-drop h σ l r

    pub splice-Represents : Represents (list_splice l a h) (set (set σ l none) a (some (xs ++ ys)))
    splice-Represents =
        let (ring, same) =
          list_splice-append h l a xs ys (r.ring l xs at_l) (r.ring a ys at_a) apart in
        put h (list_splice l a h) (set σ l none) a (xs ++ ys) (both l xs a ys) rest same ring front
          aside

    -- `list` is in no list any more.
    out : (zs : List Ptr) → l ∉ (a ∷ zs) → Only (set (set σ l none) a (some zs)) l l
    out zs new = Only-set (set σ l none) a l l zs (aside l (ground arith)) new

    pub splice_init-Represents :
        Represents
          (list_splice_init l a h)
          (set (set (set σ l none) a (some (xs ++ ys))) l (some []))
    splice_init-Represents =
        let (ring, own, same) =
          list_splice_init-append h l a xs ys (r.ring l xs at_l) (r.ring a ys at_a) apart in
        let g = list_splice_init l a h in
        let τ = set (set σ l none) a (some (xs ++ ys)) in
        put_empty g τ l
          (put h g (set σ l none) a (xs ++ ys) (both l xs a ys) rest same ring front aside) own
          (out (xs ++ ys)
            (ground (arith, has-append l xs ys, (r.ring l xs at_l).distinct, apart l)))

    pub splice_tail_init-Represents :
        Represents
          (list_splice_tail_init l a h)
          (set (set (set σ l none) a (some (ys ++ xs))) l (some []))
    splice_tail_init-Represents =
        let (ring, own, same) =
          list_splice_tail_init-append h l a xs ys (r.ring l xs at_l) (r.ring a ys at_a) apart in
        let g = list_splice_tail_init l a h in
        let τ = set (set σ l none) a (some (ys ++ xs)) in
        put_empty g τ l
          (put h g (set σ l none) a (ys ++ xs) (both l xs a ys) rest same ring back aside) own
          (out (ys ++ xs)
            (ground (arith, has-append l ys xs, (r.ring l xs at_l).distinct, apart l)))
