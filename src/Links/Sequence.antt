-- ===== src/Links/Sequence.antt =====
-- Any sequence of the operations of iperf/include/list.h, on the lists of one memory.
use kernel_testkit.Base.{◌≡◌, ◌≢◌, none, some, List, [], ◌∷◌, ◌++◌}
use kernel_testkit.Links.{
  Ptr, Links, init_list_head, list_add, list_add_tail, list_del, list_del_init, list_splice,
  list_splice_init, list_splice_tail_init,
}
use kernel_testkit.Links.Chain.{◌∉◌}
use kernel_testkit.Links.Store.{Store, Represents, set, Only}
use kernel_testkit.Links.Preserve.{
  init-Represents, add-Represents, add_tail-Represents, del-Represents, del_init-Represents,
  splice-Represents, splice_init-Represents, splice_tail_init-Represents,
}

-- The operations, with the arguments of the C functions.
pub data Op : Type 0 where
  init : (list : Ptr) → Op
  add add_tail : (entry head : Ptr) → Op
  del del_init : (entry : Ptr) → Op
  splice splice_init splice_tail_init : (list head : Ptr) → Op

unfoldable pub apply : Op → Links → Links
apply (init l) h = init_list_head l h
apply (add e a) h = list_add e a h
apply (add_tail e a) h = list_add_tail e a h
apply (del e) h = list_del e h
apply (del_init e) h = list_del_init e h
apply (splice l a) h = list_splice l a h
apply (splice_init l a) h = list_splice_init l a h
apply (splice_tail_init l a) h = list_splice_tail_init l a h

-- What each operation does to a store, where it may be called: a new entry is in no list, a
-- deleted one in some list, and two lists are spliced that are not the same. After `list_splice`
-- the list at `list` is no list any more.
pub data Step (σ : Store) : Op → Store → Type 0 where
  emptied : (l : Ptr) → Only σ l l → Step σ (init l) (set σ l (some []))
  in_front :
      (e a : Ptr) (xs : List Ptr)
      → σ a ≡ some xs
      → Only σ a e
      → e ∉ (a ∷ xs)
      → Step σ (add e a) (set σ a (some (e ∷ xs)))
  behind :
      (e a : Ptr) (xs : List Ptr)
      → σ a ≡ some xs
      → Only σ a e
      → e ∉ (a ∷ xs)
      → Step σ (add_tail e a) (set σ a (some (xs ++ (e ∷ []))))
  taken :
      (e a : Ptr) (xs ys : List Ptr)
      → σ a ≡ some (xs ++ (e ∷ ys))
      → Step σ (del e) (set σ a (some (xs ++ ys)))
  taken_init :
      (e a : Ptr) (xs ys : List Ptr)
      → σ a ≡ some (xs ++ (e ∷ ys))
      → Step σ (del_init e) (set (set σ a (some (xs ++ ys))) e (some []))
  joined :
      (l a : Ptr) (xs ys : List Ptr)
      → σ l ≡ some xs
      → σ a ≡ some ys
      → l ≢ a
      → Step σ (splice l a) (set (set σ l none) a (some (xs ++ ys)))
  joined_init :
      (l a : Ptr) (xs ys : List Ptr)
      → σ l ≡ some xs
      → σ a ≡ some ys
      → l ≢ a
      → Step σ (splice_init l a) (set (set (set σ l none) a (some (xs ++ ys))) l (some []))
  joined_tail :
      (l a : Ptr) (xs ys : List Ptr)
      → σ l ≡ some xs
      → σ a ≡ some ys
      → l ≢ a
      → Step σ (splice_tail_init l a) (set (set (set σ l none) a (some (ys ++ xs))) l (some []))

pub data Steps : Store → List Op → Store → Type 0 where
  stop : {σ : Store} → Steps σ [] σ
  step :
      {σ τ υ : Store} {op : Op} {ops : List Op} → Step σ op τ → Steps τ ops υ → Steps σ (op ∷ ops) υ

unfoldable pub run_all : List Op → Links → Links
unfolding apply
run_all [] h = h
run_all (op ∷ ops) h = run_all ops (apply op h)

apply-Represents :
    (h : Links) (σ τ : Store) (op : Op) → Step σ op τ → Represents h σ → Represents (apply op h) τ
unfolding apply
apply-Represents h σ τ op (emptied l only) r = init-Represents h σ r l only
apply-Represents h σ τ op (in_front e a xs at only new) r = add-Represents h σ r e a xs at only new
apply-Represents h σ τ op (behind e a xs at only new) r =
    add_tail-Represents h σ r e a xs at only new
apply-Represents h σ τ op (taken e a xs ys at) r = del-Represents h σ r e a xs ys at
apply-Represents h σ τ op (taken_init e a xs ys at) r = del_init-Represents h σ r e a xs ys at
apply-Represents h σ τ op (joined l a xs ys f g ne) r = splice-Represents h σ r l a xs ys f g ne
apply-Represents h σ τ op (joined_init l a xs ys f g ne) r =
    splice_init-Represents h σ r l a xs ys f g ne
apply-Represents h σ τ op (joined_tail l a xs ys f g ne) r =
    splice_tail_init-Represents h σ r l a xs ys f g ne

-- Where a memory has a ring for every list of a store and no address is in two of them, any
-- sequence of `init_list_head`, `list_add`, `list_add_tail`, `list_del`, `list_del_init`,
-- `list_splice`, `list_splice_init` and `list_splice_tail_init` leaves such a memory for the
-- store that the same steps make of lists of addresses. A step asks that a new entry or an
-- initialised head is in no other list, that a deleted entry is in a list, and that two lists
-- are spliced that differ.
pub run_all-Represents :
    (ops : List Op) (h : Links) (σ τ : Store)
    → Represents h σ
    → Steps σ ops τ
    → Represents (run_all ops h) τ
unfolding run_all
run_all-Represents [] h σ τ r stop = r
run_all-Represents (op ∷ ops) h σ τ r (step {τ = υ} one more) =
    run_all-Represents ops (apply op h) υ τ (apply-Represents h σ υ op one r) more
