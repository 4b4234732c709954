-- ===== src/Links.antt =====
-- The circular doubly linked lists of iperf/include/list.h. A `struct list_head` is its address,
-- the memory gives every address its two fields, and an entry is named by the address of the
-- `list_head` in it: `list_entry` subtracts a constant, which is 0 for `struct protocol`.
pub mod Chain
pub mod Insert
pub mod Remove
pub mod Spliced
pub mod Splice
pub mod Walk
pub mod Backwards
pub mod Reads
pub mod Store
pub mod Preserve
pub mod Sequence
use kernel_testkit.Base.{
  ℕ, zero, suc, Bool, true, false, not, ◌&&◌, Option, none, some, List, [], ◌∷◌, ◌==◌,
  if◌then◌else◌,
}

abbrev pub Ptr : Type 0
Ptr = ℕ

abbrev pub null : Ptr
null = 0

-- `next` and `prev` of the `list_head` at each address.
pub record Links : Type 0 where
  pub next : Ptr → Ptr
  pub prev : Ptr → Ptr

-- `p->next = q` and `p->prev = q`.
abbrev pub set_next : Ptr → Ptr → Links → Links
set_next p q h = record h { next = λ a. if a == p then q else h.next a }

abbrev pub set_prev : Ptr → Ptr → Links → Links
set_prev p q h = record h { prev = λ a. if a == p then q else h.prev a }

unfoldable pub list_empty : Ptr → Links → Bool
list_empty head h = h.next head == head

unfoldable pub list_is_null : Ptr → Links → Bool
list_is_null head h = (h.next head == null) && (h.prev head == null)

unfoldable pub init_list_head : Ptr → Links → Links
init_list_head list h = set_next list list (set_prev list list h)

unfoldable pub list_is_singular : Ptr → Links → Bool
unfolding list_empty
list_is_singular head h = not (list_empty head h) && (h.next head == h.prev head)

-- `__list_add`
unfoldable pub list_add_between : (entry prev next : Ptr) → Links → Links
list_add_between entry prev next h =
    let h1 = set_prev next entry h in
    let h2 = set_next entry next h1 in let h3 = set_prev entry prev h2 in set_next prev entry h3

unfoldable pub list_add : (entry head : Ptr) → Links → Links
unfolding list_add_between
list_add entry head h = list_add_between entry head (h.next head) h

unfoldable pub list_add_head : (entry head : Ptr) → Links → Links
unfolding list_add
list_add_head entry head h = list_add entry head h

unfoldable pub list_add_tail : (entry head : Ptr) → Links → Links
unfolding list_add
list_add_tail entry head h = list_add entry (h.prev head) h

-- `__list_del`
unfoldable pub list_del_between : (prev next : Ptr) → Links → Links
list_del_between prev next h = set_next prev next (set_prev next prev h)

unfoldable pub list_del_init : Ptr → Links → Links
unfolding list_del_between init_list_head
list_del_init entry h = init_list_head entry (list_del_between (h.prev entry) (h.next entry) h)

unfoldable pub list_del : Ptr → Links → Links
unfolding list_del_between
list_del entry h =
    let h1 = list_del_between (h.prev entry) (h.next entry) h in
    set_next entry null (set_prev entry null h1)

unfoldable pub list_first_entry : Ptr → Links → Ptr
list_first_entry ptr h = h.next ptr

unfoldable pub list_first_entry_or_null : Ptr → Links → Ptr
list_first_entry_or_null ptr h = let pos = h.next ptr in if pos == ptr then null else pos

unfoldable pub list_last_entry : Ptr → Links → Ptr
list_last_entry ptr h = h.prev ptr

unfoldable pub list_next_entry : Ptr → Links → Ptr
list_next_entry pos h = h.next pos

unfoldable pub list_prev_entry : Ptr → Links → Ptr
list_prev_entry pos h = h.prev pos

unfoldable pub list_entry_is_head : (pos head : Ptr) → Bool
list_entry_is_head pos head = pos == head

-- `__list_splice`
unfoldable pub list_splice_between : (list prev next : Ptr) → Links → Links
list_splice_between list prev next h =
    let first = h.next list in
    let last = h.prev list in
    let h1 = set_prev first prev h in
    let h2 = set_next prev first h1 in let h3 = set_next last next h2 in set_prev next last h3

unfoldable pub list_splice : (list head : Ptr) → Links → Links
unfolding list_empty list_splice_between
list_splice list head h =
    if not (list_empty list h) then list_splice_between list head (h.next head) h else h

unfoldable pub list_splice_init : (list head : Ptr) → Links → Links
unfolding list_empty list_splice_between init_list_head
list_splice_init list head h =
    if not (list_empty list h)
    then init_list_head list (list_splice_between list head (h.next head) h)
    else h

unfoldable pub list_splice_tail_init : (list head : Ptr) → Links → Links
unfolding list_empty list_splice_between init_list_head
list_splice_tail_init list head h =
    if not (list_empty list h)
    then init_list_head list (list_splice_between list (h.prev head) head h)
    else h

-- The positions that `list_for_each` and `list_for_each_entry` visit, in order, from `pos` on;
-- `none` if the walk does not come back to the head within the fuel.
unfoldable pub visit : ℕ → (pos head : Ptr) → Links → Option (List Ptr)
visit zero pos head h = none
visit (suc k) pos head h =
    let rest = visit k (h.next pos) head h in
    if pos == head then some [] else elim rest [ none ↦ none | some ps ↦ some (pos ∷ ps) ]

unfoldable pub list_for_each : ℕ → Ptr → Links → Option (List Ptr)
unfolding visit
list_for_each k head h = visit k (h.next head) head h

-- `list_for_each_entry_safe` from `pos`, whose successor `n` was read before the body ran; and
-- `list_for_each_entry_safe_reverse`.
unfoldable pub each_safe : (Ptr → Links → Links) → ℕ → (pos n head : Ptr) → Links → Option Links
each_safe body zero pos n head h = none
each_safe body (suc k) pos n head h =
    let h' = body pos h in
    let rest = each_safe body k n (h'.next n) head h' in if pos == head then some h else rest

unfoldable pub list_for_each_entry_safe : (Ptr → Links → Links) → ℕ → Ptr → Links → Option Links
unfolding each_safe
list_for_each_entry_safe body k head h =
    let pos = h.next head in each_safe body k pos (h.next pos) head h

unfoldable pub each_safe_reverse :
    (Ptr → Links → Links) → ℕ → (pos n head : Ptr) → Links → Option Links
each_safe_reverse body zero pos n head h = none
each_safe_reverse body (suc k) pos n head h =
    let h' = body pos h in
    let rest = each_safe_reverse body k n (h'.prev n) head h' in
    if not (pos == head) then rest else some h

unfoldable pub list_for_each_entry_safe_reverse :
    (Ptr → Links → Links) → ℕ → Ptr → Links → Option Links
unfolding each_safe_reverse
list_for_each_entry_safe_reverse body k head h =
    let pos = h.prev head in each_safe_reverse body k pos (h.prev pos) head h
