-- ===== src/Examples/Rings.antt =====
-- The theorems on lists, at the rings at 10 and 20.
use kernel_testkit.Base.{◌≡◌, ◌==◌, refl, none, some, List, [], ◌∷◌, length, arith}
use kernel_testkit.Links.{
  Links, list_del, list_for_each_entry_safe, list_for_each_entry_safe_reverse, Ptr, list_empty,
  list_is_singular, list_first_entry, list_first_entry_or_null, list_last_entry, list_for_each,
}
use kernel_testkit.Links.Store.{Store, Represents, set, Only, Only-set}
use kernel_testkit.Links.Sequence.{
  Op, init, add, add_tail, del, splice_init, emptied, in_front, behind, taken, joined_init, Steps,
  stop, step, run_all, run_all-Represents,
}
use kernel_testkit.Links.Reads.{list_reads}
use kernel_testkit.Links.Chain.{◌∉◌}
use kernel_testkit.Links.Walk.{Cleared}
use kernel_testkit.Links.Backwards.{safe_loops-Cleared}
use kernel_testkit.Examples.Data.{two_rings, ring_10}

safe_loops-Cleared_example :
    ((g : Links) × (list_for_each_entry_safe list_del 3 10 two_rings ≡ some g)
      × Cleared two_rings 10 (11 ∷ 12 ∷ []) g)
    × ((g : Links) × (list_for_each_entry_safe_reverse list_del 3 10 two_rings ≡ some g)
        × Cleared two_rings 10 (11 ∷ 12 ∷ []) g)
safe_loops-Cleared_example = safe_loops-Cleared two_rings 10 (11 ∷ 12 ∷ []) 3 ring_10 (omega arith)

abbrev entries : List Ptr
entries = 11 ∷ 12 ∷ []

list_reads_example :
    (list_empty 10 two_rings ≡ (length entries == 0))
    × (list_is_singular 10 two_rings ≡ (length entries == 1))
    × (list_first_entry 10 two_rings ≡ 11)
    × (list_first_entry_or_null 10 two_rings ≡ 11)
    × (list_last_entry 10 two_rings ≡ 12)
    × (list_for_each 3 10 two_rings ≡ some entries)
list_reads_example = list_reads two_rings 10 (11 ∷ 12 ∷ []) 3 ring_10 (omega arith)

-- Two lists are made, filled and joined, and an entry is taken out, in a memory of any content.
abbrev calls : List Op
calls = init 10 ∷ init 20 ∷ add 11 10 ∷ add_tail 12 10 ∷ add 21 20 ∷ splice_init 20 10 ∷ del 11 ∷ []

abbrev nothing : Store
nothing = λ _. none

abbrev one_list : List Ptr → Store
one_list xs = set nothing 10 (some xs)

abbrev two_lists : List Ptr → List Ptr → Store
two_lists xs ys = set (one_list xs) 20 (some ys)

abbrev after_add : Store
after_add = set (two_lists [] []) 10 (some (11 ∷ []))

abbrev after_tail : Store
after_tail = set after_add 10 (some (11 ∷ 12 ∷ []))

abbrev filled : Store
filled = set after_tail 20 (some (21 ∷ []))

abbrev spliced : Store
spliced = set (set (set filled 20 none) 10 (some (21 ∷ 11 ∷ 12 ∷ []))) 20 (some [])

nothing-Represents : Represents two_rings nothing
nothing-Represents = record { ring = λ a xs e. cc e; separate = λ a b xs ys e f ne. cc e }

nowhere : (a q : Ptr) → Only nothing a q
nowhere a q b ys e ne = cc e

-- An address that is no head is in neither list when both are empty.
in_neither : (q : Ptr) → q ∉ (10 ∷ []) → q ∉ (20 ∷ []) → Only (two_lists [] []) 10 q
in_neither q a b =
    Only-set (one_list []) 20 10 q [] (Only-set nothing 10 20 q [] (nowhere 10 q) a) b

calls-Steps : Steps nothing calls (set spliced 10 (some (21 ∷ 12 ∷ [])))
calls-Steps = step (emptied 10 (nowhere 10 10)) (
    step (emptied 20 (Only-set nothing 10 20 20 [] (nowhere 10 20) refl)) (
      step (in_front 11 10 [] refl (in_neither 11 refl refl) refl) (
        step
          (behind 12 10 (11 ∷ []) refl
            (Only-set (two_lists [] []) 10 10 12 (11 ∷ []) (in_neither 12 refl refl) refl) refl)
          (step
            (in_front 21 20 [] refl
              (Only-set after_add 10 20 21 (11 ∷ 12 ∷ [])
                (Only-set (two_lists [] []) 10 10 21 (11 ∷ []) (in_neither 21 refl refl) refl) refl)
              refl)
            (step (joined_init 20 10 (21 ∷ []) (11 ∷ 12 ∷ []) refl refl (λ e. cc e))
              (step (taken 11 10 (21 ∷ []) (12 ∷ []) refl) stop))))))

run_all-Represents_example :
    Represents (run_all calls two_rings) (set spliced 10 (some (21 ∷ 12 ∷ [])))
run_all-Represents_example =
    run_all-Represents calls two_rings nothing (set spliced 10 (some (21 ∷ 12 ∷ [])))
      nothing-Represents calls-Steps
