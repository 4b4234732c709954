-- ===== src/Protocols/Find.antt =====
-- `get_protocol` and `set_protocol` against a search in the list of the protocols.
use kernel_testkit.Base.{
  ℕ, zero, suc, ◌≡◌, ◌≢◌, ◌<◌, refl, ◌&&◌, Option, none, some, if◌then◌else◌, List, [], ◌∷◌, length,
  arith, ◌⊎◌, inl, inr, Option-cases,
}
use kernel_testkit.Base.Int.{ℤ, pos, minus_one, truth, of_bool, ◌==ℤ◌, ==ℤ_iff}
use kernel_testkit.Base.Run.{ok}
use kernel_testkit.Links.{Ptr, null}
use kernel_testkit.Links.Chain.{◌∈◌, ◌∉◌, Chain, IsRing}
use kernel_testkit.Test.{State}
use kernel_testkit.Protocols.{ptcp, find_loop, get_protocol, set_protocol}

-- The first of `xs` with this id.
abbrev pub find : (Ptr → ℤ) → ℤ → List Ptr → Option Ptr
find ids i [] = none
find ids i (x ∷ xs) = if ids x ==ℤ i then some x else find ids i xs

abbrev pub or_head : Option Ptr → Ptr → Ptr
or_head none head = head
or_head (some p) head = p

pub find-mem :
    (ids : Ptr → ℤ) (i : ℤ) (xs : List Ptr) (p : Ptr)
    → find ids i xs ≡ some p
    → (p ∈ xs) × (ids p ≡ i)
find-mem ids i [] p e = cc
find-mem ids i (x ∷ xs) p e = ground (arith, find-mem ids i xs p, ==ℤ_iff (ids x) i)

module _ (i : ℤ) (s : State) where
  find_loop_lem :
      (k : ℕ) (a : Ptr) (xs : List Ptr)
      → Chain s.memory.links a xs s.test.protocols
      → s.test.protocols ∉ xs
      → length xs < k
      → find_loop k i (s.memory.links.next a) s
        ≡ ok (or_head (find s.memory.id i xs) s.test.protocols) s
  unfolding find_loop
  find_loop_lem zero a xs c out fuel = absurd (omega arith)
  find_loop_lem (suc k) a [] c out fuel = ground arith
  find_loop_lem (suc k) a (x ∷ xs) c out fuel = ground (arith, find_loop_lem k x xs c.2)

  module _ (k : ℕ) (xs : List Ptr) (r : IsRing s.memory.links s.test.protocols xs)
      (fuel : length xs < k) where
    pub get_protocol-find :
        get_protocol k i s ≡ ok (or_head (find s.memory.id i xs) s.test.protocols) s
    unfolding get_protocol
    get_protocol-find = find_loop_lem k s.test.protocols xs r.chain r.distinct.0 fuel

    -- `set_protocol` of an id that no protocol has returns -1 and changes nothing.
    pub set_protocol-none : find s.memory.id i xs ≡ none → set_protocol k i s ≡ ok minus_one s
    unfolding set_protocol
    set_protocol-none e =
        rw (find_loop_lem k s.test.protocols xs r.chain r.distinct.0 fuel, e) (ground arith)

    -- Where the search in the list finds a protocol, `set_protocol` returns 0, makes it the
    -- test's, sets `sender_has_retransmits` as for a TCP sender, and changes nothing else.
    pub set_protocol-some :
        (p : Ptr)
        → find s.memory.id i xs ≡ some p
        → null ∉ xs
        → set_protocol k i s
          ≡ ok (pos 0) (record s {
            test = record (s.test) {
              protocol = p;
              sender_has_retransmits = of_bool (truth s.test.sender && (i ==ℤ ptcp));
            };
          })
    unfolding set_protocol
    set_protocol-some p e nn =
        let (mem, id) = find-mem s.memory.id i xs p e in
        let d = r.distinct in
        rw (find_loop_lem k s.test.protocols xs r.chain r.distinct.0 fuel, e) (ground arith)

    -- `get_protocol` never returns NULL: where no protocol has the id it returns the list head
    -- as if it were a protocol, else the first with the id.
    pub get_protocol-ne_null :
        null ∉ (s.test.protocols ∷ xs)
        → (p : Ptr) × (get_protocol k i s ≡ ok p s)
          × (p ≢ null)
          × (((find s.memory.id i xs ≡ none) × (p ≡ s.test.protocols))
              ⊎ (find s.memory.id i xs ≡ some p))
    get_protocol-ne_null out = elim (Option-cases (find s.memory.id i xs)) [
      | inl e ↦ (s.test.protocols, rw (get_protocol-find, e), ground arith, inl (e, refl))
      | inr (p, e) ↦
          (p, rw (get_protocol-find, e), ground (arith, find-mem s.memory.id i xs p e), inr e)
    ]
