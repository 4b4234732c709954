-- ===== src/Protocols/Defaults.antt =====
-- `iperf_defaults`: the lists it leaves.
use kernel_testkit.Base.{
  ◌≡◌, ◌≢◌, refl, ◌==◌, false, [], ◌∷◌, List, length, arith, ◌<◌, Bool-cases, inl, inr,
}
use kernel_testkit.Base.Int.{pos, minus_one}
use kernel_testkit.Base.Run.{Returns, weaken}
use kernel_testkit.Links.{Ptr, null, Links, init_list_head, list_add_tail}
use kernel_testkit.Links.Chain.{◌∉◌, IsRing, IsRing-SameOutside}
use kernel_testkit.Links.Insert.{init_list_head-IsRing, list_add_tail-snoc}
use kernel_testkit.World.{done, Reply-cases, syscall_value}
use kernel_testkit.Test.{State}
use kernel_testkit.Protocols.{ptcp, iperf_defaults}

-- Two empty lists, one initialised after the other.
two_lists :
    (h : Links) (a b : Ptr)
    → a ≢ b
    → IsRing (init_list_head b (init_list_head a h)) a []
      × IsRing (init_list_head b (init_list_head a h)) b []
two_lists h a b ne =
    let h' = init_list_head a h in
    let (second, same) = init_list_head-IsRing b h' in
    (
      IsRing-SameOutside h' (init_list_head b h') a [] (b ∷ []) (init_list_head-IsRing a h).0 same
          (λ q m. ground arith),
      second,
    )

-- What `iperf_defaults` leaves, with `p` the one protocol.
pub record HasTcp (p : Ptr) (old new : State) : Type 0 where
  pub protocols : IsRing new.memory.links new.test.protocols (p ∷ [])
  pub streams : IsRing new.memory.links new.test.streams []
  pub id : new.memory.id p ≡ ptcp
  pub free : new.test.ctrl_sck ≡ minus_one
  pub same : new.test.protocol ≡ old.test.protocol
  pub reply : new.world.reply ≡ old.world.reply

-- Given memory for a protocol, at an address of its own, `iperf_defaults` returns 0 with two
-- lists, the streams empty and the protocols holding one TCP protocol, with no control socket,
-- and with `protocol` and what the kernel will answer as they were.
pub iperf_defaults-HasTcp :
    (s : State) (p : Ptr)
    → s.world.reply s.world.clock ≡ done p
    → p ≢ null
    → s.test.streams ≢ s.test.protocols
    → p ≢ s.test.streams
    → p ≢ s.test.protocols
    → Returns (λ r s'. (r ≡ pos 0) × HasTcp p s s') (iperf_defaults s)
unfolding iperf_defaults
iperf_defaults-HasTcp s p d ne apart ns np =
    let st = s.test.streams in
    let pr = s.test.protocols in
    let h = init_list_head pr (init_list_head st s.memory.links) in
    let (empty_streams, empty_protocols) = two_lists s.memory.links st pr apart in
    let (ring, same) = list_add_tail-snoc h p pr [] empty_protocols (ground arith) in
    let e : (p == null) ≡ false = ground arith in
    rw (d, syscall_value)
      (rw e (
        refl,
        record {
          protocols = ring;
          streams =
              IsRing-SameOutside h (list_add_tail p pr h) st [] (p ∷ pr ∷ []) empty_streams same
                (λ q m. ground arith);
          id = ground arith;
          free = refl;
          same = refl;
          reply = refl;
        },
      ))

-- The list of protocols has at most one entry, and no NULL; the kernel's replies are as before.
abbrev pub Listed : State → State → Type 0
Listed s s' =
    (xs : List Ptr) × IsRing s'.memory.links s'.test.protocols xs
    × (length xs < 2)
    × (null ∉ xs)
    × (s'.world.reply ≡ s.world.reply)

-- Without memory for a protocol `iperf_defaults` leaves the list empty.
pub iperf_defaults-Listed :
    (s : State)
    → s.test.streams ≢ s.test.protocols
    → ((p : Ptr)
        → s.world.reply s.world.clock ≡ done p
        → (p ≢ s.test.streams) × (p ≢ s.test.protocols))
    → Returns (λ _ s'. Listed s s') (iperf_defaults s)
unfolding iperf_defaults
iperf_defaults-Listed s apart own =
    let (a, b) = two_lists s.memory.links s.test.streams s.test.protocols apart in
    elim (Reply-cases (s.world.reply s.world.clock)) [
      | inr (e, f) ↦ rw (f, syscall_value) ([], b, omega arith, refl, refl)
      | inl (p, d) ↦ elim (Bool-cases (p == null)) [
        | inl z ↦ rw (d, syscall_value) (rw z ([], b, omega arith, refl, refl))
        | inr nz ↦
            let (ns, np) = own p d in
            weaken (λ r s'. (r ≡ pos 0) × HasTcp p s s') (λ _ s'. Listed s s') (iperf_defaults s)
              (iperf_defaults-HasTcp s p d (ground arith) apart ns np)
              λ r s' (z, h). (p ∷ [], h.protocols, omega arith, ground arith, h.reply)
      ]
    ]
