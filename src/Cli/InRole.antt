-- ===== src/Cli/InRole.antt =====
-- Which options of iperf/src/main.c leave the role as it is.
use Prim.Native.String.{String}
use kernel_testkit.Base.{
  ℕ, zero, suc, ◌==◌, ◌≡◌, refl, false, if◌then◌else◌, Option, none, some, inl, inr, Bool-cases,
  arith,
}
use kernel_testkit.Base.Int.{ℤ, pos, truth}
use kernel_testkit.Base.Run.{pure, ◌>>◌}
use kernel_testkit.Base.Partial.{Ends, bind_ends}
use kernel_testkit.Links.{Ptr}
use kernel_testkit.Test.{State, protocol_id}
use kernel_testkit.Protocols.{
  find_loop, set_protocol, check_sender_has_retransmits, iperf_set_test_role, sender_of_role,
  negate,
}
use kernel_testkit.Params.{pudp}
use kernel_testkit.Utils.{Double}
use kernel_testkit.Cli.{set_format, set_max_segment, take_option}

-- The role is `role`.
abbrev pub InRole : {A : Type 0} → ℕ → A → State → Type 0
InRole role _ s = s.test.role ≡ role

find_loop-InRole :
    (k : ℕ) (i : ℤ) (here : Ptr) (role : ℕ) (s : State)
    → s.test.role ≡ role
    → Ends (InRole role) (find_loop k i here s)
unfolding find_loop
find_loop-InRole zero i here role s e = tt
find_loop-InRole (suc k) i here role s e =
    ground (arith, find_loop-InRole k i (s.memory.links.next here) role s)

check-InRole :
    (role : ℕ) (s : State)
    → s.test.role ≡ role
    → Ends (InRole role) (check_sender_has_retransmits s)
unfolding check_sender_has_retransmits protocol_id
check-InRole role s e = ground arith

set_protocol-InRole :
    (k : ℕ) (i : ℤ) (role : ℕ) (s : State)
    → s.test.role ≡ role
    → Ends (InRole role) (set_protocol k i s)
unfolding set_protocol
set_protocol-InRole k i role s e =
    bind_ends (InRole role) (InRole role) (find_loop k i (s.memory.links.next s.test.protocols) s) _
      (find_loop-InRole k i (s.memory.links.next s.test.protocols) role s e)
      λ q s1 e1. elim (Bool-cases (q == s.test.protocols)) [
        | inl t ↦ rw t e1
        | inr f ↦
            let s2 = record s1 { test = record (s1.test) { protocol = q } } in
            rw f (
              bind_ends (InRole role) (InRole role) (check_sender_has_retransmits s2) _
                (check-InRole role s2 e1) λ _ s3 e3. e3)
      ]

pub role-InRole : (role : ℕ) (s : State) → Ends (InRole role) (iperf_set_test_role role s)
unfolding iperf_set_test_role
role-InRole role s =
    let sender = sender_of_role role s.test.sender in
    check-InRole role
      (record s {
        test = record (s.test) {
          role = role;
          sender = if truth s.test.reverse then negate sender else sender;
        };
      })
      refl

module _ (D : Double) (garbage : D.Num) (k : ℕ) where
  udp-InRole :
      (role : ℕ) (s : State)
      → s.test.role ≡ role
      → Ends (InRole role) ((set_protocol k pudp >> pure (pos 0)) s)
  udp-InRole role s e =
      bind_ends (InRole role) (InRole role) (set_protocol k pudp s) _
        (set_protocol-InRole k pudp role s e) λ _ s1 e1. e1

  -- Other options keep the role.
  pub other-InRole :
      (flag : ℕ) (o : Option String) (role : ℕ) (s : State)
      → (flag == 115) ≡ false
      → (flag == 99) ≡ false
      → s.test.role ≡ role
      → Ends (InRole role) (take_option D garbage k flag o s)
  unfolding take_option set_format set_max_segment
  other-InRole flag none role s f g e = ground (arith, udp-InRole role s)
  other-InRole flag (some a) role s f g e = ground (arith, udp-InRole role s)
