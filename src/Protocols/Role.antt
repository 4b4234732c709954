-- ===== src/Protocols/Role.antt =====
-- `iperf_set_test_role` and `iperf_set_test_reverse`: who sends.
use kernel_testkit.Base.{ℕ, ◌≡◌, ◌≢◌, ◌==◌, true, false, not, ◌&&◌, if◌then◌else◌, arith, ◌⊎◌}
use kernel_testkit.Base.Int.{ℤ, truth, of_bool, ◌==ℤ◌}
use kernel_testkit.Base.Run.{crash, Returns}
use kernel_testkit.Links.{null}
use kernel_testkit.Test.{Test, State}
use kernel_testkit.Protocols.{ptcp, iperf_set_test_role, iperf_set_test_reverse}

-- The client sends unless the test is reversed, and the server sends if it is.
abbrev pub SenderAgrees : Test → Type 0
SenderAgrees t = truth t.sender ≡ (if truth t.reverse then not (t.role == 99) else t.role == 99)

-- Retransmits are counted exactly by a TCP sender; a sender has a protocol.
abbrev pub RetransmitsAgree : State → Type 0
RetransmitsAgree s =
    s.test.sender_has_retransmits
    ≡ of_bool (truth s.test.sender && (s.memory.id s.test.protocol ==ℤ ptcp))

-- Given a protocol and one of the two roles, `iperf_set_test_role` makes the sender agree with
-- role and direction, and the retransmit flag with the sender.
pub iperf_set_test_role_lem :
    (role : ℕ) (s : State)
    → (role ≡ 99) ⊎ (role ≡ 115)
    → s.test.protocol ≢ null
    → Returns
        (λ _ s'. (s'.test.role ≡ role) × SenderAgrees s'.test × RetransmitsAgree s')
        (iperf_set_test_role role s)
unfolding iperf_set_test_role
iperf_set_test_role_lem role s h ne = ground arith

-- Without a protocol, and not reversed, taking the client's role follows a NULL pointer.
pub iperf_set_test_role-crash :
    (s : State)
    → s.test.protocol ≡ null
    → truth s.test.reverse ≡ false
    → iperf_set_test_role 99 s ≡ crash
unfolding iperf_set_test_role
iperf_set_test_role-crash s e h = ground arith

-- From a test that is not reversed, `iperf_set_test_reverse` keeps the agreement of sender, role
-- and direction.
pub iperf_set_test_reverse_lem :
    (reverse : ℤ) (s : State)
    → SenderAgrees s.test
    → truth s.test.reverse ≡ false
    → s.test.protocol ≢ null
    → Returns
        (λ _ s'. (s'.test.reverse ≡ reverse) × SenderAgrees s'.test × RetransmitsAgree s')
        (iperf_set_test_reverse reverse s)
unfolding iperf_set_test_reverse
iperf_set_test_reverse_lem reverse s h r ne = ground arith

-- On a test that is reversed already, any call of `iperf_set_test_reverse` breaks that
-- agreement.
pub iperf_set_test_reverse_twice :
    (reverse : ℤ) (s : State)
    → SenderAgrees s.test
    → truth s.test.reverse ≡ true
    → s.test.protocol ≢ null
    → Returns (λ _ s'. ¬ (SenderAgrees s'.test)) (iperf_set_test_reverse reverse s)
unfolding iperf_set_test_reverse
iperf_set_test_reverse_twice reverse s h r ne = ground arith
