-- ===== src/Control/Timer.antt =====
-- The descriptors of `iperf_register_timerfd` and `iperf_deregister_timerfd`.
use kernel_testkit.Base.{◌≡◌, ◌⊎◌, List, arith}
use kernel_testkit.Base.Int.{ℤ, pos, minus_one}
use kernel_testkit.Base.Run.{Returns}
use kernel_testkit.World.{held, erase, syscall_unit}
use kernel_testkit.Test.{State}
use kernel_testkit.Control.{iperf_register_timerfd, iperf_deregister_timerfd, close_both}

-- 0 with the descriptors as they were, or -1 with these; the test, and so the numbers in it, is
-- as before.
abbrev pub Holds : List ℤ → State → ℤ → State → Type 0
Holds after_failure s r s' =
    (s'.test ≡ s.test)
    × (((r ≡ pos 0) × (held s'.world.log ≡ held s.world.log))
        ⊎ ((r ≡ minus_one) × (held s'.world.log ≡ after_failure)))

register-Holds :
    (s : State)
    → Returns
        (Holds (erase s.test.epoll_fd (erase s.test.timer_fd (held s.world.log))) s)
        (iperf_register_timerfd s)
unfolding iperf_register_timerfd close_both syscall_unit held
register-Holds s = ground arith

deregister-Holds :
    (s : State)
    → Returns (Holds (erase s.test.timer_fd (held s.world.log)) s) (iperf_deregister_timerfd s)
unfolding iperf_deregister_timerfd syscall_unit held
deregister-Holds s = ground arith

-- Whatever the kernel answers, `iperf_register_timerfd` and `iperf_deregister_timerfd` end and
-- leave the test as it is: they return 0 with the descriptors as before, or -1, and then the
-- first has closed the timer's and the epoll descriptor, the second the timer's alone.
pub iperf_register_timerfd-Holds :
    (s : State)
    → Returns
        (Holds (erase s.test.epoll_fd (erase s.test.timer_fd (held s.world.log))) s)
        (iperf_register_timerfd s)
      × Returns (Holds (erase s.test.timer_fd (held s.world.log)) s) (iperf_deregister_timerfd s)
iperf_register_timerfd-Holds s = (register-Holds s, deregister-Holds s)
