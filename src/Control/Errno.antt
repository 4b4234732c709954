-- ===== src/Control/Errno.antt =====
-- What `iperf_set_send_state` and `send_errno` leave in `errno` where they report no error.
use kernel_testkit.Base.{ℕ, ◌≡◌, true, false, inl, inr, Bool-cases}
use kernel_testkit.Base.Int.{ℤ, pos, is_neg, ◌==ℤ◌}
use kernel_testkit.Base.Partial.{Ends, bind_ends}
use kernel_testkit.World.{World, get_errno, set_errno}
use kernel_testkit.Net.{nwrite}
use kernel_testkit.Net.Errno.{Reason, nwrite-Reason}
use kernel_testkit.Test.{State, lift}
use kernel_testkit.Test.Lift.{Lifted, lift-Ends}
use kernel_testkit.Wire.{htonl}
use kernel_testkit.Control.{state_byte, iperf_set_send_state, send_errno}
use kernel_testkit.Control.SendState.{at_state}

module _ (E : ℕ → Type 0) where
  abbrev Left : ℤ → World → Type 0
  Left r w = is_neg r ≡ false → Reason E w.errno

  pub iperf_set_send_state-Reason :
      (st : ℤ) (s : State)
      → Reason E s.world.errno
      → Ends (λ r s'. (r ==ℤ pos 0) ≡ true → Reason E s'.world.errno) (iperf_set_send_state st s)
  unfolding iperf_set_send_state set_errno
  iperf_set_send_state-Reason st s why =
      let fd = s.test.ctrl_sck in
      let write = nwrite fd (state_byte st) in
      bind_ends (Lifted Left (at_state st s))
        (λ r s'. (r ==ℤ pos 0) ≡ true → Reason E s'.world.errno) (lift write (at_state st s)) _
        (lift-Ends Left write (at_state st s) (nwrite-Reason E fd (state_byte st) s.world why))
        λ r s' (left, t, m, p). elim (Bool-cases (is_neg r)) [
          | inl bad ↦ rw bad (λ zero. cc zero)
          | inr fine ↦ rw fine (λ _. left fine)
        ]

  pub send_errno-Reason :
      (s : State)
      → Reason E s.world.errno
      → Ends (λ r s'. is_neg r ≡ false → Reason E s'.world.errno) (send_errno s)
  unfolding send_errno get_errno set_errno
  send_errno-Reason s why =
      let fd = s.test.ctrl_sck in
      let write = nwrite fd (htonl s.world.errno) in
      bind_ends (Lifted Left s) (λ r s'. is_neg r ≡ false → Reason E s'.world.errno) (lift write s)
        _ (lift-Ends Left write s (nwrite-Reason E fd (htonl s.world.errno) s.world why))
        λ r s' (left, t, m, p). elim (Bool-cases (is_neg r)) [
          | inl bad ↦ rw bad (λ fine. cc fine)
          | inr fine ↦ rw fine (λ _. left fine)
        ]
