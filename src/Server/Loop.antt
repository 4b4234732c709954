-- ===== src/Server/Loop.antt =====
-- The loop of `iperf_run_server`: how it ends, and that it serves one client.
use kernel_testkit.Base.{
  ℕ, zero, suc, ◌≡◌, refl, true, false, if◌then◌else◌, List, subst, arith, Bool-cases, inl, inr,
}
use kernel_testkit.Base.Int.{ℤ, pos, negsuc, minus_one, is_neg, ◌==ℤ◌, ==ℤ_iff}
use kernel_testkit.Base.Run.{Run, ok, crash, out_of_fuel, Cmd, pure, and_then}
use kernel_testkit.World.{syscall, epoll_wait, tick}
use kernel_testkit.Test.{State, lift}
use kernel_testkit.Json.{Json}
use kernel_testkit.Net.Read.{IsReliable}
use kernel_testkit.Control.{iperf_done, create_streams, iperf_create_epoll, iperf_create_timerfd}
use kernel_testkit.Server.{iperf_accept, iperf_server_listen, server_loop, iperf_run_server}

-- A run that returns 0 ends in IPERF_DONE.
abbrev ZeroIsDone : Run State ℤ → Type 0
ZeroIsDone (ok r s) = r ≡ pos 0 → s.test.state ≡ iperf_done
ZeroIsDone crash = Unit
ZeroIsDone out_of_fuel = Unit

ZeroIsDone-bind :
    {A : Type 0} (m : Run State A) (k : A → Cmd State ℤ)
    → ((a : A) (s : State) → ZeroIsDone (k a s))
    → ZeroIsDone (and_then m k)
ZeroIsDone-bind (ok a s) k next = next a s
ZeroIsDone-bind crash k next = tt
ZeroIsDone-bind out_of_fuel k next = tt

nonzero : (n : ℕ) (s : State) → negsuc n ≡ pos 0 → s.test.state ≡ iperf_done
nonzero n s e = grind arith

one : (s : State) → pos 1 ≡ pos 0 → s.test.state ≡ iperf_done
one s e = grind arith

module _ (J : Json) (listen : Cmd State ℤ) (k : ℕ) (junk : List ℕ) where
  server_loop-ZeroIsDone : (n : ℕ) (s : State) → ZeroIsDone (server_loop J listen k junk n s)
  unfolding server_loop
  server_loop-ZeroIsDone zero s = tt
  server_loop-ZeroIsDone (suc n) s = elim (Bool-cases (s.test.state ==ℤ iperf_done)) [
    | inl t ↦ rw t (λ _. (==ℤ_iff s.test.state iperf_done).0 t)
    | inr f ↦ rw f (
        ZeroIsDone-bind
          ((if s.test.state ==ℤ create_streams then pure (pos 0) else iperf_accept J listen k junk)
            s)
          _
          λ r s1. elim (Bool-cases (is_neg r)) [
            | inl t ↦ rw t (nonzero 0 s1)
            | inr f ↦ rw f (
                ZeroIsDone-bind (lift (syscall (epoll_wait s1.test.epoll_fd)) s1) _ λ nevents s2.
                  elim (Bool-cases (nevents ==ℤ minus_one)) [
                    | inl t ↦ rw t (one s2)
                    | inr f ↦ rw f (server_loop-ZeroIsDone n s2)
                  ])
          ])
  ]

  iperf_run_server-ZeroIsDone :
      (n : ℕ) (s : State) → ZeroIsDone (iperf_run_server J listen k junk n s)
  unfolding iperf_run_server
  iperf_run_server-ZeroIsDone n s = ZeroIsDone-bind (iperf_create_epoll s) _ λ r s1.
      elim (Bool-cases (is_neg r)) [
        | inl t ↦ rw t (nonzero 1 s1)
        | inr f ↦ rw f (
            ZeroIsDone-bind (iperf_server_listen s1) _ λ r s2. elim (Bool-cases (is_neg r)) [
              | inl t ↦ rw t (nonzero 1 s2)
              | inr f ↦ rw f (
                  ZeroIsDone-bind (iperf_create_timerfd s2) _ λ r s3. elim (Bool-cases (is_neg r)) [
                    | inl t ↦ rw t (nonzero 1 s3)
                    | inr f ↦ rw f (server_loop-ZeroIsDone n s3)
                  ])
            ])
      ]

  -- A server that returns 0 is in the state IPERF_DONE.
  pub iperf_run_server-done :
      (n : ℕ) (s s' : State)
      → iperf_run_server J listen k junk n s ≡ ok (pos 0) s'
      → s'.test.state ≡ iperf_done
  iperf_run_server-done n s s' run = subst ZeroIsDone run (iperf_run_server-ZeroIsDone n s) refl

  -- In CREATE_STREAMS the loop of `iperf_run_server` goes on for ever, while no call fails: it
  -- has not ended after any number of turns.
  pub server_loop-stuck :
      (n : ℕ) (s : State)
      → s.test.state ≡ create_streams
      → IsReliable s.world.reply
      → server_loop J listen k junk n s ≡ out_of_fuel
  unfolding server_loop syscall
  server_loop-stuck zero s e reliable = refl
  server_loop-stuck (suc n) s e reliable =
      let (m, r) = reliable s.world.clock in
      let d : (s.test.state ==ℤ iperf_done) ≡ false = rw e refl in
      let c : (s.test.state ==ℤ create_streams) ≡ true = rw e refl in
      rw (d, c, syscall, r)
        (server_loop-stuck n (record s { world = tick (epoll_wait s.test.epoll_fd) s.world }) e
          reliable)
