-- ===== src/Server/Waiting.antt =====
-- The loop of `iperf_run_server` after the handshake: it waits for events until the kernel fails.
use kernel_testkit.Base.{ℕ, zero, suc, ◌+◌, ◌≤◌, ◌<◌, ◌≡◌, refl, sym, ap, true, false, List, arith}
use kernel_testkit.Base.Int.{ℤ, pos, ◌==ℤ◌}
use kernel_testkit.Base.Run.{Cmd, Returns}
use kernel_testkit.World.{done, fail, syscall, epoll_wait, tick}
use kernel_testkit.Test.{State}
use kernel_testkit.Json.{Json}
use kernel_testkit.Control.{create_streams, iperf_done}
use kernel_testkit.Server.{server_loop}

-- The loop has returned 1 at the call whose number is `last`, which failed with `e`.
abbrev pub Woken : State → (last e : ℕ) → ℤ → State → Type 0
Woken s last e r s' =
    (r ≡ pos 1)
    × (s'.test ≡ s.test)
    × (s'.world.outbox ≡ s.world.outbox)
    × (s'.world.inbox ≡ s.world.inbox)
    × (s'.world.clock ≡ suc last)
    × (s'.world.errno ≡ e)

module _ (J : Json) (listen : Cmd State ℤ) (k : ℕ) (junk : List ℕ) where
  -- In the state CREATE_STREAMS, with a kernel that fails for the first time at its call number
  -- `last`, the loop of `iperf_run_server` with more turns than calls until then ends just after
  -- that call: it returns 1 with the test as it was, nothing sent or read, and `errno` as of
  -- that call.
  pub server_loop-Woken :
      (more turns : ℕ) (s : State) (last e : ℕ)
      → s.test.state ≡ create_streams
      → last ≡ s.world.clock + more
      → more < turns
      → ((i : ℕ) → s.world.clock ≤ i → i < last → (n : ℕ) × (s.world.reply i ≡ done n))
      → s.world.reply last ≡ fail e
      → Returns (Woken s last e) (server_loop J listen k junk turns s)
  unfolding server_loop
  server_loop-Woken more zero s last e st count fuel fine bad = absurd (omega arith)
  server_loop-Woken zero (suc turns) s last e st count fuel fine bad =
      let over : (s.test.state ==ℤ iperf_done) ≡ false = rw st refl in
      let starting : (s.test.state ==ℤ create_streams) ≡ true = rw st refl in
      let here : last ≡ s.world.clock = omega arith in
      let f : s.world.reply s.world.clock ≡ fail e = (rw here at bad) in
      rw (over, starting, syscall, f) (refl, refl, refl, refl, ap suc (sym here), refl)
  server_loop-Woken (suc more) (suc turns) s last e st count fuel fine bad =
      let over : (s.test.state ==ℤ iperf_done) ≡ false = rw st refl in
      let starting : (s.test.state ==ℤ create_streams) ≡ true = rw st refl in
      let (n, d) = fine s.world.clock (omega arith) (omega arith) in
      let s1 = record s { world = tick (epoll_wait s.test.epoll_fd) s.world } in
      rw (over, starting, syscall, d)
        (server_loop-Woken more turns s1 last e st (omega arith) (omega arith)
          (λ i low high. fine i (omega arith) high) bad)
