-- ===== src/Server.antt =====
-- iperf/src/iperf_server_api.c
pub mod Accept
pub mod Handshake
pub mod Machine
pub mod Phases
pub mod Refusal
pub mod Refinement
pub mod Loop
pub mod Served
pub mod Session
pub mod Waiting
pub mod Whole
pub mod Halting
pub mod Termination
use kernel_testkit.Base.{
  ℕ, zero, suc, ◌==◌, Bool, true, false, not, ◌&&◌, if◌then◌else◌, Option, none, some, List, [],
  ◌∷◌,
}
use kernel_testkit.Base.Int.{ℤ, pos, negsuc, minus_one, is_neg, ◌==ℤ◌}
use kernel_testkit.Base.Run.{ok, crash, out_of_fuel, Cmd, pure, ◌>>=◌, ◌>>◌}
use kernel_testkit.World.{
  set_errno, econnrefused, econnreset, enetreset, syscall, syscall_unit, accept, close, epoll_wait,
}
use kernel_testkit.Net.{nwrite}
use kernel_testkit.Sockets.{netannounce, sock_stream}
use kernel_testkit.Test.{Test, State, gets, modify, lift}
use kernel_testkit.Json.{Json}
use kernel_testkit.Report.{print_text, iperf_printf, iperf_on_connect}
use kernel_testkit.Control.{
  param_exchange, create_streams, iperf_done, access_denied, state_byte, iperf_set_send_state,
  iperf_exchange_parameters, iperf_create_epoll, iperf_create_timerfd,
}

-- `errno = e; return -1;`
abbrev pub fail_with : ℕ → Cmd State ℤ
fail_with e = lift (do set_errno e; pure minus_one)

unfoldable pub iperf_server_listen : Cmd State ℤ
unfolding set_errno
iperf_server_listen = do
  t ← gets (λ t. t)
  s ← lift (netannounce t.settings.domain sock_stream t.bind_address t.server_port)
  modify (λ t. record t { listener = s })
  if is_neg s then fail_with enetreset else pure (pos 0)

-- A second client is told so, and its connection closed.
unfoldable pub deny : ℤ → Cmd State ℤ
unfolding set_errno syscall_unit
deny s = do
  r ← lift (nwrite s (state_byte access_denied))
  if is_neg r then fail_with econnrefused else do _ ← lift (syscall_unit (close s)); pure (pos 0)

module _ (J : Json) (listen : Cmd State ℤ) (k : ℕ) (junk : List ℕ) where
  -- The server is free: the new client is served.
  unfoldable pub serve : ℤ → Cmd State ℤ
  serve s = do
    modify (λ t. record t { ctrl_sck = s })
    r ← iperf_set_send_state param_exchange
    if not (r ==ℤ pos 0) then pure minus_one else do
      r ← iperf_exchange_parameters J listen k junk
      if is_neg r then pure minus_one else do
        has ← gets (λ t. t.on_connect)
        if has then iperf_on_connect >> pure (pos 0) else pure (pos 0)

  unfoldable pub iperf_accept : Cmd State ℤ
  unfolding set_errno syscall
  iperf_accept = do
    t ← gets (λ t. t)
    s ← lift (syscall (accept t.listener))
    if is_neg s
        then fail_with econnreset
        else (if t.ctrl_sck ==ℤ minus_one then serve s else deny s)

  -- The `while` loop of `iperf_run_server`. The loop over the events does nothing.
  unfoldable pub server_loop : ℕ → Cmd State ℤ
  unfolding syscall
  server_loop zero s = out_of_fuel
  server_loop (suc n) s =
      let rest = server_loop n in
      if s.test.state ==ℤ iperf_done
      then ok (pos 0) s
      else (do
        r ← if s.test.state ==ℤ create_streams then pure (pos 0) else iperf_accept
        if is_neg r then pure minus_one else do
          epoll_fd ← gets (λ t. t.epoll_fd)
          nevents ← lift (syscall (epoll_wait epoll_fd))
          if nevents ==ℤ minus_one then pure (pos 1) else rest)
          s

  unfoldable pub iperf_run_server : ℕ → Cmd State ℤ
  iperf_run_server n = do
    r ← iperf_create_epoll
    if is_neg r then pure (negsuc 1) else do
      r ← iperf_server_listen
      if is_neg r
          then pure (negsuc 1)
          else do r ← iperf_create_timerfd; if is_neg r then pure (negsuc 1) else server_loop n
