-- ===== src/Control.antt =====
-- The control connection: its states, `iperf_set_send_state`, `iperf_exchange_parameters`, and the
-- epoll and timer descriptors, of iperf/src/iperf_api.c.
pub mod SendState
pub mod Failures
pub mod Timer
pub mod Halting
pub mod Interrupted
pub mod Errno
use kernel_testkit.Base.{
  ℕ, ◌==◌, ◌/◌, ◌%◌, Bool, true, false, not, ◌&&◌, if◌then◌else◌, Option, none, some, List, [], ◌∷◌,
}
use Prim.Native.String.{String}
use kernel_testkit.Base.Int.{ℤ, pos, negsuc, minus_one, is_neg, ◌==ℤ◌, wrap}
use kernel_testkit.Base.Run.{ok, crash, Cmd, pure, ◌>>=◌, ◌>>◌}
use kernel_testkit.Links.{null}
use kernel_testkit.World.{
  get_errno, set_errno, econnrefused, eprototype, syscall, syscall_unit, syscall_value,
  epoll_create, timerfd_create, timerfd_settime, epoll_add, epoll_del, close, getpeername,
}
use kernel_testkit.Net.{nwrite}
use kernel_testkit.Test.{Test, State, gets, modify, lift}
use kernel_testkit.Json.{Json}
use kernel_testkit.Wire.{htonl}
use kernel_testkit.Params.{send_parameters, get_parameters}

-- The states of iperf/include/iperf_api.h that the program sends or tests for.
abbrev pub param_exchange : ℤ
param_exchange = pos 9

abbrev pub create_streams : ℤ
create_streams = pos 10

abbrev pub iperf_done : ℤ
iperf_done = pos 16

abbrev pub access_denied : ℤ
access_denied = minus_one

abbrev pub server_error : ℤ
server_error = negsuc 1

-- One `signed char` on the wire.
abbrev pub state_byte : ℤ → List ℕ
state_byte state = wrap 8 state ∷ []

unfoldable pub iperf_set_send_state : ℤ → Cmd State ℤ
unfolding set_errno
iperf_set_send_state state = do
  modify (λ t. record t { state = state })
  fd ← gets (λ t. t.ctrl_sck)
  r ← lift (nwrite fd (state_byte state))
  if is_neg r then lift (do set_errno econnrefused; pure minus_one) else pure (pos 0)

-- `err = htonl(errno)`, and the write of it.
unfoldable pub send_errno : Cmd State ℤ
unfolding get_errno set_errno
send_errno = do
  fd ← gets (λ t. t.ctrl_sck)
  e ← lift get_errno
  r ← lift (nwrite fd (htonl e))
  if is_neg r then lift (do set_errno eprototype; pure minus_one) else pure (pos 0)

-- What the server does after `listen` has failed; every way out returns -1.
unfoldable pub report_error : Cmd State ℤ
report_error = do
  r ← iperf_set_send_state server_error
  if not (r ==ℤ pos 0)
      then pure minus_one
      else do r ← send_errno; if is_neg r then pure minus_one else do _ ← send_errno; pure minus_one

-- `listen` is the protocol's function of that name, which is not in the repository.
module _ (J : Json) (listen : Cmd State ℤ) (k : ℕ) (junk : List ℕ) where
  -- `test->protocol->listen(test)`; the protocol may be NULL.
  unfoldable pub protocol_listen : Cmd State ℤ
  protocol_listen s = if s.test.protocol == null then crash else listen s

  unfoldable pub exchange_as_server : Cmd State ℤ
  exchange_as_server = do
    got ← get_parameters J k junk
    if is_neg got then pure minus_one else do
      s ← protocol_listen
      if is_neg s then report_error else do
        r ← iperf_set_send_state create_streams
        pure (if r ==ℤ pos 0 then pos 0 else minus_one)

  unfoldable pub iperf_exchange_parameters : Cmd State ℤ
  iperf_exchange_parameters = do
    role ← gets (λ t. t.role)
    if role == 99
        then (do r ← send_parameters J; pure (if is_neg r then minus_one else pos 0))
        else exchange_as_server

unfoldable pub iperf_create_epoll : Cmd State ℤ
unfolding syscall
iperf_create_epoll = do
  fd ← lift (syscall epoll_create)
  modify (λ t. record t { epoll_fd = fd })
  pure (if fd ==ℤ minus_one then pos 1 else pos 0)

unfoldable pub iperf_create_timerfd : Cmd State ℤ
unfolding syscall
iperf_create_timerfd = do
  fd ← lift (syscall timerfd_create)
  modify (λ t. record t { timer_fd = fd })
  pure (if fd ==ℤ minus_one then minus_one else pos 0)

-- Both descriptors are closed, and -1 returned.
unfoldable pub close_both : Test → Cmd State ℤ
unfolding syscall_unit
close_both t = do
  _ ← lift (syscall_unit (close t.timer_fd))
  _ ← lift (syscall_unit (close t.epoll_fd))
  pure minus_one

-- The timer fires every second.
unfoldable pub iperf_register_timerfd : Cmd State ℤ
unfolding syscall_unit close_both
iperf_register_timerfd = do
  t ← gets (λ t. t)
  r ← lift (syscall_unit (timerfd_settime t.timer_fd 1))
  if r ==ℤ minus_one then close_both t else do
    r ← lift (syscall_unit (epoll_add t.epoll_fd t.timer_fd))
    if r ==ℤ minus_one then close_both t else pure (pos 0)

unfoldable pub iperf_deregister_timerfd : Cmd State ℤ
unfolding syscall_unit
iperf_deregister_timerfd = do
  t ← gets (λ t. t)
  r ← lift (syscall_unit (epoll_del t.epoll_fd t.timer_fd))
  if not (r ==ℤ minus_one)
      then pure (pos 0)
      else do _ ← lift (syscall_unit (close t.timer_fd)); pure minus_one
