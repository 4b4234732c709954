-- ===== src/Sockets.antt =====
-- iperf/src/net.c: the calls that create a socket and set its options.
pub mod Announce
pub mod Options
pub mod Port
use kernel_testkit.Base.{
  ℕ, zero, suc, ◌+◌, ◌-◌, ◌/◌, ◌%◌, ltb, ◌≡◌, Bool, true, false, not, ◌&&◌, List, [], ◌∷◌, ◌++◌,
  ◌==◌, if◌then◌else◌, Option, none, some, take,
}
use Prim.Native.String.{String}
use kernel_testkit.Base.Text.{decimal}
use kernel_testkit.Base.Int.{ℤ, pos, negsuc, minus_one, pos_part, is_neg, ◌==ℤ◌, truth}
use kernel_testkit.Base.Run.{ok, Cmd, pure, crash, ◌>>=◌, ◌>>◌}
use kernel_testkit.World.{
  World, syscall, syscall_unit, syscall_value, getsockopt, setsockopt, fcntl_getfl, fcntl_setfl,
  tcp_maxseg, tcp_nodelay, so_reuseaddr, getaddrinfo, freeaddrinfo, socket, bind, listen, close,
  getsockname,
}

-- `SOCK_STREAM`, and the address families of Linux.
abbrev pub sock_stream : ℤ
sock_stream = pos 1

abbrev pub sock_dgram : ℤ
sock_dgram = pos 2

abbrev pub af_unspec : ℤ
af_unspec = pos 0

abbrev pub af_inet : ℤ
af_inet = pos 2

abbrev pub af_inet6 : ℤ
af_inet6 = pos 10

-- `assert` aborts.
abbrev assert : Bool → Cmd World (Unit {0})
assert b w = if b then ok tt w else crash

unfoldable pub getsock_tcp_mss : ℤ → Cmd World ℤ
unfolding syscall_value
getsock_tcp_mss in_sock = do
  assert (not (is_neg in_sock))
  mss ← syscall_value (getsockopt in_sock tcp_maxseg)
  pure (elim mss [ none ↦ minus_one | some v ↦ pos v ])

-- The second half of `set_tcp_options`: the MSS is set, and read back.
unfoldable pub set_mss : (sock mss : ℤ) → Cmd World ℤ
unfolding syscall_unit syscall_value
set_mss sock mss = do
  assert (not (sock ==ℤ minus_one))
  rc ← syscall_unit (setsockopt sock tcp_maxseg mss)
  if rc ==ℤ minus_one then pure minus_one else do
    new_mss ← syscall_value (getsockopt sock tcp_maxseg)
    pure (elim new_mss [ none ↦ minus_one | some v ↦ if pos v ==ℤ mss then pos 0 else minus_one ])

unfoldable pub set_tcp_options : (sock no_delay mss : ℤ) → Cmd World ℤ
unfolding set_mss syscall_unit
set_tcp_options sock no_delay mss = do
  rc ←
      if no_delay ==ℤ pos 1
      then syscall_unit (setsockopt sock tcp_nodelay no_delay)
      else pure (pos 0)
  if rc ==ℤ minus_one
      then pure minus_one
      else (if ltb 0 (pos_part mss) then set_mss sock mss else pure (pos 0))

-- `O_NONBLOCK` is the bit 2048 of the flags.
abbrev pub is_nonblocking : ℕ → Bool
is_nonblocking flags = (flags / 2048) % 2 == 1

-- `flags | O_NONBLOCK` and `flags & ~O_NONBLOCK`.
abbrev pub with_nonblock : ℕ → ℕ
with_nonblock flags = if is_nonblocking flags then flags else flags + 2048

abbrev pub without_nonblock : ℕ → ℕ
without_nonblock flags = if is_nonblocking flags then flags - 2048 else flags

-- What the flags shall be.
unfoldable pub new_flags : (nonblocking : ℤ) → ℕ → ℕ
new_flags nonblocking flags =
    if truth nonblocking then with_nonblock flags else without_nonblock flags

unfoldable pub setnonblocking : (fd nonblocking : ℤ) → Cmd World ℤ
unfolding syscall syscall_unit
setnonblocking fd nonblocking = do
  flags ← syscall (fcntl_getfl fd)
  if is_neg flags then pure minus_one else do
    let newflags = new_flags nonblocking (pos_part flags)
    if newflags == pos_part flags then pure (pos 0) else do
      rc ← syscall_unit (fcntl_setfl fd newflags)
      pure (if is_neg rc then minus_one else pos 0)

-- `snprintf(portstr, 6, "%d", port)` keeps five characters.
unfoldable pub portstr : ℤ → List ℕ
portstr port = take 5 (decimal port)

-- The branch that every failure after `socket` takes.
unfoldable pub give_up : ℤ → Cmd World ℤ
unfolding syscall_unit
give_up s = do _ ← syscall_unit (close s); _ ← syscall_unit freeaddrinfo; pure minus_one

-- The last step: `freeaddrinfo`, and `listen` on a stream socket.
unfoldable pub announce : (s proto : ℤ) → Cmd World ℤ
unfolding syscall_unit
announce s proto = do
  _ ← syscall_unit freeaddrinfo
  if not (proto ==ℤ sock_stream) then pure s else do
    rc ← syscall_unit (listen s 5)
    if not (is_neg rc) then pure s else do _ ← syscall_unit (close s); pure minus_one

-- `local` is NULL where it is `none`; `getaddrinfo` answers with the family of its first result.
unfoldable pub netannounce : (domain proto : ℤ) → Option String → (port : ℤ) → Cmd World ℤ
unfolding syscall syscall_unit syscall_value give_up announce
netannounce domain proto local port = do
  let unspecified = (domain ==ℤ af_unspec) && elim local [ none ↦ true | some _ ↦ false ]
  let hint = if unspecified then af_inet6 else domain
  res ← syscall_value (getaddrinfo hint local (portstr port))
  elim res [
    | none ↦ pure minus_one
    | some family ↦ do
      s ← syscall (socket family proto)
      if is_neg s then (do _ ← syscall_unit freeaddrinfo; pure minus_one) else do
        opt ← syscall_unit (setsockopt s so_reuseaddr (pos 1))
        if is_neg opt
            then give_up s
            else do rc ← syscall_unit (bind s); if is_neg rc then give_up s else announce s proto
  ]

-- The address family of the socket's own address.
unfoldable pub getsockdomain : ℤ → Cmd World ℤ
unfolding syscall_value
getsockdomain sock = do
  family ← syscall_value (getsockname sock)
  pure (elim family [ none ↦ minus_one | some f ↦ pos f ])
