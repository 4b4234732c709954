-- ===== src/Net.antt =====
-- iperf/src/net.c
pub mod Read
pub mod Progress
pub mod Write
pub mod Interrupted
pub mod Byte
pub mod Errno
use kernel_testkit.Base.{
  ltb, ◌/◌, ◌%◌, ℕ, zero, suc, ◌+◌, ◌-◌, ◌≡◌, Bool, true, false, ◌||◌, not, List, [], ◌∷◌, ◌++◌,
  ◌==◌, if◌then◌else◌, length, drop, Option, none, some,
}
use kernel_testkit.Base.Int.{truth, ℤ, pos, negsuc, minus_one, pos_part, is_neg, ◌==ℤ◌, to_int}
use kernel_testkit.Base.Run.{ok, Cmd, pure, crash, out_of_fuel, ◌>>=◌, ◌>>◌}
use kernel_testkit.World.{
  syscall, syscall_unit, syscall_value, SockOpt, Call, Reply, getsockopt, setsockopt, fcntl_getfl,
  fcntl_setfl, tcp_maxseg, tcp_nodelay, World, read_bytes, write_bytes, get_errno, eintr, eagain,
  enobufs,
}

abbrev pub net_softerror : ℤ
net_softerror = minus_one

abbrev pub net_harderror : ℤ
net_harderror = negsuc 1

-- The loop of `Nread`, with `nleft` bytes to come and those stored so far.
unfoldable pub nread_loop : ℤ → (count k nleft : ℕ) → List ℕ → Cmd World (ℤ × List ℕ)
unfolding read_bytes get_errno
nread_loop fd count zero nleft buf = λ _. out_of_fuel
nread_loop fd count (suc k) nleft buf =
    if nleft == 0 then pure (to_int (pos (count - nleft)), buf) else do
      (r, got) ← read_bytes fd nleft
      if is_neg r
          then (do
            e ← get_errno
            if (e == eintr) || ((e == eagain) || (e == eagain))
                then pure (to_int (pos (count - nleft)), buf)
                else pure (net_harderror, buf))
          else (let rest = nread_loop fd count k (nleft - pos_part r) (buf ++ got) in
              if r ==ℤ pos 0 then pure (to_int (pos (count - nleft)), buf) else rest)

-- What `Nread` returns, and the bytes that it has stored at `buf`.
unfoldable pub nread : ℤ → ℕ → Cmd World (ℤ × List ℕ)
unfolding nread_loop
nread fd count = nread_loop fd count (count + 1) count []

-- The loop of `Nwrite`, with the bytes that are left.
unfoldable pub nwrite_loop : ℤ → (count k : ℕ) → List ℕ → Cmd World ℤ
unfolding write_bytes get_errno
nwrite_loop fd count zero buf = λ _. out_of_fuel
nwrite_loop fd count (suc k) buf = if length buf == 0 then pure (to_int (pos count)) else do
  r ← write_bytes fd buf
  if is_neg r
      then (do
        e ← get_errno
        if (e == eintr) || (e == eagain)
            then pure (to_int (pos (count - length buf)))
            else pure (if e == enobufs then net_softerror else net_harderror))
      else (let rest = nwrite_loop fd count k (drop (pos_part r) buf) in
          if r ==ℤ pos 0 then pure net_softerror else rest)

unfoldable pub nwrite : ℤ → List ℕ → Cmd World ℤ
unfolding nwrite_loop
nwrite fd buf = nwrite_loop fd (length buf) (length buf + 1) buf
