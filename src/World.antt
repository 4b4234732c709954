-- ===== src/World.antt =====
-- What the program sees of the kernel and the C library: each call is answered by the next of an
-- arbitrary sequence of replies, bytes go in and out of descriptors, and the calls are logged.
pub mod Laws
use kernel_testkit.Base.{
  ◌==◌, ℕ, zero, suc, ◌+◌, ◌-◌, ◌≡◌, refl, ◌⊎◌, inl, inr, Bool, true, false, Option, none, some,
  List, [], ◌∷◌, ◌++◌, if◌then◌else◌, length, take, drop, min,
}
use Prim.Native.String.{String}
use kernel_testkit.Base.Int.{ℤ, pos, negsuc, minus_one, ◌==ℤ◌}
use kernel_testkit.Base.Run.{Run, ok, Cmd}

-- Linux error numbers.
abbrev pub eintr : ℕ
eintr = 4

-- `EAGAIN`, which is `EWOULDBLOCK` too.
abbrev pub eagain : ℕ
eagain = 11

abbrev pub eprototype : ℕ
eprototype = 91

abbrev pub enetreset : ℕ
enetreset = 102

abbrev pub econnreset : ℕ
econnreset = 104

abbrev pub enobufs : ℕ
enobufs = 105

abbrev pub econnrefused : ℕ
econnrefused = 111

-- Success with a number (a count, a descriptor, an option's value, or nothing of interest), or
-- failure with an error number.
pub data Reply : Type 0 where
  done fail : ℕ → Reply

pub data SockOpt : Type 0 where
  tcp_maxseg tcp_nodelay so_reuseaddr : SockOpt

pub data Call : Type 0 where
  read write : ℤ → ℕ → Call
  getsockopt : ℤ → SockOpt → Call
  setsockopt : ℤ → SockOpt → ℤ → Call
  fcntl_getfl : ℤ → Call
  fcntl_setfl : ℤ → ℕ → Call
  getaddrinfo : ℤ → Option String → List ℕ → Call
  freeaddrinfo : Call
  socket : ℕ → ℤ → Call
  bind : ℤ → Call
  listen : ℤ → ℕ → Call
  close : ℤ → Call
  accept : ℤ → Call
  getsockname : ℤ → Call
  epoll_create timerfd_create : Call
  timerfd_settime : ℤ → ℕ → Call
  epoll_add epoll_del : ℤ → ℤ → Call
  epoll_wait : ℤ → Call
  calloc free : ℕ → Call
  getpeername : ℤ → Call

pub record World : Type 0 where
  pub errno : ℕ
  pub clock : ℕ
  pub reply : ℕ → Reply
  pub inbox : ℤ → List ℕ
  pub outbox : ℤ → List ℕ
  pub log : List (Call × Reply)

abbrev pub update : (ℤ → List ℕ) → ℤ → List ℕ → ℤ → List ℕ
update f a v b = if b ==ℤ a then v else f b

-- The call is made: it is logged with its reply, newest first, and the next one gets the next.
abbrev pub tick : Call → World → World
tick c w = record w { clock = suc w.clock; log = (c, w.reply w.clock) ∷ w.log }

pub Reply-cases : (r : Reply) → ((n : ℕ) × (r ≡ done n)) ⊎ ((e : ℕ) × (r ≡ fail e))
Reply-cases (done n) = inl (n, refl)
Reply-cases (fail e) = inr (e, refl)

-- A call that returns a number, or -1 with `errno` set.
unfoldable pub syscall : Call → Cmd World ℤ
syscall c w = elim (w.reply w.clock) [
  | done n ↦ ok (pos n) (tick c w)
  | fail e ↦ ok minus_one (record (tick c w) { errno = e })
]

-- A call whose only results are success, here 0, and -1.
unfoldable pub syscall_unit : Call → Cmd World ℤ
syscall_unit c w = elim (w.reply w.clock) [
  | done n ↦ ok (pos 0) (tick c w)
  | fail e ↦ ok minus_one (record (tick c w) { errno = e })
]

-- A call that stores a value: `none` where it returns -1.
unfoldable pub syscall_value : Call → Cmd World (Option ℕ)
syscall_value c w = elim (w.reply w.clock) [
  | done n ↦ ok (some n) (tick c w)
  | fail e ↦ ok none (record (tick c w) { errno = e })
]

-- The state after a `read` of up to `count` bytes that took `m`, and after a `write` of `buf` that
-- took `n` of its bytes.
abbrev pub taken : ℤ → (count m : ℕ) → World → World
taken fd count m w = record (tick (read fd count) w) {
  inbox = update w.inbox fd (drop m (w.inbox fd));
}

abbrev pub given : ℤ → List ℕ → ℕ → World → World
given fd buf n w = record (tick (write fd (length buf)) w) {
  outbox = update w.outbox fd (w.outbox fd ++ take n buf);
}

-- `read(fd, buf, count)`: what it returns, and the bytes stored at `buf`. It delivers no more
-- than `count` bytes, and 0 at the end of the input.
unfoldable pub read_bytes : ℤ → ℕ → Cmd World (ℤ × List ℕ)
read_bytes fd count w = elim (w.reply w.clock) [
  | done n ↦
      let got = take (min n count) (w.inbox fd) in
      ok (pos (length got), got) (taken fd count (min n count) w)
  | fail e ↦ ok (minus_one, []) (record (tick (read fd count) w) { errno = e })
]

-- `write(fd, buf, count)` of the bytes `buf`: how many it took, no more than there are, or -1.
unfoldable pub write_bytes : ℤ → List ℕ → Cmd World ℤ
write_bytes fd buf w = elim (w.reply w.clock) [
  | done n ↦ ok (pos (length (take n buf))) (given fd buf n w)
  | fail e ↦ ok minus_one (record (tick (write fd (length buf)) w) { errno = e })
]

-- `free(p)`, which cannot fail.
abbrev pub release : ℕ → Cmd World (Unit {0})
release p w = ok tt (tick (free p) w)

unfoldable pub get_errno : Cmd World ℕ
get_errno w = ok w.errno w

unfoldable pub set_errno : ℕ → Cmd World (Unit {0})
set_errno e w = ok tt (record w { errno = e })

-- The descriptors that the calls of a log have opened and not closed, the newest first.
abbrev pub opens : Call → Bool
opens (socket family proto) = true
opens (accept fd) = true
opens epoll_create = true
opens timerfd_create = true
opens _ = false

abbrev pub erase : ℤ → List ℤ → List ℤ
erase a [] = []
erase a (x ∷ xs) = if a ==ℤ x then xs else x ∷ erase a xs

unfoldable pub held : List (Call × Reply) → List ℤ
held [] = []
held ((close fd, _) ∷ log) = erase fd (held log)
held ((c, fail e) ∷ log) = held log
held ((c, done n) ∷ log) = if opens c then pos n ∷ held log else held log

-- The results of `getaddrinfo` that have not been freed.
unfoldable pub addresses : List (Call × Reply) → ℕ
addresses [] = 0
addresses ((freeaddrinfo, _) ∷ log) = addresses log - 1
addresses ((getaddrinfo f l p, done n) ∷ log) = suc (addresses log)
addresses ((c, r) ∷ log) = addresses log

-- The blocks that `calloc` has handed out and that have not been freed, the newest first.
abbrev pub drop_block : ℕ → List ℕ → List ℕ
drop_block p [] = []
drop_block p (x ∷ xs) = if p == x then xs else x ∷ drop_block p xs

unfoldable pub blocks : List (Call × Reply) → List ℕ
blocks [] = []
blocks ((free p, _) ∷ log) = drop_block p (blocks log)
blocks ((calloc n, done p) ∷ log) = p ∷ blocks log
blocks ((c, r) ∷ log) = blocks log
