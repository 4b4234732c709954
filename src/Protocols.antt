-- ===== src/Protocols.antt =====
-- The protocol list of iperf/src/iperf_api.c, and the fields that follow from the protocol, the
-- role and the direction.
pub mod Find
pub mod Role
pub mod Defaults
use kernel_testkit.Base.{
  ℕ, zero, suc, ◌==◌, Bool, true, false, ◌&&◌, Option, none, some, if◌then◌else◌,
}
use kernel_testkit.Base.Int.{ℤ, pos, minus_one, truth, of_bool, ◌==ℤ◌}
use kernel_testkit.Base.Run.{ok, Cmd, out_of_fuel, ◌>>=◌, ◌>>◌, pure}
use mathlib.Core.Bool.{not}
use kernel_testkit.Links.{Ptr, null, init_list_head, list_add_tail}
use kernel_testkit.World.{syscall_value, release, calloc}
use kernel_testkit.Test.{Test, State, Memory, gets, modify, settings, protocol_id, lift}
use kernel_testkit.Sockets.{sock_stream, af_unspec}

-- `Ptcp`
abbrev pub ptcp : ℤ
ptcp = sock_stream

unfoldable pub check_sender_has_retransmits : Cmd State (Unit {0})
unfolding protocol_id
check_sender_has_retransmits = do
  sender ← gets (λ t. t.sender)
  if not (truth sender) then modify (λ t. record t { sender_has_retransmits = pos 0 }) else do
    id ← protocol_id
    modify (λ t. record t { sender_has_retransmits = of_bool (id ==ℤ ptcp) })

-- `!`
abbrev pub negate : ℤ → ℤ
negate a = of_bool (not (truth a))

-- The sender as the role says, before the direction is looked at; 'c' is 99 and 's' is 115.
abbrev pub sender_of_role : ℕ → ℤ → ℤ
sender_of_role role sender = if role == 99 then pos 1 else (if role == 115 then pos 0 else sender)

unfoldable pub iperf_set_test_role : ℕ → Cmd State (Unit {0})
unfolding check_sender_has_retransmits
iperf_set_test_role role = do
  modify (λ t. record t { role = role; sender = sender_of_role role t.sender })
  modify (λ t. record t { sender = if truth t.reverse then negate t.sender else t.sender })
  check_sender_has_retransmits

unfoldable pub iperf_set_test_reverse : ℤ → Cmd State (Unit {0})
unfolding check_sender_has_retransmits
iperf_set_test_reverse reverse = do
  modify λ t. record t {
    reverse = reverse;
    sender = if truth reverse then negate t.sender else t.sender;
  }
  check_sender_has_retransmits

-- The walk of `get_protocol` and `set_protocol` over the list: where it stops, which is the head
-- if no protocol has this id.
unfoldable pub find_loop : ℕ → ℤ → (here : Ptr) → Cmd State Ptr
find_loop zero prot_id here s = out_of_fuel
find_loop (suc k) prot_id here s =
    let rest = find_loop k prot_id (s.memory.links.next here) s in
    if here == s.test.protocols
    then ok here s
    else (if s.memory.id here ==ℤ prot_id then ok here s else rest)

-- The address that is returned; the code tests it for NULL only to print a message.
unfoldable pub get_protocol : ℕ → ℤ → Cmd State Ptr
unfolding find_loop
get_protocol k prot_id s = find_loop k prot_id (s.memory.links.next s.test.protocols) s

unfoldable pub set_protocol : ℕ → ℤ → Cmd State ℤ
unfolding find_loop check_sender_has_retransmits
set_protocol k prot_id = do
  head ← gets (λ t. t.protocols)
  prot ← λ s. find_loop k prot_id (s.memory.links.next head) s
  if prot == head
      then pure minus_one
      else do modify (λ t. record t { protocol = prot }); check_sender_has_retransmits; pure (pos 0)

-- NULL where `calloc` fails.
unfoldable pub protocol_new : Cmd State Ptr
unfolding syscall_value
protocol_new = do p ← lift (syscall_value (calloc 80)); pure (elim p [ none ↦ null | some a ↦ a ])

unfoldable pub protocol_free : Ptr → Cmd State (Unit {0})
protocol_free proto = lift (release proto)

abbrev default_settings : Test → Test
default_settings = settings λ s. record s {
  domain = af_unspec;
  unit_format = 97;
  socket_bufsize = pos 0;
  blksize = pos 131072;
  rate = 0;
  fqrate = 0;
  pacing_timer = pos 1000;
  burst = pos 0;
  mss = pos 0;
  bytes = 0;
  blocks = 0;
  connect_timeout = minus_one;
}

abbrev pub on_links : (Memory → Memory) → Cmd State (Unit {0})
on_links f s = ok tt (record s { memory = f s.memory })

-- The source passes `tcp` without declaring it and gives `list_add_tail` three arguments; read
-- here as `list_add_tail(&tcp->list, &testp->protocols)`.
unfoldable pub iperf_defaults : Cmd State ℤ
unfolding protocol_new
iperf_defaults = do
  modify λ t. record t {
    duration = pos 10;
    affinity = minus_one;
    server_affinity = minus_one;
    cpumask = λ _. false;
    server_port = pos 5201;
    ctrl_sck = minus_one;
    epoll_fd = minus_one;
    timer_fd = minus_one;
    num_streams = pos 1;
  }
  modify default_settings
  streams ← gets (λ t. t.streams)
  protocols ← gets (λ t. t.protocols)
  on_links (λ m. record m { links = init_list_head streams m.links })
  on_links (λ m. record m { links = init_list_head protocols m.links })
  tcp ← protocol_new
  if tcp == null then pure minus_one else do
    on_links λ m. record m {
      id = λ p. if p == tcp then ptcp else m.id p;
      links = list_add_tail tcp protocols m.links;
    }
    modify λ t. record t {
      on_new_stream = true;
      on_test_start = true;
      on_connect = true;
      on_test_finish = true;
    }
    pure (pos 0)
