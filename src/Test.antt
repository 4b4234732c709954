-- ===== src/Test.antt =====
-- `struct iperf_test` and `struct iperf_settings` of iperf/include/iperf.h, the memory that holds
-- the `struct protocol`s, and the state that the functions of iperf/src/iperf_api.c work on.
pub mod Fields
pub mod Lift
pub mod New
use kernel_testkit.Base.{
  ℕ, ◌+◌, ◌==◌, Bool, true, false, List, [], ◌∷◌, Option, none, some, if◌then◌else◌,
}
use Prim.Native.String.{String}
use kernel_testkit.Base.Int.{ℤ, pos, minus_one}
use kernel_testkit.Base.Run.{Run, ok, crash, out_of_fuel, Cmd, ◌>>=◌, ◌>>◌, pure}
use kernel_testkit.Links.{Ptr, null, Links}
use kernel_testkit.World.{World, syscall_value, syscall_unit, calloc, release}

pub record Settings : Type 0 where
  pub domain : ℤ
  pub socket_bufsize : ℤ
  pub blksize : ℤ
  pub rate : ℕ
  pub fqrate : ℕ
  pub pacing_timer : ℤ
  pub burst : ℤ
  pub mss : ℤ
  pub ttl : ℤ
  pub tos : ℤ
  pub bytes : ℕ
  pub blocks : ℕ
  pub unit_format : ℕ
  pub num_ostreams : ℤ
  pub connect_timeout : ℤ

pub data File : Type 0 where
  no_file stdout : File

-- A `char *` is its text, `none` where it is NULL; a callback is set or not; `cpumask` is a set of
-- processors; `protocols` and `streams` are the addresses of the two list heads in the structure.
pub record Test : Type 0 where
  pub role : ℕ
  pub sender : ℤ
  pub sender_has_retransmits : ℤ
  pub protocol : Ptr
  pub state : ℤ
  pub server_hostname : Option String
  pub bind_address : Option String
  pub bind_port : ℤ
  pub server_port : ℤ
  pub duration : ℤ
  pub affinity : ℤ
  pub server_affinity : ℤ
  pub cpumask : ℕ → Bool
  pub title : Option String
  pub congestion : Option String
  pub congestion_used : Option String
  pub remote_congestion_used : Option String
  pub pidfile : Option String
  pub logfile : Option String
  pub outfile : File
  pub ctrl_sck : ℤ
  pub listener : ℤ
  pub epoll_fd : ℤ
  pub timer_fd : ℤ
  pub ctrl_sck_mss : ℤ
  pub server_rsa_private_key : Option String
  pub server_authorized_users : Option String
  pub daemon : ℤ
  pub one_off : ℤ
  pub no_delay : ℤ
  pub reverse : ℤ
  pub verbose : ℤ
  pub json_output : ℤ
  pub zerocopy : ℤ
  pub debug : ℤ
  pub get_server_output : ℤ
  pub udp_counters_64bit : ℤ
  pub forceflush : ℤ
  pub multisend : ℤ
  pub json_output_string : Option String
  pub num_streams : ℤ
  pub streams : Ptr
  pub settings : Settings
  pub protocols : Ptr
  pub on_new_stream : Bool
  pub on_test_start : Bool
  pub on_connect : Bool
  pub on_test_finish : Bool

-- The memory: the links of all lists, and `id` of the `struct protocol` at each address.
pub record Memory : Type 0 where
  pub links : Links
  pub id : Ptr → ℤ

-- `reports` is what has been printed to `outfile`, the newest first: `none` is a text that depends
-- on variables that were never written to.
pub record State : Type 0 where
  pub test : Test
  pub memory : Memory
  pub world : World
  pub reports : List (Option (List ℕ))

abbrev pub gets : {A : Type 0} → (Test → A) → Cmd State A
gets f s = ok (f s.test) s

abbrev pub modify : (Test → Test) → Cmd State (Unit {0})
modify f s = ok tt (record s { test = f s.test })

abbrev pub settings : (Settings → Settings) → Test → Test
settings f t = record t { settings = f t.settings }

-- A command of the world alone.
abbrev pub keep : {A : Type 0} → State → Run World A → Run State A
keep s (ok a w) = ok a (record s { world = w })
keep s crash = crash
keep s out_of_fuel = out_of_fuel

abbrev pub lift : {A : Type 0} → Cmd World A → Cmd State A
lift m s = keep s (m s.world)

-- `test->protocol->id`; the protocol may be NULL.
unfoldable pub protocol_id : Cmd State ℤ
protocol_id s = if s.test.protocol == null then crash else ok (s.memory.id s.test.protocol) s

-- The structures as `calloc` leaves them, at the address `p`; the offsets of the two list heads
-- are those of an LP64 system.
unfoldable pub zero_test : Ptr → Test
zero_test p = record {
  role = 0;
  sender = pos 0;
  sender_has_retransmits = pos 0;
  protocol = null;
  state = pos 0;
  server_hostname = none;
  bind_address = none;
  bind_port = pos 0;
  server_port = pos 0;
  duration = pos 0;
  affinity = pos 0;
  server_affinity = pos 0;
  cpumask = λ _. false;
  title = none;
  congestion = none;
  congestion_used = none;
  remote_congestion_used = none;
  pidfile = none;
  logfile = none;
  outfile = no_file;
  ctrl_sck = pos 0;
  listener = pos 0;
  epoll_fd = pos 0;
  timer_fd = pos 0;
  ctrl_sck_mss = pos 0;
  server_rsa_private_key = none;
  server_authorized_users = none;
  daemon = pos 0;
  one_off = pos 0;
  no_delay = pos 0;
  reverse = pos 0;
  verbose = pos 0;
  json_output = pos 0;
  zerocopy = pos 0;
  debug = pos 0;
  get_server_output = pos 0;
  udp_counters_64bit = pos 0;
  forceflush = pos 0;
  multisend = pos 0;
  json_output_string = none;
  num_streams = pos 0;
  streams = p + 360;
  settings = record {
    domain = pos 0;
    socket_bufsize = pos 0;
    blksize = pos 0;
    rate = 0;
    fqrate = 0;
    pacing_timer = pos 0;
    burst = pos 0;
    mss = pos 0;
    ttl = pos 0;
    tos = pos 0;
    bytes = 0;
    blocks = 0;
    unit_format = 0;
    num_ostreams = pos 0;
    connect_timeout = pos 0;
  };
  protocols = p + 384;
  on_new_stream = false;
  on_test_start = false;
  on_connect = false;
  on_test_finish = false;
}

-- `none` is NULL; a structure without its settings is freed again.
unfoldable pub iperf_new_test : Cmd World (Option Test)
unfolding syscall_value zero_test
iperf_new_test = do
  test ← syscall_value (calloc 432)
  elim test [
    | none ↦ pure none
    | some p ↦ do
      set ← syscall_value (calloc 88)
      elim set [
        | none ↦ do release p; pure none
        | some _ ↦ pure (some (record (zero_test p) { outfile = stdout }))
      ]
  ]
