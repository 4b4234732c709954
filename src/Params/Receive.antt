-- ===== src/Params/Receive.antt =====
-- What `get_parameters` stores, against a merge of the client's test into the server's.
use Prim.Native.String.{String}
use kernel_testkit.Base.{
  ℕ, ◌≡◌, ◌≤◌, ◌^◌, Bool, true, false, not, if◌then◌else◌, Option, none, some, arith,
}
use kernel_testkit.Base.Int.{ℤ, pos, minus_one, truth, ◌==ℤ◌, to_int-id, IsInt, of_bool}
use kernel_testkit.Base.Run.{ok}
use kernel_testkit.Links.{Ptr}
use kernel_testkit.Test.{Test, Settings, State}
use kernel_testkit.Protocols.{negate}
use kernel_testkit.Json.{Json, SameItems, IsExact}
use kernel_testkit.Params.{is_null, text_of, int_or, uint64_or, one_or, get_text}
use kernel_testkit.Params.Items.{when}

-- The client's numbers fit their types, and a `double` holds them.
pub record IsSendable (c : Test) : Type 0 where
  pub server_affinity : IsInt c.server_affinity
  pub duration : IsInt c.duration
  pub bytes : c.settings.bytes ≤ 2 ^ 53
  pub blocks : c.settings.blocks ≤ 2 ^ 53
  pub mss : IsInt c.settings.mss
  pub num_streams : IsInt c.num_streams
  pub socket_bufsize : IsInt c.settings.socket_bufsize
  pub blksize : IsInt c.settings.blksize
  pub rate : c.settings.rate ≤ 2 ^ 53
  pub fqrate : c.settings.fqrate ≤ 2 ^ 53
  pub pacing_timer : IsInt c.settings.pacing_timer
  pub burst : IsInt c.settings.burst
  pub tos : IsInt c.settings.tos
  pub get_server_output : IsInt c.get_server_output
  pub udp_counters_64bit : IsInt c.udp_counters_64bit

-- The value that was sent unless it is 0, else the old one.
abbrev pub sent_int : ℤ → ℤ → ℤ
sent_int n d = if truth n then n else d

abbrev pub sent_uint64 : ℕ → ℕ → ℕ
sent_uint64 n d = if truth (pos n) then n else d

abbrev pub sent_flag : ℤ → ℤ → ℤ
sent_flag n d = if truth n then pos 1 else d

abbrev pub sent_text : Option String → Option String → Option String
sent_text none d = d
sent_text (some v) d = some v

abbrev pub merge_settings : Settings → Settings → Settings
merge_settings c t = record t {
  socket_bufsize = sent_int c.socket_bufsize t.socket_bufsize;
  blksize = sent_int c.blksize t.blksize;
  rate = sent_uint64 c.rate t.rate;
  fqrate = sent_uint64 c.fqrate t.fqrate;
  pacing_timer = sent_int c.pacing_timer t.pacing_timer;
  burst = sent_int c.burst t.burst;
  tos = sent_int c.tos t.tos;
  bytes = sent_uint64 c.bytes t.bytes;
  blocks = sent_uint64 c.blocks t.blocks;
  mss = sent_int c.mss t.mss;
}

abbrev pub merge_sender : Test → Test → ℤ
merge_sender c t = if truth c.reverse then negate t.sender else t.sender

-- The server's test `t` after the parameters of the client's test `c`, with `p` for TCP.
abbrev pub merge : Test → Ptr → Test → Test
merge c p t = record t {
  protocol = p;
  server_affinity =
      if not (c.server_affinity ==ℤ minus_one) then c.server_affinity else t.server_affinity;
  duration = sent_int c.duration t.duration;
  no_delay = sent_flag c.no_delay t.no_delay;
  num_streams = c.num_streams;
  reverse = sent_flag c.reverse t.reverse;
  sender = merge_sender c t;
  sender_has_retransmits = of_bool (truth (merge_sender c t));
  settings = merge_settings c.settings t.settings;
  title = sent_text c.title t.title;
  congestion = sent_text c.congestion t.congestion;
  congestion_used = sent_text c.congestion_used t.congestion_used;
  get_server_output = sent_flag c.get_server_output t.get_server_output;
  udp_counters_64bit = sent_flag c.udp_counters_64bit t.udp_counters_64bit;
}

IsInt-IsExact : (n : ℤ) → IsInt n → IsExact n
IsInt-IsExact (pos n) h = omega arith
IsInt-IsExact (ℤ.negsuc n) h = omega arith

module _ (J : Json) (o o' : J.Obj) (same : SameItems J o o') where
  pub int_or-sent :
      (k : String) (b : Bool) (n d : ℤ)
      → IsInt n
      → J.get_item o k ≡ when b (J.number_item n)
      → int_or (J.get_item o' k) d ≡ (if b then n else d)
  int_or-sent k true n d h e =
      let (i, at, v) = same.number k n (IsInt-IsExact n h) e in rw (at, v) (to_int-id n h)
  int_or-sent k false n d h e = rw (same.absent k e)

  pub uint64_or-sent :
      (k : String) (b : Bool) (n d : ℕ)
      → n ≤ 2 ^ 53
      → J.get_item o k ≡ when b (J.number_item (pos n))
      → uint64_or (J.get_item o' k) d ≡ (if b then n else d)
  uint64_or-sent k true n d h e =
      let (i, at, v) = same.number k (pos n) h e in rw (at, v) (omega arith)
  uint64_or-sent k false n d h e = rw (same.absent k e)

  pub flag-sent :
      (k : String) (b : Bool) (d : ℤ)
      → J.get_item o k ≡ when b J.true_item
      → one_or (J.get_item o' k) d ≡ (if b then pos 1 else d)
  flag-sent k true d e = let (i, at) = same.flag k e in rw at
  flag-sent k false d e = rw (same.absent k e)

  pub get_text-sent :
      (k : String) (v d : Option String) (s : State)
      → J.get_item o k ≡ when (not (is_null v)) (J.string_item (text_of v))
      → get_text (J.get_item o' k) d s ≡ ok (sent_text v d) s
  unfolding get_text
  get_text-sent k none d s e = rw (same.absent k e)
  get_text-sent k (some v) d s e = let (i, at, w) = same.text k v e in rw at (rw w)

  -- A key that carries a number, where only its presence is looked at.
  pub number_flag-sent :
      (k : String) (b : Bool) (n d : ℤ)
      → IsInt n
      → J.get_item o k ≡ when b (J.number_item n)
      → one_or (J.get_item o' k) d ≡ (if b then pos 1 else d)
  number_flag-sent k true n d h e = let (i, at, v) = same.number k n (IsInt-IsExact n h) e in rw at
  number_flag-sent k false n d h e = rw (same.absent k e)
