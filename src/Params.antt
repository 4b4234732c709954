-- ===== src/Params.antt =====
-- `send_parameters` and `get_parameters` of iperf/src/iperf_api.c.
pub mod Items
pub mod Receive
pub mod Store
pub mod Exchange
pub mod Kept
pub mod Fate
pub mod Total
use Prim.Native.String.{String}
use kernel_testkit.Base.{ℕ, Bool, true, false, not, ◌&&◌, if◌then◌else◌, Option, none, some, List}
use kernel_testkit.Base.Int.{ℤ, pos, negsuc, minus_one, is_neg, truth, ◌==ℤ◌, to_int, wrap}
use kernel_testkit.Base.Run.{ok, crash, Cmd, pure, ◌>>=◌, ◌>>◌}
use kernel_testkit.Test.{Test, Settings, State, gets, modify, lift, protocol_id}
use kernel_testkit.Test.Fields.{iperf_get_test_get_server_output, iperf_get_test_udp_counters_64bit}
use kernel_testkit.Sockets.{sock_dgram}
use kernel_testkit.Protocols.{ptcp, set_protocol, iperf_set_test_reverse}
use kernel_testkit.Json.{Json, Item}
use kernel_testkit.Wire.{json_write, json_read}

-- `Pudp`
abbrev pub pudp : ℤ
pudp = sock_dgram

abbrev pub is_null : Option String → Bool
is_null none = true
is_null (some _) = false

abbrev pub text_of : Option String → String
text_of none = ""
text_of (some s) = s

-- The value of an item, or the old one: as `int`, as `uint64_t`, and 1 for a mere key.
abbrev pub int_or : Option Item → ℤ → ℤ
int_or none d = d
int_or (some i) d = to_int i.valueint

abbrev pub uint64_or : Option Item → ℕ → ℕ
uint64_or none d = d
uint64_or (some i) d = wrap 64 i.valueint

abbrev pub one_or : Option Item → ℤ → ℤ
one_or none d = d
one_or (some _) d = pos 1

unfoldable pub when_item : Option Item → Cmd State (Unit {0}) → Cmd State (Unit {0})
when_item none m = pure tt
when_item (some _) m = m

-- `strdup(j_p->valuestring)`, where the string is NULL if the item is no string. `strdup` is taken
-- to succeed: what it returns without memory, NULL, is left out.
unfoldable pub get_text : Option Item → Option String → Cmd State (Option String)
get_text none old s = ok old s
get_text (some i) old s = elim i.valuestring [ none ↦ crash | some v ↦ ok (some v) s ]

-- The last test of `get_parameters`.
unfoldable pub count_retransmits : Cmd State (Unit {0})
unfolding protocol_id
count_retransmits = do
  sender ← gets (λ t. t.sender)
  if not (truth sender) then pure tt else do
    id ← protocol_id
    modify λ t. record t {
      sender_has_retransmits = if id ==ℤ ptcp then pos 1 else t.sender_has_retransmits;
    }

module _ (J : Json) where
  -- `if (b) cJSON_Add…ToObject(j, key, …)`
  unfoldable pub add_when : Bool → String → Item → J.Obj → J.Obj
  add_when b key i j = if b then J.add_item j key i else j

  unfoldable pub add_protocol : ℤ → J.Obj → J.Obj
  add_protocol id j =
      if id ==ℤ ptcp
      then J.add_item j "tcp" J.true_item
      else (if id ==ℤ pudp then J.add_item j "udp" J.true_item else j)

  -- The items up to "reverse".
  unfoldable pub add_test : Test → J.Obj → J.Obj
  add_test t j =
      let s = t.settings in
      let j =
        add_when (not (t.server_affinity ==ℤ minus_one)) "server_affinity"
          (J.number_item t.server_affinity) j in
      let j = add_when (truth t.duration) "time" (J.number_item t.duration) j in
      let j = add_when (truth (pos s.bytes)) "num" (J.number_item (pos s.bytes)) j in
      let j = add_when (truth (pos s.blocks)) "blockcount" (J.number_item (pos s.blocks)) j in
      let j = add_when (truth s.mss) "MSS" (J.number_item s.mss) j in
      let j = add_when (truth t.no_delay) "nodelay" J.true_item j in
      let j = add_when true "parallel" (J.number_item t.num_streams) j in
      add_when (truth t.reverse) "reverse" J.true_item j

  -- The items from "window" to "TOS".
  unfoldable pub add_settings : Settings → J.Obj → J.Obj
  add_settings s j =
      let j = add_when (truth s.socket_bufsize) "window" (J.number_item s.socket_bufsize) j in
      let j = add_when (truth s.blksize) "len" (J.number_item s.blksize) j in
      let j = add_when (truth (pos s.rate)) "bandwidth" (J.number_item (pos s.rate)) j in
      let j = add_when (truth (pos s.fqrate)) "fqrate" (J.number_item (pos s.fqrate)) j in
      let j = add_when (truth s.pacing_timer) "pacing_timer" (J.number_item s.pacing_timer) j in
      let j = add_when (truth s.burst) "burst" (J.number_item s.burst) j in
      add_when (truth s.tos) "TOS" (J.number_item s.tos) j

  -- The items from "title" on.
  unfoldable pub add_texts : Test → J.Obj → J.Obj
  unfolding iperf_get_test_get_server_output iperf_get_test_udp_counters_64bit
  add_texts t j =
      let j = add_when (not (is_null t.title)) "title" (J.string_item (text_of t.title)) j in
      let j =
        add_when (not (is_null t.congestion)) "congestion" (J.string_item (text_of t.congestion))
          j in
      let j =
        add_when (not (is_null t.congestion_used)) "congestion_used"
          (J.string_item (text_of t.congestion_used)) j in
      let j =
        add_when (truth t.get_server_output) "get_server_output"
          (J.number_item (iperf_get_test_get_server_output t)) j in
      add_when (truth t.udp_counters_64bit) "udp_counters_64bit"
        (J.number_item (iperf_get_test_udp_counters_64bit t)) j

  unfoldable pub parameters : Test → (id : ℤ) → J.Obj → J.Obj
  parameters t id j = add_texts t (add_settings t.settings (add_test t (add_protocol id j)))

  -- The printing of the parameters under `-d` is left out.
  unfoldable pub send_object : J.Obj → Cmd State ℤ
  unfolding protocol_id
  send_object j = do
    id ← protocol_id
    t ← gets (λ t. t)
    r ← lift (json_write J t.ctrl_sck (parameters t id j))
    pure (if is_neg r then minus_one else pos 0)

  unfoldable pub send_parameters : Cmd State ℤ
  send_parameters = elim J.create [ none ↦ pure minus_one | some j ↦ send_object j ]

  -- The items up to "parallel" that are stored as they are.
  unfoldable pub get_test : J.Obj → Test → Test
  get_test j t = record t {
    server_affinity = int_or (J.get_item j "server_affinity") t.server_affinity;
    duration = int_or (J.get_item j "time") t.duration;
    settings = record (t.settings) {
      bytes = uint64_or (J.get_item j "num") t.settings.bytes;
      blocks = uint64_or (J.get_item j "blockcount") t.settings.blocks;
      mss = int_or (J.get_item j "MSS") t.settings.mss;
    };
    no_delay = one_or (J.get_item j "nodelay") t.no_delay;
    num_streams = int_or (J.get_item j "parallel") t.num_streams;
  }

  unfoldable pub get_settings : J.Obj → Settings → Settings
  get_settings j s = record s {
    socket_bufsize = int_or (J.get_item j "window") s.socket_bufsize;
    blksize = int_or (J.get_item j "len") s.blksize;
    rate = uint64_or (J.get_item j "bandwidth") s.rate;
    fqrate = uint64_or (J.get_item j "fqrate") s.fqrate;
    pacing_timer = int_or (J.get_item j "pacing_timer") s.pacing_timer;
    burst = int_or (J.get_item j "burst") s.burst;
    tos = int_or (J.get_item j "TOS") s.tos;
  }

  unfoldable pub get_texts : J.Obj → Cmd State (Unit {0})
  get_texts j = do
    t ← gets (λ t. t)
    title ← get_text (J.get_item j "title") t.title
    congestion ← get_text (J.get_item j "congestion") t.congestion
    used ← get_text (J.get_item j "congestion_used") t.congestion_used
    modify λ t. record t {
      title = title;
      congestion = congestion;
      congestion_used = used;
      get_server_output = one_or (J.get_item j "get_server_output") t.get_server_output;
      udp_counters_64bit = one_or (J.get_item j "udp_counters_64bit") t.udp_counters_64bit;
    }

  unfoldable pub store_parameters : ℕ → J.Obj → Cmd State (Unit {0})
  unfolding when_item
  store_parameters k j = do
    when_item (J.get_item j "tcp") (set_protocol k ptcp >> pure tt)
    when_item (J.get_item j "udp") (set_protocol k pudp >> pure tt)
    modify (get_test j)
    when_item (J.get_item j "reverse") (iperf_set_test_reverse (pos 1))
    modify (λ t. record t { settings = get_settings j t.settings })
    get_texts j
    count_retransmits

  -- `k` bounds the walk over the protocols, and `junk` is for `JSON_read`.
  unfoldable pub get_parameters : ℕ → List ℕ → Cmd State ℤ
  get_parameters k junk = do
    sck ← gets (λ t. t.ctrl_sck)
    o ← lift (json_read J sck junk)
    elim o [ none ↦ pure minus_one | some j ↦ store_parameters k j >> pure (pos 0) ]
