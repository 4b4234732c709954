-- ===== src/Params/Store.antt =====
-- `get_parameters` behind the parsing: what it stores is the merge of the two tests.
use kernel_testkit.Base.{
  ℕ, ◌≡◌, ◌≢◌, ◌<◌, refl, Bool, true, false, not, ◌&&◌, if◌then◌else◌, some, arith, Bool-cases, inl,
  inr, List, length,
}
use kernel_testkit.Base.Int.{ℤ, pos, minus_one, truth, ◌==ℤ◌, of_bool}
use kernel_testkit.Base.Run.{Cmd, ok, pure}
use kernel_testkit.Links.{Ptr, null}
use kernel_testkit.Links.Chain.{IsRing, ◌∉◌}
use kernel_testkit.Test.{Test, Settings, State}
use kernel_testkit.Protocols.{iperf_set_test_reverse, negate}
use kernel_testkit.Protocols.Find.{find, find-mem, set_protocol-some}
use kernel_testkit.Json.{Json, SameItems}
use kernel_testkit.Params.{
  ptcp, when_item, get_test, get_settings, get_texts, count_retransmits, store_parameters,
}
use kernel_testkit.Params.Items.{Carries}
use kernel_testkit.Params.Receive.{
  IsSendable, merge, sent_flag, sent_int, sent_uint64, sent_text, int_or-sent, uint64_or-sent,
  flag-sent, get_text-sent, number_flag-sent,
}

abbrev with_test : State → (Test → Test) → State
with_test s f = record s { test = f s.test }

abbrev merge_test : Test → Test → Test
merge_test c t = record t {
  server_affinity =
      if not (c.server_affinity ==ℤ minus_one) then c.server_affinity else t.server_affinity;
  duration = sent_int c.duration t.duration;
  settings = record (t.settings) {
    bytes = sent_uint64 c.settings.bytes t.settings.bytes;
    blocks = sent_uint64 c.settings.blocks t.settings.blocks;
    mss = sent_int c.settings.mss t.settings.mss;
  };
  no_delay = sent_flag c.no_delay t.no_delay;
  num_streams = c.num_streams;
}

abbrev merge_numbers : Settings → Settings → Settings
merge_numbers c t = record t {
  socket_bufsize = sent_int c.socket_bufsize t.socket_bufsize;
  blksize = sent_int c.blksize t.blksize;
  rate = sent_uint64 c.rate t.rate;
  fqrate = sent_uint64 c.fqrate t.fqrate;
  pacing_timer = sent_int c.pacing_timer t.pacing_timer;
  burst = sent_int c.burst t.burst;
  tos = sent_int c.tos t.tos;
}

abbrev merge_texts : Test → Test → Test
merge_texts c t = record t {
  title = sent_text c.title t.title;
  congestion = sent_text c.congestion t.congestion;
  congestion_used = sent_text c.congestion_used t.congestion_used;
  get_server_output = sent_flag c.get_server_output t.get_server_output;
  udp_counters_64bit = sent_flag c.udp_counters_64bit t.udp_counters_64bit;
}

module _ (J : Json) (o o' : J.Obj) (same : SameItems J o o') (c : Test) (id : ℤ)
    (has : Carries J c id o) (fits : IsSendable c) where
  get_test-merge : (t : Test) → get_test J o' t ≡ merge_test c t
  unfolding get_test
  get_test-merge t = rw (
    int_or-sent J o o' same "server_affinity" (not (c.server_affinity ==ℤ minus_one))
        c.server_affinity t.server_affinity fits.server_affinity has.server_affinity,
    int_or-sent J o o' same "time" _ _ t.duration fits.duration has.time,
    uint64_or-sent J o o' same "num" _ _ t.settings.bytes fits.bytes has.num,
    uint64_or-sent J o o' same "blockcount" _ _ t.settings.blocks fits.blocks has.blockcount,
    int_or-sent J o o' same "MSS" _ _ t.settings.mss fits.mss has.mss,
    flag-sent J o o' same "nodelay" _ t.no_delay has.nodelay,
    int_or-sent J o o' same "parallel" true c.num_streams t.num_streams fits.num_streams
        has.parallel,
  )

  get_settings-merge : (t : Settings) → get_settings J o' t ≡ merge_numbers c.settings t
  unfolding get_settings
  get_settings-merge t = rw (
    int_or-sent J o o' same "window" _ _ t.socket_bufsize fits.socket_bufsize has.window,
    int_or-sent J o o' same "len" _ _ t.blksize fits.blksize has.len,
    uint64_or-sent J o o' same "bandwidth" _ _ t.rate fits.rate has.bandwidth,
    uint64_or-sent J o o' same "fqrate" _ _ t.fqrate fits.fqrate has.fqrate,
    int_or-sent J o o' same "pacing_timer" _ _ t.pacing_timer fits.pacing_timer has.pacing_timer,
    int_or-sent J o o' same "burst" _ _ t.burst fits.burst has.burst,
    int_or-sent J o o' same "TOS" _ _ t.tos fits.tos has.tos,
  )

  get_texts-merge : (s : State) → get_texts J o' s ≡ ok tt (with_test s (merge_texts c))
  unfolding get_texts
  get_texts-merge s = rw (
    get_text-sent J o o' same "title" c.title s.test.title s has.title,
    get_text-sent J o o' same "congestion" c.congestion s.test.congestion s has.congestion,
    get_text-sent J o o' same "congestion_used" c.congestion_used s.test.congestion_used s
        has.congestion_used,
    number_flag-sent J o o' same "get_server_output" _ _ s.test.get_server_output
        fits.get_server_output has.get_server_output,
    number_flag-sent J o o' same "udp_counters_64bit" _ _ s.test.udp_counters_64bit
        fits.udp_counters_64bit has.udp_counters_64bit,
  )

-- `iperf_set_test_reverse(test, 1)` where the peer asks for it, on a test with a TCP protocol.
reverse_step :
    (b : Bool) (s : State)
    → s.test.protocol ≢ null
    → s.memory.id s.test.protocol ≡ ptcp
    → s.test.sender_has_retransmits ≡ of_bool (truth s.test.sender)
    → (if b then iperf_set_test_reverse (pos 1) else pure tt) s
      ≡ ok tt (
          with_test s λ t. record t {
            reverse = if b then pos 1 else t.reverse;
            sender = if b then negate t.sender else t.sender;
            sender_has_retransmits = of_bool (truth (if b then negate t.sender else t.sender));
          })
unfolding iperf_set_test_reverse
reverse_step true s ne e r = ground arith
reverse_step false s ne e r = ground arith

retransmits_step :
    (s : State)
    → s.test.protocol ≢ null
    → s.memory.id s.test.protocol ≡ ptcp
    → s.test.sender_has_retransmits ≡ of_bool (truth s.test.sender)
    → count_retransmits s ≡ ok tt s
unfolding count_retransmits
retransmits_step s ne e r = ground arith

module _ (J : Json) (o o' : J.Obj) (same : SameItems J o o') (c : Test) (has : Carries J c ptcp o)
    (fits : IsSendable c) where
  reverse_item :
      (m : Cmd State (Unit {0}))
      → when_item (J.get_item o' "reverse") m ≡ (if truth c.reverse then m else pure tt)
  unfolding when_item
  reverse_item m = elim (Bool-cases (truth c.reverse)) [
    | inl b ↦ let (i, at) = same.flag "reverse" (rw b at has.reverse) in rw (b, at)
    | inr b ↦ rw (b, same.absent "reverse" (rw b at has.reverse))
  ]

  -- The peer's parameters make the server's test the merge of the two.
  pub store_parameters-merge :
      (k : ℕ) (s : State) (xs : List Ptr) (p : Ptr)
      → IsRing s.memory.links s.test.protocols xs
      → length xs < k
      → null ∉ xs
      → find s.memory.id ptcp xs ≡ some p
      → store_parameters J k o' s ≡ ok tt (with_test s (merge c p))
  unfolding store_parameters
  store_parameters-merge k s xs p ring fuel nn f =
      let (i, tcp) = same.flag "tcp" has.tcp in
      let udp = same.absent "udp" has.udp in
      let (mem, id) = find-mem s.memory.id ptcp xs p f in
      let ne : p ≢ null = ground arith in
      let s1 = with_test s λ t. record t {
        protocol = p;
        sender_has_retransmits = of_bool (truth t.sender && (ptcp ==ℤ ptcp));
      } in
      let s2 = with_test s1 (merge_test c) in
      let b = truth c.reverse in
      let s3 = with_test s2 λ t. record t {
        reverse = if b then pos 1 else t.reverse;
        sender = if b then negate t.sender else t.sender;
        sender_has_retransmits = of_bool (truth (if b then negate t.sender else t.sender));
      } in
      let s4 = with_test s3 (λ t. record t { settings = merge_numbers c.settings t.settings }) in
      rw (tcp, udp, set_protocol-some ptcp s k xs ring fuel p f nn)
        (rw
          (
            get_test-merge J o o' same c ptcp has fits,
            reverse_item,
            reverse_step b s2 ne id (ground arith),
          )
          (rw (get_settings-merge J o o' same c ptcp has fits) (
            rw (get_texts-merge J o o' same c ptcp has fits s4)
              (retransmits_step (with_test s4 (merge_texts c)) ne id refl))))
