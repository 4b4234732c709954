-- ===== src/Params/Total.antt =====
-- `get_parameters` on an object of any content: what it stores, and exactly when it crashes.
use kernel_testkit.Base.{
  ℕ, ◌==◌, ◌≡◌, ◌<◌, refl, Bool, true, false, ◌&&◌, ◌||◌, drop, ◌++◌, ◌+◌, ◌^◌, Option, none, some,
  List, length, subst, arith,
}
use kernel_testkit.Base.Int.{ℤ, pos, minus_one, truth}
use kernel_testkit.Base.Run.{Cmd, Run, Returns, Returns-ok, ok, pure, ◌>>◌}
use kernel_testkit.Links.{Ptr, null}
use kernel_testkit.Links.Chain.{◌∉◌, IsRing}
use kernel_testkit.Test.{Test, State}
use kernel_testkit.Json.{Json, Item}
use kernel_testkit.World.{World}
use kernel_testkit.Net.{nread}
use kernel_testkit.Wire.{json_read, ntohl}
use kernel_testkit.Wire.Safety.{Quiet, json_read_safe}
use kernel_testkit.Protocols.{ptcp, negate}
use kernel_testkit.Protocols.Find.{find}
use kernel_testkit.Params.Fate.{
  Fate, Fate-bind, Fate-pure, chosen, turned, text_or, given, Leaves, choose-Fate, reverse-Fate,
  count-Fate, with_texts, bad_texts, get_texts-Fate,
}
use kernel_testkit.Params.{
  pudp, int_or, uint64_or, one_or, get_test, get_settings, store_parameters, get_parameters,
}

absorb : (a b : Bool) → (a || (b || a)) ≡ (b || a)
absorb true b = ground arith
absorb false b = refl

module _ (J : Json) (j : J.Obj) where
  -- The test `t` with what the object says, and with the protocol `p`.
  abbrev pub received : Ptr → Test → Test
  received p t = record t {
    protocol = p;
    server_affinity = int_or (J.get_item j "server_affinity") t.server_affinity;
    duration = int_or (J.get_item j "time") t.duration;
    no_delay = one_or (J.get_item j "nodelay") t.no_delay;
    num_streams = int_or (J.get_item j "parallel") t.num_streams;
    reverse = one_or (J.get_item j "reverse") t.reverse;
    sender = turned (J.get_item j "reverse") t.sender;
    settings = record (t.settings) {
      bytes = uint64_or (J.get_item j "num") t.settings.bytes;
      blocks = uint64_or (J.get_item j "blockcount") t.settings.blocks;
      mss = int_or (J.get_item j "MSS") t.settings.mss;
      socket_bufsize = int_or (J.get_item j "window") t.settings.socket_bufsize;
      blksize = int_or (J.get_item j "len") t.settings.blksize;
      rate = uint64_or (J.get_item j "bandwidth") t.settings.rate;
      fqrate = uint64_or (J.get_item j "fqrate") t.settings.fqrate;
      pacing_timer = int_or (J.get_item j "pacing_timer") t.settings.pacing_timer;
      burst = int_or (J.get_item j "burst") t.settings.burst;
      tos = int_or (J.get_item j "TOS") t.settings.tos;
    };
    title = text_or (J.get_item j "title") t.title;
    congestion = text_or (J.get_item j "congestion") t.congestion;
    congestion_used = text_or (J.get_item j "congestion_used") t.congestion_used;
    get_server_output = one_or (J.get_item j "get_server_output") t.get_server_output;
    udp_counters_64bit = one_or (J.get_item j "udp_counters_64bit") t.udp_counters_64bit;
  }

  -- "tcp" is looked at first, so that "udp" wins where both are there.
  abbrev pub protocol_after : State → List Ptr → Ptr
  protocol_after s xs =
      chosen (J.get_item j "udp") (find s.memory.id pudp xs)
        (chosen (J.get_item j "tcp") (find s.memory.id ptcp xs) s.test.protocol)

  -- A text item that is no text; or no protocol, for a test that then sends.
  abbrev pub crashes : Ptr → Test → Bool
  crashes p t = bad_texts J j || (truth (turned (J.get_item j "reverse") t.sender) && (p == null))

  crashes_lem :
      (o : Option Item) (sender : ℤ) (b n : Bool)
      → ((given o && (truth (negate sender) && n)) || (b || (truth (turned o sender) && n)))
        ≡ (b || (truth (turned o sender) && n))
  crashes_lem none sender b n = refl
  crashes_lem (some i) sender b n = absorb (truth (negate sender) && n) b

  module _ (k : ℕ) (xs : List Ptr) (fuel : length xs < k) (nn : null ∉ xs) where
    pub store_parameters-Fate :
        (s : State)
        → IsRing s.memory.links s.test.protocols xs
        → Fate
            (crashes (protocol_after s xs) s.test)
            (Leaves s (received (protocol_after s xs) s.test))
            (store_parameters J k j s)
    unfolding store_parameters get_test get_settings
    store_parameters-Fate s r =
        let p1 = chosen (J.get_item j "tcp") (find s.memory.id ptcp xs) s.test.protocol in
        let p = protocol_after s xs in
        let rev = J.get_item j "reverse" in
        let Q = Leaves s (received p s.test) in
        subst (λ b. Fate b Q (store_parameters J k j s))
          (crashes_lem rev s.test.sender (bad_texts J j) (p == null))
          (Fate-bind false _ (Leaves s (record (s.test) { protocol = p1 })) Q _ _
            (choose-Fate s (J.get_item j "tcp") ptcp k xs r fuel nn)
            λ _ s1 (v1, e1). rw e1 (
              let a1 = record s {
                test = record (s.test) { sender_has_retransmits = v1; protocol = p1 };
              } in
              Fate-bind false _ (Leaves a1 (record (a1.test) { protocol = p })) Q _ _
                (choose-Fate a1 (J.get_item j "udp") pudp k xs r fuel nn)
                λ _ s2 (v2, e2). rw e2 (
                  let a2 = record a1 {
                    test =
                        get_test J j
                          (record (a1.test) { sender_has_retransmits = v2; protocol = p });
                  } in
                  Fate-bind (given rev && (truth (negate s.test.sender) && (p == null))) _
                    (Leaves a2 (record (a2.test) {
                      reverse = one_or rev s.test.reverse;
                      sender = turned rev s.test.sender;
                    }))
                    Q _ _ (reverse-Fate a2 rev)
                    λ _ s3 (v3, e3). rw e3 (
                      let t3 = record (a2.test) {
                        reverse = one_or rev s.test.reverse;
                        sender = turned rev s.test.sender;
                        sender_has_retransmits = v3;
                      } in
                      let a3 = record a2 {
                        test = record t3 { settings = get_settings J j t3.settings };
                      } in
                      Fate-bind (bad_texts J j) _
                        (λ _ s'. s' ≡ record a3 { test = with_texts J j a3.test }) Q _ _
                        (get_texts-Fate J j a3)
                        λ _ s4 e4.
                          rw e4 (count-Fate (record a3 { test = with_texts J j a3.test }))))))

-- What `get_parameters` makes in `s` of what `JSON_read` gives: without an object it returns -1;
-- with one it crashes exactly if `crashes` says so, and else stores what the object says.
abbrev pub Takes : (J : Json) → State → List Ptr → Run State ℤ → Option J.Obj → World → Type 0
Takes J s xs m none w = m ≡ ok minus_one (record s { world = w })
Takes J s xs m (some j) w =
    Fate (crashes J j (protocol_after J j s xs) s.test)
      (λ r s'.
        (r ≡ pos 0)
        × Leaves (record s { world = w }) (received J j (protocol_after J j s xs) s.test) r s')
      m

-- Where `JSON_read` has ended with an object or NULL, this is what becomes of it.
abbrev pub Outcome : (J : Json) → List ℕ → State → List Ptr → Run State ℤ → Type 0
Outcome J junk s xs m =
    (o : Option J.Obj) × (w : World) × (json_read J s.test.ctrl_sck junk s.world ≡ ok o w)
    × Quiet s.test.ctrl_sck s.world w
    × Takes J s xs m o w

module _ (J : Json) (k : ℕ) (junk : List ℕ) (s : State) (xs : List Ptr) where
  -- Whatever the kernel answers and whatever comes in, where `strdup` succeeds, with a list of
  -- protocols of non-NULL addresses and rounds enough for it, and a length in `nsize` after the
  -- first read other than 2 ^ 32 - 1: `JSON_read` ends with an object or NULL, has sent nothing
  -- and read no other descriptor, and `get_parameters` does with that very result what follows.
  -- With NULL it returns -1 with the test as it was; with an object it crashes exactly if an
  -- item "title", "congestion" or "congestion_used" is no text, or the test then has no protocol
  -- though it is to send; else it returns 0 and stores what the object says and nothing more,
  -- but for `sender_has_retransmits`, of which nothing is said.
  pub get_parameters-Outcome :
      IsRing s.memory.links s.test.protocols xs
      → length xs < k
      → null ∉ xs
      → Returns
          (λ r _. ntohl (r.1 ++ drop (length (r.1)) junk) + 1 < 2 ^ 32)
          (nread s.test.ctrl_sck 4 s.world)
      → Outcome J junk s xs (get_parameters J k junk s)
  unfolding get_parameters
  get_parameters-Outcome ring fuel nn small =
      let (o, w, e, quiet) =
        Returns-ok (λ _ w'. Quiet s.test.ctrl_sck s.world w')
          (json_read J s.test.ctrl_sck junk s.world)
          (json_read_safe J s.test.ctrl_sck junk s.world small) in
      (o, w, e, quiet, rw e (taken o w))
    where
      taken :
          (o : Option J.Obj) (w : World)
          → Takes J s xs
              (elim o as (λ _. Cmd State ℤ) [
                | none ↦ pure minus_one
                | some j ↦ store_parameters J k j >> pure (pos 0)
              ]
                (record s { world = w }))
              o
              w
      taken none w = refl
      taken (some j) w =
          Fate-pure (crashes J j (protocol_after J j s xs) s.test)
            (Leaves (record s { world = w }) (received J j (protocol_after J j s xs) s.test)
              (pos 0))
            (pos 0) (store_parameters J k j (record s { world = w }))
            (store_parameters-Fate J j k xs fuel nn (record s { world = w }) ring)
