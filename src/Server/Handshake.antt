-- ===== src/Server/Handshake.antt =====
-- A free server takes a client: the whole of `iperf_accept`, with a kernel that never fails.
use kernel_testkit.Base.{
  ℕ, ◌==◌, ◌≡◌, ◌≢◌, ◌<◌, ◌^◌, refl, ap, ◌∙◌, Bool, true, false, if◌then◌else◌, some, List, ◌++◌,
  length, append_assoc, arith,
}
use kernel_testkit.Base.Int.{ℤ, pos, minus_one, is_neg, ◌==ℤ◌, ==ℤ_iff}
use kernel_testkit.Base.Run.{Cmd, pure, Returns, bind, ◌>>◌}
use kernel_testkit.Links.{Ptr, null}
use kernel_testkit.Links.Chain.{IsRing, ◌∉◌}
use kernel_testkit.World.{done, syscall, accept, tick}
use kernel_testkit.Net.Read.{IsReliable}
use kernel_testkit.Test.{Test, State, stdout}
use kernel_testkit.Json.{Json, JsonLaws}
use kernel_testkit.Protocols.{ptcp}
use kernel_testkit.Protocols.Find.{find}
use kernel_testkit.Wire.Transfer.{frame}
use kernel_testkit.Params.{parameters, get_parameters}
use kernel_testkit.Params.Receive.{IsSendable, merge}
use kernel_testkit.Params.Exchange.{Merged, get_parameters-merge}
use kernel_testkit.Report.{iperf_on_connect}
use kernel_testkit.Report.Connect.{Silent, iperf_on_connect-Silent}
use kernel_testkit.Control.{
  param_exchange, create_streams, state_byte, iperf_set_send_state, protocol_listen,
  exchange_as_server, iperf_exchange_parameters,
}
use kernel_testkit.Control.SendState.{StateDelivered, iperf_set_send_state-StateDelivered}
use kernel_testkit.Server.{serve, iperf_accept}

-- A protocol's `listen` that succeeds and keeps to its own sockets.
abbrev pub Listens : Cmd State ℤ → Type 0
Listens listen = (s : State) → Returns (λ r s'. (is_neg r ≡ false) × Silent s s') (listen s)

abbrev in_state : ℤ → Test → Test
in_state st t = record t { state = st }

-- The test is `t`, and `bytes` have gone out through `fd`.
abbrev pub Answers : Test → (fd : ℤ) → List ℕ → State → ℤ → State → Type 0
Answers t fd bytes s r s' =
    (r ≡ pos 0)
    × (s'.test ≡ t)
    × (s'.memory ≡ s.memory)
    × (s'.world.reply ≡ s.world.reply)
    × (s'.world.outbox fd ≡ s.world.outbox fd ++ bytes)

-- The test of a server that has taken the client with the test `c` at `fd`.
abbrev pub greeted : (c : Test) → Ptr → (fd : ℤ) → Test → Test
greeted c p fd t =
    in_state create_streams (merge c p (record t { ctrl_sck = fd; state = param_exchange }))

after_connect :
    (has : Bool) (t : Test) (fd : ℤ) (bytes : List ℕ) (s s1 : State)
    → s1.test.outfile ≡ stdout
    → Answers t fd bytes s (pos 0) s1
    → Returns
        (Answers t fd bytes s)
        ((if has then iperf_on_connect >> pure (pos 0) else pure (pos 0)) s1)
after_connect true t fd bytes s s1 file (z, e, m, rep, out) =
    bind (λ _ s2. Silent s1 s2) (Answers t fd bytes s) (iperf_on_connect s1) _
      (iperf_on_connect-Silent s1 file)
      λ _ s2 (t2, m2, rep2, out2). (refl, t2 ∙ e, m2 ∙ m, rep2 ∙ rep, ap (λ o. o fd) out2 ∙ out)
after_connect false t fd bytes s s1 file a = a

module _ (J : Json) (L : JsonLaws J) (j : J.Obj) (text : List ℕ) (c : Test)
    (fresh : J.create ≡ some j) (printed : J.print (parameters J c ptcp j) ≡ some text)
    (small : length text < 2 ^ 31) (fits : IsSendable c) (listen : Cmd State ℤ)
    (good : Listens listen) (k : ℕ) (junk rest : List ℕ) where
  exchange-Answers :
      (s : State) (xs : List Ptr) (p : Ptr)
      → IsRing s.memory.links s.test.protocols xs
      → length xs < k
      → null ∉ xs
      → find s.memory.id ptcp xs ≡ some p
      → p ≢ null
      → IsReliable s.world.reply
      → s.world.inbox s.test.ctrl_sck ≡ frame text ++ rest
      → Returns
          (Answers
            (record (merge c p s.test) { state = create_streams })
            s.test.ctrl_sck
            (state_byte create_streams)
            s)
          (exchange_as_server J listen k junk s)
  unfolding exchange_as_server protocol_listen
  exchange-Answers s xs p ring fuel nn f ne reliable i =
      let Q =
        Answers (record (merge c p s.test) { state = create_streams }) s.test.ctrl_sck
          (state_byte create_streams) s in
      bind (Merged c p s) Q (get_parameters J k junk s) _
        (get_parameters-merge J L j text c fresh printed small k junk rest s xs p fits ring fuel nn
          f reliable i)
        λ r s1 (z, t, m, rep, out).
          let there : (s1.test.protocol == null) ≡ false = rw t (ground arith) in
          rw (z, there)
            (bind (λ r s'. (is_neg r ≡ false) × Silent s1 s') Q (listen s1) _ (good s1)
              λ r s2 (fine, quiet).
                let (t2, m2, rep2, out2) = quiet in
                let same : s2.test ≡ merge c p s.test = t2 ∙ t in
                let fd : s2.test.ctrl_sck ≡ s.test.ctrl_sck = ap (λ q. q.ctrl_sck) same in
                rw fine (
                  bind (StateDelivered create_streams s2) Q (iperf_set_send_state create_streams s2)
                    _
                    (iperf_set_send_state-StateDelivered create_streams s2
                      (rw (rep2, rep) reliable))
                    λ r s3 (z3, t3, m3, rep3, w). rw z3 (
                      refl,
                      t3 ∙ ap (in_state create_streams) same,
                      m3 ∙ m2 ∙ m,
                      w.reply ∙ rep2 ∙ rep,
                      (rw (fd, out2, out) at w.sent),
                    )))

  serve-Answers :
      (s : State) (xs : List Ptr) (p : Ptr) (fd : ℤ)
      → (s.test.role == 99) ≡ false
      → s.test.outfile ≡ stdout
      → IsRing s.memory.links s.test.protocols xs
      → length xs < k
      → null ∉ xs
      → find s.memory.id ptcp xs ≡ some p
      → p ≢ null
      → IsReliable s.world.reply
      → s.world.inbox fd ≡ frame text ++ rest
      → Returns
          (Answers
            (greeted c p fd s.test)
            fd
            (state_byte param_exchange ++ state_byte create_streams)
            s)
          (serve J listen k junk fd s)
  unfolding serve iperf_exchange_parameters
  serve-Answers s xs p fd role file ring fuel nn f ne reliable i =
      let Q =
        Answers (greeted c p fd s.test) fd (state_byte param_exchange ++ state_byte create_streams)
          s in
      let s0 = record s { test = record (s.test) { ctrl_sck = fd } } in
      bind (StateDelivered param_exchange s0) Q (iperf_set_send_state param_exchange s0) _
        (iperf_set_send_state-StateDelivered param_exchange s0 reliable)
        λ r s1 (z, t, m, rep, w).
          let server : (s1.test.role == 99) ≡ false = rw t role in
          let A =
            Answers (record (merge c p s1.test) { state = create_streams }) s1.test.ctrl_sck
              (state_byte create_streams) s1 in
          rw (z, server)
            (bind A Q (exchange_as_server J listen k junk s1) _
              (exchange-Answers s1 xs p (rw (m, t) ring) fuel nn (rw m f) ne (rw w.reply reliable)
                (rw (w.inbox, t) i))
              λ r s2 (z2, t2, m2, rep2, out2). rw z2 (
                after_connect s2.test.on_connect (greeted c p fd s.test) fd
                  (state_byte param_exchange ++ state_byte create_streams) s s2
                  (ap (λ q. q.outfile) (t2 ∙ ap (λ q. in_state create_streams (merge c p q)) t)
                    ∙ file)
                  (
                    refl,
                    t2 ∙ ap (λ q. in_state create_streams (merge c p q)) t,
                    m2 ∙ m,
                    rep2 ∙ w.reply,
                    (rw t at out2)
                        ∙ ap (λ o. o ++ state_byte create_streams) w.sent
                        ∙ rw append_assoc refl,
                  )))

  -- With a kernel that never fails a call and always makes progress, a free server whose output
  -- is open and whose accepted client has sent the frame of its parameters returns 0 from
  -- `iperf_accept`, if the protocol's `listen` succeeds and keeps to its own sockets:
  -- PARAM_EXCHANGE and CREATE_STREAMS, in this order, have gone out to the client and nothing
  -- else, and the test is the merge of the two, in the state CREATE_STREAMS, with the client as
  -- its control socket.
  pub iperf_accept-Answers :
      (s : State) (xs : List Ptr) (p : Ptr) (n : ℕ)
      → s.test.ctrl_sck ≡ minus_one
      → s.test.role ≢ 99
      → s.test.outfile ≡ stdout
      → s.world.reply s.world.clock ≡ done n
      → IsRing s.memory.links s.test.protocols xs
      → length xs < k
      → null ∉ xs
      → find s.memory.id ptcp xs ≡ some p
      → p ≢ null
      → IsReliable s.world.reply
      → s.world.inbox (pos n) ≡ frame text ++ rest
      → Returns
          (Answers
            (greeted c p (pos n) s.test)
            (pos n)
            (state_byte param_exchange ++ state_byte create_streams)
            s)
          (iperf_accept J listen k junk s)
  unfolding iperf_accept
  iperf_accept-Answers s xs p n free role file d ring fuel nn f ne reliable i =
      let open_seat : (s.test.ctrl_sck ==ℤ minus_one) ≡ true =
        (==ℤ_iff s.test.ctrl_sck minus_one).1 free in
      let server : (s.test.role == 99) ≡ false = ground arith in
      rw (d, syscall, open_seat)
        (serve-Answers (record s { world = tick (accept s.test.listener) s.world }) xs p (pos n)
          server file ring fuel nn f ne reliable i)
