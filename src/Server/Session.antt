-- ===== src/Server/Session.antt =====
-- Both ends of the control connection: `iperf_exchange_parameters` of a client, and what
-- `iperf_accept` of a server makes of it.
use kernel_testkit.Base.{
  ℕ, ◌==◌, ◌≡◌, ◌≢◌, ◌<◌, ◌^◌, refl, ap, ◌∙◌, true, some, List, [], ◌++◌, length,
}
use kernel_testkit.Base.Int.{ℤ, pos, minus_one}
use kernel_testkit.Base.Run.{Cmd, Returns, bind, weaken}
use kernel_testkit.Links.{Ptr, null}
use kernel_testkit.Links.Chain.{IsRing, ◌∉◌}
use kernel_testkit.World.{done}
use kernel_testkit.Net.Read.{IsReliable}
use kernel_testkit.Test.{Test, State, stdout}
use kernel_testkit.Test.Lift.{Lifted, delivered, delivered-inbox}
use kernel_testkit.Json.{Json, JsonLaws}
use kernel_testkit.Protocols.{ptcp}
use kernel_testkit.Protocols.Find.{find}
use kernel_testkit.Wire.Transfer.{frame, Sent}
use kernel_testkit.Params.{parameters, send_parameters}
use kernel_testkit.Params.Receive.{IsSendable}
use kernel_testkit.Params.Exchange.{send_parameters-frame}
use kernel_testkit.Control.{state_byte, param_exchange, create_streams, iperf_exchange_parameters}
use kernel_testkit.Server.{iperf_accept}
use kernel_testkit.Server.Handshake.{Listens, Answers, greeted, iperf_accept-Answers}

-- 0 is returned, and `bytes` are all that has gone out through `fd`.
abbrev pub Wrote : ℤ → List ℕ → ℤ → State → Type 0
Wrote fd bytes r s = (r ≡ pos 0) × (s.world.outbox fd ≡ bytes)

-- A server that has taken a client through `fd`, with these bytes from it, agrees with it.
abbrev pub Served :
    (J : Json)
    → Cmd State ℤ
    → ℕ
    → (junk : List ℕ) → Test
    → Ptr
    → ℤ
    → (bytes : List ℕ) → State
    → Type 0
Served J listen k junk c p fd bytes s =
    Returns
      (Answers (greeted c p fd s.test) fd (state_byte param_exchange ++ state_byte create_streams)
        (delivered fd bytes s))
      (iperf_accept J listen k junk (delivered fd bytes s))

module _ (J : Json) (L : JsonLaws J) (j : J.Obj) (text : List ℕ) (c : Test)
    (fresh : J.create ≡ some j) (printed : J.print (parameters J c ptcp j) ≡ some text)
    (small : length text < 2 ^ 31) (fits : IsSendable c) (listen : Cmd State ℤ)
    (good : Listens listen) (k : ℕ) (junk rest : List ℕ) where
  pub client-Wrote :
      (client : State)
      → client.test ≡ c
      → client.test.role ≡ 99
      → client.test.protocol ≢ null
      → client.memory.id client.test.protocol ≡ ptcp
      → IsReliable client.world.reply
      → client.world.outbox client.test.ctrl_sck ≡ []
      → Returns
          (Wrote client.test.ctrl_sck (frame text))
          (iperf_exchange_parameters J listen k junk client)
  unfolding iperf_exchange_parameters
  client-Wrote client ec role ne tcp reliable empty =
      let fd = client.test.ctrl_sck in
      let is_client : (client.test.role == 99) ≡ true = rw role refl in
      let S = Lifted (Sent fd client.world (frame text)) client in
      rw is_client (
        bind S (Wrote fd (frame text)) (send_parameters J client) _
          (send_parameters-frame J L j text c fresh printed small client ec ne tcp reliable)
          λ r s (sent, t, m, q). rw (sent.0) (refl, sent.1.sent ∙ rw empty refl))

  -- With kernels that never fail a call and always make progress, a JSON library that meets its
  -- laws, makes an object and prints it as a text below 2 ^ 31 bytes, a client with a TCP
  -- protocol and values that fit, and a free server whose output is open, whose list has a TCP
  -- protocol and whose protocol's `listen` succeeds and keeps to its own sockets: the client's
  -- `iperf_exchange_parameters` returns 0; and the server's `iperf_accept`, with what the client
  -- has sent as its input, and any bytes behind, returns 0 with the merge of the two tests in
  -- the state CREATE_STREAMS, the client as its control socket, and PARAM_EXCHANGE and
  -- CREATE_STREAMS sent to it and nothing else.
  pub iperf_exchange_parameters-Answers :
      (client server : State) (xs : List Ptr) (p : Ptr) (n : ℕ)
      → client.test ≡ c
      → client.test.role ≡ 99
      → client.test.protocol ≢ null
      → client.memory.id client.test.protocol ≡ ptcp
      → IsReliable client.world.reply
      → client.world.outbox client.test.ctrl_sck ≡ []
      → server.test.ctrl_sck ≡ minus_one
      → server.test.role ≢ 99
      → server.test.outfile ≡ stdout
      → server.world.reply server.world.clock ≡ done n
      → IsRing server.memory.links server.test.protocols xs
      → length xs < k
      → null ∉ xs
      → find server.memory.id ptcp xs ≡ some p
      → p ≢ null
      → IsReliable server.world.reply
      → Returns
          (λ r client'.
            (r ≡ pos 0)
            × Served J listen k junk c p
                (pos n)
                (client'.world.outbox client.test.ctrl_sck ++ rest)
                server)
          (iperf_exchange_parameters J listen k junk client)
  iperf_exchange_parameters-Answers client server xs p n ec role ne tcp rc empty free rs file d ring
        fuel nn f np reliable =
      weaken (Wrote client.test.ctrl_sck (frame text)) _
        (iperf_exchange_parameters J listen k junk client)
        (client-Wrote client ec role ne tcp rc empty)
        λ r client' (z, out).
          let bytes = client'.world.outbox client.test.ctrl_sck ++ rest in
          (
            z,
            iperf_accept-Answers J L j text c fresh printed small fits listen good k junk rest
                (delivered (pos n) bytes server) xs p n free rs file d ring fuel nn f np reliable
                (delivered-inbox (pos n) bytes server ∙ ap (λ b. b ++ rest) out),
          )
