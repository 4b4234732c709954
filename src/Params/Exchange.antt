-- ===== src/Params/Exchange.antt =====
-- The parameters go from the client to the server.
use kernel_testkit.Base.{
  ℕ, ◌≡◌, ◌≢◌, ◌<◌, ◌^◌, ◌==◌, refl, ap, false, if◌then◌else◌, some, arith, ◌∙◌, List, [], ◌++◌,
  length,
}
use kernel_testkit.Base.Int.{ℤ, pos, minus_one, is_neg}
use kernel_testkit.Base.Run.{pure, ◌>>=◌, Returns, bind, weaken}
use kernel_testkit.Links.{Ptr, null}
use kernel_testkit.Links.Chain.{IsRing, ◌∉◌}
use kernel_testkit.World.{World}
use kernel_testkit.Net.Read.{IsReliable}
use kernel_testkit.Test.{Test, State, lift}
use kernel_testkit.Test.Lift.{Lifted, lift-Returns, delivered, delivered-inbox}
use kernel_testkit.Protocols.Find.{find}
use kernel_testkit.Json.{Json, JsonLaws}
use kernel_testkit.Wire.{json_write, json_read}
use kernel_testkit.Wire.Transfer.{frame, Sent, Got, json_write-frame, json_read-parse}
use kernel_testkit.Params.{ptcp, parameters, send_object, send_parameters, get_parameters}
use kernel_testkit.Params.Items.{parameters-Carries}
use kernel_testkit.Params.Receive.{IsSendable, merge}
use kernel_testkit.Params.Store.{store_parameters-merge}

module _ (J : Json) (fd : ℤ) (w : World) (bytes : List ℕ) (o : J.Obj) (s : State) where
  after_write :
      (e : s.world ≡ w)
      → Returns (Sent fd w bytes) (json_write J fd o w)
      → Returns
          (Lifted (Sent fd w bytes) s)
          ((do r ← lift (json_write J fd o); pure (if is_neg r then minus_one else pos 0)) s)
  after_write e h =
      bind (Lifted (Sent fd w bytes) s) (Lifted (Sent fd w bytes) s) (lift (json_write J fd o) s) _
        (lift-Returns (Sent fd w bytes) (json_write J fd o) s (rw e h))
        λ r s' (sent, t, m, p). (((rw sent.0), sent.1), t, m, p)

module _ (J : Json) (j : J.Obj) (text : List ℕ) (s : State) where
  send_object-frame :
      J.print (parameters J s.test ptcp j) ≡ some text
      → length text < 2 ^ 31
      → s.test.protocol ≢ null
      → s.memory.id s.test.protocol ≡ ptcp
      → IsReliable s.world.reply
      → Returns (Lifted (Sent s.test.ctrl_sck s.world (frame text)) s) (send_object J j s)
  unfolding send_object
  send_object-frame e small ne tcp reliable =
      let fd = s.test.ctrl_sck in
      let p : (s.test.protocol == null) ≡ false = ground arith in
      rw (p, tcp)
        (after_write J fd s.world (frame text) (parameters J s.test ptcp j) s refl
          (json_write-frame J fd (parameters J s.test ptcp j) text s.world e small reliable))

-- The server's test is the merge of the two, nothing has been sent, and 0 returned.
abbrev pub Merged : Test → Ptr → State → ℤ → State → Type 0
Merged c p s r s' =
    (r ≡ pos 0)
    × (s'.test ≡ merge c p s.test)
    × (s'.memory ≡ s.memory)
    × (s'.world.reply ≡ s.world.reply)
    × (s'.world.outbox ≡ s.world.outbox)

-- A server that reads these bytes on its control socket merges the two tests.
abbrev pub Received : (J : Json) → Test → Ptr → ℕ → (junk bytes : List ℕ) → State → Type 0
Received J c p k junk bytes s =
    Returns (Merged c p (delivered s.test.ctrl_sck bytes s))
      (get_parameters J k junk (delivered s.test.ctrl_sck bytes s))

module _ (J : Json) (L : JsonLaws J) (j : J.Obj) (text : List ℕ) (c : Test)
    (fresh : J.create ≡ some j) (printed : J.print (parameters J c ptcp j) ≡ some text)
    (small : length text < 2 ^ 31) where
  -- With a reliable kernel and a TCP protocol, `send_parameters` returns 0 and sends the framed
  -- text of the parameters.
  pub send_parameters-frame :
      (s : State)
      → s.test ≡ c
      → s.test.protocol ≢ null
      → s.memory.id s.test.protocol ≡ ptcp
      → IsReliable s.world.reply
      → Returns (Lifted (Sent s.test.ctrl_sck s.world (frame text)) s) (send_parameters J s)
  unfolding send_parameters
  send_parameters-frame s e ne tcp reliable =
      rw (fresh, send_parameters)
        (send_object-frame J j text s (rw e printed) small ne tcp reliable)

  pub get_parameters-merge :
      (k : ℕ) (junk rest : List ℕ) (s : State) (xs : List Ptr) (p : Ptr)
      → IsSendable c
      → IsRing s.memory.links s.test.protocols xs
      → length xs < k
      → null ∉ xs
      → find s.memory.id ptcp xs ≡ some p
      → IsReliable s.world.reply
      → s.world.inbox s.test.ctrl_sck ≡ frame text ++ rest
      → Returns (Merged c p s) (get_parameters J k junk s)
  unfolding get_parameters
  get_parameters-merge k junk rest s xs p fits ring fuel nn f reliable i =
      let fd = s.test.ctrl_sck in
      let o = parameters J c ptcp j in
      let (o', parsed, same) = L.parse_print o text printed in
      let G = Got J fd (J.parse text) s.world rest in
      bind (Lifted G s) (Merged c p s) (lift (json_read J fd junk) s) _
        (lift-Returns G (json_read J fd junk) s (
          json_read-parse J fd junk text rest s.world (L.print_text o text printed) small reliable
            i))
        λ a s' (got, t, m, reports).
          let e : a ≡ some o' = got.0 ∙ parsed in
          let has = parameters-Carries J L c ptcp j fresh in
          let stored =
            store_parameters-merge J o o' same c has fits k s' xs p (rw (t, m) ring) fuel nn
              (rw m f) in
          rw e (rw stored (refl, ap (merge c p) t, m, got.2, got.3))

  -- With kernels that never fail a call and always make progress, a JSON library that meets its
  -- laws, a client with a TCP protocol and values that fit, and a server whose list has a TCP
  -- protocol, the client's `send_parameters` returns 0, and the server's `get_parameters` on
  -- what was sent returns 0 and leaves the merge of the two tests (a value that was sent
  -- replaces the server's, any other stays, and the protocol is set).
  pub exchange-merge :
      (k : ℕ) (junk rest : List ℕ) (client server : State) (xs : List Ptr) (p : Ptr)
      → client.test ≡ c
      → client.test.protocol ≢ null
      → client.memory.id client.test.protocol ≡ ptcp
      → IsReliable client.world.reply
      → client.world.outbox client.test.ctrl_sck ≡ []
      → IsSendable c
      → IsRing server.memory.links server.test.protocols xs
      → length xs < k
      → null ∉ xs
      → find server.memory.id ptcp xs ≡ some p
      → IsReliable server.world.reply
      → Returns
          (λ r client'.
            (r ≡ pos 0)
            × Received J c p k junk (client'.world.outbox client.test.ctrl_sck ++ rest) server)
          (send_parameters J client)
  exchange-merge k junk rest client server xs p ec ne tcp rc empty fits ring fuel nn f rs =
      weaken (Lifted (Sent client.test.ctrl_sck client.world (frame text)) client) _
        (send_parameters J client) (send_parameters-frame client ec ne tcp rc)
        λ r client' (sent, t, m, q).
          let bytes = client'.world.outbox client.test.ctrl_sck ++ rest in
          let out : client'.world.outbox client.test.ctrl_sck ≡ frame text =
            sent.1.sent ∙ rw empty refl in
          (
            sent.0,
            get_parameters-merge k junk rest (delivered server.test.ctrl_sck bytes server) xs p fits
                ring fuel nn f rs
                (delivered-inbox server.test.ctrl_sck bytes server ∙ ap (λ b. b ++ rest) out),
          )
