-- ===== src/Control/Interrupted.antt =====
-- The client's `iperf_exchange_parameters` where the kernel interrupts its writes.
use kernel_testkit.Base.{
  ℕ, suc, ◌%◌, ◌^◌, ◌<◌, ◌==◌, ◌≡◌, ◌≢◌, refl, ◌∙◌, true, false, some, List, length, take, arith,
  take_all,
}
use kernel_testkit.Base.Int.{ℤ, pos}
use kernel_testkit.Base.Run.{Cmd, Returns, bind}
use kernel_testkit.Links.{null}
use kernel_testkit.World.{World}
use kernel_testkit.Net.{nwrite}
use kernel_testkit.Net.Interrupted.{Interrupts, Nothing, nwrite-Nothing}
use kernel_testkit.Test.{State, lift, protocol_id}
use kernel_testkit.Test.Lift.{Lifted, lift-Returns}
use kernel_testkit.Json.{Json}
use kernel_testkit.Wire.{htonl, send_text, json_write}
use kernel_testkit.Params.{parameters, send_object, send_parameters}
use kernel_testkit.Control.{iperf_exchange_parameters}

-- 0 is returned, and nothing has gone out.
abbrev pub Unsent : World → ℤ → World → Type 0
Unsent w r w' = (r ≡ pos 0) × (w'.outbox ≡ w.outbox)

send_text-Unsent :
    (fd : ℤ) (text : List ℕ) (w : World)
    → (length text == 0) ≡ false
    → length text < 2 ^ 32
    → Interrupts (w.reply w.clock)
    → Interrupts (w.reply (suc w.clock))
    → Returns (Unsent w) (send_text fd text w)
unfolding send_text htonl
send_text-Unsent fd text w some_text small first second =
    let whole : length text % 2 ^ 32 ≡ length text = omega arith in
    let all : take (length text % 2 ^ 32) text ≡ text =
      rw whole (take_all (length text) text (omega arith)) in
    bind (Nothing w) (Unsent w) (nwrite fd _ w) _ (nwrite-Nothing fd _ w refl first)
      λ r w1 (z, out, reply, clock). rw z (
        bind (Nothing w1) (Unsent w) (nwrite fd _ w1) _
          (nwrite-Nothing fd _ w1 (rw all some_text) (rw (reply, clock) second))
          λ r2 w2 (z2, out2, _, _). rw z2 (refl, out2 ∙ out))

module _ (J : Json) (j : J.Obj) (text : List ℕ) (s : State) where
  send_object-Unsent :
      J.print (parameters J s.test (s.memory.id s.test.protocol) j) ≡ some text
      → (length text == 0) ≡ false
      → length text < 2 ^ 32
      → s.test.protocol ≢ null
      → Interrupts (s.world.reply s.world.clock)
      → Interrupts (s.world.reply (suc s.world.clock))
      → Returns (Lifted (Unsent s.world) s) (send_object J j s)
  unfolding send_object protocol_id json_write
  send_object-Unsent printed some_text small ne first second =
      let fd = s.test.ctrl_sck in
      let o = parameters J s.test (s.memory.id s.test.protocol) j in
      let p : (s.test.protocol == null) ≡ false = ground arith in
      let sent : Returns (Unsent s.world) (json_write J fd o s.world) =
        rw (json_write, printed) (send_text-Unsent fd text s.world some_text small first second) in
      rw p (
        bind (Lifted (Unsent s.world) s) (Lifted (Unsent s.world) s) (lift (json_write J fd o) s) _
          (lift-Returns (Unsent s.world) (json_write J fd o) s sent)
          λ r s' ((z, out), t, m, q). rw z ((refl, out), t, m, q))

module _ (J : Json) (listen : Cmd State ℤ) (k : ℕ) (junk : List ℕ) where
  -- A client with a protocol, whose parameters print to a text of at least one byte and fewer
  -- than 2 ^ 32, and a kernel that answers the next two calls with EINTR or EAGAIN:
  -- `iperf_exchange_parameters` returns 0 though nothing has gone out, and leaves the test and
  -- the memory as they were.
  pub iperf_exchange_parameters-Unsent :
      (s : State) (j : J.Obj) (text : List ℕ)
      → s.test.role ≡ 99
      → s.test.protocol ≢ null
      → J.create ≡ some j
      → J.print (parameters J s.test (s.memory.id s.test.protocol) j) ≡ some text
      → (length text == 0) ≡ false
      → length text < 2 ^ 32
      → Interrupts (s.world.reply s.world.clock)
      → Interrupts (s.world.reply (suc s.world.clock))
      → Returns (Lifted (Unsent s.world) s) (iperf_exchange_parameters J listen k junk s)
  unfolding iperf_exchange_parameters send_parameters
  iperf_exchange_parameters-Unsent s j text role ne fresh printed some_text small first second =
      let is_client : (s.test.role == 99) ≡ true = rw role refl in
      let sent : Returns (Lifted (Unsent s.world) s) (send_parameters J s) =
        rw (send_parameters, fresh)
          (send_object-Unsent J j text s printed some_text small ne first second) in
      rw is_client (
        bind (Lifted (Unsent s.world) s) (Lifted (Unsent s.world) s) (send_parameters J s) _ sent
          λ r s' ((z, out), t, m, q). rw z ((refl, out), t, m, q))
