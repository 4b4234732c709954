-- ===== src/Server/Served.antt =====
-- The server loop with a client that behaves: it is answered, and nothing comes after.
use kernel_testkit.Base.{
  ℕ, zero, suc, ◌≡◌, ◌≢◌, ◌<◌, ◌^◌, refl, ap, sym, subst, false, some, List, ◌++◌, length,
}
use kernel_testkit.Base.Int.{ℤ, pos, minus_one, ◌==ℤ◌}
use kernel_testkit.Base.Run.{out_of_fuel, Cmd, Returns-ok}
use kernel_testkit.Links.{Ptr, null}
use kernel_testkit.Links.Chain.{IsRing, ◌∉◌}
use kernel_testkit.World.{done, syscall, epoll_wait, tick}
use kernel_testkit.Net.Read.{IsReliable}
use kernel_testkit.Test.{Test, State, stdout}
use kernel_testkit.Json.{Json, JsonLaws}
use kernel_testkit.Protocols.{ptcp}
use kernel_testkit.Protocols.Find.{find}
use kernel_testkit.Wire.Transfer.{frame}
use kernel_testkit.Params.{parameters}
use kernel_testkit.Params.Receive.{IsSendable}
use kernel_testkit.Control.{state_byte, param_exchange, create_streams, iperf_done}
use kernel_testkit.Server.{iperf_accept, server_loop}
use kernel_testkit.Server.Handshake.{Listens, Answers, greeted, iperf_accept-Answers}
use kernel_testkit.Server.Loop.{server_loop-stuck}

module _ (J : Json) (L : JsonLaws J) (j : J.Obj) (text : List ℕ) (c : Test)
    (fresh : J.create ≡ some j) (printed : J.print (parameters J c ptcp j) ≡ some text)
    (small : length text < 2 ^ 31) (fits : IsSendable c) (listen : Cmd State ℤ)
    (good : Listens listen) (k : ℕ) (junk rest : List ℕ) where
  -- With a kernel that never fails a call and always makes progress, a free server in the state
  -- 0 whose output is open and whose accepted client has sent the frame of its parameters, with
  -- a protocol's `listen` that succeeds and keeps to its own sockets, stays in the loop of
  -- `iperf_run_server` for ever: the loop has not ended after any number of turns.
  pub server_loop-served :
      (s : State) (xs : List Ptr) (p : Ptr) (n turns : ℕ)
      → s.test.state ≡ pos 0
      → s.test.ctrl_sck ≡ minus_one
      → s.test.role ≢ 99
      → s.test.outfile ≡ stdout
      → s.world.reply s.world.clock ≡ done n
      → IsRing s.memory.links s.test.protocols xs
      → length xs < k
      → null ∉ xs
      → find s.memory.id ptcp xs ≡ some p
      → p ≢ null
      → IsReliable s.world.reply
      → s.world.inbox (pos n) ≡ frame text ++ rest
      → server_loop J listen k junk turns s ≡ out_of_fuel
  unfolding server_loop
  server_loop-served s xs p n zero e free role file d ring fuel nn f ne reliable i = refl
  server_loop-served s xs p n (suc turns) e free role file d ring fuel nn f ne reliable i =
      let t' = greeted c p (pos n) s.test in
      let bytes = state_byte param_exchange ++ state_byte create_streams in
      let (r, s1, run, (z, t, m, rep, out)) =
        Returns-ok (Answers t' (pos n) bytes s) (iperf_accept J listen k junk s) (
          iperf_accept-Answers J L j text c fresh printed small fits listen good k junk rest s xs p
            n free role file d ring fuel nn f ne reliable i) in
      let not_done : (s.test.state ==ℤ iperf_done) ≡ false = rw e refl in
      let starting : (s.test.state ==ℤ create_streams) ≡ false = rw e refl in
      let reliable1 : IsReliable s1.world.reply = subst IsReliable (sym rep) reliable in
      let (q, a) = reliable1 s1.world.clock in
      rw (not_done, starting, run, z, syscall, a)
        (server_loop-stuck J listen k junk turns
          (record s1 { world = tick (epoll_wait s1.test.epoll_fd) s1.world }) (ap (λ u. u.state) t)
          reliable1)
