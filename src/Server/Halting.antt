-- ===== src/Server/Halting.antt =====
-- `iperf_accept` ends whatever the kernel and the peer do, and `iperf_run_server` once the kernel
-- fails.
use kernel_testkit.Base.{
  ℕ, ◌<◌, Bool, true, false, Bool-cases, inl, inr, if◌then◌else◌, List, length, arith,
}
use kernel_testkit.Base.Int.{ℤ, pos, minus_one, is_neg, ◌==ℤ◌}
use kernel_testkit.Base.Run.{Cmd, pure, ◌>>◌}
use kernel_testkit.Base.Halting.{Halts, bind-Halts}
use kernel_testkit.Links.{Ptr, null}
use kernel_testkit.Links.Chain.{◌∉◌, IsRing}
use kernel_testkit.World.{
  Reply-cases, syscall, syscall_unit, syscall_value, accept, tick, set_errno,
}
use kernel_testkit.Net.{nwrite}
use kernel_testkit.Wire.Halting.{nwrite-Halts}
use kernel_testkit.Sockets.{getsockdomain, netannounce, announce, give_up}
use kernel_testkit.Test.{State, lift}
use kernel_testkit.Json.{Json}
use kernel_testkit.Report.{print_text, iperf_printf, iperf_on_connect}
use kernel_testkit.Control.{
  param_exchange, state_byte, access_denied, iperf_set_send_state, iperf_exchange_parameters,
  iperf_create_epoll, iperf_create_timerfd,
}
use kernel_testkit.Control.Halting.{Fixed, lift-Fixed, send_state-Fixed, exchange-Fixed}
use kernel_testkit.Server.{serve, deny, iperf_accept, iperf_server_listen}

module _ (s₀ : State) where
  on_connect-Fixed : (s : State) → Fixed s₀ tt s → Halts (Fixed s₀) (iperf_on_connect s)
  unfolding iperf_on_connect iperf_printf print_text syscall_value getsockdomain
  on_connect-Fixed s p = ground arith

  connected-Fixed :
      (has : Bool) (s : State)
      → Fixed s₀ tt s
      → Halts (Fixed s₀) ((if has then iperf_on_connect >> pure (pos 0) else pure (pos 0)) s)
  connected-Fixed false s p = p
  connected-Fixed true s p =
      bind-Halts (Fixed s₀) (Fixed s₀) (iperf_on_connect s) _ (on_connect-Fixed s p) λ u s1 p1. p1

  deny-Fixed : (fd : ℤ) (s : State) → Fixed s₀ tt s → Halts (Fixed s₀) (deny fd s)
  unfolding deny set_errno syscall_unit
  deny-Fixed fd s p =
      bind-Halts (Fixed s₀) (Fixed s₀) (lift (nwrite fd (state_byte access_denied)) s) _
        (lift-Fixed s₀ (nwrite fd (state_byte access_denied)) s p (nwrite-Halts fd _ s.world))
        λ r s1 p1. ground arith

  module _ (J : Json) (listen : Cmd State ℤ)
      (ends : (s : State) → Fixed s₀ tt s → Halts (Fixed s₀) (listen s)) (k : ℕ) (junk : List ℕ)
      (xs : List Ptr) (ring : IsRing s₀.memory.links s₀.test.protocols xs) (fuel : length xs < k)
      (nn : null ∉ xs) where
    serve-Fixed :
        (fd : ℤ) (s : State) → Fixed s₀ tt s → Halts (Fixed s₀) (serve J listen k junk fd s)
    unfolding serve
    serve-Fixed fd s p =
        let s1 = record s { test = record (s.test) { ctrl_sck = fd } } in
        bind-Halts (Fixed s₀) (Fixed s₀) (iperf_set_send_state param_exchange s1) _
          (send_state-Fixed s₀ param_exchange s1 p)
          λ r s2 p2. elim (Bool-cases (r ==ℤ pos 0)) [
            | inr f ↦ rw f p2
            | inl t ↦ rw t (
                bind-Halts (Fixed s₀) (Fixed s₀) (iperf_exchange_parameters J listen k junk s2) _
                  (exchange-Fixed s₀ J listen ends k junk xs ring fuel nn s2 p2)
                  λ r s3 p3. elim (Bool-cases (is_neg r)) [
                    | inl t ↦ rw t p3
                    | inr f ↦ rw f (connected-Fixed s3.test.on_connect s3 p3)
                  ])
          ]

    pub accept-Fixed :
        (s : State) → Fixed s₀ tt s → Halts (Fixed s₀) (iperf_accept J listen k junk s)
    unfolding iperf_accept set_errno
    accept-Fixed s p = elim (Reply-cases (s.world.reply s.world.clock)) [
      | inr (e, f) ↦ rw (f, syscall) p
      | inl (n, f) ↦
          let s1 = record s { world = tick (accept s.test.listener) s.world } in
          rw (f, syscall)
            (elim (Bool-cases (s.test.ctrl_sck ==ℤ minus_one)) [
              | inl t ↦ rw t (serve-Fixed (pos n) s1 p)
              | inr b ↦ rw b (deny-Fixed (pos n) s1 p)
            ])
    ]

  -- The calls before the loop.
  pub epoll-Fixed : (s : State) → Fixed s₀ tt s → Halts (Fixed s₀) (iperf_create_epoll s)
  unfolding iperf_create_epoll syscall
  epoll-Fixed s p = ground arith

  pub listen-Fixed : (s : State) → Fixed s₀ tt s → Halts (Fixed s₀) (iperf_server_listen s)
  unfolding iperf_server_listen netannounce announce give_up set_errno syscall syscall_unit
      syscall_value
  listen-Fixed s p = ground arith

  pub timer-Fixed : (s : State) → Fixed s₀ tt s → Halts (Fixed s₀) (iperf_create_timerfd s)
  unfolding iperf_create_timerfd syscall
  timer-Fixed s p = ground arith
