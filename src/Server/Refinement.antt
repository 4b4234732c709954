-- ===== src/Server/Refinement.antt =====
-- `iperf_accept` on a free server follows the machine, with any kernel and any peer.
use kernel_testkit.Base.{
  ℕ, ◌==◌, ◌≡◌, ◌≢◌, refl, ap, ◌∙◌, sym, subst, ◌⊎◌, inl, inr, Bool, true, false, Bool-cases,
  if◌then◌else◌, List, ◌++◌, arith,
}
use kernel_testkit.Base.Int.{ℤ, pos, minus_one, is_neg, ◌==ℤ◌, ==ℤ_iff}
use kernel_testkit.Base.Run.{Cmd, pure, ◌>>=◌, ◌>>◌}
use kernel_testkit.Base.Partial.{Ends, Ends-both, bind_ends, Returns-Ends, weaken_ends}
use kernel_testkit.Links.{null}
use kernel_testkit.World.{done, syscall, syscall_value, accept, tick}
use kernel_testkit.Sockets.{getsockdomain}
use kernel_testkit.Test.{State}
use kernel_testkit.Json.{Json}
use kernel_testkit.Params.{get_parameters}
use kernel_testkit.Params.Kept.{Kept, get_parameters-Kept}
use kernel_testkit.Report.{print_text, iperf_printf, iperf_on_connect}
use kernel_testkit.Control.{
  param_exchange, create_streams, state_byte, iperf_set_send_state, report_error, protocol_listen,
  exchange_as_server, iperf_exchange_parameters,
}
use kernel_testkit.Control.SendState.{StateSent, iperf_set_send_state-StateSent}
use kernel_testkit.Server.{serve, iperf_accept}
use kernel_testkit.Server.Refusal.{Refuses, report_error-Refuses}
use kernel_testkit.Server.Machine.{
  Phase, idle, offered, agreed, refused, offer, agree, refuse, Trace, here, next, Within,
  Within-prefix,
}
use kernel_testkit.Server.Phases.{At, kept-At, sent-At}

-- A protocol's `listen` that keeps away from the control connection.
abbrev pub Minds : Cmd State ℤ → Type 0
Minds listen = (s : State) → Ends (Kept s) (listen s)

-- The error numbers with which `listen` fails.
abbrev pub LeavesErrno : (ℕ → Type 0) → Cmd State ℤ → Type 0
LeavesErrno E listen = (s : State) → Ends (λ r s'. is_neg r ≡ true → E s'.world.errno) (listen s)

-- The machine has gone from `idle` to a phase, and the server is in it; where 0 is returned it is
-- `agreed`.
abbrev pub Follows : (ℕ → Type 0) → ℤ → State → ℤ → State → Type 0
Follows E fd s₀ r s =
    (p : Phase) × (m : List ℕ) × Trace E idle m p
    × At fd s₀ p m s
    × (((r ≡ pos 0) × (p ≡ agreed)) ⊎ (r ≡ minus_one))

on_connect-Kept : (s : State) → Ends (Kept s) (iperf_on_connect s)
unfolding iperf_on_connect iperf_printf print_text syscall_value getsockdomain
on_connect-Kept s = ground arith

module _ (E : ℕ → Type 0) (fd : ℤ) (s₀ : State) where
  agreed_or_failed :
      (s : State) (r : ℤ)
      → At fd s₀ agreed (state_byte param_exchange ++ state_byte create_streams) s
      → Follows E fd s₀ (if r ==ℤ pos 0 then pos 0 else minus_one) s
  agreed_or_failed s r at = elim (Bool-cases (r ==ℤ pos 0)) [
    | inl good ↦ (agreed, _, next (next here offer) agree, at, rw good (inl (refl, refl)))
    | inr bad ↦ (agreed, _, next (next here offer) agree, at, rw bad (inr refl))
  ]

  -- The answer to the parameters, after `listen` has returned `r`.
  answer-Follows :
      (r : ℤ) (s : State)
      → At fd s₀ offered (state_byte param_exchange) s
      → (is_neg r ≡ true → E s.world.errno)
      → Ends (Follows E fd s₀) (
          (if is_neg r then report_error else do
            r ← iperf_set_send_state create_streams
            pure (if r ==ℤ pos 0 then pos 0 else minus_one))
            s)
  answer-Follows r s at why =
      let m = state_byte param_exchange in
      elim (Bool-cases (is_neg r)) [
        | inl bad ↦ rw bad (
            weaken_ends (Refuses E fd s₀ m) (Follows E fd s₀) (report_error s)
              (report_error-Refuses E fd s₀ m s at (inl (why bad)))
              λ r s' (e, a, b, why_a, why_b, at1).
                (refused, _, next (next here offer) (refuse a b why_a why_b), at1, inr e))
        | inr fine ↦ rw fine (
            bind_ends (StateSent create_streams s) (Follows E fd s₀)
              (iperf_set_send_state create_streams s) _
              (Returns-Ends (StateSent create_streams s) (iperf_set_send_state create_streams s)
                (iperf_set_send_state-StateSent create_streams s))
              λ r s' sent. agreed_or_failed s' r (sent-At fd s₀ offered agreed m s s' r at sent))
      ]

  sent_offer-At :
      (s : State) (r : ℤ)
      → StateSent param_exchange (record s₀ { test = record (s₀.test) { ctrl_sck = fd } }) r s
      → At fd s₀ offered (state_byte param_exchange) s
  sent_offer-At s r (t, mem, rep, h, sent, z) =
      let (b, left, e, o, others) = sent in
      (
        ap (λ u. u.state) t,
        ap (λ u. u.ctrl_sck) t,
        others,
        b,
        o,
        subst (Within b) (sym e) (Within-prefix b left),
      )

  failed : (r : ℤ) (s : State) → Follows E fd s₀ r s → is_neg r ≡ true → Follows E fd s₀ minus_one s
  failed r s (p, m, trace, at, end) bad = (p, m, trace, at, ground arith)

module _ (E : ℕ → Type 0) (J : Json) (listen : Cmd State ℤ) (minds : Minds listen)
    (leaves : LeavesErrno E listen) (k : ℕ) (junk : List ℕ) where
  abbrev Listened : State → ℤ → State → Type 0
  Listened s r s' = Kept s r s' × (is_neg r ≡ true → E s'.world.errno)

  listen-Listened : (s : State) → Ends (Listened s) (protocol_listen J listen k junk s)
  unfolding protocol_listen
  listen-Listened s = elim (Bool-cases (s.test.protocol == null)) [
    | inl none_chosen ↦ rw none_chosen tt
    | inr chosen ↦ rw chosen (
        Ends-both (Kept s) (λ r s'. is_neg r ≡ true → E s'.world.errno) (listen s) (minds s)
          (leaves s))
  ]

  exchange-Follows :
      (fd : ℤ) (s₀ s : State)
      → At fd s₀ offered (state_byte param_exchange) s
      → Ends (Follows E fd s₀) (exchange_as_server J listen k junk s)
  unfolding exchange_as_server
  exchange-Follows fd s₀ s at =
      let m = state_byte param_exchange in
      bind_ends (Kept s) (Follows E fd s₀) (get_parameters J k junk s) _
        (get_parameters-Kept J k junk s)
        λ got s1 kept1.
          let at1 = kept-At fd s₀ offered m s s1 at kept1 in
          elim (Bool-cases (is_neg got)) [
            | inl bad ↦ rw bad (offered, m, next here offer, at1, inr refl)
            | inr fine ↦ rw fine (
                bind_ends (Listened s1) (Follows E fd s₀) (protocol_listen J listen k junk s1) _
                  (listen-Listened s1)
                  λ r s2 (kept2, why).
                    answer-Follows E fd s₀ r s2 (kept-At fd s₀ offered m s1 s2 at1 kept2) why)
          ]

  connected :
      (fd : ℤ) (s₀ : State) (has : Bool) (r : ℤ) (s : State)
      → Follows E fd s₀ r s
      → is_neg r ≡ false
      → Ends (Follows E fd s₀) ((if has then iperf_on_connect >> pure (pos 0) else pure (pos 0)) s)
  connected fd s₀ has r s (p, m, trace, at, inr bad) fine = ground arith
  connected fd s₀ true r s (p, m, trace, at, inl (z, e)) fine =
      bind_ends (Kept s) (Follows E fd s₀) (iperf_on_connect s) _ (on_connect-Kept s)
        λ u s1 kept. (p, m, trace, kept-At fd s₀ p m s s1 at kept, inl (refl, e))
  connected fd s₀ false r s (p, m, trace, at, inl (z, e)) fine = (p, m, trace, at, inl (refl, e))

  serve-Follows :
      (fd : ℤ) (s : State)
      → (s.test.role == 99) ≡ false
      → Ends (Follows E fd s) (serve J listen k junk fd s)
  unfolding serve iperf_exchange_parameters
  serve-Follows fd s role =
      let s0 = record s { test = record (s.test) { ctrl_sck = fd } } in
      let m = state_byte param_exchange in
      bind_ends (StateSent param_exchange s0) (Follows E fd s)
        (iperf_set_send_state param_exchange s0) _
        (Returns-Ends (StateSent param_exchange s0) (iperf_set_send_state param_exchange s0)
          (iperf_set_send_state-StateSent param_exchange s0))
        λ r s1 sent.
          let at1 : At fd s offered m s1 = sent_offer-At E fd s s1 r sent in
          let server : (s1.test.role == 99) ≡ false = ap (λ q. q.role == 99) (sent.0) ∙ role in
          elim (Bool-cases (r ==ℤ pos 0)) [
            | inr bad ↦ rw bad (offered, m, next here offer, at1, inr refl)
            | inl fine ↦
                rw (fine, server)
                  (bind_ends (Follows E fd s) (Follows E fd s)
                    (exchange_as_server J listen k junk s1) _ (exchange-Follows fd s s1 at1)
                    λ r s2 f. elim (Bool-cases (is_neg r)) [
                      | inl bad ↦ rw bad (failed E fd s r s2 f bad)
                      | inr good ↦ rw good (connected fd s s2.test.on_connect r s2 f good)
                    ])
          ]

  -- Whatever the kernel answers after `accept` and whatever the peer sends, with a protocol's
  -- `listen` that keeps away from the control socket and leaves a number of `E` in `errno` where it
  -- fails: if `iperf_accept` of a free server that is no client returns, then the machine `Step` has
  -- a trace from `idle` to the phase that the state stands for. The client is the control socket,
  -- all that has gone out to it is some of the bytes of the trace, in order, nothing has gone out to
  -- any other descriptor, and the result is 0 with the phase `agreed`, or -1.
  pub iperf_accept-Follows :
      (s : State) (n : ℕ)
      → s.test.ctrl_sck ≡ minus_one
      → s.test.role ≢ 99
      → s.world.reply s.world.clock ≡ done n
      → Ends (Follows E (pos n) s) (iperf_accept J listen k junk s)
  unfolding iperf_accept
  iperf_accept-Follows s n free role d =
      let open_seat : (s.test.ctrl_sck ==ℤ minus_one) ≡ true =
        (==ℤ_iff s.test.ctrl_sck minus_one).1 free in
      let server : (s.test.role == 99) ≡ false = ground arith in
      rw (d, syscall, open_seat)
        (serve-Follows (pos n) (record s { world = tick (accept s.test.listener) s.world }) server)
