-- ===== src/Server/Termination.antt =====
-- `iperf_accept` ends whatever the kernel and the peer do, and `iperf_run_server` once the kernel
-- fails for good.
use kernel_testkit.Base.{
  ℕ, zero, suc, ◌<◌, ◌≤◌, ◌+◌, ◌≡◌, ◌≢◌, refl, sym, ◌∙◌, true, false, Bool-cases, inl, inr,
  if◌then◌else◌, List, length, arith,
}
use kernel_testkit.Base.Int.{ℤ, pos, minus_one, is_neg, ◌==ℤ◌}
use kernel_testkit.Base.Run.{Cmd, pure, ◌>>=◌}
use kernel_testkit.Base.Halting.{Halts, bind-Halts, Halts-Ends, weaken-Halts}
use kernel_testkit.Links.{Ptr, null}
use kernel_testkit.Links.Chain.{◌∉◌, IsRing}
use kernel_testkit.World.{Reply, done, fail, Reply-cases, syscall, epoll_wait, tick}
use kernel_testkit.Test.{State, lift, gets}
use kernel_testkit.Json.{Json}
use kernel_testkit.Control.{create_streams, iperf_done, iperf_create_epoll, iperf_create_timerfd}
use kernel_testkit.Control.Halting.{Fixed}
use kernel_testkit.Server.{iperf_accept, iperf_server_listen, server_loop, iperf_run_server}
use kernel_testkit.Server.Halting.{accept-Fixed, epoll-Fixed, listen-Fixed, timer-Fixed}
use kernel_testkit.Server.Refinement.{Minds, LeavesErrno, Follows, iperf_accept-Follows}
use kernel_testkit.Server.Whole.{
  Waits, Accepted, RunEnds, accept-Accepted, epoll-Waits, listen-Waits, timer-Waits,
  iperf_run_server-Follows,
}

-- The protocol's `listen` ends, and leaves the list of protocols alone.
abbrev pub ListenEnds : Cmd State ℤ → Type 0
ListenEnds listen = (s : State) → Halts (Fixed s) (listen s)

-- Every call from number `last` on fails.
abbrev pub FailsFrom : ℕ → (ℕ → Reply) → Type 0
FailsFrom last reply = (i : ℕ) → last ≤ i → (e : ℕ) × (reply i ≡ fail e)

abbrev Over : ℤ → State → Type 0
Over _ _ = Unit

module _ (s₀ : State) (listen : Cmd State ℤ) (ends : ListenEnds listen) where
  listen_from : (s : State) → Fixed s₀ tt s → Halts (Fixed s₀) (listen s)
  listen_from s (r, mem, ps) =
      weaken-Halts (Fixed s) (Fixed s₀) (listen s) (ends s)
        λ a s' (r', mem', ps'). (r' ∙ r, mem' ∙ mem, ps' ∙ ps)

module _ (J : Json) (listen : Cmd State ℤ) (minds : Minds listen) (ends : ListenEnds listen) (k : ℕ)
    (junk : List ℕ) (xs : List Ptr) (fuel : length xs < k) (nn : null ∉ xs) where
  -- Whatever the kernel answers after `accept` and whatever the peer sends, with a list of
  -- protocols of non-NULL addresses, rounds enough for it, and a protocol's `listen` that ends,
  -- keeps away from the control socket, what has been sent, the list and the kernel, and leaves
  -- a number of `E` in `errno` where it fails: `iperf_accept` of a free server that is no client
  -- ends, in a crash or with a result. With a result, the list of protocols is as before, and
  -- the machine `Step` has a trace from `idle` to the phase that the state stands for: it has
  -- offered to exchange parameters, and then perhaps agreed, or refused with an error number
  -- twice, where each of the two is a number of `E`, or EINTR or EAGAIN. The client is the
  -- control socket, all that has gone out to it is some of the bytes of the trace, in order,
  -- nothing has gone out to any other descriptor, and the result is 0 with the phase `agreed`,
  -- or -1.
  pub iperf_accept-Halts :
      (E : ℕ → Type 0)
      → LeavesErrno E listen
      → (s : State) (fd : ℕ) → s.world.reply s.world.clock ≡ done fd
      → s.test.ctrl_sck ≡ minus_one
      → s.test.role ≢ 99
      → IsRing s.memory.links s.test.protocols xs
      → Halts (λ r s'. Fixed s r s' × Follows E (pos fd) s r s') (iperf_accept J listen k junk s)
  iperf_accept-Halts E leaves s fd accepted c role ring =
      Halts-Ends (Fixed s) (Follows E (pos fd) s) (iperf_accept J listen k junk s)
        (accept-Fixed s J listen (listen_from s listen ends) k junk xs ring fuel nn s
          (refl, refl, refl))
        (iperf_accept-Follows E J listen minds leaves k junk s fd c role accepted)

  events-Over :
      (rest : Cmd State ℤ) (s : State)
      → ((n : ℕ)
          → s.world.reply s.world.clock ≡ done n
          → Halts Over (rest (record s { world = tick (epoll_wait s.test.epoll_fd) s.world })))
      → Halts Over (
          (do
            epoll_fd ← gets (λ t. t.epoll_fd)
            nevents ← lift (syscall (epoll_wait epoll_fd))
            if nevents ==ℤ minus_one then pure (pos 1) else rest)
            s)
  unfolding syscall
  events-Over rest s next = elim (Reply-cases (s.world.reply s.world.clock)) [
    | inl (n, d) ↦ rw (syscall, d) (next n d)
    | inr (e, d) ↦ rw (syscall, d) tt
  ]

  busy-Over :
      (last more n : ℕ) (s : State)
      → s.test.state ≡ create_streams
      → FailsFrom last s.world.reply
      → last ≤ s.world.clock + more
      → more < n
      → Halts Over (server_loop J listen k junk n s)
  unfolding server_loop
  busy-Over last more zero s st fails late enough = absurd (omega arith)
  busy-Over last zero (suc n) s st fails late enough =
      let d : (s.test.state ==ℤ iperf_done) ≡ false = rw st refl in
      let c : (s.test.state ==ℤ create_streams) ≡ true = rw st refl in
      rw (d, c)
        (events-Over (server_loop J listen k junk n) s λ v e.
          let (m, f) = fails s.world.clock (omega arith) in
          let no : done v ≡ fail m = sym e ∙ f in cc no)
  busy-Over last (suc more) (suc n) s st fails late enough =
      let d : (s.test.state ==ℤ iperf_done) ≡ false = rw st refl in
      let c : (s.test.state ==ℤ create_streams) ≡ true = rw st refl in
      rw (d, c)
        (events-Over (server_loop J listen k junk n) s λ v e.
          busy-Over last more n (record s { world = tick (epoll_wait s.test.epoll_fd) s.world }) st
            fails (omega arith) (omega arith))

  module _ (s₀ : State) (ring : IsRing s₀.memory.links s₀.test.protocols xs) (last : ℕ)
      (fails : FailsFrom last s₀.world.reply) where
    loop-Over :
        (n : ℕ) (s : State)
        → Waits s₀ s
        → Fixed s₀ tt s
        → last + 1 < n
        → Halts Over (server_loop J listen k junk n s)
    unfolding server_loop
    loop-Over zero s w p enough = absurd (omega arith)
    loop-Over (suc n) s w p enough =
        let d : (s.test.state ==ℤ iperf_done) ≡ false = rw (w.0) refl in
        let c : (s.test.state ==ℤ create_streams) ≡ false = rw (w.0) refl in
        rw (d, c)
          (bind-Halts (λ r s'. Fixed s₀ tt s' × Accepted s₀ r s') Over
            (iperf_accept J listen k junk s) _
            (Halts-Ends (Fixed s₀) (Accepted s₀) (iperf_accept J listen k junk s)
              (accept-Fixed s₀ J listen (listen_from s₀ listen ends) k junk xs ring fuel nn s p)
              (accept-Accepted s₀ J listen minds k junk s w))
            λ r s1 (p1, a). elim a [
              | inl (z, served) ↦ rw z tt
              | inr (z, (fd, m, t, at)) ↦ rw z (
                  events-Over (server_loop J listen k junk n) s1 λ v e.
                    busy-Over last last n
                      (record s1 { world = tick (epoll_wait s1.test.epoll_fd) s1.world }) at.0
                      (rw (p1.0) fails) (omega arith) (omega arith))
            ])

    run-Over :
        (n : ℕ) → Waits s₀ s₀ → last + 1 < n → Halts Over (iperf_run_server J listen k junk n s₀)
    unfolding iperf_run_server
    run-Over n w enough =
        let Both = λ (s : State). Fixed s₀ tt s × Waits s₀ s in
        bind-Halts (λ r s. (Fixed s₀ tt s) × ((is_neg r ≡ false) × Waits s₀ s)) Over
          (iperf_create_epoll s₀) _
          (Halts-Ends (Fixed s₀) (λ r s. (is_neg r ≡ false) × Waits s₀ s) (iperf_create_epoll s₀)
            (epoll-Fixed s₀ s₀ (refl, refl, refl)) (epoll-Waits s₀ J listen minds k junk s₀ w))
          λ r s1 (p1, (fine, w1)). rw fine (
            bind-Halts (λ _ s. Both s) Over (iperf_server_listen s1) _
              (Halts-Ends (Fixed s₀) (λ _. Waits s₀) (iperf_server_listen s1)
                (listen-Fixed s₀ s1 p1) (listen-Waits s₀ J listen minds k junk s1 w1))
              λ r s2 (p2, w2). elim (Bool-cases (is_neg r)) [
                | inl bad ↦ rw bad tt
                | inr good ↦ rw good (
                    bind-Halts (λ _ s. Both s) Over (iperf_create_timerfd s2) _
                      (Halts-Ends (Fixed s₀) (λ _. Waits s₀) (iperf_create_timerfd s2)
                        (timer-Fixed s₀ s2 p2) (timer-Waits s₀ J listen minds k junk s2 w2))
                      λ r s3 (p3, w3). elim (Bool-cases (is_neg r)) [
                        | inl bad ↦ rw bad tt
                        | inr good ↦ rw good (loop-Over n s3 w3 p3 enough)
                      ])
              ])

  -- With a list of protocols of non-NULL addresses, rounds enough for it, and a protocol's
  -- `listen` that ends and keeps away from the control socket, what has been sent, the list and
  -- the kernel, with a server in the state 0 that has no client and is no client itself, and a
  -- kernel of which every call from some number on fails: `iperf_run_server` with at least two
  -- more turns than that number ends, in a crash or with -2, -1 or 1, and with what has been
  -- sent as for any kernel (a trace of the machine, to one client).
  pub iperf_run_server-Halts :
      (n : ℕ) (s : State)
      → s.test.state ≡ pos 0
      → s.test.ctrl_sck ≡ minus_one
      → s.test.role ≢ 99
      → IsRing s.memory.links s.test.protocols xs
      → (last : ℕ) → FailsFrom last s.world.reply
      → last + 1 < n
      → Halts (RunEnds s) (iperf_run_server J listen k junk n s)
  iperf_run_server-Halts n s st c role ring last fails enough =
      weaken-Halts (λ r s'. Over r s' × RunEnds s r s') (RunEnds s)
        (iperf_run_server J listen k junk n s)
        (Halts-Ends Over (RunEnds s) (iperf_run_server J listen k junk n s)
          (run-Over s ring last fails n (st, c, role, refl) enough)
          (iperf_run_server-Follows J listen minds k junk n s st c role))
        λ r s' p. p.1
