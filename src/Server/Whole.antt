-- ===== src/Server/Whole.antt =====
-- `iperf_run_server` as a whole, with any kernel and any peers: whom it serves, and how it ends.
use kernel_testkit.Base.{
  ℕ, zero, suc, ◌≡◌, ◌≢◌, refl, ap, ◌∙◌, subst, ◌⊎◌, inl, inr, true, false, Bool-cases,
  if◌then◌else◌, List, ◌++◌, arith,
}
use kernel_testkit.Base.Int.{ℤ, pos, negsuc, minus_one, is_neg, ◌==ℤ◌}
use kernel_testkit.Base.Run.{Cmd, pure, ◌>>=◌}
use kernel_testkit.Base.Partial.{Ends, Ends-always, bind_ends, weaken_ends}
use kernel_testkit.World.{
  Reply-cases, syscall, syscall_unit, syscall_value, epoll_wait, set_errno, tick,
}
use kernel_testkit.Test.{State, gets, lift}
use kernel_testkit.Json.{Json}
use kernel_testkit.Params.Kept.{Kept}
use kernel_testkit.Sockets.{netannounce, announce, give_up}
use kernel_testkit.Control.{create_streams, iperf_done, iperf_create_epoll, iperf_create_timerfd}
use kernel_testkit.Server.{iperf_accept, iperf_server_listen, server_loop, iperf_run_server}
use kernel_testkit.Server.Machine.{Phase, idle, agreed, Trace, Unsaid}
use kernel_testkit.Server.Phases.{At, kept-At}
use kernel_testkit.Server.Refinement.{Minds, LeavesErrno, Follows, iperf_accept-Follows}

-- No client has been taken, and nothing sent since `s₀`.
abbrev pub Waits : State → State → Type 0
Waits s₀ s =
    (s.test.state ≡ pos 0)
    × (s.test.ctrl_sck ≡ minus_one)
    × (s.test.role ≢ 99)
    × (s.world.outbox ≡ s₀.world.outbox)

-- One client has been taken, and the machine is in this phase for it.
abbrev pub Serves : State → Phase → State → Type 0
Serves s₀ p s = (fd : ℤ) × (m : List ℕ) × Trace Unsaid idle m p × At fd s₀ p m s

abbrev pub Served : State → State → Type 0
Served s₀ s = Waits s₀ s ⊎ ((p : Phase) × Serves s₀ p s)

-- The loop ends with -1 or 1.
abbrev LoopEnds : State → ℤ → State → Type 0
LoopEnds s₀ r s = ((r ≡ minus_one) ⊎ (r ≡ pos 1)) × Served s₀ s

-- `iperf_accept` has failed, or served the client to the end.
abbrev pub Accepted : State → ℤ → State → Type 0
Accepted s₀ r s = ((r ≡ minus_one) × Served s₀ s) ⊎ ((r ≡ pos 0) × Serves s₀ agreed s)

-- -2 where the descriptors cannot be had, -1 and 1 from the loop.
abbrev pub RunEnds : State → ℤ → State → Type 0
RunEnds s₀ r s = ((r ≡ negsuc 1) ⊎ ((r ≡ minus_one) ⊎ (r ≡ pos 1))) × Served s₀ s

module _ (s₀ : State) where
  rebase-At :
      (fd : ℤ) (s : State) (p : Phase) (m : List ℕ) (s' : State)
      → s.world.outbox ≡ s₀.world.outbox
      → At fd s p m s'
      → At fd s₀ p m s'
  rebase-At fd s p m s' e (st, c, others, bytes, out, w) =
      (st, c, (λ q ne. others q ne ∙ ap (λ o. o q) e), bytes, out ∙ ap (λ o. o fd ++ bytes) e, w)

  kept-Serves : (p : Phase) (s s' : State) → Serves s₀ p s → Kept s tt s' → Serves s₀ p s'
  kept-Serves p s s' (fd, m, t, at) kept = (fd, m, t, kept-At fd s₀ p m s s' at kept)

  followed :
      (fd : ℤ) (s : State) (r : ℤ) (s' : State)
      → s.world.outbox ≡ s₀.world.outbox
      → Follows Unsaid fd s r s'
      → Accepted s₀ r s'
  followed fd s r s' e (p, m, t, at, inl (z, q)) =
      inr (z, subst (λ u. Serves s₀ u s') q (fd, m, t, rebase-At fd s p m s' e at))
  followed fd s r s' e (p, m, t, at, inr z) =
      inl (z, inr (p, (fd, m, t, rebase-At fd s p m s' e at)))

  module _ (J : Json) (listen : Cmd State ℤ) (minds : Minds listen) (k : ℕ) (junk : List ℕ) where
    any_errno : LeavesErrno Unsaid listen
    any_errno s = Ends-always (λ r s'. is_neg r ≡ true → Unit) (listen s) λ r s' bad. tt

    pub accept-Accepted :
        (s : State) → Waits s₀ s → Ends (Accepted s₀) (iperf_accept J listen k junk s)
    unfolding iperf_accept set_errno
    accept-Accepted s (st, c, role, out) = elim (Reply-cases (s.world.reply s.world.clock)) [
      | inl (n, d) ↦
          weaken_ends (Follows Unsaid (pos n) s) (Accepted s₀) (iperf_accept J listen k junk s)
            (iperf_accept-Follows Unsaid J listen minds any_errno k junk s n c role d)
            λ r s' f. followed (pos n) s r s' out f
      | inr (n, d) ↦ rw (d, syscall) (inl (refl, inl (st, c, role, out)))
    ]

    -- The wait for events, and the turns after it.
    events-Ends :
        (rest : Cmd State ℤ) (s : State)
        → ((s' : State) → Kept s tt s' → Served s₀ s' × Ends (LoopEnds s₀) (rest s'))
        → Ends (LoopEnds s₀) (
            (do
              epoll_fd ← gets (λ t. t.epoll_fd)
              nevents ← lift (syscall (epoll_wait epoll_fd))
              if nevents ==ℤ minus_one then pure (pos 1) else rest)
              s)
    unfolding syscall
    events-Ends rest s next =
        let w = tick (epoll_wait s.test.epoll_fd) s.world in
        elim (Reply-cases (s.world.reply s.world.clock)) [
          | inl (n, d) ↦ rw (syscall, d) ((next (record s { world = w }) (refl, refl, refl)).1)
          | inr (n, d) ↦
              rw (syscall, d)
                (
                  inr refl,
                  (next (record s { world = record w { errno = n } }) (refl, refl, refl)).0,
                )
        ]

    busy-Ends :
        (n : ℕ) (s : State)
        → Serves s₀ agreed s
        → Ends (LoopEnds s₀) (server_loop J listen k junk n s)
    unfolding server_loop
    busy-Ends zero s b = tt
    busy-Ends (suc n) s b =
        let d : (s.test.state ==ℤ iperf_done) ≡ false = rw (b.3.0) refl in
        let c : (s.test.state ==ℤ create_streams) ≡ true = rw (b.3.0) refl in
        rw (d, c)
          (events-Ends (server_loop J listen k junk n) s λ s' kept.
            let b' = kept-Serves agreed s s' b kept in (inr (agreed, b'), busy-Ends n s' b'))

    pub loop-Ends :
        (n : ℕ) (s : State) → Waits s₀ s → Ends (LoopEnds s₀) (server_loop J listen k junk n s)
    unfolding server_loop
    loop-Ends zero s w = tt
    loop-Ends (suc n) s w =
        let d : (s.test.state ==ℤ iperf_done) ≡ false = rw (w.0) refl in
        let c : (s.test.state ==ℤ create_streams) ≡ false = rw (w.0) refl in
        rw (d, c)
          (bind_ends (Accepted s₀) (LoopEnds s₀) (iperf_accept J listen k junk s) _
            (accept-Accepted s w)
            λ r s1 a. elim a [
              | inl (z, served) ↦ rw z (inl refl, served)
              | inr (z, b) ↦ rw z (
                  events-Ends (server_loop J listen k junk n) s1 λ s' kept.
                    let b' = kept-Serves agreed s1 s' b kept in
                    (inr (agreed, b'), busy-Ends n s' b'))
            ])

    pub epoll-Waits :
        (s : State)
        → Waits s₀ s
        → Ends (λ r s'. (is_neg r ≡ false) × Waits s₀ s') (iperf_create_epoll s)
    unfolding iperf_create_epoll syscall
    epoll-Waits s w = ground arith

    pub listen-Waits : (s : State) → Waits s₀ s → Ends (λ _. Waits s₀) (iperf_server_listen s)
    unfolding iperf_server_listen netannounce announce give_up set_errno syscall syscall_unit
        syscall_value
    listen-Waits s w = ground arith

    pub timer-Waits : (s : State) → Waits s₀ s → Ends (λ _. Waits s₀) (iperf_create_timerfd s)
    unfolding iperf_create_timerfd syscall
    timer-Waits s w = ground arith

    run-Ends :
        (n : ℕ) (s : State) → Waits s₀ s → Ends (RunEnds s₀) (iperf_run_server J listen k junk n s)
    unfolding iperf_run_server
    run-Ends n s w =
        bind_ends (λ r s'. (is_neg r ≡ false) × Waits s₀ s') (RunEnds s₀) (iperf_create_epoll s) _
          (epoll-Waits s w)
          λ r s1 (fine, w1). rw fine (
            bind_ends (λ _. Waits s₀) (RunEnds s₀) (iperf_server_listen s1) _ (listen-Waits s1 w1)
              λ r s2 w2. elim (Bool-cases (is_neg r)) [
                | inl bad ↦ rw bad (inl refl, inl w2)
                | inr good ↦ rw good (
                    bind_ends (λ _. Waits s₀) (RunEnds s₀) (iperf_create_timerfd s2) _
                      (timer-Waits s2 w2)
                      λ r s3 w3. elim (Bool-cases (is_neg r)) [
                        | inl bad ↦ rw bad (inl refl, inl w3)
                        | inr good ↦ rw good (
                            weaken_ends (LoopEnds s₀) (RunEnds s₀)
                              (server_loop J listen k junk n s3) (loop-Ends n s3 w3)
                              λ r s' (e, served). (inr e, served))
                      ])
              ])

module _ (J : Json) (listen : Cmd State ℤ) (minds : Minds listen) (k : ℕ) (junk : List ℕ) where
  -- Whatever the kernel answers and whatever the peers send, with a server that is in the state
  -- 0, has no client and is no client itself, and a `listen` that keeps away from the control
  -- socket: if `iperf_run_server` ends, it returns -2, -1 or 1, never 0. Then either no client
  -- has been taken and nothing sent, or one has been taken, the machine has a trace from `idle`
  -- to the phase that the state stands for, some of its bytes have gone out to that client, in
  -- order, and nothing to any other descriptor.
  pub iperf_run_server-Follows :
      (n : ℕ) (s : State)
      → s.test.state ≡ pos 0
      → s.test.ctrl_sck ≡ minus_one
      → s.test.role ≢ 99
      → Ends (RunEnds s) (iperf_run_server J listen k junk n s)
  iperf_run_server-Follows n s st c role = run-Ends s J listen minds k junk n s (st, c, role, refl)
