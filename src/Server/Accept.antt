-- ===== src/Server/Accept.antt =====
-- `iperf_accept` on a server that already has a client.
use kernel_testkit.Base.{
  ℕ, suc, [], ◌≡◌, ◌≢◌, refl, false, List, ◌∷◌, ◌++◌, ap, Bool-cases, ◌⊎◌, inl, inr, ◌∙◌,
}
use kernel_testkit.Base.Int.{ℤ, pos, minus_one, ◌==ℤ◌, ==ℤ_iff}
use kernel_testkit.Base.Run.{Cmd, Returns, bind, weaken, Returns-both, pure, ◌>>=◌}
use kernel_testkit.World.{
  World, done, fail, close, Reply-cases, syscall, syscall_unit, accept, tick, held, erase,
  econnrefused, econnreset,
}
use kernel_testkit.Net.{nwrite}
use kernel_testkit.Net.Write.{NwriteDone, nwrite-Done}
use kernel_testkit.Net.Interrupted.{Interrupts}
use kernel_testkit.Net.Byte.{Accepts, Rejects, ByteSent, nwrite-ByteSent}
use kernel_testkit.Test.{State, lift}
use kernel_testkit.Test.Lift.{Lifted, lift-Returns}
use kernel_testkit.Json.{Json}
use kernel_testkit.Server.{deny, iperf_accept}

-- The test is as before, and at most one byte, 255, has gone out, to `fd`. With a result of 0 the
-- connection is closed, and the byte has gone out unless its write was interrupted; with -1
-- nothing has gone out, as the write failed, and the connection stays open.
abbrev pub Denies : ℤ → State → ℤ → State → Type 0
Denies fd s r s' =
    (s'.test ≡ s.test)
    × (s'.memory ≡ s.memory)
    × ((q : ℤ) → q ≢ fd → s'.world.outbox q ≡ s.world.outbox q)
    × (((r ≡ pos 0)
          × (held s'.world.log ≡ erase fd (held s.world.log))
          × ((Accepts (s.world.reply s.world.clock)
                × (s'.world.outbox fd ≡ s.world.outbox fd ++ (255 ∷ [])))
              ⊎ (Interrupts (s.world.reply s.world.clock)
                  × (s'.world.outbox fd ≡ s.world.outbox fd))))
        ⊎ ((r ≡ minus_one)
            × (s'.world.errno ≡ econnrefused)
            × (held s'.world.log ≡ held s.world.log)
            × Rejects (s.world.reply s.world.clock)
            × (s'.world.outbox fd ≡ s.world.outbox fd)))

closes :
    (fd : ℤ) (s s1 : State)
    → (s1.test ≡ s.test) × (s1.memory ≡ s.memory)
    → ((q : ℤ) → q ≢ fd → s1.world.outbox q ≡ s.world.outbox q)
    → held s1.world.log ≡ held s.world.log
    → (Accepts (s.world.reply s.world.clock)
        × (s1.world.outbox fd ≡ s.world.outbox fd ++ (255 ∷ [])))
      ⊎ (Interrupts (s.world.reply s.world.clock) × (s1.world.outbox fd ≡ s.world.outbox fd))
    → Returns (Denies fd s) ((do _ ← lift (syscall_unit (close fd)); pure (pos 0)) s1)
unfolding held syscall_unit
closes fd s s1 (t, m) others h told = elim (Reply-cases (s1.world.reply s1.world.clock)) [
  | inl (n, e) ↦ rw (e, syscall_unit) (t, m, others, inl (refl, ap (erase fd) h, told))
  | inr (n, e) ↦ rw (e, syscall_unit) (t, m, others, inl (refl, ap (erase fd) h, told))
]

deny-Denies : (fd : ℤ) (s : State) → Returns (Denies fd s) (deny fd s)
unfolding deny
deny-Denies fd s =
    let D =
      λ (r : ℤ) (w : World). NwriteDone fd (255 ∷ []) s.world r w × ByteSent fd 255 s.world r w in
    bind (Lifted D s) (Denies fd s) (lift (nwrite fd (255 ∷ [])) s) _
      (lift-Returns D (nwrite fd (255 ∷ [])) s (
        Returns-both (NwriteDone fd (255 ∷ []) s.world) (ByteSent fd 255 s.world)
          (nwrite fd (255 ∷ []) s.world) (nwrite-Done fd (255 ∷ []) s.world)
          (nwrite-ByteSent fd 255 s.world)))
      λ r s1 ((d, sent), t, m, p).
        let rest = d.3.others in
        elim sent [
          | inl (a, fine, out) ↦ rw fine (closes fd s s1 (t, m) rest d.3.same_held (inl (a, out)))
          | inr other ↦ elim other [
            | inl (i, fine, out) ↦ rw fine (closes fd s s1 (t, m) rest d.3.same_held (inr (i, out)))
            | inr (f, bad, out) ↦ rw bad (t, m, rest, inr (refl, refl, d.3.same_held, f, out))
          ]
        ]

-- The ways in which `iperf_accept` answers another client: `accept` fails; the client is told and
-- its connection closed again; the write is interrupted and the connection closed; or the write
-- fails and the connection is never closed.
abbrev pub Turned : State → ℤ → State → Type 0
Turned s r s' =
    let before = s.world in
    let after = s'.world in
    (s'.test ≡ s.test)
    × (s'.memory ≡ s.memory)
    × (((r ≡ minus_one)
          × (e : ℕ) × (before.reply before.clock ≡ fail e)
          × (after.errno ≡ econnreset)
          × (held after.log ≡ held before.log)
          × (after.outbox ≡ before.outbox))
        ⊎ ((n : ℕ) × (before.reply before.clock ≡ done n)
            × ((q : ℤ) → q ≢ pos n → after.outbox q ≡ before.outbox q)
            × (((r ≡ pos 0)
                  × (held after.log ≡ held before.log)
                  × ((Accepts (before.reply (suc before.clock))
                        × (after.outbox (pos n) ≡ before.outbox (pos n) ++ (255 ∷ [])))
                      ⊎ (Interrupts (before.reply (suc before.clock))
                          × (after.outbox (pos n) ≡ before.outbox (pos n)))))
                ⊎ ((r ≡ minus_one)
                    × (after.errno ≡ econnrefused)
                    × (held after.log ≡ pos n ∷ held before.log)
                    × Rejects (before.reply (suc before.clock))
                    × (after.outbox (pos n) ≡ before.outbox (pos n))))))

abbrev accepted_state : State → State
accepted_state s = record s { world = tick (accept s.test.listener) s.world }

held-accept :
    (s : State) (n : ℕ)
    → s.world.reply s.world.clock ≡ done n
    → held (accepted_state s).world.log ≡ pos n ∷ held s.world.log
unfolding held
held-accept s n e = rw e refl

ne-false : (a b : ℤ) → a ≢ b → (a ==ℤ b) ≡ false
ne-false a b ne = elim (Bool-cases (a ==ℤ b)) [
  | inl t ↦ absurd (ne ((==ℤ_iff a b).0 t))
  | inr f ↦ f
]

erase-held :
    (s : State) (n : ℕ)
    → s.world.reply s.world.clock ≡ done n
    → erase (pos n) (held (accepted_state s).world.log) ≡ held s.world.log
erase-held s n e =
    ap (erase (pos n)) (held-accept s n e) ∙ rw ((==ℤ_iff (pos n) (pos n)).1 refl) refl

module _ (J : Json) (listen : Cmd State ℤ) (k : ℕ) (junk : List ℕ) where
  -- A server that has a client keeps its test, whatever the kernel answers, when `iperf_accept`
  -- takes another, and what the two calls answer decides the rest. Where `accept` fails, it
  -- returns -1 with ECONNRESET and sends nothing. Else it sends to the new client the byte 255
  -- (ACCESS_DENIED), closes the connection and returns 0; or, where the write fails with EINTR
  -- or EAGAIN, it sends nothing, closes the connection and returns 0 all the same; or, where the
  -- write takes nothing or fails with any other error, it sends nothing, returns -1 with
  -- ECONNREFUSED, and the new connection stays open. Nothing goes to any other descriptor.
  pub iperf_accept-Turned :
      (s : State)
      → s.test.ctrl_sck ≢ minus_one
      → Returns (Turned s) (iperf_accept J listen k junk s)
  unfolding iperf_accept held
  iperf_accept-Turned s busy =
      let free : (s.test.ctrl_sck ==ℤ minus_one) ≡ false =
        ne-false s.test.ctrl_sck minus_one busy in
      elim (Reply-cases (s.world.reply s.world.clock)) [
        | inr (n, e) ↦ rw (syscall, e) (refl, refl, inl (refl, n, e, refl, rw e refl, refl))
        | inl (n, e) ↦
            rw (syscall, e, free)
              (weaken (Denies (pos n) (accepted_state s)) (Turned s)
                (deny (pos n) (accepted_state s)) (deny-Denies (pos n) (accepted_state s))
                λ r s' (t, m, others, out). (
                  t,
                  m,
                  inr (
                    n,
                    e,
                    others,
                    elim out [
                      | inl (z, h, told) ↦ inl (z, h ∙ erase-held s n e, told)
                      | inr (z, err, h, f, rest) ↦ inr (z, err, h ∙ held-accept s n e, f, rest)
                    ],
                  ),
                ))
      ]
