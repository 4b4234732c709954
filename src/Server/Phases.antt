-- ===== src/Server/Phases.antt =====
-- A phase of the control connection, and what the writes of `Control` do to it.
use kernel_testkit.Base.{
  ℕ, ◌≡◌, ◌≢◌, refl, ap, ◌∙◌, sym, subst, inl, inr, Bool-cases, List, ◌++◌, append_assoc,
  append-nil,
}
use kernel_testkit.Base.Int.{ℤ, is_neg}
use kernel_testkit.Base.Partial.{Ends, bind_ends, Returns-Ends}
use kernel_testkit.World.{get_errno, set_errno}
use kernel_testkit.Net.{nwrite}
use kernel_testkit.Net.Write.{NwriteDone, nwrite-Done}
use kernel_testkit.Test.{State, lift}
use kernel_testkit.Test.Lift.{Lifted, lift-Returns}
use kernel_testkit.Wire.{htonl}
use kernel_testkit.Params.Kept.{Kept}
use kernel_testkit.Control.{state_byte, send_errno}
use kernel_testkit.Control.SendState.{StateSent}
use kernel_testkit.Server.Machine.{
  Phase, state_of, Within, Within-nil, Within-prefix, Within-append,
}

-- In this phase, with the client at `fd`, and of the messages `m` some bytes have gone out to it,
-- and nothing to others.
abbrev pub At : ℤ → State → Phase → List ℕ → State → Type 0
At fd s₀ p m s =
    (s.test.state ≡ state_of p)
    × (s.test.ctrl_sck ≡ fd)
    × ((q : ℤ) → q ≢ fd → s.world.outbox q ≡ s₀.world.outbox q)
    × (bytes : List ℕ) × (s.world.outbox fd ≡ s₀.world.outbox fd ++ bytes)
    × Within bytes m

module _ (fd : ℤ) (s₀ : State) where
  pub kept-At :
      (p : Phase) (m : List ℕ) (s s' : State) → At fd s₀ p m s → Kept s tt s' → At fd s₀ p m s'
  kept-At p m s s' (st, c, others, bytes, out, w) (st', c', out') = (
    st' ∙ st,
    c' ∙ c,
    (λ q ne. ap (λ o. o q) out' ∙ others q ne),
    bytes,
    ap (λ o. o fd) out' ∙ out,
    w,
  )

  pub sent-At :
      (p q : Phase) (m : List ℕ) (s s' : State) (r : ℤ)
      → At fd s₀ p m s
      → StateSent (state_of q) s r s'
      → At fd s₀ q (m ++ state_byte (state_of q)) s'
  sent-At p q m s s' r (st, c, others, bytes, out, w) (t, mem, rep, h, sent, z) =
      let (b, left, e, o, rest) = sent in
      (
        ap (λ u. u.state) t,
        ap (λ u. u.ctrl_sck) t ∙ c,
        (λ a ne. rest a (rw c ne) ∙ others a ne),
        bytes ++ b,
        (rw c at o) ∙ ap (λ u. u ++ b) out ∙ rw append_assoc refl,
        Within-append w (subst (Within b) (sym e) (Within-prefix b left)),
      )

  -- A message of which nothing has gone out.
  pub more-At : (p : Phase) (m n : List ℕ) (s : State) → At fd s₀ p m s → At fd s₀ p (m ++ n) s
  more-At p m n s (st, c, others, bytes, out, w) = (
    st,
    c,
    others,
    bytes,
    out,
    subst (λ u. Within u (m ++ n)) (append-nil bytes) (Within-append w (Within-nil n)),
  )

  pub send_errno-At :
      (p : Phase) (m : List ℕ) (s : State)
      → At fd s₀ p m s
      → Ends (λ r s'. At fd s₀ p (m ++ htonl s.world.errno) s') (send_errno s)
  unfolding send_errno get_errno set_errno
  send_errno-At p m s (st, c, others, bytes, out, w) =
      let e = s.world.errno in
      let D = NwriteDone s.test.ctrl_sck (htonl e) s.world in
      bind_ends (Lifted D s) (λ r s'. At fd s₀ p (m ++ htonl e) s')
        (lift (nwrite s.test.ctrl_sck (htonl e)) s) _
        (Returns-Ends (Lifted D s) (lift (nwrite s.test.ctrl_sck (htonl e)) s) (
          lift-Returns D (nwrite s.test.ctrl_sck (htonl e)) s
            (nwrite-Done s.test.ctrl_sck (htonl e) s.world)))
        λ r s1 (d, t, mem, rep).
          let there : At fd s₀ p (m ++ htonl e) s1 = (
            ap (λ u. u.state) t ∙ st,
            ap (λ u. u.ctrl_sck) t ∙ c,
            (λ a ne. d.3.others a (rw c ne) ∙ others a ne),
            bytes ++ d.0,
            (rw c at d.3.sent) ∙ ap (λ u. u ++ d.0) out ∙ rw append_assoc refl,
            Within-append w (subst (Within d.0) (sym d.2) (Within-prefix d.0 d.1)),
          ) in
          elim (Bool-cases (is_neg r)) [ inl bad ↦ rw bad there | inr fine ↦ rw fine there ]
