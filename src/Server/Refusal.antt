-- ===== src/Server/Refusal.antt =====
-- How the server refuses: `report_error` of `Control`.
use kernel_testkit.Base.{
  ℕ, true, false, ◌≡◌, refl, ◌∙◌, subst, inl, inr, Bool-cases, if◌then◌else◌, List, ◌++◌,
  append_assoc,
}
use kernel_testkit.Base.Int.{ℤ, pos, minus_one, is_neg, ◌==ℤ◌}
use kernel_testkit.Base.Run.{pure, ◌>>=◌}
use kernel_testkit.Base.Partial.{Ends, Ends-both, bind_ends, Returns-Ends}
use kernel_testkit.World.{eintr}
use kernel_testkit.Net.Errno.{Reason}
use kernel_testkit.Test.{State}
use kernel_testkit.Wire.{htonl}
use kernel_testkit.Control.{
  server_error, state_byte, iperf_set_send_state, send_errno, report_error,
}
use kernel_testkit.Control.SendState.{StateSent, iperf_set_send_state-StateSent}
use kernel_testkit.Control.Errno.{iperf_set_send_state-Reason, send_errno-Reason}
use kernel_testkit.Server.Machine.{offered, refused, Within}
use kernel_testkit.Server.Phases.{At, sent-At, more-At, send_errno-At}

module _ (E : ℕ → Type 0) (fd : ℤ) (s₀ : State) where
  abbrev pub Refuses : List ℕ → ℤ → State → Type 0
  Refuses m r s' =
      (r ≡ minus_one)
      × (a : ℕ) × (b : ℕ) × Reason E a
      × Reason E b
      × At fd s₀ refused (m ++ (state_byte server_error ++ (htonl a ++ htonl b))) s'

  gathered :
      (m e : List ℕ) (a b : ℕ) (s : State)
      → At fd s₀ refused (((m ++ e) ++ htonl a) ++ htonl b) s
      → At fd s₀ refused (m ++ (e ++ (htonl a ++ htonl b))) s
  gathered m e a b s (st, c, others, bytes, out, w) = (
    st,
    c,
    others,
    bytes,
    out,
    subst (Within bytes)
        (append_assoc (m ++ e) (htonl a) (htonl b) ∙ append_assoc m e (htonl a ++ htonl b)) w,
  )

  -- The error number goes out twice, if the first write succeeds.
  errnos-Refuse :
      (m : List ℕ) (s : State)
      → At fd s₀ refused (m ++ state_byte server_error) s
      → Reason E s.world.errno
      → Ends (Refuses m) (
          (do
            r ← send_errno
            if is_neg r then pure minus_one else do _ ← send_errno; pure minus_one)
            s)
  errnos-Refuse m s at why =
      let e = state_byte server_error in
      let a = s.world.errno in
      let There = λ (r : ℤ) (s' : State). At fd s₀ refused ((m ++ e) ++ htonl a) s' in
      bind_ends (λ r s'. There r s' × (is_neg r ≡ false → Reason E s'.world.errno)) (Refuses m)
        (send_errno s) _
        (Ends-both There (λ r s'. is_neg r ≡ false → Reason E s'.world.errno) (send_errno s)
          (send_errno-At fd s₀ refused (m ++ e) s at) (send_errno-Reason E s why))
        λ r s1 (at1, why1). elim (Bool-cases (is_neg r)) [
          | inl bad ↦ rw bad (
            refl,
            a,
            eintr,
            why,
            inr (inl refl),
            gathered m e a eintr s1
                (more-At fd s₀ refused ((m ++ e) ++ htonl a) (htonl eintr) s1 at1),
          )
          | inr fine ↦ rw fine (
              bind_ends
                (λ r s'. At fd s₀ refused (((m ++ e) ++ htonl a) ++ htonl s1.world.errno) s')
                (Refuses m) (send_errno s1) _
                (send_errno-At fd s₀ refused ((m ++ e) ++ htonl a) s1 at1)
                λ r s2 at2.
                  (refl, a, s1.world.errno, why, why1 fine, gathered m e a s1.world.errno s2 at2))
        ]

  pub report_error-Refuses :
      (m : List ℕ) (s : State)
      → At fd s₀ offered m s
      → Reason E s.world.errno
      → Ends (Refuses m) (report_error s)
  unfolding report_error
  report_error-Refuses m s at why =
      let e = state_byte server_error in
      let Left = λ (r : ℤ) (s' : State). (r ==ℤ pos 0) ≡ true → Reason E s'.world.errno in
      bind_ends (λ r s'. StateSent server_error s r s' × Left r s') (Refuses m)
        (iperf_set_send_state server_error s) _
        (Ends-both (StateSent server_error s) Left (iperf_set_send_state server_error s)
          (Returns-Ends (StateSent server_error s) (iperf_set_send_state server_error s)
            (iperf_set_send_state-StateSent server_error s))
          (iperf_set_send_state-Reason E server_error s why))
        λ r s1 (sent, why1).
          let at1 = sent-At fd s₀ offered refused m s s1 r at sent in
          elim (Bool-cases (r ==ℤ pos 0)) [
            | inr bad ↦
                let at2 = more-At fd s₀ refused (m ++ e) (htonl eintr) s1 at1 in
                rw bad (
                  refl,
                  eintr,
                  eintr,
                  inr (inl refl),
                  inr (inl refl),
                  gathered m e eintr eintr s1
                      (more-At fd s₀ refused ((m ++ e) ++ htonl eintr) (htonl eintr) s1 at2),
                )
            | inl fine ↦ rw fine (errnos-Refuse m s1 at1 (why1 fine))
          ]
