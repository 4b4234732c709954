-- ===== src/Cli/Whole.antt =====
-- `main` of iperf/src/main.c as a server: all that it ever sends.
use kernel_testkit.Base.{ℕ, ◌≡◌, ◌≢◌, refl, ap, ◌∙◌, ◌⊎◌, inl, inr, List, [], ◌∷◌, ◌++◌, arith}
use kernel_testkit.Base.Int.{ℤ, pos, minus_one}
use kernel_testkit.Base.Run.{Run, ok, crash, out_of_fuel, Cmd, pure, and_then}
use kernel_testkit.Base.Partial.{Ends}
use kernel_testkit.World.{World}
use kernel_testkit.Test.{State, Memory}
use kernel_testkit.Json.{Json}
use kernel_testkit.Server.{iperf_run_server}
use kernel_testkit.Server.Machine.{Phase, idle, Trace, Unsaid, Within}
use kernel_testkit.Server.Refinement.{Minds}
use kernel_testkit.Server.Whole.{RunEnds, Served, iperf_run_server-Follows}
use kernel_testkit.Utils.{Double}
use kernel_testkit.Cli.{drop_state, main}
use kernel_testkit.Cli.Service.{main-Runs}

-- What has gone out since `w`: nothing; or, through one descriptor, some of the bytes of a trace of
-- the machine.
abbrev pub Said : World → World → Type 0
Said w w' =
    (w'.outbox ≡ w.outbox)
    ⊎ ((fd : ℤ) × (p : Phase) × (m : List ℕ) × Trace Unsaid idle m p
        × ((q : ℤ) → q ≢ fd → w'.outbox q ≡ w.outbox q)
        × (bytes : List ℕ) × (w'.outbox fd ≡ w.outbox fd ++ bytes)
        × Within bytes m)

abbrev pub Finishes : World → ℤ → World → Type 0
Finishes w r w' = ((r ≡ pos 0) ⊎ (r ≡ minus_one)) × Said w w'

Served-Said : (w : World) (s s' : State) → s.world.outbox ≡ w.outbox → Served s s' → Said w s'.world
Served-Said w s s' e (inl (st, c, role, out)) = inl (out ∙ e)
Served-Said w s s' e (inr (p, (fd, m, t, (st, c, others, bytes, out, within)))) = inr (
  fd,
  p,
  m,
  t,
  (λ q ne. others q ne ∙ ap (λ o. o q) e),
  bytes,
  out ∙ ap (λ o. o fd ++ bytes) e,
  within,
)

dropped-Finishes :
    (w : World) (s : State) (m : Run State ℤ)
    → s.world.outbox ≡ w.outbox
    → Ends (RunEnds s) m
    → Ends (Finishes w) (drop_state (and_then m (λ _. pure (pos 0))))
dropped-Finishes w s (ok r s') e (how, served) = (inl refl, Served-Said w s s' e served)
dropped-Finishes w s crash e h = tt
dropped-Finishes w s out_of_fuel e h = tt

module _ (D : Double) (garbage : D.Num) (k : ℕ) (J : Json) (listen : Cmd State ℤ)
    (minds : Minds listen) (junk : List ℕ) (turns : ℕ) (memory : Memory) where
  -- Whatever the kernel answers and whatever the peers send, with a `listen` that keeps away
  -- from the control socket: if `main` with the word `-s` alone ends, it returns 0 or -1, and
  -- all that the program has sent is nothing, or, through one descriptor, some of the bytes of a
  -- trace of the machine from `idle`, in order.
  pub main-Finishes :
      (w : World) → Ends (Finishes w) (main J listen k junk turns D garbage ("-s" ∷ []) memory w)
  main-Finishes w = elim (main-Runs D garbage k J listen junk turns memory w) [
    | inl (s, (role, c, file, st, out), e) ↦ rw e (
        dropped-Finishes w s (iperf_run_server J listen k junk turns s) out
          (iperf_run_server-Follows J listen minds k junk turns s st c (rw role (ground arith))))
    | inr (w', made, out, e) ↦ rw e (inr refl, inl out)
  ]
