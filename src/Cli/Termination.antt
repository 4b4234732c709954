-- ===== src/Cli/Termination.antt =====
-- `main -s` of iperf/src/main.c ends once the kernel fails for good.
use kernel_testkit.Base.{
  ℕ, suc, ◌+◌, ◌<◌, ◌≡◌, ◌≢◌, refl, subst, inl, inr, none, some, List, [], ◌∷◌, arith,
}
use kernel_testkit.Base.Int.{ℤ, pos}
use kernel_testkit.Base.Run.{Run, ok, crash, out_of_fuel, Cmd, pure, and_then, Returns}
use kernel_testkit.Base.Halting.{Halts, Halts-Ends, weaken-Halts}
use kernel_testkit.Links.{Ptr}
use kernel_testkit.World.{World, done, Reply-cases, syscall_value, tick, calloc}
use kernel_testkit.Test.{Test, State, Memory, stdout, zero_test, iperf_new_test}
use kernel_testkit.Test.New.{Blank}
use kernel_testkit.Protocols.Defaults.{Listed, iperf_defaults-Listed}
use kernel_testkit.Json.{Json}
use kernel_testkit.Server.{iperf_run_server}
use kernel_testkit.Server.Refinement.{Minds}
use kernel_testkit.Server.Whole.{RunEnds}
use kernel_testkit.Server.Termination.{ListenEnds, FailsFrom, iperf_run_server-Halts}
use kernel_testkit.Utils.{Double}
use kernel_testkit.Cli.{drop_state, main_with, main}
use kernel_testkit.Cli.Service.{started-Serving}
use kernel_testkit.Cli.Whole.{Finishes, main-Finishes}

-- The third block of memory, for the protocol, is none of the two list heads in the first, at
-- 360 and 384 bytes.
abbrev pub OwnBlocks : World → Type 0
OwnBlocks w =
    (p q : ℕ)
    → w.reply w.clock ≡ done p
    → w.reply (suc (suc w.clock)) ≡ done q
    → (q ≢ p + 360) × (q ≢ p + 384)

abbrev Over : ℤ → World → Type 0
Over _ _ = Unit

drop-Over :
    (P : ℤ → State → Type 0) (m : Run State ℤ)
    → Halts P m
    → Halts Over (drop_state (and_then m (λ _. pure (pos 0))))
drop-Over P (ok r s) h = tt
drop-Over P crash h = tt
drop-Over P out_of_fuel h = h

module _ (D : Double) (garbage : D.Num) (k : ℕ) (room : 1 < k) (J : Json) (listen : Cmd State ℤ)
    (minds : Minds listen) (ends : ListenEnds listen) (junk : List ℕ) (turns : ℕ)
    (memory : Memory) where
  started-Over :
      (t : Test) (w₀ w : World) (last : ℕ)
      → w.outbox ≡ w₀.outbox
      → Blank t
      → t.streams ≢ t.protocols
      → ((p : Ptr) → w.reply w.clock ≡ done p → (p ≢ t.streams) × (p ≢ t.protocols))
      → FailsFrom last w.reply
      → last + 1 < turns
      → Halts Over (main_with J listen k junk turns D garbage ("-s" ∷ []) memory (ok (some t) w))
  started-Over t w₀ w last out b apart own fails enough =
      let s0 : State = record { test = t; memory = memory; world = w; reports = [] } in
      let (r, s1, s, d, (reply, mem, ps), (role, c, file, st, o), q) =
        started-Serving D garbage k J listen junk turns memory t w₀ w out b in
      let (xs, ring, short, nn, same) : Listed s0 s1 =
        subst (Returns (λ _ s'. Listed s0 s')) d (iperf_defaults-Listed s0 apart own) in
      rw q (
        drop-Over (RunEnds s) (iperf_run_server J listen k junk turns s) (
          iperf_run_server-Halts J listen minds ends k junk xs (omega arith) nn turns s st c
            (rw role (ground arith)) (rw (mem, ps) ring) last (rw (reply, same) fails) enough))

  no_test-Over :
      (w : World)
      → Halts Over (main_with J listen k junk turns D garbage ("-s" ∷ []) memory (ok none w))
  unfolding main_with
  no_test-Over w = tt

  main-Over :
      (w : World) (last : ℕ)
      → OwnBlocks w
      → FailsFrom last w.reply
      → last + 1 < turns
      → Halts Over (main J listen k junk turns D garbage ("-s" ∷ []) memory w)
  unfolding main iperf_new_test zero_test
  main-Over w last own fails enough = elim (Reply-cases (w.reply w.clock)) [
    | inr (e, f) ↦ rw (f, syscall_value) (no_test-Over _)
    | inl (p, f) ↦ elim (Reply-cases (w.reply (suc w.clock))) [
      | inr (e, g) ↦ rw (f, syscall_value, g) (no_test-Over _)
      | inl (q, g) ↦
          rw (f, syscall_value, g)
            (started-Over (record (zero_test p) { outfile = stdout }) w
              (tick (calloc 88) (tick (calloc 432) w)) last refl (refl, refl, refl, refl, refl)
              (omega arith) (λ q own_q. own p q f own_q) fails enough)
    ]
  ]

  -- With room for a walk over one protocol, a `listen` that ends and keeps away from the control
  -- socket, what has been sent and the list of protocols, an allocator whose third block is no
  -- list head of the first, and a kernel of which every call from some number on fails: `main`
  -- with the word `-s` alone, and at least two more turns of the server's loop than that number,
  -- ends, in a crash or with 0 or -1, and with what has been sent as for any kernel (nothing, or
  -- some of the bytes of a trace of the machine, through one descriptor).
  pub main-Halts :
      (w : World) (last : ℕ)
      → OwnBlocks w
      → FailsFrom last w.reply
      → last + 1 < turns
      → Halts (Finishes w) (main J listen k junk turns D garbage ("-s" ∷ []) memory w)
  main-Halts w last own fails enough =
      let m = main J listen k junk turns D garbage ("-s" ∷ []) memory w in
      weaken-Halts (λ r w'. Over r w' × Finishes w r w') (Finishes w) m
        (Halts-Ends Over (Finishes w) m (main-Over w last own fails enough)
          (main-Finishes D garbage k J listen minds junk turns memory w))
        λ r w' p. p.1
