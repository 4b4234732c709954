-- ===== src/Cli/Service.antt =====
-- `main` of iperf/src/main.c as a whole: a server from its start to its end.
use kernel_testkit.Base.{
  ℕ, ◌==◌, ◌≡◌, subst, refl, ap, ◌∙◌, ◌⊎◌, inl, inr, Option, none, some, List, [], ◌∷◌, arith,
}
use kernel_testkit.Base.Int.{ℤ, pos, minus_one}
use kernel_testkit.Base.Run.{
  Run, ok, crash, out_of_fuel, Cmd, pure, ◌>>◌, and_then, Returns, Returns-ok,
}
use kernel_testkit.Server.{iperf_run_server}
use kernel_testkit.World.{World}
use kernel_testkit.Cli.Startup.{Fresh, defaults-Fresh}
use kernel_testkit.Test.New.{Blank, Made, iperf_new_test-Made}
use kernel_testkit.Test.{Test, State, Memory, stdout, iperf_new_test}
use kernel_testkit.Protocols.{iperf_defaults, iperf_set_test_role, check_sender_has_retransmits}
use kernel_testkit.Json.{Json}
use kernel_testkit.Control.Halting.{Fixed}
use kernel_testkit.Getopt.{getopt_loop, read_word, shorts, find_short}
use kernel_testkit.Utils.{Double}
use kernel_testkit.Cli.{
  take_option, take_options, iperf_parse_arguments, drop_state, run, main_with, main,
}

-- A server without a client, that prints to `stdout`, where nothing has been sent.
abbrev pub Serving : World → State → Type 0
Serving w s =
    (s.test.role ≡ 115)
    × (s.test.ctrl_sck ≡ minus_one)
    × (s.test.outfile ≡ stdout)
    × (s.test.state ≡ pos 0)
    × (s.world.outbox ≡ w.outbox)

module _ (J : Json) (listen : Cmd State ℤ) (k : ℕ) (junk : List ℕ) (turns : ℕ) where
  -- The server runs, and 0 is the result whatever it returns; or -1 where there is no test.
  abbrev pub Runs : World → Run World (Option Test) → Run World ℤ → Type 0
  Runs w₀ made m =
      ((s : State) × Serving w₀ s
        × (m ≡ drop_state ((iperf_run_server J listen k junk turns >> pure (pos 0)) s)))
      ⊎ ((w : World) × (made ≡ ok none w) × (w.outbox ≡ w₀.outbox) × (m ≡ ok minus_one w))

module _ (D : Double) (garbage : D.Num) (k : ℕ) where
  server_set :
      (w : World) (s : State)
      → Blank s.test × (s.test.ctrl_sck ≡ minus_one) × (s.world.outbox ≡ w.outbox)
      → Returns
          (λ r s'. Serving w s' × Fixed s r s')
          (iperf_parse_arguments D garbage k ("-s" ∷ []) s)
  unfolding iperf_parse_arguments take_options take_option getopt_loop read_word shorts find_short
      iperf_set_test_role check_sender_has_retransmits
  server_set w s ((p, r, e, o, z), c, out) = ground arith

  module _ (J : Json) (listen : Cmd State ℤ) (junk : List ℕ) (turns : ℕ) (memory : Memory) where
    same_result :
        (m : Run State ℤ)
        → and_then (and_then m (λ _. pure (pos 0))) (λ _. pure (pos 0))
          ≡ and_then m (λ _. pure (pos 0))
    same_result (ok r s) = refl
    same_result crash = refl
    same_result out_of_fuel = refl

    run-server :
        (s : State)
        → s.test.role ≡ 115
        → (run J listen k junk turns >> pure (pos 0)) s
          ≡ (iperf_run_server J listen k junk turns >> pure (pos 0)) s
    unfolding run
    run-server s e =
        rw (ap (λ q. q == 115) e) (same_result (iperf_run_server J listen k junk turns s))

    -- What `main` has done when the server starts.
    pub started-Serving :
        (t : Test) (w₀ w : World)
        → w.outbox ≡ w₀.outbox
        → Blank t
        → (r : ℤ) × (s1 : State) × (s : State) × (iperf_defaults
              (record { test = t; memory = memory; world = w; reports = [] })
            ≡ ok r s1)
          × Fixed s1 tt s
          × Serving w₀ s
          × (main_with J listen k junk turns D garbage ("-s" ∷ []) memory (ok (some t) w)
              ≡ drop_state ((iperf_run_server J listen k junk turns >> pure (pos 0)) s))
    unfolding main_with
    started-Serving t w₀ w out b =
        let s : State = record { test = t; memory = memory; world = w; reports = [] } in
        let (r, s1, e, b') =
          Returns-ok (λ _ s'. Fresh s s') (iperf_defaults s) (defaults-Fresh s b) in
        let (r2, s2, e2, (serves, fixed)) =
          Returns-ok (λ r s'. Serving w₀ s' × Fixed s1 r s')
            (iperf_parse_arguments D garbage k ("-s" ∷ []) s1)
            (server_set w₀ s1 (b'.0, b'.1, b'.2 ∙ out)) in
        (r, s1, s2, e, fixed, serves, rw (e, e2) (ap drop_state (run-server s2 (serves.0))))

    main_with-Runs :
        (m : Run World (Option Test))
        → (w₀ : World) → Returns (Made w₀) m
        → Runs J listen k junk turns w₀ m
            (main_with J listen k junk turns D garbage ("-s" ∷ []) memory m)
    unfolding main_with
    main_with-Runs crash w₀ h = absurd h
    main_with-Runs out_of_fuel w₀ h = absurd h
    main_with-Runs (ok none w) w₀ (out, made) = inr (w, refl, out, refl)
    main_with-Runs (ok (some t) w) w₀ (out, inl (h, b)) = cc
    main_with-Runs (ok (some t) w) w₀ (out, inr (t', set, p, e, b, held)) =
        let same : t' ≡ t = cc in
        let (r, s1, s, d, f, serves, q) = started-Serving t w₀ w out (subst Blank same b) in
        inl (s, serves, q)

    -- Whatever the kernel answers, `main` with the word `-s` alone runs `iperf_run_server` on a
    -- test with the role of a server, without a client and with its output open, and then
    -- returns 0, whatever the server returned; or it returns -1, if `iperf_new_test` has no
    -- memory.
    pub main-Runs :
        (w : World)
        → Runs J listen k junk turns w
            (iperf_new_test w)
            (main J listen k junk turns D garbage ("-s" ∷ []) memory w)
    unfolding main
    main-Runs w = main_with-Runs (iperf_new_test w) w (iperf_new_test-Made w)
