-- ===== src/Cli/Startup.antt =====
-- `main` of iperf/src/main.c as a whole: how a client starts.
use Prim.Native.String.{String}
use kernel_testkit.Base.{
  ℕ, ◌==◌, ◌≡◌, subst, refl, ap, ◌∙◌, ◌⊎◌, inl, inr, false, Option, none, some, List, [], ◌∷◌,
  arith,
}
use kernel_testkit.Base.Int.{ℤ, minus_one, truth}
use kernel_testkit.Base.Run.{Run, ok, crash, out_of_fuel, Cmd, Returns, Returns-ok}
use kernel_testkit.World.{World, syscall_value}
use kernel_testkit.Test.New.{Blank, Made, iperf_new_test-Made}
use kernel_testkit.Test.{Test, State, Memory, iperf_new_test}
use kernel_testkit.Protocols.{iperf_defaults, protocol_new}
use kernel_testkit.Protocols.Role.{iperf_set_test_role-crash}
use kernel_testkit.Json.{Json}
use kernel_testkit.Getopt.{getopt_long, getopt_loop, read_word, shorts, find_short}
use kernel_testkit.Utils.{Double}
use kernel_testkit.Cli.{
  optstring, longopts, take_option, take_options, iperf_parse_arguments, main_with, main,
}

-- After the defaults: such a test, without a client, and nothing has been sent.
abbrev pub Fresh : State → State → Type 0
Fresh s s' = Blank s'.test × (s'.test.ctrl_sck ≡ minus_one) × (s'.world.outbox ≡ s.world.outbox)

pub defaults-Fresh : (s : State) → Blank s.test → Returns (λ _ s'. Fresh s s') (iperf_defaults s)
unfolding iperf_defaults protocol_new syscall_value
defaults-Fresh s b = ground arith

delivered :
    (host : String) (rest : List String)
    → getopt_long optstring longopts ("-c" ∷ host ∷ rest)
      ≡ (99, some host) ∷ getopt_long optstring longopts rest
unfolding getopt_loop read_word shorts find_short
delivered host rest = refl

-- A crash, or -1 where there is no test.
abbrev pub Outcome : Run World (Option Test) → Run World ℤ → Type 0
Outcome made m = (m ≡ crash) ⊎ ((w : World) × (made ≡ ok none w) × (m ≡ ok minus_one w))

module _ (D : Double) (garbage : D.Num) (k : ℕ) where
  option-crash :
      (host : String) (s : State) → Blank s.test → take_option D garbage k 99 (some host) s ≡ crash
  unfolding take_option
  option-crash host s (p, r, e, o, z) =
      let fresh : (s.test.role == 115) ≡ false = ground arith in
      let forward : truth s.test.reverse ≡ false = ground arith in
      rw (fresh, iperf_set_test_role-crash s p forward) refl

  client-crash :
      (host : String) (rest : List String) (s : State)
      → Blank s.test
      → iperf_parse_arguments D garbage k ("-c" ∷ host ∷ rest) s ≡ crash
  unfolding iperf_parse_arguments take_options
  client-crash host rest s b =
      ap (λ o. take_options D garbage k o s) (delivered host rest) ∙ rw (option-crash host s b) refl

  module _ (J : Json) (listen : Cmd State ℤ) (junk : List ℕ) (turns : ℕ) (memory : Memory) where
    started-crash :
        (host : String) (rest : List String) (t : Test) (w : World)
        → Blank t
        → main_with J listen k junk turns D garbage ("-c" ∷ host ∷ rest) memory (ok (some t) w)
          ≡ crash
    unfolding main_with
    started-crash host rest t w b =
        let s : State = record { test = t; memory = memory; world = w; reports = [] } in
        let (r, s', e, b') =
          Returns-ok (λ _ s'. Fresh s s') (iperf_defaults s) (defaults-Fresh s b) in
        rw (e, client-crash host rest s' (b'.0)) refl

    main_with-crash :
        (host : String) (rest : List String) (m : Run World (Option Test))
        → (w₀ : World) → Returns (Made w₀) m
        → Outcome m (main_with J listen k junk turns D garbage ("-c" ∷ host ∷ rest) memory m)
    unfolding main_with
    main_with-crash host rest crash w₀ h = absurd h
    main_with-crash host rest out_of_fuel w₀ h = absurd h
    main_with-crash host rest (ok none w) w₀ h = inr (w, refl, refl)
    main_with-crash host rest (ok (some t) w) w₀ (out, inl (h, b)) = cc
    main_with-crash host rest (ok (some t) w) w₀ (out, inr (t', set, p, e, b, held)) =
        let same : t' ≡ t = cc in inl (started-crash host rest t w (subst Blank same b))

    -- Whatever the kernel answers, `main` with the words `-c`, a host and any others follows a
    -- NULL pointer, as the defaults leave a test without a protocol; or it returns -1, if
    -- `iperf_new_test` has no memory.
    pub main-crash :
        (host : String) (rest : List String) (w : World)
        → Outcome
            (iperf_new_test w)
            (main J listen k junk turns D garbage ("-c" ∷ host ∷ rest) memory w)
    unfolding main
    main-crash host rest w = main_with-crash host rest (iperf_new_test w) w (iperf_new_test-Made w)
