-- ===== src/Examples/Runs.antt =====
-- The theorems on the command line, and on a server that takes its client.
use Prim.Native.String.{String}
use kernel_testkit.Base.{
  ℕ, suc, ltb, if◌then◌else◌, ◌*◌, ◌≡◌, refl, some, List, [], ◌∷◌, ◌++◌, arith, inl, true,
}
use kernel_testkit.Base.Int.{pos, minus_one}
use kernel_testkit.Base.Run.{ok, out_of_fuel, Returns, pure}
use kernel_testkit.Test.{State, zero_test, iperf_new_test}
use kernel_testkit.Wire.Transfer.{frame}
use kernel_testkit.Control.{state_byte, param_exchange, create_streams}
use kernel_testkit.Server.{iperf_accept, server_loop}
use kernel_testkit.Server.Served.{server_loop-served}
use kernel_testkit.Server.Handshake.{Answers, greeted, iperf_accept-Answers}
use kernel_testkit.Getopt.{
  getopt_long, getopt_loop, read_word, shorts, find_short, find_long, exact, abbreviated, all_like,
  split, starts_with,
}
use kernel_testkit.World.{World, Reply, done, fail, eintr}
use kernel_testkit.Examples.Data.{
  two_protocols, steady, steady-IsReliable, world_with, ring_10, state_with, client_test,
  server_test, printed_text, toy, toy-JsonLaws,
}
use kernel_testkit.Cli.Roles.{has, iperf_parse_arguments-Fails}
use kernel_testkit.Cli.Startup.{Outcome, main-crash}
use kernel_testkit.Cli.Termination.{OwnBlocks, main-Halts}
use kernel_testkit.Base.Halting.{Halts}
use kernel_testkit.Cli.Whole.{Finishes, main-Finishes}
use kernel_testkit.Base.Partial.{Ends}
use kernel_testkit.Utils.{Double}
use kernel_testkit.Cli.{take_option, iperf_parse_arguments, optstring, longopts, main}
use kernel_testkit.Cli.Arguments.{Accepts, iperf_parse_arguments-Accepts}
use kernel_testkit.Cli.Rate.{DoubleLaws, take_option-rate}
use kernel_testkit.Examples.Messages.{client_printed, client_IsSendable}

abbrev free : State
free =
    state_with (record server_test { ctrl_sck = minus_one })
      (world_with steady (frame printed_text ++ (1 ∷ [])))

iperf_accept-Answers_example :
    Returns
      (Answers
        (greeted client_test 12 (pos 100) free.test)
        (pos 100)
        (state_byte param_exchange ++ state_byte create_streams)
        free)
      (iperf_accept toy (pure (pos 5)) 3 [] free)
iperf_accept-Answers_example =
    iperf_accept-Answers toy toy-JsonLaws [] printed_text client_test refl client_printed
      (omega arith) client_IsSendable (pure (pos 5)) (λ s. (refl, (refl, refl, refl, refl))) 3 []
      (1 ∷ []) free (11 ∷ 12 ∷ []) 12 100 refl (ground arith) refl refl ring_10 (omega arith) refl
      refl (ground arith) steady-IsReliable refl

server_loop-served_example : server_loop toy (pure (pos 5)) 3 [] 1000 free ≡ out_of_fuel
unfolding zero_test
server_loop-served_example =
    server_loop-served toy toy-JsonLaws [] printed_text client_test refl client_printed
      (omega arith) client_IsSendable (pure (pos 5)) (λ s. (refl, (refl, refl, refl, refl))) 3 []
      (1 ∷ []) free (11 ∷ 12 ∷ []) 12 100 1000 refl refl (ground arith) refl refl ring_10
      (omega arith) refl refl (ground arith) steady-IsReliable refl

-- Numbers that are exact, and a scan that always finds 5 million.
abbrev whole : Double
whole = record {
  Num = ℕ;
  scan = λ s. some (5, some 77);
  times = λ a b. a * b;
  of_nat = λ a. a;
  to_uint64 = λ a. a;
}

abbrev whole-DoubleLaws : DoubleLaws whole
whole-DoubleLaws = record { times_exact = λ a b h. refl; uint64_exact = λ a h. refl }

abbrev start : State
start =
    state_with
      (record (zero_test 100) {
        protocol = 12;
        protocols = 10;
        settings = record ((zero_test 100).settings) { unit_format = 97; mss = pos 0 };
      })
      (world_with steady [])

take_option-rate_example :
    take_option whole 0 3 98 (some "5M") start
    ≡ ok (pos 0) (record start {
      test = record (start.test) { settings = record (start.test.settings) { rate = 5000000 } };
    })
take_option-rate_example =
    take_option-rate whole whole-DoubleLaws 0 3 "5M" 5 (some 77) start refl (omega arith)

abbrev words : List String
words = "-sV" ∷ "--port" ∷ "5202" ∷ "extra" ∷ []

iperf_parse_arguments-Accepts_example :
    Returns (Accepts (11 ∷ 12 ∷ [])) (iperf_parse_arguments whole 0 3 words start)
iperf_parse_arguments-Accepts_example =
    iperf_parse_arguments-Accepts whole 0 3 (11 ∷ 12 ∷ []) (omega arith) refl words start
      ((omega arith, inl refl), ring_10, ground arith)

abbrev both_roles : List String
both_roles = "-s" ∷ "--client=host" ∷ []

server_named : has 115 (getopt_long optstring longopts both_roles) ≡ true
unfolding has getopt_loop read_word shorts find_short find_long exact abbreviated all_like split
    starts_with
server_named = refl

client_named : has 99 (getopt_long optstring longopts both_roles) ≡ true
unfolding has getopt_loop read_word shorts find_short find_long exact abbreviated all_like split
    starts_with
client_named = refl

iperf_parse_arguments-Fails_example :
    Returns (λ r _. r ≡ minus_one) (iperf_parse_arguments whole 0 3 both_roles start)
iperf_parse_arguments-Fails_example =
    iperf_parse_arguments-Fails whole 0 3 (11 ∷ 12 ∷ []) both_roles start (omega arith) refl
      ((omega arith, inl refl), ring_10, ground arith) server_named client_named

abbrev w : World
w = world_with steady []

main-crash_example :
    Outcome
      (iperf_new_test w)
      (main toy (pure (pos 5)) 3 [] 10 whole 0 ("-c" ∷ "host" ∷ []) two_protocols w)
main-crash_example = main-crash whole 0 3 toy (pure (pos 5)) [] 10 two_protocols "host" [] w

main-Finishes_example :
    Ends (Finishes w) (main toy (pure (pos 5)) 3 [] 10 whole 0 ("-s" ∷ []) two_protocols w)
main-Finishes_example =
    main-Finishes whole 0 3 toy (pure (pos 5)) (λ s. (refl, refl, refl)) [] 10 two_protocols w

-- A kernel whose answers are all different, and that fails from its call number 9 on.
abbrev nine_calls : ℕ → Reply
nine_calls i = if ltb i 9 then done (1000 * suc i) else fail eintr

abbrev brief : World
brief = world_with nine_calls []

brief-OwnBlocks : OwnBlocks brief
brief-OwnBlocks p q a b = ground arith

main-Halts_example :
    Halts (Finishes brief) (main toy (pure (pos 5)) 3 [] 20 whole 0 ("-s" ∷ []) two_protocols brief)
main-Halts_example =
    main-Halts whole 0 3 (omega arith) toy (pure (pos 5)) (λ s. (refl, refl, refl))
      (λ s. (refl, refl, refl)) [] 20 two_protocols brief 9 brief-OwnBlocks
      (λ i late. (eintr, ground arith)) (omega arith)
