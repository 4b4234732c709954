-- ===== src/Cli.antt =====
-- iperf/src/main.c and iperf/src/iperf_client_api.c.
-- Messages are left out.
pub mod Options
pub mod Arguments
pub mod Rate
pub mod InRole
pub mod Roles
pub mod Startup
pub mod Service
pub mod Whole
pub mod Termination
use Prim.Native.Char.{Char, code}
use Prim.Native.String.{String}
use kernel_testkit.Base.{
  ℕ, ◌+◌, ◌-◌, ◌*◌, ◌/◌, ◌^◌, ◌==◌, ltb, leb, min, Bool, true, false, not, ◌&&◌, ◌||◌,
  if◌then◌else◌, Option, none, some, List, [], ◌∷◌,
}
use kernel_testkit.Base.Int.{ℤ, pos, negsuc, minus_one, is_neg, pos_part, ◌==ℤ◌, to_int}
use kernel_testkit.Base.Run.{Run, ok, crash, out_of_fuel, Cmd, pure, ◌>>=◌, ◌>>◌}
use kernel_testkit.Base.Text.{atoi, first_byte}
use kernel_testkit.World.{World}
use kernel_testkit.Utils.{Double, unit_atof_rate}
use kernel_testkit.Getopt.{Long, getopt_long}
use kernel_testkit.Test.{Test, State, Memory, gets, modify, settings, iperf_new_test}
use kernel_testkit.Test.Fields.{iperf_set_test_server_hostname}
use kernel_testkit.Protocols.{set_protocol, iperf_set_test_role, iperf_defaults}
use kernel_testkit.Json.{Json}
use kernel_testkit.Params.{pudp}
use kernel_testkit.Server.{iperf_run_server}

-- `MAX_MSS`
abbrev pub max_mss : ℕ
max_mss = 9 * 1024

-- `OPT_CLIENT_PORT`
abbrev pub opt_client_port : ℕ
opt_client_port = 5

-- `OPT_LOGFILE`
abbrev pub opt_logfile : ℕ
opt_logfile = 2

-- The short options; a colon stands behind those that take an argument.
abbrev pub optstring : String
optstring = "p:f:D1VJvsc:ub:t:n:k:l:P:Rw:B:M:N46S:L:ZO:F:A:T:C:dI:hX:"

abbrev without_value : String → ℕ → Long
without_value name val = record { name = name; has_arg = false; val = val }

abbrev with_value : String → ℕ → Long
with_value name val = record { name = name; has_arg = true; val = val }

abbrev pub longopts : List Long
longopts =
    with_value "port" 112
    ∷ with_value "format" 102
    ∷ without_value "verbose" 86
    ∷ without_value "json" 74
    ∷ without_value "version" 118
    ∷ without_value "server" 115
    ∷ with_value "client" 99
    ∷ without_value "udp" 117
    ∷ with_value "bitrate" 98
    ∷ with_value "bandwidth" 98
    ∷ with_value "time" 116
    ∷ with_value "bytes" 110
    ∷ with_value "blockcount" 107
    ∷ with_value "length" 108
    ∷ with_value "parallel" 80
    ∷ without_value "reverse" 82
    ∷ with_value "window" 119
    ∷ with_value "bind" 66
    ∷ with_value "cport" opt_client_port
    ∷ with_value "set-mss" 77
    ∷ without_value "no-delay" 78
    ∷ without_value "zerocopy" 90
    ∷ with_value "affinity" 65
    ∷ with_value "pidfile" 73
    ∷ with_value "logfile" opt_logfile
    ∷ without_value "help" 104
    ∷ []

-- The letters that `-f` takes: k, K, m, M, g, G, t, T.
unfoldable pub is_unit : ℕ → Bool
is_unit c =
    ((c == 107) || (c == 75))
    || ((c == 109) || (c == 77))
    || (((c == 103) || (c == 71)) || ((c == 116) || (c == 84)))

-- An option that requires an argument has one.
abbrev pub with_arg : Option String → (String → Cmd State ℤ) → Cmd State ℤ
with_arg none m = λ s. crash
with_arg (some a) m = m a

abbrev pub set_role : (role other : ℕ) → Cmd State ℤ → Cmd State ℤ
set_role role other m = do
  old ← gets (λ t. t.role)
  if old == other then pure minus_one else (iperf_set_test_role role >> m)

unfoldable pub set_format : String → Cmd State ℤ
set_format a = do
  modify (settings λ s. record s { unit_format = first_byte a })
  pure (if is_unit (first_byte a) then pos 0 else minus_one)

unfoldable pub set_max_segment : String → Cmd State ℤ
set_max_segment a = do
  modify (settings λ s. record s { mss = atoi a })
  pure (if ltb max_mss (pos_part (atoi a)) then minus_one else pos 0)

module _ (D : Double) (garbage : D.Num) (k : ℕ) where
  -- The `switch`: 0 to go on, -1 where the function returns -1. `k` is for `set_protocol`.
  unfoldable pub take_option : ℕ → Option String → Cmd State ℤ
  take_option flag optarg =
      if flag == 112
      then with_arg optarg (λ a. modify (λ t. record t { server_port = atoi a }) >> pure (pos 0))
      else (if flag == 102
          then with_arg optarg set_format
          else (if flag == 86
              then (modify (λ t. record t { verbose = pos 1 }) >> pure (pos 0))
              else (if flag == 115
                  then set_role 115 99 (pure (pos 0))
                  else (if flag == 99
                      then set_role 99 115 (
                          with_arg optarg
                            λ a. modify (iperf_set_test_server_hostname a) >> pure (pos 0))
                      else (if flag == 117
                          then (set_protocol k pudp >> pure (pos 0))
                          else (if flag == 98
                              then with_arg optarg (λ a.
                                modify (
                                  settings λ s. record s {
                                    rate = D.to_uint64 (unit_atof_rate D garbage a);
                                  })
                                >> pure (pos 0))
                              else (if flag == 116
                                  then with_arg optarg (λ a.
                                    modify (λ t. record t { duration = atoi a }) >> pure (pos 0))
                                  else (if flag == opt_client_port
                                      then with_arg optarg (λ a.
                                        modify (λ t. record t { bind_port = atoi a })
                                        >> pure (pos 0))
                                      else (if flag == 77
                                          then with_arg optarg set_max_segment
                                          else pure (pos 0))))))))))

  -- The `while` loop over what `getopt_long` delivers, and the test of the role.
  unfoldable pub take_options : List (ℕ × Option String) → Cmd State ℤ
  take_options [] = do
    role ← gets (λ t. t.role)
    pure (if not (role == 99) && not (role == 115) then minus_one else pos 0)
  take_options ((flag, optarg) ∷ rest) =
      let more = take_options rest in
      (do r ← take_option flag optarg; if is_neg r then pure minus_one else more)

  -- `words` is `argv` behind the name of the program.
  unfoldable pub iperf_parse_arguments : (words : List String) → Cmd State ℤ
  iperf_parse_arguments words = take_options (getopt_long optstring longopts words)

abbrev pub iperf_run_client : Cmd State ℤ
iperf_run_client = pure (pos 0)

-- The state is gone when the program ends.
abbrev pub drop_state : Run State ℤ → Run World ℤ
drop_state (ok r s) = ok r s.world
drop_state crash = crash
drop_state out_of_fuel = out_of_fuel

module _ (J : Json) (listen : Cmd State ℤ) (k : ℕ) (junk : List ℕ) (turns : ℕ) where
  -- `run` returns 0, whatever the server or the client did.
  unfoldable pub run : Cmd State ℤ
  run = do
    role ← gets (λ t. t.role)
    if role == 115
        then (iperf_run_server J listen k junk turns >> pure (pos 0))
        else (if role == 99 then (iperf_run_client >> pure (pos 0)) else pure (pos 0))

  module _ (D : Double) (garbage : D.Num) (words : List String) (memory : Memory) where
    -- `main` from the test of `iperf_new_test` on. `memory` is what the memory holds before.
    unfoldable pub main_with : Run World (Option Test) → Run World ℤ
    main_with crash = crash
    main_with out_of_fuel = out_of_fuel
    main_with (ok none w) = ok minus_one w
    main_with (ok (some t) w) = drop_state (
        (do iperf_defaults; iperf_parse_arguments D garbage k words; run; pure (pos 0))
          (record { test = t; memory = memory; world = w; reports = [] }))

    unfoldable pub main : Cmd World ℤ
    main w = main_with (iperf_new_test w)
