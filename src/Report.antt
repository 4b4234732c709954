-- ===== src/Report.antt =====
-- `iperf_printf` and `iperf_on_connect` of iperf/src/iperf_api.c.
pub mod Numeral
pub mod Printed
pub mod Connect
pub mod Typed
use Prim.Native.String.{String}
use kernel_testkit.Base.{
  ℕ, ◌/◌, ◌%◌, ◌^◌, ◌==◌, ltb, Bool, true, false, if◌then◌else◌, Option, none, some, List, [], ◌∷◌,
  ◌++◌, length, take,
}
use kernel_testkit.Base.Int.{ℤ, pos, minus_one, ◌==ℤ◌, to_int}
use kernel_testkit.Base.Run.{ok, crash, Cmd, pure, ◌>>=◌, ◌>>◌}
use kernel_testkit.Base.Text.{utf8, decimal}
use kernel_testkit.World.{syscall_value, getpeername}
use kernel_testkit.Sockets.{getsockdomain, af_inet}
use kernel_testkit.Locale.Reports.{report_connecting, report_accepted}
use kernel_testkit.Print.{Arg, text, number, unset, format}
use kernel_testkit.Test.{Test, State, File, no_file, stdout, gets, lift}

-- `fprintf(test->outfile, …)`; the file may be NULL.
unfoldable pub print_text : Option (List ℕ) → Cmd State (Unit {0})
print_text t s = elim s.test.outfile [
  | no_file ↦ crash
  | stdout ↦ ok tt (record s { reports = t ∷ s.reports })
]

-- The number that `vfprintf` and `vsnprintf` return: the length of the whole text, or -1 where it
-- is no `int`.
abbrev pub printed_length : Option (List ℕ) → Option ℤ
printed_length none = none
printed_length (some b) = some (if ltb (length b) (2 ^ 31) then pos (length b) else minus_one)

-- `char linebuffer[1024]`
abbrev pub cut : Option (List ℕ) → Option (List ℕ)
cut none = none
cut (some b) = some (take 1023 b)

unfoldable pub iperf_printf : List ℕ → List Arg → Cmd State (Option ℤ)
unfolding print_text
iperf_printf fmt args = do
  role ← gets (λ t. t.role)
  if role == 99
      then (print_text (format false fmt args) >> pure (printed_length (format false fmt args)))
      else (if role == 115
          then (print_text (cut (format false fmt args))
              >> pure (printed_length (format false fmt args)))
          else pure (some minus_one))

-- `%s` of a `char *`, as the GNU library prints NULL.
abbrev pub text_or_null : Option String → Arg
text_or_null none = text (utf8 "(null)")
text_or_null (some s) = text (utf8 s)

-- `inet_ntop` of an IPv4 address.
unfoldable pub inet_ntop : ℕ → List ℕ
inet_ntop a =
    decimal (pos (a / 2 ^ 24 % 256))
    ++ (46 ∷ decimal (pos (a / 2 ^ 16 % 256))
        ++ (46 ∷ decimal (pos (a / 2 ^ 8 % 256)) ++ (46 ∷ decimal (pos (a % 256)))))

-- The address and the port of the peer, if they were written to. `getpeername` answers with an
-- address of 32 bits and a port of 16.
abbrev pub peer_args : Bool → Option ℕ → List Arg
peer_args true (some n) = text (inet_ntop (n / 2 ^ 16)) ∷ number (pos (n % 2 ^ 16)) ∷ []
peer_args _ _ = unset ∷ unset ∷ []

abbrev pub connecting_args : Test → List Arg
connecting_args t = text_or_null t.server_hostname ∷ number t.server_port ∷ []

-- The report on a new connection; the time is not printed.
unfoldable pub iperf_on_connect : Cmd State (Unit {0})
unfolding syscall_value
iperf_on_connect = do
  t ← gets (λ t. t)
  if t.role == 99
      then (iperf_printf (utf8 report_connecting) (connecting_args t) >> pure tt)
      else (do
        peer ← lift (syscall_value (getpeername t.ctrl_sck))
        family ← lift (getsockdomain t.ctrl_sck)
        iperf_printf (utf8 report_accepted) (peer_args (family ==ℤ af_inet) peer) >> pure tt)

-- The other callbacks of a test do nothing.
abbrev pub iperf_on_new_stream : Cmd State (Unit {0})
iperf_on_new_stream = pure tt

abbrev pub iperf_on_test_start : Cmd State (Unit {0})
iperf_on_test_start = pure tt

abbrev pub iperf_on_test_finish : Cmd State (Unit {0})
iperf_on_test_finish = pure tt
