-- ===== src/Examples/Reports.antt =====
-- The theorems on reports, at one server whose peer is 127.0.0.1, port 2000.
use kernel_testkit.Base.{
  ℕ, arith, ltb, false, ◌^◌, ◌==◌, ◌≡◌, ◌⊎◌, inr, refl, min, if◌then◌else◌, none, some, List, [],
  ◌∷◌, ◌++◌, length,
}
use kernel_testkit.Base.Int.{minus_one, pos}
use kernel_testkit.Base.Run.{Returns}
use kernel_testkit.Base.Text.{utf8}
use kernel_testkit.World.{World, Reply, done}
use kernel_testkit.Test.{State}
use kernel_testkit.Locale.Reports.{report_accepted}
use kernel_testkit.Print.{Arg, text, number, kinds, format}
use kernel_testkit.Print.Types.{is_plain}
use kernel_testkit.Report.{iperf_printf, iperf_on_connect}
use kernel_testkit.Report.Printed.{iperf_printf-bounded}
use kernel_testkit.Report.Connect.{accepted_text, peer_of, iperf_on_connect-accepted}
use kernel_testkit.Report.Typed.{
  Takes, name_and_port, Reported, GivesPeer, iperf_on_connect-Reported,
}
use kernel_testkit.Examples.Data.{world_with, state_with, server_test}

abbrev peer : ℕ
peer = peer_of 127 0 0 1 2000

-- The peer, and then AF_INET.
abbrev over_ipv4 : ℕ → Reply
over_ipv4 n = done (if n == 0 then peer else 2)

abbrev w : World
w = world_with over_ipv4 []

abbrev server : State
server = state_with server_test w

iperf_on_connect-accepted_example :
    Returns
      (λ _ s'.
        s'.reports
        ≡ (if 2 == 2 then some (accepted_text 127 0 0 1 2000) else none) ∷ server.reports)
      (iperf_on_connect server)
iperf_on_connect-accepted_example =
    iperf_on_connect-accepted 127 0 0 1 2000 (omega arith) (omega arith) (omega arith) (omega arith)
      (omega arith) server 2 refl refl refl refl

abbrev fmt : List ℕ
fmt = utf8 report_accepted

abbrev args : List Arg
args = text (49 ∷ 46 ∷ 50 ∷ []) ∷ number (pos 80) ∷ []

fmt-Takes : Takes fmt name_and_port
unfolding kinds is_plain utf8
fmt-Takes = (refl, refl)

iperf_printf-bounded_example :
    (t : List ℕ) × (format false fmt args ≡ some t)
    × Returns
        (λ r s'.
          (r ≡ some (if ltb (length t) (2 ^ 31) then pos (length t) else minus_one))
          × (shown : List ℕ) × (rest : List ℕ) × (t ≡ shown ++ rest)
          × (length shown ≡ min 1023 (length t))
          × (s'.reports ≡ some shown ∷ server.reports))
        (iperf_printf fmt args server)
iperf_printf-bounded_example =
    iperf_printf-bounded fmt args name_and_port server refl refl (fmt-Takes.1) (fmt-Takes.0)
      (refl, (refl, tt))

iperf_on_connect-Reported_example :
    Returns
      (λ _. Reported ((server.test.role ≡ 99) ⊎ GivesPeer server.world) server)
      (iperf_on_connect server)
iperf_on_connect-Reported_example = iperf_on_connect-Reported server refl (inr refl)
