-- ===== src/Report/Connect.antt =====
-- What `iperf_on_connect` prints, and what it leaves alone.
use kernel_testkit.Base.{
  ℕ, suc, ◌+◌, ◌*◌, ◌<◌, ◌≤◌, length, length-append, take, take_all, arith, ◌/◌, ◌%◌, ◌^◌, ◌==◌,
  ◌≡◌, inl, inr, refl, ap, ◌∙◌, Bool, true, false, Bool-cases, if◌then◌else◌, none, some, List, ◌∷◌,
  ◌++◌,
}
use kernel_testkit.Base.Int.{ℤ, pos, ◌==ℤ◌}
use kernel_testkit.Base.Run.{Returns, pure, ◌>>◌, bind}
use kernel_testkit.Base.Text.{utf8, decimal}
use kernel_testkit.World.{
  World, Call, done, Reply-cases, syscall_value, getpeername, getsockname, tick,
}
use kernel_testkit.Sockets.{af_inet, getsockdomain}
use kernel_testkit.Locale.Reports.{report_accepted}
use kernel_testkit.Print.{Arg, format}
use kernel_testkit.Test.{State, stdout, lift}
use kernel_testkit.Test.Lift.{Lifted, lift-Returns}
use kernel_testkit.Report.{iperf_printf, iperf_on_connect, cut, peer_args, inet_ntop}
use kernel_testkit.Report.Numeral.{numeral, length-numeral, decimal-numeral}
use kernel_testkit.Report.Printed.{Prints, iperf_printf-Prints}

-- Nothing of the test has changed, and nothing has been sent.
abbrev pub Silent : State → State → Type 0
Silent s s' =
    (s'.test ≡ s.test)
    × (s'.memory ≡ s.memory)
    × (s'.world.reply ≡ s.world.reply)
    × (s'.world.outbox ≡ s.world.outbox)

abbrev Mute : {A : Type 0} → World → A → World → Type 0
Mute w _ w' = (w'.reply ≡ w.reply) × (w'.outbox ≡ w.outbox)

syscall_value-Mute : (c : Call) (w : World) → Returns (Mute w) (syscall_value c w)
unfolding syscall_value
syscall_value-Mute c w = elim (Reply-cases (w.reply w.clock)) [
  | inl (n, e) ↦ rw (e, syscall_value) (refl, refl)
  | inr (n, e) ↦ rw (e, syscall_value) (refl, refl)
]

getsockdomain-Mute : (fd : ℤ) (w : World) → Returns (Mute w) (getsockdomain fd w)
unfolding getsockdomain
getsockdomain-Mute fd w =
    bind (Mute w) (Mute w) (syscall_value _ w) _ (syscall_value-Mute _ w) λ f w' m. m

printf-Silent :
    (fmt : List ℕ) (args : List Arg) (s s' : State)
    → Silent s s'
    → s.test.outfile ≡ stdout
    → Returns (λ _ s''. Silent s s'') ((iperf_printf fmt args >> pure tt) s')
printf-Silent fmt args s s' (t, m, r, o) file =
    bind (Prints (format false fmt args) s') (λ _ s''. Silent s s'') (iperf_printf fmt args s') _
      (iperf_printf-Prints fmt args s' (ap (λ q. q.outfile) t ∙ file))
      λ n s'' ((t', m', w', out), z).
        (t' ∙ t, m' ∙ m, ap (λ q. q.reply) w' ∙ r, ap (λ q. q.outbox) w' ∙ o)

pub iperf_on_connect-Silent :
    (s : State) → s.test.outfile ≡ stdout → Returns (λ _ s'. Silent s s') (iperf_on_connect s)
unfolding iperf_on_connect
iperf_on_connect-Silent s file = elim (Bool-cases (s.test.role == 99)) [
  | inl c ↦ rw c (printf-Silent _ _ s s (refl, refl, refl, refl) file)
  | inr n ↦ rw n (
      bind (Lifted (Mute s.world) s) (λ _ s'. Silent s s')
        (lift (syscall_value (getpeername s.test.ctrl_sck)) s) _
        (lift-Returns (Mute s.world) (syscall_value (getpeername s.test.ctrl_sck)) s
          (syscall_value-Mute (getpeername s.test.ctrl_sck) s.world))
        λ peer s1 (w1, t1, m1, p1).
          bind (Lifted (Mute s1.world) s1) (λ _ s'. Silent s s')
            (lift (getsockdomain s.test.ctrl_sck) s1) _
            (lift-Returns (Mute s1.world) (getsockdomain s.test.ctrl_sck) s1
              (getsockdomain-Mute s.test.ctrl_sck s1.world))
            λ family s2 (w2, t2, m2, p2).
              printf-Silent _ _ s s2 (t2 ∙ t1, m2 ∙ m1, w2.0 ∙ w1.0, w2.1 ∙ w1.1) file)
]

-- The text of an accepted connection from an IPv4 address of four octets.
abbrev pub accepted_text : (a b c d port : ℕ) → List ℕ
accepted_text a b c d port =
    utf8 "Accepted connection from "
    ++ ((numeral a ++ (46 ∷ numeral b ++ (46 ∷ numeral c ++ (46 ∷ numeral d))))
        ++ (utf8 ", port " ++ (numeral port ++ utf8 "\n")))

-- An address of octets, and a port, as `getpeername` gives them.
abbrev pub peer_of : (a b c d port : ℕ) → ℕ
peer_of a b c d port = (((a * 256 + b) * 256 + c) * 256 + d) * 2 ^ 16 + port

accepted-format :
    (ipv4 : Bool) (n : ℕ)
    → format false (utf8 report_accepted) (peer_args ipv4 (some n)) ≡ (
        if ipv4
        then some (
            utf8 "Accepted connection from "
            ++ (inet_ntop (n / 2 ^ 16)
                ++ (utf8 ", port " ++ (decimal (pos (n % 2 ^ 16)) ++ utf8 "\n"))))
        else none)
unfolding format utf8
accepted-format true n = refl
accepted-format false n = refl

short :
    (xs ys zs ws ps : List ℕ)
    → length xs ≤ 5
    → length ys ≤ 5
    → length zs ≤ 5
    → length ws ≤ 5
    → length ps ≤ 5
    → length (
        utf8 "Accepted connection from "
        ++ ((xs ++ (46 ∷ ys ++ (46 ∷ zs ++ (46 ∷ ws)))) ++ (utf8 ", port " ++ (ps ++ utf8 "\n"))))
      ≤ 1023
unfolding utf8
short xs ys zs ws ps hx hy hz hw hp =
    let port = utf8 ", port " ++ (ps ++ utf8 "\n") in
    omega (
      arith,
      length-append (xs ++ (46 ∷ ys ++ (46 ∷ zs ++ (46 ∷ ws)))) port,
      length-append xs (46 ∷ ys ++ (46 ∷ zs ++ (46 ∷ ws))),
      length-append ys (46 ∷ zs ++ (46 ∷ ws)),
      length-append zs (46 ∷ ws),
      length-append ps (utf8 "\n"),
    )

module _ (a b c d port : ℕ) (ha : a < 256) (hb : b < 256) (hc : c < 256) (hd : d < 256)
    (hp : port < 2 ^ 16) where
  inet_ntop_lem :
      inet_ntop (peer_of a b c d port / 2 ^ 16)
      ≡ numeral a ++ (46 ∷ numeral b ++ (46 ∷ numeral c ++ (46 ∷ numeral d)))
  unfolding inet_ntop
  inet_ntop_lem =
      let n = peer_of a b c d port / 2 ^ 16 in
      let e : n ≡ ((a * 256 + b) * 256 + c) * 256 + d = omega arith in
      let ea : n / 2 ^ 24 % 256 ≡ a = omega (arith, e) in
      let eb : n / 2 ^ 16 % 256 ≡ b = omega (arith, e) in
      let ec : n / 2 ^ 8 % 256 ≡ c = omega (arith, e) in
      let ed : n % 256 ≡ d = omega (arith, e) in
      rw
        (
          ea,
          eb,
          ec,
          ed,
          decimal-numeral a (omega arith),
          decimal-numeral b (omega arith),
          decimal-numeral c (omega arith),
          decimal-numeral d (omega arith),
        )
        refl

  text-shown : take 1023 (accepted_text a b c d port) ≡ accepted_text a b c d port
  text-shown = take_all 1023 (accepted_text a b c d port) (
      short (numeral a) (numeral b) (numeral c) (numeral d) (numeral port) (length-numeral a)
        (length-numeral b) (length-numeral c) (length-numeral d) (length-numeral port))

  report_lem :
      (ipv4 : Bool)
      → cut (format false (utf8 report_accepted) (peer_args ipv4 (some (peer_of a b c d port))))
        ≡ (if ipv4 then some (accepted_text a b c d port) else none)
  report_lem false = ap cut (accepted-format false (peer_of a b c d port))
  report_lem true =
      let ep : peer_of a b c d port % 2 ^ 16 ≡ port = omega arith in
      ap cut (accepted-format true (peer_of a b c d port))
      ∙ rw (inet_ntop_lem, ep, decimal-numeral port (omega arith)) (ap some text-shown)

  -- A server whose output is open, with a peer whose address the kernel gives as four octets and
  -- a port: if its socket is in AF_INET, it reports one text, "Accepted connection from ", the
  -- four octets in decimal with dots between, ", port " and the port in decimal, uncut; in any
  -- other family it reports a text that is not determined.
  pub iperf_on_connect-accepted :
      (s : State) (family : ℕ)
      → s.test.role ≡ 115
      → s.test.outfile ≡ stdout
      → s.world.reply s.world.clock ≡ done (peer_of a b c d port)
      → s.world.reply (suc s.world.clock) ≡ done family
      → Returns
          (λ _ s'.
            s'.reports
            ≡ (if family == 2 then some (accepted_text a b c d port) else none) ∷ s.reports)
          (iperf_on_connect s)
  unfolding iperf_on_connect getsockdomain
  iperf_on_connect-accepted s family role file peer sock =
      let n = peer_of a b c d port in
      let server : (s.test.role == 99) ≡ false = rw role refl in
      let args = peer_args (pos family ==ℤ af_inet) (some n) in
      let s1 = record s {
        world = tick (getsockname s.test.ctrl_sck) (tick (getpeername s.test.ctrl_sck) s.world);
      } in
      rw (server, syscall_value, peer, getsockdomain, syscall_value, sock)
        (bind (Prints (format false (utf8 report_accepted) args) s1) _
          (iperf_printf (utf8 report_accepted) args s1) _
          (iperf_printf-Prints (utf8 report_accepted) args s1 file)
          λ r s' ((t, m, w, out), z). out ∙ rw (role, report_lem (pos family ==ℤ af_inet)) refl)
