-- ===== src/Report/Typed.antt =====
-- When what `iperf_on_connect` prints is determined: the types of its formats and arguments.
use kernel_testkit.Base.{
  ℕ, suc, ◌==◌, ◌≡◌, ◌≢◌, sym, ap, ◌↔◌, refl, ◌∙◌, ◌⊎◌, inl, inr, Bool, true, false, Option, none,
  some, List, [], ◌∷◌, arith,
}
use kernel_testkit.Base.Int.{pos, ◌==ℤ◌}
use kernel_testkit.Base.Run.{Returns, bind, pure, ◌>>◌}
use kernel_testkit.Base.Text.{utf8}
use kernel_testkit.World.{
  World, done, fail, Reply-cases, syscall_value, getpeername, getsockname, tick,
}
use kernel_testkit.Sockets.{af_inet, getsockdomain}
use kernel_testkit.Locale.Reports.{report_connecting, report_accepted}
use kernel_testkit.Print.{Arg, Kind, text_kind, int_kind, number, kinds, plain, format}
use kernel_testkit.Print.Types.{Fits, is_plain, format-Given}
use kernel_testkit.Test.{Test, State, stdout}
use kernel_testkit.Report.{
  iperf_printf, iperf_on_connect, text_or_null, connecting_args, peer_args, cut,
}
use kernel_testkit.Report.Printed.{Prints, iperf_printf-Prints}

-- The format takes arguments of the kinds `ks`, and has no width, precision or length.
abbrev pub Takes : List ℕ → List Kind → Type 0
Takes fmt ks = (kinds plain fmt ≡ some ks) × (is_plain false fmt ≡ true)

abbrev pub name_and_port : List Kind
name_and_port = text_kind ∷ int_kind ∷ []

connecting-Takes : Takes (utf8 report_connecting) name_and_port
unfolding kinds is_plain utf8
connecting-Takes = (refl, refl)

accepted-Takes : Takes (utf8 report_accepted) name_and_port
unfolding kinds is_plain utf8
accepted-Takes = (refl, refl)

connecting-Fits : (t : Test) → Fits name_and_port (connecting_args t)
connecting-Fits t =
    elim t.server_hostname
      as (λ h. Fits name_and_port (text_or_null h ∷ number t.server_port ∷ [])) [
        | none ↦ (refl, (refl, tt))
        | some h ↦ (refl, (refl, tt))
      ]

-- Every byte of a text is determined.
abbrev pub IsGiven : Option (List ℕ) → Type 0
IsGiven t = (b : List ℕ) × (t ≡ some b)

connecting-IsGiven :
    (t : Test) → IsGiven (format false (utf8 report_connecting) (connecting_args t))
connecting-IsGiven t =
    format-Given false (utf8 report_connecting) name_and_port (connecting_args t)
      (connecting-Takes.1) (connecting-Takes.0) (connecting-Fits t)

-- The socket is in AF_INET, and the address of the peer is known.
abbrev pub IsKnown : Bool → Option ℕ → Type 0
IsKnown ipv4 peer = (ipv4 ≡ true) × ((n : ℕ) × (peer ≡ some n))

accepted-IsGiven :
    (ipv4 : Bool) (peer : Option ℕ)
    → IsGiven (cut (format false (utf8 report_accepted) (peer_args ipv4 peer))) ↔ IsKnown ipv4 peer
unfolding format utf8
accepted-IsGiven true none = ((λ (b, e). cc e), λ (e, (n, f)). cc f)
accepted-IsGiven true (some n) = ((λ _. (refl, (n, refl))), λ _. (_, refl))
accepted-IsGiven false peer = ((λ (b, e). cc e), λ (e, f). cc e)

-- One report has been added, all of it determined exactly under the condition.
abbrev pub Reported : Type 0 → State → State → Type 0
Reported Known s s' = (t : Option (List ℕ)) × (s'.reports ≡ t ∷ s.reports) × (IsGiven t ↔ Known)

printed :
    (Known : Type 0) (fmt : List ℕ) (args : List Arg) (s : State)
    → s.test.outfile ≡ stdout
    → ((s.test.role ≡ 99) × (IsGiven (format false fmt args) ↔ Known))
      ⊎ ((s.test.role ≡ 115) × (IsGiven (cut (format false fmt args)) ↔ Known))
    → Returns (λ _. Reported Known s) ((iperf_printf fmt args >> pure tt) s)
printed Known fmt args s file side =
    bind (Prints (format false fmt args) s) (λ _. Reported Known s) (iperf_printf fmt args s) _
      (iperf_printf-Prints fmt args s file)
      λ r s' ((t, m, w, out), z). elim side [
        | inl (role, given) ↦ (format false fmt args, out ∙ rw role refl, given)
        | inr (role, given) ↦ (cut (format false fmt args), out ∙ rw role refl, given)
      ]

-- The kernel gives the peer's address, and says that the socket is in AF_INET.
abbrev pub GivesPeer : World → Type 0
GivesPeer w = ((n : ℕ) × (w.reply w.clock ≡ done n)) × (w.reply (suc w.clock) ≡ done 2)

accepted :
    (Known : Type 0) (ipv4 : Bool) (peer : Option ℕ) (s : State)
    → s.test.outfile ≡ stdout
    → s.test.role ≡ 115
    → (IsKnown ipv4 peer ↔ Known)
    → Returns
        (λ _. Reported Known s)
        ((iperf_printf (utf8 report_accepted) (peer_args ipv4 peer) >> pure tt) s)
accepted Known ipv4 peer s file role known =
    let given = accepted-IsGiven ipv4 peer in
    printed Known (utf8 report_accepted) (peer_args ipv4 peer) s file
      (inr (role, ((λ g. known.0 (given.0 g)), λ k. given.1 (known.1 k))))

-- The server's case, for what the two replies say.
serving :
    (Known : Type 0) (s : State)
    → s.test.outfile ≡ stdout
    → s.test.role ≡ 115
    → ((n f : ℕ)
        → s.world.reply s.world.clock ≡ done n
        → s.world.reply (suc s.world.clock) ≡ done f
        → (IsKnown (pos f ==ℤ af_inet) (some n) ↔ Known))
    → ((n f : ℕ) → s.world.reply (suc s.world.clock) ≡ fail f → (IsKnown false (some n) ↔ Known))
    → ((ipv4 : Bool) (n : ℕ) → s.world.reply s.world.clock ≡ fail n → (IsKnown ipv4 none ↔ Known))
    → Returns (λ _. Reported Known s) (iperf_on_connect s)
unfolding iperf_on_connect getsockdomain
serving Known s file role both first neither =
    let server : (s.test.role == 99) ≡ false = rw role refl in
    let w = s.world in
    let w1 = tick (getpeername s.test.ctrl_sck) w in
    let w2 = tick (getsockname s.test.ctrl_sck) w1 in
    elim (Reply-cases (w.reply w.clock)) [
      | inl (n, e) ↦ elim (Reply-cases (w.reply (suc w.clock))) [
        | inl (f, d) ↦
            rw (server, syscall_value, e, getsockdomain, syscall_value, d)
              (accepted Known (pos f ==ℤ af_inet) (some n) (record s { world = w2 }) file role
                (both n f e d))
        | inr (f, d) ↦
            rw (server, syscall_value, e, getsockdomain, syscall_value, d)
              (accepted Known false (some n) (record s { world = record w2 { errno = f } }) file
                role (first n f d))
      ]
      | inr (n, e) ↦
          let w2' = tick (getsockname s.test.ctrl_sck) (record w1 { errno = n }) in
          elim (Reply-cases (w.reply (suc w.clock))) [
            | inl (f, d) ↦
                rw (server, syscall_value, e, getsockdomain, syscall_value, d)
                  (accepted Known (pos f ==ℤ af_inet) none (record s { world = w2' }) file role
                    (neither (pos f ==ℤ af_inet) n e))
            | inr (f, d) ↦
                rw (server, syscall_value, e, getsockdomain, syscall_value, d)
                  (accepted Known false none (record s { world = record w2' { errno = f } }) file
                    role (neither false n e))
          ]
    ]

-- `iperf_on_connect` of a client or a server whose output is open adds one report; every byte of
-- it is determined exactly if the test is a client, or the kernel gives the address of the peer
-- and says that the socket is in AF_INET.
pub iperf_on_connect-Reported :
    (s : State)
    → s.test.outfile ≡ stdout
    → (s.test.role ≡ 99) ⊎ (s.test.role ≡ 115)
    → Returns (λ _. Reported ((s.test.role ≡ 99) ⊎ GivesPeer s.world) s) (iperf_on_connect s)
unfolding iperf_on_connect
iperf_on_connect-Reported s file (inl role) =
    let client : (s.test.role == 99) ≡ true = rw role refl in
    rw client (
      printed ((s.test.role ≡ 99) ⊎ GivesPeer s.world) (utf8 report_connecting)
        (connecting_args s.test) s file
        (inl (role, ((λ _. inl role), λ _. connecting-IsGiven s.test))))
iperf_on_connect-Reported s file (inr role) =
    serving ((s.test.role ≡ 99) ⊎ GivesPeer s.world) s file role both first neither
  where
    no_client : s.test.role ≢ 99
    no_client c = ground (arith, c, role)

    both :
        (n f : ℕ)
        → s.world.reply s.world.clock ≡ done n
        → s.world.reply (suc s.world.clock) ≡ done f
        → IsKnown (pos f ==ℤ af_inet) (some n) ↔ ((s.test.role ≡ 99) ⊎ GivesPeer s.world)
    both n f e d = (
      (λ (i, _). let two : f ≡ 2 = ground (arith, i) in inr ((n, e), d ∙ ap done two)),
      λ known. elim known [
        | inl c ↦ absurd (no_client c)
        | inr (_, two) ↦
            let z : done f ≡ done 2 = sym d ∙ two in
            let same : f ≡ 2 = cc z in (rw same refl, (n, refl))
      ],
    )

    first :
        (n f : ℕ)
        → s.world.reply (suc s.world.clock) ≡ fail f
        → IsKnown false (some n) ↔ ((s.test.role ≡ 99) ⊎ GivesPeer s.world)
    first n f d = (
      (λ (i, _). cc i),
      λ known. elim known [
        | inl c ↦ absurd (no_client c)
        | inr (_, two) ↦ let z : fail f ≡ done 2 = sym d ∙ two in cc z
      ],
    )

    neither :
        (ipv4 : Bool) (n : ℕ)
        → s.world.reply s.world.clock ≡ fail n
        → IsKnown ipv4 none ↔ ((s.test.role ≡ 99) ⊎ GivesPeer s.world)
    neither ipv4 n e = (
      (λ (_, (m, f)). cc f),
      λ known. elim known [
        | inl c ↦ absurd (no_client c)
        | inr ((m, given), _) ↦ let z : fail n ≡ done m = sym e ∙ given in cc z
      ],
    )
