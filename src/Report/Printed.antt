-- ===== src/Report/Printed.antt =====
-- What `iperf_printf` and `iperf_on_connect` print.
use kernel_testkit.Base.{
  ℕ, ◌==◌, ltb, ◌^◌, ◌≡◌, inl, inr, refl, ap, ◌∙◌, sym, ◌||◌, true, false, Bool-cases,
  if◌then◌else◌, Option, some, List, ◌∷◌, ◌++◌, length, take, drop, min, take-append-drop,
  length-take,
}
use kernel_testkit.Base.Int.{ℤ, pos, minus_one}
use kernel_testkit.Base.Run.{Run, ok, crash, Returns, weaken}
use kernel_testkit.Print.{Arg, format, Kind, kinds, plain}
use kernel_testkit.Print.Types.{Fits, is_plain, format-Given}
use kernel_testkit.Test.{State, File, no_file, stdout}
use kernel_testkit.Report.{iperf_printf, print_text, cut, printed_length}

-- Only the reports change, to these.
abbrev pub Reports : List (Option (List ℕ)) → State → State → Type 0
Reports out s s' =
    (s'.test ≡ s.test) × (s'.memory ≡ s.memory) × (s'.world ≡ s.world) × (s'.reports ≡ out)

abbrev pub printf_output : ℕ → Option (List ℕ) → List (Option (List ℕ)) → List (Option (List ℕ))
printf_output role t out =
    if role == 99 then t ∷ out else (if role == 115 then cut t ∷ out else out)

print_text-ok :
    (t : Option (List ℕ)) (s : State)
    → s.test.outfile ≡ stdout
    → print_text t s ≡ ok tt (record s { reports = t ∷ s.reports })
unfolding print_text
print_text-ok t s o =
    ap
      (λ (f : File). elim f as (λ _. Run State (Unit {0})) [
        | no_file ↦ crash
        | stdout ↦ ok tt (record s { reports = t ∷ s.reports })
      ])
      o

-- The number returned, and what is printed.
abbrev pub Prints : Option (List ℕ) → State → Option ℤ → State → Type 0
Prints t s r s' =
    Reports (printf_output s.test.role t s.reports) s s'
    × (r ≡ (
        if (s.test.role == 99) || (s.test.role == 115) then printed_length t else some minus_one))

pub iperf_printf-Prints :
    (fmt : List ℕ) (args : List Arg) (s : State)
    → s.test.outfile ≡ stdout
    → Returns (Prints (format false fmt args) s) (iperf_printf fmt args s)
unfolding iperf_printf
iperf_printf-Prints fmt args s o = elim (Bool-cases (s.test.role == 99)) [
  | inl c ↦
      rw (c, print_text-ok (format false fmt args) s o) ((refl, refl, refl, rw c refl), rw c refl)
  | inr n ↦ elim (Bool-cases (s.test.role == 115)) [
    | inl c ↦
        rw (n, c, print_text-ok (cut (format false fmt args)) s o)
          ((refl, refl, refl, rw (n, c) refl), rw (n, c) refl)
    | inr m ↦ rw (n, m) ((refl, refl, refl, rw (n, m) refl), rw (n, m) refl)
  ]
]

-- For a server whose output is open, a format without flags, widths or lengths, and arguments of
-- the kinds it takes, the text is determined; `iperf_printf` shows the first 1023 bytes of it,
-- or all where it is shorter, and returns its whole length, or -1 where that is no `int`.
pub iperf_printf-bounded :
    (fmt : List ℕ) (args : List Arg) (ks : List Kind) (s : State)
    → s.test.role ≡ 115
    → s.test.outfile ≡ stdout
    → is_plain false fmt ≡ true
    → kinds plain fmt ≡ some ks
    → Fits ks args
    → (t : List ℕ) × (format false fmt args ≡ some t)
      × Returns
          (λ r s'.
            (r ≡ some (if ltb (length t) (2 ^ 31) then pos (length t) else minus_one))
            × (shown : List ℕ) × (rest : List ℕ) × (t ≡ shown ++ rest)
            × (length shown ≡ min 1023 (length t))
            × (s'.reports ≡ some shown ∷ s.reports))
          (iperf_printf fmt args s)
iperf_printf-bounded fmt args ks s server o p k fits =
    let (t, e) = format-Given false fmt ks args p k fits in
    (
      t,
      e,
      weaken (Prints (format false fmt args) s) _ (iperf_printf fmt args s)
          (iperf_printf-Prints fmt args s o)
          λ r s' ((t', m, w, reports), z). (
            z ∙ rw (server, e) refl,
            take 1023 t,
            drop 1023 t,
            sym (take-append-drop 1023 t),
            length-take 1023 t,
            reports ∙ rw (server, e) refl,
          ),
    )
