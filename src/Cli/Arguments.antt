-- ===== src/Cli/Arguments.antt =====
-- `iperf_parse_arguments` of iperf/src/main.c: what it accepts.
use Prim.Native.String.{String}
use kernel_testkit.Base.{
  ℕ, ◌<◌, ◌==◌, ◌≡◌, ◌≢◌, ap, sym, ◌∙◌, refl, false, not, ◌&&◌, if◌then◌else◌, Option, none, some,
  List, [], ◌∷◌, length, arith, ◌⊎◌, inl, inr, Bool-cases,
}
use kernel_testkit.Base.Int.{ℤ, pos, minus_one, is_neg}
use kernel_testkit.Base.Run.{Run, Cmd, pure, and_then, Returns, bind}
use kernel_testkit.Links.{Ptr, null}
use kernel_testkit.Links.Chain.{◌∉◌}
use kernel_testkit.Test.{State}
use kernel_testkit.Test.Fields.{iperf_set_test_server_hostname}
use kernel_testkit.Protocols.{set_protocol}
use kernel_testkit.Params.{pudp}
use kernel_testkit.Getopt.{find_short, getopt_long}
use kernel_testkit.Getopt.Given.{IsGiven, IsShort, AreLong, are_long-AreLong, getopt_long-Given}
use kernel_testkit.Utils.{Double}
use kernel_testkit.Cli.{optstring, longopts, take_option, take_options, iperf_parse_arguments}
use kernel_testkit.Cli.Options.{
  needs_arg, IsReady, Passes, clash, if-Returns, with_arg-Returns, set_format-Passes,
  set_max_segment-Passes, set_role-Passes, set_protocol-Ready,
}

-- What is promised: -1, or 0 with a role.
abbrev pub Accepts : List Ptr → ℤ → State → Type 0
Accepts xs r s =
    (r ≡ minus_one) ⊎ ((r ≡ pos 0) × ((s.test.role ≡ 99) ⊎ (s.test.role ≡ 115)) × IsReady xs s)

more-Accepts :
    (xs : List Ptr) (m : Run State ℤ) (more : Cmd State ℤ)
    → Returns (Passes xs) m
    → ((s : State) → IsReady xs s → Returns (Accepts xs) (more s))
    → Returns (Accepts xs) (and_then m λ r. if is_neg r then pure minus_one else more)
more-Accepts xs m more p next =
    bind (Passes xs) (Accepts xs) m _ p
      λ r s q. elim q [ inl t ↦ rw t (inl refl) | inr (e, ready) ↦ rw e (next s ready) ]

other_letter :
    (c d : ℕ)
    → find_short optstring d ≢ some false
    → find_short optstring c ≡ some false
    → (c == d) ≡ false
other_letter c d ne e = elim (Bool-cases (c == d)) [
  | inr f ↦ f
  | inl t ↦
      let same : c ≡ d = ground arith in absurd (ne (ap (find_short optstring) (sym same) ∙ e))
]

-- The short options that take no argument need none.
optstring-IsShort : IsShort needs_arg optstring
unfolding find_short
optstring-IsShort c e =
    rw
      (
        other_letter c 112 (λ q. cc q) e,
        other_letter c 102 (λ q. cc q) e,
        other_letter c 99 (λ q. cc q) e,
        other_letter c 98 (λ q. cc q) e,
        other_letter c 116 (λ q. cc q) e,
        other_letter c 5 (λ q. cc q) e,
        other_letter c 77 (λ q. cc q) e,
      )
      refl

longopts-AreLong : AreLong needs_arg longopts
longopts-AreLong = are_long-AreLong needs_arg longopts refl

words-Given : (words : List String) → IsGiven needs_arg (getopt_long optstring longopts words)
words-Given words =
    getopt_long-Given needs_arg refl optstring longopts optstring-IsShort longopts-AreLong words

module _ (D : Double) (garbage : D.Num) (k : ℕ) (xs : List Ptr) (fuel : length xs < k)
    (nn : null ∉ xs) where
  take_option-Passes :
      (flag : ℕ) (o : Option String) (s : State)
      → (o ≡ none → needs_arg flag ≡ false)
      → IsReady xs s
      → Returns (Passes xs) (take_option D garbage k flag o s)
  unfolding take_option iperf_set_test_server_hostname
  take_option-Passes flag o s given p =
      let Q = Passes xs in
      if-Returns Q (flag == 112) _ _ s
        (λ t. with_arg-Returns Q o _ s (λ e. clash flag 112 refl t (given e)) λ a. inr (refl, p))
        (if-Returns Q (flag == 102) _ _ s
          (λ t.
            with_arg-Returns Q o _ s (λ e. clash flag 102 refl t (given e))
              λ a. set_format-Passes xs a s p)
          (if-Returns Q (flag == 86) _ _ s (λ t. inr (refl, p))
            (if-Returns Q (flag == 115) _ _ s
              (λ t. set_role-Passes xs 115 99 _ s p λ s' p'. inr (refl, p'))
              (if-Returns Q (flag == 99) _ _ s
                (λ t. set_role-Passes xs 99 115 _ s p λ s' p'.
                  with_arg-Returns Q o _ s' (λ e. clash flag 99 refl t (given e))
                    λ a. inr (refl, p'))
                (if-Returns Q (flag == 117) _ _ s
                  (λ t.
                    bind (λ _ s'. IsReady xs s') Q (set_protocol k pudp s) _
                      (set_protocol-Ready xs k pudp s fuel nn p) λ _ s' p'. inr (refl, p'))
                  (if-Returns Q (flag == 98) _ _ s
                    (λ t.
                      with_arg-Returns Q o _ s (λ e. clash flag 98 refl t (given e))
                        λ a. inr (refl, p))
                    (if-Returns Q (flag == 116) _ _ s
                      (λ t.
                        with_arg-Returns Q o _ s (λ e. clash flag 116 refl t (given e))
                          λ a. inr (refl, p))
                      (if-Returns Q (flag == 5) _ _ s
                        (λ t.
                          with_arg-Returns Q o _ s (λ e. clash flag 5 refl t (given e))
                            λ a. inr (refl, p))
                        (if-Returns Q (flag == 77) _ _ s
                          (λ t.
                            with_arg-Returns Q o _ s (λ e. clash flag 77 refl t (given e))
                              λ a. set_max_segment-Passes xs a s p)
                          (inr (refl, p)))))))))))

  take_options-Accepts :
      (options : List (ℕ × Option String)) (s : State)
      → IsGiven needs_arg options
      → IsReady xs s
      → Returns (Accepts xs) (take_options D garbage k options s)
  unfolding take_options
  take_options-Accepts [] s given p =
      elim (Bool-cases (not (s.test.role == 99) && not (s.test.role == 115))) [
        | inl t ↦ rw t (inl refl)
        | inr f ↦ rw f (inr (refl, ground arith, p))
      ]
  take_options-Accepts ((flag, none) ∷ rest) s (need, given) p =
      more-Accepts xs (take_option D garbage k flag none s) (take_options D garbage k rest)
        (take_option-Passes flag none s (λ e. need) p)
        λ s' p'. take_options-Accepts rest s' given p'
  take_options-Accepts ((flag, some a) ∷ rest) s given p =
      more-Accepts xs (take_option D garbage k flag (some a) s) (take_options D garbage k rest)
        (take_option-Passes flag (some a) s (λ e. cc) p)
        λ s' p'. take_options-Accepts rest s' given p'

  -- On a test with a protocol, a list of protocols and settings with an MSS in bounds and a unit
  -- that `-f` takes (or 'a'), and for any command line, `iperf_parse_arguments` ends without a
  -- crash: it returns -1, or 0 with the role of client or server, such settings, a protocol and
  -- the same list.
  pub iperf_parse_arguments-Accepts :
      (words : List String) (s : State)
      → IsReady xs s
      → Returns (Accepts xs) (iperf_parse_arguments D garbage k words s)
  unfolding iperf_parse_arguments
  iperf_parse_arguments-Accepts words s p =
      take_options-Accepts (getopt_long optstring longopts words) s (words-Given words) p
