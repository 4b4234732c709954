-- ===== src/Cli/Roles.antt =====
-- `-s` and `-c` exclude each other.
use Prim.Native.String.{String}
use kernel_testkit.Base.{
  ℕ, ◌==◌, ◌≡◌, ◌<◌, length, ◌⊎◌, subst, refl, Bool, true, false, ◌||◌, if◌then◌else◌, Option, none,
  some, List, [], ◌∷◌, inl, inr, Bool-cases, arith,
}
use kernel_testkit.Base.Int.{ℤ, pos, minus_one, is_neg}
use kernel_testkit.Base.Run.{Run, ok, crash, out_of_fuel, Cmd, Returns, pure, ◌>>◌, and_then}
use kernel_testkit.Base.Partial.{Ends, bind_ends, weaken_ends, ended_Returns}
use kernel_testkit.Links.{Ptr, null}
use kernel_testkit.Links.Chain.{◌∉◌}
use kernel_testkit.Test.{State, modify}
use kernel_testkit.Test.Fields.{iperf_set_test_server_hostname}
use kernel_testkit.Protocols.{iperf_set_test_role}
use kernel_testkit.Getopt.{getopt_long}
use kernel_testkit.Cli.Options.{IsReady}
use kernel_testkit.Cli.Arguments.{Accepts, iperf_parse_arguments-Accepts}
use kernel_testkit.Utils.{Double}
use kernel_testkit.Cli.{
  optstring, longopts, with_arg, take_option, take_options, iperf_parse_arguments,
}
use kernel_testkit.Cli.InRole.{InRole, role-InRole, other-InRole}

-- The options have this one among them.
unfoldable pub has : ℕ → List (ℕ × Option String) → Bool
has c [] = false
has c ((flag, _) ∷ rest) = (flag == c) || has c rest

module _ (D : Double) (garbage : D.Num) (k : ℕ) where
  -- The option has failed, or left this role.
  abbrev Took : ℕ → ℤ → State → Type 0
  Took role r s = (is_neg r ≡ true) ⊎ (s.test.role ≡ role)

  abbrev Fails : ℤ → State → Type 0
  Fails r s = r ≡ minus_one

  named :
      (o : Option String) (s : State)
      → s.test.role ≡ 99
      → Ends
          (Took 99)
          (with_arg o (λ a. modify (iperf_set_test_server_hostname a) >> pure (pos 0)) s)
  unfolding iperf_set_test_server_hostname
  named none s e = tt
  named (some a) s e = inr e

  server-Took : (o : Option String) (s : State) → Ends (Took 115) (take_option D garbage k 115 o s)
  unfolding take_option
  server-Took o s = elim (Bool-cases (s.test.role == 99)) [
    | inl t ↦ rw t (inl refl)
    | inr f ↦ rw f (
        bind_ends (InRole 115) (Took 115) (iperf_set_test_role 115 s) _ (role-InRole 115 s)
          λ _ s' e. inr e)
  ]

  client-Took : (o : Option String) (s : State) → Ends (Took 99) (take_option D garbage k 99 o s)
  unfolding take_option
  client-Took o s = elim (Bool-cases (s.test.role == 115)) [
    | inl t ↦ rw t (inl refl)
    | inr f ↦ rw f (
        bind_ends (InRole 99) (Took 99) (iperf_set_test_role 99 s) _ (role-InRole 99 s)
          λ _ s' e. named o s' e)
  ]

  client-Refused :
      (o : Option String) (s : State)
      → s.test.role ≡ 115
      → take_option D garbage k 99 o s ≡ ok minus_one s
  unfolding take_option
  client-Refused o s e = rw e refl

  server-Refused :
      (o : Option String) (s : State)
      → s.test.role ≡ 99
      → take_option D garbage k 115 o s ≡ ok minus_one s
  unfolding take_option
  server-Refused o s e = rw e refl

  -- An option that is not the other role's leaves the role, or fails.
  kept-Took :
      (role flag : ℕ) (o : Option String) (s : State)
      → Ends (Took role) (take_option D garbage k role o s)
      → ((flag == role) ≡ false → ((flag == 115) ≡ false) × ((flag == 99) ≡ false))
      → s.test.role ≡ role
      → Ends (Took role) (take_option D garbage k flag o s)
  kept-Took role flag o s own apart e = elim (Bool-cases (flag == role)) [
    | inl t ↦
        let same : role ≡ flag = ground arith in
        subst (λ q. Ends (Took role) (take_option D garbage k q o s)) same own
    | inr f ↦
        weaken_ends (InRole role) (Took role) (take_option D garbage k flag o s)
          (other-InRole D garbage k flag o role s ((apart f).0) ((apart f).1) e) λ r s' e'. inr e'
  ]

  -- One turn of the loop.
  more-Fails :
      (role : ℕ) (m : Run State ℤ) (more : Cmd State ℤ)
      → Ends (Took role) m
      → ((s : State) → s.test.role ≡ role → Ends Fails (more s))
      → Ends Fails (and_then m λ r. if is_neg r then pure minus_one else more)
  more-Fails role m more took next = bind_ends (Took role) Fails m _ took λ r s t.
      elim (Bool-cases (is_neg r)) [
        | inl bad ↦ rw bad refl
        | inr fine ↦ rw fine (next s (elim t [ inl bad ↦ cc | inr e ↦ e ]))
      ]

  -- In one role, the option of the other makes the loop fail.
  taken-Fails :
      (role other : ℕ)
      → ((o : Option String) (s : State)
          → s.test.role ≡ role
          → take_option D garbage k other o s ≡ ok minus_one s)
      → ((flag : ℕ) (o : Option String) (s : State)
          → (flag == other) ≡ false
          → s.test.role ≡ role
          → Ends (Took role) (take_option D garbage k flag o s))
      → (options : List (ℕ × Option String)) (s : State) → has other options ≡ true
      → s.test.role ≡ role
      → Ends Fails (take_options D garbage k options s)
  unfolding take_options has
  taken-Fails role other refuse keeps [] s h e = cc
  taken-Fails role other refuse keeps ((flag, o) ∷ rest) s h e = elim (Bool-cases (flag == other)) [
    | inl t ↦ let same : flag ≡ other = ground arith in rw (same, refuse o s e) refl
    | inr f ↦
        more-Fails role (take_option D garbage k flag o s) (take_options D garbage k rest)
          (keeps flag o s f e) λ s' e'. taken-Fails role other refuse keeps rest s' (rw f at h) e'
  ]

  server-Fails :
      (options : List (ℕ × Option String)) (s : State)
      → has 99 options ≡ true
      → s.test.role ≡ 115
      → Ends Fails (take_options D garbage k options s)
  server-Fails =
      taken-Fails 115 99 client-Refused
        λ flag o s f e. kept-Took 115 flag o s (server-Took o s) (λ g. (g, f)) e

  client-Fails :
      (options : List (ℕ × Option String)) (s : State)
      → has 115 options ≡ true
      → s.test.role ≡ 99
      → Ends Fails (take_options D garbage k options s)
  client-Fails =
      taken-Fails 99 115 server-Refused
        λ flag o s f e. kept-Took 99 flag o s (client-Took o s) (λ g. (f, g)) e

  anything_ends : {A : Type 0} (m : Run State A) → Ends (λ _ _. Unit {0}) m
  anything_ends (ok a s) = tt
  anything_ends crash = tt
  anything_ends out_of_fuel = tt

  both-Fails :
      (options : List (ℕ × Option String)) (s : State)
      → has 115 options ≡ true
      → has 99 options ≡ true
      → Ends Fails (take_options D garbage k options s)
  unfolding take_options has
  both-Fails [] s h i = cc
  both-Fails ((flag, o) ∷ rest) s h i =
      let m = take_option D garbage k in
      elim (Bool-cases (flag == 115)) [
        | inl t ↦
            let same : flag ≡ 115 = ground arith in
            rw same (
              more-Fails 115 (m 115 o s) (take_options D garbage k rest) (server-Took o s)
                λ s' e. server-Fails rest s' (rw same at i) e)
        | inr f ↦ elim (Bool-cases (flag == 99)) [
          | inl t ↦
              let same : flag ≡ 99 = ground arith in
              rw same (
                more-Fails 99 (m 99 o s) (take_options D garbage k rest) (client-Took o s)
                  λ s' e. client-Fails rest s' (rw same at h) e)
          | inr g ↦
              bind_ends (λ _ _. Unit {0}) Fails (m flag o s) _ (anything_ends (m flag o s))
                λ r s' u. elim (Bool-cases (is_neg r)) [
                  | inl bad ↦ rw bad refl
                  | inr fine ↦ rw fine (both-Fails rest s' (rw f at h) (rw g at i))
                ]
        ]
      ]

  -- On such a test, a command line in which `getopt_long` finds both the server's option and the
  -- client's, in any order and under any of their names, makes `iperf_parse_arguments` return
  -- -1.
  pub iperf_parse_arguments-Fails :
      (xs : List Ptr) (words : List String) (s : State)
      → length xs < k
      → null ∉ xs
      → IsReady xs s
      → has 115 (getopt_long optstring longopts words) ≡ true
      → has 99 (getopt_long optstring longopts words) ≡ true
      → Returns (λ r _. r ≡ minus_one) (iperf_parse_arguments D garbage k words s)
  unfolding iperf_parse_arguments
  iperf_parse_arguments-Fails xs words s fuel nn ready h i =
      ended_Returns (Accepts xs) Fails (iperf_parse_arguments D garbage k words s)
        (iperf_parse_arguments-Accepts D garbage k xs fuel nn words s ready)
        (both-Fails (getopt_long optstring longopts words) s h i)
