-- ===== src/Cli/Options.antt =====
-- The options of iperf/src/main.c that may fail, one by one.
use Prim.Native.String.{String}
use kernel_testkit.Base.{
  ℕ, ◌≤◌, ◌<◌, ◌==◌, ◌≡◌, ◌≢◌, refl, ap, sym, ◌∙◌, ltb, Bool, true, false, ◌||◌, if◌then◌else◌,
  Option, none, some, List, length, arith, ◌⊎◌, inl, inr, Bool-cases, Option-cases,
}
use kernel_testkit.Base.Int.{ℤ, pos, minus_one, is_neg, pos_part, truth}
use kernel_testkit.Base.Text.{atoi, first_byte}
use kernel_testkit.Base.Run.{Cmd, pure, Returns, bind}
use kernel_testkit.Links.{Ptr, null}
use kernel_testkit.Links.Chain.{IsRing, ◌∉◌}
use kernel_testkit.Test.{Settings, State, protocol_id}
use kernel_testkit.Protocols.{
  check_sender_has_retransmits, set_protocol, iperf_set_test_role, negate, sender_of_role,
}
use kernel_testkit.Protocols.Find.{find, find-mem, set_protocol-none, set_protocol-some}
use kernel_testkit.Cli.{max_mss, is_unit, set_format, set_max_segment, set_role, with_arg}

-- The MSS is in bounds, and the unit is one that `-f` takes, or the default 'a'.
abbrev pub IsSane : Settings → Type 0
IsSane s = (pos_part s.mss ≤ max_mss) × ((s.unit_format ≡ 97) ⊎ (is_unit s.unit_format ≡ true))

-- The options whose argument is used.
abbrev pub needs_arg : ℕ → Bool
needs_arg flag =
    ((flag == 112) || (flag == 102))
    || ((flag == 99) || (flag == 98))
    || (((flag == 116) || (flag == 5)) || (flag == 77))

-- The test has sane settings, a protocol, and the protocols `xs`.
abbrev pub IsReady : List Ptr → State → Type 0
IsReady xs s =
    IsSane s.test.settings × IsRing s.memory.links s.test.protocols xs × (s.test.protocol ≢ null)

-- What one option does: a negative number, or 0 and a test that is ready again.
abbrev pub Passes : List Ptr → ℤ → State → Type 0
Passes xs r s = (is_neg r ≡ true) ⊎ ((r ≡ pos 0) × IsReady xs s)

pub clash : (flag c : ℕ) → needs_arg c ≡ true → (flag == c) ≡ true → needs_arg flag ≡ false → ⊥
clash flag c y t f =
    let e : flag ≡ c = ground arith in let g : needs_arg c ≡ false = ap needs_arg (sym e) ∙ f in cc

pub if-Returns :
    (Q : ℤ → State → Type 0) (c : Bool) (m n : Cmd State ℤ) (s : State)
    → (c ≡ true → Returns Q (m s))
    → Returns Q (n s)
    → Returns Q ((if c then m else n) s)
if-Returns Q true m n s p q = p refl
if-Returns Q false m n s p q = q

pub with_arg-Returns :
    (Q : ℤ → State → Type 0) (o : Option String) (m : String → Cmd State ℤ) (s : State)
    → (o ≡ none → ⊥)
    → ((a : String) → Returns Q (m a s))
    → Returns Q (with_arg o m s)
with_arg-Returns Q none m s h p = absurd (h refl)
with_arg-Returns Q (some a) m s h p = p a

pub set_format-Passes :
    (xs : List Ptr) (a : String) (s : State) → IsReady xs s → Returns (Passes xs) (set_format a s)
unfolding set_format
set_format-Passes xs a s (sane, ring, ne) = elim (Bool-cases (is_unit (first_byte a))) [
  | inl t ↦ rw t (inr (refl, ((sane.0, inr refl), ring, ne)))
  | inr f ↦ rw f (inl refl)
]

pub set_max_segment-Passes :
    (xs : List Ptr) (a : String) (s : State)
    → IsReady xs s
    → Returns (Passes xs) (set_max_segment a s)
unfolding set_max_segment
set_max_segment-Passes xs a s (sane, ring, ne) =
    elim (Bool-cases (ltb max_mss (pos_part (atoi a)))) [
      | inl t ↦ rw t (inl refl)
      | inr f ↦
          let fits : pos_part (atoi a) ≤ max_mss = ground arith in
          rw f (inr (refl, ((fits, sane.1), ring, ne)))
    ]

check-Ready :
    (xs : List Ptr) (s : State)
    → IsReady xs s
    → Returns (λ _ s'. IsReady xs s') (check_sender_has_retransmits s)
unfolding check_sender_has_retransmits protocol_id
check-Ready xs s (sane, ring, ne) =
    let there : (s.test.protocol == null) ≡ false = ground arith in
    elim (Bool-cases (truth s.test.sender)) [
      | inl t ↦ rw (t, there) (sane, ring, ne)
      | inr f ↦ rw f (sane, ring, ne)
    ]

role-Ready :
    (xs : List Ptr) (role : ℕ) (s : State)
    → IsReady xs s
    → Returns (λ _ s'. IsReady xs s') (iperf_set_test_role role s)
unfolding iperf_set_test_role
role-Ready xs role s p =
    let sender = sender_of_role role s.test.sender in
    check-Ready xs
      (record s {
        test = record (s.test) {
          role = role;
          sender = if truth s.test.reverse then negate sender else sender;
        };
      })
      p

pub set_role-Passes :
    (xs : List Ptr) (role other : ℕ) (m : Cmd State ℤ) (s : State)
    → IsReady xs s
    → ((s' : State) → IsReady xs s' → Returns (Passes xs) (m s'))
    → Returns (Passes xs) (set_role role other m s)
set_role-Passes xs role other m s p next =
    if-Returns (Passes xs) (s.test.role == other) (pure minus_one) _ s (λ _. inl refl)
      (bind (λ _ s'. IsReady xs s') (Passes xs) (iperf_set_test_role role s) _
        (role-Ready xs role s p) λ _ s' p'. next s' p')

pub set_protocol-Ready :
    (xs : List Ptr) (k : ℕ) (i : ℤ) (s : State)
    → length xs < k
    → null ∉ xs
    → IsReady xs s
    → Returns (λ _ s'. IsReady xs s') (set_protocol k i s)
set_protocol-Ready xs k i s fuel nn (sane, ring, ne) = elim (Option-cases (find s.memory.id i xs)) [
  | inl e ↦ rw (set_protocol-none i s k xs ring fuel e) (sane, ring, ne)
  | inr (p, e) ↦
      rw (set_protocol-some i s k xs ring fuel p e nn)
        (sane, ring, ground (arith, find-mem s.memory.id i xs p e))
]
