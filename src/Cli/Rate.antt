-- ===== src/Cli/Rate.antt =====
-- `unit_atof_rate` of iperf/src/utils.c, as the option `-b` uses it.
use Prim.Native.String.{String}
use kernel_testkit.Base.{
  List, [], ◌∷◌, none, if◌then◌else◌, ℕ, ◌*◌, ◌^◌, ◌≤◌, ◌==◌, ◌≡◌, refl, ap, Option, some, arith,
  inl, inr, Bool-cases,
}
use kernel_testkit.Base.Int.{pos}
use kernel_testkit.Base.Run.{ok}
use kernel_testkit.Test.{State}
use kernel_testkit.Utils.{Double, rate_unit, unit_atof_rate}
use kernel_testkit.Cli.{take_option}

-- Whole numbers up to 2 ^ 53 are exact.
pub record DoubleLaws (D : Double) : Type 0 where
  pub times_exact :
      (a b : ℕ) → a * b ≤ 2 ^ 53 → D.times (D.of_nat a) (D.of_nat b) ≡ D.of_nat (a * b)
  pub uint64_exact : (a : ℕ) → a ≤ 2 ^ 53 → D.to_uint64 (D.of_nat a) ≡ a

-- The powers of ten that the suffixes stand for, by their characters in ASCII: k and K, m and M,
-- g and G, t and T.
abbrev suffixes : List (ℕ × ℕ)
suffixes = (107, 3) ∷ (75, 3) ∷ (109, 6) ∷ (77, 6) ∷ (103, 9) ∷ (71, 9) ∷ (116, 12) ∷ (84, 12) ∷ []

abbrev power_in : List (ℕ × ℕ) → ℕ → ℕ
power_in [] c = 0
power_in ((d, p) ∷ table) c = if c == d then p else power_in table c

-- No suffix, or any other, stands for 1.
abbrev pub power_of_ten : Option ℕ → ℕ
power_of_ten none = 0
power_of_ten (some c) = power_in suffixes c

rate_unit-power : (suffix : Option ℕ) → rate_unit suffix ≡ 10 ^ power_of_ten suffix
unfolding rate_unit
rate_unit-power none = refl
rate_unit-power (some c) = ground arith

module _ (D : Double) (laws : DoubleLaws D) (garbage : D.Num) where
  rate-exact :
      (s : String) (n : ℕ) (suffix : Option ℕ)
      → D.scan s ≡ some (D.of_nat n, suffix)
      → n * rate_unit suffix ≤ 2 ^ 53
      → unit_atof_rate D garbage s ≡ D.of_nat (n * rate_unit suffix)
  unfolding unit_atof_rate rate_unit
  rate-exact s n suffix e fits = elim (Bool-cases (rate_unit suffix == 1)) [
    | inl t ↦
        let one : n ≡ n * rate_unit suffix = ground arith in
        rw (e, unit_atof_rate, t) (ap D.of_nat one)
    | inr f ↦ rw (e, unit_atof_rate, f) (laws.times_exact n (rate_unit suffix) fits)
  ]

  -- Where a `double` is exact on whole numbers up to 2 ^ 53, the option `-b` with a whole number
  -- n and a suffix, of which the product is no more than that, sets the rate to n times 10 ^ 3
  -- for k or K, 10 ^ 6 for m or M, 10 ^ 9 for g or G, 10 ^ 12 for t or T, and to n for any other
  -- suffix or none, and changes nothing else.
  pub take_option-rate :
      (k : ℕ) (a : String) (n : ℕ) (suffix : Option ℕ) (s : State)
      → D.scan a ≡ some (D.of_nat n, suffix)
      → n * 10 ^ power_of_ten suffix ≤ 2 ^ 53
      → take_option D garbage k 98 (some a) s
        ≡ ok (pos 0) (record s {
          test = record (s.test) {
            settings = record (s.test.settings) { rate = n * 10 ^ power_of_ten suffix };
          };
        })
  unfolding take_option
  take_option-rate k a n suffix s e fits =
      let u = rate_unit-power suffix in
      let small : n * rate_unit suffix ≤ 2 ^ 53 = rw u fits in
      rw (rate-exact a n suffix e small, laws.uint64_exact (n * rate_unit suffix) small, u) refl
