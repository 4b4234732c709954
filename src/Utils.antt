-- ===== src/Utils.antt =====
-- iperf/src/utils.c: `unit_atof_rate`.
use Prim.Native.String.{String}
use kernel_testkit.Base.{ℕ, ◌*◌, ◌==◌, ◌||◌, if◌then◌else◌, Option, none, some}

-- `double`, with what the program does with it: `sscanf(s, "%lf%c", …)`, which delivers no number,
-- or a number and perhaps the character behind it; multiplication; and the conversions.
pub record Double : Type 1 where
  pub Num : Type 0
  pub scan : String → Option (Num × Option ℕ)
  pub times : Num → Num → Num
  pub of_nat : ℕ → Num
  pub to_uint64 : Num → ℕ

-- `KILO_RATE_UNIT` and the like, which are whole numbers.
abbrev pub kilo_rate_unit : ℕ
kilo_rate_unit = 1000

abbrev pub mega_rate_unit : ℕ
mega_rate_unit = 1000 * 1000

abbrev pub giga_rate_unit : ℕ
giga_rate_unit = 1000 * 1000 * 1000

abbrev pub tera_rate_unit : ℕ
tera_rate_unit = 1000 * 1000 * 1000 * 1000

-- The factor that a suffix stands for.
unfoldable pub rate_unit : Option ℕ → ℕ
rate_unit none = 1
rate_unit (some c) =
    if (c == 116) || (c == 84)
    then tera_rate_unit
    else (if (c == 103) || (c == 71)
        then giga_rate_unit
        else (if (c == 109) || (c == 77)
            then mega_rate_unit
            else (if (c == 107) || (c == 75) then kilo_rate_unit else 1)))

module _ (D : Double) (garbage : D.Num) where
  -- `garbage` is what the variable `n` held before; without a suffix nothing is multiplied.
  unfoldable pub unit_atof_rate : String → D.Num
  unit_atof_rate s = elim (D.scan s) [
    | none ↦ garbage
    | some (n, suffix) ↦
        if rate_unit suffix == 1 then n else D.times n (D.of_nat (rate_unit suffix))
  ]
