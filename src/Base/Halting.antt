-- ===== src/Base/Halting.antt =====
-- Runs that end, in a result or in a crash.
use kernel_testkit.Base.Run.{Run, ok, crash, out_of_fuel, Cmd, and_then, Returns}
use kernel_testkit.Base.Partial.{Ends}

-- The fuel is enough; a result meets the postcondition.
abbrev pub Halts : {S A : Type 0} → (A → S → Type 0) → Run S A → Type 0
Halts P (ok a s) = P a s
Halts P crash = Unit
Halts P out_of_fuel = ⊥

module _ {S A : Type 0} where
  pub bind-Halts :
      {B : Type 0} (P : A → S → Type 0) (Q : B → S → Type 0) (m : Run S A) (k : A → Cmd S B)
      → Halts P m
      → ((a : A) (s : S) → P a s → Halts Q (k a s))
      → Halts Q (and_then m k)
  bind-Halts P Q (ok a s) k p next = next a s p
  bind-Halts P Q crash k p next = tt
  bind-Halts P Q out_of_fuel k p next = p

  pub Returns-Halts :
      (P Q : A → S → Type 0) (m : Run S A)
      → Returns P m
      → ((a : A) (s : S) → P a s → Q a s)
      → Halts Q m
  Returns-Halts P Q (ok a s) p next = next a s p
  Returns-Halts P Q crash p next = tt
  Returns-Halts P Q out_of_fuel p next = absurd p

  -- A run that ends, ends in what it may end in.
  pub Halts-Ends :
      (P Q : A → S → Type 0) (m : Run S A) → Halts P m → Ends Q m → Halts (λ a s. P a s × Q a s) m
  Halts-Ends P Q (ok a s) p q = (p, q)
  Halts-Ends P Q crash p q = tt
  Halts-Ends P Q out_of_fuel p q = p

  pub weaken-Halts :
      (P Q : A → S → Type 0) (m : Run S A)
      → Halts P m
      → ((a : A) (s : S) → P a s → Q a s)
      → Halts Q m
  weaken-Halts P Q (ok a s) p next = next a s p
  weaken-Halts P Q crash p next = tt
  weaken-Halts P Q out_of_fuel p next = p
