-- ===== src/Base/Partial.antt =====
-- Partial correctness of a run: if it ends, its result and state meet the postcondition.
use kernel_testkit.Base.Run.{Run, ok, crash, out_of_fuel, Cmd, and_then, Returns}

abbrev pub Ends : {S A : Type 0} → (A → S → Type 0) → Run S A → Type 0
Ends P (ok a s) = P a s
Ends P crash = Unit
Ends P out_of_fuel = Unit

module _ {S A : Type 0} where
  pub bind_ends :
      {B : Type 0} (P : A → S → Type 0) (Q : B → S → Type 0) (m : Run S A) (k : A → Cmd S B)
      → Ends P m
      → ((a : A) (s : S) → P a s → Ends Q (k a s))
      → Ends Q (and_then m k)
  bind_ends P Q (ok a s) k p next = next a s p
  bind_ends P Q crash k p next = tt
  bind_ends P Q out_of_fuel k p next = tt

  pub Ends-both :
      (P Q : A → S → Type 0) (m : Run S A) → Ends P m → Ends Q m → Ends (λ a s. P a s × Q a s) m
  Ends-both P Q (ok a s) p q = (p, q)
  Ends-both P Q crash p q = tt
  Ends-both P Q out_of_fuel p q = tt

  -- What holds of every result and state.
  pub Ends-always : (P : A → S → Type 0) (m : Run S A) → ((a : A) (s : S) → P a s) → Ends P m
  Ends-always P (ok a s) p = p a s
  Ends-always P crash p = tt
  Ends-always P out_of_fuel p = tt

  pub Returns-Ends : (P : A → S → Type 0) (m : Run S A) → Returns P m → Ends P m
  Returns-Ends P (ok a s) p = p
  Returns-Ends P crash p = tt
  Returns-Ends P out_of_fuel p = tt

  pub weaken_ends :
      (P Q : A → S → Type 0) (m : Run S A) → Ends P m → ((a : A) (s : S) → P a s → Q a s) → Ends Q m
  weaken_ends P Q (ok a s) p next = next a s p
  weaken_ends P Q crash p next = tt
  weaken_ends P Q out_of_fuel p next = tt

  -- A run that returns, returns what it may end in.
  pub ended_Returns : (P Q : A → S → Type 0) (m : Run S A) → Returns P m → Ends Q m → Returns Q m
  ended_Returns P Q (ok a s) p q = q
  ended_Returns P Q crash p q = absurd p
  ended_Returns P Q out_of_fuel p q = absurd p
