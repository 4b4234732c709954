-- ===== src/Base/Run.antt =====
-- Commands over a state: C code that may abort, or follow a pointer that leads nowhere.
use mathlib.Core.Path.{◌≡◌, refl}

-- `crash` is an abort or undefined behaviour; `out_of_fuel` is a walk that did not end in time.
pub data Run (S A : Type 0) : Type 0 where
  ok : A → S → Run S A
  crash : Run S A
  out_of_fuel : Run S A

abbrev pub Cmd : Type 0 → Type 0 → Type 0
Cmd S A = S → Run S A

module _ {S A : Type 0} where
  abbrev pub pure : A → Cmd S A
  pure a s = ok a s

module _ {S A B : Type 0} where
  abbrev pub and_then : Run S A → (A → Cmd S B) → Run S B
  and_then (ok a s) k = k a s
  and_then crash k = crash
  and_then out_of_fuel k = out_of_fuel

  infixl 5 ◌>>=◌ ◌>>◌
  abbrev pub ◌>>=◌ : Cmd S A → (A → Cmd S B) → Cmd S B
  m >>= k = λ s. and_then (m s) k

  abbrev pub ◌>>◌ : Cmd S A → Cmd S B → Cmd S B
  m >> n = m >>= λ _. n

-- Total correctness of a run: it ends, and its result and state meet the postcondition.
abbrev pub Returns : {S A : Type 0} → (A → S → Type 0) → Run S A → Type 0
Returns P (ok a s) = P a s
Returns P crash = ⊥
Returns P out_of_fuel = ⊥

-- The rule for a sequence, and for a weaker postcondition.
module _ {S A : Type 0} where
  pub bind :
      {B : Type 0} (P : A → S → Type 0) (Q : B → S → Type 0) (m : Run S A) (k : A → Cmd S B)
      → Returns P m
      → ((a : A) (s : S) → P a s → Returns Q (k a s))
      → Returns Q (and_then m k)
  bind P Q (ok a s) k p next = next a s p
  bind P Q crash k p next = p
  bind P Q out_of_fuel k p next = p

  pub weaken :
      (P Q : A → S → Type 0) (m : Run S A)
      → Returns P m
      → ((a : A) (s : S) → P a s → Q a s)
      → Returns Q m
  weaken P Q (ok a s) p next = next a s p
  weaken P Q crash p next = p
  weaken P Q out_of_fuel p next = p

-- The rule for two postconditions.
pub Returns-both :
    {S A : Type 0} (P Q : A → S → Type 0) (m : Run S A)
    → Returns P m
    → Returns Q m
    → Returns (λ a s. P a s × Q a s) m
Returns-both P Q (ok a s) p q = (p, q)
Returns-both P Q crash p q = p
Returns-both P Q out_of_fuel p q = p

-- The result and the state of a run that meets a postcondition.
pub Returns-ok :
    {S A : Type 0} (P : A → S → Type 0) (m : Run S A)
    → Returns P m
    → (a : A) × (s : S) × (m ≡ ok a s) × P a s
Returns-ok P (ok a s) p = (a, s, refl, p)
Returns-ok P crash p = absurd p
Returns-ok P out_of_fuel p = absurd p
