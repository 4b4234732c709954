-- ===== src/Test/Lift.antt =====
-- Commands of the world inside those of the whole state.
use kernel_testkit.Base.{ℕ, ◌≡◌, refl, true, List}
use kernel_testkit.Base.Int.{ℤ, ◌==ℤ◌, ==ℤ_iff}
use kernel_testkit.Base.Run.{Run, ok, crash, out_of_fuel, Cmd, Returns}
use kernel_testkit.Base.Partial.{Ends}
use kernel_testkit.World.{World, update}
use kernel_testkit.Test.{State, keep, lift}

-- The rest of the state stays.
abbrev pub Lifted : {A : Type 0} → (A → World → Type 0) → State → A → State → Type 0
Lifted P s a s' =
    P a s'.world × (s'.test ≡ s.test) × (s'.memory ≡ s.memory) × (s'.reports ≡ s.reports)

pub lift-Returns :
    {A : Type 0} (P : A → World → Type 0) (m : Cmd World A) (s : State)
    → Returns P (m s.world)
    → Returns (Lifted P s) (lift m s)
lift-Returns {A} P m s h = go (m s.world) h
  where
    go : (r : Run World A) → Returns P r → Returns (Lifted P s) (keep s r)
    go (ok a w) p = (p, refl, refl, refl)
    go crash p = p
    go out_of_fuel p = p

pub lift-Ends :
    {A : Type 0} (P : A → World → Type 0) (m : Cmd World A) (s : State)
    → Ends P (m s.world)
    → Ends (Lifted P s) (lift m s)
lift-Ends {A} P m s h = go (m s.world) h
  where
    go : (r : Run World A) → Ends P r → Ends (Lifted P s) (keep s r)
    go (ok a w) p = (p, refl, refl, refl)
    go crash p = p
    go out_of_fuel p = p

-- The state in which these bytes have come in through `fd`.
abbrev pub delivered : ℤ → List ℕ → State → State
delivered fd bytes s = record s {
  world = record (s.world) { inbox = update s.world.inbox fd bytes };
}

pub delivered-inbox :
    (fd : ℤ) (bytes : List ℕ) (s : State) → (delivered fd bytes s).world.inbox fd ≡ bytes
delivered-inbox fd bytes s = let same : (fd ==ℤ fd) ≡ true = (==ℤ_iff fd fd).1 refl in rw same refl
