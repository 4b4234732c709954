-- ===== src/Sockets/Port.antt =====
-- The text of the port in `netannounce`.
use kernel_testkit.Base.{
  ℕ, ◌+◌, ◌-◌, ◌*◌, Bool-cases, inl, inr, ◌/◌, ◌^◌, ◌<◌, ltb, ◌≡◌, if◌then◌else◌, List, [], ◌∷◌,
  arith,
}
use kernel_testkit.Base.Int.{pos}
use kernel_testkit.Base.Text.{digits_from, decimal}
use kernel_testkit.Sockets.{portstr}

-- The number that decimal digits stand for, read from the left behind `acc`.
abbrev pub value : ℕ → List ℕ → ℕ
value acc [] = acc
value acc (c ∷ cs) = value (acc * 10 + (c - 48)) cs

-- The text that `netannounce` gives the resolver for a port below 10 ^ 6 stands for the port, if
-- that is below 10 ^ 5, and else for the port without its last digit.
pub portstr-value :
    (n : ℕ) → n < 10 ^ 6 → value 0 (portstr (pos n)) ≡ (if ltb n (10 ^ 5) then n else n / 10)
unfolding portstr decimal digits_from
portstr-value n h = elim (Bool-cases (ltb n 10)) [
  | inl t0 ↦ rw t0 (ground arith)
  | inr t0 ↦ rw t0 (elim (Bool-cases (ltb (n / 10) 10)) [
    | inl t1 ↦ rw t1 (ground arith)
    | inr t1 ↦ rw t1 (elim (Bool-cases (ltb (n / 10 / 10) 10)) [
      | inl t2 ↦ rw t2 (ground arith)
      | inr t2 ↦ rw t2 (elim (Bool-cases (ltb (n / 10 / 10 / 10) 10)) [
        | inl t3 ↦ rw t3 (ground arith)
        | inr t3 ↦ rw t3 (elim (Bool-cases (ltb (n / 10 / 10 / 10 / 10) 10)) [
          | inl t4 ↦ rw t4 (ground arith)
          | inr t4 ↦ rw t4 (elim (Bool-cases (ltb (n / 10 / 10 / 10 / 10 / 10) 10)) [
            | inl t5 ↦ rw t5 (ground arith)
            | inr t5 ↦ ground arith
          ])
        ])
      ])
    ])
  ])
]
