-- ===== src/Report/Numeral.antt =====
-- `%d` of small numbers, digit by digit.
use kernel_testkit.Base.{
  ℕ, ◌+◌, ◌/◌, ◌%◌, ◌^◌, ◌<◌, ◌≤◌, ltb, ◌≡◌, if◌then◌else◌, List, [], ◌∷◌, length, Bool-cases, inl,
  inr, arith,
}
use kernel_testkit.Base.Int.{pos}
use kernel_testkit.Base.Text.{digits_from, decimal}

-- The text of a number below 10 ^ 5.
abbrev pub numeral : ℕ → List ℕ
numeral n =
    if ltb n 10
    then (48 + n) ∷ []
    else (if ltb n 100
        then (48 + n / 10) ∷ (48 + n % 10) ∷ []
        else (if ltb n 1000
            then (48 + n / 100) ∷ (48 + n / 10 % 10) ∷ (48 + n % 10) ∷ []
            else (if ltb n 10000
                then (48 + n / 1000) ∷ (48 + n / 100 % 10) ∷ (48 + n / 10 % 10) ∷ (48 + n % 10) ∷ []
                else (48 + n / 10000)
                  ∷ (48 + n / 1000 % 10)
                  ∷ (48 + n / 100 % 10)
                  ∷ (48 + n / 10 % 10)
                  ∷ (48 + n % 10)
                  ∷ [])))

pub length-numeral : (n : ℕ) → length (numeral n) ≤ 5
length-numeral n = ground arith

pub decimal-numeral : (n : ℕ) → n < 10 ^ 5 → decimal (pos n) ≡ numeral n
unfolding decimal digits_from
decimal-numeral n h = elim (Bool-cases (ltb n 10)) [
  | inl t0 ↦ rw t0 (ground arith)
  | inr t0 ↦ rw t0 (elim (Bool-cases (ltb (n / 10) 10)) [
    | inl t1 ↦ rw t1 (ground arith)
    | inr t1 ↦ rw t1 (elim (Bool-cases (ltb (n / 10 / 10) 10)) [
      | inl t2 ↦ rw t2 (ground arith)
      | inr t2 ↦ rw t2 (elim (Bool-cases (ltb (n / 10 / 10 / 10) 10)) [
        | inl t3 ↦ rw t3 (ground arith)
        | inr t3 ↦ rw t3 (elim (Bool-cases (ltb (n / 10 / 10 / 10 / 10) 10)) [
          | inl t4 ↦ rw t4 (ground arith)
          | inr t4 ↦ absurd (ground arith)
        ])
      ])
    ])
  ])
]
