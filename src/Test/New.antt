-- ===== src/Test/New.antt =====
-- `iperf_new_test`: the test that it makes, and the memory that it holds.
use kernel_testkit.Base.{ℕ, suc, ◌≡◌, refl, ◌⊎◌, inl, inr, Option, none, some, ◌∷◌, arith}
use kernel_testkit.Base.Int.{pos}
use kernel_testkit.Base.Run.{Returns}
use kernel_testkit.Links.{null}
use kernel_testkit.World.{World, Reply-cases, blocks, syscall_value}
use kernel_testkit.Test.{Test, stdout, zero_test, iperf_new_test}

-- A test that has no protocol, no role and no state, is not reversed, and prints to `stdout`.
abbrev pub Blank : Test → Type 0
Blank t =
    (t.protocol ≡ null)
    × (t.role ≡ 0)
    × (t.reverse ≡ pos 0)
    × (t.outfile ≡ stdout)
    × (t.state ≡ pos 0)

-- NULL and no memory, or such a test, whose structure and settings are the two blocks held.
abbrev pub Made : World → Option Test → World → Type 0
Made w o w' =
    (w'.outbox ≡ w.outbox)
    × (((o ≡ none) × (blocks w'.log ≡ blocks w.log))
        ⊎ ((t : Test) × (set : ℕ) × (p : ℕ) × (o ≡ some t)
            × Blank t
            × (blocks w'.log ≡ set ∷ p ∷ blocks w.log)))

-- Whatever the kernel answers, `iperf_new_test` sends nothing and gives NULL, with no more
-- memory held than before, or a test without protocol, role, state or reverse that prints to
-- stdout, with the two blocks of the test and its settings held beyond those held before.
pub iperf_new_test-Made : (w : World) → Returns (Made w) (iperf_new_test w)
unfolding iperf_new_test zero_test syscall_value blocks
iperf_new_test-Made w = elim (Reply-cases (w.reply w.clock)) [
  | inr (e, f) ↦ rw (f, syscall_value) (refl, inl (refl, rw f refl))
  | inl (n, f) ↦ elim (Reply-cases (w.reply (suc w.clock))) [
    | inl (m, g) ↦
        rw (f, syscall_value, g)
          (refl, inr (_, m, n, refl, (refl, refl, refl, refl, refl), rw (g, f) refl))
    | inr (e, g) ↦ rw (f, syscall_value, g) (refl, inl (refl, rw (g, f) (ground arith)))
  ]
]
