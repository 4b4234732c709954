-- ===== src/Net/Progress.antt =====
-- `Nread` delivers a byte where there is one.
use kernel_testkit.Base.{
  ℕ, zero, suc, ◌-◌, ◌≡◌, inl, inr, ◌<◌, ◌≤◌, false, ◌||◌, List, ◌∷◌, ◌++◌, ◌==◌, length, take, min,
  length-take, length-append, arith, Bool-cases,
}
use kernel_testkit.Base.Int.{ℤ}
use kernel_testkit.Base.Run.{Returns, weaken}
use native.Mathlib.Numerals.{add-one}
use kernel_testkit.World.{World, Reply-cases, done, read_bytes, taken, eintr, eagain}
use kernel_testkit.Net.{nread_loop, nread}

module _ (fd : ℤ) (count : ℕ) where
  -- What has been stored stays stored.
  loop-grows :
      (k nleft : ℕ) (buf : List ℕ) (w : World)
      → nleft < k
      → Returns (λ r _. length buf ≤ length (r.1)) (nread_loop fd count k nleft buf w)
  unfolding nread_loop
  loop-grows zero nleft buf w fuel = absurd (omega arith)
  loop-grows (suc k) nleft buf w fuel = elim (Bool-cases (nleft == 0)) [
    | inl end ↦ rw end (omega arith)
    | inr more ↦ rw more (elim (Reply-cases (w.reply w.clock)) [
      | inl (n, d) ↦
          let got = take (min n nleft) (w.inbox fd) in
          rw (d, read_bytes)
            (elim (Bool-cases (length got == 0)) [
              | inl none ↦ rw none (omega arith)
              | inr some ↦ rw some (
                  weaken (λ r _. length (buf ++ got) ≤ length (r.1)) _
                    (nread_loop fd count k (nleft - length got) (buf ++ got)
                      (taken fd nleft (min n nleft) w))
                    (loop-grows k (nleft - length got) (buf ++ got) (taken fd nleft (min n nleft) w)
                      (ground arith))
                    (λ r s h. omega (arith, length-append buf got)))
            ])
      | inr (n, d) ↦
          rw (d, read_bytes)
            (elim (Bool-cases ((n == eintr) || ((n == eagain) || (n == eagain)))) [
              | inl soft ↦ rw soft (omega arith)
              | inr hard ↦ rw hard (omega arith)
            ])
    ])
  ]

  -- If there is a byte to read, and the kernel delivers, at least one is stored.
  pub nread_progress :
      (w : World) (x n : ℕ) (rest : List ℕ)
      → w.inbox fd ≡ x ∷ rest
      → w.reply w.clock ≡ done (suc n)
      → 0 < count
      → Returns (λ r _. 0 < length (r.1)) (nread fd count w)
  unfolding nread
  nread_progress w x n rest i d some =
      let got = take (min (suc n) count) (w.inbox fd) in
      let w' = taken fd count (min (suc n) count) w in
      let one : 0 < length got = rw i (omega (arith, length-take (min (suc n) count) (x ∷ rest))) in
      let ne : (count == 0) ≡ false = ground arith in
      let ne' : (length got == 0) ≡ false = ground arith in
      rw add-one (
        rw ne (
          rw (d, read_bytes)
            (rw ne' (
              weaken (λ r _. length got ≤ length (r.1)) _
                (nread_loop fd count count (count - length got) got w')
                (loop-grows count (count - length got) got w' (omega arith))
                (λ r s h. omega arith)))))
