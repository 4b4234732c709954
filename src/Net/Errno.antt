-- ===== src/Net/Errno.antt =====
-- What `Nwrite` leaves in `errno` where it reports no error.
use kernel_testkit.Base.{
  ℕ, zero, suc, ◌+◌, ◌==◌, ◌||◌, ◌≡◌, false, ◌⊎◌, inl, inr, Bool-cases, List, length, take, drop,
  drop-length-take, arith,
}
use kernel_testkit.Base.Int.{ℤ, is_neg}
use kernel_testkit.Base.Partial.{Ends}
use kernel_testkit.World.{World, Reply-cases, eintr, eagain, enobufs, write_bytes, get_errno, given}
use kernel_testkit.Net.{nwrite, nwrite_loop}

-- One of the numbers in `E`, or EINTR or EAGAIN.
abbrev pub Reason : (ℕ → Type 0) → ℕ → Type 0
Reason E e = E e ⊎ ((e ≡ eintr) ⊎ (e ≡ eagain))

module _ (E : ℕ → Type 0) where
  loop-Reason :
      (fd : ℤ) (count k : ℕ) (buf : List ℕ) (w : World)
      → Reason E w.errno
      → Ends (λ r w'. is_neg r ≡ false → Reason E w'.errno) (nwrite_loop fd count k buf w)
  unfolding nwrite_loop get_errno
  loop-Reason fd count zero buf w e = tt
  loop-Reason fd count (suc k) buf w e = elim (Bool-cases (length buf == 0)) [
    | inl end ↦ rw end (λ _. e)
    | inr more ↦ rw more (elim (Reply-cases (w.reply w.clock)) [
      | inl (n, d) ↦
          rw (d, write_bytes)
            (elim (Bool-cases (length (take n buf) == 0)) [
              | inl stuck ↦ rw stuck (λ _. e)
              | inr some ↦
                  rw (some, drop-length-take)
                    (loop-Reason fd count k (drop n buf) (given fd buf n w) e)
            ])
      | inr (n, d) ↦ elim (Bool-cases ((n == eintr) || (n == eagain))) [
        | inl soft ↦
            let i : (n ≡ eintr) ⊎ (n ≡ eagain) = ground arith in
            rw (d, write_bytes, soft) (λ _. inr i)
        | inr hard ↦
            rw (d, write_bytes, hard)
              (elim (Bool-cases (n == enobufs)) [
                | inl full ↦ rw full (λ fine. cc fine)
                | inr other ↦ rw other (λ fine. cc fine)
              ])
      ]
    ])
  ]

  pub nwrite-Reason :
      (fd : ℤ) (buf : List ℕ) (w : World)
      → Reason E w.errno
      → Ends (λ r w'. is_neg r ≡ false → Reason E w'.errno) (nwrite fd buf w)
  unfolding nwrite
  nwrite-Reason fd buf w e = loop-Reason fd (length buf) (length buf + 1) buf w e
