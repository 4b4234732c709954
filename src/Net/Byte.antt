-- ===== src/Net/Byte.antt =====
-- `Nwrite` of one byte.
use kernel_testkit.Base.{
  ℕ, zero, suc, ◌==◌, ◌||◌, ◌≡◌, ◌≢◌, refl, true, false, Bool-cases, ◌⊎◌, inl, inr, [], ◌∷◌, ◌++◌,
  length, arith, ◌∙◌, ap, append-nil, take, take_all,
}
use kernel_testkit.Base.Int.{ℤ, pos, is_neg, to_int, to_int-id}
use kernel_testkit.Base.Run.{Returns}
use kernel_testkit.World.{
  World, Reply, Reply-cases, done, fail, eintr, eagain, enobufs, write_bytes, get_errno,
}
use kernel_testkit.World.Laws.{update_self}
use kernel_testkit.Net.{nwrite, nwrite_loop}
use kernel_testkit.Net.Interrupted.{Interrupts}

-- The kernel takes bytes.
abbrev pub Accepts : Reply → Type 0
Accepts r = (n : ℕ) × (r ≡ done (suc n))

-- It takes no byte, or fails with an error other than EINTR and EAGAIN.
abbrev pub Rejects : Reply → Type 0
Rejects r = (r ≡ done 0) ⊎ ((e : ℕ) × (r ≡ fail e) × (e ≢ eintr) × (e ≢ eagain))

-- The byte has gone out; or nothing, and there is no error, as the write was interrupted; or
-- nothing, with an error.
abbrev pub ByteSent : ℤ → ℕ → World → ℤ → World → Type 0
ByteSent fd b w r w' =
    (Accepts (w.reply w.clock) × (is_neg r ≡ false) × (w'.outbox fd ≡ w.outbox fd ++ (b ∷ [])))
    ⊎ ((Interrupts (w.reply w.clock) × (is_neg r ≡ false) × (w'.outbox fd ≡ w.outbox fd))
        ⊎ (Rejects (w.reply w.clock) × (is_neg r ≡ true) × (w'.outbox fd ≡ w.outbox fd)))

pub nwrite-ByteSent :
    (fd : ℤ) (b : ℕ) (w : World) → Returns (ByteSent fd b w) (nwrite fd (b ∷ []) w)
unfolding nwrite nwrite_loop write_bytes get_errno
nwrite-ByteSent fd b w = elim (Reply-cases (w.reply w.clock)) [
  | inl (zero, e) ↦
      rw (e, write_bytes)
        (inr (
          inr
            (inl e, refl, update_self w.outbox fd (w.outbox fd ++ []) ∙ append-nil (w.outbox fd))))
  | inl (suc n, e) ↦
      let whole : take (suc n) (b ∷ []) ≡ b ∷ [] = take_all (suc n) (b ∷ []) (omega arith) in
      let one_byte : length (take (suc n) (b ∷ [])) ≡ 1 = ap length whole in
      rw (e, write_bytes, one_byte, whole)
        (inl ((n, e), one, update_self w.outbox fd (w.outbox fd ++ (b ∷ []))))
  | inr (e, f) ↦ elim (Bool-cases ((e == eintr) || (e == eagain))) [
    | inl soft ↦ rw (f, write_bytes, soft) (inr (inl ((e, f, ground arith), zero_sent, refl)))
    | inr hard ↦
        rw (f, write_bytes, hard)
          (elim (Bool-cases (e == enobufs)) [
            | inl full ↦ rw full (inr (inr (inr (e, f, ground arith, ground arith), refl, refl)))
            | inr other ↦ rw other (inr (inr (inr (e, f, ground arith, ground arith), refl, refl)))
          ])
  ]
]
  where
    zero_sent : is_neg (to_int (pos 0)) ≡ false
    zero_sent = rw (to_int-id (pos 0) (omega arith)) refl

    one : is_neg (to_int (pos 1)) ≡ false
    one = rw (to_int-id (pos 1) (omega arith)) refl
