-- ===== src/Net/Interrupted.antt =====
-- `Nwrite` where the kernel interrupts it.
use kernel_testkit.Base.{
  ℕ, suc, ◌+◌, ◌-◌, ◌==◌, ◌||◌, ◌≡◌, refl, true, false, ◌⊎◌, List, length, arith,
}
use kernel_testkit.Base.Int.{ℤ, pos, to_int-id}
use kernel_testkit.Base.Run.{Returns}
use kernel_testkit.World.{World, Reply, fail, eintr, eagain, write_bytes, get_errno}
use kernel_testkit.Net.{nwrite, nwrite_loop}

-- EINTR or EAGAIN.
abbrev pub Interrupts : Reply → Type 0
Interrupts r = (e : ℕ) × (r ≡ fail e) × ((e ≡ eintr) ⊎ (e ≡ eagain))

-- One call has been made, nothing has gone out, and 0 is returned.
abbrev pub Nothing : World → ℤ → World → Type 0
Nothing w r w' =
    (r ≡ pos 0) × (w'.outbox ≡ w.outbox) × (w'.reply ≡ w.reply) × (w'.clock ≡ suc w.clock)

loop-Nothing :
    (fd : ℤ) (count k : ℕ) (buf : List ℕ) (w : World)
    → (length buf == 0) ≡ false
    → count ≡ length buf
    → Interrupts (w.reply w.clock)
    → Returns (Nothing w) (nwrite_loop fd count (suc k) buf w)
unfolding nwrite_loop write_bytes get_errno
loop-Nothing fd count k buf w nonempty full (e, f, soft) =
    let quiet : ((e == eintr) || (e == eagain)) ≡ true = ground arith in
    let zero_left : count - length buf ≡ 0 = omega arith in
    rw (nonempty, f, write_bytes, quiet, zero_left)
      (to_int-id (pos 0) (omega arith), refl, refl, refl)

-- Interrupted before the first byte, `Nwrite` returns 0, which is no error.
pub nwrite-Nothing :
    (fd : ℤ) (buf : List ℕ) (w : World)
    → (length buf == 0) ≡ false
    → Interrupts (w.reply w.clock)
    → Returns (Nothing w) (nwrite fd buf w)
unfolding nwrite
nwrite-Nothing fd buf w nonempty i =
    let fuel : length buf + 1 ≡ suc (length buf) = omega arith in
    rw fuel (loop-Nothing fd (length buf) (length buf) buf w nonempty refl i)
