-- ===== src/Sockets/Options.antt =====
-- `getsock_tcp_mss`, `set_tcp_options` and `setnonblocking`.
use kernel_testkit.Base.{
  true, ◌++◌, if◌then◌else◌, ℕ, suc, ◌/◌, ◌%◌, ◌≡◌, ◌≢◌, refl, ◌==◌, List, [], ◌∷◌, Option, none,
  some, arith, Bool-cases, ◌⊎◌, inl, inr,
}
use kernel_testkit.Base.Int.{ℤ, pos, minus_one, pos_part, truth, ◌==ℤ◌, ==ℤ_iff}
use kernel_testkit.Base.Run.{Returns}
use kernel_testkit.World.{
  World, Call, Reply, done, syscall, syscall_unit, Reply-cases, fcntl_getfl, fcntl_setfl,
  getsockopt, tcp_maxseg,
}
use kernel_testkit.Sockets.{set_tcp_options, setnonblocking, is_nonblocking, new_flags}

abbrev pub newest : List (Call × Reply) → Option (Call × Reply)
newest [] = none
newest (e ∷ log) = some e

-- The flags of a descriptor that the calls of a log, newest first, have last read or set.
abbrev pub flags_of : ℤ → List (Call × Reply) → Option ℕ
flags_of fd [] = none
flags_of fd ((fcntl_getfl q, done n) ∷ log) = if q ==ℤ fd then some n else flags_of fd log
flags_of fd ((fcntl_setfl q flags, done n) ∷ log) = if q ==ℤ fd then some flags else flags_of fd log
flags_of fd (_ ∷ log) = flags_of fd log

-- The flags to set differ from the old ones in the one bit, if at all.
abbrev pub SameButMode : ℕ → ℕ → Type 0
SameButMode old new = (new % 2048 ≡ old % 2048) × (new / 4096 ≡ old / 4096)

new_flags_lem :
    (nonblocking : ℤ) (old : ℕ)
    → (is_nonblocking (new_flags nonblocking old) ≡ truth nonblocking)
      × SameButMode old (new_flags nonblocking old)
unfolding new_flags
new_flags_lem nonblocking old = ground arith

-- The first of the calls has read the flags `old` of the descriptor, and they are now `new`.
abbrev pub ModeIsSet : (fd nonblocking : ℤ) → World → ℤ → World → Type 0
ModeIsSet fd nonblocking w r w' =
    (r ≡ minus_one)
    ⊎ ((r ≡ pos 0)
        × (old : ℕ) × (new : ℕ) × (calls : List (Call × Reply)) × (w'.log
            ≡ calls ++ ((fcntl_getfl fd, done old) ∷ w.log))
        × (flags_of fd w'.log ≡ some new)
        × (((new / 2048) % 2 == 1) ≡ truth nonblocking)
        × SameButMode old new)

-- `setnonblocking` returns -1, or returns 0; then its first call has read the flags of that
-- descriptor, the flags that it has last read or set of that descriptor have the bit 2048
-- (O_NONBLOCK) as asked, and every other bit as was read.
pub setnonblocking-ModeIsSet :
    (fd nonblocking : ℤ) (w : World)
    → Returns (ModeIsSet fd nonblocking w) (setnonblocking fd nonblocking w)
unfolding setnonblocking
setnonblocking-ModeIsSet fd nonblocking w =
    let self : (fd ==ℤ fd) ≡ true = (==ℤ_iff fd fd).1 refl in
    elim (Reply-cases (w.reply w.clock)) [
      | inr (e, f) ↦ rw (f, syscall) (inl refl)
      | inl (old, d) ↦
          let (mode, same) = new_flags_lem nonblocking old in
          rw (d, syscall)
            (elim (Bool-cases (new_flags nonblocking old == old)) [
              | inl keep ↦
                  let e : new_flags nonblocking old ≡ old = ground arith in
                  rw keep (
                    inr (
                      refl,
                      old,
                      old,
                      [],
                      rw d refl,
                      rw (d, self) refl,
                      rw e at mode,
                      rw e at same,
                    ))
              | inr change ↦ rw change (elim (Reply-cases (w.reply (suc w.clock))) [
                | inl (n, d') ↦
                    rw (d', syscall_unit)
                      (inr (
                        refl,
                        old,
                        new_flags nonblocking old,
                        (fcntl_setfl fd (new_flags nonblocking old), done n) ∷ [],
                        rw (d, d') refl,
                        rw (d', self) refl,
                        mode,
                        same,
                      ))
                | inr (e, f) ↦ rw (f, syscall_unit) (inl refl)
              ])
            ])
    ]

abbrev pub MssIsSet : (sock mss : ℤ) → ℤ → World → Type 0
MssIsSet sock mss r w' =
    (r ≡ minus_one)
    ⊎ ((r ≡ pos 0)
        × ((pos_part mss ≡ 0)
            ⊎ (newest w'.log ≡ some (getsockopt sock tcp_maxseg, done (pos_part mss)))))

-- On a socket, `set_tcp_options` returns -1, or returns 0; then either no positive MSS was asked
-- for, or its last call was the one that read that very MSS back.
pub set_tcp_options-MssIsSet :
    (sock no_delay mss : ℤ) (w : World)
    → sock ≢ minus_one
    → Returns (MssIsSet sock mss) (set_tcp_options sock no_delay mss w)
unfolding set_tcp_options
set_tcp_options-MssIsSet sock no_delay mss w ne = ground (arith, ==ℤ_iff sock minus_one)
