-- ===== src/Net/Write.antt =====
-- `Nwrite`.
use kernel_testkit.Base.{
  ℕ, zero, suc, ◌+◌, ◌-◌, ◌≡◌, ◌≢◌, refl, ap, ◌⊎◌, inl, inr, ◌<◌, false, ◌||◌, List, [], ◌∷◌, ◌++◌,
  ◌==◌, if◌then◌else◌, length, take, drop, length-take, length-drop, length-append,
  take-append-drop, nil_of_length, append_assoc, append-nil, arith, Bool-cases, drop-length-take,
}
use kernel_testkit.Base.Int.{ℤ, pos, to_int}
use kernel_testkit.Base.Run.{Returns, pure}
use kernel_testkit.World.{
  World, held, blocks, Reply-cases, done, write_bytes, given, tick, write, eintr, eagain, enobufs,
}
use kernel_testkit.World.Laws.{update_self, update_ne, held-write, blocks-write}
use kernel_testkit.Net.{net_harderror, net_softerror, nwrite_loop, nwrite}
use kernel_testkit.Net.Read.{IsReliable}

-- From `w` to `w'` the bytes `bytes` have gone out through `fd`, and nothing else.
pub record Writes (fd : ℤ) (w w' : World) (bytes : List ℕ) : Type 0 where
  pub sent : w'.outbox fd ≡ w.outbox fd ++ bytes
  pub others : (q : ℤ) → q ≢ fd → w'.outbox q ≡ w.outbox q
  pub inbox : w'.inbox ≡ w.inbox
  pub reply : w'.reply ≡ w.reply
  pub same_held : held w'.log ≡ held w.log
  pub same_blocks : blocks w'.log ≡ blocks w.log

abbrev pub NwriteDone : ℤ → List ℕ → World → ℤ → World → Type 0
NwriteDone fd buf w ret w' =
    (bytes : List ℕ) × (left : List ℕ) × (buf ≡ bytes ++ left)
    × Writes fd w w' bytes
    × ((ret ≡ to_int (pos (length bytes))) ⊎ ((ret ≡ net_softerror) ⊎ (ret ≡ net_harderror)))

Writes-append :
    (fd : ℤ) (buf : List ℕ) (n : ℕ) (w₀ w : World) (bytes : List ℕ)
    → Writes fd w₀ w bytes
    → Writes fd w₀ (given fd buf n w) (bytes ++ take n buf)
Writes-append fd buf n w₀ w bytes r = record {
  sent = rw (update_self w.outbox fd (w.outbox fd ++ take n buf), r.sent, append_assoc);
  others = λ q ne. rw (update_ne w.outbox fd (w.outbox fd ++ take n buf) q ne) (r.others q ne);
  inbox = r.inbox;
  reply = r.reply;
  same_held = rw held-write r.same_held;
  same_blocks = rw blocks-write r.same_blocks;
}

module _ (fd : ℤ) (all : List ℕ) (w₀ : World) where
  failed :
      (n : ℕ) (bytes buf : List ℕ) (w : World)
      → Writes fd w₀ w bytes
      → all ≡ bytes ++ buf
      → Returns (NwriteDone fd all w₀) (
          (if (n == eintr) || (n == eagain)
              then pure (to_int (pos (length all - length buf)))
              else pure (if n == enobufs then net_softerror else net_harderror))
            w)
  failed n bytes buf w r e = elim (Bool-cases ((n == eintr) || (n == eagain))) [
    | inl soft ↦ rw soft (
      bytes,
      buf,
      e,
      r,
      inl (ap (λ m. to_int (pos m)) (omega (arith, ap length e, length-append bytes buf))),
    )
    | inr hard ↦ rw hard (elim (Bool-cases (n == enobufs)) [
      | inl full ↦ rw full (bytes, buf, e, r, inr (inl refl))
      | inr other ↦ rw other (bytes, buf, e, r, inr (inr refl))
    ])
  ]

  loop-Done :
      (k : ℕ) (bytes buf : List ℕ) (w : World)
      → Writes fd w₀ w bytes
      → all ≡ bytes ++ buf
      → length buf < k
      → Returns (NwriteDone fd all w₀) (nwrite_loop fd (length all) k buf w)
  unfolding nwrite_loop
  loop-Done zero bytes buf w r e fuel = absurd (omega arith)
  loop-Done (suc k) bytes buf w r e fuel = elim (Bool-cases (length buf == 0)) [
    | inl end ↦
        let e' : all ≡ bytes = rw (nil_of_length buf (ground arith), append-nil) at e in
        rw end (bytes, buf, e, r, inl (ap (λ xs. to_int (pos (length xs))) e'))
    | inr more ↦ rw more (elim (Reply-cases (w.reply w.clock)) [
      | inl (n, d) ↦
          let out = take n buf in
          let w' = given fd buf n w in
          let short = length-take n buf in
          let r' = Writes-append fd buf n w₀ w bytes r in
          let e' : all ≡ (bytes ++ out) ++ drop n buf = rw (append_assoc, take-append-drop) e in
          rw (d, write_bytes)
            (elim (Bool-cases (length out == 0)) [
              | inl none ↦ rw none (bytes ++ out, drop n buf, e', r', inr (inl refl))
              | inr some ↦
                  rw (some, drop-length-take)
                    (loop-Done k (bytes ++ out) (drop n buf) w' r' e'
                      (ground (arith, length-drop n buf, short)))
            ])
      | inr (n, d) ↦
          rw (d, write_bytes)
            (failed n bytes buf (record (tick (write fd (length buf)) w) { errno = n })
              (record {
                sent = r.sent;
                others = r.others;
                inbox = r.inbox;
                reply = r.reply;
                same_held = rw held-write r.same_held;
                same_blocks = rw blocks-write r.same_blocks;
              })
              e)
    ])
  ]

-- Whatever the kernel answers, `Nwrite` ends; a prefix of the buffer has gone out through the
-- descriptor, nothing through others, and it returns the prefix's length as an `int`, or
-- NET_SOFTERROR or NET_HARDERROR.
pub nwrite-Done :
    (fd : ℤ) (buf : List ℕ) (w : World) → Returns (NwriteDone fd buf w) (nwrite fd buf w)
unfolding nwrite
nwrite-Done fd buf w =
    loop-Done fd buf w (length buf + 1) [] buf w
      (record {
        sent = rw append-nil;
        others = λ q ne. refl;
        inbox = refl;
        reply = refl;
        same_held = refl;
        same_blocks = refl;
      })
      refl (omega arith)

module _ (fd : ℤ) (all : List ℕ) (w₀ : World) (reliable : IsReliable w₀.reply) where
  loop-Full :
      (k : ℕ) (bytes buf : List ℕ) (w : World)
      → Writes fd w₀ w bytes
      → all ≡ bytes ++ buf
      → length buf < k
      → Returns
          (λ ret w'. (ret ≡ to_int (pos (length all))) × Writes fd w₀ w' all)
          (nwrite_loop fd (length all) k buf w)
  unfolding nwrite_loop
  loop-Full zero bytes buf w r e fuel = absurd (omega arith)
  loop-Full (suc k) bytes [] w r e fuel = (refl, rw e (rw append-nil r))
  loop-Full (suc k) bytes (x ∷ xs) w r e fuel =
      let buf = x ∷ xs in
      let (n, d) = reliable w.clock in
      let d' : w.reply w.clock ≡ done (suc n) = rw r.reply d in
      let out = take (suc n) buf in
      let short = length-take (suc n) buf in
      let some : (length out == 0) ≡ false = ground (arith, short) in
      let ne : (length buf == 0) ≡ false = ground arith in
      rw ne (
        rw (d', write_bytes)
          (rw (some, drop-length-take)
            (loop-Full k (bytes ++ out) (drop (suc n) buf) (given fd buf (suc n) w)
              (Writes-append fd buf (suc n) w₀ w bytes r) (rw (append_assoc, take-append-drop) e)
              (ground (arith, length-drop (suc n) buf)))))

-- If the kernel never fails and always makes progress, `Nwrite` sends the whole buffer and
-- returns its length.
pub nwrite-Full :
    (fd : ℤ) (buf : List ℕ) (w : World)
    → IsReliable w.reply
    → Returns (λ ret w'. (ret ≡ to_int (pos (length buf))) × Writes fd w w' buf) (nwrite fd buf w)
unfolding nwrite
nwrite-Full fd buf w reliable =
    loop-Full fd buf w reliable (length buf + 1) [] buf w
      (record {
        sent = rw append-nil;
        others = λ q ne. refl;
        inbox = refl;
        reply = refl;
        same_held = refl;
        same_blocks = refl;
      })
      refl (omega arith)
