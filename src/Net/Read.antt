-- ===== src/Net/Read.antt =====
-- `Nread`.
use kernel_testkit.Base.{
  ℕ, zero, suc, ◌+◌, ◌-◌, ◌≡◌, ◌≢◌, refl, ap, ◌⊎◌, inl, inr, ◌<◌, ◌≤◌, false, ◌||◌, List, [], ◌∷◌,
  ◌++◌, ◌==◌, if◌then◌else◌, length, take, drop, min, length-take, length-drop, length-append,
  take-append-drop, nil_of_length, take-append_le, drop-append_le, append_assoc, append-nil, arith,
  Bool-cases,
}
use kernel_testkit.Base.Int.{ℤ, pos, to_int}
use kernel_testkit.Base.Run.{Returns, pure}
use kernel_testkit.World.{
  World, held, blocks, Reply-cases, Reply, done, read_bytes, taken, tick, read, eintr, eagain,
}
use kernel_testkit.World.Laws.{update_self, update_ne, held-read, blocks-read}
use kernel_testkit.Net.{net_harderror, nread_loop, nread}

-- From `w` to `w'` the bytes `bytes` have been taken from the input of `fd`, and nothing else.
pub record Reads (fd : ℤ) (w w' : World) (bytes : List ℕ) : Type 0 where
  pub split : w.inbox fd ≡ bytes ++ w'.inbox fd
  pub others : (q : ℤ) → q ≢ fd → w'.inbox q ≡ w.inbox q
  pub sent : w'.outbox ≡ w.outbox
  pub reply : w'.reply ≡ w.reply
  pub same_held : held w'.log ≡ held w.log
  pub same_blocks : blocks w'.log ≡ blocks w.log

abbrev pub NreadDone : ℤ → ℕ → World → ℤ × List ℕ → World → Type 0
NreadDone fd count w (ret, bytes) w' =
    Reads fd w w' bytes
    × (length bytes ≤ count)
    × ((ret ≡ to_int (pos (length bytes))) ⊎ (ret ≡ net_harderror))

Reads-append :
    (fd : ℤ) (count m : ℕ) (w₀ w : World) (buf : List ℕ)
    → Reads fd w₀ w buf
    → Reads fd w₀ (taken fd count m w) (buf ++ take m (w.inbox fd))
Reads-append fd count m w₀ w buf r = record {
  split = rw (update_self w.inbox fd (drop m (w.inbox fd)), append_assoc, take-append-drop) r.split;
  others = λ q ne. rw (update_ne w.inbox fd (drop m (w.inbox fd)) q ne) (r.others q ne);
  sent = r.sent;
  reply = r.reply;
  same_held = rw held-read r.same_held;
  same_blocks = rw blocks-read r.same_blocks;
}

module _ (fd : ℤ) (count : ℕ) (w₀ : World) where
  -- Where the loop is left by a `break`, or because nothing is left to read.
  stopped :
      (nleft : ℕ) (buf : List ℕ) (w : World)
      → Reads fd w₀ w buf
      → nleft + length buf ≡ count
      → NreadDone fd count w₀ (to_int (pos (count - nleft)), buf) w
  stopped nleft buf w r e = (r, omega arith, inl (ap (λ n. to_int (pos n)) (omega arith)))

  -- Where `read` has failed, with this error number.
  failed :
      (n nleft : ℕ) (buf : List ℕ) (w : World)
      → Reads fd w₀ w buf
      → nleft + length buf ≡ count
      → Returns (NreadDone fd count w₀) (
          (if (n == eintr) || ((n == eagain) || (n == eagain))
              then pure (to_int (pos (count - nleft)), buf)
              else pure (net_harderror, buf))
            w)
  failed n nleft buf w r e = elim (Bool-cases ((n == eintr) || ((n == eagain) || (n == eagain)))) [
    | inl soft ↦ rw soft (stopped nleft buf w r e)
    | inr hard ↦ rw hard (r, omega arith, inr refl)
  ]

  loop-Done :
      (k nleft : ℕ) (buf : List ℕ) (w : World)
      → Reads fd w₀ w buf
      → nleft + length buf ≡ count
      → nleft < k
      → Returns (NreadDone fd count w₀) (nread_loop fd count k nleft buf w)
  unfolding nread_loop
  loop-Done zero nleft buf w r e fuel = absurd (omega arith)
  loop-Done (suc k) nleft buf w r e fuel = elim (Bool-cases (nleft == 0)) [
    | inl end ↦ rw end (stopped nleft buf w r e)
    | inr more ↦ rw more (elim (Reply-cases (w.reply w.clock)) [
      | inl (n, d) ↦
          let got = take (min n nleft) (w.inbox fd) in
          let short = length-take (min n nleft) (w.inbox fd) in
          let w' = taken fd nleft (min n nleft) w in
          let r' = Reads-append fd nleft (min n nleft) w₀ w buf r in
          rw (d, read_bytes)
            (elim (Bool-cases (length got == 0)) [
              | inl none ↦
                  let e' : got ≡ [] = nil_of_length got (ground arith) in
                  rw none (stopped nleft buf w' (rw (e', append-nil) at r') e)
              | inr some ↦ rw some (
                  loop-Done k (nleft - length got) (buf ++ got) w' r'
                    (ground (arith, length-append buf got, short)) (ground (arith, short)))
            ])
      | inr (n, d) ↦
          rw (d, read_bytes)
            (failed n nleft buf (record (tick (read fd nleft) w) { errno = n })
              (record {
                split = r.split;
                others = r.others;
                sent = r.sent;
                reply = r.reply;
                same_held = rw held-read r.same_held;
                same_blocks = rw blocks-read r.same_blocks;
              })
              e)
    ])
  ]

-- Whatever the kernel answers, `Nread` ends; it stores a prefix of the input of at most `count`
-- bytes, takes those bytes and no others, and returns their number as an `int`, or
-- NET_HARDERROR.
pub nread-Done :
    (fd : ℤ) (count : ℕ) (w : World) → Returns (NreadDone fd count w) (nread fd count w)
unfolding nread
nread-Done fd count w =
    loop-Done fd count w (count + 1) count [] w
      (record {
        split = refl;
        others = λ q ne. refl;
        sent = refl;
        reply = refl;
        same_held = refl;
        same_blocks = refl;
      })
      (omega arith) (omega arith)

-- A kernel that never fails a call and always makes progress.
abbrev pub IsReliable : (ℕ → Reply) → Type 0
IsReliable reply = (i : ℕ) → (n : ℕ) × (reply i ≡ done (suc n))

abbrev pub NreadFull : ℤ → World → (bytes rest : List ℕ) → ℤ × List ℕ → World → Type 0
NreadFull fd w bytes rest (ret, got) w' =
    (ret ≡ to_int (pos (length bytes)))
    × (got ≡ bytes)
    × (w'.inbox fd ≡ rest)
    × (w'.reply ≡ w.reply)
    × (w'.outbox ≡ w.outbox)

module _ (fd : ℤ) (bytes rest : List ℕ) (w₀ : World) (reliable : IsReliable w₀.reply) where
  loop-Full :
      (k : ℕ) (buf more : List ℕ) (w : World)
      → bytes ≡ buf ++ more
      → w.inbox fd ≡ more ++ rest
      → w.reply ≡ w₀.reply
      → w.outbox ≡ w₀.outbox
      → length more < k
      → Returns (NreadFull fd w₀ bytes rest) (nread_loop fd (length bytes) k (length more) buf w)
  unfolding nread_loop
  loop-Full zero buf more w b i p o fuel = absurd (omega arith)
  loop-Full (suc k) buf [] w b i p o fuel =
      (ap (λ n. to_int (pos n)) (omega arith), rw (b, append-nil), i, p, o)
  loop-Full (suc k) buf (x ∷ xs) w b i p o fuel =
      let (n, d) = reliable w.clock in
      let more = x ∷ xs in
      let m = min (suc n) (length more) in
      let w' = taken fd (length more) m w in
      let d' : w.reply w.clock ≡ done (suc n) = rw p d in
      let t : take m (w.inbox fd) ≡ take m more = rw i (take-append_le m more rest (omega arith)) in
      let u : w'.inbox fd ≡ drop m more ++ rest =
        rw (update_self w.inbox fd (drop m (w.inbox fd)), i)
          (drop-append_le m more rest (omega arith)) in
      let short = length-take m more in
      let some : (length (take m (w.inbox fd)) == 0) ≡ false = rw t (ground (arith, short)) in
      let left : length more - length (take m (w.inbox fd)) ≡ length (drop m more) =
        rw t (ground (arith, short, length-drop m more)) in
      let ne : (length more == 0) ≡ false = ground arith in
      rw ne (
        rw (d', read_bytes)
          (rw (some, left)
            (loop-Full k (buf ++ take m (w.inbox fd)) (drop m more) w'
              (rw (t, append_assoc, take-append-drop) b) u p o
              (ground (arith, length-drop m more)))))

-- If the kernel never fails and always makes progress, and `bytes` stand first in the input,
-- `Nread` of as many bytes stores exactly those and returns their number.
pub nread-Full :
    (fd : ℤ) (bytes rest : List ℕ) (w : World)
    → IsReliable w.reply
    → w.inbox fd ≡ bytes ++ rest
    → Returns (NreadFull fd w bytes rest) (nread fd (length bytes) w)
unfolding nread
nread-Full fd bytes rest w reliable i =
    loop-Full fd bytes rest w reliable (length bytes + 1) [] bytes w refl i refl refl (omega arith)
