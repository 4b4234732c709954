-- ===== src/Wire/Safety.antt =====
-- When `JSON_read` stays inside its buffer, and when it does not.
use kernel_testkit.Base.{
  ℕ, ◌+◌, ◌-◌, ◌%◌, ◌<◌, ◌^◌, ◌≡◌, ◌≢◌, refl, ◌∙◌, ltb, true, false, List, [], ◌∷◌, ◌++◌, length,
  drop, arith, inl, inr, Bool-cases,
}
use kernel_testkit.Base.Int.{ℤ, pos, is_neg, to_int-id}
use kernel_testkit.Base.Run.{ok, Returns, crash, bind, weaken, Returns-ok}
use kernel_testkit.World.Laws.{blocks_freed}
use kernel_testkit.World.{World, blocks, syscall_value, calloc, Reply-cases, tick}
use kernel_testkit.Net.{nread}
use kernel_testkit.Net.Progress.{nread_progress}
use kernel_testkit.Net.Read.{IsReliable, NreadFull, NreadDone, nread-Full, nread-Done}
use kernel_testkit.Json.{Json}
use kernel_testkit.Wire.{ntohl, json_read, read_text, fill}

-- Nothing is sent, no other descriptor is read, and no block of memory has been taken or lost.
abbrev pub Quiet : ℤ → World → World → Type 0
Quiet fd w w' =
    (w'.outbox ≡ w.outbox)
    × ((q : ℤ) → q ≢ fd → w'.inbox q ≡ w.inbox q)
    × (blocks w'.log ≡ blocks w.log)

module _ (J : Json) (fd : ℤ) where
  fill_safe :
      (hsize : ℕ) (w : World)
      → hsize + 1 < 2 ^ 32
      → Returns (λ _ w'. Quiet fd w w') (fill J fd hsize w)
  unfolding fill
  fill_safe hsize w small =
      bind (NreadDone fd hsize w) (λ _ w'. Quiet fd w w') (nread fd hsize w) _
        (nread-Done fd hsize w)
        λ (rc, got) w' (r, fits, ret).
          let room : ltb ((hsize + 1) % 2 ^ 32) (length got) ≡ false = ground arith in
          rw room (r.sent, r.others, r.same_blocks)

  read_text_safe :
      (hsize : ℕ) (w : World)
      → hsize + 1 < 2 ^ 32
      → Returns (λ _ w'. Quiet fd w w') (read_text J fd hsize w)
  unfolding read_text blocks
  read_text_safe hsize w small = elim (Reply-cases (w.reply w.clock)) [
    | inl (n, d) ↦
        let size = (hsize + 1) % 2 ^ 32 in
        let w1 = tick (calloc size) w in
        rw (d, syscall_value)
          (bind (λ _ w2. Quiet fd w1 w2) (λ _ w2. Quiet fd w w2) (fill J fd hsize w1) _
            (fill_safe hsize w1 small)
            λ o w2 (sent, others, b).
              (sent, others, blocks_freed n size w.log w2.log (w2.reply w2.clock) (rw d at b)))
    | inr (e, f) ↦ rw (f, syscall_value) (refl, (λ q ne. refl), rw f refl)
  ]

  -- Whatever the kernel answers and whatever comes in, `JSON_read` ends without writing past its
  -- buffer, sends nothing, reads no other descriptor and holds no more memory than before, if
  -- the length in `nsize` after the first read is not 2 ^ 32 - 1.
  pub json_read_safe :
      (junk : List ℕ) (w : World)
      → Returns (λ r _. ntohl (r.1 ++ drop (length (r.1)) junk) + 1 < 2 ^ 32) (nread fd 4 w)
      → Returns (λ _ w'. Quiet fd w w') (json_read J fd junk w)
  unfolding json_read
  json_read_safe junk w h =
      let (r, w', e, d) = Returns-ok (NreadDone fd 4 w) (nread fd 4 w) (nread-Done fd 4 w) in
      let r' = d.0 in
      let small : ntohl (r.1 ++ drop (length (r.1)) junk) + 1 < 2 ^ 32 = rw e at h in
      rw e (elim (Bool-cases (is_neg r.0)) [
        | inl bad ↦ rw bad (r'.sent, r'.others, r'.same_blocks)
        | inr fine ↦ rw fine (
            weaken (λ _ w''. Quiet fd w' w'') (λ _ w''. Quiet fd w w'')
              (read_text J fd (ntohl (r.1 ++ drop (length (r.1)) junk)) w')
              (read_text_safe (ntohl (r.1 ++ drop (length (r.1)) junk)) w' small)
              λ o w'' (sent, others, b).
                (sent ∙ r'.sent, (λ q ne. others q ne ∙ r'.others q ne), b ∙ r'.same_blocks))
      ])

  fill_overflow :
      (x : ℕ) (rest : List ℕ) (w : World)
      → IsReliable w.reply
      → w.inbox fd ≡ x ∷ rest
      → fill J fd (2 ^ 32 - 1) w ≡ crash
  unfolding fill
  fill_overflow x rest w reliable i =
      let (n, d) = reliable w.clock in
      let (r, w', e, stored) =
        Returns-ok (λ r _. 0 < length (r.1)) (nread fd (2 ^ 32 - 1) w)
          (nread_progress fd (2 ^ 32 - 1) w x n rest i d (omega arith)) in
      let room : ltb 0 (length (r.1)) ≡ true = ground arith in rw e (rw room)

  read_text_overflow :
      (hsize x : ℕ) (rest : List ℕ) (w : World)
      → hsize ≡ 2 ^ 32 - 1
      → IsReliable w.reply
      → w.inbox fd ≡ x ∷ rest
      → read_text J fd hsize w ≡ crash
  unfolding read_text
  read_text_overflow hsize x rest w e reliable i =
      let (n, d) = reliable w.clock in
      rw (d, syscall_value, e, fill_overflow x rest (tick (calloc 0) w) reliable i) refl

  -- Behind the first read of a length of 2 ^ 32 - 1.
  header_overflow :
      (junk : List ℕ) (x : ℕ) (rest : List ℕ) (w : World)
      → IsReliable w.reply
      → (r : ℤ × List ℕ) (w' : World) → nread fd 4 w ≡ ok r w'
      → NreadFull fd w (255 ∷ 255 ∷ 255 ∷ 255 ∷ []) (x ∷ rest) r w'
      → json_read J fd junk w ≡ crash
  unfolding json_read ntohl
  header_overflow junk x rest w reliable (rc, bytes) w' e (ret, got, left, reply, out) =
      let nn : is_neg rc ≡ false = rw (ret, to_int-id (pos 4) (omega arith)) in
      rw (e, nn, got) (read_text_overflow _ x rest w' refl (rw reply reliable) left)

  -- With a kernel that never fails a call and always makes progress, a peer that sends the
  -- length 2 ^ 32 - 1 and one byte more makes `JSON_read` write past the end of a buffer of no
  -- bytes.
  pub json_read_overflow :
      (junk : List ℕ) (x : ℕ) (rest : List ℕ) (w : World)
      → IsReliable w.reply
      → w.inbox fd ≡ 255 ∷ 255 ∷ 255 ∷ 255 ∷ x ∷ rest
      → json_read J fd junk w ≡ crash
  json_read_overflow junk x rest w reliable i =
      let header : List ℕ = 255 ∷ 255 ∷ 255 ∷ 255 ∷ [] in
      let (r, w', e, full) =
        Returns-ok (NreadFull fd w header (x ∷ rest)) (nread fd 4 w)
          (nread-Full fd header (x ∷ rest) w reliable i) in
      header_overflow junk x rest w reliable r w' e full
