-- ===== src/Wire/Transfer.antt =====
-- A text goes from `JSON_write` to `JSON_read`.
use kernel_testkit.Base.{
  ℕ, ◌+◌, ◌%◌, ◌<◌, ◌^◌, ◌≡◌, ◌∙◌, ◌==◌, ltb, true, false, not, ◌&&◌, Option, some, List, ◌++◌,
  length, append_assoc, arith, take_all,
}
use kernel_testkit.Base.Int.{ℤ, pos, pos_part, is_neg, to_int, to_int-id}
use kernel_testkit.Base.Run.{Returns, bind, weaken}
use kernel_testkit.World.{World, syscall_value, calloc, tick}
use kernel_testkit.Net.{nread, nwrite}
use kernel_testkit.Net.Read.{IsReliable, NreadFull, nread-Full}
use kernel_testkit.Net.Write.{Writes, nwrite-Full}
use kernel_testkit.Json.{Json, IsText}
use kernel_testkit.Wire.{htonl, json_write, json_read, read_text, send_text, fill}
use kernel_testkit.Wire.Bytes.{length-htonl, ntohl-htonl, c_string-IsText}

abbrev pub frame : List ℕ → List ℕ
frame text = htonl (length text) ++ text

Writes-trans :
    (fd : ℤ) (w w' w'' : World) (a b : List ℕ)
    → Writes fd w w' a
    → Writes fd w' w'' b
    → Writes fd w w'' (a ++ b)
Writes-trans fd w w' w'' a b r s = record {
  sent = rw (s.sent, r.sent, append_assoc);
  others = λ q ne. s.others q ne ∙ r.others q ne;
  inbox = s.inbox ∙ r.inbox;
  reply = s.reply ∙ r.reply;
  same_held = s.same_held ∙ r.same_held;
  same_blocks = s.same_blocks ∙ r.same_blocks;
}

abbrev pub Sent : ℤ → World → List ℕ → ℤ → World → Type 0
Sent fd w bytes r w' = (r ≡ pos 0) × Writes fd w w' bytes

module _ (fd : ℤ) where
  second_write :
      (text : List ℕ) (w w' : World)
      → length text < 2 ^ 31
      → IsReliable w.reply
      → Writes fd w w' (htonl (length text))
      → Returns (λ r w''. (is_neg r ≡ false) × Writes fd w w'' (frame text)) (nwrite fd text w')
  second_write text w w' small reliable r =
      weaken (λ r w''. (r ≡ to_int (pos (length text))) × Writes fd w' w'' text) _
        (nwrite fd text w') (nwrite-Full fd text w' (rw r.reply reliable))
        λ r' w'' (e, s). (
          rw (e, to_int-id (pos (length text)) small),
          Writes-trans fd w w' w'' (htonl (length text)) text r s,
        )

  send_text-frame :
      (text : List ℕ) (w : World)
      → length text < 2 ^ 31
      → IsReliable w.reply
      → Returns (Sent fd w (frame text)) (send_text fd text w)
  unfolding send_text
  send_text-frame text w small reliable =
      let h : length text % 2 ^ 32 ≡ length text = omega arith in
      rw (h, take_all (length text) text (omega arith))
        (bind
          (λ r w'.
            (r ≡ to_int (pos (length (htonl (length text)))))
            × Writes fd w w' (htonl (length text)))
          (Sent fd w (frame text)) (nwrite fd (htonl (length text)) w) _
          (nwrite-Full fd (htonl (length text)) w reliable)
          λ r w' (e, s).
            let nn : is_neg r ≡ false =
              rw (e, length-htonl (length text), to_int-id (pos 4) (omega arith)) in
            rw nn (
              bind (λ r w''. (is_neg r ≡ false) × Writes fd w w'' (frame text))
                (Sent fd w (frame text)) (nwrite fd text w') _
                (second_write text w w' small reliable s) λ r w'' (fine, s'). (rw fine, s')))

module _ (J : Json) (fd : ℤ) where
  -- With a kernel that never fails a call and always makes progress, `JSON_write` of an object
  -- whose text is shorter than 2 ^ 31 bytes returns 0 and has sent the printed text behind its
  -- length, and nothing else.
  pub json_write-frame :
      (json : J.Obj) (text : List ℕ) (w : World)
      → J.print json ≡ some text
      → length text < 2 ^ 31
      → IsReliable w.reply
      → Returns (Sent fd w (frame text)) (json_write J fd json w)
  unfolding json_write
  json_write-frame json text w e small reliable =
      rw (e, json_write) (send_text-frame fd text w small reliable)

  abbrev pub Got : Option J.Obj → World → List ℕ → Option J.Obj → World → Type 0
  Got o w rest r w' = (r ≡ o) × (w'.inbox fd ≡ rest) × (w'.reply ≡ w.reply) × (w'.outbox ≡ w.outbox)

  fill-parse :
      (text rest : List ℕ) (w : World)
      → IsText text
      → length text < 2 ^ 31
      → IsReliable w.reply
      → w.inbox fd ≡ text ++ rest
      → Returns (Got (J.parse text) w rest) (fill J fd (length text) w)
  unfolding fill
  fill-parse text rest w ok small reliable i =
      bind (NreadFull fd w text rest) (Got (J.parse text) w rest) (nread fd (length text) w) _
        (nread-Full fd text rest w reliable i)
        λ (rc, got) w' (r, g, left, reply, out).
          let rc' : rc ≡ pos (length text) = r ∙ to_int-id (pos (length text)) small in
          let room : ltb ((length text + 1) % 2 ^ 32) (length got) ≡ false = rw g (ground arith) in
          let all : (not (is_neg rc) && (pos_part rc == length text)) ≡ true =
            rw rc' (ground arith) in
          rw room (rw all (rw (g, c_string-IsText text ok), left, reply, out))

  read_text-parse :
      (text rest : List ℕ) (w : World)
      → IsText text
      → length text < 2 ^ 31
      → IsReliable w.reply
      → w.inbox fd ≡ text ++ rest
      → Returns (Got (J.parse text) w rest) (read_text J fd (length text) w)
  unfolding read_text
  read_text-parse text rest w ok small reliable i =
      let (n, d) = reliable w.clock in
      let w1 = tick (calloc ((length text + 1) % 2 ^ 32)) w in
      rw (d, syscall_value)
        (bind (Got (J.parse text) w1 rest) (Got (J.parse text) w rest) (fill J fd (length text) w1)
          _ (fill-parse text rest w1 ok small reliable i) λ o w2 g. g)

  -- With a kernel that never fails a call and always makes progress, `JSON_read` of a framed
  -- text without NUL, shorter than 2 ^ 31 bytes, parses that text, whatever `nsize` held, and
  -- takes the frame and nothing else.
  pub json_read-parse :
      (junk text rest : List ℕ) (w : World)
      → IsText text
      → length text < 2 ^ 31
      → IsReliable w.reply
      → w.inbox fd ≡ frame text ++ rest
      → Returns (Got (J.parse text) w rest) (json_read J fd junk w)
  unfolding json_read
  json_read-parse junk text rest w ok small reliable i =
      let header = htonl (length text) in
      bind (NreadFull fd w header (text ++ rest)) (Got (J.parse text) w rest) (nread fd 4 w) _
        (rw (length-htonl (length text)) at
          (nread-Full fd header (text ++ rest) w reliable (rw append_assoc at i)))
        λ (rc, got) w' (r, g, left, reply, out).
          let nn : is_neg rc ≡ false =
            rw (r, length-htonl (length text), to_int-id (pos 4) (omega arith)) in
          rw (nn, g, ntohl-htonl (length text) _ (omega arith))
            (weaken (Got (J.parse text) w' rest) (Got (J.parse text) w rest)
              (read_text J fd (length text) w')
              (read_text-parse text rest w' ok small (rw reply reliable) left)
              λ o w'' (e, l, p, t). (e, l, p ∙ reply, t ∙ out))
