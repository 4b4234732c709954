-- ===== src/Wire/Halting.antt =====
-- `JSON_read` and `JSON_write` end, whatever the kernel and the peer do.
use kernel_testkit.Base.{
  ℕ, ◌+◌, ◌%◌, ◌^◌, ltb, ◌≡◌, refl, sym, Bool-cases, inl, inr, Option, none, some, List, length,
}
use kernel_testkit.Base.Int.{ℤ, minus_one, is_neg}
use kernel_testkit.Base.Run.{Cmd, pure}
use kernel_testkit.Base.Halting.{Halts, bind-Halts, Returns-Halts}
use kernel_testkit.World.{World, Reply-cases, tick, syscall_value, calloc}
use kernel_testkit.Net.{nread, nwrite}
use kernel_testkit.Net.Read.{NreadDone, nread-Done}
use kernel_testkit.Net.Write.{NwriteDone, nwrite-Done}
use kernel_testkit.Json.{Json}
use kernel_testkit.Wire.{json_read, read_text, fill, send_text, json_write}

abbrev pub SameReply : {A : Type 0} → World → A → World → Type 0
SameReply w _ w' = w'.reply ≡ w.reply

nread-Halts : (fd : ℤ) (n : ℕ) (w : World) → Halts (SameReply w) (nread fd n w)
nread-Halts fd n w =
    Returns-Halts (NreadDone fd n w) (SameReply w) (nread fd n w) (nread-Done fd n w)
      λ r w' d. d.0.reply

pub nwrite-Halts : (fd : ℤ) (buf : List ℕ) (w : World) → Halts (SameReply w) (nwrite fd buf w)
nwrite-Halts fd buf w =
    Returns-Halts (NwriteDone fd buf w) (SameReply w) (nwrite fd buf w) (nwrite-Done fd buf w)
      λ r w' (bytes, left, e, writes, ret). writes.reply

send_text-Halts : (fd : ℤ) (str : List ℕ) (w : World) → Halts (SameReply w) (send_text fd str w)
unfolding send_text
send_text-Halts fd str w =
    bind-Halts (SameReply w) (SameReply w) (nwrite fd _ w) _ (nwrite-Halts fd _ w) λ r w1 e1.
      elim (Bool-cases (is_neg r)) [
        | inl t ↦ rw t e1
        | inr f ↦
            rw (f, sym e1)
              (bind-Halts (SameReply w1) (SameReply w1) (nwrite fd _ w1) _ (nwrite-Halts fd _ w1)
                λ r2 w2 e2. e2)
      ]

module _ (J : Json) where
  fill-Halts : (fd : ℤ) (n : ℕ) (w : World) → Halts (SameReply w) (fill J fd n w)
  unfolding fill
  fill-Halts fd n w =
      bind-Halts (SameReply w) (SameReply w) (nread fd n w) _ (nread-Halts fd n w) λ r w' e.
        elim (Bool-cases (ltb ((n + 1) % 2 ^ 32) (length (r.1)))) [
          | inl t ↦ rw t tt
          | inr f ↦ rw f e
        ]

  read_text-Halts : (fd : ℤ) (n : ℕ) (w : World) → Halts (SameReply w) (read_text J fd n w)
  unfolding read_text
  read_text-Halts fd n w = elim (Reply-cases (w.reply w.clock)) [
    | inr (e, f) ↦ rw (f, syscall_value) refl
    | inl (p, f) ↦
        let w1 = tick (calloc ((n + 1) % 2 ^ 32)) w in
        rw (f, syscall_value)
          (bind-Halts (SameReply w) (SameReply w) (fill J fd n w1) _ (fill-Halts fd n w1)
            λ o w2 e. e)
  ]

  pub json_read-Halts :
      (fd : ℤ) (junk : List ℕ) (w : World) → Halts (SameReply w) (json_read J fd junk w)
  unfolding json_read
  json_read-Halts fd junk w =
      bind-Halts (SameReply w) (SameReply w) (nread fd 4 w) _ (nread-Halts fd 4 w) λ r w1 e.
        elim (Bool-cases (is_neg (r.0))) [
          | inl t ↦ rw t e
          | inr f ↦ rw (f, sym e) (read_text-Halts fd _ w1)
        ]

  pub json_write-Halts :
      (fd : ℤ) (o : J.Obj) (w : World) → Halts (SameReply w) (json_write J fd o w)
  unfolding json_write
  json_write-Halts fd o w = go (J.print o)
    where
      go :
          (p : Option (List ℕ))
          → Halts (SameReply w) (
              elim p as (λ _. Cmd World ℤ) [ none ↦ pure minus_one | some str ↦ send_text fd str ]
                w)
      go none = refl
      go (some str) = send_text-Halts fd str w
