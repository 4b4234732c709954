-- ===== src/Params/Kept.antt =====
-- What `get_parameters` leaves alone, whatever comes in.
use Prim.Native.String.{String}
use kernel_testkit.Base.{
  ℕ, zero, suc, ◌+◌, ◌%◌, ◌^◌, ◌==◌, ltb, ◌≡◌, refl, ap, ◌∙◌, Bool-cases, inl, inr, if◌then◌else◌,
  Option, none, some, List, ◌++◌, length, drop, arith,
}
use kernel_testkit.Base.Int.{ℤ, pos, minus_one, is_neg, truth}
use kernel_testkit.Base.Run.{Cmd, pure, ◌>>◌}
use kernel_testkit.Base.Partial.{Ends, bind_ends, Returns-Ends, weaken_ends}
use kernel_testkit.Links.{Ptr}
use kernel_testkit.World.{World, tick, calloc, Reply-cases, syscall_value}
use kernel_testkit.Net.{nread}
use kernel_testkit.Net.Read.{NreadDone, nread-Done}
use kernel_testkit.Test.{State, protocol_id, lift}
use kernel_testkit.Test.Lift.{Lifted, lift-Ends}
use kernel_testkit.Protocols.{
  ptcp, find_loop, set_protocol, check_sender_has_retransmits, iperf_set_test_reverse, negate,
}
use kernel_testkit.Json.{Json, Item}
use kernel_testkit.Wire.{ntohl, fill, read_text, json_read}
use kernel_testkit.Params.{
  pudp, when_item, get_text, get_test, get_settings, get_texts, count_retransmits, store_parameters,
  get_parameters,
}

-- The control socket, its state, and all that has been sent, are as before.
abbrev pub Kept : {A : Type 0} → State → A → State → Type 0
Kept s _ s' =
    (s'.test.state ≡ s.test.state)
    × (s'.test.ctrl_sck ≡ s.test.ctrl_sck)
    × (s'.world.outbox ≡ s.world.outbox)

find_loop-Kept :
    (k : ℕ) (i : ℤ) (here : Ptr) (s₀ s : State)
    → Kept s₀ tt s
    → Ends (Kept s₀) (find_loop k i here s)
unfolding find_loop
find_loop-Kept zero i here s₀ s p = tt
find_loop-Kept (suc k) i here s₀ s p =
    ground (arith, find_loop-Kept k i (s.memory.links.next here) s₀ s p)

check-Kept : (s₀ s : State) → Kept s₀ tt s → Ends (Kept s₀) (check_sender_has_retransmits s)
unfolding check_sender_has_retransmits protocol_id
check-Kept s₀ s p = ground arith

set_protocol-Kept :
    (k : ℕ) (i : ℤ) (s₀ s : State) → Kept s₀ tt s → Ends (Kept s₀) (set_protocol k i s)
unfolding set_protocol
set_protocol-Kept k i s₀ s p =
    let here = s.memory.links.next s.test.protocols in
    bind_ends (Kept s₀) (Kept s₀) (find_loop k i here s) _ (find_loop-Kept k i here s₀ s p)
      λ q s1 p1. elim (Bool-cases (q == s.test.protocols)) [
        | inl t ↦ rw t p1
        | inr f ↦
            let s2 = record s1 { test = record (s1.test) { protocol = q } } in
            rw f (
              bind_ends (Kept s₀) (Kept s₀) (check_sender_has_retransmits s2) _
                (check-Kept s₀ s2 p1) λ _ s3 p3. p3)
      ]

reverse-Kept : (s₀ s : State) → Kept s₀ tt s → Ends (Kept s₀) (iperf_set_test_reverse (pos 1) s)
unfolding iperf_set_test_reverse
reverse-Kept s₀ s p =
    check-Kept s₀
      (record s {
        test = record (s.test) {
          reverse = pos 1;
          sender = if truth (pos 1) then negate s.test.sender else s.test.sender;
        };
      })
      p

when-Kept :
    (o : Option Item) (m : Cmd State (Unit {0})) (s₀ s : State)
    → Kept s₀ tt s
    → Ends (Kept s₀) (m s)
    → Ends (Kept s₀) (when_item o m s)
unfolding when_item
when-Kept none m s₀ s p q = p
when-Kept (some i) m s₀ s p q = q

get_text-Kept :
    (o : Option Item) (old : Option String) (s₀ s : State)
    → Kept s₀ tt s
    → Ends (Kept s₀) (get_text o old s)
unfolding get_text
get_text-Kept none old s₀ s p = p
get_text-Kept (some i) old s₀ s p = ground arith

count-Kept : (s₀ s : State) → Kept s₀ tt s → Ends (Kept s₀) (count_retransmits s)
unfolding count_retransmits protocol_id
count-Kept s₀ s p = ground arith

protocol :
    (k : ℕ) (i : ℤ) (s₀ s : State) → Kept s₀ tt s → Ends (Kept s₀) ((set_protocol k i >> pure tt) s)
protocol k i s₀ s p =
    bind_ends (Kept s₀) (Kept s₀) (set_protocol k i s) _ (set_protocol-Kept k i s₀ s p)
      λ r s1 p1. p1

module _ (J : Json) where
  -- `JSON_read` sends nothing.
  abbrev Unsent : {A : Type 0} → World → A → World → Type 0
  Unsent w _ w' = w'.outbox ≡ w.outbox

  fill-Unsent : (fd : ℤ) (n : ℕ) (w : World) → Ends (Unsent w) (fill J fd n w)
  unfolding fill
  fill-Unsent fd n w =
      bind_ends (NreadDone fd n w) (Unsent w) (nread fd n w) _
        (Returns-Ends (NreadDone fd n w) (nread fd n w) (nread-Done fd n w))
        λ (rc, got) w1 d. elim (Bool-cases (ltb ((n + 1) % 2 ^ 32) (length got))) [
          | inl t ↦ rw t tt
          | inr f ↦ rw f (d.0.sent)
        ]

  read_text-Unsent : (fd : ℤ) (n : ℕ) (w : World) → Ends (Unsent w) (read_text J fd n w)
  unfolding read_text
  read_text-Unsent fd n w = elim (Reply-cases (w.reply w.clock)) [
    | inl (m, e) ↦
        let w1 = tick (calloc ((n + 1) % 2 ^ 32)) w in
        rw (e, syscall_value)
          (bind_ends (Unsent w1) (Unsent w) (fill J fd n w1) _ (fill-Unsent fd n w1) λ o w2 u. u)
    | inr (m, e) ↦ rw (e, syscall_value) refl
  ]

  json_read-Unsent : (fd : ℤ) (junk : List ℕ) (w : World) → Ends (Unsent w) (json_read J fd junk w)
  unfolding json_read
  json_read-Unsent fd junk w =
      bind_ends (NreadDone fd 4 w) (Unsent w) (nread fd 4 w) _
        (Returns-Ends (NreadDone fd 4 w) (nread fd 4 w) (nread-Done fd 4 w))
        λ r w1 d.
          let n = ntohl (r.1 ++ drop (length (r.1)) junk) in
          elim (Bool-cases (is_neg r.0)) [
            | inl t ↦ rw t (d.0.sent)
            | inr f ↦ rw f (
                weaken_ends (Unsent w1) (Unsent w) (read_text J fd n w1) (read_text-Unsent fd n w1)
                  λ o w2 e. e ∙ d.0.sent)
          ]

  texts-Kept : (j : J.Obj) (s₀ s : State) → Kept s₀ tt s → Ends (Kept s₀) (get_texts J j s)
  unfolding get_texts
  texts-Kept j s₀ s p =
      bind_ends (Kept s₀) (Kept s₀) (get_text (J.get_item j "title") s.test.title s) _
        (get_text-Kept (J.get_item j "title") s.test.title s₀ s p)
        λ a s1 p1.
          bind_ends (Kept s₀) (Kept s₀) (get_text (J.get_item j "congestion") s.test.congestion s1)
            _ (get_text-Kept (J.get_item j "congestion") s.test.congestion s₀ s1 p1)
            λ b s2 p2.
              bind_ends (Kept s₀) (Kept s₀)
                (get_text (J.get_item j "congestion_used") s.test.congestion_used s2) _
                (get_text-Kept (J.get_item j "congestion_used") s.test.congestion_used s₀ s2 p2)
                λ c s3 p3. p3

  store_parameters-Kept : (k : ℕ) (j : J.Obj) (s : State) → Ends (Kept s) (store_parameters J k j s)
  unfolding store_parameters get_test
  store_parameters-Kept k j s =
      let chosen = λ (i : ℤ). set_protocol k i >> pure tt in
      bind_ends (Kept s) (Kept s) (when_item (J.get_item j "tcp") (chosen ptcp) s) _
        (when-Kept (J.get_item j "tcp") (chosen ptcp) s s (refl, refl, refl)
          (protocol k ptcp s s (refl, refl, refl)))
        λ a s1 p1.
          bind_ends (Kept s) (Kept s) (when_item (J.get_item j "udp") (chosen pudp) s1) _
            (when-Kept (J.get_item j "udp") (chosen pudp) s s1 p1 (protocol k pudp s s1 p1))
            λ b s2 p2.
              let s3 = record s2 { test = get_test J j s2.test } in
              bind_ends (Kept s) (Kept s)
                (when_item (J.get_item j "reverse") (iperf_set_test_reverse (pos 1)) s3) _
                (when-Kept (J.get_item j "reverse") (iperf_set_test_reverse (pos 1)) s s3 p2
                  (reverse-Kept s s3 p2))
                λ c s4 p4.
                  let s5 = record s4 {
                    test = record (s4.test) { settings = get_settings J j s4.test.settings };
                  } in
                  bind_ends (Kept s) (Kept s) (get_texts J j s5) _ (texts-Kept j s s5 p4)
                    λ d s6 p6. count-Kept s s6 p6

  stored :
      (k : ℕ) (o : Option J.Obj) (s s1 : State)
      → Kept s tt s1
      → Ends (Kept s) (
          elim o as (λ _. Cmd State ℤ) [
            | none ↦ pure minus_one
            | some j ↦ store_parameters J k j >> pure (pos 0)
          ]
            s1)
  stored k none s s1 same = same
  stored k (some j) s s1 (st, fd, out) =
      bind_ends (Kept s1) (Kept s) (store_parameters J k j s1) _ (store_parameters-Kept k j s1)
        λ _ s2 (st2, fd2, out2). (st2 ∙ st, fd2 ∙ fd, out2 ∙ out)

  -- Whatever comes in, and whatever the kernel answers, `get_parameters` sends nothing and leaves
  -- the control socket and its state alone.
  pub get_parameters-Kept :
      (k : ℕ) (junk : List ℕ) (s : State) → Ends (Kept s) (get_parameters J k junk s)
  unfolding get_parameters
  get_parameters-Kept k junk s =
      let fd = s.test.ctrl_sck in
      bind_ends (Lifted (Unsent s.world) s) (Kept s) (lift (json_read J fd junk) s) _
        (lift-Ends (Unsent s.world) (json_read J fd junk) s (json_read-Unsent fd junk s.world))
        λ o s1 (out, t, m, p).
          let same : Kept s tt s1 = (ap (λ q. q.state) t, ap (λ q. q.ctrl_sck) t, out) in
          stored k o s s1 same
