-- ===== src/Control/SendState.antt =====
-- `iperf_set_send_state`, with any kernel and with one that never fails.
use kernel_testkit.Base.{◌≡◌, ◌≢◌, refl, false, List, ◌++◌, arith, ◌⊎◌, inl, inr, Bool-cases}
use kernel_testkit.Base.Int.{ℤ, pos, minus_one, is_neg, to_int, to_int-id}
use kernel_testkit.Base.Run.{Returns, bind}
use kernel_testkit.World.{World, econnrefused, held}
use kernel_testkit.Net.{nwrite}
use kernel_testkit.Net.Read.{IsReliable}
use kernel_testkit.Net.Write.{Writes, NwriteDone, nwrite-Done, nwrite-Full}
use kernel_testkit.Test.{State, lift}
use kernel_testkit.Test.Lift.{Lifted, lift-Returns}
use kernel_testkit.Control.{state_byte, iperf_set_send_state}

abbrev pub at_state : ℤ → State → State
at_state st s = record s { test = record (s.test) { state = st } }

-- The state has changed, and at most its byte has gone out, through the control socket.
abbrev pub StateSent : ℤ → State → ℤ → State → Type 0
StateSent st s r s' =
    (s'.test ≡ (at_state st s).test)
    × (s'.memory ≡ s.memory)
    × (s'.reports ≡ s.reports)
    × (held s'.world.log ≡ held s.world.log)
    × ((bytes : List _) × (left : List _) × (state_byte st ≡ bytes ++ left)
        × (s'.world.outbox s.test.ctrl_sck ≡ s.world.outbox s.test.ctrl_sck ++ bytes)
        × ((q : ℤ) → q ≢ s.test.ctrl_sck → s'.world.outbox q ≡ s.world.outbox q))
    × ((r ≡ pos 0) ⊎ ((r ≡ minus_one) × (s'.world.errno ≡ econnrefused)))

-- Whatever the kernel answers, `iperf_set_send_state` ends and stores the state; it returns 0,
-- or -1 with `errno` ECONNREFUSED, and at most the state's byte has been sent.
pub iperf_set_send_state-StateSent :
    (st : ℤ) (s : State) → Returns (StateSent st s) (iperf_set_send_state st s)
unfolding iperf_set_send_state
iperf_set_send_state-StateSent st s =
    let fd = s.test.ctrl_sck in
    let D = NwriteDone fd (state_byte st) s.world in
    bind (Lifted D (at_state st s)) (StateSent st s)
      (lift (nwrite fd (state_byte st)) (at_state st s)) _
      (lift-Returns D (nwrite fd (state_byte st)) (at_state st s)
        (nwrite-Done fd (state_byte st) s.world))
      λ r s' (d, t, m, p). elim (Bool-cases (is_neg r)) [
        | inl bad ↦
            rw bad (t, m, p, d.3.same_held, (d.0, d.1, d.2, d.3.sent, d.3.others), inr (refl, refl))
        | inr fine ↦
            rw fine (t, m, p, d.3.same_held, (d.0, d.1, d.2, d.3.sent, d.3.others), inl refl)
      ]

abbrev pub StateDelivered : ℤ → State → ℤ → State → Type 0
StateDelivered st s r s' =
    (r ≡ pos 0)
    × (s'.test ≡ (at_state st s).test)
    × (s'.memory ≡ s.memory)
    × (s'.reports ≡ s.reports)
    × Writes s.test.ctrl_sck s.world s'.world (state_byte st)

-- With a kernel that never fails a call, `iperf_set_send_state` sends the byte, stores the state
-- and returns 0.
pub iperf_set_send_state-StateDelivered :
    (st : ℤ) (s : State)
    → IsReliable s.world.reply
    → Returns (StateDelivered st s) (iperf_set_send_state st s)
unfolding iperf_set_send_state
iperf_set_send_state-StateDelivered st s reliable =
    let fd = s.test.ctrl_sck in
    let D = λ (r : ℤ) (w : World). (r ≡ to_int (pos 1)) × Writes fd s.world w (state_byte st) in
    bind (Lifted D (at_state st s)) (StateDelivered st s)
      (lift (nwrite fd (state_byte st)) (at_state st s)) _
      (lift-Returns D (nwrite fd (state_byte st)) (at_state st s)
        (nwrite-Full fd (state_byte st) s.world reliable))
      λ r s' (d, t, m, p).
        let nn : is_neg r ≡ false = rw (d.0, to_int-id (pos 1) (omega arith)) in
        rw nn (refl, t, m, p, d.1)
