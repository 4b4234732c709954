-- ===== src/Control/Halting.antt =====
-- `iperf_exchange_parameters` ends, whatever the kernel and the peer do.
use kernel_testkit.Base.{
  ℕ, Bool, ◌==◌, ◌<◌, ◌≡◌, ◌∙◌, Bool-cases, Option-cases, inl, inr, Option, none, some, List,
  length,
}
use kernel_testkit.Base.Int.{ℤ, pos, minus_one, is_neg, ◌==ℤ◌}
use kernel_testkit.Base.Run.{Run, ok, crash, out_of_fuel, Cmd, pure}
use kernel_testkit.Base.Halting.{Halts, bind-Halts}
use kernel_testkit.Links.{Ptr, null}
use kernel_testkit.Links.Chain.{◌∉◌, IsRing}
use kernel_testkit.World.{World, set_errno, get_errno}
use kernel_testkit.Net.{nwrite}
use kernel_testkit.Test.{State, keep, lift, protocol_id}
use kernel_testkit.Json.{Json}
use kernel_testkit.Wire.{json_read, json_write}
use kernel_testkit.Params.{get_parameters, store_parameters, send_parameters, send_object}
use kernel_testkit.Params.Fate.{Fate, Leaves}
use kernel_testkit.Params.Total.{received, protocol_after, crashes, store_parameters-Fate}
use kernel_testkit.Control.{
  iperf_set_send_state, send_errno, report_error, protocol_listen, exchange_as_server,
  iperf_exchange_parameters, server_error, create_streams,
}
use kernel_testkit.Wire.Halting.{SameReply, nwrite-Halts, json_read-Halts, json_write-Halts}

-- The kernel's replies, and the list of protocols, are as before.
abbrev pub Fixed : {A : Type 0} → State → A → State → Type 0
Fixed s _ s' =
    (s'.world.reply ≡ s.world.reply)
    × (s'.memory ≡ s.memory)
    × (s'.test.protocols ≡ s.test.protocols)

pub lift-Fixed :
    {A : Type 0} (s₀ : State) (m : Cmd World A) (s : State)
    → Fixed s₀ tt s
    → Halts (SameReply s.world) (m s.world)
    → Halts (Fixed s₀) (lift m s)
lift-Fixed {A} s₀ m s (r, mem, ps) h = go (m s.world) h
  where
    go : (n : Run World A) → Halts (SameReply s.world) n → Halts (Fixed s₀) (keep s n)
    go (ok a w) e = (e ∙ r, mem, ps)
    go crash e = tt
    go out_of_fuel e = e

Fate-Halts :
    {A : Type 0} (b : Bool) (P Q : A → State → Type 0) (m : Run State A)
    → Fate b P m
    → ((a : A) (s : State) → P a s → Q a s)
    → Halts Q m
Fate-Halts b P Q (ok a s) (fine, p) next = next a s p
Fate-Halts b P Q crash p next = tt
Fate-Halts b P Q out_of_fuel p next = p

module _ (s₀ : State) where
  pub send_state-Fixed :
      (state : ℤ) (s : State) → Fixed s₀ tt s → Halts (Fixed s₀) (iperf_set_send_state state s)
  unfolding iperf_set_send_state set_errno
  send_state-Fixed state s p =
      let s1 = record s { test = record (s.test) { state = state } } in
      bind-Halts (Fixed s₀) (Fixed s₀) (lift (nwrite s.test.ctrl_sck _) s1) _
        (lift-Fixed s₀ (nwrite s.test.ctrl_sck _) s1 p (nwrite-Halts s.test.ctrl_sck _ s.world))
        λ r s2 p2. elim (Bool-cases (is_neg r)) [ inl t ↦ rw t p2 | inr f ↦ rw f p2 ]

  send_errno-Fixed : (s : State) → Fixed s₀ tt s → Halts (Fixed s₀) (send_errno s)
  unfolding send_errno set_errno get_errno
  send_errno-Fixed s p =
      bind-Halts (Fixed s₀) (Fixed s₀) (lift (nwrite s.test.ctrl_sck _) s) _
        (lift-Fixed s₀ (nwrite s.test.ctrl_sck _) s p (nwrite-Halts s.test.ctrl_sck _ s.world))
        λ r s2 p2. elim (Bool-cases (is_neg r)) [ inl t ↦ rw t p2 | inr f ↦ rw f p2 ]

  report_error-Fixed : (s : State) → Fixed s₀ tt s → Halts (Fixed s₀) (report_error s)
  unfolding report_error
  report_error-Fixed s p =
      bind-Halts (Fixed s₀) (Fixed s₀) (iperf_set_send_state server_error s) _
        (send_state-Fixed server_error s p)
        λ r s1 p1. elim (Bool-cases (r ==ℤ pos 0)) [
          | inr f ↦ rw f p1
          | inl t ↦ rw t (
              bind-Halts (Fixed s₀) (Fixed s₀) (send_errno s1) _ (send_errno-Fixed s1 p1) λ r s2 p2.
                elim (Bool-cases (is_neg r)) [
                  | inl t ↦ rw t p2
                  | inr f ↦ rw f (
                      bind-Halts (Fixed s₀) (Fixed s₀) (send_errno s2) _ (send_errno-Fixed s2 p2)
                        λ r s3 p3. p3)
                ])
        ]

  module _ (J : Json) where
    send_object-Fixed :
        (j : J.Obj) (s : State) → Fixed s₀ tt s → Halts (Fixed s₀) (send_object J j s)
    unfolding send_object protocol_id
    send_object-Fixed j s p = elim (Bool-cases (s.test.protocol == null)) [
      | inl n ↦ rw n tt
      | inr f ↦ rw f (
          bind-Halts (Fixed s₀) (Fixed s₀) (lift (json_write J s.test.ctrl_sck _) s) _
            (lift-Fixed s₀ (json_write J s.test.ctrl_sck _) s p
              (json_write-Halts J s.test.ctrl_sck _ s.world))
            λ r s1 p1. p1)
    ]

    send_parameters-Fixed : (s : State) → Fixed s₀ tt s → Halts (Fixed s₀) (send_parameters J s)
    unfolding send_parameters
    send_parameters-Fixed s p = go J.create
      where
        go :
            (c : Option J.Obj)
            → Halts (Fixed s₀) (
                elim c as (λ _. Cmd State ℤ) [ none ↦ pure minus_one | some j ↦ send_object J j ] s)
        go none = p
        go (some j) = send_object-Fixed j s p

    module _ (listen : Cmd State ℤ)
        (ends : (s : State) → Fixed s₀ tt s → Halts (Fixed s₀) (listen s)) (k : ℕ) (junk : List ℕ)
        (xs : List Ptr) (ring : IsRing s₀.memory.links s₀.test.protocols xs) (fuel : length xs < k)
        (nn : null ∉ xs) where
      store-Fixed :
          (j : J.Obj) (s : State) → Fixed s₀ tt s → Halts (Fixed s₀) (store_parameters J k j s)
      store-Fixed j s (r, mem, ps) =
          let t = received J j (protocol_after J j s xs) s.test in
          Fate-Halts (crashes J j (protocol_after J j s xs) s.test) (Leaves s t) (Fixed s₀)
            (store_parameters J k j s)
            (store_parameters-Fate J j k xs fuel nn s (rw (mem, ps) ring))
            λ a s' (v, e). rw e (r, mem, ps)

      get_parameters-Fixed :
          (s : State) → Fixed s₀ tt s → Halts (Fixed s₀) (get_parameters J k junk s)
      unfolding get_parameters
      get_parameters-Fixed s p =
          bind-Halts (Fixed s₀) (Fixed s₀) (lift (json_read J s.test.ctrl_sck junk) s) _
            (lift-Fixed s₀ (json_read J s.test.ctrl_sck junk) s p
              (json_read-Halts J s.test.ctrl_sck junk s.world))
            λ o s1 p1. elim (Option-cases o) [
              | inl e ↦ rw e p1
              | inr (j, e) ↦ rw e (
                  bind-Halts (Fixed s₀) (Fixed s₀) (store_parameters J k j s1) _
                    (store-Fixed j s1 p1) λ u s2 p2. p2)
            ]

      exchange_as_server-Fixed :
          (s : State) → Fixed s₀ tt s → Halts (Fixed s₀) (exchange_as_server J listen k junk s)
      unfolding exchange_as_server protocol_listen
      exchange_as_server-Fixed s p =
          bind-Halts (Fixed s₀) (Fixed s₀) (get_parameters J k junk s) _ (get_parameters-Fixed s p)
            λ r s1 p1. elim (Bool-cases (is_neg r)) [
              | inl t ↦ rw t p1
              | inr f ↦ elim (Bool-cases (s1.test.protocol == null)) [
                | inl n ↦ rw (f, n) tt
                | inr chosen ↦
                    rw (f, chosen)
                      (bind-Halts (Fixed s₀) (Fixed s₀) (listen s1) _ (ends s1 p1) λ l s2 p2.
                        elim (Bool-cases (is_neg l)) [
                          | inl t ↦ rw t (report_error-Fixed s2 p2)
                          | inr f ↦ rw f (
                              bind-Halts (Fixed s₀) (Fixed s₀)
                                (iperf_set_send_state create_streams s2) _
                                (send_state-Fixed create_streams s2 p2) λ r s3 p3. p3)
                        ])
              ]
            ]

      pub exchange-Fixed :
          (s : State)
          → Fixed s₀ tt s
          → Halts (Fixed s₀) (iperf_exchange_parameters J listen k junk s)
      unfolding iperf_exchange_parameters
      exchange-Fixed s p = elim (Bool-cases (s.test.role == 99)) [
        | inl t ↦ rw t (
            bind-Halts (Fixed s₀) (Fixed s₀) (send_parameters J s) _ (send_parameters-Fixed s p)
              λ r s1 p1. p1)
        | inr f ↦ rw f (exchange_as_server-Fixed s p)
      ]
