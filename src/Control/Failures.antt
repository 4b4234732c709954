-- ===== src/Control/Failures.antt =====
-- What a peer can make `iperf_exchange_parameters` do wrong.
use kernel_testkit.Base.{
  ℕ, ◌==◌, ◌&&◌, ◌||◌, ◌≡◌, refl, ap, subst, ◌∙◌, Bool, true, false, if◌then◌else◌, Option, none,
  some, List, arith, inl, inr, ◌⊎◌,
}
use kernel_testkit.Base.Int.{ℤ, pos, truth}
use kernel_testkit.Base.Run.{Run, ok, crash, out_of_fuel, Cmd, pure, and_then}
use kernel_testkit.Links.{null}
use kernel_testkit.Test.{State}
use kernel_testkit.Json.{Json, Item}
use kernel_testkit.Wire.{json_read}
use kernel_testkit.World.{World}
use kernel_testkit.Protocols.{negate}
use kernel_testkit.Params.{
  count_retransmits, get_parameters, store_parameters, when_item, get_test, get_settings, one_or,
}
use kernel_testkit.Params.Fate.{
  Fate, Fate-bind, turned, given, Leaves, reverse-Fate, count-Fate, with_texts, bad_texts,
  get_texts-Fate,
}
use kernel_testkit.Control.{exchange_as_server, protocol_listen}

-- An object with neither protocol, stored in a test without one: whether an item is no text, or the
-- test is then to send.
abbrev pub follows_null : (J : Json) → J.Obj → ℤ → Bool
follows_null J j sender = bad_texts J j || truth (turned (J.get_item j "reverse") sender)

abbrev NoProtocol : State → Type 0
NoProtocol s = s.test.protocol ≡ null

Fate-weaken :
    {A : Type 0} (b : Bool) (P Q : A → State → Type 0) (m : Run State A)
    → Fate b P m
    → ((a : A) (s : State) → P a s → Q a s)
    → Fate b Q m
Fate-weaken b P Q (ok a s) (fine, p) next = (fine, next a s p)
Fate-weaken b P Q crash bad next = bad
Fate-weaken b P Q out_of_fuel nothing next = nothing

crash_after :
    {A B C : Type 0} (b : Bool) (m : Run State A) (f : A → Cmd State B) (k : B → Cmd State C)
    → Fate b (λ _. NoProtocol) m
    → ((a : A) (s : State) → NoProtocol s → and_then (f a s) k ≡ crash)
    → and_then (and_then m f) k ≡ crash
crash_after b (ok a s) f k (fine, e) next = next a s e
crash_after b crash f k bad next = refl
crash_after b out_of_fuel f k nothing next = absurd nothing

module _ (J : Json) (j : J.Obj) where
  merged :
      (o : Option Item) (sender : ℤ) (b n : Bool)
      → n ≡ true
      → ((given o && (truth (negate sender) && n)) || (b || (truth (turned o sender) && n)))
        ≡ (b || truth (turned o sender))
  merged none sender b n e = rw e (ground arith)
  merged (some i) sender b n e = rw e (ground arith)

  stored-Fate :
      (k : ℕ) (s : State)
      → J.get_item j "tcp" ≡ none
      → J.get_item j "udp" ≡ none
      → s.test.protocol ≡ null
      → Fate (follows_null J j s.test.sender) (λ _. NoProtocol) (store_parameters J k j s)
  unfolding store_parameters get_test
  stored-Fate k s tcp udp e =
      let rev = J.get_item j "reverse" in
      let p : (s.test.protocol == null) ≡ true = ground arith in
      let Q = λ (_ : Unit {0}) (s' : State). NoProtocol s' in
      let a2 = record s { test = get_test J j s.test } in
      subst (λ b. Fate b Q (store_parameters J k j s))
        (merged rev s.test.sender (bad_texts J j) (s.test.protocol == null) p)
        (rw (tcp, udp, when_item, when_item)
          (Fate-bind (given rev && (truth (negate s.test.sender) && (s.test.protocol == null))) _
            (Leaves a2 (record (a2.test) {
              reverse = one_or rev s.test.reverse;
              sender = turned rev s.test.sender;
            }))
            Q _ _ (reverse-Fate a2 rev)
            λ _ s3 (v3, e3). rw e3 (
              let t3 = record (a2.test) {
                reverse = one_or rev s.test.reverse;
                sender = turned rev s.test.sender;
                sender_has_retransmits = v3;
              } in
              let a3 = record a2 { test = record t3 { settings = get_settings J j t3.settings } } in
              Fate-bind (bad_texts J j) _ (λ _ s'. s' ≡ record a3 { test = with_texts J j a3.test })
                Q _ _ (get_texts-Fate J j a3)
                λ _ s4 e4. rw e4 (
                  let a4 = record a3 { test = with_texts J j a3.test } in
                  Fate-weaken (truth a4.test.sender && (a4.test.protocol == null))
                    (Leaves a4 a4.test) Q (count_retransmits a4) (count-Fate a4)
                    λ _ s5 (v5, e5). ap (λ u. u.test.protocol) e5 ∙ e))))

module _ (J : Json) (listen : Cmd State ℤ) (k : ℕ) (junk : List ℕ) (s : State) (j : J.Obj)
    (w : World) where
  -- The crash is in `get_parameters`; or that returns 0, and it is in `test->protocol->listen`.
  abbrev pub CrashPlace : Bool → Type 0
  CrashPlace early =
      ((early ≡ true) × (get_parameters J k junk s ≡ crash))
      ⊎ ((early ≡ false)
          × (s' : State) × (get_parameters J k junk s ≡ ok (pos 0) s')
          × (protocol_listen J listen k junk s' ≡ crash))

  -- A server with no protocol that reads an object with neither "tcp" nor "udp" crashes. Where
  -- an item "title", "congestion" or "congestion_used" is no text, or the test is then to send,
  -- the crash is in `get_parameters`; else that returns 0, and the crash is in
  -- `test->protocol->listen`.
  pub exchange_as_server-crash :
      json_read J s.test.ctrl_sck junk s.world ≡ ok (some j) w
      → J.get_item j "tcp" ≡ none
      → J.get_item j "udp" ≡ none
      → s.test.protocol ≡ null
      → (exchange_as_server J listen k junk s ≡ crash) × CrashPlace (follows_null J j s.test.sender)
  unfolding exchange_as_server get_parameters protocol_listen
  exchange_as_server-crash got tcp udp e =
      let stored = stored-Fate J j k (record s { world = w }) tcp udp e in
      let m = store_parameters J k j (record s { world = w }) in
      (
        rw got (
            crash_after (follows_null J j s.test.sender) m _ _ stored
              λ a s' e'. let p : (s'.test.protocol == null) ≡ true = ground arith in rw p refl),
        rw got (place m stored),
      )
    where
      place :
          (m : Run State (Unit {0}))
          → Fate (follows_null J j s.test.sender) (λ _. NoProtocol) m
          → ((follows_null J j s.test.sender ≡ true) × (and_then m (λ _. pure (pos 0)) ≡ crash))
            ⊎ ((follows_null J j s.test.sender ≡ false)
                × (s' : State) × (and_then m (λ _. pure (pos 0)) ≡ ok (pos 0) s')
                × ((if s'.test.protocol == null then crash else listen s') ≡ crash))
      place (ok a s') (fine, e) =
          let p : (s'.test.protocol == null) ≡ true = ground arith in
          inr (fine, s', refl, rw p refl)
      place crash bad = inl (bad, refl)
      place out_of_fuel nothing = absurd nothing
