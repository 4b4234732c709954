-- ===== src/Params/Fate.antt =====
-- The steps of `get_parameters` on an object of any content: exactly when each crashes.
use Prim.Native.String.{String}
use kernel_testkit.Base.{
  ℕ, ◌==◌, ◌≡◌, ◌<◌, refl, Bool, true, false, ◌&&◌, ◌||◌, Bool-cases, inl, inr, Option, none, some,
  Option-cases, List, length,
}
use kernel_testkit.Base.Int.{ℤ, pos, truth}
use kernel_testkit.Base.Run.{Run, ok, crash, out_of_fuel, Cmd, pure, and_then, ◌>>◌}
use kernel_testkit.Links.{Ptr, null}
use kernel_testkit.Links.Chain.{◌∉◌, IsRing}
use kernel_testkit.Test.{Test, State, protocol_id}
use kernel_testkit.Json.{Json, Item}
use kernel_testkit.Protocols.{
  set_protocol, negate, iperf_set_test_reverse, check_sender_has_retransmits,
}
use kernel_testkit.Protocols.Find.{find, or_head, set_protocol-none, set_protocol-some}
use kernel_testkit.Params.{is_null, one_or, when_item, get_text, get_texts, count_retransmits}

-- A run that crashes exactly if `bad` holds, and else ends with the postcondition.
abbrev pub Fate : {A : Type 0} → Bool → (A → State → Type 0) → Run State A → Type 0
Fate bad Q (ok a s) = (bad ≡ false) × Q a s
Fate bad Q crash = bad ≡ true
Fate bad Q out_of_fuel = ⊥

pub Fate-bind :
    {A B : Type 0} (b c : Bool) (P : A → State → Type 0) (Q : B → State → Type 0) (m : Run State A)
    (k : A → Cmd State B)
    → Fate b P m
    → ((a : A) (s : State) → P a s → Fate c Q (k a s))
    → Fate (b || c) Q (and_then m k)
Fate-bind b c P Q (ok a s) k (fine, p) next = rw fine (next a s p)
Fate-bind b c P Q crash k bad next = rw bad refl
Fate-bind b c P Q out_of_fuel k nothing next = nothing

pub Fate-pure :
    {A B : Type 0} (b : Bool) (P : State → Type 0) (c : B) (m : Run State A)
    → Fate b (λ _. P) m
    → Fate b (λ r s. (r ≡ c) × P s) (and_then m (λ _. pure c))
Fate-pure b P c (ok a s) (fine, p) = (fine, (refl, p))
Fate-pure b P c crash bad = bad
Fate-pure b P c out_of_fuel nothing = nothing

-- The value of `protocol` after `set_protocol`, if there is an item that asks for it.
abbrev pub chosen : Option Item → Option Ptr → Ptr → Ptr
chosen none found old = old
chosen (some _) found old = or_head found old

abbrev pub turned : Option Item → ℤ → ℤ
turned none sender = sender
turned (some _) sender = negate sender

-- An item that is there but is no text.
abbrev pub no_text : Option Item → Bool
no_text none = false
no_text (some i) = is_null i.valuestring

abbrev pub text_or : Option Item → Option String → Option String
text_or none old = old
text_or (some i) old = i.valuestring

abbrev pub given : Option Item → Bool
given none = false
given (some _) = true

module _ (s : State) where
  -- `s` with this test, but for `sender_has_retransmits`.
  abbrev pub Leaves : {A : Type 0} → Test → A → State → Type 0
  Leaves t _ s' = (v : ℤ) × (s' ≡ record s { test = record t { sender_has_retransmits = v } })

  pub choose-Fate :
      (o : Option Item) (i : ℤ) (k : ℕ) (xs : List Ptr)
      → IsRing s.memory.links s.test.protocols xs
      → length xs < k
      → null ∉ xs
      → Fate false
          (Leaves (record (s.test) { protocol = chosen o (find s.memory.id i xs) s.test.protocol }))
          (when_item o (set_protocol k i >> pure tt) s)
  unfolding when_item
  choose-Fate none i k xs r fuel nn = (refl, (s.test.sender_has_retransmits, refl))
  choose-Fate (some x) i k xs r fuel nn = elim (Option-cases (find s.memory.id i xs)) [
    | inl e ↦
        rw (set_protocol-none i s k xs r fuel e, e) (refl, (s.test.sender_has_retransmits, refl))
    | inr (p, e) ↦ rw (set_protocol-some i s k xs r fuel p e nn, e) (refl, (_, refl))
  ]

  pub reverse-Fate :
      (o : Option Item)
      → Fate
          (given o && (truth (negate s.test.sender) && (s.test.protocol == null)))
          (Leaves (record (s.test) {
            reverse = one_or o s.test.reverse;
            sender = turned o s.test.sender;
          }))
          (when_item o (iperf_set_test_reverse (pos 1)) s)
  unfolding when_item iperf_set_test_reverse check_sender_has_retransmits protocol_id
  reverse-Fate none = (refl, (s.test.sender_has_retransmits, refl))
  reverse-Fate (some x) = elim (Bool-cases (truth (negate s.test.sender))) [
    | inr f ↦ rw f (refl, (_, refl))
    | inl t ↦ elim (Bool-cases (s.test.protocol == null)) [
      | inl n ↦ rw (t, n) refl
      | inr p ↦ rw (t, p) (refl, (_, refl))
    ]
  ]

  pub count-Fate :
      Fate (truth s.test.sender && (s.test.protocol == null)) (Leaves s.test) (count_retransmits s)
  unfolding count_retransmits protocol_id
  count-Fate = elim (Bool-cases (truth s.test.sender)) [
    | inr f ↦ rw f (refl, (_, refl))
    | inl t ↦ elim (Bool-cases (s.test.protocol == null)) [
      | inl n ↦ rw (t, n) refl
      | inr p ↦ rw (t, p) (refl, (_, refl))
    ]
  ]

  get_text-Fate :
      (o : Option Item) (old : Option String)
      → Fate (no_text o) (λ v s'. (v ≡ text_or o old) × (s' ≡ s)) (get_text o old s)
  unfolding get_text
  get_text-Fate none old = (refl, (refl, refl))
  get_text-Fate (some i) old = elim (Option-cases i.valuestring) [
    | inl e ↦ rw e refl
    | inr (v, e) ↦ rw e (refl, (refl, refl))
  ]

module _ (J : Json) (j : J.Obj) where
  -- The texts of an object, over those of a test.
  abbrev pub with_texts : Test → Test
  with_texts t = record t {
    title = text_or (J.get_item j "title") t.title;
    congestion = text_or (J.get_item j "congestion") t.congestion;
    congestion_used = text_or (J.get_item j "congestion_used") t.congestion_used;
    get_server_output = one_or (J.get_item j "get_server_output") t.get_server_output;
    udp_counters_64bit = one_or (J.get_item j "udp_counters_64bit") t.udp_counters_64bit;
  }

  abbrev pub bad_texts : Bool
  bad_texts =
      no_text (J.get_item j "title")
      || (no_text (J.get_item j "congestion")
          || (no_text (J.get_item j "congestion_used") || false))

  pub get_texts-Fate :
      (s : State)
      → Fate bad_texts (λ _ s'. s' ≡ record s { test = with_texts s.test }) (get_texts J j s)
  unfolding get_texts
  get_texts-Fate s =
      let Q = λ (_ : Unit {0}) (s' : State). s' ≡ record s { test = with_texts s.test } in
      Fate-bind (no_text (J.get_item j "title")) _
        (λ v s'. (v ≡ text_or (J.get_item j "title") s.test.title) × (s' ≡ s)) Q _ _
        (get_text-Fate s (J.get_item j "title") s.test.title)
        λ title s1 (e, f). rw f (
          Fate-bind (no_text (J.get_item j "congestion")) _
            (λ v s'. (v ≡ text_or (J.get_item j "congestion") s.test.congestion) × (s' ≡ s)) Q _ _
            (get_text-Fate s (J.get_item j "congestion") s.test.congestion)
            λ congestion s2 (e2, f2). rw f2 (
              Fate-bind (no_text (J.get_item j "congestion_used")) false
                (λ v s'.
                  (v ≡ text_or (J.get_item j "congestion_used") s.test.congestion_used) × (s' ≡ s))
                Q _ _ (get_text-Fate s (J.get_item j "congestion_used") s.test.congestion_used)
                λ used s3 (e3, f3). rw (f3, e, e2, e3) (refl, refl)))
