-- ===== src/Params/Items.antt =====
-- What the object that `send_parameters` builds has under each key.
use Prim.Native.String.{String}
use kernel_testkit.Base.{
  ◌≡◌, refl, Bool, true, false, not, if◌then◌else◌, Option, none, some, arith, Bool-cases, inl, inr,
  ◌∙◌,
}
use kernel_testkit.Base.Int.{ℤ, pos, minus_one, truth, ◌==ℤ◌}
use kernel_testkit.Test.{Test}
use kernel_testkit.Json.{Json, JsonLaws, Item, alike, or_else}
use kernel_testkit.Params.{
  ptcp, pudp, is_null, text_of, add_when, add_protocol, add_test, add_settings, add_texts,
  parameters,
}

abbrev pub when : Bool → Item → Option Item
when b i = if b then some i else none

-- The items of an object that carries the parameters of `c`.
pub record Carries (J : Json) (c : Test) (id : ℤ) (o : J.Obj) : Type 0 where
  pub tcp : J.get_item o "tcp" ≡ when (id ==ℤ ptcp) J.true_item
  pub udp : J.get_item o "udp" ≡ when (id ==ℤ pudp) J.true_item
  pub server_affinity :
      J.get_item o "server_affinity"
      ≡ when (not (c.server_affinity ==ℤ minus_one)) (J.number_item c.server_affinity)
  pub time : J.get_item o "time" ≡ when (truth c.duration) (J.number_item c.duration)
  pub num :
      J.get_item o "num"
      ≡ when (truth (pos c.settings.bytes)) (J.number_item (pos c.settings.bytes))
  pub blockcount :
      J.get_item o "blockcount"
      ≡ when (truth (pos c.settings.blocks)) (J.number_item (pos c.settings.blocks))
  pub mss : J.get_item o "MSS" ≡ when (truth c.settings.mss) (J.number_item c.settings.mss)
  pub nodelay : J.get_item o "nodelay" ≡ when (truth c.no_delay) (J.true_item)
  pub parallel : J.get_item o "parallel" ≡ when (true) (J.number_item c.num_streams)
  pub reverse : J.get_item o "reverse" ≡ when (truth c.reverse) (J.true_item)
  pub window :
      J.get_item o "window"
      ≡ when (truth c.settings.socket_bufsize) (J.number_item c.settings.socket_bufsize)
  pub len : J.get_item o "len" ≡ when (truth c.settings.blksize) (J.number_item c.settings.blksize)
  pub bandwidth :
      J.get_item o "bandwidth"
      ≡ when (truth (pos c.settings.rate)) (J.number_item (pos c.settings.rate))
  pub fqrate :
      J.get_item o "fqrate"
      ≡ when (truth (pos c.settings.fqrate)) (J.number_item (pos c.settings.fqrate))
  pub pacing_timer :
      J.get_item o "pacing_timer"
      ≡ when (truth c.settings.pacing_timer) (J.number_item c.settings.pacing_timer)
  pub burst : J.get_item o "burst" ≡ when (truth c.settings.burst) (J.number_item c.settings.burst)
  pub tos : J.get_item o "TOS" ≡ when (truth c.settings.tos) (J.number_item c.settings.tos)
  pub title : J.get_item o "title" ≡ when (not (is_null c.title)) (J.string_item (text_of c.title))
  pub congestion :
      J.get_item o "congestion"
      ≡ when (not (is_null c.congestion)) (J.string_item (text_of c.congestion))
  pub congestion_used :
      J.get_item o "congestion_used"
      ≡ when (not (is_null c.congestion_used)) (J.string_item (text_of c.congestion_used))
  pub get_server_output :
      J.get_item o "get_server_output"
      ≡ when (truth c.get_server_output) (J.number_item c.get_server_output)
  pub udp_counters_64bit :
      J.get_item o "udp_counters_64bit"
      ≡ when (truth c.udp_counters_64bit) (J.number_item c.udp_counters_64bit)

or_else-none : (o : Option Item) → or_else o none ≡ o
or_else-none none = refl
or_else-none (some i) = refl

module _ (J : Json) (L : JsonLaws J) where
  get-add_when :
      (b : Bool) (k : String) (i : Item) (j : J.Obj) (k' : String)
      → J.get_item (add_when J b k i j) k'
        ≡ (if alike k k' then or_else (J.get_item j k') (when b i) else J.get_item j k')
  unfolding add_when
  get-add_when true k i j k' = rw L.get_add (choose (alike k k') (J.get_item j k') i)
    where
      choose :
          (b : Bool) (o : Option Item) (i : Item)
          → or_else o (if b then some i else none) ≡ (if b then or_else o (some i) else o)
      choose true o i = refl
      choose false o i = or_else-none o
  get-add_when false k i j k' = same (alike k k') (J.get_item j k')
    where
      same : (b : Bool) (o : Option Item) → o ≡ (if b then or_else o none else o)
      same true none = refl
      same true (some i) = refl
      same false o = refl

  module _ (c : Test) (id : ℤ) (j : J.Obj) (fresh : J.create ≡ some j) where
    get-add_protocol :
        (k : String)
        → J.get_item (add_protocol J id j) k ≡ (
            if id ==ℤ ptcp
            then when (alike "tcp" k) J.true_item
            else (if id ==ℤ pudp then when (alike "udp" k) J.true_item else none))
    unfolding add_protocol
    get-add_protocol k = elim (Bool-cases (id ==ℤ ptcp)) [
      | inl tcp ↦ rw tcp (rw (L.get_add, L.get_create j k fresh))
      | inr other ↦ rw other (elim (Bool-cases (id ==ℤ pudp)) [
        | inl udp ↦ rw udp (rw (L.get_add, L.get_create j k fresh))
        | inr neither ↦ rw neither (L.get_create j k fresh)
      ])
    ]

    get_base :
        (k : String)
        → alike "tcp" k ≡ false
        → alike "udp" k ≡ false
        → J.get_item (add_protocol J id j) k ≡ none
    get_base k t u = get-add_protocol k ∙ rw (t, u) (ground arith)

    pub parameters-Carries : Carries J c id (parameters J c id j)
    unfolding parameters add_texts add_settings add_test
    parameters-Carries = record {
      tcp = simp get-add_when (get-add_protocol "tcp" ∙ ground arith);
      udp = simp get-add_when (get-add_protocol "udp" ∙ ground arith);
      server_affinity = simp (get-add_when, get_base "server_affinity" refl refl);
      time = simp (get-add_when, get_base "time" refl refl);
      num = simp (get-add_when, get_base "num" refl refl);
      blockcount = simp (get-add_when, get_base "blockcount" refl refl);
      mss = simp (get-add_when, get_base "MSS" refl refl);
      nodelay = simp (get-add_when, get_base "nodelay" refl refl);
      parallel = simp (get-add_when, get_base "parallel" refl refl);
      reverse = simp (get-add_when, get_base "reverse" refl refl);
      window = simp (get-add_when, get_base "window" refl refl);
      len = simp (get-add_when, get_base "len" refl refl);
      bandwidth = simp (get-add_when, get_base "bandwidth" refl refl);
      fqrate = simp (get-add_when, get_base "fqrate" refl refl);
      pacing_timer = simp (get-add_when, get_base "pacing_timer" refl refl);
      burst = simp (get-add_when, get_base "burst" refl refl);
      tos = simp (get-add_when, get_base "TOS" refl refl);
      title = simp (get-add_when, get_base "title" refl refl);
      congestion = simp (get-add_when, get_base "congestion" refl refl);
      congestion_used = simp (get-add_when, get_base "congestion_used" refl refl);
      get_server_output = simp (get-add_when, get_base "get_server_output" refl refl);
      udp_counters_64bit = simp (get-add_when, get_base "udp_counters_64bit" refl refl);
    }
