-- ===== src/Examples/Data.antt =====
-- Concrete values: a kernel, lists in memory, a client and a server, and a JSON library.
use Prim.Native.String.{String}
use kernel_testkit.Base.{
  ℕ, ◌≡◌, refl, ◌∙◌, sym, subst, ◌==◌, if◌then◌else◌, Option, none, some, List, [], ◌∷◌, ◌++◌,
  arith, Bool-cases, inl, inr,
}
use text.Mathlib.TextEquality.{eq_iff}
use text.Mathlib.Text.{◌==◌ as str_eq}
use mathlib.Core.Bool.{true≢false}
use native.Mathlib.Decide.{ℕ_discrete}
use kernel_testkit.Base.Int.{ℤ, pos, minus_one}
use kernel_testkit.Links.{Links}
use kernel_testkit.Links.Chain.{IsRing}
use kernel_testkit.World.{World, Reply, done}
use kernel_testkit.Net.Read.{IsReliable}
use kernel_testkit.Test.{Test, State, Memory, stdout, zero_test}
use kernel_testkit.Json.{Json, Item, JsonLaws, alike, or_else, SameItems, IsText}

-- A kernel that answers every call with 100.
abbrev pub steady : ℕ → Reply
steady _ = done 100

abbrev pub steady-IsReliable : IsReliable steady
steady-IsReliable i = (99, refl)

-- What comes in is the same on every descriptor.
abbrev pub world_with : (ℕ → Reply) → List ℕ → World
world_with reply bytes = record {
  errno = 0;
  clock = 0;
  reply = reply;
  inbox = λ _. bytes;
  outbox = λ _. [];
  log = [];
}

-- Rings at 10, with the entries 11 and 12, and at 20, with the entry 21.
abbrev pub two_rings : Links
two_rings = record {
  next = λ a.
      if a == 10
      then 11
      else (if a == 11 then 12 else (if a == 12 then 10 else (if a == 20 then 21 else 20)));
  prev = λ a.
      if a == 10
      then 12
      else (if a == 11 then 10 else (if a == 12 then 11 else (if a == 20 then 21 else 20)));
}

abbrev pub ring_10 : IsRing two_rings 10 (11 ∷ 12 ∷ [])
ring_10 = record {
  chain = (refl, refl, (refl, refl, (refl, refl)));
  distinct = (refl, (refl, (refl, tt)));
}

abbrev pub ring_20 : IsRing two_rings 20 (21 ∷ [])
ring_20 = record { chain = (refl, refl, (refl, refl)); distinct = (refl, (refl, tt)) }

-- The protocols are those of the ring at 10; the one at 11 is UDP, the one at 12 TCP.
abbrev pub two_protocols : Memory
two_protocols = record {
  links = two_rings;
  id = λ a. if a == 11 then pos 2 else (if a == 12 then pos 1 else pos 0);
}

abbrev pub listed : Test → Test
listed t = record t { protocols = 10; streams = 20 }

abbrev pub state_with : Test → World → State
state_with t w = record { test = t; memory = two_protocols; world = w; reports = [] }

String-discrete : Discrete String
String-discrete s t = elim (Bool-cases (str_eq s t)) [
  | inl e ↦ yes ((eq_iff s t).0 e)
  | inr f ↦ no (λ e. true≢false (sym ((eq_iff s t).1 e) ∙ f))
]

abbrev Member : Type 0
Member = String × ℤ × Option String

pub Members-discrete : Discrete (List Member)
Members-discrete = hlevel (String-discrete, ℕ_discrete)

-- A client that has five seconds to send, in reverse, to the TCP protocol, under a title.
abbrev pub client_test : Test
client_test = record (zero_test 100) {
  role = 99;
  protocol = 12;
  protocols = 10;
  streams = 20;
  ctrl_sck = pos 7;
  server_affinity = minus_one;
  duration = pos 5;
  num_streams = pos 2;
  reverse = pos 1;
  title = some "run";
}

-- A server that has not chosen a protocol.
abbrev pub server_test : Test
server_test = record (zero_test 100) {
  role = 115;
  outfile = stdout;
  protocols = 10;
  streams = 20;
  ctrl_sck = pos 8;
  listener = pos 4;
  epoll_fd = pos 3;
  server_affinity = minus_one;
  duration = pos 10;
  num_streams = pos 1;
}

-- The parameters of that client, and their text.
abbrev pub members : List Member
members =
    ("tcp", pos 1, none)
    ∷ ("time", pos 5, none)
    ∷ ("parallel", pos 2, none)
    ∷ ("reverse", pos 1, none)
    ∷ ("title", pos 0, some "run")
    ∷ []

abbrev pub printed_text : List ℕ
printed_text = 123 ∷ 34 ∷ 116 ∷ 34 ∷ 125 ∷ []

abbrev printed : {o : List Member} → Dec (o ≡ members) → Option (List ℕ)
printed (yes _) = some printed_text
printed (no _) = none

abbrev look : List Member → String → Option Item
look [] k = none
look ((k', n, v) ∷ o) k =
    if alike k' k then some (record { valueint = n; valuestring = v }) else look o k

-- Objects are lists of members; the only text is that of the members above.
abbrev pub toy : Json
toy = record {
  Obj = List Member;
  create = some [];
  true_item = record { valueint = pos 1; valuestring = none };
  number_item = λ n. record { valueint = n; valuestring = none };
  string_item = λ v. record { valueint = pos 0; valuestring = some v };
  add_item = λ o k i. o ++ ((k, i.valueint, i.valuestring) ∷ []);
  get_item = look;
  print = λ o. printed (Members-discrete o members);
  parse = λ t. some members;
}

look-add :
    (o : List Member) (k : String) (i : Item) (k' : String)
    → look (o ++ ((k, i.valueint, i.valuestring) ∷ [])) k'
      ≡ or_else (look o k') (if alike k k' then some i else none)
look-add [] k i k' = ground arith
look-add ((k₀, n, v) ∷ o) k i k' = elim (Bool-cases (alike k₀ k')) [
  | inl t ↦ rw t refl
  | inr f ↦ rw f (look-add o k i k')
]

same_items : (o : List Member) → SameItems toy o o
same_items o = record {
  absent = λ k e. e;
  flag = λ k e. (toy.true_item, e);
  number = λ k n ex e. (toy.number_item n, e, refl);
  text = λ k v e. (toy.string_item v, e, refl);
}

abbrev text_in : Option (List ℕ) → List ℕ
text_in none = []
text_in (some t) = t

abbrev object_in : Option (List Member) → List Member
object_in none = []
object_in (some o) = o

read_back :
    (o : List Member) (d : Dec (o ≡ members)) (t : List ℕ)
    → printed d ≡ some t
    → IsText t × SameItems toy o members
read_back o (yes e) t p = (
  subst (λ q. IsText (text_in q)) p (refl, (refl, (refl, (refl, (refl, tt))))),
  subst (SameItems toy o) e (same_items o),
)
read_back o (no ne) t p = cc p

pub toy-JsonLaws : JsonLaws toy
toy-JsonLaws = record {
  get_create = λ j k e. subst (λ q. look (object_in q) k ≡ none) e refl;
  get_add = look-add;
  print_text = λ o t p. (read_back o (Members-discrete o members) t p).0;
  parse_print = λ o t p. (members, refl, (read_back o (Members-discrete o members) t p).1);
}

printed-members : (d : Dec (members ≡ members)) → printed d ≡ some printed_text
printed-members (yes e) = refl
printed-members (no ne) = absurd (ne refl)

pub print-members : toy.print members ≡ some printed_text
print-members = printed-members (Members-discrete members members)
