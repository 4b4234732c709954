-- ===== src/Json.antt =====
-- The calls that iperf/src/iperf_api.c makes of the bundled cJSON library, as parameters, and what
-- the code relies on: items are found by key, and printing and parsing keep what was added.
use Prim.Native.Char.{code}
use Prim.Native.String.{String}
use kernel_testkit.Base.{
  ℕ, ◌+◌, ◌≤◌, ◌<◌, ◌^◌, ◌≡◌, Bool, true, false, ◌&&◌, leb, ◌==◌, if◌then◌else◌, Option, none, some,
  List, [], ◌∷◌,
}
use kernel_testkit.Base.Int.{ℤ, pos, negsuc}

-- The members of a `cJSON` that the program reads.
pub record Item : Type 0 where
  pub valueint : ℤ
  pub valuestring : Option String

pub record Json : Type 1 where
  pub Obj : Type 0
  -- `cJSON_CreateObject`, `none` where it returns NULL.
  pub create : Option Obj
  -- `cJSON_CreateTrue`, `cJSON_CreateNumber`, `cJSON_CreateString`.
  pub true_item : Item
  pub number_item : ℤ → Item
  pub string_item : String → Item
  -- `cJSON_AddItemToObject` and `cJSON_GetObjectItem`.
  pub add_item : Obj → String → Item → Obj
  pub get_item : Obj → String → Option Item
  -- `cJSON_PrintUnformatted` and `cJSON_Parse`.
  pub print : Obj → Option (List ℕ)
  pub parse : List ℕ → Option Obj

abbrev lower : ℕ → ℕ
lower c = if leb b'A' c && leb c b'Z' then c + 32 else c

-- Keys are compared without regard to case.
abbrev pub alike : String → String → Bool
alike String.[] String.[] = true
alike (String.◌∷◌ a s) (String.◌∷◌ b t) = (lower (code a) == lower (code b)) && alike s t
alike _ _ = false

-- The integers that a `double` holds exactly.
abbrev pub IsExact : ℤ → Type 0
IsExact (pos n) = n ≤ 2 ^ 53
IsExact (negsuc n) = n < 2 ^ 53

abbrev pub or_else : Option Item → Option Item → Option Item
or_else none b = b
or_else (some i) b = some i

-- What an object that was printed and parsed again has in common with the one before.
pub record SameItems (J : Json) (j j' : J.Obj) : Type 0 where
  pub absent : (k : String) → J.get_item j k ≡ none → J.get_item j' k ≡ none
  pub flag :
      (k : String) → J.get_item j k ≡ some J.true_item → (i : Item) × (J.get_item j' k ≡ some i)
  pub number :
      (k : String) (n : ℤ)
      → IsExact n
      → J.get_item j k ≡ some (J.number_item n)
      → (i : Item) × (J.get_item j' k ≡ some i) × (i.valueint ≡ n)
  pub text :
      (k : String) (s : String)
      → J.get_item j k ≡ some (J.string_item s)
      → (i : Item) × (J.get_item j' k ≡ some i) × (i.valuestring ≡ some s)

abbrev pub IsText : List ℕ → Type 0
IsText [] = Unit
IsText (b ∷ bs) = ((b == 0) ≡ false) × IsText bs

pub record JsonLaws (J : Json) : Type 0 where
  pub get_create : (j : J.Obj) (k : String) → J.create ≡ some j → J.get_item j k ≡ none
  -- An item is added behind the others, and the first of a key is found.
  pub get_add :
      (j : J.Obj) (k : String) (i : Item) (k' : String)
      → J.get_item (J.add_item j k i) k'
        ≡ or_else (J.get_item j k') (if alike k k' then some i else none)
  -- What is printed is a C string, and parses to an object with the same items.
  pub print_text : (j : J.Obj) (text : List ℕ) → J.print j ≡ some text → IsText text
  pub parse_print :
      (j : J.Obj) (text : List ℕ)
      → J.print j ≡ some text
      → (j' : J.Obj) × (J.parse text ≡ some j') × SameItems J j j'
