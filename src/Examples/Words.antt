-- ===== src/Examples/Words.antt =====
-- What `getopt_long` makes of some command lines.
use Prim.Native.String.{String}
use kernel_testkit.Base.{ℕ, ◌≡◌, refl, Option, none, some, List, [], ◌∷◌}
use kernel_testkit.Getopt.{
  getopt_long, getopt_loop, read_word, shorts, find_short, find_long, exact, abbreviated, all_like,
  split, starts_with,
}
use kernel_testkit.Cli.{optstring, longopts}

abbrev delivered : List String → List (ℕ × Option String)
delivered words = getopt_long optstring longopts words

clustered :
    delivered ("-sVp5202" ∷ "-M" ∷ "-1" ∷ [])
    ≡ (115, none) ∷ (86, none) ∷ (112, some "5202") ∷ (77, some "-1") ∷ []
unfolding getopt_loop read_word shorts find_short find_long exact abbreviated all_like split
    starts_with
clustered = refl

long_names :
    delivered ("--client=host" ∷ "--time" ∷ "7" ∷ "--cport" ∷ "80" ∷ [])
    ≡ (99, some "host") ∷ (116, some "7") ∷ (5, some "80") ∷ []
unfolding getopt_loop read_word shorts find_short find_long exact abbreviated all_like split
    starts_with
long_names = refl

abbreviated_names :
    delivered ("--bandw=5M" ∷ "--b" ∷ "--serv" ∷ [])
    ≡ (98, some "5M") ∷ (63, none) ∷ (115, none) ∷ []
unfolding getopt_loop read_word shorts find_short find_long exact abbreviated all_like split
    starts_with
abbreviated_names = refl

operands : delivered ("a" ∷ "-s" ∷ "-" ∷ "-R" ∷ "--" ∷ "-c" ∷ []) ≡ (115, none) ∷ (82, none) ∷ []
unfolding getopt_loop read_word shorts find_short find_long exact abbreviated all_like split
    starts_with
operands = refl

wrong :
    delivered ("-i" ∷ "--server=1" ∷ "--none" ∷ "-c" ∷ [])
    ≡ (63, none) ∷ (63, none) ∷ (63, none) ∷ (63, none) ∷ []
unfolding getopt_loop read_word shorts find_short find_long exact abbreviated all_like split
    starts_with
wrong = refl
