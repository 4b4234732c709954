-- ===== src/Wire/Bytes.antt =====
-- The four bytes of a length, and C strings.
use kernel_testkit.Base.{ℕ, ◌<◌, ◌^◌, ◌≡◌, refl, ap, List, [], ◌∷◌, ◌++◌, length, arith}
use kernel_testkit.Json.{IsText}
use kernel_testkit.Wire.{htonl, ntohl, c_string}

pub length-htonl : (n : ℕ) → length (htonl n) ≡ 4
unfolding htonl
length-htonl n = refl

-- `ntohl` of the bytes of `htonl(n)` is `n`, for every 32-bit number.
pub ntohl-htonl : (n : ℕ) (rest : List ℕ) → n < 2 ^ 32 → ntohl (htonl n ++ rest) ≡ n
unfolding ntohl htonl
ntohl-htonl n rest h = omega arith

pub c_string-IsText : (text : List ℕ) → IsText text → c_string text ≡ text
unfolding c_string
c_string-IsText [] h = refl
c_string-IsText (b ∷ bs) h = rw h.0 (ap (λ xs. b ∷ xs) (c_string-IsText bs h.1))
