-- ===== src/Wire.antt =====
-- `JSON_write` and `JSON_read` of iperf/src/iperf_api.c: a text behind its length, in four bytes.
pub mod Bytes
pub mod Transfer
pub mod Safety
pub mod Halting
use kernel_testkit.Base.{
  ℕ, ◌+◌, ◌*◌, ◌/◌, ◌%◌, ◌^◌, ◌==◌, ltb, Bool, true, false, not, ◌&&◌, if◌then◌else◌, Option, none,
  some, List, [], ◌∷◌, ◌++◌, length, take, drop,
}
use kernel_testkit.Base.Int.{ℤ, pos, minus_one, pos_part, is_neg}
use kernel_testkit.Base.Run.{ok, crash, Cmd, pure, ◌>>=◌, ◌>>◌}
use kernel_testkit.World.{World, syscall_value, release, calloc}
use kernel_testkit.Net.{nread, nwrite}
use kernel_testkit.Json.{Json}

-- The bytes of `htonl(n)` in memory, and `ntohl` of four bytes in memory.
unfoldable pub htonl : ℕ → List ℕ
htonl n = (n / 2 ^ 24 % 256) ∷ (n / 2 ^ 16 % 256) ∷ (n / 2 ^ 8 % 256) ∷ (n % 256) ∷ []

unfoldable pub ntohl : List ℕ → ℕ
ntohl (a ∷ b ∷ c ∷ d ∷ _) = a * 2 ^ 24 + b * 2 ^ 16 + c * 2 ^ 8 + d
ntohl _ = 0

-- The bytes before the first NUL.
unfoldable pub c_string : List ℕ → List ℕ
c_string [] = []
c_string (b ∷ bs) = if b == 0 then [] else b ∷ c_string bs

-- The two writes of `JSON_write`.
unfoldable pub send_text : ℤ → List ℕ → Cmd World ℤ
send_text fd str = do
  r ← nwrite fd (htonl (length str % 2 ^ 32))
  if is_neg r then pure minus_one else do
    r' ← nwrite fd (take (length str % 2 ^ 32) str)
    pure (if is_neg r' then minus_one else pos 0)

module _ (J : Json) where
  unfoldable pub json_write : ℤ → J.Obj → Cmd World ℤ
  unfolding send_text
  json_write fd json = elim (J.print json) [ none ↦ pure minus_one | some str ↦ send_text fd str ]

  -- The part of `JSON_read` that fills the buffer of `(hsize + 1) % 2 ^ 32` bytes: to store more
  -- than that in it is undefined.
  unfoldable pub fill : ℤ → (hsize : ℕ) → Cmd World (Option J.Obj)
  fill fd hsize = do
    (rc, got) ← nread fd hsize
    if ltb ((hsize + 1) % 2 ^ 32) (length got)
        then (λ _. crash)
        else pure
            (if not (is_neg rc) && (pos_part rc == hsize) then J.parse (c_string got) else none)

  -- The part of `JSON_read` behind the length; `free` of NULL does nothing.
  unfoldable pub read_text : ℤ → (hsize : ℕ) → Cmd World (Option J.Obj)
  unfolding fill syscall_value
  read_text fd hsize = do
    str ← syscall_value (calloc ((hsize + 1) % 2 ^ 32))
    elim str [ none ↦ pure none | some p ↦ do o ← fill fd hsize; release p; pure o ]

  -- `junk` is what the variable `nsize` held before.
  unfoldable pub json_read : ℤ → (junk : List ℕ) → Cmd World (Option J.Obj)
  json_read fd junk = do
    (rc, bytes) ← nread fd 4
    if is_neg rc then pure none else read_text fd (ntohl (bytes ++ drop (length bytes) junk))
