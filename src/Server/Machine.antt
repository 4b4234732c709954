-- ===== src/Server/Machine.antt =====
-- The control connection as the server should run it, as a machine, and what goes out on the way.
use kernel_testkit.Base.{ℕ, List, [], ◌∷◌, ◌++◌}
use kernel_testkit.Base.Int.{ℤ, pos}
use kernel_testkit.Net.Errno.{Reason}
use kernel_testkit.Wire.{htonl}
use kernel_testkit.Control.{param_exchange, create_streams, server_error, state_byte}

-- Nobody is served; the client has been asked for its parameters; it has been told to make
-- streams; it has been told of an error.
pub data Phase : Type 0 where
  idle offered agreed refused : Phase

-- The `state` of a test in each phase; 0 before the first.
abbrev pub state_of : Phase → ℤ
state_of idle = pos 0
state_of offered = param_exchange
state_of agreed = create_streams
state_of refused = server_error

-- A step of the machine, and its message, where `listen` fails with the error numbers in `E`.
pub data Step (E : ℕ → Type 0) : Phase → List ℕ → Phase → Type 0 where
  offer : Step E idle (state_byte param_exchange) offered
  agree : Step E offered (state_byte create_streams) agreed
  -- The error goes out twice; a write may be interrupted before or between.
  refuse :
      (a b : ℕ)
      → Reason E a
      → Reason E b
      → Step E offered (state_byte server_error ++ (htonl a ++ htonl b)) refused

pub data Trace (E : ℕ → Type 0) : Phase → List ℕ → Phase → Type 0 where
  here : {p : Phase} → Trace E p [] p
  next : {p q r : Phase} {m n : List ℕ} → Trace E p m q → Step E q n r → Trace E p (m ++ n) r

-- Nothing is said of the error numbers.
abbrev pub Unsaid : ℕ → Type 0
Unsaid _ = Unit

-- Some of the bytes of a list, in order.
pub data Within : List ℕ → List ℕ → Type 0 where
  ends : Within [] []
  keep : {xs ys : List ℕ} (x : ℕ) → Within xs ys → Within (x ∷ xs) (x ∷ ys)
  skip : {xs ys : List ℕ} (y : ℕ) → Within xs ys → Within xs (y ∷ ys)

pub Within-nil : (ys : List ℕ) → Within [] ys
Within-nil [] = ends
Within-nil (y ∷ ys) = skip y (Within-nil ys)

pub Within-prefix : (xs ys : List ℕ) → Within xs (xs ++ ys)
Within-prefix [] ys = Within-nil ys
Within-prefix (x ∷ xs) ys = keep x (Within-prefix xs ys)

pub Within-append :
    {xs ys us vs : List ℕ} → Within xs ys → Within us vs → Within (xs ++ us) (ys ++ vs)
Within-append ends b = b
Within-append (keep x a) b = keep x (Within-append a b)
Within-append (skip y a) b = skip y (Within-append a b)
