-- ===== src/Sockets/Announce.antt =====
-- `netannounce`: what it keeps open.
use kernel_testkit.Base.{◌≡◌, ◌∷◌, if◌then◌else◌, Option, arith}
use Prim.Native.String.{String}
use kernel_testkit.Base.Int.{ℤ, is_neg}
use kernel_testkit.Base.Run.{Returns}
use kernel_testkit.World.{World, held, addresses}
use kernel_testkit.Sockets.{netannounce}

abbrev pub HoldsResult : World → ℤ → World → Type 0
HoldsResult w r w' =
    (addresses w'.log ≡ addresses w.log)
    × (held w'.log ≡ (if is_neg r then held w.log else r ∷ held w.log))

-- Whatever the kernel answers, `netannounce` ends with every address list freed; where it fails,
-- no descriptor is open that was not before; where it succeeds, just the socket returned.
pub netannounce-HoldsResult :
    (domain proto : ℤ) (local : Option String) (port : ℤ) (w : World)
    → Returns (HoldsResult w) (netannounce domain proto local port w)
unfolding netannounce held addresses
netannounce-HoldsResult domain proto local port w = ground arith
