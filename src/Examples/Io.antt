-- ===== src/Examples/Io.antt =====
-- The theorems on reading, writing and sockets, at a kernel that answers everything with 100 and
-- at one that fails every call.
use kernel_testkit.Base.{◌≡◌, ℕ, none, [], ◌∷◌, arith}
use kernel_testkit.Base.Int.{pos}
use kernel_testkit.Base.Run.{Returns}
use kernel_testkit.World.{World, Reply, fail, eintr}
use kernel_testkit.Net.{nread, nwrite}
use kernel_testkit.Net.Read.{NreadDone, nread-Done}
use kernel_testkit.Net.Write.{NwriteDone, nwrite-Done}
use kernel_testkit.Sockets.{
  portstr, netannounce, setnonblocking, set_tcp_options, af_inet6, sock_stream,
}
use kernel_testkit.Sockets.Announce.{HoldsResult, netannounce-HoldsResult}
use kernel_testkit.Sockets.Port.{value, portstr-value}
use kernel_testkit.Sockets.Options.{
  ModeIsSet, MssIsSet, setnonblocking-ModeIsSet, set_tcp_options-MssIsSet,
}
use kernel_testkit.Examples.Data.{steady, world_with}

-- Every call is interrupted.
abbrev interrupted : ℕ → Reply
interrupted _ = fail eintr

abbrev w : World
w = world_with steady (1 ∷ 2 ∷ 3 ∷ [])

abbrev bad : World
bad = world_with interrupted (1 ∷ 2 ∷ 3 ∷ [])

nread-Done_example : Returns (NreadDone (pos 5) 2 bad) (nread (pos 5) 2 bad)
nread-Done_example = nread-Done (pos 5) 2 bad

nwrite-Done_example :
    Returns (NwriteDone (pos 5) (7 ∷ 8 ∷ []) bad) (nwrite (pos 5) (7 ∷ 8 ∷ []) bad)
nwrite-Done_example = nwrite-Done (pos 5) (7 ∷ 8 ∷ []) bad

netannounce-HoldsResult_example :
    Returns (HoldsResult w) (netannounce af_inet6 sock_stream none (pos 5201) w)
netannounce-HoldsResult_example = netannounce-HoldsResult af_inet6 sock_stream none (pos 5201) w

setnonblocking-ModeIsSet_example :
    Returns (ModeIsSet (pos 5) (pos 1) w) (setnonblocking (pos 5) (pos 1) w)
setnonblocking-ModeIsSet_example = setnonblocking-ModeIsSet (pos 5) (pos 1) w

set_tcp_options-MssIsSet_example :
    Returns (MssIsSet (pos 5) (pos 100)) (set_tcp_options (pos 5) (pos 1) (pos 100) w)
set_tcp_options-MssIsSet_example =
    set_tcp_options-MssIsSet (pos 5) (pos 1) (pos 100) w (λ e. ground (arith, e))

portstr-value_example : value 0 (portstr (pos 5201)) ≡ 5201
portstr-value_example = portstr-value 5201 (omega arith)
