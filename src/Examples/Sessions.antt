-- ===== src/Examples/Sessions.antt =====
-- The theorems on the protocols, the control connection and the server, at one client and one
-- server.
use kernel_testkit.Base.{
  ◌≡◌, ◌≢◌, refl, ap, ◌∙◌, Option, none, some, [], ◌∷◌, ◌++◌, arith, ◌⊎◌, inl, ℕ, ltb,
  if◌then◌else◌,
}
use kernel_testkit.Base.Int.{ℤ, pos, minus_one}
use kernel_testkit.Base.Run.{Cmd, ok, crash, Returns, Returns-ok, pure}
use kernel_testkit.Links.{Ptr, null}
use kernel_testkit.World.{World, Reply, done, fail, eintr, held, erase}
use kernel_testkit.Test.{State, zero_test, iperf_new_test}
use kernel_testkit.Protocols.{
  get_protocol, iperf_defaults, iperf_set_test_role, iperf_set_test_reverse,
}
use kernel_testkit.Protocols.Find.{find, get_protocol-ne_null}
use kernel_testkit.Protocols.Role.{
  SenderAgrees, RetransmitsAgree, iperf_set_test_role_lem, iperf_set_test_reverse_twice,
}
use kernel_testkit.Protocols.Defaults.{HasTcp, iperf_defaults-HasTcp}
use kernel_testkit.Json.{Json}
use kernel_testkit.Wire.{json_read}
use kernel_testkit.Wire.Transfer.{frame, Got, json_read-parse}
use kernel_testkit.Control.{
  iperf_set_send_state, create_streams, param_exchange, exchange_as_server, iperf_register_timerfd,
  iperf_deregister_timerfd,
}
use kernel_testkit.Control.SendState.{StateSent, iperf_set_send_state-StateSent}
use kernel_testkit.Control.Timer.{Holds, iperf_register_timerfd-Holds}
use kernel_testkit.Control.Failures.{CrashPlace, follows_null, exchange_as_server-crash}
use kernel_testkit.Server.{iperf_accept, iperf_run_server}
use kernel_testkit.Server.Accept.{Turned, iperf_accept-Turned}
use kernel_testkit.Server.Refinement.{Follows}
use kernel_testkit.Server.Termination.{iperf_accept-Halts, iperf_run_server-Halts}
use kernel_testkit.Base.Halting.{Halts}
use kernel_testkit.Control.Halting.{Fixed}
use kernel_testkit.Base.Partial.{Ends}
use kernel_testkit.Server.Whole.{RunEnds, iperf_run_server-Follows}
use kernel_testkit.Test.New.{Made, iperf_new_test-Made}
use kernel_testkit.Examples.Data.{
  steady, steady-IsReliable, world_with, ring_10, state_with, client_test, server_test,
  printed_text, toy,
}

abbrev w : World
w = world_with steady []

abbrev server : State
server = state_with server_test w

abbrev client : State
client = state_with client_test w

get_protocol-ne_null_example :
    (p : Ptr) × (get_protocol 3 (pos 9) server ≡ ok p server)
    × (p ≢ null)
    × (((find server.memory.id (pos 9) (11 ∷ 12 ∷ []) ≡ none) × (p ≡ 10))
        ⊎ (find server.memory.id (pos 9) (11 ∷ 12 ∷ []) ≡ some p))
get_protocol-ne_null_example =
    get_protocol-ne_null (pos 9) server 3 (11 ∷ 12 ∷ []) ring_10 (omega arith) refl

iperf_set_test_role_lem_example :
    Returns
      (λ _ s'. (s'.test.role ≡ 99) × SenderAgrees s'.test × RetransmitsAgree s')
      (iperf_set_test_role 99 client)
iperf_set_test_role_lem_example = iperf_set_test_role_lem 99 client (inl refl) (ground arith)

abbrev fresh : State
fresh = record server { test = record (server.test) { protocol = null; reverse = pos 0 } }

abbrev forward : State
forward = record client { test = record (client.test) { reverse = pos 0; sender = pos 1 } }

abbrev backward : State
backward = record client { test = record (client.test) { reverse = pos 1; sender = pos 0 } }

iperf_set_test_reverse_twice_example :
    Returns (λ _ s'. ¬ (SenderAgrees s'.test)) (iperf_set_test_reverse (pos 1) backward)
iperf_set_test_reverse_twice_example =
    iperf_set_test_reverse_twice (pos 1) backward refl refl (ground arith)

iperf_defaults-HasTcp_example :
    Returns (λ r s'. (r ≡ pos 0) × HasTcp 100 server s') (iperf_defaults server)
iperf_defaults-HasTcp_example =
    iperf_defaults-HasTcp server 100 refl (ground arith) (ground arith) (ground arith)
      (ground arith)

iperf_set_send_state-StateSent_example :
    Returns (StateSent param_exchange server) (iperf_set_send_state param_exchange server)
iperf_set_send_state-StateSent_example = iperf_set_send_state-StateSent param_exchange server

-- A library that parses every text to an empty object.
abbrev plain : Json
plain = record toy { parse = λ _. some [] }

abbrev empty_object : World
empty_object = world_with steady (frame printed_text ++ [])

abbrev lost : State
lost = record fresh { world = empty_object }

abbrev reading :
    (o : Option _) × (w' : World) × (json_read plain (pos 8) [] empty_object ≡ ok o w')
    × Got plain (pos 8) (some []) empty_object [] o w'
reading =
    Returns-ok (Got plain (pos 8) (some []) empty_object [])
      (json_read plain (pos 8) [] empty_object)
      (json_read-parse plain (pos 8) [] printed_text [] empty_object
        (refl, (refl, (refl, (refl, (refl, tt))))) (omega arith) steady-IsReliable refl)

exchange_as_server-crash_example :
    (exchange_as_server plain (pure (pos 5)) 3 [] lost ≡ crash)
    × CrashPlace plain
        (pure (pos 5))
        3
        []
        lost
        []
        reading.1
        (follows_null plain [] lost.test.sender)
exchange_as_server-crash_example =
    exchange_as_server-crash plain (pure (pos 5)) 3 [] lost [] reading.1
      (reading.2 ∙ ap (λ o. ok o reading.1) reading.3.0) refl refl refl

abbrev busy : State
busy = record server { test = record (server.test) { state = create_streams } }

iperf_accept-Turned_example : Returns (Turned busy) (iperf_accept toy (pure (pos 5)) 3 [] busy)
iperf_accept-Turned_example =
    iperf_accept-Turned toy (pure (pos 5)) 3 [] busy (λ e. ground (arith, e))

abbrev free : State
free = record server { test = record (server.test) { ctrl_sck = minus_one } }

abbrev no_listen : Cmd State ℤ
no_listen s = ok minus_one (record s { world = record (s.world) { errno = 98 } })

iperf_accept-Halts_example :
    Halts
      (λ r s'. Fixed free r s' × Follows (λ e. e ≡ 98) (pos 100) free r s')
      (iperf_accept toy no_listen 3 [] free)
unfolding zero_test
iperf_accept-Halts_example =
    iperf_accept-Halts toy no_listen (λ s. (refl, refl, refl)) (λ s. (refl, refl, refl)) 3 []
      (11 ∷ 12 ∷ []) (omega arith) refl (λ e. e ≡ 98) (λ s e. refl) free 100 refl refl
      (ground arith) ring_10

iperf_register_timerfd-Holds_example :
    Returns
      (Holds
        (erase server.test.epoll_fd (erase server.test.timer_fd (held server.world.log)))
        server)
      (iperf_register_timerfd server)
    × Returns
        (Holds (erase server.test.timer_fd (held server.world.log)) server)
        (iperf_deregister_timerfd server)
iperf_register_timerfd-Holds_example = iperf_register_timerfd-Holds server

iperf_run_server-Follows_example :
    Ends (RunEnds free) (iperf_run_server toy (pure (pos 5)) 3 [] 10 free)
unfolding zero_test
iperf_run_server-Follows_example =
    iperf_run_server-Follows toy (pure (pos 5)) (λ s. (refl, refl, refl)) 3 [] 10 free refl refl
      (ground arith)

iperf_new_test-Made_example : Returns (Made w) (iperf_new_test w)
iperf_new_test-Made_example = iperf_new_test-Made w

-- A kernel that fails from its call number 6 on.
abbrev six_calls : ℕ → Reply
six_calls i = if ltb i 6 then done 1 else fail eintr

abbrev brief : State
brief = record free { world = world_with six_calls [] }

iperf_run_server-Halts_example :
    Halts (RunEnds brief) (iperf_run_server toy (pure (pos 5)) 3 [] 10 brief)
unfolding zero_test
iperf_run_server-Halts_example =
    iperf_run_server-Halts toy (pure (pos 5)) (λ s. (refl, refl, refl)) (λ s. (refl, refl, refl)) 3
      [] (11 ∷ 12 ∷ []) (omega arith) refl 10 brief refl refl (ground arith) ring_10 6
      (λ i late. (eintr, ground arith)) (omega arith)
