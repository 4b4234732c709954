-- ===== src/Examples/Both.antt =====
-- A client and a server that meet.
use kernel_testkit.Base.{◌≡◌, refl, [], ◌∷◌, ◌++◌, arith}
use kernel_testkit.Base.Int.{pos, minus_one}
use kernel_testkit.Base.Run.{Returns, pure}
use kernel_testkit.Test.{State}
use kernel_testkit.Control.{iperf_exchange_parameters}
use kernel_testkit.Server.Session.{Served, iperf_exchange_parameters-Answers}
use kernel_testkit.Examples.Data.{
  steady, steady-IsReliable, world_with, ring_10, state_with, client_test, server_test,
  printed_text, toy, toy-JsonLaws,
}
use kernel_testkit.Examples.Messages.{client_printed, client_IsSendable}

abbrev client : State
client = state_with client_test (world_with steady [])

abbrev server : State
server = state_with (record server_test { ctrl_sck = minus_one }) (world_with steady [])

iperf_exchange_parameters-Answers_example :
    Returns
      (λ r client'.
        (r ≡ pos 0)
        × Served toy
            (pure (pos 5))
            3
            []
            client_test
            12
            (pos 100)
            (client'.world.outbox (pos 7) ++ (1 ∷ []))
            server)
      (iperf_exchange_parameters toy (pure (pos 5)) 3 [] client)
iperf_exchange_parameters-Answers_example =
    iperf_exchange_parameters-Answers toy toy-JsonLaws [] printed_text client_test refl
      client_printed (omega arith) client_IsSendable (pure (pos 5))
      (λ s. (refl, (refl, refl, refl, refl))) 3 [] (1 ∷ []) client server (11 ∷ 12 ∷ []) 12 100 refl
      refl (ground arith) refl steady-IsReliable refl refl (ground arith) refl refl ring_10
      (omega arith) refl refl (ground arith) steady-IsReliable
