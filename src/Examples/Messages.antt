-- ===== src/Examples/Messages.antt =====
-- The theorems on the JSON messages and the parameters, at one client and one server.
use kernel_testkit.Base.{
  inl, ℕ, ◌+◌, ◌≡◌, refl, ◌<◌, ◌^◌, some, List, [], ◌∷◌, ◌++◌, length, drop, arith,
}
use kernel_testkit.Base.Int.{pos}
use kernel_testkit.Base.Run.{pure, crash, Returns, weaken}
use kernel_testkit.World.{World, Reply, fail, eintr}
use kernel_testkit.Net.{nread}
use kernel_testkit.Net.Read.{NreadFull, nread-Full}
use kernel_testkit.Control.{iperf_exchange_parameters}
use kernel_testkit.Control.Interrupted.{Unsent, iperf_exchange_parameters-Unsent}
use kernel_testkit.Test.Lift.{Lifted}
use kernel_testkit.Test.{State, zero_test}
use kernel_testkit.Protocols.{ptcp}
use kernel_testkit.Wire.{ntohl, json_read, json_write}
use kernel_testkit.Wire.Transfer.{frame, Sent, Got, json_write-frame, json_read-parse}
use kernel_testkit.Wire.Safety.{Quiet, json_read_safe, json_read_overflow}
use kernel_testkit.Params.{
  parameters, add_protocol, add_test, add_settings, add_texts, add_when, send_parameters,
  get_parameters,
}
use kernel_testkit.Params.Receive.{IsSendable}
use kernel_testkit.Params.Total.{Outcome, get_parameters-Outcome}
use kernel_testkit.Params.Exchange.{Received, exchange-merge}
use kernel_testkit.Examples.Data.{
  steady, steady-IsReliable, world_with, ring_10, state_with, client_test, server_test, members,
  printed_text, toy, toy-JsonLaws, print-members,
}

abbrev client : State
client = state_with client_test (world_with steady [])

pub client_printed : toy.print (parameters toy client_test ptcp []) ≡ some printed_text
unfolding parameters add_protocol add_test add_settings add_texts add_when zero_test
client_printed = print-members

pub client_IsSendable : IsSendable client_test
unfolding zero_test
client_IsSendable = record {
  server_affinity = ground arith;
  duration = ground arith;
  bytes = ground arith;
  blocks = ground arith;
  mss = ground arith;
  num_streams = ground arith;
  socket_bufsize = ground arith;
  blksize = ground arith;
  rate = ground arith;
  fqrate = ground arith;
  pacing_timer = ground arith;
  burst = ground arith;
  tos = ground arith;
  get_server_output = ground arith;
  udp_counters_64bit = ground arith;
}

abbrev server : State
server = state_with server_test (world_with steady [])

exchange-merge_example :
    Returns
      (λ r client'.
        (r ≡ pos 0) × Received toy client_test 12 3 [] (client'.world.outbox (pos 7) ++ []) server)
      (send_parameters toy client)
exchange-merge_example =
    exchange-merge toy toy-JsonLaws [] printed_text client_test refl client_printed (omega arith) 3
      [] [] client server (11 ∷ 12 ∷ []) 12 refl (ground arith) refl steady-IsReliable refl
      client_IsSendable ring_10 (omega arith) refl refl steady-IsReliable

json_write-frame_example :
    Returns
      (Sent (pos 7) client.world (frame printed_text))
      (json_write toy (pos 7) members client.world)
json_write-frame_example =
    json_write-frame toy (pos 7) members printed_text client.world print-members (omega arith)
      steady-IsReliable

abbrev framed : World
framed = world_with steady (frame printed_text ++ (1 ∷ []))

json_read-parse_example :
    Returns (Got toy (pos 8) (some members) framed (1 ∷ [])) (json_read toy (pos 8) [] framed)
json_read-parse_example =
    json_read-parse toy (pos 8) [] printed_text (1 ∷ []) framed
      (refl, (refl, (refl, (refl, (refl, tt))))) (omega arith) steady-IsReliable refl

abbrev short_length : List ℕ
short_length = 0 ∷ 0 ∷ 0 ∷ 5 ∷ []

abbrev short : World
short = world_with steady (short_length ++ printed_text)

short_fits :
    Returns (λ r _. ntohl (r.1 ++ drop (length (r.1)) []) + 1 < 2 ^ 32) (nread (pos 8) 4 short)
unfolding ntohl
short_fits =
    weaken (NreadFull (pos 8) short short_length printed_text)
      (λ r _. ntohl (r.1 ++ drop (length (r.1)) []) + 1 < 2 ^ 32) (nread (pos 8) 4 short)
      (nread-Full (pos 8) short_length printed_text short steady-IsReliable refl)
      λ (r, got) w' (n, e, i, p, o). rw e (omega arith)

json_read_safe_example : Returns (λ _ w'. Quiet (pos 8) short w') (json_read toy (pos 8) [] short)
json_read_safe_example = json_read_safe toy (pos 8) [] short short_fits

abbrev huge : World
huge = world_with steady (255 ∷ 255 ∷ 255 ∷ 255 ∷ 65 ∷ [])

json_read_overflow_example : json_read toy (pos 8) [] huge ≡ crash
json_read_overflow_example = json_read_overflow toy (pos 8) [] 65 [] huge steady-IsReliable refl

abbrev reader : State
reader = state_with server_test short

get_parameters-Outcome_example :
    Outcome toy [] reader (11 ∷ 12 ∷ []) (get_parameters toy 3 [] reader)
unfolding zero_test
get_parameters-Outcome_example =
    get_parameters-Outcome toy 3 [] reader (11 ∷ 12 ∷ []) ring_10 (omega arith) refl short_fits

-- Every call is interrupted.
abbrev interrupted : ℕ → Reply
interrupted _ = fail eintr

abbrev unheard : State
unheard = state_with client_test (world_with interrupted [])

iperf_exchange_parameters-Unsent_example :
    Returns
      (Lifted (Unsent unheard.world) unheard)
      (iperf_exchange_parameters toy (pure (pos 5)) 3 [] unheard)
iperf_exchange_parameters-Unsent_example =
    iperf_exchange_parameters-Unsent toy (pure (pos 5)) 3 [] unheard [] printed_text refl
      (ground arith) refl client_printed refl (omega arith) (eintr, refl, inl refl)
      (eintr, refl, inl refl)
