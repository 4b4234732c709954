-- ===== src/Test/Fields.antt =====
-- The getters and setters of iperf/src/iperf_api.c that only move a value.
use kernel_testkit.Base.{ℕ, Option, some}
use Prim.Native.String.{String}
use kernel_testkit.Base.Int.{ℤ, pos}
use kernel_testkit.Base.Run.{Cmd}
use kernel_testkit.Test.{File, Test, State, settings, protocol_id}

unfoldable pub iperf_get_verbose : Test → ℤ
iperf_get_verbose t = t.verbose

unfoldable pub iperf_get_control_socket : Test → ℤ
iperf_get_control_socket t = t.ctrl_sck

unfoldable pub iperf_get_control_socket_mss : Test → ℤ
iperf_get_control_socket_mss t = t.ctrl_sck_mss

unfoldable pub iperf_get_test_duration : Test → ℤ
iperf_get_test_duration t = t.duration

unfoldable pub iperf_get_test_rate : Test → ℕ
iperf_get_test_rate t = t.settings.rate

unfoldable pub iperf_get_test_fqrate : Test → ℕ
iperf_get_test_fqrate t = t.settings.fqrate

unfoldable pub iperf_get_test_burst : Test → ℤ
iperf_get_test_burst t = t.settings.burst

unfoldable pub iperf_get_test_role : Test → ℕ
iperf_get_test_role t = t.role

unfoldable pub iperf_get_test_reverse : Test → ℤ
iperf_get_test_reverse t = t.reverse

unfoldable pub iperf_get_test_blksize : Test → ℤ
iperf_get_test_blksize t = t.settings.blksize

unfoldable pub iperf_get_test_socket_bufsize : Test → ℤ
iperf_get_test_socket_bufsize t = t.settings.socket_bufsize

unfoldable pub iperf_get_test_num_streams : Test → ℤ
iperf_get_test_num_streams t = t.num_streams

unfoldable pub iperf_get_test_server_port : Test → ℤ
iperf_get_test_server_port t = t.server_port

unfoldable pub iperf_get_test_json_output : Test → ℤ
iperf_get_test_json_output t = t.json_output

unfoldable pub iperf_get_test_zerocopy : Test → ℤ
iperf_get_test_zerocopy t = t.zerocopy

unfoldable pub iperf_get_test_get_server_output : Test → ℤ
iperf_get_test_get_server_output t = t.get_server_output

unfoldable pub iperf_get_test_unit_format : Test → ℕ
iperf_get_test_unit_format t = t.settings.unit_format

unfoldable pub iperf_get_test_udp_counters_64bit : Test → ℤ
iperf_get_test_udp_counters_64bit t = t.udp_counters_64bit

unfoldable pub iperf_get_test_outfile : Test → File
iperf_get_test_outfile t = t.outfile

unfoldable pub iperf_get_test_one_off : Test → ℤ
iperf_get_test_one_off t = t.one_off

unfoldable pub iperf_get_test_server_hostname : Test → Option String
iperf_get_test_server_hostname t = t.server_hostname

unfoldable pub iperf_get_test_json_output_string : Test → Option String
iperf_get_test_json_output_string t = t.json_output_string

unfoldable pub iperf_get_test_bind_address : Test → Option String
iperf_get_test_bind_address t = t.bind_address

unfoldable pub iperf_get_test_protocol_id : Cmd State ℤ
unfolding protocol_id
iperf_get_test_protocol_id = protocol_id

-- `strdup` is taken to succeed.
unfoldable pub iperf_set_test_server_hostname : String → Test → Test
iperf_set_test_server_hostname v t = record t { server_hostname = some v }

unfoldable pub iperf_set_test_bind_address : String → Test → Test
iperf_set_test_bind_address v t = record t { bind_address = some v }

unfoldable pub iperf_has_zerocopy : ℤ
iperf_has_zerocopy = pos 1

unfoldable pub iperf_set_verbose : ℤ → Test → Test
iperf_set_verbose v t = record t { verbose = v }

unfoldable pub iperf_set_control_socket : ℤ → Test → Test
iperf_set_control_socket v t = record t { ctrl_sck = v }

unfoldable pub iperf_set_test_duration : ℤ → Test → Test
iperf_set_test_duration v t = record t { duration = v }

unfoldable pub iperf_set_test_state : ℤ → Test → Test
iperf_set_test_state v t = record t { state = v }

unfoldable pub iperf_set_test_blksize : ℤ → Test → Test
iperf_set_test_blksize v = settings λ s. record s { blksize = v }

unfoldable pub iperf_set_test_rate : ℕ → Test → Test
iperf_set_test_rate v = settings λ s. record s { rate = v }

unfoldable pub iperf_set_test_fqrate : ℕ → Test → Test
iperf_set_test_fqrate v = settings λ s. record s { fqrate = v }

unfoldable pub iperf_set_test_burst : ℤ → Test → Test
iperf_set_test_burst v = settings λ s. record s { burst = v }

unfoldable pub iperf_set_test_server_port : ℤ → Test → Test
iperf_set_test_server_port v t = record t { server_port = v }

unfoldable pub iperf_set_test_socket_bufsize : ℤ → Test → Test
iperf_set_test_socket_bufsize v = settings λ s. record s { socket_bufsize = v }

unfoldable pub iperf_set_test_num_streams : ℤ → Test → Test
iperf_set_test_num_streams v t = record t { num_streams = v }

unfoldable pub iperf_set_test_json_output : ℤ → Test → Test
iperf_set_test_json_output v t = record t { json_output = v }

unfoldable pub iperf_set_test_zerocopy : ℤ → Test → Test
iperf_set_test_zerocopy v t = record t { zerocopy = v }

unfoldable pub iperf_set_test_get_server_output : ℤ → Test → Test
iperf_set_test_get_server_output v t = record t { get_server_output = v }

unfoldable pub iperf_set_test_unit_format : ℕ → Test → Test
iperf_set_test_unit_format v = settings λ s. record s { unit_format = v }

unfoldable pub iperf_set_test_udp_counters_64bit : ℤ → Test → Test
iperf_set_test_udp_counters_64bit v t = record t { udp_counters_64bit = v }

unfoldable pub iperf_set_test_one_off : ℤ → Test → Test
iperf_set_test_one_off v t = record t { one_off = v }
