-- ===== src/Locale/Settings.antt =====
-- iperf/src/iperf_locale.c: the messages on settings.
use Prim.Native.String.{String}

abbrev pub seperator_line : String
seperator_line = "------------------------------------------------------------\n"

abbrev pub server_port : String
server_port = "Server listening on %s port %d\n"

abbrev pub client_port : String
client_port = "Client connecting to %s, %s port %d\n"

abbrev pub bind_address : String
bind_address = "Binding to local address %s\n"

abbrev pub bind_port : String
bind_port = "Binding to local port %s\n"

abbrev pub multicast_ttl : String
multicast_ttl = "Setting multicast TTL to %d\n"

abbrev pub join_multicast : String
join_multicast = "Joining multicast group  %s\n"

abbrev pub client_datagram_size : String
client_datagram_size = "Sending %d byte datagrams\n"

abbrev pub server_datagram_size : String
server_datagram_size = "Receiving %d byte datagrams\n"

abbrev pub tcp_window_size : String
tcp_window_size = "TCP window size"

abbrev pub udp_buffer_size : String
udp_buffer_size = "UDP buffer size"

abbrev pub window_default : String
window_default = "(default)"

abbrev pub wait_server_threads : String
wait_server_threads = "Waiting for server threads to complete. Interrupt again to force quit.\n"

abbrev pub test_start_time : String
test_start_time =
    "Starting Test: protocol: %s, %d streams, %d byte blocks, %d second test, tos %d\n"

abbrev pub test_start_bytes : String
test_start_bytes =
    "Starting Test: protocol: %s, %d streams, %d byte blocks, %llu bytes to send, tos %d\n"

abbrev pub test_start_blocks : String
test_start_blocks =
    "Starting Test: protocol: %s, %d streams, %d byte blocks, %d blocks to send, tos %d\n"
