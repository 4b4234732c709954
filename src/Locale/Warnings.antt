-- ===== src/Locale/Warnings.antt =====
-- iperf/src/iperf_locale.c: the warnings.
use Prim.Native.String.{String}

abbrev pub warn_window_requested : String
warn_window_requested = " (WARNING: requested %s)"

abbrev pub warn_window_small : String
warn_window_small =
    "WARNING: TCP window size set to %d bytes. A small window size\nwill give poor performance. See the Iperf documentation.\n"

abbrev pub warn_delay_large : String
warn_delay_large = "WARNING: delay too large, reducing from %.1f to 1.0 seconds.\n"

abbrev pub warn_no_pathmtu : String
warn_no_pathmtu = "WARNING: Path MTU Discovery may not be enabled.\n"

abbrev pub warn_no_ack : String
warn_no_ack = "[%3d] WARNING: did not receive ack of last datagram after %d tries.\n"

abbrev pub warn_ack_failed : String
warn_ack_failed = "[%3d] WARNING: ack of last datagram failed after %d tries.\n"

abbrev pub warn_fileopen_failed : String
warn_fileopen_failed =
    "WARNING: Unable to open file stream for transfer\nUsing default data stream. \n"

abbrev pub unable_to_change_win : String
unable_to_change_win = "WARNING: Unable to change the window size\n"

abbrev pub opt_estimate : String
opt_estimate = "Optimal Estimate\n"

abbrev pub report_interval_small : String
report_interval_small = "WARNING: interval too small, increasing from %3.2f to 0.5 seconds.\n"

abbrev pub warn_invalid_server_option : String
warn_invalid_server_option = "WARNING: option -%c is not valid for server mode\n"

abbrev pub warn_invalid_client_option : String
warn_invalid_client_option = "WARNING: option -%c is not valid for client mode\n"

abbrev pub warn_invalid_compatibility_option : String
warn_invalid_compatibility_option = "WARNING: option -%c is not valid in compatibility mode\n"

abbrev pub warn_implied_udp : String
warn_implied_udp = "WARNING: option -%c implies udp testing\n"

abbrev pub warn_implied_compatibility : String
warn_implied_compatibility = "WARNING: option -%c has implied compatibility mode\n"

abbrev pub warn_buffer_too_small : String
warn_buffer_too_small = "WARNING: the UDP buffer was increased to %d for proper operation\n"

abbrev pub warn_invalid_single_threaded : String
warn_invalid_single_threaded = "WARNING: option -%c is not valid in single threaded versions\n"

abbrev pub warn_invalid_report_style : String
warn_invalid_report_style = "WARNING: unknown reporting style \"%s\", switching to default\n"

abbrev pub warn_invalid_report : String
warn_invalid_report =
    "WARNING: unknown reporting type \"%c\", ignored\n valid options are:\n\t exclude: C(connection) D(data) M(multicast) S(settings) V(server) report\n\n"
