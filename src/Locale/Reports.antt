-- ===== src/Locale/Reports.antt =====
-- iperf/src/iperf_locale.c: the reports.
use Prim.Native.String.{String}

abbrev pub report_time : String
report_time = "Time: %s\n"

abbrev pub report_connecting : String
report_connecting = "Connecting to host %s, port %d\n"

abbrev pub report_authetication_successed : String
report_authetication_successed = "Authentication successed for user '%s' ts %ld\n"

abbrev pub report_authetication_failed : String
report_authetication_failed = "Authentication failed for user '%s' ts %ld\n"

abbrev pub report_reverse : String
report_reverse = "Reverse mode, remote host %s is sending\n"

abbrev pub report_accepted : String
report_accepted = "Accepted connection from %s, port %d\n"

abbrev pub report_cookie : String
report_cookie = "      Cookie: %s\n"

abbrev pub report_connected : String
report_connected = "[%3d] local %s port %d connected to %s port %d\n"

abbrev pub report_window : String
report_window = "TCP window size: %s\n"

abbrev pub report_autotune : String
report_autotune = "Using TCP Autotuning\n"

abbrev pub report_diskfile : String
report_diskfile = "        Sent %s / %s (%d%%) of %s\n"

abbrev pub report_done : String
report_done = "iperf Done.\n"

abbrev pub report_read_lengths : String
report_read_lengths = "[%3d] Read lengths occurring in more than 5%% of reads:\n"

abbrev pub report_read_length_times : String
report_read_length_times = "[%3d] %5d bytes read %5d times (%.3g%%)\n"

abbrev pub report_bw_header : String
report_bw_header = "[ ID] Interval           Transfer     Bitrate\n"

abbrev pub report_bw_retrans_header : String
report_bw_retrans_header = "[ ID] Interval           Transfer     Bitrate         Retr\n"

abbrev pub report_bw_retrans_cwnd_header : String
report_bw_retrans_cwnd_header = "[ ID] Interval           Transfer     Bitrate         Retr  Cwnd\n"

abbrev pub report_bw_udp_header : String
report_bw_udp_header =
    "[ ID] Interval           Transfer     Bitrate         Jitter    Lost/Total Datagrams\n"

abbrev pub report_bw_udp_sender_header : String
report_bw_udp_sender_header =
    "[ ID] Interval           Transfer     Bitrate         Total Datagrams\n"

abbrev pub report_bw_format : String
report_bw_format = "[%3d] %6.2f-%-6.2f sec  %ss  %ss/sec                  %s\n"

abbrev pub report_bw_retrans_format : String
report_bw_retrans_format = "[%3d] %6.2f-%-6.2f sec  %ss  %ss/sec  %3u             %s\n"

abbrev pub report_bw_retrans_cwnd_format : String
report_bw_retrans_cwnd_format = "[%3d] %6.2f-%-6.2f sec  %ss  %ss/sec  %3u   %ss       %s\n"

abbrev pub report_bw_udp_format : String
report_bw_udp_format = "[%3d] %6.2f-%-6.2f sec  %ss  %ss/sec  %5.3f ms  %d/%d (%.2g%%)  %s\n"

abbrev pub report_bw_udp_sender_format : String
report_bw_udp_sender_format = "[%3d] %6.2f-%-6.2f sec  %ss  %ss/sec  %d  %s\n"

abbrev pub report_summary : String
report_summary = "Test Complete. Summary Results:\n"

abbrev pub report_sum_bw_format : String
report_sum_bw_format = "[SUM] %6.2f-%-6.2f sec  %ss  %ss/sec                  %s\n"

abbrev pub report_sum_bw_retrans_format : String
report_sum_bw_retrans_format = "[SUM] %6.2f-%-6.2f sec  %ss  %ss/sec  %3d             %s\n"

abbrev pub report_sum_bw_udp_format : String
report_sum_bw_udp_format = "[SUM] %6.2f-%-6.2f sec  %ss  %ss/sec  %5.3f ms  %d/%d (%.2g%%)  %s\n"

abbrev pub report_sum_bw_udp_sender_format : String
report_sum_bw_udp_sender_format = "[SUM] %6.2f-%-6.2f sec  %ss  %ss/sec  %d  %s\n"

abbrev pub report_bw_separator : String
report_bw_separator = "- - - - - - - - - - - - - - - - - - - - - - - - -\n"

abbrev pub report_outoforder : String
report_outoforder = "[%3d] %4.1f-%4.1f sec  %d datagrams received out-of-order\n"

abbrev pub report_sum_outoforder : String
report_sum_outoforder = "[SUM] %4.1f-%4.1f sec  %d datagrams received out-of-order\n"

abbrev pub report_peer : String
report_peer = "[%3d] local %s port %u connected with %s port %u\n"

abbrev pub report_mss_unsupported : String
report_mss_unsupported = "[%3d] MSS and MTU size unknown (TCP_MAXSEG not supported by OS?)\n"

abbrev pub report_mss : String
report_mss = "[%3d] MSS size %d bytes (MTU %d bytes, %s)\n"

abbrev pub report_datagrams : String
report_datagrams = "[%3d] Sent %d datagrams\n"

abbrev pub report_sum_datagrams : String
report_sum_datagrams = "[SUM] Sent %d datagrams\n"

abbrev pub server_reporting : String
server_reporting = "[%3d] Server Report:\n"

abbrev pub report_csv_peer : String
report_csv_peer = "%s,%u,%s,%u"

abbrev pub report_cpu : String
report_cpu = "CPU Utilization: %s/%s %.1f%% (%.1f%%u/%.1f%%s), %s/%s %.1f%% (%.1f%%u/%.1f%%s)\n"

abbrev pub report_local : String
report_local = "local"

abbrev pub report_remote : String
report_remote = "remote"

abbrev pub report_sender : String
report_sender = "sender"

abbrev pub report_receiver : String
report_receiver = "receiver"

abbrev pub report_sender_not_available_format : String
report_sender_not_available_format = "[%3d] (sender statistics not available)\n"

abbrev pub report_receiver_not_available_format : String
report_receiver_not_available_format = "[%3d] (receiver statistics not available)\n"

abbrev pub report_tcp_info : String
report_tcp_info =
    "event=TCP_Info CWND=%u SND_SSTHRESH=%u RCV_SSTHRESH=%u UNACKED=%u SACK=%u LOST=%u RETRANS=%u FACK=%u RTT=%u REORDERING=%u\n"

abbrev pub report_csv_bw_format : String
report_csv_bw_format = "%s,%s,%d,%.1f-%.1f,%d,%d\n"

abbrev pub report_csv_bw_udp_format : String
report_csv_bw_udp_format = "%s,%s,%d,%.1f-%.1f,%d,%d,%.3f,%d,%d,%.3f,%d\n"
