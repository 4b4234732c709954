-- ===== src/Locale/Usage.antt =====
-- iperf/src/iperf_locale.c: the usage texts.
use Prim.Native.String.{String}

abbrev pub usage_shortstr : String
usage_shortstr = "Usage: iperf3 [-s|-c host] [options]\nTry `iperf3 --help' for more information.\n"

abbrev pub usage_longstr : String
usage_longstr =
    "Usage: iperf3 [-s|-c host] [options]\n       iperf3 [-h|--help]\n\nServer or Client:\n  -p, --port      #         server port to listen on/connect to\n  -f, --format   [kmgtKMGT] format to report: Kbits, Mbits, Gbits, Tbits\n  -i, --interval  #         seconds between periodic throughput reports\n  -F, --file name           xmit/recv the specified file\n  -A, --affinity n/n,m      set CPU affinity\n  -B, --bind      <host>    bind to a specific interface\n  -V, --verbose             more detailed output\n  -J, --json                output in JSON format\n  --logfile f               send output to a log file\n  --forceflush              force flushing output at every interval\n  -d, --debug               emit debugging output\n  -h, --help                show this message and quit\nServer specific:\n  -s, --server              run in server mode\n  -D, --daemon              run the server as a daemon\n  -I, --pidfile file        write PID file\n  -1, --one-off             handle one client connection then exit\nClient specific:\n  -c, --client    <host>    run in client mode, connecting to <host>\n  -u, --udp                 use UDP rather than TCP\n  --connect-timeout #       timeout for control connection setup (ms)\n  -b, --bitrate #[KMG][/#]  target bitrate in bits/sec (0 for unlimited)\n                            (default %d Mbit/sec for UDP, unlimited for TCP)\n                            (optional slash and packet count for burst mode)\n  --pacing-timer #[KMG]     set the timing for pacing, in microseconds (default 1000)\n  -t, --time      #         time in seconds to transmit for (default %d secs)\n  -n, --bytes     #[KMG]    number of bytes to transmit (instead of -t)\n  -k, --blockcount #[KMG]   number of blocks (packets) to transmit (instead of -t or -n)\n  -l, --len       #[KMG]    length of buffer to read or write\n                            (default %d KB for TCP, dynamic or %d for UDP)\n  --cport         <port>    bind to a specific client port (TCP and UDP, default: ephemeral port)\n  -P, --parallel  #         number of parallel client streams to run\n  -R, --reverse             run in reverse mode (server sends, client receives)\n  -w, --window    #[KMG]    set window size / socket buffer size\n  -M, --set-mss   #         set TCP/SCTP maximum segment size (MTU - 40 bytes)\n  -N, --no-delay            set TCP/SCTP no delay, disabling Nagle's Algorithm\n  -4, --version4            only use IPv4\n  -6, --version6            only use IPv6\n  -S, --tos N               set the IP type of service, 0-255\n  --dscp N or --dscp val    set the IP dscp value, either 0-63 or symbolic\n  -Z, --zerocopy            use a 'zero copy' method of sending data\n  -T, --title str           prefix every output line with this string\n  --get-server-output       get results from server\n  --udp-counters-64bit      use 64-bit counters in UDP test packets\n\n[KMG] indicates options that support a K/M/G suffix for kilo-, mega-, or giga-\n\n"
