-- ===== src/Lib.antt =====
-- kernel-testkit: iperf, a network test whose server and client agree on a test over a control
-- connection. What is here is that connection: the server listens, takes a client, exchanges the
-- parameters with it as a JSON text, and goes into the state in which streams are made. The client
-- and the streams themselves are not written yet in the repository.
--
-- The parts and their files (each with child modules for its theorems):
--   Links      iperf/include/list.h: the intrusive lists, by address. Links/Chain says when a ring
--              of links stands for a list of addresses, and Links/Store when a memory stands for
--              a store of many lists, on which Links/Sequence runs the operations.
--   World      what the program sees of the kernel and the C library: an arbitrary sequence of
--              replies, bytes per descriptor, errno, and a log of the calls, from which `held`
--              reads the open descriptors and `blocks` the memory that is not freed yet.
--   Net        iperf/src/net.c: Nread and Nwrite.
--   Sockets    iperf/src/net.c: set_tcp_options, setnonblocking, netannounce, getsockdomain.
--   Test       iperf/include/iperf.h: struct iperf_test and struct iperf_settings; the memory of
--              struct protocol; iperf_new_test, the getters and setters of iperf/src/iperf_api.c.
--   Protocols  iperf/src/iperf_api.c: get_protocol, set_protocol, the roles, iperf_defaults.
--   Json       the calls of cJSON as a record of parameters, with the laws they are used by.
--   Wire       iperf/src/iperf_api.c: JSON_write and JSON_read.
--   Params     iperf/src/iperf_api.c: send_parameters and get_parameters.
--   Control    iperf/src/iperf_api.c: iperf_set_send_state, iperf_exchange_parameters,
--              epoll and timer descriptors.
--   Locale     iperf/src/iperf_locale.c: the texts.
--   Print      what printf makes of a format and its arguments; Print/Types has their types.
--   Report     iperf/src/iperf_api.c: iperf_printf and iperf_on_connect.
--   Server     iperf/src/iperf_server_api.c. Server/Machine says how a control connection should
--              go, as a step relation on phases; Server/Refinement relates iperf_accept to it,
--              Server/Whole iperf_run_server, Server/Waiting has the loop after the handshake, and
--              Server/Termination says when the two end.
--   Getopt     getopt_long of the C library, from a command line to options with arguments.
--   Utils      iperf/src/utils.c: unit_atof_rate, with `double` as the parameter Double.
--   Cli        iperf/src/main.c and iperf/src/iperf_client_api.c; Cli/Service, Cli/Whole and
--              Cli/Termination follow `main -s` from the command line to its end.
--   Examples   concrete values at which the theorems are applied.
--   Base       numbers, lists and the command monad that the others share.
--
-- A command takes a state to `ok` of a result and a state, to `crash` (an abort, a NULL pointer
-- followed, a write past a buffer), or to `out_of_fuel`. `Returns` says that it ends in `ok` with a
-- postcondition, `Halts` that it ends in a crash or in `ok` with the postcondition, and `Ends` that
-- the postcondition holds if it ends in `ok`. A `char *` is an optional text; an `int` is an
-- integer that is wrapped to 32 bits where the source converts to it.
--
-- Fuel: the loops of Nread and Nwrite start with one more than the bytes that are left, and each
-- turn takes at least one. A walk over a list takes as an argument the number of rounds, which the
-- theorems ask to be more than the entries. The loop of iperf_run_server, which need not end, takes
-- the number of its turns.
--
-- Not modelled: the bundled copy of cJSON (a parameter), what printf and perror print outside
-- iperf_printf, conversions of printf other than plain %s, %d and %% (Print/Types knows the
-- arguments of the others), struct iperf_stream, which nothing creates, the signal handler, which
-- ends the program, and iperf_tcp_listen and its like, which the repository does not have:
-- `protocol->listen` is a parameter, and so are `double` and the scan of one (Utils.Double).
-- `strdup` is taken to succeed, in get_parameters and in the setters of texts.
-- iperf_defaults is modelled as it is meant, since it does not compile as it stands; the defaults
-- under `#if 0` are left out.
pub mod Base
pub mod Links
pub mod World
pub mod Locale
pub mod Print
pub mod Net
pub mod Sockets
pub mod Test
pub mod Report
pub mod Protocols
pub mod Json
pub mod Wire
pub mod Params
pub mod Control
pub mod Server
pub mod Getopt
pub mod Utils
pub mod Cli
pub mod Examples
