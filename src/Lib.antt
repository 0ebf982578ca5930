-- ===== src/Lib.antt =====
-- device-discovery finds the Linux device at the other end of a cable: it takes the local
-- interfaces that may carry the cable, probes the hosts of their subnets for an SSH server, runs
-- ifconfig or "ip addr" there, and reports the interfaces of the device.
--
-- Parts, and the files of the repository that they model:
-- - Platform: src/platform/windows_sockets.{hpp,cpp}. A state of open handles and of the waits so
--   far is passed through close_socket, wait_for_socket and everything on top of them.
-- - Network: src/network. Interface models interface_discovery.{hpp,cpp}: adapters become snapshots,
--   and snapshots candidates, by enumerate_interfaces, filter_candidate_interfaces and
--   discover_candidate_interfaces; Interface/Query the growing buffer. Arp models arp_discovery.{hpp,cpp}: the neighbour cache, and the
--   capture on recorded answers.
-- - Scanner: src/scanner. Connect models port_scanner.cpp, Banner and Probe ssh_detector.cpp, Sweep
--   subnet_sweep.cpp. A probe is given what Windows and the peer answer to each of its calls.
-- - Threading: src/threading/thread_pool.{hpp,cpp}. Submitters, workers, notifications and the
--   shutdown are interleaved steps between states of the pool. A sweep returns when its tasks are
--   done, and the shutdown when the workers have left: Served has the steps that lead there.
-- - Parser: src/parser/ifconfig_parser.{hpp,cpp}, with printers of its own: Listing for ifconfig, IpAddr
--   for "ip -4 addr".
-- - Output: src/output/formatter.{hpp,cpp}, with a reader of the JSON report of its own.
-- - Ssh: src/ssh/ssh_client.{hpp,cpp}. A client is a record, and the process another: its sockets, and
--   the sessions, channels and tables of libssh2 that are not freed. Connect models
--   connect_and_authenticate, Execute the remote command, Ssh itself disconnect.
-- - App: src/main.cpp and src/config.hpp. Arguments models parse_options, App itself the offline mode
--   and the choices, Stages the two searches, Session what follows the login, Run the rest of run and
--   main, Usage the text of --help, Messages what run writes to the error stream.
-- - Inet: inet_pton and inet_ntop of Winsock, which are parameters with documented properties;
--   Tests.Dotted is an instance.
-- - Common: lists, bytes, Boolean tests, 32-bit integers and bit masks.
--
-- A std::string is a list of bytes; a uint32_t is a number with its wrap-around written out; a
-- std::chrono time is a number of nanoseconds, and a timeout one of milliseconds; a deadline wraps
-- around as 64-bit nanoseconds do. The reading loop of
-- a banner has 513 units of fuel, one more than the bytes after which it stops, and each round reads
-- a byte at least. The host loop has the capacity that the source reserves as its fuel, one more
-- than the addresses it visits. The capture loop runs until the clock reaches its deadline: its fuel
-- is an argument, which is enough when it exceeds the round in which the clock does.
--
-- A sweep calls probe_ssh for the peer at each address. Each probe works on a socket of its own; their
-- calls follow each other in the order of the queue, and are not interleaved with those of other probes.
--
-- The reads of a remote command and the run have the fuel of their environment, which is enough when
-- it exceeds the number of blocks that each stream gives.
--
-- Not modelled: the calls of Windows and of libssh2 themselves (WSAStartup,
-- GetAdaptersAddresses, FormatMessage, the UTF-16 conversions, the cryptography), whose answers are
-- arguments; the exceptions of the standard library.
pub mod Common
pub mod Inet
pub mod Platform
pub mod Network
pub mod Scanner
pub mod Parser
pub mod Threading
pub mod Output
pub mod Ssh
pub mod App
mod Tests
