-- ===== src/Lib.antt =====
-- QuicKeys: the daemon that turns key edges and snapshots into reports of a USB keyboard, and the
-- keyboard's end of the socket in QEMU.
--
-- A client sends key edges as UDP datagrams ("t=<ns> down a") or as records of 16 bytes on a QUIC
-- stream, and snapshots of the whole keyboard (52 bytes, a bitmap of usages) on another QUIC stream.
-- daemon/src/main.cpp keeps the pressed keys, the modifiers and a record per key under one mutex;
-- three kinds of threads change them: the UDP loop, MsQuic's callbacks, and a monitor that reports
-- stuck keys and releases those that no snapshot confirmed for a while. After a change the handler
-- sends a boot report of eight bytes on a UNIX socket, and qemu/dev-hid.c cuts the bytes of that
-- socket into reports and applies them to the keyboard of the guest.
--
-- The files and the code they are about:
--   Args            daemon/src/main.cpp, `Args` and `parse_args`
--   KeySet          the `std::unordered_set<uint8_t>` of main.cpp: a list in iteration order
--   Report          daemon/include/hid_report.h, and the loop that picks six keys
--   Wire, Snapshot  main.cpp, `be_u32`, `be_u64` and `parse_snapshot` before the lock;
--                   client/quic_snapshots.py, `build_snapshot`
--   Keyboard        main.cpp, the state that `state_mu` guards (`pressed`, `modifiers`, `keymeta`) and
--                   each critical section as one function: `reconcile`, `expire`, `udp_edge`,
--                   `mark_up`, `quic_edge`
--   HidSocket       main.cpp, `class HidSocket`
--   Udp             main.cpp, the tokenizer and the reading of a datagram in the UDP loop;
--                   client/hybrid_run.py, `build_edge_msg`
--   Stream, MsQuic  daemon/src/msquic_server.cpp: the framing of `stream_cb`, and `start`, `stop` and
--                   the callbacks
--   Daemon          main.cpp, the handlers: UDP loop, snapshot and edge callbacks, monitor round, and
--                   the loops around them;
--                   client/baselines_quic_only.py, the edge record
--   Device          qemu/dev-hid.c, the socket backend of usb-kbd
--   Usb             qemu/dev-hid.c, the USB side of its devices: the descriptors (Interfaces, Devices,
--                   ReportDescriptors), the guest's requests (Requests), realize, unrealize and
--                   migration (Lifecycle), the types that are registered (Types); Items reads
--                   report descriptors as the HID standard says
--   Threads         main.cpp, the interleaving of its threads: the locked sections, the picking of a
--                   report, and the call of `send_report` with it
--   Protobuf        daemon/include/remoter.pb.cc, the messages of daemon/proto/remoter.proto: clearing,
--                   merging, copying, measuring, writing; Parsing has `_InternalParse`
--   EndToEnd        the reports of main.cpp as dev-hid.c receives them, up to the guest's GET_REPORT;
--                   Typing goes from the workload of client/hybrid_run.py to the guest's keyboard
--   Client          client/hybrid_run.py: the workload, its state machine, what is sent of it, and the
--                   outboxes;
--                   Scripts has the loops of client/baselines_quic_only.py, client/client.py and
--                   client/quic_snapshots.py; Held says what presses and releases mean, apart from code
--   Scripts         scripts/run_report_experiments.py, what it reads out of the daemon's log, with the
--                   lines as main.cpp prints them (Log); scripts/parse_evtest.py (Evtest); Python's
--                   `re` and `splitlines` as far as they are used, on ASCII text (Regex)
--   Common          Boolean tests, lists measured by native numbers, words, bits, signed integers
--   Examples        concrete states at which the theorems are applied
--
-- What the outside answers is an argument: the operating system through `Kernel`, MsQuic through
-- `Answers`, the protobuf library through `WireFormat` and `WireReader`,
-- how a stream prints a double through `Doubles`, QEMU's HID and descriptor layers through
-- `HidLayer` and `HidLife`, the macros of the USB standard through `UsbNumbers`, clock readings
-- and received bytes through the events. Outputs are lists: system calls, lines of std::cerr
-- that are printed whatever the verbosity, messages to a callback. Machine words wrap as in the
-- source (`sub64`, `add64`, `% 256`); an exception of `std::stoi` is `none`.
--
-- Loops run on fuel in four places: `Stream.deliver_loop` (as many rounds as there are bytes,
-- each takes at least one), `Udp.tokens` and `Protobuf.Parsing.parse_loop` (the same), and
-- `Udp.Numbers.put_digits` (one more than the number); so the fuel never runs out before the loop is over.
--
-- In Daemon a handler is one step. In Threads it is three, between which other threads go on:
-- its locked section, the locked picking of the keys, and the call of `send_report`, which is one move
-- there, whatever comes of it on the socket.
-- HidSocket/Race cuts the sending at its uses of `fd_`, for two threads, with moves that the
-- memory model of C++ does not promise. The counters are used without a lock: that is not
-- modelled. Ages are compared exactly where the source divides by 1e6 as a double first. Left
-- out: lines printed only in the verbose mode, signals, thread start and join, QUIC settings and
-- addresses, reflection and arenas of the generated protobuf code, the options and
-- connections of the Python clients, and of the scripts the percentiles and other
-- floating-point statistics and the processes that they start.
mod Common
pub mod Args
pub mod KeySet
pub mod Report
pub mod Wire
pub mod Snapshot
pub mod Keyboard
pub mod HidSocket
pub mod Stream
pub mod Udp
pub mod Daemon
pub mod Device
pub mod EndToEnd
pub mod MsQuic
pub mod Protobuf
pub mod Usb
pub mod Threads
pub mod Client
pub mod Scripts
pub mod Examples
