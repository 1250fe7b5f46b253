-- ===== src/Lib.antt =====
-- NyanSD, a service discovery protocol over UDP broadcasts: a model of its library, of the
-- programs around it and of the client for microcontrollers.
--
-- A client calls `NyanSD::sendQuery`, which broadcasts a message of queries; each server's thread
-- `NyanSD::clientHandler` answers every query with the services of its registry that match; the
-- client parses the responses. Integers travel lowest byte first, which `ByteBauble` sees to.
--
-- Base: lists, byte strings and Boolean tests over the native numbers.
-- ByteBauble: src/bytebauble.h and .cpp. `to_global`, `to_host`; the byte order of the machine
--   is an argument `machine` of all that depends on it. ByteBauble/Order: what they do to bytes.
--   ByteBauble/Packed: `readPackedInt` and `writePackedInt`, which nothing calls.
-- Nyansd: src/nyansd.h, the types. Its children are the parts of src/nyansd.cpp:
--   Wire: casted reads and writes at an index of a buffer. Response: the end of `sendQuery`, from
--   the received buffers to the vector of services; Response/Refused and Response/Truncated: what
--   ends that early. SendQuery: the rest of `sendQuery`. Handler: `clientHandler` from a datagram
--   to the responses; Handler/Shared: the same while other threads call `addService`;
--   Handler/Thread: the whole of it, from `bind` on, over the datagrams. Handler/Reads: what it
--   reads of its buffer; Handler/TooLong: a message that its buffer cuts. LocalIp:
--   `remoteToLocalIP`. Ipv4: `ipv4_uintToString` and `ipv4_stringToUint`. Registry: `addService`.
--   Lifecycle: `startListener`, `stopListener` and the thread, as interleaved steps. Discovery: a
--   query of one machine answered by others, over one interface and over several;
--   Discovery/Threads: by the threads of servers that also serve others.
-- Client: client/nyansd_client.cpp. Server: server/nyansd_server.cpp, the services it registers.
--   Daemon: daemon/nyansd_daemon.cpp, the services it reads; Daemon/WindowsService: the functions
--   of that file where _WIN32 is defined. Browse: browse/nyansd_browse.cpp.
-- Process: what `main` of server/nyansd_server.cpp and of daemon/nyansd_daemon.cpp have in common:
--   from `std::signal` on, as steps interleaved with those of the listener.
-- Reference: the reference client and the reference server on one network; Reference/Network: the
--   server found at its address on it.
-- Arduino: arduino/client/nyansd_client.h and .cpp, on a little endian machine; the texts of a
--   service are blocks of memory whose size its caller is not told.
-- Tests: runs on concrete inputs.
--
-- Names are the source's in this language's spelling. A std::string is its list of bytes, an
-- integer of `k` bits a number below 2 ^ k with its wrap-around written out. A read outside a
-- buffer is a result of its own (`fault`, `crash`, `crashed`), as are an exception that leaves a
-- function and std::terminate. `unsigned long` has 64 bits, and 32 in Daemon/WindowsService. The
-- receive calls fill buffers of 2048 bytes and drop what is longer. The static members of the
-- class are arguments and results.
--
-- Fuel: the loop `while (index < n)` over a buffer has as much as the datagram has bytes, since
-- each round moves on by nine at least; std::to_string of a number has the number itself, which
-- has no more digits than that. All other loops count down or run along a list.
--
-- Parameters stand for what is not part of the repository's own code: the interfaces, addresses and
-- datagrams that Poco reports, the host's name, the answers of daemon/INIReader.h and of
-- browse/sarge.cpp, what the calls of the Windows API return and the control codes that arrive, and
-- `String(char)` and `IpAddress::toString` of the microcontroller's framework; which calls of Poco
-- throw is one too. Of the standard library what is used is written out: find, substr, std::stoul,
-- std::to_string.
--
-- Not modelled: the output on streams but for the lines on services, time (the 500 ms and 250 ms
-- waits are choices of the network), a control code of Windows during a report of the service, a
-- failed allocation, and the test application under arduino/test. daemon/INIReader.h and
-- browse/sarge.h and .cpp are copies of other projects' libraries.
pub mod Base
pub mod ByteBauble
pub mod Nyansd
pub mod Client
pub mod Daemon
pub mod Server
pub mod Reference
pub mod Browse
pub mod Process
pub mod Arduino
pub mod Tests
