-- ===== src/Lib.antt =====
-- A verification of the C and C++ programs of net-file-transfer: a server (c/file_serv.c) that
-- receives files and a client (c/file_client.c) that sends one, over libevent, and a second pair
-- (cpp/server.cc, cpp/client.cc) over boost::asio.
--
-- The protocol under c. The server drives it: on a new connection `listen_cb` sends the request
-- HEAD; the client answers with a `struct fileinfo` (name, size, MD5 digest); the server then
-- sends DATA; the client answers with the bytes of the file; when as many bytes wait as the header
-- said, the server writes the file and sends FIN; the client frees its buffer. A request is the
-- four bytes of a C enum, a header is the 280 bytes of the structure in memory.
--
-- The protocol under cpp. The client sends an array of 128 bytes with the length of the file's base
-- name in decimal, two NULs and the name, then the bytes of the file, and shuts down its side; the
-- server writes what comes behind the array to the file of that name.
--
-- The files.
-- - Base: names from the libraries, lists and Boolean tests over the native numbers, and
--   `Outcome`, what a C computation comes to: a value, undefined behaviour (`fault`), a failed
--   `assert` (`aborted`), or the end of the model's fuel.
-- - Memory: the C library's functions on character arrays, and integers in memory. Machine: x86-64,
--   little endian. An array is the list of its bytes.
-- - LibEvent and OpenSsl: what is outside the repository, as records of operations over unknown
--   types (`LibEvent`, `Md5`) with the documented behaviour as laws (`IsLibEvent`, `IsMd5`), each
--   with an instance that meets the laws.
-- - Stdio: files, the room on the disk, `malloc` and threads, as a `World` that is passed along.
--   Log: the calls of the vendored logger c/simplog.c, as a list.
-- - FileInfo: c/fileinfo.h and c/fileinfo.c (`encode`, `decode`, `calc_md5`, `is_data_correct`).
-- - Interface: c/interface.h and c/interface.c (`RequestInfo` as `request_info`, `readfile`,
--   `writefile`).
-- - Config: c/config.h and c/config.c (`parse_commandline`, over the results of `getopt`), and in
--   Config.Choice what a command line stands for, apart from the arrays.
-- - Server: the callbacks of c/file_serv.c, with Server.Protocol, their event loop as a state
--   machine; Client: the callbacks of c/file_client.c, with Client.Exchange, what it answers to any
--   requests, and Client.Steps, its event loop as a state machine; Main: both `main` functions, with
--   the event loop as an argument.
-- - Transfer: both sides and the connection. A state is the server, the client, their bufferevents
--   and what stands on the server's stack; a step delivers some bytes in one direction and makes
--   the read callback, or lets another call overwrite the stack. Transfer.Programs is both programs
--   from their command lines on, Transfer.Visits one server and many clients, one after the other,
--   and Transfer.Order these in another order.
-- - Echo: c/echo_serv.c. FileTest: c/filetest.c.
-- - Asio: boost::asio, as the other records of what is outside the repository (`Asio`, `IsAsio`).
-- - Cpp: cpp/fileinfo.h and cpp/fileinfo.cc are Cpp.Header; the classes `AsyncTcpConnection` and
--   `AsyncTcpServer` of cpp/server.cc are Cpp.Server, the class `AsyncTcpClient` of cpp/client.cc is
--   Cpp.Client, each with its handlers under their names and its `main`; Cpp.Session is both. The
--   modules Cpp.Server.Handlers, Cpp.Server.Safe and Cpp.Client.Safe are about networks that do
--   anything.
-- - ProtobufC: protobuf-c (`ProtobufC`, `IsProtobufC`). FileHead: c/filehead.pb-c.h and
--   c/filehead.pb-c.c, with `file_info__pack` as `file_info_pack` and so on.
-- - Examples: small systems at which the theorems are applied.
--
-- Choices.
-- - Global variables are fields of `Server` and `Client`. The constructors `init`, `head`,
--   `file_data` and `fin` are INIT, HEAD, DATA and FIN. The client's `Status` is a number, since it
--   is read off the wire; the server only assigns the four values to its own.
-- - The server's `read_cb` reads its local `finfo` uninitialised in the state DATA. What stands
--   there is an argument of the callback and part of its result.
-- - A thread is run to its end where it is created, since its creator waits for it at once.
-- - The loops of `readfile` and `writefile` run on fuel, one more than the bytes there are, which is
--   enough since each round takes a byte at least; that they end is part of the theorems.
--   `is_data_correct` runs over the outcomes of `malloc`.
-- - Under cpp a handler gives back the object and the operation that it starts (`Pending`), and
--   `service_run` makes one operation after the other and calls its handler, on fuel: every round
--   sends, receives or tries something, so the bytes and the endpoints bound the rounds: fuel of a
--   few more is enough (Cpp.Client.Ends, Cpp.Server.Ends).
-- - `World.space` is the room that a disk still has. Emptying a file that was there gives none back.
--   stdio keeps bytes in a buffer, so `fwrite` may accept bytes that do not fit and only `fclose`,
--   whose result no program looks at, fails: what `fwrite` returns for bytes that do not fit is an
--   unknown function, `World.fwrite_short`. Stdio.Counts has what it counts in all.
-- - A bufferevent knows the callbacks that are registered on it (`bufferevent_getcb`), their `ctx`,
--   and whether reading is enabled. Transfer.connect starts from the bufferevents that the client's
--   `main` and the server's `listen_cb` have set up; that they have registered the callbacks which
--   Transfer.step makes is `connect-IsWatched` of Transfer.Opening. `Loops` of Transfer.Programs
--   asks an event loop to make them only if they are registered.
-- - The option -f is stored as `basename` leaves it, without its trailing slashes.
-- - `handle_connect` of cpp/client.cc sends a local array that is gone by then. What stood in it
--   before, and what is sent, given what it held, are an argument (`Frame`).
-- - `size_t` counts modulo 2 ^ 64, and the port is kept modulo 2 ^ 16.
--
-- Not modelled: the inside of c/simplog.c, a copy of another project's logger; memory that is
-- never given back; the printing of usage texts and of the trial program's results under c;
-- exceptions of
-- boost::asio other than the acceptor's; cpp/1.cc, an unfinished class that does not compile; the
-- JavaScript and Go variants under cpp, go and go-update.
pub mod Base
pub mod Memory
pub mod LibEvent
pub mod OpenSsl
pub mod Asio
pub mod ProtobufC
pub mod Log
pub mod FileInfo
pub mod Stdio
pub mod Interface
pub mod Config
pub mod Server
pub mod Client
pub mod Main
pub mod Transfer
pub mod Echo
pub mod Cpp
pub mod FileHead
pub mod FileTest
pub mod Examples
