-- ===== src/Lib.antt =====
-- Moe.UV is a C++ library over libuv: handles, sockets, name resolution and the environment.
--
-- An EndPoint (src/EndPoint.cpp) is an IPv4 or IPv6 address with a port, read from and printed as
-- text. An AsyncHandle (src/AsyncHandle.cpp) owns a libuv handle. Stream (src/Stream.cpp), its kinds
-- TcpSocket and Pipe, UdpSocket, and the small handles (Timer, AsyncNotifier, Signal, Poll, FsEvent,
-- EventHandle and the children of Process) are AsyncHandles that pass libuv's callbacks on to the
-- user's, by the macros of src/UV.inl. RunLoop (src/RunLoop.cpp) is the loop of a thread, which closes
-- all handles at its end. ThreadPool (src/ThreadPool.cpp) has work done on other threads. Dns
-- (src/Dns.cpp) turns address lists into EndPoints, and Environment (src/Environment.cpp) asks the
-- operating system through libuv.
--
-- The files:
--   Base        shared names, Boolean tests, lists, signed integers and text literals
--   Outcome     the exceptions that the library throws
--   Core        what is used of Moe.Core, a submodule whose files are not in the repository
--   Ipv4        ParseIpv4Number and ParseIpv4: `parse_ipv4_number`, `parse_ipv4`
--   Ipv6        ParseIpv6: `parse_ipv6`; Accepts and Characters are about the characters of a text,
--               RoundTrip about texts that GetAddress prints
--   Text        EndPoint::GetAddress: `ipv4_text`, `ipv6_text`
--     Groups      what stands between the brackets of an IPv6 address
--   EndPoint    the storage, constructors, accessors and comparison, each under its own name
--   Uv          libuv as a parameter, the state that the code shares, and the macros
--   Handle      AsyncHandle: `construct`, `move_construct`, `move_assign`, `destruct`, `close`
--     System      the operations of any number of objects, and libuv's reports, as steps
--     Ownership   the invariant of objects and handles, kept by each step
--     Lifecycle   the life of one handle, as an abstract specification of the steps
--     Create      what the classes share: `create_handle`, `stop_handle`, `pass_on`
--     Members     the members of objects, the user's functions, and the moves of both
--   Stream      the handlers `on_uv_…` and the operations
--   UdpSocket   the same for datagrams
--   TcpSocket   the same for TCP, over a stream
--   Pipe        the same for local sockets
--   Timer, AsyncNotifier, Signal, Poll, FsEvent, EventHandle, Process
--               each class with its own operations and handlers
--     Members     in each of these and in the streams and sockets: the setters (`set_on_…`), the
--                 moves, and the calls of the callbacks (`dispatch`)
--   Failures, Callbacks
--               theorems on all of these classes together
--   Keeps       the classes over AsyncHandle: their operations and handlers take only its steps
--     Program     operations on any objects, in any order
--     Events      the same with libuv's callbacks and what the user's callbacks do in them
--     Owners      the owner of an open handle; Bound a socket that is made and bound at once
--     Shutdown    ForceCloseAllHandle in runs
--     Runs        the same with making objects, accepting connections and the reports of libuv
--   RunLoop     `create`, `force_close_all_handle`, `destruct`
--   ThreadPool  QueueWork as two steps, both callbacks, and their interleavings
--   Dns         the callbacks of getaddrinfo and getnameinfo
--     Requests    Resolve, ResolveAll and ReverseResolve, and the replies to them in any order
--   Environment text queries, environment variables, lists of interfaces and processors, usage, and numbers
--
-- Bytes, addresses and machine words are native numbers, with wrap-around written out. Status codes are
-- integers. A text is the list of its bytes. The state of handles and objects is the record `World`;
-- an operation that may throw returns an `Outcome` beside the new state. User callbacks are an
-- argument, `react`, that may do anything to the state and may throw. libuv and Moe.Core are records
-- of functions, with what the code relies on as hypotheses (`IsLibuv`, `IsCalls`, `IsLoopApi`, `Progress`,
-- `IsMoeCore`, `Answers`). What several operations or threads do in any order is a step relation, with
-- the states that it reaches; there the addresses of handles and requests are names, so the pool does
-- not give one out twice.
--
-- ParseIpv6 takes as fuel one more than the length of the text, since every round of its main loop but
-- the last reads a byte, and five for an embedded IPv4 address, which has at most four parts. The loop
-- of RunLoop's destructor takes fuel that its theorem bounds by the timeout of 5000 milliseconds.
--
-- Not modelled: libuv itself (3rd/libuv), Moe.Core, the object pool (a flag says whether there is a run
-- loop, and the pool's answer is an argument), builds with assertions, and the buffers of reads
-- (OnUVAllocBuffer of src/Stream.cpp and src/UdpSocket.cpp, and their release in the read handlers).
-- In the theorems on runs a user's function calls operations on objects that exist: it makes no
-- objects and accepts no connections, which only the program between libuv's reports does. The
-- callbacks' members are left to Handle/Members.
mod Base
pub mod Outcome
pub mod Core
pub mod Ipv4
pub mod Text
pub mod Ipv6
pub mod EndPoint
pub mod Uv
pub mod Handle
pub mod Stream
pub mod UdpSocket
pub mod TcpSocket
pub mod EventHandle
pub mod Process
pub mod Pipe
pub mod Timer
pub mod AsyncNotifier
pub mod Signal
pub mod Poll
pub mod FsEvent
pub mod Keeps
pub mod Failures
pub mod Callbacks
pub mod RunLoop
pub mod ThreadPool
pub mod Dns
pub mod Environment
