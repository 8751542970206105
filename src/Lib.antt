-- ===== src/Lib.antt =====
-- Models of AGSsock, a plug-in that gives scripts of the Adventure Game Studio engine the
-- sockets of the system.
--
-- The parts are those of src/. Buffer.antt has the queue of received text of a socket (`Buffer`
-- of src/Buffer.h and src/Buffer.cpp, and `recv_extract` of src/Socket.cpp); Errors.antt the
-- error codes (`AGSEnumerateError` of src/API.cpp); SockData.antt the data objects
-- (src/SockData.cpp); SockAddr.antt the addresses (src/SockAddr.cpp), with the texts that are
-- parsed in SockAddr/Text.antt and printed in SockAddr/Printing.antt; Api.antt the thread, the
-- beacon and the mutex (src/API.h and src/API.cpp), of which Api/Windows.antt has the forms for
-- Windows, as Errors/Windows.antt has its error codes; Objects.antt the socket objects
-- (src/Socket.h); Pool.antt the pool of sockets and Pool/Round.antt one round of its read loop
-- (src/Pool.cpp), and Pool/System.antt that loop beside the threads that use the pool, as a
-- step relation, and Pool/Locking.antt the same threads statement by statement. World.antt has
-- the state that the functions of scripts share, and Socket.antt these functions
-- (src/Socket.cpp): Socket/Receive.antt, Send.antt, Create.antt, Connect.antt, Fields.antt and
-- Saved.antt, with the pipe of the beacon in Blocking.antt and the references to addresses in
-- References.antt. A function keeps the name that it has in the source, without the prefix of
-- its class. Plugin.antt has the start of the plug-in (src/agsplugin.cpp), with the tables of
-- what it registers and declares to scripts, and the prototypes of the functions behind them.
-- Base.antt holds shared names and lemmas, and Socket/Samples.antt the system that the tests
-- run on.
--
-- A thread reads the sockets of the pool into their buffers, the script functions read the
-- buffers, and the beacon wakes the thread when the pool changes. What runs under the lock of
-- the pool is one step; Pool/Locking.antt and Api/Mutex.antt look into these steps, where
-- threads are interleaved statement by statement and a thread that locks the mutex may have to
-- wait. A pointer is a number; a function gives `none` where C++ leaves the behaviour
-- undefined. Socket/Stream.antt follows a stream from the read loop to the script, and
-- Socket/System.antt puts the calls of scripts into the step relation of the pool: there a call
-- is one step, and the locked parts of the loop come before it or after it.
--
-- Machine words are bit patterns, with their wrap-around written out. The system calls are a
-- parameter, the record `Os` of Api/Os.antt, the name service is `Resolver` of
-- SockAddr/Names.antt, and the keys of the engine are `Keys` of Socket/Saved.antt. The loop of
-- a reset has a round for each byte of the pipe, and the loop of a send one for each byte of
-- the text; each round of either takes one byte or more. A port is printed with five digits at
-- most.
--
-- Whether `pthread_create` succeeds is a part of that record, and a pool whose thread cannot be
-- created is modelled: what rests on threads that can be created says so. What `select` reports is
-- left open, so that no property of all runs rests on it; where a run is shown to exist, `select`
-- returns in it only for a beacon that has been signalled.
--
-- The calls of winsock2.h are the record `Winsock` of Api/Windows.antt, and handles of Windows
-- are numbers.
--
-- Not modelled: the box with the authors that src/agsplugin.cpp shows in the editor; the form
-- of the beacon of Windows that the source leaves out (IMPL_MODE 1); the sizes of addresses on
-- macOS; and src/agsplugin.h, which belongs to the engine. The versions of `inet_ntop` and
-- `inet_pton` for an old Windows, in SockAddr/Fallback.antt, have the layout of the addresses
-- of Linux. In Pool/Locking.antt a change of a socket by a script and the work of the network
-- come between the scopes, and not in the middle of one; the lock of `Thread::Data` is not an
-- object there, since what it guards is used under the lock of the pool alone. A thread that is
-- cancelled in a scope is left out.
pub mod Base
pub mod Buffer
pub mod Errors
pub mod SockData
pub mod SockAddr
pub mod Api
pub mod Objects
pub mod Pool
pub mod Plugin
pub mod World
pub mod Socket
