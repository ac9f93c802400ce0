-- ===== src/Lib.antt =====
-- Models of the programs of the course repository NTU_SP17Fall, and theorems about them: the
-- chained hash table and the port register of the file synchronisation service (MP5), the handlers
-- of its server and their thread pool, its client, and the client and server of its earlier
-- version (MP2), the chat server that matches clients through filter processes (MP4), the boss and
-- the miners of a distributed search (MP3), the version control of file lists (MP1), and the
-- character count (MP0).
--
-- Base.antt and its children hold what the parts share: Boolean tests, lists and integers over the
-- native numbers, and texts, which are lists of bytes.
--
-- Hash.antt models MP5/src/hash.c function by function: a chain of nodes is a list, a null pointer
-- is `none` or the empty list, and a remainder by zero or an access outside the array is `none`.
-- The answers of `malloc` are arguments. Hash/Iterator.antt has the iterator, Hash/ByPath.antt the
-- search by path, Hash/Bucket.antt the lemmas of one chain and Hash/Laws.antt the valid tables.
--
-- Ports.antt models MP5/src/port_register.c over that table: booking, asking, the requests of the
-- web, the check of the reserved ports and their cleaning. Whether a port can be bound, and
-- `htonl`, are arguments. The code of a name is computed in 32 bits with the wrap-around written
-- out. Ports/Reserve.antt and Ports/Book.antt hold the theorems, and Ports/Clean.antt what the
-- cleaning of a bucket loses.
--
-- Chat.antt models MP4/common.h and the globals of MP4/server_main.cpp, Chat/Pool.antt the
-- processes, Chat/Leave.antt `remove_try_match`, Chat/Message.antt the messages of a client,
-- Chat/Judge.antt the end of a search, and Chat/Tick.antt the events and a whole round of `main`.
-- The parser of json.hpp and the compiler of the filters are arguments. An access outside a
-- vector, a failed `assert` and an exception are `none`. The fuel of `new_msg` is the length of
-- the buffer and one, since each round takes a line out. Chat/Invariant.antt, Chat/Round.antt,
-- Chat/Removal.antt and Chat/Lines.antt hold the theorems.
--
-- Chat/Child.antt models MP4/process.cpp, one job of a filter process, whose filters the dynamic
-- linker gives.
--
-- Loser.antt and its children model MP1/loser.cpp: Loser/Maps.antt `std::map`, Loser/Order.antt
-- the order of `std::string` and sorting, Loser/Classify.antt the comparison with the record,
-- Loser/Commit.antt the record that is read and the text that is written, Loser/Commands.antt the
-- aliases and the choice of the action, Loser/Log.antt the printing of the last commits. The
-- digest of a file is an argument. Loser/Reports.antt, Loser/Saved.antt, Loser/Reading.antt and
-- Loser/RoundTrip.antt hold the theorems.
--
-- Server.antt models the handlers of MP5/src/csiebox_server.c: a handler gets what the client sent
-- and what the operating system answered, and gives the new server with the calls that it makes.
-- Server/Account.antt has the account file, the login and the dispatch of requests,
-- Server/Receive.antt the loop that receives a file, whose fuel is its length and one, since each
-- round receives a byte at least, Server/Run.antt the accept loop and what the two steps of a
-- thread make of the connections that it watches, and Server/Guard.antt the theorems on the
-- handlers.
--
-- Config.antt models `parse_arg` of the server and of the client, and Config/RoundTrip.antt has
-- its theorem. The fuel is the length of the file and one, since each round reads a byte at least.
--
-- Client.antt models MP5/src/csiebox_client.c as steps of a small monad, whose state is the client
-- with what it sent and the answers that wait; `none` is a fault. It has `sync_file` and its
-- parts, Client/Paths.antt `convert_to_relative_path`, Client/Walk.antt the first synchronisation
-- over a tree of directories, Client/Events.antt the events of inotify, on fuel, and
-- Client/Session.antt the start, the login and the run. Client/Removal.antt has a theorem on the
-- events; Client/Exchange.antt, Client/Calls.antt and Client/Upload.antt put the client together
-- with the handlers of Server.antt.
--
-- Threads.antt models MP5/src/thread.c: the moves of the threads and the calls of `run_task`,
-- which a lock makes one step, in any order. Threads/Safety.antt has the theorems.
--
-- Mirror.antt models the handlers of MP2/src/csiebox_server.c, which give the calls that they
-- make; Mirror/Protocol.antt has the messages of MP2/include/csiebox_common.h, each request with
-- the bytes that follow it on the connection, and Mirror/Session.antt the configuration, the
-- start, the login and the loops over requests and connections. A request is handed over whole:
-- bytes of it that its handler does not read are not taken for the next request. Mirror/Paths.antt
-- and Mirror/Guard.antt have what a handler does for one request, and Mirror/Replay.antt for many.
--
-- Watcher.antt models MP2/src/csiebox_client.c: its arrays are lists with the bounds of the
-- source, past which a write is `none`. Watcher/Walk.antt has the first walk over a tree of
-- directories, Watcher/Events.antt the events of inotify and Watcher/Session.antt the start, the
-- login and the run. Watcher/Steps.antt, Watcher/Sending.antt and Watcher/After.antt take the walk
-- apart for Watcher/Tables.antt and Watcher/Longest.antt; Watcher/Mirrored.antt says what the walk
-- is to bring about on the server, Watcher/Carried.antt, Watcher/Handled.antt and
-- Watcher/Copy.antt put the client together with the handlers of Mirror.antt, Watcher/Mother.antt,
-- Watcher/Live.antt, Watcher/Changes.antt and Watcher/Attrib.antt the events, and
-- Watcher/Online.antt starts at the login. The disk of the server answers the same during a walk
-- or an event: each path is asked about once before its calls, and as the source of a link behind
-- them.
--
-- CharCount.antt models MP0/char_count.c, and Boss.antt of MP3/server/boss.cpp the division of the
-- search, the file that is read and the finds that are taken over. Boss/Dump.antt has the commands
-- of the terminal and the dumps, and Boss/Sound.antt and Boss/Written.antt what the dumps write
-- over any rounds.
--
-- Miner.antt models MP3/client/miner.cpp, where a context of MD5 is any type with an update and a
-- digest. Miner/Queue.antt and Miner/Search.antt have what the queue brings up, Miner/System.antt
-- the boss and its miners with the pipes between them, as moves in any order, and
-- Miner/System/Pipes.antt, Miner/System/Moves.antt and Miner/System/Sound.antt its invariant.
--
-- Tests.antt and its children run the models on concrete inputs and apply each theorem to one.
--
-- Not modelled: sockets, pipes, signals, `fork` and files themselves, the third-party json.hpp,
-- the table and the register of MP2, which are earlier copies of those of MP5, the web application
-- under MP5/web, and the daemon and the signals of the server of MP5.
pub mod Base
pub mod Hash
pub mod Chat
pub mod Ports
pub mod Loser
pub mod Threads
pub mod Server
pub mod CharCount
pub mod Boss
pub mod Miner
pub mod Config
pub mod Client
pub mod Mirror
pub mod Watcher
pub mod Tests
