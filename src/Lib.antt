-- ===== src/Lib.antt =====
-- The control plane of MACSAD, a protocol-independent software switch, and the part of its data plane
-- that is in the repository.
--
-- A controller program (shared/ctrl_plane/mac_*.c) builds control messages that fill the tables of
-- the switch and queues them; its output thread writes them to a stream socket. On the switch, the
-- backend reads each message into a memory cell, queues the cell, and a second thread decodes it in
-- place and calls the switch back with pointers into it. Digests go the other way. The backend's loops
-- run on a pool of threads. The switch keeps each table in two replicas on each socket, and its workers
-- receive packets in bursts, have the generated program look up in the tables, and send them on.
--
-- All paths below are under src/hardware_dep/.
--   Prelude      library names, Boolean tests, lists and integers on native numbers
--   Memory       C memory as a function from addresses to bytes, without bounds, and commands on it that
--                may fault (`none`, an access through NULL); byte order; `strcpy` and `memcpy`; Confined
--                is which bytes a command accesses
--   Messages     shared/ctrl_plane/messages.{h,c}: the layout of the structs (Layout), building
--                (create_p4_*, add_p4_*) and converting (Netconv) in a buffer
--   Handlers     shared/ctrl_plane/handlers.{h,c}: decoding on the switch; Accesses and Confined are the
--                bytes that it accesses
--   Fifo         shared/ctrl_plane/fifo.{h,c}: the bounded queue between threads; Queue is its
--                contract and Refine the refinement
--   Sockets      shared/ctrl_plane/sock_helpers.c: whole messages over `read` and `write`
--   Controller   shared/ctrl_plane/controller.c: the controller's queues and `send_p4_msg`
--   Backend      shared/ctrl_plane/ctrl_plane_backend.c, the pool of memory cells and the digests, and
--                `generate_digest` of odp/data_plane/odp_primitives.c
--   Ternary      shared/data_plane/ternary_naive.c, the table of the ternary matches
--   Threadpool   shared/ctrl_plane/threadpool.c: Queue is its list of works, Refine the two ends of
--                it, Workers the threads as a step relation, Order, Stuck and Alone its runs, and
--                Create its errors
--   Tables       odp/data_plane/odp_tables.c; Sockets is the replicas on each socket, with the changes
--                of odp/data_plane/odp_lib.c (CHANGE_TABLE, *_promote); Replicas, Lookup, Create and
--                Init are what a change does, what a lookup finds, what is created, and all of it
--                together
--   Workers      odp/data_plane/odp_lib.c: macs_set_worker_afinity and macs_set_queue_afinity; Slots and
--                Shares are its case of more interfaces than workers, Staff the other, Assigned both
--   Forward      odp/main_odp.c: a worker's buffers and bursts (Burst), broadcasting (Packet), the end
--                of a round (Flush), what is received (Receive), a round and a run (Round), packets that go
--                back (Returned)
--   Vector       shared/data_plane/vector.c: Grow is appending, Set is vector_set and vector_get
--   Apps         shared/ctrl_plane/mac_*.c: the six controller programs
--   View         what the switch's callback can read through its pointers, as a value
--   Delivery     the programs' messages at the switch, per program
--   Examples     concrete inputs that meet the theorems' conditions
--
-- A struct is an offset into a buffer, with the offsets and paddings of the x86-64 ABI, on a
-- little-endian host. Cells are natural numbers; whatever a function finds in memory that it does not
-- write (its stack buffer, the memory of `malloc`, the uninitialised `struct p4_ctrl_msg`) is a
-- parameter, so a theorem holds whatever was there. Counters wrap at their C width. `int` in fifo.c is
-- its bit pattern. A socket is the list of pieces that arrive, or of the amounts that `write` takes.
-- The loop of `read_fix` runs on fuel, one more than the bytes wanted, and every round reads one at
-- least; the loop of `write_fix` is recursion on the answers of `write`. That of
-- `vector_set` runs on fuel, one more than the index, and each round adds an element.
-- Each function of fifo.c is one critical section, so threads are sequences of calls.
--
-- The threads of threadpool.c are one step per critical section, in any interleaving; a signal wakes a
-- blocked worker or is lost. `malloc` returns a work that is not in the queue. `pthread_cond_wait` is
-- called without the lock, which POSIX leaves undefined: a system says whether such a call releases
-- nothing (wait_releases_nothing), and if it does not, no step follows the call.
-- The calls that leave the repository are parameters: the OpenDataPlane library (packets, interfaces, the
-- hash and prefix tables of its helper library) and the program that is generated from P4. What the
-- hash tables of the helper library promise are hypotheses (IsMap for what they took, TakesFirst for a
-- new one), which a concrete table with a bound meets, and so is what `odp_pktout_send` returns (Answers).
--
-- The fault of the code is `none` in an outer option: an access through NULL or, in Forward, Vector and
-- Workers, out of the bounds of an array. In Tables it is also the end of the process by `exit`, and in
-- Backend.Create the overflow of the buffer's size. The buffers of messages and the memory cells of 2048
-- bytes have no bounds in the memory: theorems on the handlers name the bytes that they access.
--
-- Not modelled: sockets as the system has them, the text files that the controller programs read,
-- printing, statistics and freeing, the start of the switch in odp/data_plane/odp_lib.c (arguments,
-- interfaces, threads), which is calls of the OpenDataPlane library, the header operations of
-- odp/data_plane/odp_primitives.c, and the thread loops of controller.c and ctrl_plane_backend.c, which
-- pass messages between queues and sockets with the functions that are modelled.
pub mod Prelude
pub mod Memory
pub mod Messages
pub mod Handlers
pub mod Fifo
pub mod Controller
pub mod Backend
pub mod Apps
pub mod View
pub mod Threadpool
pub mod Forward
pub mod Tables
pub mod Workers
pub mod Vector
pub mod Sockets
pub mod Delivery
pub mod Ternary
pub mod Examples
