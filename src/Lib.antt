-- ===== src/Lib.antt =====
-- Verification of lwip-amiga, a TCP/IP stack for AmigaOS: bsdsocket.library over lwIP, with the
-- backends that connect network drivers to lwIP. All the code named here is C.
--
-- The program. bsdsocket.library (src/bsdsocket) gives each program that opens it a base of its own,
-- with a descriptor table; a root base holds what they share. The sockets are shared objects, held by
-- descriptors of several bases; lwIP's callbacks (sb_socket.c) fill their receive queues and signal the
-- tasks of their owners. The stack task serves a control port (sb_netctl.c), by which commands attach
-- and remove the one network interface. The backends (port/amiga) take frames from a driver, coalesce
-- TCP segments (rx_gro.c) and hand them to lwIP. The log facility (sb_log.c) keeps the lines of the
-- boot for a viewer that comes later.
--
-- The files and the code they model:
--   Base, Base/*      shared names, Boolean tests, lists, and the arithmetic of shifts and masks.
--   Errno, Errno/*    src/bsdsocket/sb_errno.c: an opener's error codes, the cell of one, two or four
--                     bytes that SetErrnoPtr registers in the caller's memory, and the texts.
--   Inet, Inet/*      src/bsdsocket/sb_inet.c: the classful parts of addresses, In_LocalAddr,
--                     In_CanForward, and the parser inet_network.
--   NetCtl, NetCtl/*  src/bsdsocket/sb_netctl.c and include/netstack_ctl.h: the messages, every
--                     handler, the service loop, the tick and the withdrawal of the control port.
--                     A message is answered by an entry at the end of a list of replies.
--   Sock, Sock/*      src/bsdsocket/sb_socket.c and section 2 of sb_base.h: the owner slots, the
--                     wake-ups, the readiness tests, and lwIP's callbacks on a socket, with the
--                     urgent byte of TCP cut out of the stream. Sock/Accept: a store of sockets and
--                     descriptor tables, the accept queue, and accept of src/bsdsocket/sb_api.c.
--   Io, Io/*          src/bsdsocket/sb_io.c: the stream calls sb_tcp_recv (Io/Drain, Io/Read),
--                     sb_tcp_send (Io/Send), recvmsg (Io/Calls) and sendmsg (Io/Sendmsg), and the
--                     receiving of datagrams (Io/Dgram). The places where such a call opens the core lock are
--                     modelled: a schedule says which of lwIP's callbacks come there, and what each
--                     wait returns.
--   Pass, Pass/*      src/bsdsocket/sb_sockpass.c, and CloseSocket of sb_api.c: descriptors, the parking
--                     lot, and the count of references to a socket (Pass/Count says what is counted).
--   Rdns, Rdns/*      src/bsdsocket/sb_rdns.c: the query of a reverse lookup, and the parser of replies.
--   Slab, Slab/*      port/amiga/netstack_mem.c: the slabs of both kinds of memory, the blocks of
--                     their own, allocation, release and the detaching of a device.
--   Gro, Gro/*        port/amiga/rx_gro.c, port/amiga/include/rx_gro.h and inet_frame.h: the
--                     classification of a frame and the engine that merges TCP segments.
--   Log, Log/*        src/bsdsocket/sb_log.c: the ring, the hook, the expansion of %m, vsyslog.
--   Tx, Tx/*          port/amiga/netdev_tx.c and netif_base.c: the frames that wait for the driver (Tx),
--                     linkoutput and completion (Tx/Output), the admission of datagrams (Tx/Admit), and the
--                     cache of link headers (Tx/Headers).
--
-- How the code is rendered. Stateful C is a function from a state to a state, with what it sends
-- (signals, replies, packets, hook calls) in a list, oldest first. A pointer that may be NULL is an
-- Option. Numbers are natural numbers, and the wrap-around of ULONG, UWORD and UBYTE is written out
-- where a value can reach it. Texts are lists of characters without the NUL.
--
-- What is a parameter: lwIP (its answers about interfaces and pcbs, the fields that its header macros
-- read, the removal of a pbuf's header), Exec's messages and signals, the memory of the caller, and
-- the formatter of log lines, the pools from which the allocator takes its arenas and blocks, and
-- the driver's answers of what room it has.
--
-- Fuel. The folding of a checksum's carries runs on two units: a sum of three halfwords is below
-- 3 * 2 ^ 16, so that one folding leaves at most 2 ^ 16 + 1 and a second at most a halfword. The drain
-- loop of a read has a unit for each pbuf that is queued or may come while it copies, and one more:
-- each turn uses up a pbuf or ends the loop. The chunks of a window credit have the credit itself, as
-- each is at least a byte. The skipping of a name in a packet has the length of the packet, as each turn
-- goes forward, and the loop that reads a name has the 128 turns of its guard. The loop for a
-- unique id has a unit for each parked entry and one more. The reclaim loop has
-- a unit for each frame that is staged. All other loops are recursion on a list (for the waits and the turns of a
-- send, their schedule), or on the count that the loop in the code runs to.
--
-- What is not modelled: the sending of datagrams, connect, WaitSelect and the resolver (but for the
-- packets of the reverse lookup), socket options, the configuration files, the driver backends but for
-- the engine and the transmit queues, and the commands. They are input and output for the most part, or wait for lwIP. Of the stream calls,
-- the deadlines of the waits are left to the schedule, the performance counters and the hint
-- `txSinceBlock` by which a driver is told of a waiting task are left out.
pub mod Base
pub mod Errno
pub mod Gro
pub mod Inet
pub mod Io
pub mod Log
pub mod NetCtl
pub mod Pass
pub mod Rdns
pub mod Slab
pub mod Sock
pub mod Tx
