-- ===== src/Sock.antt =====
-- src/bsdsocket/sb_socket.c with the socket object of sb_base.h: ownership, wake-ups, readiness and
-- the lwIP callbacks, in the modules below. A socket, an opener (a `struct SocketBase`) and a buffer
-- are their fields; a pointer to a socket or an opener is its number.
pub mod State
pub mod Owners
pub mod Wake
pub mod Recv
pub mod Callbacks
pub mod Accept
mod Tests
