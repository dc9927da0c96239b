-- ===== src/NetCtl.antt =====
-- src/bsdsocket/sb_netctl.c with include/netstack_ctl.h: the control port of the stack task. The
-- context holds the queue of the port, the two parked messages and the replies sent so far, oldest
-- first. What the interface bring-up, lwIP and the clock answer during one call is an `Env`.
pub mod Message
pub mod Handle
pub mod Port
pub mod Outcome
mod Tests
