-- ===== src/Protocol/Parser.antt =====
-- The parsers of packets (ckb-gdb-remote-protocol/src/lib.rs), written over nom's combinators:
-- `Numbers` has numbers, bytes and thread ids, `Features` and `Queries` the packets that ask,
-- `Files` the ones for host files, `Points` those for breakpoints and watchpoints, `Commands` the
-- function `command`, and `Packets` the frame around a command.
pub mod Numbers
pub mod Features
pub mod Queries
pub mod Files
pub mod Points
pub mod Commands
pub mod Packets
