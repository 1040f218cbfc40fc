-- ===== src/Protocol.antt =====
-- The GDB remote serial protocol (ckb-gdb-remote-protocol/src/lib.rs): `Types` has the commands
-- and what a handler answers with, `Writer` writes the answers, `Handler` is the trait of the
-- servers and `Dispatch` what a command makes of a handler.
pub mod Types
pub mod Nom
pub mod Parser
pub mod Writer
pub mod Handler
pub mod Dispatch
pub mod Server
