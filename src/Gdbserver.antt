-- ===== src/Gdbserver.antt =====
-- `GdbHandler` (ckb-vm-debug-utils/src/gdbserver.rs), the protocol's handler that debugs a ckb-vm
-- machine: `State` has its fields, and a module for each group of its methods follows.
pub mod State
pub mod Memory
pub mod Watchpoints
pub mod Breakpoints
pub mod Registers
pub mod Resume
pub mod Serve
