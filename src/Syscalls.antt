-- ===== src/Syscalls.antt =====
-- System calls that the debuggers add to ckb-vm: `FileStream` reads a file
-- (ckb-debugger/src/misc.rs), `Stdio` works on descriptors (ckb-vm-debug-utils/src/stdio.rs), and
-- `Values` gives the time and random numbers (ckb-debugger/src/misc.rs).
pub mod FileStream
pub mod Stdio
pub mod Values
