-- ===== src/Gdbstub.antt =====
-- `GdbStubHandler` (ckb-vm-debug-utils/src/gdbstub.rs), the target of the `gdbstub` library, at
-- 64-bit registers: `State` has its fields, `Instruction` how an instruction acts on it, and the
-- other modules have its operations.
pub mod State
pub mod Instruction
pub mod Points
pub mod Step
pub mod Execute
pub mod Access
