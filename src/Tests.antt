-- ===== src/Tests.antt =====
-- Runs of the models at concrete inputs, and the theorems at inputs that meet their hypotheses.
pub mod Toy
pub mod Nom
mod Converter
mod Elf
mod Mock
mod Server
mod Pprof
pub mod Gdbserver
pub mod Protocol
mod Syscalls
mod Gdbstub
