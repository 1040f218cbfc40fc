-- ===== src/Elf.antt =====
-- The dumper of a running program into an ELF file (ckb-vm-debug-utils/src/elf_dumper.rs):
-- `Segments` collects the memory that is not zero, `Restore` builds the code that sets the registers
-- again and jumps to where the program was, `Image` puts the file together, and `Dump` is the
-- system call.
pub mod Segments
pub mod Restore
pub mod Image
pub mod Dump
