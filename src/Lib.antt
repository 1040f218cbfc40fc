-- ===== src/Lib.antt =====
-- A model of ckb-standalone-debugger, the debugging and profiling tools for programs of the CKB
-- virtual machine, and theorems about it.
--
-- The parts and how they interact. A program runs on ckb-vm, which is another package: `Vm` has
-- what the tools use of it, as a record of operations that every part takes as an argument, with
-- its laws as separate records.
--   * The profiler (ckb-vm-pprof/src/lib.rs) looks at every instruction before the machine executes
--     it, and keeps a tree of call frames with the cycles of each. `Pprof.Trie` has the tree and
--     the closures `call`, `quit_or_skip` and `sbrk_or_skip`, `Pprof.Symbols` the tables that
--     `Profile::new` builds, `Pprof.Step` the function `step`, `Pprof.Machine` the loop `run`,
--     `Pprof.Tags` the names of addresses, and `Pprof.Display` the flame graph and the stack trace.
--     The package addr2line is an argument that may fail or leave out what the code unwraps, and
--     these are then panics.
--     A shared pointer to a node is an index of the list of all nodes.
--   * The GDB remote protocol (ckb-gdb-remote-protocol/src/lib.rs and fs.rs) takes commands from a
--     debugger. `Protocol.Types` has its data, `Protocol.Handler` the trait of its servers with the
--     default methods, `Protocol.Parser` the parsers of packets and commands with a module for each
--     group of them, `Protocol.Dispatch` the function `handle_packet` behind the parser,
--     `Protocol.Writer` with its child `Respond` the packets that answer, and `Protocol.Server` the
--     loop over a connection, which keeps a buffer of the bytes that are not yet parsed. The
--     package nom is an argument, the record `Protocol.Nom`; `Protocol.Nom.Documented` has its
--     combinators as they are documented, and says as a record of laws that it keeps to that.
--   * `GdbHandler` (ckb-vm-debug-utils/src/gdbserver.rs) is such a server over a machine:
--     `Gdbserver.State`, and a module for each group of its methods; `Gdbserver.Serve` puts them
--     together as a `Handler`. Its cells of mutable state are the fields of one record.
--   * `GdbStubHandler` (ckb-vm-debug-utils/src/gdbstub.rs) is a target of the package gdbstub: it
--     wraps the machine, logs the addresses that an instruction accesses, and turns each step into
--     an event. `Gdbstub.State`, `Gdbstub.Instruction`, `Gdbstub.Step`, `Gdbstub.Execute` and
--     `Gdbstub.Points` have its fields, the traits that ckb-vm's `execute` calls, the steps, the
--     loops and the points. An instruction is the tree of the calls that it makes.
--   * The system calls that the debuggers add to the machine (ckb-debugger/src/misc.rs and
--     ckb-vm-debug-utils/src/stdio.rs) are in `Syscalls`; the operating system is an argument.
--     `Gdbstub.Access` has the copies of registers and memory of the target.
--   * The dumper (ckb-vm-debug-utils/src/elf_dumper.rs) is a system call that writes the running
--     program as an ELF file: `Elf.Segments` collects the memory that is not zero, `Elf.Restore`
--     builds the code that sets the registers and jumps, `Elf.Image` puts the file together, and
--     `Elf.Dump` is the system call.
--   * The converter (ckb-vm-pprof-converter/src/main.rs) reads the profiler's flame graph and makes
--     a message of pprof's format of it: `Converter.Lines` reads the lines, and `Converter.Tables`
--     builds the tables and the samples.
--   * A mock transaction (ckb-mock-tx-types/src/lib.rs) brings along the cells and headers that it
--     needs: `Mock` looks them up, `Mock.Resource` collects those of a transaction, and `Mock.Json`
--     has the conversions from and to JSON.
--
-- How the code is modelled. Machine integers are natural numbers, with the wrap-around written out
-- where the code wraps. A text is the list of its bytes. What a function comes back with is an
-- `Outcome`: a value, an error, or a panic. A method that changes its object takes the old one and
-- gives the new one. The protocol's writer takes all that it is given: the failure of a connection
-- is not modelled.
--
-- Loops and fuel. The loops that run a program take fuel, one unit for each instruction, because a
-- program may run for ever.
-- The loop over the packets of a buffer takes one unit for each byte, and one more: a packet has a
-- byte at least. The dumper's loop over a page takes one for each word, and one more.
-- The search for a frame and the writer of binary data take fuel that grows with their input. Numbers
-- are printed in at most 64 digits; one of 64 bits has 20 at most.
--
-- Not modelled: the files of the host and of the C library, and the signal numbers; the command
-- line; the signal profiler; the generated protocol buffers; the library for
-- scripts. They print, call the operating system or another package,
-- or are left for later. The parts of the protocol that the features all_stop and lldb switch on
-- are left out.
pub mod Prelude
pub mod Vm
pub mod Protocol
pub mod Gdbserver
pub mod Gdbstub
pub mod Pprof
pub mod Syscalls
pub mod Elf
pub mod Converter
pub mod Mock
pub mod Tests
