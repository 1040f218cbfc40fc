-- ===== src/Pprof.antt =====
-- The call-graph profiler (ckb-vm-pprof/src/lib.rs). `Trie` is the tree of call frames, `Symbols`
-- the function table of the binary, `Step` one profiled instruction, `Machine` the run loop, `Tags`
-- the names of addresses and `Display` what is written at the end. The lemmas about a part are in
-- its children.
pub mod Trie
pub mod Symbols
pub mod Step
pub mod Machine
pub mod Tags
pub mod Display
