-- ===== src/Converter.antt =====
-- The converter of flame graphs into pprof's format (ckb-vm-pprof-converter/src/main.rs): `Lines`
-- reads a line of the flame graph, and `Tables` builds the message.
pub mod Lines
pub mod Tables
