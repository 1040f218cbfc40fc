-- ===== src/Protocol/Parser/Files.antt =====
-- The packets vFile (ckb-gdb-remote-protocol/src/lib.rs).
use ckb_standalone_debugger.Prelude.{false, [], ◌∷◌}
use ckb_standalone_debugger.Prelude.Format.{codes}
use ckb_standalone_debugger.Protocol.Types.{
  Command, unknown_v_command, host_open, host_close, host_pread, host_pwrite, host_fstat,
  host_unlink, host_readlink, host_set_fs,
}
use ckb_standalone_debugger.Protocol.Nom.{Parser, done, Nom}
use ckb_standalone_debugger.Protocol.Parser.Numbers.{
  hex_value, hex_byte_sequence, binary_byte_sequence,
}

module _ (n : Nom) where
  open n use {tag, map, then_parse, alt_complete, take_till}

  infixl 5 ◌>>=◌ ◌>>◌
  abbrev ◌>>=◌ : {A B : Type 0} → Parser A → (A → Parser B) → Parser B
  p >>= f = then_parse p f

  abbrev ◌>>◌ : {A B : Type 0} → Parser A → Parser B → Parser B
  p >> q = then_parse p (λ _. q)

  unfoldable pub parse_vfile_open : Parser Command
  unfolding hex_value hex_byte_sequence
  parse_vfile_open = do
    tag (codes "open:")
    filename ← hex_byte_sequence n
    tag (codes ",")
    flags ← hex_value n
    tag (codes ",")
    mode ← hex_value n
    λ rest. done rest (host_open filename flags mode)

  unfoldable pub parse_vfile_close : Parser Command
  unfolding hex_value
  parse_vfile_close = do tag (codes "close:"); fd ← hex_value n; λ rest. done rest (host_close fd)

  unfoldable pub parse_vfile_pread : Parser Command
  unfolding hex_value
  parse_vfile_pread = do
    tag (codes "pread:")
    fd ← hex_value n
    tag (codes ",")
    count ← hex_value n
    tag (codes ",")
    offset ← hex_value n
    λ rest. done rest (host_pread fd count offset)

  unfoldable pub parse_vfile_pwrite : Parser Command
  unfolding hex_value binary_byte_sequence
  parse_vfile_pwrite = do
    tag (codes "pwrite:")
    fd ← hex_value n
    tag (codes ",")
    offset ← hex_value n
    tag (codes ",")
    data_ ← binary_byte_sequence n
    λ rest. done rest (host_pwrite fd offset data_)

  unfoldable pub parse_vfile_fstat : Parser Command
  unfolding hex_value
  parse_vfile_fstat = do tag (codes "fstat:"); fd ← hex_value n; λ rest. done rest (host_fstat fd)

  unfoldable pub parse_vfile_unlink : Parser Command
  unfolding hex_byte_sequence
  parse_vfile_unlink = do
    tag (codes "unlink:")
    filename ← hex_byte_sequence n
    λ rest. done rest (host_unlink filename)

  unfoldable pub parse_vfile_readlink : Parser Command
  unfolding hex_byte_sequence
  parse_vfile_readlink = do
    tag (codes "readlink:")
    filename ← hex_byte_sequence n
    λ rest. done rest (host_readlink filename)

  unfoldable pub parse_vfile_setfs : Parser Command
  unfolding hex_value
  parse_vfile_setfs = do
    tag (codes "setfs:")
    pid ← hex_value n
    λ rest. done rest (host_set_fs pid)

  unfoldable pub parse_unknown_vfile_op : Parser Command
  parse_unknown_vfile_op = map (take_till (λ _. false)) (λ _. unknown_v_command)

  unfoldable pub parse_vfile_op : Parser Command
  unfolding parse_vfile_open parse_vfile_close parse_vfile_pread parse_vfile_pwrite
      parse_vfile_fstat parse_vfile_unlink parse_vfile_readlink parse_vfile_setfs
      parse_unknown_vfile_op
  parse_vfile_op = alt_complete (
      parse_vfile_open ∷ parse_vfile_close ∷ parse_vfile_pread ∷ parse_vfile_pwrite
      ∷ parse_vfile_fstat ∷ parse_vfile_unlink ∷ parse_vfile_readlink ∷ parse_vfile_setfs
      ∷ parse_unknown_vfile_op ∷ [])
