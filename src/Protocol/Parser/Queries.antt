-- ===== src/Protocol/Parser/Queries.antt =====
-- The query packets (ckb-gdb-remote-protocol/src/lib.rs), without the feature `lldb`.
use ckb_standalone_debugger.Prelude.{ℕ, true, false, none, some, [], ◌∷◌, Bytes}
use ckb_standalone_debugger.Prelude.Format.{codes}
use ckb_standalone_debugger.Protocol.Types.{
  Query, attached, current_thread, search_memory, supported_features, start_no_ack_mode, invoke,
  address_randomization, catch_syscalls, pass_signals, program_signals, thread_info, thread_list,
  read_bytes, symbol,
}
use ckb_standalone_debugger.Protocol.Nom.{Parser, done, error, Nom}
use ckb_standalone_debugger.Protocol.Parser.Numbers.{
  hex_value, hex_byte_sequence, parse_thread_id, from_utf8,
}
use ckb_standalone_debugger.Protocol.Parser.Features.{gdbfeaturesupported}

module _ (n : Nom) where
  open n use {
    tag, map, map_res, then_parse, preceded, alt_complete, complete, many0, take_until, eof,
    separated_list_complete, separated_nonempty_list_complete,
  }

  infixl 5 ◌>>=◌ ◌>>◌
  abbrev ◌>>=◌ : {A B : Type 0} → Parser A → (A → Parser B) → Parser B
  p >>= f = then_parse p f

  abbrev ◌>>◌ : {A B : Type 0} → Parser A → Parser B → Parser B
  p >> q = then_parse p (λ _. q)

  unfoldable pub q_search_memory : Parser (ℕ × ℕ × Bytes)
  unfolding hex_value hex_byte_sequence
  q_search_memory = complete do
    tag (codes "qSearch:memory:")
    address ← hex_value n
    tag (codes ";")
    length ← hex_value n
    tag (codes ";")
    pattern_ ← hex_byte_sequence n
    λ rest. done rest (address, length, pattern_)

  -- Without the feature `lldb` it fails on every input.
  unfoldable pub lldb_query : Parser Query
  lldb_query i = error

  -- `qSymbol:` and `qXfer:`
  unfoldable pub q_symbol : Parser Query
  unfolding from_utf8
  q_symbol = do
    sym_value ← preceded (tag (codes "qSymbol:")) (map_res (take_until (codes ":")) from_utf8)
    sym_name ← preceded (tag (codes ":")) (map_res eof from_utf8)
    λ rest. done rest (symbol sym_value sym_name)

  unfoldable pub q_xfer : Parser Query
  unfolding from_utf8 hex_value
  q_xfer = do
    object ← preceded (tag (codes "qXfer:")) (map_res (take_until (codes ":")) from_utf8)
    annex ← preceded (tag (codes ":read:")) (map_res (take_until (codes ":")) from_utf8)
    offset ← preceded (tag (codes ":")) (hex_value n)
    length ← preceded (tag (codes ",")) (hex_value n)
    λ rest. done rest (read_bytes object annex offset length)

  unfoldable pub query : Parser Query
  unfolding hex_value hex_byte_sequence parse_thread_id gdbfeaturesupported q_search_memory q_symbol
      q_xfer lldb_query
  query = alt_complete (
      map (tag (codes "qC")) (λ _. current_thread)
      ∷ map
          (preceded (tag (codes "qSupported")) (
            preceded (tag (codes ":"))
              (separated_list_complete (tag (codes ";")) (gdbfeaturesupported n))))
          supported_features
      ∷ map (preceded (tag (codes "qRcmd,")) (hex_byte_sequence n)) invoke
      ∷ map q_search_memory (λ (address, length, pattern_). search_memory address length pattern_)
      ∷ map (tag (codes "QStartNoAckMode")) (λ _. start_no_ack_mode)
      ∷ map (preceded (tag (codes "qAttached:")) (hex_value n)) (λ val. attached (some val))
      ∷ map (tag (codes "qAttached")) (λ _. attached none)
      ∷ map (tag (codes "qfThreadInfo")) (λ _. thread_list true)
      ∷ map (tag (codes "qsThreadInfo")) (λ _. thread_list false)
      ∷ map (tag (codes "QDisableRandomization:0")) (λ _. address_randomization true)
      ∷ map (tag (codes "QDisableRandomization:1")) (λ _. address_randomization false)
      ∷ map (tag (codes "QCatchSyscalls:0")) (λ _. catch_syscalls none)
      ∷ map
          (preceded (tag (codes "QCatchSyscalls:1"))
            (many0 (preceded (tag (codes ";")) (hex_value n))))
          (λ syscalls. catch_syscalls (some syscalls))
      ∷ map
          (preceded (tag (codes "QPassSignals:"))
            (separated_list_complete (tag (codes ";")) (hex_value n)))
          pass_signals
      ∷ map
          (preceded (tag (codes "QProgramSignals:"))
            (separated_nonempty_list_complete (tag (codes ";")) (hex_value n)))
          program_signals
      ∷ map (preceded (tag (codes "qThreadExtraInfo,")) (parse_thread_id n)) thread_info
      ∷ q_symbol
      ∷ q_xfer
      ∷ lldb_query
      ∷ [])
