-- ===== src/Protocol/Parser/Commands.antt =====
-- `command` and the parsers of its packets (ckb-gdb-remote-protocol/src/lib.rs), without the
-- feature `all_stop`.
pub mod Reads
use ckb_standalone_debugger.Prelude.{ℕ, false, Option, none, some, List, [], ◌∷◌, Bytes}
use ckb_standalone_debugger.Prelude.Format.{codes}
use ckb_standalone_debugger.Protocol.Types.{
  ThreadId, VCont, continue, continue_with_signal, step, step_with_signal, stop, range_step,
  SetThreadFor, for_continue, for_read_register, Command, detach, enable_extended_mode,
  target_halt_reason, read_general_registers, write_general_registers, set_current_thread, reset,
  ping_thread, ctrl_c, unknown_v_command, v_cont_supported, v_cont, kill,
}
use ckb_standalone_debugger.Protocol.Nom.{Parser, done, error, Nom}
use ckb_standalone_debugger.Protocol.Parser.Numbers.{
  hex_value, hex_byte, hex_byte_sequence, binary_byte_sequence, parse_thread_id,
}
use ckb_standalone_debugger.Protocol.Parser.Queries.{query}
use ckb_standalone_debugger.Protocol.Parser.Files.{parse_vfile_op}
use ckb_standalone_debugger.Protocol.Parser.Points.{parse_z_packet}

module _ (n : Nom) where
  open n use {
    tag, take, map, then_parse, preceded, separated_pair, alt, alt_complete, opt, complete, many0,
    take_till,
  }

  infixl 5 ◌>>=◌ ◌>>◌
  abbrev ◌>>=◌ : {A B : Type 0} → Parser A → (A → Parser B) → Parser B
  p >>= f = then_parse p f

  abbrev ◌>>◌ : {A B : Type 0} → Parser A → Parser B → Parser B
  p >> q = then_parse p (λ _. q)

  unfoldable pub write_memory : Parser (ℕ × ℕ × Bytes)
  unfolding hex_value hex_byte_sequence
  write_memory = complete do
    tag (codes "M")
    address ← hex_value n
    tag (codes ",")
    length ← hex_value n
    tag (codes ":")
    data_ ← hex_byte_sequence n
    λ rest. done rest (address, length, data_)

  unfoldable pub write_memory_binary : Parser (ℕ × ℕ × Bytes)
  unfolding hex_value binary_byte_sequence
  write_memory_binary = complete do
    tag (codes "X")
    address ← hex_value n
    tag (codes ",")
    length ← hex_value n
    tag (codes ":")
    data_ ← binary_byte_sequence n
    λ rest. done rest (address, length, data_)

  unfoldable pub read_memory : Parser (ℕ × ℕ)
  unfolding hex_value
  read_memory =
      preceded (tag (codes "m")) (separated_pair (hex_value n) (tag (codes ",")) (hex_value n))

  unfoldable pub read_register : Parser ℕ
  unfolding hex_value
  read_register = preceded (tag (codes "p")) (hex_value n)

  unfoldable pub write_register : Parser (ℕ × Bytes)
  unfolding hex_value hex_byte_sequence
  write_register =
      preceded (tag (codes "P"))
        (separated_pair (hex_value n) (tag (codes "=")) (hex_byte_sequence n))

  unfoldable pub parse_write_general_registers : Parser Bytes
  unfolding hex_byte_sequence
  parse_write_general_registers = preceded (tag (codes "G")) (hex_byte_sequence n)

  unfoldable pub parse_ping_thread : Parser ThreadId
  unfolding parse_thread_id
  parse_ping_thread = preceded (tag (codes "T")) (parse_thread_id n)

  -- The action of one part of vCont.
  unfoldable pub v_cont_action : Parser VCont
  unfolding hex_value hex_byte
  v_cont_action = alt_complete (
      map (tag (codes "c")) (λ _. continue)
      ∷ map (preceded (tag (codes "C")) (hex_byte n)) continue_with_signal
      ∷ map (tag (codes "s")) (λ _. step)
      ∷ map (preceded (tag (codes "S")) (hex_byte n)) step_with_signal
      ∷ map (tag (codes "t")) (λ _. stop)
      ∷ map
          (do
            tag (codes "r")
            start ← hex_value n
            tag (codes ",")
            end ← hex_value n
            λ rest. done rest (start, end))
          (λ (start, end). range_step start end)
      ∷ [])

  unfoldable pub v_cont_part : Parser (VCont × Option ThreadId)
  unfolding v_cont_action parse_thread_id
  v_cont_part = do
    tag (codes ";")
    action ← v_cont_action
    thread ← opt (complete (preceded (tag (codes ":")) (parse_thread_id n)))
    λ rest. done rest (action, thread)

  unfoldable pub v_command : Parser Command
  unfolding v_cont_part hex_value parse_vfile_op
  v_command = alt_complete (
      map (tag (codes "vCtrlC")) (λ _. ctrl_c)
      ∷ preceded (tag (codes "vCont")) (
          alt_complete
            (map (tag (codes "?")) (λ _. v_cont_supported) ∷ map (many0 v_cont_part) v_cont ∷ []))
      ∷ map (preceded (tag (codes "vKill;")) (hex_value n)) (λ pid. kill (some pid))
      ∷ preceded (tag (codes "vFile:")) (parse_vfile_op n)
      ∷ map (preceded (tag (codes "v")) (take_till (λ _. false))) (λ _. unknown_v_command)
      ∷ [])

  unfoldable pub parse_h_packet : Parser (SetThreadFor × ThreadId)
  unfolding parse_thread_id
  parse_h_packet = alt_complete (
      map (preceded (tag (codes "Hg")) (parse_thread_id n)) (λ id. (for_read_register, id))
      ∷ map (preceded (tag (codes "Hc")) (parse_thread_id n)) (λ id. (for_continue, id))
      ∷ [])

  unfoldable pub parse_d_packet : Parser (Option ℕ)
  unfolding hex_value
  parse_d_packet = alt_complete (
      map (preceded (tag (codes "D;")) (hex_value n)) (λ pid. some pid)
      ∷ map (tag (codes "D")) (λ _. none)
      ∷ [])

  -- Without the feature `all_stop` it fails on every input.
  unfoldable pub all_stop_command : Parser Command
  all_stop_command i = error

  -- The alternatives of `command`, in order.
  unfoldable pub commands : List (Parser Command)
  unfolding parse_d_packet parse_write_general_registers parse_h_packet read_memory write_memory
      read_register write_register query parse_ping_thread v_command write_memory_binary
      parse_z_packet all_stop_command
  commands =
      map (tag (codes "!")) (λ _. enable_extended_mode)
      ∷ map (tag (codes "?")) (λ _. target_halt_reason)
      ∷ map parse_d_packet detach
      ∷ map (tag (codes "g")) (λ _. read_general_registers)
      ∷ map parse_write_general_registers write_general_registers
      ∷ map parse_h_packet (λ (f, thread_id). set_current_thread f thread_id)
      ∷ map (tag (codes "k")) (λ _. kill none)
      ∷ map read_memory
          (λ (addr, length). Command.read_memory (record { address = addr; length = length }))
      ∷ map write_memory (λ (addr, length, bytes).
        Command.write_memory (record { address = addr; length = length }) bytes)
      ∷ map read_register (λ regno. Command.read_register regno)
      ∷ map write_register (λ (regno, bytes). Command.write_register regno bytes)
      ∷ map (query n) (λ q. Command.query q)
      ∷ map (tag (codes "r")) (λ _. reset)
      ∷ map (preceded (tag (codes "R")) (take 2)) (λ _. reset)
      ∷ map parse_ping_thread ping_thread
      ∷ v_command
      ∷ map write_memory_binary (λ (addr, length, bytes).
        Command.write_memory (record { address = addr; length = length }) bytes)
      ∷ parse_z_packet n
      ∷ all_stop_command
      ∷ []

  unfoldable pub command : Parser Command
  unfolding commands
  command = alt commands
