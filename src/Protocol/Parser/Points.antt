-- ===== src/Protocol/Parser/Points.antt =====
-- The packets z and Z for breakpoints and watchpoints (ckb-gdb-remote-protocol/src/lib.rs).
use ckb_standalone_debugger.Prelude.{ℕ, Option, none, some, List, [], ◌∷◌}
use ckb_standalone_debugger.Prelude.Format.{codes}
use ckb_standalone_debugger.Protocol.Types.{
  Bytecode, Breakpoint, Watchpoint, Command, insert_software_breakpoint, insert_hardware_breakpoint,
  insert_write_watchpoint, insert_read_watchpoint, insert_access_watchpoint,
  remove_software_breakpoint, remove_hardware_breakpoint, remove_write_watchpoint,
  remove_read_watchpoint, remove_access_watchpoint,
}
use ckb_standalone_debugger.Protocol.Nom.{done, incomplete, error, panicked, Parser, Nom}
use ckb_standalone_debugger.Protocol.Parser.Numbers.{hex_value}

pub data ZAction : Type 0 where
  insert remove : ZAction

pub data ZType : Type 0 where
  software_breakpoint hardware_breakpoint write_watchpoint read_watchpoint access_watchpoint : ZType

abbrev plain : ℕ → ℕ → Breakpoint
plain addr kind = record { addr = addr; kind = kind; conditions = none; commands = none }

abbrev watched : ℕ → ℕ → Watchpoint
watched addr n_bytes = record { addr = addr; n_bytes = n_bytes }

unfoldable pub remove_command : ZType → ℕ → ℕ → Command
remove_command software_breakpoint addr kind = remove_software_breakpoint (plain addr kind)
remove_command hardware_breakpoint addr kind = remove_hardware_breakpoint (plain addr kind)
remove_command write_watchpoint addr kind = remove_write_watchpoint (watched addr kind)
remove_command read_watchpoint addr kind = remove_read_watchpoint (watched addr kind)
remove_command access_watchpoint addr kind = remove_access_watchpoint (watched addr kind)

module _ (n : Nom) where
  open n use {tag, take, map, then_parse, alt_complete, many1}

  infixl 5 ◌>>=◌ ◌>>◌
  abbrev ◌>>=◌ : {A B : Type 0} → Parser A → (A → Parser B) → Parser B
  p >>= f = then_parse p f

  abbrev ◌>>◌ : {A B : Type 0} → Parser A → Parser B → Parser B
  p >> q = then_parse p (λ _. q)

  unfoldable pub parse_z_action : Parser ZAction
  parse_z_action =
      alt_complete (map (tag (codes "z")) (λ _. remove) ∷ map (tag (codes "Z")) (λ _. insert) ∷ [])

  unfoldable pub parse_z_type : Parser ZType
  parse_z_type = alt_complete (
      map (tag (codes "0")) (λ _. software_breakpoint)
      ∷ map (tag (codes "1")) (λ _. hardware_breakpoint)
      ∷ map (tag (codes "2")) (λ _. write_watchpoint)
      ∷ map (tag (codes "3")) (λ _. read_watchpoint)
      ∷ map (tag (codes "4")) (λ _. access_watchpoint)
      ∷ [])

  unfoldable pub parse_cond_or_command_expression : Parser Bytecode
  unfolding hex_value
  parse_cond_or_command_expression = do
    tag (codes "X")
    len ← hex_value n
    tag (codes ",")
    expr ← take len
    λ rest. done rest (record { bytecode = expr })

  unfoldable pub parse_condition_list : Parser (List Bytecode)
  unfolding parse_cond_or_command_expression
  parse_condition_list = do
    tag (codes ";")
    list ← many1 parse_cond_or_command_expression
    λ rest. done rest list

  -- Neither a lack of input nor an error is a failure.
  unfoldable pub maybe_condition_list : Parser (Option (List Bytecode))
  unfolding parse_condition_list
  maybe_condition_list i = elim (parse_condition_list i) [
    | done rest v ↦ done rest (some v)
    | incomplete ↦ done i none
    | error ↦ done i none
    | panicked ↦ panicked
  ]

  unfoldable pub parse_command_list : Parser (List Bytecode)
  unfolding hex_value parse_cond_or_command_expression
  parse_command_list = do
    tag (codes ";cmds")
    list ← alt_complete (
        (do
          persist_flag ← hex_value n
          tag (codes ",")
          cmd_list ← many1 parse_cond_or_command_expression
          λ rest. done rest cmd_list)
        ∷ many1 parse_cond_or_command_expression
        ∷ [])
    λ rest. done rest list

  unfoldable pub maybe_command_list : Parser (Option (List Bytecode))
  unfolding parse_command_list
  maybe_command_list i = elim (parse_command_list i) [
    | done rest v ↦ done rest (some v)
    | incomplete ↦ done i none
    | error ↦ error
    | panicked ↦ panicked
  ]

  unfoldable pub parse_cond_and_command_list :
      Parser (Option (List Bytecode) × Option (List Bytecode))
  unfolding maybe_condition_list maybe_command_list
  parse_cond_and_command_list = do
    cond_list ← maybe_condition_list
    cmd_list ← maybe_command_list
    λ rest. done rest (cond_list, cmd_list)

  -- The lists of a breakpoint are unwrapped: what is not `done` is a panic.
  abbrev with_lists : (Breakpoint → Command) → ℕ → ℕ → Parser Command
  with_lists make addr kind i = elim (parse_cond_and_command_list i) [
    | done rest (cond_list, cmd_list) ↦
        done rest
          (make (record { addr = addr; kind = kind; conditions = cond_list; commands = cmd_list }))
    | _ ↦ panicked
  ]

  unfoldable pub insert_command : ZType → ℕ → ℕ → Parser Command
  unfolding parse_cond_and_command_list
  insert_command software_breakpoint addr kind rest =
      with_lists insert_software_breakpoint addr kind rest
  insert_command hardware_breakpoint addr kind rest =
      with_lists insert_hardware_breakpoint addr kind rest
  insert_command write_watchpoint addr kind rest =
      done rest (insert_write_watchpoint (watched addr kind))
  insert_command read_watchpoint addr kind rest =
      done rest (insert_read_watchpoint (watched addr kind))
  insert_command access_watchpoint addr kind rest =
      done rest (insert_access_watchpoint (watched addr kind))

  -- The `match` on the action.
  abbrev by_action : ZAction → ZType → ℕ → ℕ → Parser Command
  by_action insert type_ addr kind rest = insert_command type_ addr kind rest
  by_action remove type_ addr kind rest = done rest (remove_command type_ addr kind)

  unfoldable pub parse_z_packet : Parser Command
  unfolding parse_z_action parse_z_type hex_value insert_command remove_command
  parse_z_packet = do
    action ← parse_z_action
    type_ ← parse_z_type
    tag (codes ",")
    addr ← hex_value n
    tag (codes ",")
    kind ← hex_value n
    by_action action type_ addr kind
