-- ===== src/Protocol/Parser/Commands/Reads.antt =====
-- What `command` makes of the packets that the protocol's documentation describes.
use ckb_standalone_debugger.Prelude.{
  ℕ, ◌^◌, ◌<◌, ◌≤◌, ◌≡◌, refl, sym, ap, ◌∙◌, none, some, [], ◌∷◌, ◌++◌, append-nil, Bytes, arith,
  Octets,
}
use ckb_standalone_debugger.Prelude.Format.{codes, hex}
use ckb_standalone_debugger.Protocol.Types.{Command, Query, VCont}
use ckb_standalone_debugger.Protocol.Nom.{Nom, done, panicked}
use ckb_standalone_debugger.Protocol.Nom.Documented.{NomLaws, ended, again}
use ckb_standalone_debugger.Protocol.Parser.Numbers.Written.{
  hex_value-hex, hex_value-hex_end, hex_value-hex_panics,
}
use ckb_standalone_debugger.Protocol.Parser.Numbers.{hex_value}
use ckb_standalone_debugger.Protocol.Parser.Numbers.Sequences.{
  hex_bytes, hex_byte_sequence-hex_bytes,
}
use ckb_standalone_debugger.Protocol.Parser.Commands.{command, v_cont_part}

-- A packet's text, and the command that it stands for.
pub data Encodes : Bytes → Command → Type 0 where
  extended : Encodes (codes "!") Command.enable_extended_mode
  halt_reason : Encodes (codes "?") Command.target_halt_reason
  general_registers : Encodes (codes "g") Command.read_general_registers
  write_registers :
      (b : ℕ) (bytes : Bytes)
      → Octets (b ∷ bytes)
      → Encodes (b'G' ∷ hex_bytes (b ∷ bytes)) (Command.write_general_registers (b ∷ bytes))
  kill_all : Encodes (codes "k") (Command.kill none)
  kill_pid :
      (pid : ℕ) → pid < 2 ^ 64 → Encodes (codes "vKill;" ++ hex pid) (Command.kill (some pid))
  detach_all : Encodes (codes "D") (Command.detach none)
  detach_pid :
      (pid : ℕ) → pid < 2 ^ 64 → Encodes (codes "D;" ++ hex pid) (Command.detach (some pid))
  memory :
      (address length : ℕ)
      → address < 2 ^ 64
      → length < 2 ^ 64
      → Encodes
          (b'm' ∷ (hex address ++ b',' ∷ hex length))
          (Command.read_memory (record { address = address; length = length }))
  store :
      (address length b : ℕ) (bytes : Bytes)
      → address < 2 ^ 64
      → length < 2 ^ 64
      → Octets (b ∷ bytes)
      → Encodes
          (b'M' ∷ (hex address ++ b',' ∷ (hex length ++ b':' ∷ hex_bytes (b ∷ bytes))))
          (Command.write_memory (record { address = address; length = length }) (b ∷ bytes))
  register : (regno : ℕ) → regno < 2 ^ 64 → Encodes (b'p' ∷ hex regno) (Command.read_register regno)
  set_register :
      (regno b : ℕ) (bytes : Bytes)
      → regno < 2 ^ 64
      → Octets (b ∷ bytes)
      → Encodes
          (b'P' ∷ (hex regno ++ b'=' ∷ hex_bytes (b ∷ bytes)))
          (Command.write_register regno (b ∷ bytes))
  continue_one : Encodes (codes "vCont;c") (Command.v_cont ((VCont.continue, none) ∷ []))
  ctrl_c : Encodes (codes "vCtrlC") Command.ctrl_c
  current : Encodes (codes "qC") (Command.query Query.current_thread)
  no_ack : Encodes (codes "QStartNoAckMode") (Command.query Query.start_no_ack_mode)

module _ (n : Nom) (laws : NomLaws n) where
  open laws use {
    tag_lem, map_lem, preceded_lem, then_parse_lem, complete_lem, alt_complete_cons,
    alt_complete_nil, separated_pair_lem, alt_cons, opt_lem,
  }

  -- One action without a thread.
  v_cont_part-continue : v_cont_part n (codes ";c") ≡ done [] (VCont.continue, none)
  unfolding v_cont_part
  v_cont_part-continue =
      simp
        (tag_lem, map_lem, preceded_lem, then_parse_lem, alt_complete_cons, opt_lem, complete_lem)

  many0-continue : n.many0 (v_cont_part n) (codes ";c") ≡ done [] ((VCont.continue, none) ∷ [])
  many0-continue =
      laws.many0_Repeats (v_cont_part n) (codes ";c") [] ((VCont.continue, none) ∷ [])
        (again v_cont_part-continue (omega arith) ended)

  -- Each of these texts is read whole, and as the command that it stands for.
  pub command-Encodes : {text : Bytes} {c : Command} → Encodes text c → command n text ≡ done [] c
  unfolding command
  command-Encodes extended = simp (tag_lem, map_lem, alt_cons)
  command-Encodes halt_reason = simp (tag_lem, map_lem, alt_cons)
  command-Encodes general_registers =
      simp (tag_lem, map_lem, preceded_lem, alt_complete_cons, alt_complete_nil, alt_cons)
  command-Encodes (write_registers b bytes all) =
      simp (tag_lem, map_lem, preceded_lem, alt_complete_cons, alt_complete_nil, alt_cons)
        (rw (hex_byte_sequence-hex_bytes n laws b bytes all) refl)
  command-Encodes kill_all =
      simp (tag_lem, map_lem, preceded_lem, alt_complete_cons, alt_complete_nil, alt_cons)
  command-Encodes (kill_pid pid h) =
      simp
        (
          tag_lem, map_lem, preceded_lem, then_parse_lem, complete_lem, alt_complete_cons,
          alt_complete_nil, alt_cons,
        )
        (rw (hex_value-hex_end n laws pid h) refl)
  command-Encodes detach_all =
      simp (tag_lem, map_lem, preceded_lem, alt_complete_cons, alt_complete_nil, alt_cons)
  command-Encodes (detach_pid pid h) =
      simp (tag_lem, map_lem, preceded_lem, alt_complete_cons, alt_complete_nil, alt_cons)
        (rw (hex_value-hex_end n laws pid h) refl)
  command-Encodes (memory a l h k) =
      simp
        (
          tag_lem, map_lem, preceded_lem, then_parse_lem, complete_lem, separated_pair_lem,
          alt_complete_cons, alt_complete_nil, alt_cons,
        )
        (rw (hex_value-hex n laws a (b',' ∷ hex l) h refl, hex_value-hex_end n laws l k) refl)
  command-Encodes (store a l b bytes h k all) =
      simp
        (
          tag_lem, map_lem, preceded_lem, then_parse_lem, complete_lem, alt_complete_cons,
          alt_complete_nil, alt_cons,
        )
        (rw
          (
            hex_value-hex n laws a (b',' ∷ (hex l ++ (b':' ∷ hex_bytes (b ∷ bytes)))) h refl,
            then_parse_lem,
            tag_lem,
            then_parse_lem,
            hex_value-hex n laws l (b':' ∷ hex_bytes (b ∷ bytes)) k refl,
            then_parse_lem,
            tag_lem,
            then_parse_lem,
            hex_byte_sequence-hex_bytes n laws b bytes all,
          )
          refl)
  command-Encodes (register regno h) =
      simp
        (
          tag_lem, map_lem, preceded_lem, then_parse_lem, complete_lem, alt_complete_cons,
          alt_complete_nil, alt_cons,
        )
        (rw (hex_value-hex_end n laws regno h) refl)
  command-Encodes (set_register regno b bytes h all) =
      simp
        (
          tag_lem, map_lem, preceded_lem, then_parse_lem, complete_lem, separated_pair_lem,
          alt_complete_cons, alt_complete_nil, alt_cons,
        )
        (rw
          (
            hex_value-hex n laws regno (b'=' ∷ hex_bytes (b ∷ bytes)) h refl,
            hex_byte_sequence-hex_bytes n laws b bytes all,
          )
          refl)
  command-Encodes continue_one =
      simp
        (
          tag_lem, map_lem, preceded_lem, then_parse_lem, complete_lem, alt_complete_cons,
          alt_complete_nil, alt_cons,
        )
        (rw many0-continue refl)
  command-Encodes ctrl_c = simp (
    tag_lem, map_lem, preceded_lem, then_parse_lem, complete_lem, alt_complete_cons,
    alt_complete_nil, alt_cons,
  )
  command-Encodes current = simp (
    tag_lem, map_lem, preceded_lem, then_parse_lem, complete_lem, alt_complete_cons,
    alt_complete_nil, alt_cons,
  )
  command-Encodes no_ack = simp (
    tag_lem, map_lem, preceded_lem, then_parse_lem, complete_lem, alt_complete_cons,
    alt_complete_nil, alt_cons,
  )

  -- A register number that takes more than 64 bits is a panic of the parser.
  pub command-read_register_panics :
      (v : ℕ) → 2 ^ 64 ≤ v → v < 16 ^ 64 → command n (b'p' ∷ hex v) ≡ panicked
  unfolding command
  command-read_register_panics v h small =
      simp
        (
          tag_lem, map_lem, preceded_lem, then_parse_lem, complete_lem, alt_complete_cons,
          alt_complete_nil, alt_cons,
        )
        (rw
          (ap (hex_value n) (sym (append-nil (hex v)))
            ∙ hex_value-hex_panics n laws v [] h small tt)
          refl)

  -- Any packet that starts with qC is read as the query of the current thread, and the rest of its
  -- text is left over.
  pub command-q_c :
      (rest : Bytes)
      → command n (codes "qC" ++ rest) ≡ done rest (Command.query Query.current_thread)
  unfolding command
  command-q_c rest = simp (
    tag_lem, map_lem, preceded_lem, then_parse_lem, complete_lem, alt_complete_cons,
    alt_complete_nil, alt_cons,
  )
