-- ===== src/Gdbserver/Serve/Commands.antt =====
-- Commands of the protocol, handled by `GdbHandler`.
use ckb_standalone_debugger.Prelude.{
  ℕ, ◌≡◌, refl, ap, ◌⊎◌, inl, inr, Bool, true, false, Option, none, some, List, [], ◌∷◌, ok,
  Option-cases, some-injective, subst,
}
use ckb_standalone_debugger.Vm.{Vm}
use ckb_standalone_debugger.Protocol.Types.{
  Command, Query, Response, empty, stopped, VCont, ThreadId, signal, exited, StopReason, Handled,
}
use ckb_standalone_debugger.Protocol.Dispatch.{
  Truncate, handle_command, handle_query, reply, into_response,
}
use ckb_standalone_debugger.Gdbserver.State.{GdbHandler}
use ckb_standalone_debugger.Gdbserver.Registers.{LittleEndian}
use ckb_standalone_debugger.Gdbserver.Breakpoints.{at_breakpoint}
use ckb_standalone_debugger.Gdbserver.Resume.{vcont}
use ckb_standalone_debugger.Gdbserver.Resume.Continue.{Ended, vcont_continue}
use ckb_standalone_debugger.Gdbserver.Serve.{gdb_handler}

-- The commands that the debugger does not serve.
abbrev pub unserved_query : Query → Bool
unserved_query (Query.search_memory address length_ data_) = true
unserved_query (Query.invoke command) = true
unserved_query (Query.address_randomization enable) = true
unserved_query (Query.catch_syscalls calls) = true
unserved_query (Query.thread_info id) = true
unserved_query (Query.thread_list reset) = true
unserved_query (Query.read_bytes object annex offset length_) = true
unserved_query (Query.symbol value name) = true
unserved_query q = false

abbrev pub unserved : Command → Bool
unserved (Command.query q) = unserved_query q
unserved (Command.write_general_registers data_) = true
unserved (Command.kill pid) = true
unserved Command.reset = true
unserved (Command.set_current_thread f id) = true
unserved (Command.detach pid) = true
unserved (Command.ping_thread id) = true
unserved Command.ctrl_c = true
unserved Command.unknown_v_command = true
unserved (Command.insert_hardware_breakpoint bp) = true
unserved (Command.insert_read_watchpoint wp) = true
unserved (Command.insert_access_watchpoint wp) = true
unserved (Command.remove_hardware_breakpoint bp) = true
unserved (Command.remove_read_watchpoint wp) = true
unserved (Command.remove_access_watchpoint wp) = true
unserved (Command.host_open filename mode flags) = true
unserved (Command.host_close fd) = true
unserved (Command.host_pread fd count offset) = true
unserved (Command.host_pwrite fd offset data_) = true
unserved (Command.host_fstat fd) = true
unserved (Command.host_unlink filename) = true
unserved (Command.host_readlink filename) = true
unserved (Command.host_set_fs pid) = true
unserved c = false

module _ {M D I : Type 0} (vm : Vm M D I) (le : LittleEndian) (fuel : ℕ) (truncate : Truncate) where
  handle_query-unserved :
      (q : Query) (h : GdbHandler M)
      → unserved_query q ≡ true
      → handle_query (gdb_handler vm le fuel) truncate q h ≡ (some empty, h)
  unfolding handle_query gdb_handler
  handle_query-unserved (Query.search_memory address length_ data_) h e = refl
  handle_query-unserved (Query.invoke command) h e = refl
  handle_query-unserved (Query.address_randomization enable) h e = refl
  handle_query-unserved (Query.catch_syscalls calls) h e = refl
  handle_query-unserved (Query.thread_info id) h e = refl
  handle_query-unserved (Query.thread_list reset) h e = refl
  handle_query-unserved (Query.read_bytes object annex offset length_) h e = refl
  handle_query-unserved (Query.symbol value name) h e = refl
  handle_query-unserved (Query.attached pid) h e = cc
  handle_query-unserved Query.current_thread h e = cc
  handle_query-unserved (Query.supported_features features) h e = cc
  handle_query-unserved Query.start_no_ack_mode h e = cc
  handle_query-unserved (Query.pass_signals signals) h e = cc
  handle_query-unserved (Query.program_signals signals) h e = cc

  -- A command of the list `unserved` gets the empty answer, and changes nothing: among them are
  -- the ones of system calls and of address randomization.
  pub handle_command-unserved :
      (c : Command) (h : GdbHandler M)
      → unserved c ≡ true
      → handle_command (gdb_handler vm le fuel) truncate c h ≡ some (some empty, h)
  unfolding handle_command gdb_handler
  handle_command-unserved (Command.query q) h e = ap some (handle_query-unserved q h e)
  handle_command-unserved (Command.write_general_registers data_) h e = refl
  handle_command-unserved (Command.kill none) h e = refl
  handle_command-unserved (Command.kill (some pid)) h e = refl
  handle_command-unserved Command.reset h e = refl
  handle_command-unserved (Command.set_current_thread f id) h e = refl
  handle_command-unserved (Command.detach pid) h e = refl
  handle_command-unserved (Command.ping_thread id) h e = refl
  handle_command-unserved Command.ctrl_c h e = refl
  handle_command-unserved Command.unknown_v_command h e = refl
  handle_command-unserved (Command.insert_hardware_breakpoint bp) h e = refl
  handle_command-unserved (Command.insert_read_watchpoint wp) h e = refl
  handle_command-unserved (Command.insert_access_watchpoint wp) h e = refl
  handle_command-unserved (Command.remove_hardware_breakpoint bp) h e = refl
  handle_command-unserved (Command.remove_read_watchpoint wp) h e = refl
  handle_command-unserved (Command.remove_access_watchpoint wp) h e = refl
  handle_command-unserved (Command.host_open filename mode flags) h e = refl
  handle_command-unserved (Command.host_close fd) h e = refl
  handle_command-unserved (Command.host_pread fd count offset) h e = refl
  handle_command-unserved (Command.host_pwrite fd offset data_) h e = refl
  handle_command-unserved (Command.host_fstat fd) h e = refl
  handle_command-unserved (Command.host_unlink filename) h e = refl
  handle_command-unserved (Command.host_readlink filename) h e = refl
  handle_command-unserved (Command.host_set_fs pid) h e = refl
  handle_command-unserved Command.enable_extended_mode h e = cc
  handle_command-unserved Command.target_halt_reason h e = cc
  handle_command-unserved Command.read_general_registers h e = cc
  handle_command-unserved (Command.read_register regno) h e = cc
  handle_command-unserved (Command.write_register regno data_) h e = cc
  handle_command-unserved (Command.read_memory region) h e = cc
  handle_command-unserved (Command.write_memory region data_) h e = cc
  handle_command-unserved (Command.insert_software_breakpoint bp) h e = cc
  handle_command-unserved (Command.insert_write_watchpoint wp) h e = cc
  handle_command-unserved (Command.remove_software_breakpoint bp) h e = cc
  handle_command-unserved (Command.remove_write_watchpoint wp) h e = cc
  handle_command-unserved Command.v_cont_supported h e = cc
  handle_command-unserved (Command.v_cont list) h e = cc

module _ {M D I : Type 0} (vm : Vm M D I) (sound : (d : D) (m : M) → (vm.step d m).0 ≡ ok tt)
    (le : LittleEndian) (fuel : ℕ) (truncate : Truncate) where
  -- The answer to `vCont;c` as `Ended` says it of the handler's method.
  abbrev pub Answered : Option Response × GdbHandler M → Type 0
  Answered a =
      ((a.0 ≡ some (stopped (signal 5)))
        × (vm.running a.1.machine ≡ true)
        × (at_breakpoint vm a.1 ≡ true))
      ⊎ ((a.0 ≡ some (stopped (exited 0 (vm.exit_code a.1.machine))))
          × (vm.running a.1.machine ≡ false))

  Ended-Answered :
      (r : Handled StopReason × GdbHandler M)
      → Ended vm sound r (at_breakpoint vm r.1)
      → Answered (reply (gdb_handler vm le fuel) truncate stopped r)
  unfolding reply into_response
  Ended-Answered r (inl (signalled, on, there)) = inl ((rw signalled), on, there)
  Ended-Answered r (inr (gone, off)) = inr ((rw gone), off)

  -- On a machine whose steps do not fail, without watchpoints, the packet `vCont;c` is answered by
  -- SIGTRAP where the machine stands at a breakpoint, or by the exit of the process 0 with the
  -- machine's code.
  pub handle_command_continue :
      (thread : Option ThreadId) (rest : List (VCont × Option ThreadId)) (h : GdbHandler M)
      {a : Option Response × GdbHandler M}
      → h.watchpoints ≡ []
      → handle_command
          (gdb_handler vm le fuel)
          truncate
          (Command.v_cont ((VCont.continue, thread) ∷ rest))
          h
        ≡ some a
      → Answered a
  unfolding handle_command gdb_handler
  handle_command_continue thread rest h none_set e =
      elim (Option-cases (vcont vm fuel ((VCont.continue, thread) ∷ rest) h)) [
        | inl out ↦ absurd (cc (rw (out, handle_command) at e))
        | inr (r, back) ↦
            subst Answered (some-injective _ _ (rw (back, handle_command) at e))
              (Ended-Answered r (vcont_continue vm sound fuel thread rest h none_set back))
      ]
