-- ===== src/Gdbstub/Step/Events.antt =====
-- What the event of a step says about the instruction that it executed.
use mathlib.Core.List.{reverse, reverse-cons}
use ckb_standalone_debugger.Prelude.{
  ℕ, ◌≡◌, refl, ap, List, ◌∷◌, ◌++◌, ◌∙◌, sym, ◌&&◌, Bool, true, false, Option, none, some, [], ok,
  err, panic, Bool-cases, Outcome-cases, inl, inr, arith,
}
use ckb_standalone_debugger.Vm.{Vm, VmResult, a7}
use ckb_standalone_debugger.Gdbstub.State.{
  GdbStubHandler, VmEvent, done_step, incoming_data, contains, filtered, clear_memory_ops,
}
use ckb_standalone_debugger.Gdbstub.Instruction.{Inner}
use ckb_standalone_debugger.Gdbstub.Instruction.Logs.{Bare, bare, read_addrs, write_addrs, run-bare}
use ckb_standalone_debugger.Gdbstub.Step.{
  perform, step_inner, next_opcode, is_ecall, access_event, event_after, clear_signal, after_inner,
  step,
}

not_last : (x : ℕ) (ys : List ℕ) → (ys ++ x ∷ []) ++ [] ≡ [] → ⊥
not_last x [] e = cc
not_last x (y ∷ ys) e = cc

reverse_none : (xs : List ℕ) → reverse xs ++ [] ≡ [] → xs ≡ []
reverse_none [] e = refl
reverse_none (x ∷ xs) e =
    absurd (not_last x (reverse xs) (ap (λ l. l ++ []) (sym (reverse-cons x xs)) ∙ e))

module _ {M D I : Type 0} (vm : Vm M D I) (inner : Inner M I) where
  access_event-none :
      (h : GdbStubHandler M D)
      → (access_event vm inner h).0 ≡ none
      → (h.memory_writes ≡ []) × (h.memory_reads ≡ [])
  unfolding access_event
  access_event-none h e = ground arith

  access_event-machine : (h : GdbStubHandler M D) → (access_event vm inner h).1.machine ≡ h.machine
  unfolding access_event
  access_event-machine h = ground arith

  event_after-none :
      (h : GdbStubHandler M D)
      → (event_after vm inner h).0 ≡ none
      → (contains h.breakpoints (vm.pc (event_after vm inner h).1.machine) ≡ false)
        × ((h.memory_writes ≡ []) × (h.memory_reads ≡ []))
  unfolding event_after next_opcode
  event_after-none h e =
      let h' = (next_opcode vm inner h).1 in
      let caught =
        is_ecall vm inner (next_opcode vm inner h).0
        && filtered h'.catch_syscalls (vm.registers h'.machine a7) in
      elim (Bool-cases caught) [
        | inl c ↦ absurd (cc (rw (c, event_after) at e))
        | inr c ↦ elim (Bool-cases (contains h'.breakpoints (vm.pc h'.machine))) [
          | inl b ↦ absurd (cc (rw (c, event_after, b) at e))
          | inr b ↦ (
            rw (c, event_after, b, access_event-machine h') b,
            access_event-none h' (rw (c, event_after, b) at e),
          )
        ]
      ]

  event_after-machine :
      (h : GdbStubHandler M D)
      → (event_after vm inner h).1.machine ≡ (vm.decode h.decoder h.machine (vm.pc h.machine)).2
  unfolding event_after next_opcode access_event
  event_after-machine h = ground arith

  -- What the decoder gives at the program counter, the machine that paid for an instruction, what
  -- the instruction does to it, and what the decoder gives at the program counter after that.
  abbrev pub fetch : GdbStubHandler M D → VmResult I × D × M
  fetch h = vm.decode h.decoder h.machine (vm.pc h.machine)

  abbrev pub pay : GdbStubHandler M D → I → VmResult (Unit {0}) × M
  pay h i = vm.add_cycles (vm.instruction_cycle i) (fetch h).2

  abbrev pub effect : GdbStubHandler M D → I → Bare M
  effect h i = bare vm inner (inner.calls i) (pay h i).1

  abbrev pub fetch_next : GdbStubHandler M D → I → VmResult I × D × M
  fetch_next h i = let b = effect h i in vm.decode (fetch h).1 b.machine (vm.pc b.machine)

  -- The handler after an instruction, with the accesses of that one in the logs.
  abbrev after : GdbStubHandler M D → I → GdbStubHandler M D
  after h i =
      let b = effect h i in
      record h {
        decoder = (fetch h).1;
        machine = b.machine;
        memory_reads = reverse (read_addrs b.accesses) ++ [];
        memory_writes = reverse (write_addrs b.accesses) ++ [];
      }

  -- The instruction that `step_inner` executed.
  record Executed (h : GdbStubHandler M D) (r : VmResult (Unit {0}) × GdbStubHandler M D)
      : Type 0 where
    instruction : I
    decoded : (fetch h).0 ≡ ok instruction
    paid : (pay h instruction).0 ≡ ok tt
    went : r ≡ ((effect h instruction).result, after h instruction)

  step_inner-Executed :
      (h : GdbStubHandler M D) {u : Unit {0}}
      → (step_inner vm inner h).0 ≡ ok u
      → Executed h (step_inner vm inner h)
  unfolding step_inner perform clear_memory_ops
  step_inner-Executed h e = elim (Outcome-cases (fetch h).0) [
    | inl (i, good) ↦ elim (Outcome-cases (pay h i).0) [
      | inl (tt, added) ↦ record {
        instruction = i;
        decoded = good;
        paid = added;
        went =
            rw (good, step_inner, added, perform)
              (run-bare vm inner (inner.calls i)
                (clear_memory_ops (record h { decoder = (fetch h).1; machine = (pay h i).1 })));
      }
      | inr (inl (x, bad)) ↦ absurd (cc (rw (good, step_inner, bad, perform) at e))
      | inr (inr gone) ↦ absurd (cc (rw (good, step_inner, gone, perform) at e))
    ]
    | inr (inl (x, bad)) ↦ absurd (cc (rw (bad, step_inner) at e))
    | inr (inr gone) ↦ absurd (cc (rw (gone, step_inner) at e))
  ]

  -- What a step without an event means, of the handler after `clear_signal`: the machine was
  -- running, the decoder gave an instruction at the program counter, its cycles were added, it
  -- succeeded, and none of its accesses of memory did; the machine after the step is the one that
  -- it left, when the decoder has read the next instruction, and is at no breakpoint.
  pub record Silent (h : GdbStubHandler M D) : Type 0 where
    pub running : vm.running (clear_signal vm inner h).machine ≡ true
    pub instruction : I
    pub decoded : (fetch (clear_signal vm inner h)).0 ≡ ok instruction
    pub paid : (pay (clear_signal vm inner h) instruction).0 ≡ ok tt
    pub succeeds : (effect (clear_signal vm inner h) instruction).result ≡ ok tt
    pub no_reads : read_addrs (effect (clear_signal vm inner h) instruction).accesses ≡ []
    pub no_writes : write_addrs (effect (clear_signal vm inner h) instruction).accesses ≡ []
    pub same_machine :
        (step vm inner h).1.machine ≡ (fetch_next (clear_signal vm inner h) instruction).2
    pub no_breakpoint : contains h.breakpoints (vm.pc (step vm inner h).1.machine) ≡ false

  -- A step raises no event only if the machine was running, and the instruction at the program
  -- counter was paid for and executed, succeeded, and neither read nor wrote memory with success,
  -- whatever the watchpoints are; the step's machine is the one that this instruction leaves on the
  -- bare machine, once the decoder has read the next one, and the new program counter is at no
  -- breakpoint.
  pub step-Silent : (h : GdbStubHandler M D) → (step vm inner h).0 ≡ none → Silent h
  unfolding step clear_signal
  step-Silent h e =
      let c = clear_signal vm inner h in
      elim (Bool-cases (vm.running c.machine)) [
        | inr off ↦ absurd (cc (rw (off, step) at e))
        | inl on ↦ elim (Outcome-cases (step_inner vm inner c).0) [
          | inl (tt, good) ↦
              let x = step_inner-Executed c good in
              let i = x.instruction in
              let same : (step_inner vm inner c).1 ≡ after c i = ap (λ r. r.1) x.went in
              let quiet = event_after-none (after c i) (rw (sym same) (rw (on, step, good) at e)) in
              record {
                running = on;
                instruction = i;
                decoded = x.decoded;
                paid = x.paid;
                succeeds = sym (ap (λ r. r.0) x.went) ∙ good;
                no_reads = reverse_none (read_addrs (effect c i).accesses) quiet.1.1;
                no_writes = reverse_none (write_addrs (effect c i).accesses) quiet.1.0;
                same_machine = rw (on, step, good, same) (event_after-machine (after c i));
                no_breakpoint = rw (on, step, good, same) quiet.0;
              }
          | inr (inl (x, bad)) ↦ absurd (cc (rw (on, step, bad) at e))
          | inr (inr gone) ↦ absurd (cc (rw (on, step, gone) at e))
        ]
      ]

  -- The events that `step` may raise.
  abbrev pub of_step : Option VmEvent → Bool
  of_step (some done_step) = false
  of_step (some incoming_data) = false
  of_step _ = true

  event_after-of_step : (h : GdbStubHandler M D) → of_step (event_after vm inner h).0 ≡ true
  unfolding event_after access_event
  event_after-of_step h = ground arith

  after_inner-of_step :
      (r : VmResult (Unit {0}) × GdbStubHandler M D) → of_step (after_inner vm inner r).0 ≡ true
  unfolding after_inner
  after_inner-of_step (ok u, h) = event_after-of_step h
  after_inner-of_step (err e, h) = refl
  after_inner-of_step (panic, h) = refl

  -- `DoneStep` and `IncomingData` come from `execute` alone.
  pub step-of_step : (h : GdbStubHandler M D) → of_step (step vm inner h).0 ≡ true
  unfolding step
  step-of_step h = elim (Bool-cases (vm.running (clear_signal vm inner h).machine)) [
    | inl on ↦ rw (on, step) (after_inner-of_step _)
    | inr off ↦ rw (off, step)
  ]
