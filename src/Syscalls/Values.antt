-- ===== src/Syscalls/Values.antt =====
-- `TimeNow` and `Random` (ckb-debugger/src/misc.rs). The clock and the generator are arguments:
-- the number that they gave.
use ckb_standalone_debugger.Prelude.{ℕ, ◌%◌, ◌==◌, Bool, true, false, ok, if◌then◌else◌}
use ckb_standalone_debugger.Vm.{Vm, VmResult, u64_mod, a0, a7}

abbrev pub now_syscall_number : ℕ
now_syscall_number = 9001

abbrev pub random_syscall_number : ℕ
random_syscall_number = 9002

module _ {M D I : Type 0} (vm : Vm M D I) where
  -- A call with one number as its answer.
  unfoldable pub answer_call : ℕ → ℕ → M → VmResult Bool × M
  answer_call number value m =
      if vm.registers m a7 == number then (ok true, vm.set_register a0 value m) else (ok false, m)

  -- `TimeNow::ecall`: the nanoseconds since 1970, cut to 64 bits.
  unfoldable pub time_now : ℕ → M → VmResult Bool × M
  unfolding answer_call
  time_now nanos m = answer_call now_syscall_number (nanos % u64_mod) m

  -- `Random::ecall`
  unfoldable pub random : ℕ → M → VmResult Bool × M
  unfolding answer_call
  random r m = answer_call random_syscall_number r m
