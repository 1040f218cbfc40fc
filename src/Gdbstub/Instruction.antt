-- ===== src/Gdbstub/Instruction.antt =====
-- The `Memory`, `CoreMachine` and `Machine` implementations of `GdbStubHandler`
-- (ckb-vm-debug-utils/src/gdbstub.rs), through which an instruction acts on it. ckb-vm's `execute`
-- is generic over them: an instruction is the tree of the calls that it makes.
pub mod Logs
use ckb_standalone_debugger.Prelude.{ℕ, List, [], ◌∷◌, ◌++◌, ok, err, panic}
use ckb_standalone_debugger.Vm.{Vm, VmError, VmResult}
use ckb_standalone_debugger.Gdbstub.State.{GdbStubHandler}

-- `load8`, `load16`, `load32` and `load64`, and the stores
pub data Width : Type 0 where
  w8 w16 w32 w64 : Width

-- What an instruction does: calls of the traits, each going on with its result.
pub data Calls : Type 0 where
  done : VmResult (Unit {0}) → Calls
  load : Width → ℕ → (VmResult ℕ → Calls) → Calls
  store : Width → ℕ → ℕ → (VmResult (Unit {0}) → Calls) → Calls
  read_register : ℕ → (ℕ → Calls) → Calls
  write_register : ℕ → ℕ → Calls → Calls
  read_pc : (ℕ → Calls) → Calls
  update_pc : ℕ → Calls → Calls
  commit_pc : Calls → Calls
  lr : (ℕ → Calls) → Calls
  set_lr : ℕ → Calls → Calls
  version : (ℕ → Calls) → Calls
  isa : (ℕ → Calls) → Calls
  ecall : (VmResult (Unit {0}) → Calls) → Calls
  ebreak : (VmResult (Unit {0}) → Calls) → Calls

-- The wrapped machine's own memory and calls, and ckb-vm's `execute`.
pub record Inner (M I : Type 0) : Type 0 where
  pub load_memory : Width → ℕ → M → VmResult ℕ × M
  pub store_memory : Width → ℕ → ℕ → M → VmResult (Unit {0}) × M
  pub inner_lr : M → ℕ
  pub inner_set_lr : ℕ → M → M
  pub inner_ecall : M → VmResult (Unit {0}) × M
  pub inner_ebreak : M → VmResult (Unit {0}) × M
  pub calls : I → Calls

-- `addr` is pushed if the access did not fail: `?` leaves before the push.
abbrev pub pushed : {A : Type 0} → VmResult A → ℕ → List ℕ → List ℕ
pushed (ok a) addr log = addr ∷ log
pushed (err e) addr log = log
pushed panic addr log = log

module _ {M D I : Type 0} (vm : Vm M D I) (inner : Inner M I) where
  -- `load8` to `load64`: an address that was read is logged.
  unfoldable pub logged_load : Width → ℕ → GdbStubHandler M D → VmResult ℕ × GdbStubHandler M D
  logged_load w addr h =
      let (result, m) = inner.load_memory w addr h.machine in
      (result, record h { machine = m; memory_reads = pushed result addr h.memory_reads })

  -- `store8` to `store64`: an address that was written is logged.
  unfoldable pub logged_store :
      Width → ℕ → ℕ → GdbStubHandler M D → VmResult (Unit {0}) × GdbStubHandler M D
  logged_store w addr value h =
      let (result, m) = inner.store_memory w addr value h.machine in
      (result, record h { machine = m; memory_writes = pushed result addr h.memory_writes })

  -- The calls of an instruction, made on the handler.
  unfoldable pub run : Calls → GdbStubHandler M D → VmResult (Unit {0}) × GdbStubHandler M D
  unfolding logged_load logged_store
  run (done r) h = (r, h)
  run (load w addr k) h = let (r, h') = logged_load w addr h in run (k r) h'
  run (store w addr value k) h = let (r, h') = logged_store w addr value h in run (k r) h'
  run (read_register i k) h = run (k (vm.registers h.machine i)) h
  run (write_register i v k) h = run k (record h { machine = vm.set_register i v h.machine })
  run (read_pc k) h = run (k (vm.pc h.machine)) h
  run (update_pc v k) h = run k (record h { machine = vm.update_pc v h.machine })
  run (commit_pc k) h = run k (record h { machine = vm.commit_pc h.machine })
  run (lr k) h = run (k (inner.inner_lr h.machine)) h
  run (set_lr addr k) h = run k (record h { machine = inner.inner_set_lr addr h.machine })
  run (version k) h = run (k (vm.version h.machine)) h
  run (isa k) h = run (k (vm.isa h.machine)) h
  run (ecall k) h = let (r, m) = inner.inner_ecall h.machine in run (k r) (record h { machine = m })
  run (ebreak k) h =
      let (r, m) = inner.inner_ebreak h.machine in run (k r) (record h { machine = m })
