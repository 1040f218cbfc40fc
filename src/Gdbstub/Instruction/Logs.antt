-- ===== src/Gdbstub/Instruction/Logs.antt =====
-- The logs of an instruction against the instruction on the bare machine.
use mathlib.Core.List.{reverse, reverse-cons}
use ckb_standalone_debugger.Prelude.{
  ℕ, ◌≡◌, refl, ◌∙◌, ap, sym, Bool, true, false, List, [], ◌∷◌, ◌++◌, append_assoc, ok, err, panic,
}
use ckb_standalone_debugger.Vm.{Vm, VmResult}
use ckb_standalone_debugger.Gdbstub.State.{GdbStubHandler}
use ckb_standalone_debugger.Gdbstub.Instruction.{
  Calls, done, load, store, read_register, write_register, read_pc, update_pc, commit_pc, lr,
  set_lr, version, isa, ecall, ebreak, Inner, pushed, run,
}

-- An access of memory, and whether it succeeded.
pub data Access : Type 0 where
  read_at write_at : ℕ → Bool → Access

abbrev pub succeeded : {A : Type 0} → VmResult A → Bool
succeeded (ok a) = true
succeeded (err e) = false
succeeded panic = false

-- The addresses of the reads that succeeded, and of the writes, the first one first.
abbrev pub read_addrs : List Access → List ℕ
read_addrs [] = []
read_addrs (read_at addr true ∷ accesses) = addr ∷ read_addrs accesses
read_addrs (read_at addr false ∷ accesses) = read_addrs accesses
read_addrs (write_at addr done_ ∷ accesses) = read_addrs accesses

abbrev pub write_addrs : List Access → List ℕ
write_addrs [] = []
write_addrs (write_at addr true ∷ accesses) = addr ∷ write_addrs accesses
write_addrs (write_at addr false ∷ accesses) = write_addrs accesses
write_addrs (read_at addr done_ ∷ accesses) = write_addrs accesses

-- What an instruction does on a machine without logs: its result, the machine after it, and its
-- accesses of memory in their order, also those that failed.
pub record Bare (M : Type 0) : Type 0 where
  pub result : VmResult (Unit {0})
  pub machine : M
  pub accesses : List Access

abbrev also : {M : Type 0} → Access → Bare M → Bare M
also a b = record b { accesses = a ∷ b.accesses }

reads-pushed :
    {A : Type 0} (r : VmResult A) (addr : ℕ) (accesses : List Access) (log : List ℕ)
    → reverse (read_addrs accesses) ++ pushed r addr log
      ≡ reverse (read_addrs (read_at addr (succeeded r) ∷ accesses)) ++ log
reads-pushed (ok a) addr accesses log = sym (
    ap (λ l. l ++ log) (reverse-cons addr (read_addrs accesses))
    ∙ append_assoc (reverse (read_addrs accesses)) (addr ∷ []) log)
reads-pushed (err e) addr accesses log = refl
reads-pushed panic addr accesses log = refl

writes-pushed :
    {A : Type 0} (r : VmResult A) (addr : ℕ) (accesses : List Access) (log : List ℕ)
    → reverse (write_addrs accesses) ++ pushed r addr log
      ≡ reverse (write_addrs (write_at addr (succeeded r) ∷ accesses)) ++ log
writes-pushed (ok a) addr accesses log = sym (
    ap (λ l. l ++ log) (reverse-cons addr (write_addrs accesses))
    ∙ append_assoc (reverse (write_addrs accesses)) (addr ∷ []) log)
writes-pushed (err e) addr accesses log = refl
writes-pushed panic addr accesses log = refl

module _ {M D I : Type 0} (vm : Vm M D I) (inner : Inner M I) where
  unfoldable pub bare : Calls → M → Bare M
  bare (done r) m = record { result = r; machine = m; accesses = [] }
  bare (load w addr k) m =
      let (r, m') = inner.load_memory w addr m in also (read_at addr (succeeded r)) (bare (k r) m')
  bare (store w addr value k) m =
      let (r, m') = inner.store_memory w addr value m in
      also (write_at addr (succeeded r)) (bare (k r) m')
  bare (read_register i k) m = bare (k (vm.registers m i)) m
  bare (write_register i v k) m = bare k (vm.set_register i v m)
  bare (read_pc k) m = bare (k (vm.pc m)) m
  bare (update_pc v k) m = bare k (vm.update_pc v m)
  bare (commit_pc k) m = bare k (vm.commit_pc m)
  bare (lr k) m = bare (k (inner.inner_lr m)) m
  bare (set_lr addr k) m = bare k (inner.inner_set_lr addr m)
  bare (version k) m = bare (k (vm.version m)) m
  bare (isa k) m = bare (k (vm.isa m)) m
  bare (ecall k) m = let (r, m') = inner.inner_ecall m in bare (k r) m'
  bare (ebreak k) m = let (r, m') = inner.inner_ebreak m in bare (k r) m'

  -- The handler with these logs, and what a bare run left.
  abbrev logging :
      GdbStubHandler M D → Bare M → List ℕ → List ℕ → VmResult (Unit {0}) × GdbStubHandler M D
  logging h b reads writes =
      (b.result, record h { machine = b.machine; memory_reads = reads; memory_writes = writes })

  -- The handler with what a bare run left, and the accesses that succeeded in front of its logs,
  -- the last one first.
  abbrev pub with_bare : GdbStubHandler M D → Bare M → VmResult (Unit {0}) × GdbStubHandler M D
  with_bare h b =
      logging h b (reverse (read_addrs b.accesses) ++ h.memory_reads)
        (reverse (write_addrs b.accesses) ++ h.memory_writes)

  -- An instruction on the handler does to the wrapped machine, and answers, what it does on the
  -- bare machine; of the handler's other fields it changes the two logs alone, and these gain
  -- exactly the addresses of the loads and stores that succeeded, the last one first.
  pub run-bare :
      (c : Calls) (h : GdbStubHandler M D) → run vm inner c h ≡ with_bare h (bare c h.machine)
  unfolding run bare
  run-bare (done r) h = refl
  run-bare (load w addr k) h =
      let (r, m) = inner.load_memory w addr h.machine in
      let b = bare (k r) m in
      run-bare (k r) (record h { machine = m; memory_reads = pushed r addr h.memory_reads })
      ∙ ap (λ reads. logging h b reads (reverse (write_addrs b.accesses) ++ h.memory_writes))
          (reads-pushed r addr b.accesses h.memory_reads)
  run-bare (store w addr value k) h =
      let (r, m) = inner.store_memory w addr value h.machine in
      let b = bare (k r) m in
      run-bare (k r) (record h { machine = m; memory_writes = pushed r addr h.memory_writes })
      ∙ ap (λ writes. logging h b (reverse (read_addrs b.accesses) ++ h.memory_reads) writes)
          (writes-pushed r addr b.accesses h.memory_writes)
  run-bare (read_register i k) h = run-bare (k (vm.registers h.machine i)) h
  run-bare (write_register i v k) h =
      run-bare k (record h { machine = vm.set_register i v h.machine })
  run-bare (read_pc k) h = run-bare (k (vm.pc h.machine)) h
  run-bare (update_pc v k) h = run-bare k (record h { machine = vm.update_pc v h.machine })
  run-bare (commit_pc k) h = run-bare k (record h { machine = vm.commit_pc h.machine })
  run-bare (lr k) h = run-bare (k (inner.inner_lr h.machine)) h
  run-bare (set_lr addr k) h = run-bare k (record h { machine = inner.inner_set_lr addr h.machine })
  run-bare (version k) h = run-bare (k (vm.version h.machine)) h
  run-bare (isa k) h = run-bare (k (vm.isa h.machine)) h
  run-bare (ecall k) h =
      run-bare (k (inner.inner_ecall h.machine).0)
        (record h { machine = (inner.inner_ecall h.machine).1 })
  run-bare (ebreak k) h =
      run-bare (k (inner.inner_ebreak h.machine).0)
        (record h { machine = (inner.inner_ebreak h.machine).1 })
