-- ===== src/Tests/Syscalls.antt =====
-- System calls on a small machine.
use ckb_standalone_debugger.Prelude.{
  ℕ, zero, suc, ◌+◌, ◌%◌, ◌<◌, ◌≢◌, ap, ◌∙◌, get_or, ltb, ==_iff, ne→==-false, Bool-cases, inl, inr,
  arith, panic, ◌≡◌, ◌≤◌, refl, true, false, none, [], ◌∷◌, ◌==◌, if◌then◌else◌, Bytes, length,
  take, ok,
}
use ckb_standalone_debugger.Prelude.Format.{codes}
use ckb_standalone_debugger.Vm.{Vm, RegisterLaws}
use ckb_standalone_debugger.Syscalls.FileStream.{new, ecall}
use ckb_standalone_debugger.Syscalls.FileStream.Serves.{StoreLaws, Served, ecall-Served}
use ckb_standalone_debugger.Syscalls.FileStream.Reads.{reads, reads-new}
use ckb_standalone_debugger.Syscalls.Stdio
use ckb_standalone_debugger.Tests.Toy.{Toy, Instruction, toy_vm, store}

abbrev file : Bytes
file = codes "abcdefg"

-- Reads of 3, 0, 10 and 1 bytes.
all_read : (reads (3 ∷ 0 ∷ 10 ∷ 1 ∷ []) (new file)).0 ≡ file
unfolding reads new
all_read = refl

reads-new_example :
    ((reads (3 ∷ 2 ∷ []) (new file)).0 ≡ take (reads (3 ∷ 2 ∷ []) (new file)).1.offset file)
    × ((reads (3 ∷ 2 ∷ []) (new file)).1.offset ≤ length file)
reads-new_example = reads-new (3 ∷ 2 ∷ []) file

-- A program that calls for four bytes at the address 64.
abbrev toy : Toy
toy = record {
  counter = 16;
  next_counter = 0;
  file = λ k. if k == 17 then 9000 else if k == 10 then 64 else if k == 11 then 4 else 0;
  memory = λ a. 0;
  alive = true;
  spent = 0;
  program = [];
}

read_succeeds : (ecall toy_vm (new file) toy).0 ≡ ok true
unfolding ecall new
read_succeeds = refl

-- The toy machine with a memory that has no end.
abbrev flat_vm : Vm Toy (Unit {0}) Instruction
flat_vm = record toy_vm { load8 = λ a m. (ok (m.memory a % 256), m) }

flat_registers : RegisterLaws flat_vm
flat_registers = record {
  registers-set_register_self = λ i v m h. ground arith;
  registers-set_register_ne = λ i j v m h. ground arith;
  pc-set_register = λ i v m. refl;
  pc-commit_pc = λ v m. refl;
  registers-commit_pc = λ i v m. refl;
}

store-get_or :
    (a : ℕ) (bs : Bytes) (mem : ℕ → ℕ) (i : ℕ)
    → i < length bs
    → store a bs mem (a + i) ≡ get_or bs i 0
store-get_or a [] mem i h = absurd (omega arith)
store-get_or a (b ∷ bs) mem zero h =
    let here : a + 0 ≡ a = omega arith in rw ((==_iff (a + 0) a).1 here) refl
store-get_or a (b ∷ bs) mem (suc i) h =
    let later : a + suc i ≢ a = λ e. omega (arith, e) in
    let next : a + suc i ≡ a + 1 + i = omega arith in
    rw (ne→==-false (a + suc i) a later)
      (ap (store (a + 1) bs mem) next ∙ store-get_or (a + 1) bs mem i (omega arith))

flat_store : StoreLaws flat_vm
flat_store = record {
  load8-store_bytes = λ a bs m i there stored. elim (Bool-cases (ltb a 4096)) [
    | inl fits ↦ rw fits (ap (λ k. ok (k % 256)) (store-get_or a bs m.memory i there))
    | inr faults ↦ absurd (cc (rw faults at stored))
  ];
  load8-set_register = λ i v a m. refl;
}

flat_succeeds : (ecall flat_vm (new file) toy).0 ≡ ok true
unfolding ecall new
flat_succeeds = refl

ecall-Served_example :
    Served flat_vm flat_registers flat_store
      (new file)
      toy
      (ecall flat_vm (new file) toy).1
      (ecall flat_vm (new file) toy).2
ecall-Served_example =
    ecall-Served flat_vm flat_registers flat_store (new file) toy refl flat_succeeds

-- A count of 2^63 is a panic.
abbrev greedy : Toy
greedy = record toy { file = λ k. if k == 17 then 9000 else 9223372036854775808 }

overflows : (ecall toy_vm (new file) greedy).0 ≡ panic
unfolding ecall new
overflows = refl

abbrev no_files : Stdio.Os (Unit {0})
no_files = record {
  close = λ fd o. (none, o);
  fstat = λ fd o. (none, o);
  lseek = λ fd offset whence o. (none, o);
  read = λ fd size o. (none, o);
  write = λ fd data_ o. (none, o);
}

abbrev kept : Stdio.Stdio
kept = record { keep_stdios = true }

other_call : (Stdio.ecall toy_vm no_files kept tt toy).0 ≡ ok false
unfolding Stdio.ecall
other_call = refl
