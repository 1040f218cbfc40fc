-- ===== src/Syscalls/FileStream.antt =====
-- `FileStream` (ckb-debugger/src/misc.rs): the system call that reads a file which was read into
-- memory as a whole.
pub mod Reads
pub mod Serves
use ckb_standalone_debugger.Prelude.{
  ℕ, zero, suc, ◌+◌, ◌-◌, ◌^◌, min, ◌==◌, Bool, true, false, not, Option, none, some, List, [], ◌∷◌,
  Bytes, length, take, drop, leb, ltb, ok, err, panic, if◌then◌else◌,
}
use ckb_standalone_debugger.Vm.{minus_one, Vm, VmResult, u64_mod, a0, a1, a7}

abbrev pub read_syscall_number : ℕ
read_syscall_number = 9000

pub record FileStream : Type 0 where
  pub content : Bytes
  pub offset : ℕ

-- `FileStream::new`, from the bytes of the file.
unfoldable pub new : Bytes → FileStream
new content = record { content = content; offset = 0 }

-- `read` into a buffer of `count` bytes: what it copied there, and `none` for -1.
unfoldable pub read : ℕ → FileStream → Option Bytes × FileStream
read count s =
    let read_size = min count (length s.content - s.offset) in
    if leb (length s.content) s.offset then (none, s) else (
      some (take read_size (drop s.offset s.content)),
      record s { offset = s.offset + read_size },
    )

-- `vec![0u8; n]` panics when the vector would be larger than `isize::MAX` bytes.
unfoldable pub capacity_overflow : ℕ → Bool
capacity_overflow count = leb (2 ^ 63) count

module _ {M D I : Type 0} (vm : Vm M D I) where
  -- What follows the read: nothing read is -1.
  unfoldable pub deliver : ℕ → Option Bytes → M → VmResult Bool × M
  deliver arg_buf none m = (ok true, vm.set_register a0 minus_one m)
  deliver arg_buf (some []) m = (ok true, vm.set_register a0 minus_one m)
  deliver arg_buf (some (b ∷ bs)) m =
      let (stored, m') = vm.store_bytes arg_buf (b ∷ bs) m in
      elim stored [
        | ok _ ↦ (ok true, vm.set_register a0 (length (b ∷ bs)) m')
        | err e ↦ (err e, m')
        | panic ↦ (panic, m')
      ]

  unfoldable pub ecall : FileStream → M → VmResult Bool × FileStream × M
  unfolding read deliver capacity_overflow
  ecall s m =
      let (got, s') = read (vm.registers m a1) s in
      let (result, m') = deliver (vm.registers m a0) got m in
      if not (vm.registers m a7 == read_syscall_number)
      then (ok false, s, m)
      else if capacity_overflow (vm.registers m a1)
      then (panic, s, m)
      else (result, s', m')
