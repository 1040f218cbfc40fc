-- ===== src/Syscalls/Stdio.antt =====
-- `Stdio` and `AbiStat` (ckb-vm-debug-utils/src/stdio.rs): system calls on descriptors. The
-- operating system, through the package nix, is an argument: a state and operations on it.
pub mod Calls
use ckb_standalone_debugger.Prelude.{
  unwrap_or, ℕ, zero, suc, ◌+◌, ◌%◌, ◌^◌, ◌==◌, ◌&&◌, Bool, true, false, Option, none, some, List,
  [], ◌∷◌, ◌++◌, Bytes, length, leb, ok, err, panic, if◌then◌else◌, to_le_bytes,
}
use ckb_standalone_debugger.Prelude.Format.{codes}
use ckb_standalone_debugger.Vm.{
  minus_one, Vm, VmError, VmResult, unexpected, u64_mod, a0, a1, a2, a7,
}

-- `AbiStat`. A signed field has the bit pattern of its number.
pub record AbiStat : Type 0 where
  pub dev : ℕ
  pub ino : ℕ
  pub mode : ℕ
  pub nlink : ℕ
  pub uid : ℕ
  pub gid : ℕ
  pub rdev : ℕ
  pub size : ℕ
  pub blksize : ℕ
  pub blocks : ℕ
  pub atime : ℕ
  pub atime_nsec : ℕ
  pub mtime : ℕ
  pub mtime_nsec : ℕ
  pub ctime : ℕ
  pub ctime_nsec : ℕ

-- The `repr(C)` layout on a little-endian host: two paddings and two fields that stay zero.
unfoldable pub stat_bytes : AbiStat → Bytes
stat_bytes s =
    to_le_bytes 8 s.dev
    ++ (to_le_bytes 8 s.ino
        ++ (to_le_bytes 4 s.mode
            ++ (to_le_bytes 4 s.nlink
                ++ (to_le_bytes 4 s.uid
                    ++ (to_le_bytes 4 s.gid
                        ++ (to_le_bytes 8 s.rdev
                            ++ (to_le_bytes 8 0
                                ++ (to_le_bytes 8 s.size
                                    ++ (to_le_bytes 4 s.blksize
                                        ++ (to_le_bytes 4 0
                                            ++ (to_le_bytes 8 s.blocks
                                                ++ (to_le_bytes 8 s.atime
                                                    ++ (to_le_bytes 8 s.atime_nsec
                                                        ++ (to_le_bytes 8 s.mtime
                                                            ++ (to_le_bytes 8 s.mtime_nsec
                                                            ++ (to_le_bytes 8 s.ctime
                                                            ++ (to_le_bytes 8 s.ctime_nsec
                                                            ++ (to_le_bytes 4 0
                                                            ++ to_le_bytes 4 0))))))))))))))))))

pub data Whence : Type 0 where
  seek_set seek_cur seek_end : Whence

-- nix's calls; `none` is an error. A descriptor is the bit pattern of an `i32`.
pub record Os (O : Type 0) : Type 0 where
  pub close : ℕ → O → Option (Unit {0}) × O
  pub fstat : ℕ → O → Option AbiStat × O
  pub lseek : ℕ → ℕ → Whence → O → Option ℕ × O
  -- what was read into a buffer of the size
  pub read : ℕ → ℕ → O → Option Bytes × O
  pub write : ℕ → Bytes → O → Option ℕ × O

-- `to_i32`, as a bit pattern
abbrev pub to_i32 : ℕ → ℕ
to_i32 v = v % 2 ^ 32

-- `SEEK_SET`, `SEEK_CUR` and `SEEK_END`
unfoldable pub whence_of : ℕ → Option Whence
whence_of w =
    if w == 0
    then some seek_set
    else if w == 1
    then some seek_cur
    else if w == 2
    then some seek_end
    else none

-- `Stdio`
pub record Stdio : Type 0 where
  pub keep_stdios : Bool

module _ {M D I O : Type 0} (vm : Vm M D I) (os : Os O) where
  -- The result of a call, the system and the machine.
  abbrev pub Called : Type 0
  Called = VmResult (Unit {0}) × O × M

  abbrev pub set_a0 : ℕ → O → M → Called
  set_a0 v o m = (ok tt, o, vm.set_register a0 v m)

  -- `store_bytes(…)?`, and then `a0`.
  unfoldable pub store_and_set : ℕ → Bytes → ℕ → O → M → Called
  store_and_set addr data_ v o m =
      let (stored, m') = vm.store_bytes addr data_ m in
      elim stored [ ok _ ↦ set_a0 v o m' | err e ↦ (err e, o, m') | panic ↦ (panic, o, m') ]

  unfoldable pub close : Stdio → O → M → Called
  close stdio o m =
      let fd = to_i32 (vm.registers m a0) in
      if leb fd 2 && stdio.keep_stdios
      then set_a0 0 o m
      else let (ret, o') = os.close fd o in
        elim ret [ some _ ↦ set_a0 0 o' m | none ↦ set_a0 minus_one o' m ]

  unfoldable pub fstat : O → M → Called
  unfolding stat_bytes store_and_set
  fstat o m =
      let (ret, o') = os.fstat (to_i32 (vm.registers m a0)) o in
      elim ret [
        | some stat ↦ store_and_set (vm.registers m a1) (stat_bytes stat) 0 o' m
        | none ↦ set_a0 minus_one o' m
      ]

  unfoldable pub lseek : O → M → Called
  unfolding whence_of
  lseek o m = elim (whence_of (to_i32 (vm.registers m a2))) [
    | some whence ↦
        let (ret, o') = os.lseek (to_i32 (vm.registers m a0)) (vm.registers m a1) whence o in
        set_a0 (unwrap_or ret minus_one) o' m
    | none ↦ (err (unexpected (codes "Unexpected whence")), o, m)
  ]

  unfoldable pub read : O → M → Called
  unfolding store_and_set
  read o m =
      let (ret, o') = os.read (to_i32 (vm.registers m a0)) (vm.registers m a2) o in
      elim ret [
        | some data_ ↦ store_and_set (vm.registers m a1) data_ (length data_) o' m
        | none ↦ set_a0 minus_one o' m
      ]

  -- The loop of `write`: `n` bytes of the machine's memory.
  unfoldable pub load_from : ℕ → ℕ → M → VmResult Bytes × M
  load_from zero addr m = (ok [], m)
  load_from (suc n) addr m =
      let (loaded, m') = vm.load8 (addr % u64_mod) m in
      elim loaded [
        | ok value ↦
            let (rest, m'') = load_from n (addr + 1) m' in
            (
              elim rest [ ok values ↦ ok ((value % 256) ∷ values) | err e ↦ err e | panic ↦ panic ],
              m'',
            )
        | err e ↦ (err e, m')
        | panic ↦ (panic, m')
      ]

  unfoldable pub write : O → M → Called
  unfolding load_from
  write o m =
      let fd = to_i32 (vm.registers m a0) in
      let (loaded, m') = load_from (vm.registers m a2) (vm.registers m a1) m in
      elim loaded [
        | ok data_ ↦ let (ret, o') = os.write fd data_ o in set_a0 (unwrap_or ret minus_one) o' m'
        | err e ↦ (err e, o, m')
        | panic ↦ (panic, o, m')
      ]

  -- `…?` in front of `Ok(true)`
  unfoldable pub served : Called → VmResult Bool × O × M
  served (ok _, o, m) = (ok true, o, m)
  served (err e, o, m) = (err e, o, m)
  served (panic, o, m) = (panic, o, m)

  unfoldable pub ecall : Stdio → O → M → VmResult Bool × O × M
  unfolding served close lseek read write fstat
  ecall stdio o m =
      let number = vm.registers m a7 in
      if number == 57
      then served (close stdio o m)
      else if number == 62
      then served (lseek o m)
      else if number == 63
      then served (read o m)
      else if number == 64
      then served (write o m)
      else if number == 80
      then served (fstat o m)
      else (ok false, o, m)
