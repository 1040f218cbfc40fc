-- ===== src/Pprof/Machine.antt =====
-- `PProfMachine::run` (ckb-vm-pprof/src/lib.rs): the loop that profiles and executes. A program
-- may run for ever, so the loop takes fuel, one unit for each instruction, and `none` says that
-- the fuel ran out.
pub mod Totals
use ckb_standalone_debugger.Prelude.{
  ℕ, zero, suc, Bool, true, false, Option, none, some, ok, err, panic, ◌==◌, ◌&&◌, Bytes,
  if◌then◌else◌,
}
use ckb_standalone_debugger.Vm.{Vm, VmResult, invalid_version}
use ckb_standalone_debugger.Pprof.Symbols.{Elf, Profile, new}
use ckb_standalone_debugger.Pprof.Step.{step}

-- `PProfMachine`, with the decoder that `run` builds.
pub record State (M D : Type 0) : Type 0 where
  pub machine : M
  pub decoder : D
  pub profile : Profile

-- `parse` stands for the ELF and DWARF parsers that `Profile::new` calls: `none` if one refuses.
module _ {M D I : Type 0} (vm : Vm M D I) (parse : Bytes → Option Elf) where
  -- `if self.machine.reset_signal() { … }`: another program was loaded, and `Profile::new` of its
  -- code is unwrapped.
  unfoldable pub reset : State M D → VmResult (State M D)
  reset s =
      let (signalled, m) = vm.reset_signal s.machine in
      if signalled
      then elim (parse (vm.code m)) [
        | some elf ↦ ok (record {
          machine = m;
          decoder = vm.reset_instructions_cache s.decoder;
          profile = new elf;
        })
        | none ↦ panic
      ]
      else ok (record s { machine = m })

  -- `self.machine.step(…)?`, after the profiler's step.
  unfoldable pub execute : Profile → D → M → VmResult (State M D)
  execute p d m =
      let (stepped, d', m') = vm.step d m in
      elim stepped [
        | ok done ↦ ok (record { machine = m'; decoder = d'; profile = p })
        | err e ↦ err e
        | panic ↦ panic
      ]

  -- `self.profile.step(…)?; self.machine.step(…)?`
  unfoldable pub advance : State M D → VmResult (State M D)
  advance s =
      let (profiled, d, m) = step vm s.profile s.decoder s.machine in
      elim profiled [ ok p ↦ execute p d m | err e ↦ err e | panic ↦ panic ]

  -- One turn of the loop.
  unfoldable pub turn : State M D → VmResult (State M D)
  unfolding reset advance execute
  turn s = elim (reset s) [ ok r ↦ advance r | err e ↦ err e | panic ↦ panic ]

  -- `while self.machine.running() { … }`
  unfoldable pub loop : ℕ → State M D → Option (VmResult (State M D))
  loop zero s = none
  loop (suc fuel) s = elim (vm.running s.machine) [
    | false ↦ some (ok s)
    | true ↦ elim (turn s) [ ok r ↦ loop fuel r | err e ↦ some (err e) | panic ↦ some panic ]
  ]

  unfoldable pub run : ℕ → M → Profile → Option (VmResult (State M D))
  unfolding loop
  run fuel m p =
      if vm.isa_mop (vm.isa m) && (vm.version m == 0)
      then some (err invalid_version)
      else loop fuel (record {
        machine = vm.set_running true m;
        decoder = vm.build_decoder (vm.isa m) (vm.version m);
        profile = p;
      })
