-- ===== src/Tests/Pprof.antt =====
-- The profiler on a program of two functions.
use ckb_standalone_debugger.Prelude.{
  ℕ, zero, suc, ◌%◌, ◌≤◌, ◌≡◌, ◌≢◌, refl, true, Option, none, some, List, [], ◌∷◌, ◌==◌,
  if◌then◌else◌, arith, ok, Bytes, length,
}
use ckb_standalone_debugger.Prelude.Format.{codes, decimal, hex}
use ckb_standalone_debugger.Vm.{VmResult, u64_mod, sp}
use ckb_standalone_debugger.Pprof.Trie.{
  Trie, TrieNode, IsValid, Nearest, here, up, root, borrow, charge, call, save_regs, sbrk_or_skip,
  find_frame, quit_or_skip, total_cycles,
}
use ckb_standalone_debugger.Pprof.Trie.Returns.{
  quit_or_skip_returns, Balanced, stay, work, nested, Balanced-back,
}
use ckb_standalone_debugger.Pprof.Symbols.{Elf, Profile, new, contains_key}
use ckb_standalone_debugger.Pprof.Step
use ckb_standalone_debugger.Pprof.Step.Totals.{Charged, step-Charged}
use ckb_standalone_debugger.Pprof.Machine.{State, loop, turn}
use ckb_standalone_debugger.Pprof.Machine.Totals.{Ran, cost, run_total, IsValid-new}
use ckb_standalone_debugger.Pprof.Trie.Valid.{charge-IsValid, call-IsValid}
use mathlib.Core.List.{reverse}
use ckb_standalone_debugger.Pprof.Tags.{Tags, Addr2line, Frame, detail, TagCache, make_tag, get_tag}
use ckb_standalone_debugger.Pprof.Tags.Cache.{Agrees, empty-IsCached, get_tag-make_tag}
use ckb_standalone_debugger.Pprof.Display.Flamegraph.{line_cycles}
use ckb_standalone_debugger.Pprof.Display.Flamegraph.Run.{run_flamegraph}
use ckb_standalone_debugger.Pprof.Display.{
  Line, display_flamegraph_rec, write_lines, display_stacktrace, display_flamegraph,
}
use ckb_standalone_debugger.Pprof.Display.Stacktrace.{Callers, places, display_stacktrace-Callers}
use ckb_standalone_debugger.Tests.Toy.{Toy, Instruction, toy_vm}

abbrev op : ℕ → ℕ → ℕ → Instruction
op opcode immediate cost = record { opcode = opcode; rs1 = 1; immediate = immediate; cost = cost }

-- `main` at 256 calls `f` at 512, which works for 7 cycles and returns.
abbrev toy : Toy
toy = record {
  counter = 256;
  next_counter = 0;
  file = λ k. if k == 1 then 260 else 8192;
  memory = λ a. 0;
  alive = true;
  spent = 0;
  program = (256, op 1 256 3) ∷ (260, op 5 0 500) ∷ (512, op 0 0 7) ∷ (516, op 2 0 2) ∷ [];
}

abbrev elf : Elf
elf = record {
  entry = 256;
  syms =
      record { is_function = true; st_value = 256; name = some (codes "main") }
      ∷ record { is_function = true; st_value = 512; name = some (codes "f") }
      ∷ [];
}

abbrev start : State Toy (Unit {0})
start = record { machine = toy; decoder = tt; profile = new elf }

abbrev no_parser : Bytes → Option Elf
no_parser code = none

abbrev totals : Option (VmResult (State Toy (Unit {0}))) → List ℕ
totals (some (ok s)) =
    s.machine.spent
    ∷ s.profile.trie.trie_node
    ∷ length s.profile.trie.nodes
    ∷ total_cycles s.profile.trie.nodes
    ∷ (borrow s.profile.trie.nodes 1).cycles
    ∷ []
totals _ = []

-- The run spends 512 cycles, ends in the root frame, and charges 9 of them to `f`.
two_functions : totals (loop toy_vm no_parser 100 start) ≡ 512 ∷ 0 ∷ 2 ∷ 512 ∷ 9 ∷ []
unfolding loop turn new Step.step charge call quit_or_skip find_frame root total_cycles save_regs
    sbrk_or_skip Step.account contains_key
two_functions = refl

abbrev finish : Option (VmResult (State Toy (Unit {0}))) → State Toy (Unit {0})
finish (some (ok s)) = s
finish _ = start

abbrev final : State Toy (Unit {0})
final = finish (loop toy_vm no_parser 100 start)

finished : loop toy_vm no_parser 100 start ≡ some (ok final)
unfolding loop turn new Step.step charge call quit_or_skip find_frame root save_regs sbrk_or_skip
    Step.account contains_key
finished = refl

run_total_example :
    (insts : List Instruction) × Ran toy_vm no_parser start insts final
    × (total_cycles final.profile.trie.nodes % u64_mod ≡ cost toy_vm no_parser insts % u64_mod)
    × IsValid final.profile.trie
run_total_example = run_total toy_vm no_parser 100 elf toy tt (λ m. refl) finished

-- In `f`, called from `main` at 256.
abbrev main_trie : Trie
main_trie = charge 3 256 (new elf).trie

abbrev f_trie : Trie
f_trie = call 512 260 256 [] main_trie

main-IsValid : IsValid main_trie
main-IsValid = charge-IsValid 3 256 _ (IsValid-new elf)

f-IsValid : IsValid f_trie
f-IsValid = call-IsValid 512 260 256 [] _ main-IsValid

f_returns : Nearest f_trie.nodes 260 f_trie.trie_node f_trie.trie_node
unfolding new charge call root
f_returns = here refl

f_caller : (borrow f_trie.nodes f_trie.trie_node).parent ≡ some main_trie.trie_node
unfolding new charge call root
f_caller = refl

quit_or_skip_returns_example :
    quit_or_skip 260 [] f_trie
    ≡ ok (record (save_regs [] f_trie) { trie_node = main_trie.trie_node })
quit_or_skip_returns_example = quit_or_skip_returns 260 [] f_trie f-IsValid f_returns f_caller

-- No frame of `f_trie` returns to 700.
Nearest-link :
    {nodes : List TrieNode} {addr f g : ℕ} → Nearest nodes addr f g → (borrow nodes g).link ≡ addr
Nearest-link (here e) = e
Nearest-link (up _ _ n) = Nearest-link n

no_link : (g : ℕ) → (borrow f_trie.nodes g).link ≢ 700
unfolding new charge call root
no_link zero = omega arith
no_link (suc zero) = omega arith
no_link (suc (suc g)) = omega arith

-- `f` works and returns.
abbrev worked : Trie
worked = charge 7 512 f_trie

abbrev returned : Trie
returned = record (save_regs [] worked) { trie_node = main_trie.trie_node }

worked_here : Nearest worked.nodes 260 worked.trie_node worked.trie_node
unfolding new charge call root
worked_here = here refl

worked_caller : (borrow worked.nodes worked.trie_node).parent ≡ some main_trie.trie_node
unfolding new charge call root
worked_caller = refl

f_body : Balanced main_trie returned
f_body =
    nested 512 260 256 [] [] (work 7 512 stay)
      (quit_or_skip_returns 260 [] worked (charge-IsValid 7 512 _ f-IsValid) worked_here
        worked_caller)
      stay

Balanced-back_example : (returned.trie_node ≡ main_trie.trie_node) × IsValid returned
Balanced-back_example = Balanced-back main-IsValid f_body

abbrev jal_f : Instruction
jal_f = op 1 256 3

abbrev profiled : VmResult Profile → Profile
profiled (ok p) = p
profiled _ = new elf

abbrev after_call : Profile
after_call = profiled (Step.step toy_vm (new elf) tt toy).0

call_steps : (Step.step toy_vm (new elf) tt toy).0 ≡ ok after_call
unfolding new Step.step charge call quit_or_skip find_frame root Step.account contains_key
call_steps = refl

step-Charged_example :
    (inst : Instruction) × ((toy_vm.decode tt toy (toy_vm.pc toy)).0 ≡ ok inst)
    × ((new elf).trie.sbrk_heap ≤ toy_vm.registers toy sp)
    × Charged toy_vm
        (new elf)
        inst
        (toy_vm.pc toy)
        (toy_vm.decode tt toy (toy_vm.pc toy)).2
        after_call
step-Charged_example = step-Charged toy_vm (new elf) tt toy (IsValid-new elf) call_steps

-- A frame of a function with this name.
abbrev named : Bytes → Option Frame
named name = some (record { function = some (record { raw_name = some name; language = none }) })

-- Debugging information for the two functions.
abbrev debug_info : Addr2line
debug_info = record {
  find_location = λ addr.
      if addr == 256
      then some (some (record { file = some (codes "main.c"); line = some 7 }))
      else some none;
  find_frames = λ addr. if addr == 256 then some (named (codes "main") ∷ []) else some [];
  demangle_auto = λ name language. name;
}

-- The same, with a function that has no name at 512.
abbrev stripped : Addr2line
stripped = record debug_info {
  find_frames =
      λ addr. if addr == 512 then some (some (record { function = none }) ∷ []) else some [];
}

abbrev text_of : Option (Bytes × TagCache) → Bytes
text_of (some (text, cache)) = text
text_of none = []

abbrev tag_of : Option Tags → Tags
tag_of (some t) = t
tag_of none = record { addr = 0; file = []; line = 0; func = [] }

abbrev tag : ℕ → Tags
tag addr = tag_of (make_tag debug_info addr)

-- The repository's format, with an address that has no name.
flamegraph_text :
    text_of (display_flamegraph debug_info worked [])
    ≡ codes "main.c:main 3\nmain.c:main; ??:func_0x200 7\n"
unfolding new charge call root display_flamegraph decimal hex
flamegraph_text = refl

-- A function without a name is a panic.
stripped_panics : display_flamegraph stripped worked [] ≡ none
unfolding new charge call root display_flamegraph
stripped_panics = refl

stacktrace_text :
    text_of (display_stacktrace debug_info (codes "> ") worked [])
    ≡ codes "> ??:??:??\n> ??:??:??\n> ??:??:??\n"
unfolding new charge call root display_stacktrace
stacktrace_text = refl

get_tag-make_tag_example : Agrees debug_info (get_tag debug_info 256 []) (make_tag debug_info 256)
get_tag-make_tag_example = get_tag-make_tag debug_info 256 [] (empty-IsCached debug_info)

-- Every address can be given a tag.
all_tagged : (addr : ℕ) → make_tag debug_info addr ≡ some (tag addr)
unfolding make_tag
all_tagged addr = ground arith

display_stacktrace-Callers_example :
    (fs : List ℕ) × (cache' : TagCache) × Callers worked.nodes worked.trie_node fs
    × (display_stacktrace debug_info (codes "> ") worked []
        ≡ some (
          write_lines (codes "> ") (
              reverse (
                detail (tag (borrow worked.nodes worked.trie_node).pc)
                ∷ places tag worked.nodes fs)),
          cache',
        ))
display_stacktrace-Callers_example =
    display_stacktrace-Callers debug_info tag (codes "> ") worked []
      (charge-IsValid 7 512 _ f-IsValid) (all_tagged _) (λ i there. all_tagged _)
      (empty-IsCached debug_info)

run_flamegraph_example :
    (insts : List Instruction) × (lines : List Line) × (cache' : TagCache) × Ran toy_vm no_parser
      start insts final
    × (display_flamegraph_rec debug_info
          (length final.profile.trie.nodes)
          final.profile.trie.nodes
          []
          final.profile.trie.trie_root
          []
        ≡ some (lines, cache'))
    × (line_cycles lines % u64_mod ≡ cost toy_vm no_parser insts % u64_mod)
run_flamegraph_example =
    run_flamegraph toy_vm no_parser debug_info 100 elf toy tt [] [] (λ m. refl) finished
      (λ i there. (tag _, all_tagged _)) (empty-IsCached debug_info)
