-- ===== src/Pprof/Symbols.antt =====
-- `goblin_fun`, `goblin_get_sym` and `Profile::new` (ckb-vm-pprof/src/lib.rs). The ELF parser is
-- another package: its result, the entry point and the symbols, is an argument.
use ckb_standalone_debugger.Prelude.{
  ℕ, Bool, false, Option, none, some, List, [], ◌∷◌, ◌==◌, if◌then◌else◌, Bytes, bytes_eq, ◌||◌,
}
use ckb_standalone_debugger.Prelude.Format.{codes}
use ckb_standalone_debugger.Pprof.Trie.{Trie, root}

-- `goblin::elf::Sym`, with the name that `elf.strtab.get(st_name)` gives: `Some(Ok(_))` or not.
pub record Sym : Type 0 where
  pub is_function : Bool
  pub st_value : ℕ
  pub name : Option Bytes

-- `goblin::elf::Elf`
pub record Elf : Type 0 where
  pub entry : ℕ
  pub syms : List Sym

-- `HashMap<u64, String>`: a later insertion stands in front, and hides the earlier ones.
abbrev pub Functions : Type 0
Functions = List (ℕ × Bytes)

unfoldable pub contains_key : Functions → ℕ → Bool
contains_key [] addr = false
contains_key ((k, f) ∷ fs) addr = (k == addr) || contains_key fs addr

-- The body of the loop of `goblin_fun`.
unfoldable pub add_symbol : Sym → Functions → Functions
add_symbol sym map =
    if sym.is_function then elim sym.name [ some r ↦ (sym.st_value, r) ∷ map | none ↦ map ] else map

unfoldable pub collect_functions : List Sym → Functions → Functions
unfolding add_symbol
collect_functions [] map = map
collect_functions (sym ∷ syms) map = collect_functions syms (add_symbol sym map)

unfoldable pub goblin_fun : Elf → Functions
unfolding collect_functions
goblin_fun elf = collect_functions elf.syms []

unfoldable pub find_symbol : List Sym → Bytes → ℕ
find_symbol [] sym = 0
find_symbol (e ∷ es) sym =
    let rest = find_symbol es sym in
    elim e.name [ some r ↦ if bytes_eq r sym then e.st_value else rest | none ↦ rest ]

unfoldable pub goblin_get_sym : Elf → Bytes → ℕ
unfolding find_symbol
goblin_get_sym elf sym = find_symbol elf.syms sym

-- The tree of a new profile: the root stands for the entry point.
unfoldable pub new_trie : Elf → Trie
unfolding goblin_get_sym
new_trie elf = record {
  nodes = record root { addr = elf.entry } ∷ [];
  trie_root = 0;
  trie_node = 0;
  sbrk_addr = goblin_get_sym elf (codes "_sbrk");
  sbrk_heap = goblin_get_sym elf (codes "_end");
}

-- `Profile`: the tree and the function table. The caches of names are in `Tags`.
pub record Profile : Type 0 where
  pub trie : Trie
  pub cache_fun : Functions

-- `Profile::new`, from what the parsers give.
unfoldable pub new : Elf → Profile
unfolding new_trie goblin_fun
new elf = record { trie = new_trie elf; cache_fun = goblin_fun elf }
