-- ===== src/Pprof/Tags.antt =====
-- `Tags`, `sprint_fun` and `get_tag` (ckb-vm-pprof/src/lib.rs): the names of addresses, and the
-- cache of them. The package addr2line is an argument.
pub mod Cache
use ckb_standalone_debugger.Prelude.{
  ℕ, ◌==◌, ◌≡◌, Bool, Option, none, some, List, [], ◌∷◌, ◌++◌, Bytes, bytes_eq, if◌then◌else◌, not,
}
use ckb_standalone_debugger.Prelude.Format.{codes, decimal, hex}

pub record Tags : Type 0 where
  pub addr : ℕ
  pub file : Bytes
  pub line : ℕ
  pub func : Bytes

-- `0xffffffff`, no line
abbrev pub no_line : ℕ
no_line = 4294967295

-- `Tags::new`
unfoldable pub new : ℕ → Tags
new addr = record { addr = addr; file = codes "??"; line = no_line; func = codes "??" }

-- `Tags::func`
unfoldable pub func_name : Tags → Bytes
func_name t = if not (bytes_eq t.func (codes "??")) then t.func else codes "func_0x" ++ hex t.addr

unfoldable pub simple : Tags → Bytes
unfolding func_name
simple t = t.file ++ (codes ":" ++ func_name t)

unfoldable pub detail : Tags → Bytes
detail t =
    if t.line == no_line
    then t.file ++ (codes ":??:" ++ t.func)
    else t.file ++ (codes ":" ++ (decimal t.line ++ (codes ":" ++ t.func)))

-- `addr2line::Location`, without the column.
pub record Location : Type 0 where
  pub file : Option Bytes
  pub line : Option ℕ

-- `addr2line::FunctionName`: the language is a DWARF constant, and `raw_name` may fail.
pub record FunctionName : Type 0 where
  pub raw_name : Option Bytes
  pub language : Option ℕ

-- `addr2line::Frame`, without the location.
pub record Frame : Type 0 where
  pub function : Option FunctionName

-- What addr2line says of an address: the place, if it knows one, and the frames, from the innermost
-- on, as `next` gives them. `none` stands for an error: of the lookup, or of a call of `next`.
pub record Addr2line : Type 0 where
  pub find_location : ℕ → Option (Option Location)
  pub find_frames : ℕ → Option (List (Option Frame))
  pub demangle_auto : Bytes → Option ℕ → Bytes

-- `HashMap<u64, Tags>`
abbrev pub TagCache : Type 0
TagCache = List (ℕ × Tags)

unfoldable pub get : TagCache → ℕ → Option Tags
get [] addr = none
get ((k, t) ∷ cache) addr = let rest = get cache addr in if k == addr then some t else rest

-- Here and below, `none` is a panic of one of the `unwrap`s.
module _ (addrctx : Addr2line) where
  -- The name of a frame: `next().unwrap()`, `function.unwrap()` and `raw_name().unwrap()`.
  unfoldable pub frame_name : Option Frame → Option Bytes
  frame_name none = none
  frame_name (some data_) = elim data_.function [
    | none ↦ none
    | some function ↦ elim function.raw_name [
      | none ↦ none
      | some name ↦ some (addrctx.demangle_auto name function.language)
    ]
  ]

  -- `sprint_fun`: the last name, or what there was before.
  unfoldable pub sprint_fun : List (Option Frame) → Bytes → Option Bytes
  unfolding frame_name
  sprint_fun [] s = some s
  sprint_fun (frame ∷ frames) s = elim (frame_name frame) [
    | none ↦ none
    | some name ↦ sprint_fun frames name
  ]

  -- `if let Some(loc) = loc { … }`, with `loc.file.as_ref().unwrap()`
  unfoldable pub locate : Option Location → Tags → Option Tags
  locate none tag = some tag
  locate (some loc) tag = elim loc.file [
    | none ↦ none
    | some file ↦ elim loc.line [
      | none ↦ some (record tag { file = file })
      | some line ↦ some (record tag { file = file; line = line })
    ]
  ]

  -- `tag.func = sprint_fun(…)`
  unfoldable pub name_function : Option (List (Option Frame)) → Tags → Option Tags
  unfolding sprint_fun
  name_function none tag = none
  name_function (some frame_iter) tag = elim (sprint_fun frame_iter (codes "??")) [
    | none ↦ none
    | some func ↦ some (record tag { func = func })
  ]

  -- The tag that `get_tag` makes for an address that it did not meet before.
  unfoldable pub make_tag : ℕ → Option Tags
  unfolding locate new name_function
  make_tag addr = elim (addrctx.find_location addr) [
    | none ↦ none
    | some loc ↦ elim (locate loc (new addr)) [
      | none ↦ none
      | some tag ↦ name_function (addrctx.find_frames addr) tag
    ]
  ]

  unfoldable pub get_tag : ℕ → TagCache → Option (Tags × TagCache)
  unfolding get make_tag
  get_tag addr cache = elim (get cache addr) [
    | some data_ ↦ some (data_, cache)
    | none ↦ elim (make_tag addr) [ none ↦ none | some tag ↦ some (tag, (addr, tag) ∷ cache) ]
  ]
