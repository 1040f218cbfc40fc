-- ===== src/Converter/Lines.antt =====
-- A line of a flame graph (ckb-vm-pprof-converter/src/main.rs). `none` is a panic of the code,
-- unless the source has an `Option` there.
pub mod Written
use ckb_standalone_debugger.Prelude.{
  ℕ, ◌+◌, ◌*◌, ◌-◌, ◌^◌, ◌==◌, ◌&&◌, Option, none, some, List, [], ◌∷◌, map, Bytes, if◌then◌else◌,
  leb, ltb, unwrap_or,
}
use ckb_standalone_debugger.Prelude.Format.{codes}

pub record Symbol : Type 0 where
  pub name : Option Bytes
  pub file : Option Bytes

-- the methods `name` and `file`
unfoldable pub symbol_name : Symbol → Bytes
symbol_name s = unwrap_or s.name (codes "<Unknown>")

unfoldable pub symbol_file : Symbol → Bytes
symbol_file s = unwrap_or s.file (codes "<Unknown>")

pub record Frame : Type 0 where
  pub stack : List Symbol
  pub cycles : ℕ

unfoldable pub normalize_function_name : Bytes → Bytes
normalize_function_name name =
    map (λ b. if b == b'>' then b'}' else b) (map (λ b. if b == b'<' then b'{' else b) name)

-- `line.rfind(" ")`, with what is before and behind the space.
unfoldable pub rfind_space : Bytes → Option (Bytes × Bytes)
rfind_space [] = none
rfind_space (b ∷ bs) = elim (rfind_space bs) [
  | some (before, behind) ↦ some (b ∷ before, behind)
  | none ↦ if b == b' ' then some ([], bs) else none
]

-- `s.find(":")`
unfoldable pub find_colon : Bytes → Option (Bytes × Bytes)
find_colon [] = none
find_colon (b ∷ bs) =
    let later : Option (Bytes × Bytes) = elim (find_colon bs) [
      | some (before, behind) ↦ some (b ∷ before, behind)
      | none ↦ none
    ] in
    if b == b':' then some ([], bs) else later

-- A byte in front of the first part.
abbrev pub in_first : ℕ → List Bytes → List Bytes
in_first b [] = (b ∷ []) ∷ []
in_first b (part ∷ parts) = (b ∷ part) ∷ parts

-- `split("; ")`
unfoldable pub split_frames : Bytes → List Bytes
split_frames [] = [] ∷ []
split_frames (b ∷ []) = (b ∷ []) ∷ []
split_frames (b ∷ c ∷ bs) =
    let cut = [] ∷ split_frames bs in
    let kept = in_first b (split_frames (c ∷ bs)) in
    if (b == b';') && (c == b' ') then cut else kept

unfoldable pub symbol_of : Bytes → Symbol
unfolding normalize_function_name find_colon
symbol_of s = elim (find_colon s) [
  | some (file, name) ↦ record { name = some (normalize_function_name name); file = some file }
  | none ↦ record { name = some (normalize_function_name s); file = none }
]

-- `u64::from_str`, of the standard library.
unfoldable pub decimal_digits : ℕ → Bytes → Option ℕ
decimal_digits acc [] = some acc
decimal_digits acc (c ∷ s) =
    let next = acc * 10 + (c - b'0') in
    let rest = decimal_digits next s in
    if leb b'0' c && leb c b'9' && ltb next (2 ^ 64) then rest else none

unfoldable pub u64_from_str : Bytes → Option ℕ
unfolding decimal_digits
u64_from_str [] = none
u64_from_str (c ∷ []) = decimal_digits 0 (c ∷ [])
u64_from_str (c ∷ d ∷ s) =
    if c == b'+' then decimal_digits 0 (d ∷ s) else decimal_digits 0 (c ∷ d ∷ s)

abbrev pub reversed : List Symbol → List Symbol → List Symbol
reversed [] done = done
reversed (s ∷ stack) done = reversed stack (s ∷ done)

-- The body of the loop over the lines.
unfoldable pub parse_line : Bytes → Option Frame
unfolding rfind_space split_frames symbol_of u64_from_str
parse_line line = elim (rfind_space line) [
  | none ↦ none
  | some (stack, cycles) ↦ elim (u64_from_str cycles) [
    | none ↦ none
    | some n ↦
        some (record { stack = reversed (map symbol_of (split_frames stack)) []; cycles = n })
  ]
]

unfoldable pub parse_lines : List Bytes → Option (List Frame)
unfolding parse_line
parse_lines [] = some []
parse_lines (line ∷ lines) = elim (parse_line line) [
  | none ↦ none
  | some frame ↦ elim (parse_lines lines) [ none ↦ none | some frames ↦ some (frame ∷ frames) ]
]
