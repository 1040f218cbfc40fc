-- ===== src/Converter/Tables.antt =====
-- The tables of pprof's message (ckb-vm-pprof-converter/src/main.rs). `none` is a panic of the
-- code. A map is the list of what was inserted, the last entry first. An `i64` is its bit pattern,
-- and multiplication wraps around. The order in which a `HashSet` gives its elements is a parameter.
pub mod Strings
pub mod Read
pub mod Names
use ckb_standalone_debugger.Prelude.{
  ℕ, ◌+◌, ◌*◌, ◌-◌, ◌^◌, ◌/◌, ◌%◌, ◌==◌, ◌&&◌, Bool, true, false, Option, none, some, List, [], ◌∷◌,
  ◌++◌, map, Bytes, length, if◌then◌else◌, ltb, bytes_eq,
}
use ckb_standalone_debugger.Prelude.Format.{codes}
use ckb_standalone_debugger.Vm.{u64_mod}
use ckb_standalone_debugger.Converter.Lines.{Symbol, Frame, symbol_name, symbol_file, parse_lines}

pub record Function : Type 0 where
  pub id : ℕ
  pub name : ℕ
  pub system_name : ℕ
  pub filename : ℕ

pub record Location : Type 0 where
  pub id : ℕ
  -- the identifiers of the functions of its lines; each line has the number 0
  pub lines : List ℕ

pub record Sample : Type 0 where
  pub location_id : List ℕ
  pub value : List ℕ

pub record ValueType : Type 0 where
  pub field_type : ℕ
  pub unit : ℕ

pub record ProfileMessage : Type 0 where
  pub sample_type : List ValueType
  pub sample : List Sample
  pub string_table : List Bytes
  pub function : List Function
  pub location : List Location
  pub period_type : ValueType
  pub period : ℕ

-- A map from strings.
abbrev pub Index : Type 0
Index = List (Bytes × ℕ)

unfoldable pub lookup : Index → Bytes → Option ℕ
lookup [] s = none
lookup ((t, i) ∷ index) s = let later = lookup index s in if bytes_eq t s then some i else later

-- The strings that go into the set.
unfoldable pub symbol_strings : List Symbol → List Bytes
unfolding symbol_name symbol_file
symbol_strings [] = []
symbol_strings (s ∷ stack) = symbol_name s ∷ symbol_file s ∷ symbol_strings stack

unfoldable pub frame_strings : List Frame → List Bytes
unfolding symbol_strings
frame_strings [] = []
frame_strings (f ∷ frames) = symbol_strings f.stack ++ frame_strings frames

unfoldable pub all_strings : List Frame → List Bytes
unfolding frame_strings
all_strings frames =
    frame_strings frames
    ++ codes "cycles" ∷ codes "count" ∷ codes "fakecpu" ∷ codes "nanoseconds" ∷ []

-- `strings.insert(name.clone(), index)` for every string of the table, from an index on.
unfoldable pub insert_all : ℕ → List Bytes → Index → Index
insert_all i [] index = index
insert_all i (s ∷ table) index = insert_all (i + 1) table ((s, i) ∷ index)

-- What the loop over the frames changes.
pub record Tables : Type 0 where
  pub loc_tbl : List Location
  pub fn_tbl : List Function
  pub functions : Index

-- A function that was not seen before.
unfoldable pub new_function : Index → Symbol → Tables → Option (ℕ × Tables)
unfolding lookup symbol_name symbol_file
new_function strings symbol t =
    let function_id = length t.fn_tbl + 1 in
    elim (lookup strings (symbol_name symbol)) [
      | none ↦ none
      | some name ↦ elim (lookup strings (symbol_file symbol)) [
        | none ↦ none
        | some file ↦ some (
          function_id,
          record {
            loc_tbl = t.loc_tbl ++ record { id = function_id; lines = function_id ∷ [] } ∷ [];
            fn_tbl =
                t.fn_tbl
                ++ record { id = function_id; name = name; system_name = name; filename = file }
                  ∷ [];
            functions = (symbol_name symbol, function_id) ∷ t.functions;
          },
        )
      ]
    ]

-- The turn of a symbol of a stack: its location.
unfoldable pub locate_symbol : Index → Symbol → Tables → Option (ℕ × Tables)
unfolding lookup symbol_name new_function
locate_symbol strings symbol t = elim (lookup t.functions (symbol_name symbol)) [
  | some loc_idx ↦ some (loc_idx, t)
  | none ↦ new_function strings symbol t
]

unfoldable pub locate_stack : Index → List Symbol → Tables → Option (List ℕ × Tables)
unfolding locate_symbol
locate_stack strings [] t = some ([], t)
locate_stack strings (symbol ∷ stack) t = elim (locate_symbol strings symbol t) [
  | none ↦ none
  | some (loc, t') ↦ elim (locate_stack strings stack t') [
    | none ↦ none
    | some (locs, t'') ↦ some (loc ∷ locs, t'')
  ]
]

-- Division of `i64`, towards zero. A zero divisor is a panic, and so is -2^63 by -1.
abbrev pub magnitude : ℕ → ℕ
magnitude a = if ltb a (2 ^ 63) then a else u64_mod - a

abbrev pub negative : ℕ → ℕ
negative q = (u64_mod - q) % u64_mod

abbrev pub quotient : ℕ → ℕ → ℕ
quotient a b =
    let q = magnitude a / magnitude b in
    if ltb a (2 ^ 63)
    then (if ltb b (2 ^ 63) then q else negative q)
    else (if ltb b (2 ^ 63) then negative q else q)

unfoldable pub i64_div : ℕ → ℕ → Option ℕ
i64_div a b =
    if b == 0
    then none
    else if (a == 2 ^ 63) && (b == u64_mod - 1)
    then none
    else some (quotient a b)

-- `vec![*cycles as i64, *cycles as i64 * 1_000_000_000 / frequency]`
unfoldable pub sample_values : ℕ → ℕ → Option (List ℕ)
unfolding i64_div
sample_values frequency cycles = elim (i64_div (cycles * 1000000000 % u64_mod) frequency) [
  | none ↦ none
  | some nanoseconds ↦ some (cycles ∷ nanoseconds ∷ [])
]

-- The loop over the frames.
unfoldable pub build_samples : ℕ → Index → List Frame → Tables → Option (List Sample × Tables)
unfolding locate_stack sample_values
build_samples frequency strings [] t = some ([], t)
build_samples frequency strings (f ∷ frames) t = elim (locate_stack strings f.stack t) [
  | none ↦ none
  | some (locs, t') ↦ elim (sample_values frequency f.cycles) [
    | none ↦ none
    | some value ↦ elim (build_samples frequency strings frames t') [
      | none ↦ none
      | some (samples, t'') ↦ some (record { location_id = locs; value = value } ∷ samples, t'')
    ]
  ]
]

unfoldable pub value_type : Index → Bytes → Bytes → Option ValueType
unfolding lookup
value_type strings type_ unit = elim (lookup strings type_) [
  | none ↦ none
  | some t ↦ elim (lookup strings unit) [
    | none ↦ none
    | some u ↦ some (record { field_type = t; unit = u })
  ]
]

-- From the frames to the message, where `into_iter` gives the elements of the set of some strings.
-- The string table's first element is the empty string.
unfoldable pub convert : (List Bytes → List Bytes) → ℕ → List Frame → Option ProfileMessage
unfolding all_strings insert_all build_samples value_type i64_div
convert into_iter frequency frames =
    let str_tbl = [] ∷ into_iter (all_strings frames) in
    let strings = insert_all 0 str_tbl [] in
    elim (build_samples frequency strings frames
      (record { loc_tbl = []; fn_tbl = []; functions = [] })) [
        | none ↦ none
        | some (samples, t) ↦ elim (value_type strings (codes "cycles") (codes "count")) [
          | none ↦ none
          | some samples_value ↦ elim (value_type strings (codes "fakecpu") (codes "nanoseconds")) [
            | none ↦ none
            | some time_value ↦ elim (i64_div 1000000000 frequency) [
              | none ↦ none
              | some period ↦ some (record {
                sample_type = samples_value ∷ time_value ∷ [];
                sample = samples;
                string_table = str_tbl;
                function = t.fn_tbl;
                location = t.loc_tbl;
                period_type = time_value;
                period = period;
              })
            ]
          ]
        ]
      ]

-- `main`, between its input and its output.
unfoldable pub convert_lines : (List Bytes → List Bytes) → ℕ → List Bytes → Option ProfileMessage
unfolding parse_lines convert
convert_lines into_iter frequency lines = elim (parse_lines lines) [
  | none ↦ none
  | some frames ↦ convert into_iter frequency frames
]
