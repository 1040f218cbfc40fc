-- ===== src/Converter/Tables/Read.antt =====
-- What a reader of the format makes of a location, while the tables grow.
use ckb_standalone_debugger.Prelude.{
  ℕ, ◌==◌, ◌≡◌, refl, Option, none, some, List, [], ◌∷◌, ◌++◌, Bytes, get_elem?, if◌then◌else◌,
  Bool-cases, Option-cases, inl, inr,
}
use ckb_standalone_debugger.Converter.Tables.{Function, Location}

-- The first entry with an identifier.
abbrev pub find_by : {A : Type 0} → (A → ℕ) → List A → ℕ → Option A
find_by key [] id = none
find_by key (x ∷ xs) id = let later = find_by key xs id in if key x == id then some x else later

find_by-append_left :
    {A : Type 0} (key : A → ℕ) (xs ys : List A) (id : ℕ) (a : A)
    → find_by key xs id ≡ some a
    → find_by key (xs ++ ys) id ≡ some a
find_by-append_left key [] ys id a e = absurd (cc e)
find_by-append_left key (x ∷ xs) ys id a e = elim (Bool-cases (key x == id)) [
  | inl same ↦ rw same (rw same at e)
  | inr other ↦ rw other (find_by-append_left key xs ys id a (rw other at e))
]

pub find_by-append_right :
    {A : Type 0} (key : A → ℕ) (xs ys : List A) (id : ℕ)
    → find_by key xs id ≡ none
    → find_by key (xs ++ ys) id ≡ find_by key ys id
find_by-append_right key [] ys id e = refl
find_by-append_right key (x ∷ xs) ys id e = elim (Bool-cases (key x == id)) [
  | inl same ↦ absurd (cc (rw same at e))
  | inr other ↦ rw other (find_by-append_right key xs ys id (rw other at e))
]

-- What a reader of the format makes of a location: the name of the function of its first line.
abbrev pub function_name : List Bytes → Option Function → Option Bytes
function_name table none = none
function_name table (some f) = get_elem? table f.name

abbrev lines_name : List Bytes → List Function → List ℕ → Option Bytes
lines_name table fn_tbl [] = none
lines_name table fn_tbl (f ∷ fs) = function_name table (find_by Function.id fn_tbl f)

abbrev pub line_name : List Bytes → List Function → Option Location → Option Bytes
line_name table fn_tbl none = none
line_name table fn_tbl (some l) = lines_name table fn_tbl l.lines

abbrev pub location_name : List Bytes → List Function → List Location → ℕ → Option Bytes
location_name table fn_tbl loc_tbl id = line_name table fn_tbl (find_by Location.id loc_tbl id)

lines_name-append :
    (table : List Bytes) (fns more : List Function) (lines : List ℕ) (s : Bytes)
    → lines_name table fns lines ≡ some s
    → lines_name table (fns ++ more) lines ≡ some s
lines_name-append table fns more [] s e = e
lines_name-append table fns more (f ∷ fs) s e = elim (Option-cases (find_by Function.id fns f)) [
  | inl missing ↦ absurd (cc (rw missing at e))
  | inr (g, found) ↦ rw (find_by-append_left Function.id fns more f g found) (rw found at e)
]

pub location_name-append :
    (table : List Bytes) (fns more : List Function) (locs new : List Location) (id : ℕ) (s : Bytes)
    → location_name table fns locs id ≡ some s
    → location_name table (fns ++ more) (locs ++ new) id ≡ some s
location_name-append table fns more locs new id s e =
    elim (Option-cases (find_by Location.id locs id)) [
      | inl missing ↦ absurd (cc (rw missing at e))
      | inr (l, found) ↦
          rw (find_by-append_left Location.id locs new id l found)
            (lines_name-append table fns more l.lines s (rw found at e))
    ]
