-- ===== src/Converter/Tables/Names.antt =====
-- The tables give the names of the frames back.
use ckb_standalone_debugger.Prelude.{
  ℕ, ◌+◌, ◌*◌, ◌%◌, ◌-◌, ◌^◌, ◌==◌, ◌&&◌, ◌<◌, ◌≡◌, ◌≢◌, refl, ap, ◌∙◌, Bool, true, false, Option,
  none, some, List, [], ◌∷◌, ◌++◌, Bytes, length, length-append, ==_refl, ne→==-false, Option-cases,
  inl, inr, arith, subst,
}
use ckb_standalone_debugger.Prelude.Format.{codes}
use ckb_standalone_debugger.Vm.{u64_mod}
use ckb_standalone_debugger.Converter.Lines.{Symbol, Frame, symbol_name, symbol_file}
use ckb_standalone_debugger.Converter.Tables.{
  Function, Location, Sample, ProfileMessage, Index, lookup, all_strings, insert_all, Tables,
  new_function, locate_symbol, locate_stack, quotient, i64_div, sample_values, build_samples,
  value_type, ValueType, convert, symbol_strings, frame_strings,
}
use ckb_standalone_debugger.Converter.Tables.Strings.{
  has, has-head, has-cons, has-append_left, has-append_right, SetLaws, Sound, lookup-cons,
  insert_all-Sound, Found, insert_all-Found,
}
use ckb_standalone_debugger.Converter.Tables.Read.{
  find_by, find_by-append_right, function_name, line_name, location_name, location_name-append,
}

and_false : (b : Bool) → (b && false) ≡ false
and_false true = refl
and_false false = refl

i64_div-some : (a b : ℕ) → b ≢ 0 → b ≢ u64_mod - 1 → (q : ℕ) × (i64_div a b ≡ some q)
unfolding i64_div
i64_div-some a b some_b not_minus = (
  quotient a b,
  rw (ne→==-false b 0 some_b, ne→==-false b (u64_mod - 1) not_minus, and_false (a == 2 ^ 63)) refl,
)

sample_values-some :
    (frequency cycles : ℕ)
    → frequency ≢ 0
    → frequency ≢ u64_mod - 1
    → (value : List ℕ) × (sample_values frequency cycles ≡ some value)
unfolding sample_values
sample_values-some frequency cycles some_frequency not_minus =
    let (q, e) = i64_div-some (cycles * 1000000000 % u64_mod) frequency some_frequency not_minus in
    (cycles ∷ q ∷ [], rw (e, sample_values) refl)

module _ (table : List Bytes) where
  -- The name of a location by the tables so far.
  abbrev tables_name : Tables → ℕ → Option Bytes
  tables_name t id = location_name table t.fn_tbl t.loc_tbl id

  record Named (t : Tables) : Type 0 where
    named : (s : Bytes) (id : ℕ) → lookup t.functions s ≡ some id → tables_name t id ≡ some s
    fresh_function : (id : ℕ) → length t.fn_tbl < id → find_by Function.id t.fn_tbl id ≡ none
    fresh_location : (id : ℕ) → length t.fn_tbl < id → find_by Location.id t.loc_tbl id ≡ none

  abbrev Keeps : Tables → Tables → Type 0
  Keeps t t' = (id : ℕ) (s : Bytes) → tables_name t id ≡ some s → tables_name t' id ≡ some s

  -- The locations of a stack have the names of its symbols.
  abbrev Names : Tables → List ℕ → List Symbol → Type 0
  Names t [] [] = Unit
  Names t [] (s ∷ stack) = ⊥
  Names t (l ∷ locs) [] = ⊥
  Names t (l ∷ locs) (s ∷ stack) = (tables_name t l ≡ some (symbol_name s)) × Names t locs stack

  Names-Keeps :
      (t t' : Tables) (locs : List ℕ) (stack : List Symbol)
      → Keeps t t'
      → Names t locs stack
      → Names t' locs stack
  Names-Keeps t t' [] [] k h = tt
  Names-Keeps t t' [] (s ∷ stack) k h = h
  Names-Keeps t t' (l ∷ locs) [] k h = h
  Names-Keeps t t' (l ∷ locs) (s ∷ stack) k (e, h) =
      (k l (symbol_name s) e, Names-Keeps t t' locs stack k h)

  -- Each sample has the names of its frame's stack.
  abbrev pub SampleNames : Tables → List Sample → List Frame → Type 0
  SampleNames t [] [] = Unit
  SampleNames t [] (f ∷ frames) = ⊥
  SampleNames t (s ∷ samples) [] = ⊥
  SampleNames t (s ∷ samples) (f ∷ frames) =
      Names t s.location_id f.stack × SampleNames t samples frames

  SampleNames-Keeps :
      (t t' : Tables) (samples : List Sample) (frames : List Frame)
      → Keeps t t'
      → SampleNames t samples frames
      → SampleNames t' samples frames
  SampleNames-Keeps t t' [] [] k h = tt
  SampleNames-Keeps t t' [] (f ∷ frames) k h = h
  SampleNames-Keeps t t' (s ∷ samples) [] k h = h
  SampleNames-Keeps t t' (s ∷ samples) (f ∷ frames) k (h, hs) =
      (Names-Keeps t t' s.location_id f.stack k h, SampleNames-Keeps t t' samples frames k hs)

  module _ (strings : Index) (sound : Sound table strings) where
    new_function-Named :
        (symbol : Symbol) (t : Tables)
        → Found strings (symbol_name symbol)
        → Found strings (symbol_file symbol)
        → Named t
        → (loc : ℕ) × (t' : Tables) × (new_function strings symbol t ≡ some (loc, t'))
          × (tables_name t' loc ≡ some (symbol_name symbol))
          × Named t'
          × Keeps t t'
    unfolding new_function
    new_function-Named symbol t (name, has_name) (file, has_file) h =
        let id = length t.fn_tbl + 1 in
        let f : Function = record { id = id; name = name; system_name = name; filename = file } in
        let l : Location = record { id = id; lines = id ∷ [] } in
        let t' : Tables = record {
          loc_tbl = t.loc_tbl ++ l ∷ [];
          fn_tbl = t.fn_tbl ++ f ∷ [];
          functions = (symbol_name symbol, id) ∷ t.functions;
        } in
        let by_function : find_by Function.id t'.fn_tbl id ≡ some f =
          find_by-append_right Function.id t.fn_tbl (f ∷ []) id (h.fresh_function id (omega arith))
          ∙ (rw (==_refl id) refl) in
        let by_location : find_by Location.id t'.loc_tbl id ≡ some l =
          find_by-append_right Location.id t.loc_tbl (l ∷ []) id (h.fresh_location id (omega arith))
          ∙ (rw (==_refl id) refl) in
        let found : tables_name t' id ≡ some (symbol_name symbol) =
          ap (line_name table t'.fn_tbl) by_location
          ∙ ap (function_name table) by_function
          ∙ sound (symbol_name symbol) name has_name in
        let more : length t'.fn_tbl ≡ length t.fn_tbl + 1 = length-append t.fn_tbl (f ∷ []) in
        let after : Named t' = record {
          named = λ s j e. elim (lookup-cons (symbol_name symbol) s id j t.functions e) [
            | inl (same, id_is) ↦
                subst (λ k. tables_name t' k ≡ some s) id_is (found ∙ ap some same)
            | inr before ↦
                location_name-append table t.fn_tbl (f ∷ []) t.loc_tbl (l ∷ []) j s
                  (h.named s j before)
          ];
          fresh_function = λ j above.
              find_by-append_right Function.id t.fn_tbl (f ∷ []) j
                (h.fresh_function j (omega arith))
              ∙ (rw (ne→==-false id j (λ e. omega arith)) refl);
          fresh_location = λ j above.
              find_by-append_right Location.id t.loc_tbl (l ∷ []) j
                (h.fresh_location j (omega arith))
              ∙ (rw (ne→==-false id j (λ e. omega arith)) refl);
        } in
        (
          id,
          t',
          rw (has_name, has_file, new_function) refl,
          found,
          after,
          location_name-append table t.fn_tbl (f ∷ []) t.loc_tbl (l ∷ []),
        )

    locate_symbol-Named :
        (symbol : Symbol) (t : Tables)
        → Found strings (symbol_name symbol)
        → Found strings (symbol_file symbol)
        → Named t
        → (loc : ℕ) × (t' : Tables) × (locate_symbol strings symbol t ≡ some (loc, t'))
          × (tables_name t' loc ≡ some (symbol_name symbol))
          × Named t'
          × Keeps t t'
    unfolding locate_symbol
    locate_symbol-Named symbol t has_name has_file h =
        elim (Option-cases (lookup t.functions (symbol_name symbol))) [
          | inr (loc, seen) ↦ (
            loc,
            t,
            rw (seen, locate_symbol) refl,
            h.named (symbol_name symbol) loc seen,
            h,
            λ id s e. e,
          )
          | inl unseen ↦
              let (loc, t', ran, name, h', k) = new_function-Named symbol t has_name has_file h in
              (loc, t', rw (unseen, locate_symbol) ran, name, h', k)
        ]

    -- All strings of a stack are in the map.
    abbrev AllFound : List Symbol → Type 0
    AllFound [] = Unit
    AllFound (s ∷ stack) =
        Found strings (symbol_name s) × Found strings (symbol_file s) × AllFound stack

    locate_stack-Names :
        (stack : List Symbol) (t : Tables)
        → AllFound stack
        → Named t
        → (locs : List ℕ) × (t' : Tables) × (locate_stack strings stack t ≡ some (locs, t'))
          × Names t' locs stack
          × Named t'
          × Keeps t t'
    unfolding locate_stack
    locate_stack-Names [] t found h = ([], t, refl, tt, h, λ id s e. e)
    locate_stack-Names (s ∷ stack) t (has_name, has_file, found) h =
        let (loc, t1, ran, name, h1, k1) = locate_symbol-Named s t has_name has_file h in
        let (locs, t2, ran_rest, names, h2, k2) = locate_stack-Names stack t1 found h1 in
        (
          loc ∷ locs,
          t2,
          rw (ran, ran_rest, locate_stack) refl,
          (k2 loc (symbol_name s) name, names),
          h2,
          λ id s e. k2 id s (k1 id s e),
        )

    abbrev AllFramesFound : List Frame → Type 0
    AllFramesFound [] = Unit
    AllFramesFound (f ∷ frames) = AllFound f.stack × AllFramesFound frames

    build_samples-SampleNames :
        (frequency : ℕ) (frames : List Frame) (t : Tables)
        → frequency ≢ 0
        → frequency ≢ u64_mod - 1
        → AllFramesFound frames
        → Named t
        → (samples : List Sample) × (t' : Tables) × (build_samples frequency strings frames t
            ≡ some (samples, t'))
          × SampleNames t' samples frames
          × Keeps t t'
    unfolding build_samples
    build_samples-SampleNames frequency [] t some_frequency not_minus found h =
        ([], t, refl, tt, λ id s e. e)
    build_samples-SampleNames frequency (f ∷ frames) t some_frequency not_minus (found, later) h =
        let (locs, t1, ran, names, h1, k1) = locate_stack-Names f.stack t found h in
        let (value, valued) = sample_values-some frequency f.cycles some_frequency not_minus in
        let (samples, t2, ran_rest, rest, k2) =
          build_samples-SampleNames frequency frames t1 some_frequency not_minus later h1 in
        (
          record { location_id = locs; value = value } ∷ samples,
          t2,
          rw (ran, valued, ran_rest, build_samples) refl,
          (Names-Keeps t1 t2 locs f.stack k2 names, rest),
          λ id s e. k2 id s (k1 id s e),
        )

    stack-AllFound :
        (stack : List Symbol)
        → ((s : Bytes) → has s (symbol_strings stack) ≡ true → Found strings s)
        → AllFound stack
    unfolding symbol_strings
    stack-AllFound [] k = tt
    stack-AllFound (x ∷ stack) k =
        let name = symbol_name x in
        let file = symbol_file x in
        let rest = symbol_strings stack in
        (
          k name (has-head name (file ∷ rest)),
          k file (has-cons file name (file ∷ rest) (has-head file rest)),
          stack-AllFound stack
              (λ s e. k s (has-cons s name (file ∷ rest) (has-cons s file rest e))),
        )

    frames-AllFramesFound :
        (frames : List Frame)
        → ((s : Bytes) → has s (frame_strings frames) ≡ true → Found strings s)
        → AllFramesFound frames
    unfolding frame_strings
    frames-AllFramesFound [] k = tt
    frames-AllFramesFound (f ∷ frames) k = (
      stack-AllFound f.stack
          (λ s e. k s (has-append_left s (symbol_strings f.stack) (frame_strings frames) e)),
      frames-AllFramesFound frames
          (λ s e. k s (has-append_right s (symbol_strings f.stack) (frame_strings frames) e)),
    )

    value_type-some :
        (type_ unit : Bytes)
        → Found strings type_
        → Found strings unit
        → (v : ValueType) × (value_type strings type_ unit ≡ some v)
    unfolding value_type
    value_type-some type_ unit (t, has_type) (u, has_unit) =
        (record { field_type = t; unit = u }, rw (has_type, has_unit, value_type) refl)

none_found : (s : Bytes) (i : ℕ) → ¬ (lookup [] s ≡ some i)
unfolding lookup
none_found s i e = cc e

abbrev units : List Bytes
units = codes "cycles" ∷ codes "count" ∷ codes "fakecpu" ∷ codes "nanoseconds" ∷ []

-- A message by its names: its tables with its samples.
abbrev pub tables_of : ProfileMessage → Tables
tables_of p = record { loc_tbl = p.location; fn_tbl = p.function; functions = [] }

-- Whatever the order in which a `HashSet` gives its elements, and unless the frequency is 0 or -1,
-- the conversion succeeds, and the tables of the message give for every sample the names of its
-- frame's stack, in order.
pub convert-SampleNames :
    (into_iter : List Bytes → List Bytes) (frequency : ℕ) (frames : List Frame)
    → SetLaws into_iter
    → frequency ≢ 0
    → frequency ≢ u64_mod - 1
    → (p : ProfileMessage) × (convert into_iter frequency frames ≡ some p)
      × SampleNames p.string_table (tables_of p) p.sample frames
unfolding convert all_strings
convert-SampleNames into_iter frequency frames laws some_frequency not_minus =
    let table = [] ∷ into_iter (all_strings frames) in
    let strings = insert_all 0 table [] in
    let sound : Sound table strings =
      insert_all-Sound [] table [] (λ s i e. absurd (none_found s i e)) in
    let found : (s : Bytes) → has s (all_strings frames) ≡ true → Found strings s = λ s e.
      insert_all-Found 0 table [] s
        (has-cons s [] (into_iter (all_strings frames)) (laws.gives (all_strings frames) s e)) in
    let empty : Tables = record { loc_tbl = []; fn_tbl = []; functions = [] } in
    let empty_Named : Named table empty = record {
      named = λ s i e. absurd (none_found s i e);
      fresh_function = λ id above. refl;
      fresh_location = λ id above. refl;
    } in
    let in_frames =
      frames-AllFramesFound table strings sound frames
        (λ s e. found s (has-append_left s (frame_strings frames) units e)) in
    let of_units : (s : Bytes) → has s units ≡ true → Found strings s =
      λ s e. found s (has-append_right s (frame_strings frames) units e) in
    let (samples, t, ran, names, kept) =
      build_samples-SampleNames table strings sound frequency frames empty some_frequency not_minus
        in_frames empty_Named in
    let (samples_value, e1) =
      value_type-some table strings sound (codes "cycles") (codes "count")
        (of_units (codes "cycles") refl) (of_units (codes "count") refl) in
    let (time_value, e2) =
      value_type-some table strings sound (codes "fakecpu") (codes "nanoseconds")
        (of_units (codes "fakecpu") refl) (of_units (codes "nanoseconds") refl) in
    let (period, e3) = i64_div-some 1000000000 frequency some_frequency not_minus in
    (
      record {
        sample_type = samples_value ∷ time_value ∷ [];
        sample = samples;
        string_table = table;
        function = t.fn_tbl;
        location = t.loc_tbl;
        period_type = time_value;
        period = period;
      },
      rw (ran, e1, e2, e3, convert) refl,
      SampleNames-Keeps table t (record { loc_tbl = t.loc_tbl; fn_tbl = t.fn_tbl; functions = [] })
          samples frames (λ id s e. e) names,
    )
