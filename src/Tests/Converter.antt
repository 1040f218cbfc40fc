-- ===== src/Tests/Converter.antt =====
-- The converter on a flame graph of two lines.
use ckb_standalone_debugger.Prelude.{◌++◌, map, ◌≡◌, some, List, [], ◌∷◌, Bytes, arith, unwrap_or}
use ckb_standalone_debugger.Prelude.Format.{decimal, codes}
use ckb_standalone_debugger.Converter.Lines.{parse_line, symbol_of, reversed, Frame, parse_lines}
use ckb_standalone_debugger.Converter.Lines.Written.{joined, parse_line-joined}
use ckb_standalone_debugger.Converter.Tables.{ProfileMessage, convert}
use ckb_standalone_debugger.Converter.Tables.Strings.{SetLaws}
use ckb_standalone_debugger.Converter.Tables.Names.{SampleNames, tables_of, convert-SampleNames}

-- A set that gives what was inserted, in order.
abbrev in_turn : List Bytes → List Bytes
in_turn strings = strings

in_turn_laws : SetLaws in_turn
in_turn_laws = record { gives = λ strings s e. e }

abbrev two_lines : List Bytes
two_lines = codes "a.c:main; a.c:f<int> 12" ∷ codes "a.c:main 30" ∷ []

abbrev two_frames : List Frame
unfolding parse_lines
two_frames = unwrap_or (parse_lines two_lines) []

convert-SampleNames_example :
    (p : ProfileMessage) × (convert in_turn 500000000 two_frames ≡ some p)
    × SampleNames p.string_table (tables_of p) p.sample two_frames
convert-SampleNames_example =
    convert-SampleNames in_turn 500000000 two_frames in_turn_laws (λ e. omega arith)
      (λ e. omega arith)

parse_line-joined_example :
    parse_line (joined (codes "m f") (codes "g" ∷ []) ++ b' ' ∷ decimal 12)
    ≡ some
        (record { stack = reversed (map symbol_of (codes "m f" ∷ codes "g" ∷ [])) []; cycles = 12 })
parse_line-joined_example =
    parse_line-joined (codes "m f") (codes "g" ∷ []) 12
      (
        ((λ e. omega arith), ((λ e. omega arith), ((λ e. omega arith), tt))),
        (((λ e. omega arith), tt), tt),
      )
      (omega arith)
