-- ===== src/Protocol/Nom.antt =====
-- What the parsers of packets (ckb-gdb-remote-protocol/src/lib.rs) use of the package nom: its
-- combinators are the fields of a record that every parser takes as an argument, and how they are
-- documented is `NomLaws`. A parser may also panic, in a closure that it is given.
pub mod Documented
use ckb_standalone_debugger.Prelude.{ℕ, Bool, Option, List, Bytes}

-- `nom::IResult`, without what it says of an error or of the bytes needed.
pub data IResult (A : Type 0) : Type 0 where
  done : Bytes → A → IResult A
  incomplete error panicked : IResult A

abbrev pub Parser : Type 0 → Type 0
Parser A = Bytes → IResult A

pub record Nom : Type 1 where
  pub tag : Bytes → Parser Bytes
  pub take : ℕ → Parser Bytes
  pub is_not : Bytes → Parser Bytes
  pub is_hex_digit : ℕ → Bool
  pub take_while1 : (ℕ → Bool) → Parser Bytes
  pub take_till : (ℕ → Bool) → Parser Bytes
  pub take_until : Bytes → Parser Bytes
  pub one_of : Bytes → Parser ℕ
  pub eof : Parser Bytes
  pub map : {A B : Type 0} → Parser A → (A → B) → Parser B
  -- `map!` with a closure that unwraps its result: `none` is a panic.
  pub map_unwrap : {A B : Type 0} → Parser A → (A → Option B) → Parser B
  pub map_res : {A B : Type 0} → Parser A → (A → Option B) → Parser B
  pub flat_map : {A : Type 0} → Parser Bytes → Parser A → Parser A
  -- `p >> …` and `a: p >> …` of `do_parse!`
  pub then_parse : {A B : Type 0} → Parser A → (A → Parser B) → Parser B
  pub preceded : {A B : Type 0} → Parser A → Parser B → Parser B
  pub separated_pair : {A B C : Type 0} → Parser A → Parser B → Parser C → Parser (A × C)
  pub alt : {A : Type 0} → List (Parser A) → Parser A
  pub alt_complete : {A : Type 0} → List (Parser A) → Parser A
  pub opt : {A : Type 0} → Parser A → Parser (Option A)
  pub complete : {A : Type 0} → Parser A → Parser A
  pub many0 : {A : Type 0} → Parser A → Parser (List A)
  pub many1 : {A : Type 0} → Parser A → Parser (List A)
  pub separated_list_complete : {A B : Type 0} → Parser A → Parser B → Parser (List B)
  pub separated_nonempty_list_complete : {A B : Type 0} → Parser A → Parser B → Parser (List B)
