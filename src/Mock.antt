-- ===== src/Mock.antt =====
-- Mock transactions and the cells that they need (ckb-mock-tx-types/src/lib.rs). The package
-- ckb-types is a parameter: its types, with the tests of equality and the functions that the code
-- calls. An error message is a constructor of `LoadError`.
pub mod Resource
pub mod Json
use ckb_standalone_debugger.Prelude.{
  Bool, Option, none, some, List, [], ◌∷◌, Bytes, Outcome, ok, err, panic, if◌then◌else◌,
}

pub record Chain : Type 1 where
  pub OutPoint : Type 0
  pub CellOutput : Type 0
  pub Byte32 : Type 0
  pub HeaderView : Type 0
  pub CellInput : Type 0
  pub CellDep : Type 0
  pub same_input : CellInput → CellInput → Bool
  pub same_out_point : OutPoint → OutPoint → Bool
  pub same_hash : Byte32 → Byte32 → Bool
  pub previous_output : CellInput → OutPoint
  pub out_point : CellDep → OutPoint
  pub is_dep_group : CellDep → Bool
  pub hash : HeaderView → Byte32
  pub default_hash : Byte32
  -- `OutPointVec::from_slice`
  pub out_points : Bytes → Option (List OutPoint)

module _ (chain : Chain) where
  pub record MockCellDep : Type 0 where
    pub cell_dep : chain.CellDep
    pub output : chain.CellOutput
    pub bytes : Bytes
    pub header : Option chain.Byte32

  pub record MockInput : Type 0 where
    pub input : chain.CellInput
    pub output : chain.CellOutput
    pub bytes : Bytes
    pub header : Option chain.Byte32

  pub record MockInfo : Type 0 where
    pub inputs : List MockInput
    pub cell_deps : List MockCellDep
    pub header_deps : List chain.HeaderView
    pub extensions : List (chain.Byte32 × Bytes)

  -- What the code reads of a transaction.
  pub record Transaction : Type 0 where
    pub inputs : List chain.CellInput
    pub cell_deps : List chain.CellDep
    pub header_deps : List chain.Byte32

  pub record MockTransaction : Type 0 where
    pub mock_info : MockInfo
    pub tx : Transaction

  pub data LoadError : Type 0 where
    no_input : chain.CellInput → LoadError
    no_dep : chain.CellDep → LoadError
    bad_dep_group : LoadError
    no_group_cell : chain.OutPoint → LoadError
    no_header : chain.Byte32 → LoadError
    loader_error : Bytes → LoadError
    missing_header : chain.Byte32 → LoadError
    missing_cell : chain.OutPoint → LoadError

  -- A cell's output, its data and the hash of its block.
  abbrev pub Cell : Type 0
  Cell = chain.CellOutput × Bytes × Option chain.Byte32

  abbrev pub Loaded : Type 0 → Type 0
  Loaded A = Outcome LoadError A

  abbrev pub Getter : Type 0 → Type 0 → Type 0 → Type 0
  Getter L K A = K → L → Loaded (Option A) × L

  unfoldable pub input_cell :
      {L : Type 0}
      → List MockInput
      → chain.CellInput
      → Getter L chain.OutPoint Cell
      → L
      → Loaded (Option Cell) × L
  input_cell [] input live_cell_getter l = live_cell_getter (chain.previous_output input) l
  input_cell (mock_input ∷ inputs) input live_cell_getter l =
      let rest = input_cell inputs input live_cell_getter l in
      if chain.same_input input mock_input.input
      then (ok (some (mock_input.output, mock_input.bytes, mock_input.header)), l)
      else rest

  unfoldable pub get_input_cell :
      {L : Type 0}
      → MockTransaction
      → chain.CellInput
      → Getter L chain.OutPoint Cell
      → L
      → Loaded (Option Cell) × L
  unfolding input_cell
  get_input_cell mock_tx = input_cell mock_tx.mock_info.inputs

  unfoldable pub dep_cell :
      {L : Type 0}
      → List MockCellDep
      → chain.OutPoint
      → Getter L chain.OutPoint Cell
      → L
      → Loaded (Option Cell) × L
  dep_cell [] out_point live_cell_getter l = live_cell_getter out_point l
  dep_cell (mock_cell ∷ cells) out_point live_cell_getter l =
      let rest = dep_cell cells out_point live_cell_getter l in
      if chain.same_out_point out_point (chain.out_point mock_cell.cell_dep)
      then (ok (some (mock_cell.output, mock_cell.bytes, mock_cell.header)), l)
      else rest

  unfoldable pub get_dep_cell :
      {L : Type 0}
      → MockTransaction
      → chain.OutPoint
      → Getter L chain.OutPoint Cell
      → L
      → Loaded (Option Cell) × L
  unfolding dep_cell
  get_dep_cell mock_tx = dep_cell mock_tx.mock_info.cell_deps

  unfoldable pub mock_header :
      {L : Type 0}
      → List chain.HeaderView
      → chain.Byte32
      → Getter L chain.Byte32 chain.HeaderView
      → L
      → Loaded (Option chain.HeaderView) × L
  mock_header [] block_hash header_getter l = header_getter block_hash l
  mock_header (header ∷ headers) block_hash header_getter l =
      let rest = mock_header headers block_hash header_getter l in
      if chain.same_hash block_hash (chain.hash header) then (ok (some header), l) else rest

  -- The key is a `Byte32`, and the hash of a header an `H256`: `unpack` turns the one into the
  -- other, which has the same 32 bytes.
  unfoldable pub get_header :
      {L : Type 0}
      → MockTransaction
      → chain.Byte32
      → Getter L chain.Byte32 chain.HeaderView
      → L
      → Loaded (Option chain.HeaderView) × L
  unfolding mock_header
  get_header mock_tx = mock_header mock_tx.mock_info.header_deps
