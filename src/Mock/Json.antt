-- ===== src/Mock/Json.antt =====
-- Mock transactions as JSON (ckb-mock-tx-types/src/lib.rs). The package ckb-jsonrpc-types is a
-- parameter: its types, and its conversions from and to the ones of ckb-types.
pub mod RoundTrip
use ckb_standalone_debugger.Prelude.{Option, none, some, List, [], ◌∷◌, map, Bytes}
use ckb_standalone_debugger.Mock.{
  Chain, MockCellDep, MockInput, MockInfo, Transaction, MockTransaction,
}

pub record JsonTypes (chain : Chain) : Type 1 where
  pub JsonCellDep : Type 0
  pub JsonCellOutput : Type 0
  pub JsonCellInput : Type 0
  pub JsonBytes : Type 0
  pub JsonHeader : Type 0
  pub JsonTransaction : Type 0
  pub H256 : Type 0
  pub cell_dep_into : chain.CellDep → JsonCellDep
  pub cell_dep_from : JsonCellDep → chain.CellDep
  pub output_into : chain.CellOutput → JsonCellOutput
  pub output_from : JsonCellOutput → chain.CellOutput
  pub input_into : chain.CellInput → JsonCellInput
  pub input_from : JsonCellInput → chain.CellInput
  pub from_bytes : Bytes → JsonBytes
  pub into_bytes : JsonBytes → Bytes
  pub unpack : chain.Byte32 → H256
  pub pack : H256 → chain.Byte32
  pub header_into : chain.HeaderView → JsonHeader
  pub header_from : JsonHeader → chain.HeaderView
  -- the field `hash`
  pub json_hash : JsonHeader → H256
  pub set_json_hash : H256 → JsonHeader → JsonHeader
  pub fake_hash : chain.Byte32 → chain.HeaderView → chain.HeaderView
  pub tx_into : Transaction chain → JsonTransaction
  pub tx_from : JsonTransaction → Transaction chain

module _ {chain : Chain} (json : JsonTypes chain) where
  pub record ReprMockCellDep : Type 0 where
    pub cell_dep : json.JsonCellDep
    pub output : json.JsonCellOutput
    pub bytes : json.JsonBytes
    pub header : Option json.H256

  pub record ReprMockInput : Type 0 where
    pub input : json.JsonCellInput
    pub output : json.JsonCellOutput
    pub bytes : json.JsonBytes
    pub header : Option json.H256

  pub record ReprMockInfo : Type 0 where
    pub inputs : List ReprMockInput
    pub cell_deps : List ReprMockCellDep
    pub header_deps : List json.JsonHeader
    pub extensions : List (json.H256 × json.JsonBytes)

  pub record ReprMockTransaction : Type 0 where
    pub mock_info : ReprMockInfo
    pub tx : json.JsonTransaction

  abbrev pub option_map : {A B : Type 0} → (A → B) → Option A → Option B
  option_map f none = none
  option_map f (some a) = some (f a)

  unfoldable pub repr_cell_dep : MockCellDep chain → ReprMockCellDep
  repr_cell_dep dep = record {
    cell_dep = json.cell_dep_into dep.cell_dep;
    output = json.output_into dep.output;
    bytes = json.from_bytes dep.bytes;
    header = option_map json.unpack dep.header;
  }

  unfoldable pub mock_cell_dep : ReprMockCellDep → MockCellDep chain
  mock_cell_dep dep = record {
    cell_dep = json.cell_dep_from dep.cell_dep;
    output = json.output_from dep.output;
    bytes = json.into_bytes dep.bytes;
    header = option_map json.pack dep.header;
  }

  unfoldable pub repr_input : MockInput chain → ReprMockInput
  repr_input input = record {
    input = json.input_into input.input;
    output = json.output_into input.output;
    bytes = json.from_bytes input.bytes;
    header = option_map json.unpack input.header;
  }

  unfoldable pub mock_input : ReprMockInput → MockInput chain
  mock_input input = record {
    input = json.input_from input.input;
    output = json.output_from input.output;
    bytes = json.into_bytes input.bytes;
    header = option_map json.pack input.header;
  }

  -- The header keeps the hash that the user gave.
  unfoldable pub repr_header : chain.HeaderView → json.JsonHeader
  repr_header header =
      json.set_json_hash (json.unpack (chain.hash header)) (json.header_into header)

  unfoldable pub header_of_repr : json.JsonHeader → chain.HeaderView
  header_of_repr json_header =
      json.fake_hash (json.pack (json.json_hash json_header)) (json.header_from json_header)

  unfoldable pub repr_extension : chain.Byte32 × Bytes → json.H256 × json.JsonBytes
  repr_extension (hash, data_) = (json.unpack hash, json.from_bytes data_)

  unfoldable pub extension_of_repr : json.H256 × json.JsonBytes → chain.Byte32 × Bytes
  extension_of_repr (hash, data_) = (json.pack hash, json.into_bytes data_)

  unfoldable pub repr_info : MockInfo chain → ReprMockInfo
  unfolding repr_input repr_cell_dep repr_header repr_extension
  repr_info info = record {
    inputs = map repr_input info.inputs;
    cell_deps = map repr_cell_dep info.cell_deps;
    header_deps = map repr_header info.header_deps;
    extensions = map repr_extension info.extensions;
  }

  unfoldable pub mock_info_of_repr : ReprMockInfo → MockInfo chain
  unfolding mock_input mock_cell_dep header_of_repr extension_of_repr
  mock_info_of_repr info = record {
    inputs = map mock_input info.inputs;
    cell_deps = map mock_cell_dep info.cell_deps;
    header_deps = map header_of_repr info.header_deps;
    extensions = map extension_of_repr info.extensions;
  }

  unfoldable pub repr_transaction : MockTransaction chain → ReprMockTransaction
  unfolding repr_info
  repr_transaction tx = record { mock_info = repr_info tx.mock_info; tx = json.tx_into tx.tx }

  unfoldable pub mock_transaction : ReprMockTransaction → MockTransaction chain
  unfolding mock_info_of_repr
  mock_transaction tx = record {
    mock_info = mock_info_of_repr tx.mock_info;
    tx = json.tx_from tx.tx;
  }
