-- ===== src/Tests/Mock.antt =====
-- A mock transaction with an input, a dep group of two cells and a header.
use ckb_standalone_debugger.Prelude.{ℕ, Bytes, ◌==◌, ==_refl, ◌≡◌, refl, none, some, [], ◌∷◌, ok}
use ckb_standalone_debugger.Mock.{Chain, Transaction, MockTransaction}
use ckb_standalone_debugger.Mock.Json.{JsonTypes, repr_transaction, mock_transaction}
use ckb_standalone_debugger.Mock.Json.RoundTrip.{JsonLaws, mock_transaction-repr_transaction}
use ckb_standalone_debugger.Mock.Resource.{
  Resource, Loader, dummy_loader, from_loader_and_block_extensions,
}
use ckb_standalone_debugger.Mock.Resource.Complete.{
  ChainLaws, InputsLive, DepsLive, AllValid, from_loader-Complete,
}
use ckb_standalone_debugger.Mock.Resource.Mocked.{from_loader-Mocked}

-- Everything is a number; an input is its cell, and 100 is a dep group.
abbrev numbers : Chain
numbers = record {
  OutPoint = ℕ;
  CellOutput = ℕ;
  Byte32 = ℕ;
  HeaderView = ℕ;
  CellInput = ℕ;
  CellDep = ℕ;
  same_input = λ a b. a == b;
  same_out_point = λ a b. a == b;
  same_hash = λ a b. a == b;
  previous_output = λ input. input;
  out_point = λ dep. dep;
  is_dep_group = λ dep. dep == 100;
  hash = λ header. header;
  default_hash = 0;
  out_points = λ bytes. some bytes;
}

numbers_laws : ChainLaws numbers
numbers_laws = record { same_out_point_refl = ==_refl; same_hash_refl = ==_refl }

abbrev dummy : Loader numbers (Unit {0})
unfolding dummy_loader
dummy = dummy_loader numbers

abbrev small_tx : MockTransaction numbers
small_tx = record {
  mock_info = record {
    inputs = record { input = 1; output = 10; bytes = []; header = none } ∷ [];
    cell_deps =
        record { cell_dep = 100; output = 20; bytes = 2 ∷ 3 ∷ []; header = some 7 }
        ∷ record { cell_dep = 2; output = 30; bytes = []; header = none }
        ∷ record { cell_dep = 3; output = 40; bytes = []; header = none }
        ∷ [];
    header_deps = 7 ∷ [];
    extensions = [];
  };
  tx = record { inputs = 1 ∷ []; cell_deps = 100 ∷ []; header_deps = 7 ∷ [] };
}

from_loader-Mocked_example :
    (r : Resource numbers) × (from_loader_and_block_extensions numbers dummy small_tx [] tt
      ≡ (ok r, tt))
from_loader-Mocked_example =
    from_loader-Mocked numbers small_tx dummy [] tt (((10, [], none), refl), tt)
      (
        (
          (20, 2 ∷ 3 ∷ [], some 7),
          refl,
          (2 ∷ 3 ∷ [], refl, (((30, [], none), refl), (((40, [], none), refl), tt))),
        ),
        tt,
      )
      ((7, refl), tt)

abbrev small_resource : Resource numbers
small_resource = record {
  required_cells =
      (100, record { cell_output = 20; cell_data = 2 ∷ 3 ∷ []; out_point = 100; block_hash = 7 })
      ∷ (3, record { cell_output = 40; cell_data = []; out_point = 3; block_hash = 0 })
      ∷ (2, record { cell_output = 30; cell_data = []; out_point = 2; block_hash = 0 })
      ∷ (1, record { cell_output = 10; cell_data = []; out_point = 1; block_hash = 0 })
      ∷ [];
  required_headers = (7, 7) ∷ [];
  block_extensions = [];
}

loaded : from_loader_and_block_extensions numbers dummy small_tx [] tt ≡ (ok small_resource, tt)
unfolding from_loader_and_block_extensions
loaded = refl

from_loader-Complete_example :
    InputsLive numbers numbers_laws dummy small_tx small_resource.required_cells (1 ∷ [])
    × DepsLive numbers numbers_laws dummy small_tx small_resource.required_cells (100 ∷ [])
    × AllValid numbers numbers_laws dummy small_tx small_resource (7 ∷ [])
from_loader-Complete_example =
    from_loader-Complete numbers numbers_laws dummy small_tx [] tt tt small_resource loaded

-- In JSON everything is itself; a header is its hash with the hash that its fields give.
abbrev numbers_json : JsonTypes numbers
numbers_json = record {
  JsonCellDep = ℕ;
  JsonCellOutput = ℕ;
  JsonCellInput = ℕ;
  JsonBytes = Bytes;
  JsonHeader = ℕ;
  JsonTransaction = Transaction numbers;
  H256 = ℕ;
  cell_dep_into = λ x. x;
  cell_dep_from = λ x. x;
  output_into = λ x. x;
  output_from = λ x. x;
  input_into = λ x. x;
  input_from = λ x. x;
  from_bytes = λ x. x;
  into_bytes = λ x. x;
  unpack = λ x. x;
  pack = λ x. x;
  header_into = λ x. 0;
  header_from = λ x. 0;
  json_hash = λ x. x;
  set_json_hash = λ h x. h;
  fake_hash = λ h x. h;
  tx_into = λ x. x;
  tx_from = λ x. x;
}

numbers_json_laws : JsonLaws numbers_json
numbers_json_laws = record {
  cell_dep_back = λ x. refl;
  output_back = λ x. refl;
  input_back = λ x. refl;
  bytes_back = λ x. refl;
  hash_back = λ x. refl;
  tx_back = λ x. refl;
  json_hash_set = λ h x. refl;
  hash_not_read = λ h x. refl;
  header_back = λ x. refl;
}

mock_transaction-repr_transaction_example :
    mock_transaction numbers_json (repr_transaction numbers_json small_tx) ≡ small_tx
mock_transaction-repr_transaction_example =
    mock_transaction-repr_transaction numbers_json numbers_json_laws small_tx
