-- ===== src/Mock/Json/RoundTrip.antt =====
-- A mock transaction comes back from JSON.
use ckb_standalone_debugger.Prelude.{◌≡◌, refl, ap, Option, none, some, List, [], ◌∷◌, map, Bytes}
use ckb_standalone_debugger.Mock.{
  Chain, MockCellDep, MockInput, MockInfo, Transaction, MockTransaction,
}
use ckb_standalone_debugger.Mock.Json.{
  JsonTypes, option_map, repr_cell_dep, mock_cell_dep, repr_input, mock_input, repr_header,
  header_of_repr, repr_extension, extension_of_repr, repr_info, mock_info_of_repr, repr_transaction,
  mock_transaction,
}

-- The conversions of the packages lose nothing, but for the hash of a header: it is computed anew
-- from the other fields, and `fake_hash` sets it.
pub record JsonLaws {chain : Chain} (json : JsonTypes chain) : Type 0 where
  pub cell_dep_back : (x : chain.CellDep) → json.cell_dep_from (json.cell_dep_into x) ≡ x
  pub output_back : (x : chain.CellOutput) → json.output_from (json.output_into x) ≡ x
  pub input_back : (x : chain.CellInput) → json.input_from (json.input_into x) ≡ x
  pub bytes_back : (x : Bytes) → json.into_bytes (json.from_bytes x) ≡ x
  pub hash_back : (x : chain.Byte32) → json.pack (json.unpack x) ≡ x
  pub tx_back : (x : Transaction chain) → json.tx_from (json.tx_into x) ≡ x
  pub json_hash_set :
      (h : json.H256) (x : json.JsonHeader) → json.json_hash (json.set_json_hash h x) ≡ h
  pub hash_not_read :
      (h : json.H256) (x : json.JsonHeader)
      → json.header_from (json.set_json_hash h x) ≡ json.header_from x
  pub header_back :
      (x : chain.HeaderView)
      → json.fake_hash (chain.hash x) (json.header_from (json.header_into x)) ≡ x

map-back :
    {A B : Type 0} (f : A → B) (g : B → A)
    → ((a : A) → g (f a) ≡ a)
    → (xs : List A) → map g (map f xs) ≡ xs
map-back f g back [] = refl
map-back f g back (x ∷ xs) = rw (back x, map-back f g back xs) refl

module _ {chain : Chain} (json : JsonTypes chain) (laws : JsonLaws json) where
  option_back :
      (h : Option chain.Byte32) → option_map json json.pack (option_map json json.unpack h) ≡ h
  option_back none = refl
  option_back (some h) = ap some (laws.hash_back h)

  cell_dep_back_lem : (x : MockCellDep chain) → mock_cell_dep json (repr_cell_dep json x) ≡ x
  unfolding mock_cell_dep repr_cell_dep
  cell_dep_back_lem x =
      rw
        (
          laws.cell_dep_back x.cell_dep,
          laws.output_back x.output,
          laws.bytes_back x.bytes,
          option_back x.header,
        )
        refl

  input_back_lem : (x : MockInput chain) → mock_input json (repr_input json x) ≡ x
  unfolding mock_input repr_input
  input_back_lem x =
      rw
        (
          laws.input_back x.input,
          laws.output_back x.output,
          laws.bytes_back x.bytes,
          option_back x.header,
        )
        refl

  header_back_lem : (x : chain.HeaderView) → header_of_repr json (repr_header json x) ≡ x
  unfolding header_of_repr repr_header
  header_back_lem x =
      rw
        (
          header_of_repr,
          repr_header,
          laws.json_hash_set (json.unpack (chain.hash x)) (json.header_into x),
          laws.hash_back (chain.hash x),
          laws.hash_not_read (json.unpack (chain.hash x)) (json.header_into x),
        )
        (laws.header_back x)

  extension_back_lem :
      (x : chain.Byte32 × Bytes) → extension_of_repr json (repr_extension json x) ≡ x
  unfolding extension_of_repr repr_extension
  extension_back_lem (hash, data_) = rw (laws.hash_back hash, laws.bytes_back data_) refl

  info_back_lem : (x : MockInfo chain) → mock_info_of_repr json (repr_info json x) ≡ x
  unfolding mock_info_of_repr repr_info
  info_back_lem x =
      rw
        (
          map-back (repr_input json) (mock_input json) input_back_lem x.inputs,
          map-back (repr_cell_dep json) (mock_cell_dep json) cell_dep_back_lem x.cell_deps,
          map-back (repr_header json) (header_of_repr json) header_back_lem x.header_deps,
          map-back (repr_extension json) (extension_of_repr json) extension_back_lem x.extensions,
        )
        refl

  -- With conversions of the packages that lose nothing but the hash of a header, a mock transaction
  -- that is turned into its form for JSON and back is the same, also with headers whose hash the
  -- user gave.
  pub mock_transaction-repr_transaction :
      (x : MockTransaction chain) → mock_transaction json (repr_transaction json x) ≡ x
  unfolding mock_transaction repr_transaction
  mock_transaction-repr_transaction x = rw (info_back_lem x.mock_info, laws.tx_back x.tx) refl
