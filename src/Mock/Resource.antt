-- ===== src/Mock/Resource.antt =====
-- `Resource` (ckb-mock-tx-types/src/lib.rs): the cells and headers that a transaction needs. A map
-- is the list of what was inserted, the last entry first.
pub mod Complete
pub mod Mocked
use ckb_standalone_debugger.Prelude.{
  Bool, true, false, Option, none, some, List, [], ◌∷◌, ◌++◌, Bytes, Outcome, ok, err, panic,
  if◌then◌else◌,
}
use ckb_standalone_debugger.Mock.{
  Chain, MockTransaction, LoadError, no_input, no_dep, bad_dep_group, no_group_cell, no_header,
  missing_header, missing_cell, Cell, Loaded, get_input_cell, get_dep_cell, get_header,
}

module _ (chain : Chain) where
  -- What the builder of a cell is given; of the transaction information, the block's hash.
  pub record CellMeta : Type 0 where
    pub cell_output : chain.CellOutput
    pub cell_data : Bytes
    pub out_point : chain.OutPoint
    pub block_hash : chain.Byte32

  pub record Resource : Type 0 where
    pub required_cells : List (chain.OutPoint × CellMeta)
    pub required_headers : List (chain.Byte32 × chain.HeaderView)
    pub block_extensions : List (chain.Byte32 × Bytes)

  -- `HashMap::get`, by the test of equality of the keys.
  unfoldable pub find_entry : {K A : Type 0} → (K → K → Bool) → List (K × A) → K → Option A
  find_entry same [] key = none
  find_entry same ((k, a) ∷ entries) key =
      let later = find_entry same entries key in if same key k then some a else later

  -- `header.unwrap_or_default()`
  unfoldable pub build_transaction_info : Option chain.Byte32 → chain.Byte32
  build_transaction_info none = chain.default_hash
  build_transaction_info (some header) = header

  unfoldable pub build_cell : chain.OutPoint → Cell chain → CellMeta
  unfolding build_transaction_info
  build_cell out_point (output, bytes, header) = record {
    cell_output = output;
    cell_data = bytes;
    out_point = out_point;
    block_hash = build_transaction_info header;
  }

  -- `ok_or_else(..)?`: what follows a getter.
  abbrev pub required :
      {A B L : Type 0}
      → LoadError chain
      → Loaded chain (Option A) × L
      → (A → L → Loaded chain B × L)
      → Loaded chain B × L
  required e (ok (some a), l) f = f a l
  required e (ok none, l) f = (err e, l)
  required e (err x, l) f = (err x, l)
  required e (panic, l) f = (panic, l)

  abbrev pub loaded_then :
      {A B L : Type 0} → Loaded chain A × L → (A → L → Loaded chain B × L) → Loaded chain B × L
  loaded_then (ok a, l) f = f a l
  loaded_then (err x, l) f = (err x, l)
  loaded_then (panic, l) f = (panic, l)

  -- `MockResourceLoader`
  pub record Loader (L : Type 0) : Type 0 where
    pub loader_header : chain.Byte32 → L → Loaded chain (Option chain.HeaderView) × L
    pub loader_live_cell : chain.OutPoint → L → Loaded chain (Option (Cell chain)) × L

  abbrev pub Cells : Type 0
  Cells = List (chain.OutPoint × CellMeta)

  module _ {L : Type 0} (loader : Loader L) (mock_tx : MockTransaction chain) where
    -- The loop over the inputs.
    unfoldable pub load_inputs : List chain.CellInput → Cells → L → Loaded chain Cells × L
    unfolding get_input_cell build_cell
    load_inputs [] cells l = (ok cells, l)
    load_inputs (input ∷ inputs) cells l =
        required (no_input input) (get_input_cell chain mock_tx input loader.loader_live_cell l)
          (λ cell l'.
            let previous = chain.previous_output input in
            load_inputs inputs ((previous, build_cell previous cell) ∷ cells) l')

    -- The loop over the members of a dep group.
    unfoldable pub load_group : List chain.OutPoint → Cells → L → Loaded chain Cells × L
    unfolding get_dep_cell build_cell
    load_group [] cells l = (ok cells, l)
    load_group (sub ∷ subs) cells l =
        required (no_group_cell sub) (get_dep_cell chain mock_tx sub loader.loader_live_cell l)
          (λ cell l'. load_group subs ((sub, build_cell sub cell) ∷ cells) l')

    -- The data of a dep group is a list of out points.
    unfoldable pub open_group : Bool → Bytes → Cells → L → Loaded chain Cells × L
    unfolding load_group
    open_group false bytes cells l = (ok cells, l)
    open_group true bytes cells l = elim (chain.out_points bytes) [
      | none ↦ (err bad_dep_group, l)
      | some subs ↦ load_group subs cells l
    ]

    -- The loop over the cell deps: the members of a group go in first.
    unfoldable pub load_deps : List chain.CellDep → Cells → L → Loaded chain Cells × L
    unfolding get_dep_cell open_group build_cell
    load_deps [] cells l = (ok cells, l)
    load_deps (dep ∷ deps) cells l =
        let out_point = chain.out_point dep in
        required (no_dep dep) (get_dep_cell chain mock_tx out_point loader.loader_live_cell l)
          (λ (output, bytes, header) l'.
            loaded_then (open_group (chain.is_dep_group dep) bytes cells l') (λ cells' l''.
              load_deps deps ((out_point, build_cell out_point (output, bytes, header)) ∷ cells')
                l''))

    -- The loop over the header deps.
    unfoldable pub load_headers :
        List chain.Byte32
        → List (chain.Byte32 × chain.HeaderView)
        → L
        → Loaded chain (List (chain.Byte32 × chain.HeaderView)) × L
    unfolding get_header
    load_headers [] headers l = (ok headers, l)
    load_headers (block_hash ∷ hashes) headers l =
        required (no_header block_hash) (get_header chain mock_tx block_hash loader.loader_header l)
          (λ header l'. load_headers hashes ((block_hash, header) ∷ headers) l')

    -- A list of entries that are inserted, on a map. The map that is given in addition goes in
    -- last.
    abbrev pub inserted :
        List (chain.Byte32 × Bytes) → List (chain.Byte32 × Bytes) → List (chain.Byte32 × Bytes)
    inserted [] entries = entries
    inserted (e ∷ more) entries = inserted more (e ∷ entries)

    unfoldable pub from_loader_and_block_extensions :
        List (chain.Byte32 × Bytes) → L → Loaded chain Resource × L
    unfolding load_inputs load_deps load_headers
    from_loader_and_block_extensions block_extensions l =
        loaded_then (load_inputs mock_tx.tx.inputs [] l) (λ inputs l1.
          loaded_then (load_deps mock_tx.tx.cell_deps inputs l1) (λ cells l2.
            loaded_then (load_headers mock_tx.tx.header_deps [] l2) (λ headers l3. (
              ok (record {
                required_cells = cells;
                required_headers = headers;
                block_extensions = block_extensions ++ inserted mock_tx.mock_info.extensions [];
              }),
              l3,
            ))))

    unfoldable pub from_both : L → Loaded chain Resource × L
    unfolding from_loader_and_block_extensions
    from_both = from_loader_and_block_extensions []

  -- `DummyResourceLoader` keeps no state.
  unfoldable pub dummy_loader : Loader (Unit {0})
  dummy_loader = record {
    loader_header = λ hash l. (err (missing_header hash), l);
    loader_live_cell = λ out_point l. (err (missing_cell out_point), l);
  }

  unfoldable pub from_mock_tx : MockTransaction chain → Loaded chain Resource
  unfolding from_both dummy_loader
  from_mock_tx mock_tx = (from_both dummy_loader mock_tx tt).0

  -- `CellProvider::cell`: none is `CellStatus::Unknown`.
  unfoldable pub cell : Resource → chain.OutPoint → Option CellMeta
  unfolding find_entry
  cell r = find_entry chain.same_out_point r.required_cells

  unfoldable pub get_cell_data : Resource → chain.OutPoint → Option Bytes
  unfolding find_entry
  get_cell_data r out_point = elim (find_entry chain.same_out_point r.required_cells out_point) [
    | none ↦ none
    | some cell_meta ↦ some cell_meta.cell_data
  ]

  unfoldable pub resource_header : Resource → chain.Byte32 → Option chain.HeaderView
  unfolding find_entry
  resource_header r = find_entry chain.same_hash r.required_headers

  -- `HeaderChecker::check_valid`: whether it is `Ok`.
  unfoldable pub check_valid : Resource → chain.Byte32 → Bool
  unfolding find_entry
  check_valid r block_hash = elim (find_entry chain.same_hash r.required_headers block_hash) [
    | none ↦ false
    | some header ↦ true
  ]

  unfoldable pub get_block_extension : Resource → chain.Byte32 → Option Bytes
  unfolding find_entry
  get_block_extension r = find_entry chain.same_hash r.block_extensions
