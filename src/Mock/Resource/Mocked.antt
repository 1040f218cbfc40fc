-- ===== src/Mock/Resource/Mocked.antt =====
-- A transaction that brings along all that it needs.
use ckb_standalone_debugger.Prelude.{
  ◌≡◌, refl, ap, Bool, true, false, Option, none, some, List, [], ◌∷◌, ◌++◌, Bytes, ok, Bool-cases,
  inl, inr, if◌then◌else◌,
}
use ckb_standalone_debugger.Mock.{
  Chain, MockInput, MockCellDep, MockTransaction, Cell, Loaded, Getter, input_cell, get_input_cell,
  dep_cell, get_dep_cell, mock_header, get_header,
}
use ckb_standalone_debugger.Mock.Resource.{
  Resource, Loader, build_cell, Cells, load_inputs, load_group, open_group, load_deps, load_headers,
  inserted, from_loader_and_block_extensions,
}

module _ (chain : Chain) where
  -- The first mock with the key, if there is one.
  abbrev mocked_input : List (MockInput chain) → chain.CellInput → Option (Cell chain)
  mocked_input [] input = none
  mocked_input (m ∷ inputs) input =
      let later = mocked_input inputs input in
      if chain.same_input input m.input then some (m.output, m.bytes, m.header) else later

  abbrev mocked_dep : List (MockCellDep chain) → chain.OutPoint → Option (Cell chain)
  mocked_dep [] out_point = none
  mocked_dep (m ∷ cells) out_point =
      let later = mocked_dep cells out_point in
      if chain.same_out_point out_point (chain.out_point m.cell_dep)
      then some (m.output, m.bytes, m.header)
      else later

  abbrev mocked_header : List chain.HeaderView → chain.Byte32 → Option chain.HeaderView
  mocked_header [] block_hash = none
  mocked_header (header ∷ headers) block_hash =
      let later = mocked_header headers block_hash in
      if chain.same_hash block_hash (chain.hash header) then some header else later

  abbrev answer : {A L : Type 0} → L → Option A → Loaded chain (Option A) × L
  answer l o = (ok o, l)

  input_cell-mocked :
      {L : Type 0} (inputs : List (MockInput chain)) (input : chain.CellInput)
      (getter : Getter chain L chain.OutPoint (Cell chain)) (l : L) (c : Cell chain)
      → mocked_input inputs input ≡ some c
      → input_cell chain inputs input getter l ≡ (ok (some c), l)
  unfolding input_cell
  input_cell-mocked [] input getter l c e = absurd (cc e)
  input_cell-mocked (m ∷ inputs) input getter l c e =
      elim (Bool-cases (chain.same_input input m.input)) [
        | inl same ↦ rw same (ap (answer l) (rw same at e))
        | inr other ↦ rw other (input_cell-mocked inputs input getter l c (rw other at e))
      ]

  dep_cell-mocked :
      {L : Type 0} (cells : List (MockCellDep chain)) (out_point : chain.OutPoint)
      (getter : Getter chain L chain.OutPoint (Cell chain)) (l : L) (c : Cell chain)
      → mocked_dep cells out_point ≡ some c
      → dep_cell chain cells out_point getter l ≡ (ok (some c), l)
  unfolding dep_cell
  dep_cell-mocked [] out_point getter l c e = absurd (cc e)
  dep_cell-mocked (m ∷ cells) out_point getter l c e =
      elim (Bool-cases (chain.same_out_point out_point (chain.out_point m.cell_dep))) [
        | inl same ↦ rw same (ap (answer l) (rw same at e))
        | inr other ↦ rw other (dep_cell-mocked cells out_point getter l c (rw other at e))
      ]

  mock_header-mocked :
      {L : Type 0} (headers : List chain.HeaderView) (block_hash : chain.Byte32)
      (getter : Getter chain L chain.Byte32 chain.HeaderView) (l : L) (header : chain.HeaderView)
      → mocked_header headers block_hash ≡ some header
      → mock_header chain headers block_hash getter l ≡ (ok (some header), l)
  unfolding mock_header
  mock_header-mocked [] block_hash getter l header e = absurd (cc e)
  mock_header-mocked (h ∷ headers) block_hash getter l header e =
      elim (Bool-cases (chain.same_hash block_hash (chain.hash h))) [
        | inl same ↦ rw same (ap (answer l) (rw same at e))
        | inr other ↦
            rw other (mock_header-mocked headers block_hash getter l header (rw other at e))
      ]

  module _ (mock_tx : MockTransaction chain) where
    abbrev InputsMocked : List chain.CellInput → Type 0
    InputsMocked [] = Unit
    InputsMocked (input ∷ inputs) =
        ((c : Cell chain) × (mocked_input mock_tx.mock_info.inputs input ≡ some c))
        × InputsMocked inputs

    abbrev CellsMocked : List chain.OutPoint → Type 0
    CellsMocked [] = Unit
    CellsMocked (k ∷ ks) =
        ((c : Cell chain) × (mocked_dep mock_tx.mock_info.cell_deps k ≡ some c)) × CellsMocked ks

    abbrev GroupMocked : Bool → Bytes → Type 0
    GroupMocked false bytes = Unit
    GroupMocked true bytes =
        (subs : List chain.OutPoint) × (chain.out_points bytes ≡ some subs) × CellsMocked subs

    abbrev DepsMocked : List chain.CellDep → Type 0
    DepsMocked [] = Unit
    DepsMocked (dep ∷ deps) =
        ((c : Cell chain) × (mocked_dep mock_tx.mock_info.cell_deps (chain.out_point dep) ≡ some c)
          × GroupMocked (chain.is_dep_group dep) c.1)
        × DepsMocked deps

    abbrev HeadersMocked : List chain.Byte32 → Type 0
    HeadersMocked [] = Unit
    HeadersMocked (k ∷ ks) =
        ((h : chain.HeaderView) × (mocked_header mock_tx.mock_info.header_deps k ≡ some h))
        × HeadersMocked ks

    module _ {L : Type 0} (loader : Loader chain L) where
      load_inputs-Mocked :
          (inputs : List chain.CellInput) (cells : Cells chain) (l : L)
          → InputsMocked inputs
          → (cells' : Cells chain) × (load_inputs chain loader mock_tx inputs cells l
              ≡ (ok cells', l))
      unfolding load_inputs get_input_cell
      load_inputs-Mocked [] cells l h = (cells, refl)
      load_inputs-Mocked (input ∷ inputs) cells l ((c, mocked), h) =
          let previous = chain.previous_output input in
          let (cells', ran) =
            load_inputs-Mocked inputs ((previous, build_cell chain previous c) ∷ cells) l h in
          let got =
            input_cell-mocked mock_tx.mock_info.inputs input loader.loader_live_cell l c mocked in
          (cells', rw (got, load_inputs, get_input_cell) ran)

      load_group-Mocked :
          (subs : List chain.OutPoint) (cells : Cells chain) (l : L)
          → CellsMocked subs
          → (cells' : Cells chain) × (load_group chain loader mock_tx subs cells l ≡ (ok cells', l))
      unfolding load_group get_dep_cell
      load_group-Mocked [] cells l h = (cells, refl)
      load_group-Mocked (sub ∷ subs) cells l ((c, mocked), h) =
          let (cells', ran) = load_group-Mocked subs ((sub, build_cell chain sub c) ∷ cells) l h in
          let got =
            dep_cell-mocked mock_tx.mock_info.cell_deps sub loader.loader_live_cell l c mocked in
          (cells', rw (got, load_group, get_dep_cell) ran)

      open_group-Mocked :
          (b : Bool) (bytes : Bytes) (cells : Cells chain) (l : L)
          → GroupMocked b bytes
          → (cells' : Cells chain) × (open_group chain loader mock_tx b bytes cells l
              ≡ (ok cells', l))
      unfolding open_group
      open_group-Mocked false bytes cells l h = (cells, refl)
      open_group-Mocked true bytes cells l (subs, parsed, h) =
          let (cells', ran) = load_group-Mocked subs cells l h in
          (cells', rw (parsed, open_group) ran)

      load_deps-Mocked :
          (deps : List chain.CellDep) (cells : Cells chain) (l : L)
          → DepsMocked deps
          → (cells' : Cells chain) × (load_deps chain loader mock_tx deps cells l ≡ (ok cells', l))
      unfolding load_deps get_dep_cell
      load_deps-Mocked [] cells l h = (cells, refl)
      load_deps-Mocked (dep ∷ deps) cells l ((c, mocked, group), h) =
          let k = chain.out_point dep in
          let (cells1, opened) = open_group-Mocked (chain.is_dep_group dep) c.1 cells l group in
          let (cells', ran) = load_deps-Mocked deps ((k, build_cell chain k c) ∷ cells1) l h in
          let got =
            dep_cell-mocked mock_tx.mock_info.cell_deps k loader.loader_live_cell l c mocked in
          (cells', rw (got, opened, load_deps, get_dep_cell) ran)

      load_headers-Mocked :
          (hashes : List chain.Byte32) (headers : List (chain.Byte32 × chain.HeaderView)) (l : L)
          → HeadersMocked hashes
          → (headers' : List (chain.Byte32 × chain.HeaderView)) × (load_headers chain loader mock_tx
                hashes headers l
              ≡ (ok headers', l))
      unfolding load_headers get_header
      load_headers-Mocked [] headers l h = (headers, refl)
      load_headers-Mocked (k ∷ hashes) headers l ((header, mocked), h) =
          let (headers', ran) = load_headers-Mocked hashes ((k, header) ∷ headers) l h in
          let got =
            mock_header-mocked mock_tx.mock_info.header_deps k loader.loader_header l header
              mocked in
          (headers', rw (got, load_headers, get_header) ran)

      -- When all inputs, cell deps, members of dep groups and headers of a transaction are among
      -- its mocks, and the data of its dep groups are lists of out points, loading succeeds and
      -- leaves the loader as it is.
      pub from_loader-Mocked :
          (block_extensions : List (chain.Byte32 × Bytes)) (l : L)
          → InputsMocked mock_tx.tx.inputs
          → DepsMocked mock_tx.tx.cell_deps
          → HeadersMocked mock_tx.tx.header_deps
          → (r : Resource chain) × (from_loader_and_block_extensions chain loader mock_tx
                block_extensions l
              ≡ (ok r, l))
      unfolding from_loader_and_block_extensions
      from_loader-Mocked block_extensions l inputs deps headers =
          let (cells, ran1) = load_inputs-Mocked mock_tx.tx.inputs [] l inputs in
          let (cells', ran2) = load_deps-Mocked mock_tx.tx.cell_deps cells l deps in
          let (found, ran3) = load_headers-Mocked mock_tx.tx.header_deps [] l headers in
          (
            record {
              required_cells = cells';
              required_headers = found;
              block_extensions =
                  block_extensions ++ inserted chain loader mock_tx mock_tx.mock_info.extensions [];
            },
            rw (ran1, ran2, ran3, from_loader_and_block_extensions) refl,
          )
