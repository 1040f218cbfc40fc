-- ===== src/Mock/Resource/Complete.antt =====
-- What a resource that was loaded has.
use ckb_standalone_debugger.Prelude.{
  ◌≡◌, refl, ap, subst, Bool, true, false, Option, none, some, List, [], ◌∷◌, ◌++◌, Bytes, ok, err,
  panic, Bool-cases, inl, inr, ok-injective, Option-cases,
}
use ckb_standalone_debugger.Mock.{
  Chain, MockTransaction, LoadError, no_input, no_dep, no_group_cell, no_header, Cell, Loaded,
  get_input_cell, get_dep_cell, get_header,
}
use ckb_standalone_debugger.Mock.Resource.{
  CellMeta, Resource, Loader, find_entry, build_cell, required, loaded_then, Cells, load_inputs,
  load_group, open_group, load_deps, load_headers, inserted, from_loader_and_block_extensions,
  check_valid,
}

-- Equality tests say that a key is the same as itself.
pub record ChainLaws (chain : Chain) : Type 0 where
  pub same_out_point_refl : (k : chain.OutPoint) → chain.same_out_point k k ≡ true
  pub same_hash_refl : (k : chain.Byte32) → chain.same_hash k k ≡ true

module _ (chain : Chain) where
  required-ok :
      {A B L : Type 0} (e : LoadError chain) (r : Loaded chain (Option A) × L)
      (f : A → L → Loaded chain B × L) (b : B) (l : L)
      → required chain e r f ≡ (ok b, l)
      → (a : A) × (l' : L) × (f a l' ≡ (ok b, l)) × (r ≡ (ok (some a), l'))
  required-ok e (ok (some a), l') f b l h = (a, l', h, refl)
  required-ok e (ok none, l') f b l h = absurd (cc (ap (λ r. r.0) h))
  required-ok e (err x, l') f b l h = absurd (cc (ap (λ r. r.0) h))
  required-ok e (panic, l') f b l h = absurd (cc (ap (λ r. r.0) h))

  loaded_then-ok :
      {A B L : Type 0} (r : Loaded chain A × L) (f : A → L → Loaded chain B × L) (b : B) (l : L)
      → loaded_then chain r f ≡ (ok b, l)
      → (a : A) × (l' : L) × (f a l' ≡ (ok b, l)) × (r ≡ (ok a, l'))
  loaded_then-ok (ok a, l') f b l h = (a, l', h, refl)
  loaded_then-ok (err x, l') f b l h = absurd (cc (ap (λ r. r.0) h))
  loaded_then-ok (panic, l') f b l h = absurd (cc (ap (λ r. r.0) h))

  module _ {K A : Type 0} (same : K → K → Bool) (same_refl : (k : K) → same k k ≡ true) where
    abbrev Live : List (K × A) → K → Type 0
    Live entries k = (a : A) × (find_entry chain same entries k ≡ some a)

    abbrev AllLive : List (K × A) → List K → Type 0
    AllLive entries [] = Unit
    AllLive entries (k ∷ ks) = Live entries k × AllLive entries ks

    -- Nothing that was there is lost.
    abbrev Grows : List (K × A) → List (K × A) → Type 0
    Grows entries entries' = (k : K) → Live entries k → Live entries' k

    Live-here : (entries : List (K × A)) (k : K) (a : A) → Live ((k, a) ∷ entries) k
    unfolding find_entry
    Live-here entries k a = (a, rw (same_refl k) refl)

    Grows-cons : (entries : List (K × A)) (k : K) (a : A) → Grows entries ((k, a) ∷ entries)
    unfolding find_entry
    Grows-cons entries k a j (b, e) = elim (Bool-cases (same j k)) [
      | inl yes_same ↦ (a, rw yes_same refl)
      | inr other ↦ (b, rw other e)
    ]

  module _ (laws : ChainLaws chain) {L : Type 0} (loader : Loader chain L)
      (mock_tx : MockTransaction chain) where
    abbrev LiveCell : Cells chain → chain.OutPoint → Type 0
    LiveCell = Live chain.same_out_point laws.same_out_point_refl

    abbrev GrowsCells : Cells chain → Cells chain → Type 0
    GrowsCells = Grows chain.same_out_point laws.same_out_point_refl

    abbrev pub InputsLive : Cells chain → List chain.CellInput → Type 0
    InputsLive cells [] = Unit
    InputsLive cells (input ∷ inputs) =
        LiveCell cells (chain.previous_output input) × InputsLive cells inputs

    stays :
        {A B : Type 0} (a b : A) (l l' : B)
        → ◌≡◌ {A = Loaded chain A × B} (ok a, l) (ok b, l')
        → a ≡ b
    stays a b l l' h = ok-injective (ap (λ r. r.0) h)

    Grows-same : (cells cells' : Cells chain) → cells ≡ cells' → GrowsCells cells cells'
    Grows-same cells cells' e = subst (GrowsCells cells) e (λ k live. live)

    -- A cell that goes in before the rest is loaded.
    Grows-inserted :
        (cells cells' : Cells chain) (k : chain.OutPoint) (m : CellMeta chain)
        → GrowsCells ((k, m) ∷ cells) cells'
        → LiveCell cells' k × GrowsCells cells cells'
    Grows-inserted cells cells' k m grows = (
      grows k (Live-here chain.same_out_point laws.same_out_point_refl cells k m),
      λ j live. grows j (Grows-cons chain.same_out_point laws.same_out_point_refl cells k m j live),
    )

    load_inputs-Live :
        (inputs : List chain.CellInput) (cells cells' : Cells chain) (l l' : L)
        → load_inputs chain loader mock_tx inputs cells l ≡ (ok cells', l')
        → InputsLive cells' inputs × GrowsCells cells cells'
    unfolding load_inputs
    load_inputs-Live [] cells cells' l l' h =
        (tt, Grows-same cells cells' (stays cells cells' l l' h))
    load_inputs-Live (input ∷ inputs) cells cells' l l' h =
        let previous = chain.previous_output input in
        let (a, l1, next, got) =
          required-ok (no_input input)
            (get_input_cell chain mock_tx input loader.loader_live_cell l)
            (λ c l1.
              load_inputs chain loader mock_tx inputs
                ((previous, build_cell chain previous c) ∷ cells) l1)
            cells' l' h in
        let m = build_cell chain previous a in
        let (rest, grows) = load_inputs-Live inputs ((previous, m) ∷ cells) cells' l1 l' next in
        let (live, grows') = Grows-inserted cells cells' previous m grows in ((live, rest), grows')

    load_group-Live :
        (subs : List chain.OutPoint) (cells cells' : Cells chain) (l l' : L)
        → load_group chain loader mock_tx subs cells l ≡ (ok cells', l')
        → AllLive chain.same_out_point laws.same_out_point_refl cells' subs
          × GrowsCells cells cells'
    unfolding load_group
    load_group-Live [] cells cells' l l' h =
        (tt, Grows-same cells cells' (stays cells cells' l l' h))
    load_group-Live (sub ∷ subs) cells cells' l l' h =
        let (a, l1, next, got) =
          required-ok (no_group_cell sub) (get_dep_cell chain mock_tx sub loader.loader_live_cell l)
            (λ c l1.
              load_group chain loader mock_tx subs ((sub, build_cell chain sub c) ∷ cells) l1)
            cells' l' h in
        let m = build_cell chain sub a in
        let (rest, grows) = load_group-Live subs ((sub, m) ∷ cells) cells' l1 l' next in
        let (live, grows') = Grows-inserted cells cells' sub m grows in ((live, rest), grows')

    -- This is the cell that `get_dep_cell` gave for the out point, in a state of the loader.
    abbrev pub Got : chain.OutPoint → Cell chain → Type 0
    Got out_point c =
        (l1 : L) × (l2 : L) × (get_dep_cell chain mock_tx out_point loader.loader_live_cell l1
          ≡ (ok (some c), l2))

    -- The data of the cell of a dep group is a list of out points, all of them live.
    abbrev GroupLive : Cells chain → chain.OutPoint → Bool → Type 0
    GroupLive cells out_point false = Unit
    GroupLive cells out_point true =
        (c : Cell chain) × Got out_point c
        × (subs : List chain.OutPoint) × (chain.out_points c.1 ≡ some subs)
        × AllLive chain.same_out_point laws.same_out_point_refl cells subs

    AllLive-Grows :
        (ks : List chain.OutPoint) (cells cells' : Cells chain)
        → GrowsCells cells cells'
        → AllLive chain.same_out_point laws.same_out_point_refl cells ks
        → AllLive chain.same_out_point laws.same_out_point_refl cells' ks
    AllLive-Grows [] cells cells' grows h = tt
    AllLive-Grows (k ∷ ks) cells cells' grows (live, rest) =
        (grows k live, AllLive-Grows ks cells cells' grows rest)

    GroupLive-Grows :
        (out_point : chain.OutPoint) (b : Bool) (cells cells' : Cells chain)
        → GrowsCells cells cells'
        → GroupLive cells out_point b
        → GroupLive cells' out_point b
    GroupLive-Grows out_point false cells cells' grows h = tt
    GroupLive-Grows out_point true cells cells' grows (c, got, subs, parsed, live) =
        (c, got, subs, parsed, AllLive-Grows subs cells cells' grows live)

    open_group-Live :
        (out_point : chain.OutPoint) (c : Cell chain) (b : Bool) (cells cells' : Cells chain)
        (l l' : L)
        → Got out_point c
        → open_group chain loader mock_tx b c.1 cells l ≡ (ok cells', l')
        → GroupLive cells' out_point b × GrowsCells cells cells'
    unfolding open_group
    open_group-Live out_point c false cells cells' l l' got h =
        (tt, Grows-same cells cells' (stays cells cells' l l' h))
    open_group-Live out_point c true cells cells' l l' got h =
        elim (Option-cases (chain.out_points c.1)) [
          | inl bad ↦ absurd (cc (ap (λ r. r.0) (rw (bad, open_group) at h)))
          | inr (subs, parsed) ↦
              let (live, grows) =
                load_group-Live subs cells cells' l l' (rw (parsed, open_group) at h) in
              ((c, got, subs, parsed, live), grows)
        ]

    abbrev pub DepsLive : Cells chain → List chain.CellDep → Type 0
    DepsLive cells [] = Unit
    DepsLive cells (dep ∷ deps) =
        LiveCell cells (chain.out_point dep)
        × GroupLive cells (chain.out_point dep) (chain.is_dep_group dep)
        × DepsLive cells deps

    load_deps-Live :
        (deps : List chain.CellDep) (cells cells' : Cells chain) (l l' : L)
        → load_deps chain loader mock_tx deps cells l ≡ (ok cells', l')
        → DepsLive cells' deps × GrowsCells cells cells'
    unfolding load_deps
    load_deps-Live [] cells cells' l l' h =
        (tt, Grows-same cells cells' (stays cells cells' l l' h))
    load_deps-Live (dep ∷ deps) cells cells' l l' h =
        let out_point = chain.out_point dep in
        let group = chain.is_dep_group dep in
        let insert : Cell chain → Cells chain → L → Loaded chain (Cells chain) × L = λ c cells1 l2.
          load_deps chain loader mock_tx deps ((out_point, build_cell chain out_point c) ∷ cells1)
            l2 in
        let (c, l1, next, got) =
          required-ok (no_dep dep) (get_dep_cell chain mock_tx out_point loader.loader_live_cell l)
            (λ c l1.
              loaded_then chain (open_group chain loader mock_tx group c.1 cells l1) (insert c))
            cells' l' h in
        let (cells1, l2, inserted, opened) =
          loaded_then-ok (open_group chain loader mock_tx group c.1 cells l1) (insert c) cells' l'
            next in
        let (members, grows1) =
          open_group-Live out_point c group cells cells1 l1 l2 (l, l1, got) opened in
        let m = build_cell chain out_point c in
        let (rest, grows2) = load_deps-Live deps ((out_point, m) ∷ cells1) cells' l2 l' inserted in
        let (live, grows3) = Grows-inserted cells1 cells' out_point m grows2 in
        (
          (live, GroupLive-Grows out_point group cells1 cells' grows3 members, rest),
          λ k before. grows3 k (grows1 k before),
        )

    load_headers-Live :
        (hashes : List chain.Byte32) (headers headers' : List (chain.Byte32 × chain.HeaderView))
        (l l' : L)
        → load_headers chain loader mock_tx hashes headers l ≡ (ok headers', l')
        → AllLive chain.same_hash laws.same_hash_refl headers' hashes
          × Grows chain.same_hash laws.same_hash_refl headers headers'
    unfolding load_headers
    load_headers-Live [] headers headers' l l' h = (
      tt,
      subst (Grows chain.same_hash laws.same_hash_refl headers) (stays headers headers' l l' h)
          (λ k live. live),
    )
    load_headers-Live (block_hash ∷ hashes) headers headers' l l' h =
        let (header, l1, next, got) =
          required-ok (no_header block_hash)
            (get_header chain mock_tx block_hash loader.loader_header l)
            (λ header l1.
              load_headers chain loader mock_tx hashes ((block_hash, header) ∷ headers) l1)
            headers' l' h in
        let (rest, grows) =
          load_headers-Live hashes ((block_hash, header) ∷ headers) headers' l1 l' next in
        (
          (
            grows block_hash
                (Live-here chain.same_hash laws.same_hash_refl headers block_hash header),
            rest,
          ),
          λ k live.
              grows k
                (Grows-cons chain.same_hash laws.same_hash_refl headers block_hash header k live),
        )

    InputsLive-Grows :
        (inputs : List chain.CellInput) (cells cells' : Cells chain)
        → GrowsCells cells cells'
        → InputsLive cells inputs
        → InputsLive cells' inputs
    InputsLive-Grows [] cells cells' grows h = tt
    InputsLive-Grows (input ∷ inputs) cells cells' grows (live, rest) =
        (grows (chain.previous_output input) live, InputsLive-Grows inputs cells cells' grows rest)

    -- All headers are valid.
    abbrev pub AllValid : Resource chain → List chain.Byte32 → Type 0
    AllValid r [] = Unit
    AllValid r (k ∷ ks) = (check_valid chain r k ≡ true) × AllValid r ks

    AllLive-AllValid :
        (r : Resource chain) (ks : List chain.Byte32)
        → AllLive chain.same_hash laws.same_hash_refl r.required_headers ks
        → AllValid r ks
    unfolding check_valid
    AllLive-AllValid r [] h = tt
    AllLive-AllValid r (k ∷ ks) ((header, found), rest) =
        (rw (found, check_valid) refl, AllLive-AllValid r ks rest)

    -- With tests of equality that are reflexive, when a resource was loaded, the cell of every
    -- input and of every cell dep is live in it, the data of the cell that was found for a dep
    -- group is a list of out points, whose cells are live too, and every header dep is valid.
    pub from_loader-Complete :
        (block_extensions : List (chain.Byte32 × Bytes)) (l l' : L) (r : Resource chain)
        → from_loader_and_block_extensions chain loader mock_tx block_extensions l ≡ (ok r, l')
        → InputsLive r.required_cells mock_tx.tx.inputs
          × DepsLive r.required_cells mock_tx.tx.cell_deps
          × AllValid r mock_tx.tx.header_deps
    unfolding from_loader_and_block_extensions
    from_loader-Complete block_extensions l l' r h =
        let extensions =
          block_extensions ++ inserted chain loader mock_tx mock_tx.mock_info.extensions [] in
        let made : Cells chain → List (chain.Byte32 × chain.HeaderView) → Resource chain =
          λ cells headers. record {
            required_cells = cells;
            required_headers = headers;
            block_extensions = extensions;
          } in
        let with_cells : Cells chain → L → Loaded chain (Resource chain) × L = λ cells l2.
          loaded_then chain (load_headers chain loader mock_tx mock_tx.tx.header_deps [] l2)
            (λ headers l3. (ok (made cells headers), l3)) in
        let (inputs, l1, next1, loaded1) =
          loaded_then-ok (load_inputs chain loader mock_tx mock_tx.tx.inputs [] l)
            (λ inputs l1.
              loaded_then chain (load_deps chain loader mock_tx mock_tx.tx.cell_deps inputs l1)
                with_cells)
            r l' h in
        let (cells, l2, next2, loaded2) =
          loaded_then-ok (load_deps chain loader mock_tx mock_tx.tx.cell_deps inputs l1) with_cells
            r l' next1 in
        let (headers, l3, next3, loaded3) =
          loaded_then-ok (load_headers chain loader mock_tx mock_tx.tx.header_deps [] l2)
            (λ headers l3. (ok (made cells headers), l3)) r l' next2 in
        let (inputs_live, grows1) = load_inputs-Live mock_tx.tx.inputs [] inputs l l1 loaded1 in
        let (deps_live, grows2) = load_deps-Live mock_tx.tx.cell_deps inputs cells l1 l2 loaded2 in
        let (headers_live, grows3) =
          load_headers-Live mock_tx.tx.header_deps [] headers l2 l3 loaded3 in
        subst
          (λ r.
            InputsLive r.required_cells mock_tx.tx.inputs
            × DepsLive r.required_cells mock_tx.tx.cell_deps
            × AllValid r mock_tx.tx.header_deps)
          (stays (made cells headers) r l3 l' next3)
          (
            InputsLive-Grows mock_tx.tx.inputs inputs cells grows2 inputs_live,
            deps_live,
            AllLive-AllValid (made cells headers) mock_tx.tx.header_deps headers_live,
          )
