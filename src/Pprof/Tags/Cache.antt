-- ===== src/Pprof/Tags/Cache.antt =====
-- The cache of names is not seen from outside.
use ckb_standalone_debugger.Prelude.{
  ℕ, ◌==◌, ◌≡◌, refl, ◌∙◌, sym, subst, Option, none, some, [], ◌∷◌, Bool-cases, Option-cases, inl,
  inr, ==_iff, some-injective,
}
use ckb_standalone_debugger.Pprof.Tags.{Tags, Addr2line, TagCache, get, make_tag, get_tag}

module _ (addrctx : Addr2line) where
  -- Every tag of the cache is the one that is made for its address.
  pub IsCached : TagCache → Type 0
  IsCached cache = (addr : ℕ) (t : Tags) → get cache addr ≡ some t → make_tag addrctx addr ≡ some t

  pub empty-IsCached : IsCached []
  unfolding IsCached get
  empty-IsCached addr t e = cc

  cons-IsCached :
      (a : ℕ) (made : Tags) (cache : TagCache)
      → make_tag addrctx a ≡ some made
      → IsCached cache
      → IsCached ((a, made) ∷ cache)
  unfolding IsCached get
  cons-IsCached a made cache m c addr t e = elim (Bool-cases (a == addr)) [
    | inl same ↦
        subst (λ k. make_tag addrctx k ≡ some t) ((==_iff a addr).0 same)
          (m ∙ (rw (same, get) at e))
    | inr other ↦ c addr t (rw (other, get) at e)
  ]

  -- A lookup answers with the tag that is made for the address, and leaves such a cache; or it
  -- panics, where making the tag panics.
  abbrev pub Agrees : Option (Tags × TagCache) → Option Tags → Type 0
  Agrees none made = made ≡ none
  Agrees (some (t, cache)) made = (made ≡ some t) × IsCached cache

  -- On such a cache, a lookup gives the tag that is made for the address without the cache, and
  -- leaves such a cache, or it panics, and then making the tag without the cache panics too.
  pub get_tag-make_tag :
      (addr : ℕ) (cache : TagCache)
      → IsCached cache
      → Agrees (get_tag addrctx addr cache) (make_tag addrctx addr)
  unfolding get_tag IsCached
  get_tag-make_tag addr cache c = elim (Option-cases (get cache addr)) [
    | inr (t, found) ↦ rw (found, get_tag) (c addr t found, c)
    | inl missing ↦ elim (Option-cases (make_tag addrctx addr)) [
      | inl bad ↦ rw (missing, get_tag, bad) refl
      | inr (t, made) ↦ rw (missing, get_tag, made) (refl, cons-IsCached addr t cache made c)
    ]
  ]

  -- Where the tag can be made, the lookup gives it.
  pub get_tag-some :
      (addr : ℕ) (cache : TagCache) {t : Tags}
      → IsCached cache
      → make_tag addrctx addr ≡ some t
      → (cache' : TagCache) × (get_tag addrctx addr cache ≡ some (t, cache')) × IsCached cache'
  get_tag-some addr cache {t} c made = elim (Option-cases (get_tag addrctx addr cache)) [
    | inl bad ↦ absurd (cc (rw bad at (get_tag-make_tag addr cache c)))
    | inr ((t', cache'), got) ↦
        let (same, c') = rw got at (get_tag-make_tag addr cache c) in
        (cache', rw (some-injective _ _ (sym made ∙ same)) got, c')
  ]
