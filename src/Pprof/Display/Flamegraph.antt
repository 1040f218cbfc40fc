-- ===== src/Pprof/Display/Flamegraph.antt =====
-- The cycles that the flame graph shows, against the cycles of the frames.
pub mod Linked
pub mod Run
use ckb_standalone_debugger.Prelude.{
  ℕ, zero, suc, ◌+◌, ◌-◌, ◌<◌, ◌≤◌, ◌≡◌, refl, ◌∙◌, ap, sym, Option, none, some, List, [], ◌∷◌,
  ◌++◌, Bytes, length, get_or, arith,
}
use ckb_standalone_debugger.Prelude.Format.{codes}
use ckb_standalone_debugger.Pprof.Trie.{TrieNode, Trie, root, borrow, total_cycles}
use ckb_standalone_debugger.Pprof.Tags.{Tags, Addr2line, TagCache, simple, make_tag}
use ckb_standalone_debugger.Pprof.Tags.Cache.{IsCached, get_tag-some}
use ckb_standalone_debugger.Pprof.Display.{Line, display_children, display_flamegraph_rec}

-- Sums over a list of children, over all nodes, and over the numbers below `n`.
abbrev pub sum_map : (ℕ → ℕ) → List ℕ → ℕ
sum_map g [] = 0
sum_map g (c ∷ cs) = g c + sum_map g cs

abbrev pub sum_nodes : (TrieNode → ℕ) → List TrieNode → ℕ
sum_nodes h [] = 0
sum_nodes h (n ∷ ns) = h n + sum_nodes h ns

abbrev pub sum_below : (ℕ → ℕ) → ℕ → ℕ
sum_below g zero = 0
sum_below g (suc n) = sum_below g n + g n

-- Children are younger than their frame, and there.
abbrev pub Within : ℕ → ℕ → List ℕ → Type 0
Within i n [] = Unit
Within i n (c ∷ cs) = (i < c) × (c < n) × Within i n cs

-- Every frame but the root is a child of exactly one frame, once: whatever is counted for the
-- frames, the children of all frames and the root make up all of them.
pub record IsLinked (nodes : List TrieNode) (trie_root : ℕ) : Type 0 where
  pub at_root : trie_root < length nodes
  pub younger : (i : ℕ) → i < length nodes → Within i (length nodes) (borrow nodes i).childs
  pub once :
      (g : ℕ → ℕ)
      → sum_nodes (λ n. sum_map g n.childs) nodes + g trie_root ≡ sum_below g (length nodes)

sum_below-suc : (g : ℕ → ℕ) (n : ℕ) → sum_below g (suc n) ≡ g 0 + sum_below (λ i. g (suc i)) n
sum_below-suc g zero = omega arith
sum_below-suc g (suc n) = omega (arith, sum_below-suc g n)

sum_nodes-borrow :
    (h : TrieNode → ℕ) (nodes : List TrieNode)
    → sum_nodes h nodes ≡ sum_below (λ i. h (borrow nodes i)) (length nodes)
sum_nodes-borrow h [] = refl
sum_nodes-borrow h (n ∷ ns) =
    omega (arith, sum_nodes-borrow h ns, sum_below-suc (λ i. h (borrow (n ∷ ns) i)) (length ns))

sum_below-ext :
    (f g : ℕ → ℕ) (n : ℕ) → ((i : ℕ) → i < n → f i ≡ g i) → sum_below f n ≡ sum_below g n
sum_below-ext f g zero same = refl
sum_below-ext f g (suc n) same =
    omega (arith, sum_below-ext f g n (λ i l. same i (omega arith)), same n (omega arith))

sum_below-plus :
    (f g : ℕ → ℕ) (n : ℕ) → sum_below (λ i. f i + g i) n ≡ sum_below f n + sum_below g n
sum_below-plus f g zero = omega arith
sum_below-plus f g (suc n) = omega (arith, sum_below-plus f g n)

sum_map-ext :
    (f g : ℕ → ℕ) (i n : ℕ) (cs : List ℕ)
    → Within i n cs
    → ((c : ℕ) → i < c → c < n → f c ≡ g c)
    → sum_map f cs ≡ sum_map g cs
sum_map-ext f g i n [] w same = refl
sum_map-ext f g i n (c ∷ cs) (after, there, w) same =
    omega (arith, same c after there, sum_map-ext f g i n cs w same)

total_cycles-sum_nodes :
    (nodes : List TrieNode) → total_cycles nodes ≡ sum_nodes (λ n. n.cycles) nodes
unfolding total_cycles
total_cycles-sum_nodes [] = refl
total_cycles-sum_nodes (n ∷ ns) = omega (arith, total_cycles-sum_nodes ns)

-- The cycles of a frame and of all the frames below it, as deep as the fuel goes.
abbrev subtree_cycles : ℕ → List TrieNode → ℕ → ℕ
subtree_cycles zero nodes i = 0
subtree_cycles (suc fuel) nodes i =
    (borrow nodes i).cycles + sum_map (subtree_cycles fuel nodes) (borrow nodes i).childs

module _ (t : Trie) (linked : IsLinked t.nodes t.trie_root) where
  subtree_cycles-fuel :
      (f g i : ℕ)
      → length t.nodes - i ≤ f
      → length t.nodes - i ≤ g
      → i < length t.nodes
      → subtree_cycles f t.nodes i ≡ subtree_cycles g t.nodes i
  subtree_cycles-fuel zero g i a b there = absurd (omega arith)
  subtree_cycles-fuel (suc f) zero i a b there = absurd (omega arith)
  subtree_cycles-fuel (suc f) (suc g) i a b there =
      ap (λ k. (borrow t.nodes i).cycles + k)
        (sum_map-ext (subtree_cycles f t.nodes) (subtree_cycles g t.nodes) i (length t.nodes)
          (borrow t.nodes i).childs (linked.younger i there)
          (λ c after below. subtree_cycles-fuel f g c (omega arith) (omega arith) below))

  -- All that hangs below the root is all there is.
  subtree_cycles-root : subtree_cycles (length t.nodes) t.nodes t.trie_root ≡ total_cycles t.nodes
  subtree_cycles-root =
      let n = length t.nodes in
      let s = subtree_cycles n t.nodes in
      let step : (i : ℕ)
          → i < n
          → s i ≡ (borrow t.nodes i).cycles + sum_map s (borrow t.nodes i).childs =
        λ i there. subtree_cycles-fuel n (suc n) i (omega arith) (omega arith) there in
      omega (
        arith,
        sum_below-ext s (λ i. (borrow t.nodes i).cycles + sum_map s (borrow t.nodes i).childs) n
            step,
        sum_below-plus (λ i. (borrow t.nodes i).cycles) (λ i. sum_map s (borrow t.nodes i).childs)
            n,
        sum_nodes-borrow (λ m. m.cycles) t.nodes,
        sum_nodes-borrow (λ m. sum_map s m.childs) t.nodes,
        total_cycles-sum_nodes t.nodes,
        linked.once s,
      )

-- The cycles on the lines of a flame graph.
abbrev pub line_cycles : List Line → ℕ
line_cycles [] = 0
line_cycles (l ∷ ls) = l.cycles + line_cycles ls

line_cycles-append : (xs ys : List Line) → line_cycles (xs ++ ys) ≡ line_cycles xs + line_cycles ys
line_cycles-append [] ys = omega arith
line_cycles-append (x ∷ xs) ys = omega (arith, line_cycles-append xs ys)

-- A display that ends with lines of so many cycles, and a good cache.
abbrev Shows : Addr2line → Option (List Line × TagCache) → ℕ → Type 0
Shows addrctx r k =
    (lines : List Line) × (cache : TagCache) × (r ≡ some (lines, cache))
    × (line_cycles lines ≡ k)
    × IsCached addrctx cache

display_children-Shows :
    (addrctx : Addr2line) (show : ℕ → TagCache → Option (List Line × TagCache)) (h : ℕ → ℕ)
    (i n : ℕ) (cs : List ℕ) (cache : TagCache)
    → IsCached addrctx cache
    → Within i n cs
    → ((c : ℕ)
        → i < c
        → c < n
        → (cache' : TagCache) → IsCached addrctx cache'
        → Shows addrctx (show c cache') (h c))
    → Shows addrctx (display_children show cs cache) (sum_map h cs)
unfolding display_children
display_children-Shows addrctx show h i n [] cache good w each = ([], cache, refl, refl, good)
display_children-Shows addrctx show h i n (c ∷ cs) cache good (after, there, w) each =
    let (lines, cache', shown, same, good') = each c after there cache good in
    let (rest, cache'', all, more, last) =
      display_children-Shows addrctx show h i n cs cache' good' w each in
    (
      lines ++ rest,
      cache'',
      rw (shown, display_children, all) refl,
      omega (arith, line_cycles-append lines rest, same, more),
      last,
    )

-- The tags of the functions of all frames can be made, without a panic.
abbrev pub AllTagged : Addr2line → Trie → Type 0
AllTagged addrctx t =
    (i : ℕ)
    → i < length t.nodes
    → (tag : Tags) × (make_tag addrctx (borrow t.nodes i).addr ≡ some tag)

module _ (addrctx : Addr2line) (t : Trie) (linked : IsLinked t.nodes t.trie_root)
    (tagged : AllTagged addrctx t) where
  display_flamegraph_rec-Shows :
      (fuel : ℕ) (prefix : Bytes) (i : ℕ) (cache : TagCache)
      → length t.nodes - i ≤ fuel
      → i < length t.nodes
      → IsCached addrctx cache
      → Shows addrctx
          (display_flamegraph_rec addrctx fuel t.nodes prefix i cache)
          (subtree_cycles fuel t.nodes i)
  unfolding display_flamegraph_rec
  display_flamegraph_rec-Shows zero prefix i cache deep there good = absurd (omega arith)
  display_flamegraph_rec-Shows (suc fuel) prefix i cache deep there good =
      let n = borrow t.nodes i in
      let (tag, made) = tagged i there in
      let (first, got, good') = get_tag-some addrctx n.addr cache good made in
      let name = prefix ++ simple tag in
      let (lines, cache', below, same, last) =
        display_children-Shows addrctx
          (display_flamegraph_rec addrctx fuel t.nodes (name ++ codes "; "))
          (subtree_cycles fuel t.nodes) i (length t.nodes) n.childs first good'
          (linked.younger i there)
          (λ c after under cache'' good''.
            display_flamegraph_rec-Shows fuel (name ++ codes "; ") c cache'' (omega arith) under
              good'') in
      (
        record { prefix_name = name; cycles = n.cycles } ∷ lines,
        cache',
        rw (got, display_flamegraph_rec, below) refl,
        ap (λ k. n.cycles + k) same,
        last,
      )

  -- On a well-linked tree whose functions can all be named, and from a good cache, the flame graph
  -- ends, at the depth that `display_flamegraph` allows, and the cycles on its lines add up to the
  -- cycles of all the frames: each frame is shown once.
  pub display_flamegraph_rec-total :
      (prefix : Bytes) (cache : TagCache)
      → IsCached addrctx cache
      → (lines : List Line) × (cache' : TagCache) × (display_flamegraph_rec addrctx
            (length t.nodes)
            t.nodes
            prefix
            t.trie_root
            cache
          ≡ some (lines, cache'))
        × (line_cycles lines ≡ total_cycles t.nodes)
  display_flamegraph_rec-total prefix cache good =
      let (lines, cache', shown, same, last) =
        display_flamegraph_rec-Shows (length t.nodes) prefix t.trie_root cache (omega arith)
          linked.at_root good in
      (lines, cache', shown, same ∙ subtree_cycles-root t linked)
