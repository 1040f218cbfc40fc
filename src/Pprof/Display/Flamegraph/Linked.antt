-- ===== src/Pprof/Display/Flamegraph/Linked.antt =====
-- The operations on the tree keep it well linked.
use ckb_standalone_debugger.Prelude.{
  ℕ, zero, suc, ◌+◌, ◌<◌, ◌≤◌, ◌≡◌, refl, ap, sym, subst, Option, none, some, List, [], ◌∷◌, ◌++◌,
  length, modify, length-modify, get_or-append_left, get_or-append_at, get_or-modify_self,
  get_or-modify_ne, dec_lt, ℕ_discrete, arith, Option-cases, inl, inr, ok, ok-injective,
}
use ckb_standalone_debugger.Pprof.Trie.{
  Registers, TrieNode, Trie, root, borrow, charge, new_frame, push_child, call, sbrk_or_skip,
  save_regs, quit, quit_or_skip, IsValid,
}
use ckb_standalone_debugger.Pprof.Trie.Valid.{modify-field, length-call, sbrk_or_skip-nodes}
use ckb_standalone_debugger.Pprof.Symbols.{Elf, new, new_trie}
use ckb_standalone_debugger.Pprof.Display.Flamegraph.{
  IsLinked, Within, sum_map, sum_nodes, sum_below,
}

sum_nodes-append :
    (h : TrieNode → ℕ) (xs ys : List TrieNode)
    → sum_nodes h (xs ++ ys) ≡ sum_nodes h xs + sum_nodes h ys
sum_nodes-append h [] ys = omega arith
sum_nodes-append h (x ∷ xs) ys = omega (arith, sum_nodes-append h xs ys)

-- A change of one node that adds `k` to what is counted.
sum_nodes-modify :
    (h : TrieNode → ℕ) (xs : List TrieNode) (i k : ℕ) (f : TrieNode → TrieNode)
    → ((n : TrieNode) → h (f n) ≡ h n + k)
    → i < length xs
    → sum_nodes h (modify xs i f) ≡ sum_nodes h xs + k
sum_nodes-modify h [] i k f adds there = absurd (omega arith)
sum_nodes-modify h (x ∷ xs) zero k f adds there = omega (arith, adds x)
sum_nodes-modify h (x ∷ xs) (suc i) k f adds there =
    omega (arith, sum_nodes-modify h xs i k f adds (omega arith))

sum_map-append : (g : ℕ → ℕ) (cs : List ℕ) (c : ℕ) → sum_map g (cs ++ c ∷ []) ≡ sum_map g cs + g c
sum_map-append g [] c = omega arith
sum_map-append g (x ∷ cs) c = omega (arith, sum_map-append g cs c)

Within-grows : (i n m : ℕ) (cs : List ℕ) → n ≤ m → Within i n cs → Within i m cs
Within-grows i n m [] more w = tt
Within-grows i n m (c ∷ cs) more (after, there, w) =
    (after, omega arith, Within-grows i n m cs more w)

Within-append :
    (i n : ℕ) (cs : List ℕ) (c : ℕ) → Within i n cs → i < c → c < n → Within i n (cs ++ c ∷ [])
Within-append i n [] c w after there = (after, there, tt)
Within-append i n (x ∷ cs) c (a, b, w) after there = (a, b, Within-append i n cs c w after there)

-- A change of the current node that keeps its children.
modify-IsLinked :
    (nodes : List TrieNode) (r i : ℕ) (f : TrieNode → TrieNode)
    → ((n : TrieNode) → (f n).childs ≡ n.childs)
    → i < length nodes
    → IsLinked nodes r
    → IsLinked (modify nodes i f) r
modify-IsLinked nodes r i f keep current l =
    let same = length-modify {0} nodes i f in
    record {
      at_root = omega (arith, l.at_root, same);
      younger = λ j h.
          subst (λ n. Within j n (borrow (modify nodes i f) j).childs) (sym same)
            (subst (Within j (length nodes)) (sym (modify-field (λ n. n.childs) nodes i j f keep))
              (l.younger j (omega arith)));
      once = λ g.
          let counted =
            sum_nodes-modify (λ n. sum_map g n.childs) nodes i 0 f
              (λ n. let e = ap (sum_map g) (keep n) in omega arith) current in
          omega (arith, counted, l.once g, ap (sum_below g) same);
    }

pub charge-IsLinked :
    (cycles pc : ℕ) (t : Trie)
    → IsValid t
    → IsLinked t.nodes t.trie_root
    → IsLinked (charge cycles pc t).nodes (charge cycles pc t).trie_root
unfolding charge
charge-IsLinked cycles pc t v l =
    modify-IsLinked t.nodes t.trie_root t.trie_node _ (λ n. refl) v.current l

module _ (addr link pc : ℕ) (regs : Registers) (t : Trie) (v : IsValid t)
    (l : IsLinked t.nodes t.trie_root) where
  length-pushed : length (modify t.nodes t.trie_node (push_child (length t.nodes))) ≡ length t.nodes
  length-pushed = length-modify t.nodes t.trie_node _

  call-younger :
      (i : ℕ)
      → i < suc (length t.nodes)
      → Within i (suc (length t.nodes)) (borrow (call addr link pc regs t).nodes i).childs
  unfolding call
  call-younger i h = elim (dec_lt i (length t.nodes)) [
    | no last ↦
        subst (λ (n : TrieNode). Within i (suc (length t.nodes)) n.childs)
          (sym (
            get_or-append_at (modify t.nodes t.trie_node (push_child (length t.nodes)))
              (new_frame addr link pc regs t.trie_node) root i (omega (arith, length-pushed))))
          tt
    | yes there ↦
        let grown =
          Within-grows i (length t.nodes) (suc (length t.nodes)) _ (omega arith)
            (l.younger i there) in
        subst (λ (n : TrieNode). Within i (suc (length t.nodes)) n.childs)
          (sym (
            get_or-append_left (modify t.nodes t.trie_node (push_child (length t.nodes))) _ i root
              (omega (arith, length-pushed))))
          (elim (ℕ_discrete t.trie_node i) [
            | yes here ↦
                subst
                  (λ j.
                    Within i (suc (length t.nodes))
                      (borrow (modify t.nodes t.trie_node (push_child (length t.nodes))) j).childs)
                  here
                  (subst (λ (n : TrieNode). Within i (suc (length t.nodes)) n.childs)
                    (sym (
                      get_or-modify_self t.nodes t.trie_node (push_child (length t.nodes)) root
                        v.current))
                    (Within-append i (suc (length t.nodes)) (borrow t.nodes t.trie_node).childs
                      (length t.nodes)
                      (subst (λ j. Within i (suc (length t.nodes)) (borrow t.nodes j).childs)
                        (sym here) grown)
                      there (omega arith)))
            | no other ↦
                subst (λ (n : TrieNode). Within i (suc (length t.nodes)) n.childs)
                  (sym (
                    get_or-modify_ne t.nodes t.trie_node i (push_child (length t.nodes)) root
                      other))
                  grown
          ])
  ]

  pub call-IsLinked : IsLinked (call addr link pc regs t).nodes (call addr link pc regs t).trie_root
  unfolding call
  call-IsLinked =
      let longer = length-call addr link pc regs t in
      record {
        at_root = omega (arith, l.at_root, longer);
        younger = λ i h.
            subst (λ n. Within i n (borrow (call addr link pc regs t).nodes i).childs) (sym longer)
              (call-younger i (omega arith));
        once = λ g.
            let h : TrieNode → ℕ = λ n. sum_map g n.childs in
            let pushed = modify t.nodes t.trie_node (push_child (length t.nodes)) in
            omega (
              arith,
              sum_nodes-append h pushed (new_frame addr link pc regs t.trie_node ∷ []),
              sum_nodes-modify h t.nodes t.trie_node (g (length t.nodes))
                  (push_child (length t.nodes)) (λ n. sum_map-append g n.childs (length t.nodes))
                  v.current,
              l.once g,
              ap (sum_below g) longer,
            );
      }

sbrk_or_skip-root : (t : Trie) → (sbrk_or_skip t).trie_root ≡ t.trie_root
unfolding sbrk_or_skip
sbrk_or_skip-root t = ground arith

save_regs-IsLinked :
    (regs : Registers) (t : Trie)
    → IsValid t
    → IsLinked t.nodes t.trie_root
    → IsLinked (save_regs regs t).nodes (save_regs regs t).trie_root
unfolding save_regs
save_regs-IsLinked regs t v l =
    rw
      (
        (sbrk_or_skip-nodes (record t {
          nodes = modify t.nodes t.trie_node (λ n. record n { exit_regs = regs });
        })).0,
        sbrk_or_skip-root,
      )
      (modify-IsLinked t.nodes t.trie_root t.trie_node _ (λ n. refl) v.current l)

quit-IsLinked :
    (regs : Registers) (f : Option ℕ) (t : Trie) {u : Trie}
    → IsValid t
    → IsLinked t.nodes t.trie_root
    → quit regs f t ≡ ok u
    → IsLinked u.nodes u.trie_root
unfolding quit
quit-IsLinked regs none t v l e =
    subst (λ (x : Trie). IsLinked x.nodes x.trie_root) (ok-injective e) l
quit-IsLinked regs (some f) t v l e =
    elim (Option-cases (borrow (save_regs regs t).nodes f).parent) [
      | inl top ↦ absurd (cc (rw (top, quit) at e))
      | inr (p, up) ↦
          subst (λ (x : Trie). IsLinked x.nodes x.trie_root) (ok-injective (rw (up, quit) at e))
            (save_regs-IsLinked regs t v l)
    ]

pub quit_or_skip-IsLinked :
    (addr : ℕ) (regs : Registers) (t : Trie) {u : Trie}
    → IsValid t
    → IsLinked t.nodes t.trie_root
    → quit_or_skip addr regs t ≡ ok u
    → IsLinked u.nodes u.trie_root
unfolding quit_or_skip
quit_or_skip-IsLinked addr regs t v l e = quit-IsLinked regs _ t v l e

pub new-IsLinked : (elf : Elf) → IsLinked (new elf).trie.nodes (new elf).trie.trie_root
unfolding new new_trie root
new-IsLinked elf = record { at_root = omega arith; younger = young; once = λ g. omega arith }
  where
    young : (i : ℕ) → i < 1 → Within i 1 (borrow (record root { addr = elf.entry } ∷ []) i).childs
    young zero h = tt
    young (suc i) h = absurd (omega arith)
