-- ===== src/Pprof/Trie/Valid.antt =====
-- The tree of call frames stays well formed under every operation.
use ckb_standalone_debugger.Prelude.{
  ℕ, zero, suc, ◌<◌, ◌≤◌, ◌≡◌, refl, ◌∙◌, ap, sym, none, some, List, [], ◌∷◌, length, modify, ◌==◌,
  Bool-cases, Option-cases, ==_iff, inl, inr, arith, ok, ok-injective, panic, subst, length-append,
  length-modify, get_or-append_left, get_or-append_at, dec_lt, some-injective,
}
use ckb_standalone_debugger.Pprof.Trie.{
  Registers, TrieNode, Trie, root, new_frame, push_child, borrow, charge, call, sbrk_or_skip,
  save_regs, find_frame, quit, IsValid, Nearest, here, up,
}

-- A change of node `i` that keeps a field keeps that field at every node.
pub modify-field {ℓ} :
    {B : Type ℓ} (field : TrieNode → B) (nodes : List TrieNode) (i j : ℕ) (f : TrieNode → TrieNode)
    → ((n : TrieNode) → field (f n) ≡ field n)
    → field (borrow (modify nodes i f) j) ≡ field (borrow nodes j)
modify-field field [] i j f keep = refl
modify-field field (n ∷ ns) zero zero f keep = keep n
modify-field field (n ∷ ns) zero (suc j) f keep = refl
modify-field field (n ∷ ns) (suc i) zero f keep = refl
modify-field field (n ∷ ns) (suc i) (suc j) f keep = modify-field field ns i j f keep

-- What later operations keep of the frames that there are.
pub record Extends (t u : Trie) : Type 0 where
  pub grows : length t.nodes ≤ length u.nodes
  pub same_link : (i : ℕ) → i < length t.nodes → (borrow u.nodes i).link ≡ (borrow t.nodes i).link
  pub same_parent :
      (i : ℕ) → i < length t.nodes → (borrow u.nodes i).parent ≡ (borrow t.nodes i).parent

pub Extends-trans : {t u v : Trie} → Extends t u → Extends u v → Extends t v
Extends-trans {t} {u} {v} a b = record {
  grows = omega (arith, a.grows, b.grows);
  same_link = λ i h. b.same_link i (omega (arith, a.grows)) ∙ a.same_link i h;
  same_parent = λ i h. b.same_parent i (omega (arith, a.grows)) ∙ a.same_parent i h;
}

pub Extends-refl : (t : Trie) → Extends t t
Extends-refl t = record { grows = omega arith; same_link = λ i h. refl; same_parent = λ i h. refl }

pub charge-Extends : (cycles pc : ℕ) (t : Trie) → Extends t (charge cycles pc t)
unfolding charge
charge-Extends cycles pc t = record {
  grows = omega (arith, length-modify {0} t.nodes t.trie_node _);
  same_link = λ i h. modify-field (λ n. n.link) t.nodes t.trie_node i _ (λ n. refl);
  same_parent = λ i h. modify-field (λ n. n.parent) t.nodes t.trie_node i _ (λ n. refl);
}

pub charge-IsValid : (cycles pc : ℕ) (t : Trie) → IsValid t → IsValid (charge cycles pc t)
unfolding charge
charge-IsValid cycles pc t v = record {
  current = omega (arith, v.current, length-modify {0} t.nodes t.trie_node _);
  older = λ i p h e. v.older i p (omega (arith, length-modify {0} t.nodes t.trie_node _)) (
      sym (
        (charge-Extends cycles pc t).same_parent i
          (omega (arith, length-modify {0} t.nodes t.trie_node _)))
      ∙ e);
}

module _ (addr link pc : ℕ) (regs : Registers) (t : Trie) where
  pub length-call : length (call addr link pc regs t).nodes ≡ suc (length t.nodes)
  unfolding call
  length-call = omega (
    arith,
    length-append {0} (modify t.nodes t.trie_node _) _,
    length-modify {0} t.nodes t.trie_node _,
  )

  -- A field that linking in the new child keeps is what it was, at the frames that there were.
  pub call-field {ℓ} :
      {B : Type ℓ} (field : TrieNode → B) (i : ℕ)
      → ((n : TrieNode) (c : List ℕ) → field (record n { childs = c }) ≡ field n)
      → i < length t.nodes
      → field (borrow (call addr link pc regs t).nodes i) ≡ field (borrow t.nodes i)
  unfolding call
  call-field field i keep h =
      ap field (
        get_or-append_left (modify t.nodes t.trie_node _) _ i root
          (omega (arith, length-modify {0} t.nodes t.trie_node _)))
      ∙ modify-field field t.nodes t.trie_node i _ (λ n. keep n _)

  pub call-Extends : Extends t (call addr link pc regs t)
  call-Extends = record {
    grows = omega (arith, length-call);
    same_link = λ i h. call-field (λ n. n.link) i (λ n c. refl) h;
    same_parent = λ i h. call-field (λ n. n.parent) i (λ n c. refl) h;
  }

  -- The frame that `call` makes is current, returns to `link`, and was called by the old one.
  pub call_frame :
      ((call addr link pc regs t).trie_node ≡ length t.nodes)
      × ((borrow (call addr link pc regs t).nodes (length t.nodes)).link ≡ link)
      × ((borrow (call addr link pc regs t).nodes (length t.nodes)).parent ≡ some t.trie_node)
  unfolding call
  call_frame =
      let e =
        get_or-append_at (modify t.nodes t.trie_node (push_child (length t.nodes)))
          (new_frame addr link pc regs t.trie_node) root (length t.nodes)
          (sym (length-modify {0} t.nodes t.trie_node _)) in
      (refl, ap (λ n. n.link) e, ap (λ n. n.parent) e)

  pub call_frame_addr : (borrow (call addr link pc regs t).nodes (length t.nodes)).addr ≡ addr
  unfolding call
  call_frame_addr =
      ap (λ n. n.addr)
        (get_or-append_at (modify t.nodes t.trie_node (push_child (length t.nodes)))
          (new_frame addr link pc regs t.trie_node) root (length t.nodes)
          (sym (length-modify {0} t.nodes t.trie_node _)))

  pub call-IsValid : IsValid t → IsValid (call addr link pc regs t)
  call-IsValid v = record {
    current = rw (call_frame.0) (omega (arith, length-call));
    older = λ i p h e. elim (dec_lt i (length t.nodes)) [
      | yes old ↦ v.older i p old (sym (call-Extends.same_parent i old) ∙ e)
      | no new ↦
          let at : i ≡ length t.nodes = omega (arith, length-call) in
          let e' : some t.trie_node ≡ some p = sym (call_frame.2) ∙ (rw at at e) in
          subst (λ k. k < i) (some-injective _ _ e') (rw at v.current)
    ];
  }

-- `sbrk_or_skip` changes the heap's end only.
pub sbrk_or_skip-nodes :
    (t : Trie) → ((sbrk_or_skip t).nodes ≡ t.nodes) × ((sbrk_or_skip t).trie_node ≡ t.trie_node)
unfolding sbrk_or_skip
sbrk_or_skip-nodes t = ground arith

module _ (regs : Registers) (t : Trie) where
  pub length-save_regs : length (save_regs regs t).nodes ≡ length t.nodes
  unfolding save_regs
  length-save_regs = ap length (sbrk_or_skip-nodes _).0 ∙ length-modify t.nodes t.trie_node _

  pub save_regs-field {ℓ} :
      {B : Type ℓ} (field : TrieNode → B) (i : ℕ)
      → ((n : TrieNode) (r : Registers) → field (record n { exit_regs = r }) ≡ field n)
      → field (borrow (save_regs regs t).nodes i) ≡ field (borrow t.nodes i)
  unfolding save_regs
  save_regs-field field i keep =
      ap (λ ns. field (borrow ns i)) (sbrk_or_skip-nodes _).0
      ∙ modify-field field t.nodes t.trie_node i _ (λ n. keep n regs)

  pub save_regs-Extends : Extends t (save_regs regs t)
  save_regs-Extends = record {
    grows = omega (arith, length-save_regs);
    same_link = λ i h. save_regs-field (λ n. n.link) i (λ n c. refl);
    same_parent = λ i h. save_regs-field (λ n. n.parent) i (λ n c. refl);
  }

  pub save_regs-node : (save_regs regs t).trie_node ≡ t.trie_node
  unfolding save_regs
  save_regs-node = (sbrk_or_skip-nodes _).1

  -- A return from frame `f` makes its caller current.
  pub quit-caller :
      (f p : ℕ)
      → (borrow t.nodes f).parent ≡ some p
      → quit regs (some f) t ≡ ok (record (save_regs regs t) { trie_node = p })
  unfolding quit
  quit-caller f p e = rw (save_regs-field (λ n. n.parent) f (λ n c. refl) ∙ e, quit)

  -- A return from a frame that nobody called, the root, is `unimplemented!()`.
  pub quit_panics : (f : ℕ) → (borrow t.nodes f).parent ≡ none → quit regs (some f) t ≡ panic
  unfolding quit
  quit_panics f e = rw (save_regs-field (λ n. n.parent) f (λ n c. refl) ∙ e, quit)

  save_regs-IsValid :
      (p : ℕ)
      → p < length t.nodes
      → IsValid t
      → IsValid (record (save_regs regs t) { trie_node = p })
  save_regs-IsValid p h v = record {
    current = omega (arith, length-save_regs);
    older = λ i q l e.
        v.older i q (omega (arith, length-save_regs))
          (sym (save_regs-Extends.same_parent i (omega (arith, length-save_regs))) ∙ e);
  }

  pub quit-Keeps :
      (f : ℕ) {u : Trie}
      → f < length t.nodes
      → IsValid t
      → quit regs (some f) t ≡ ok u
      → IsValid u × Extends t u
  quit-Keeps f {u} h v e = elim (Option-cases (borrow t.nodes f).parent) [
    | inl top ↦ absurd (cc (quit_panics f top))
    | inr (p, below) ↦
        subst (λ w. IsValid w × Extends t w) (ok-injective (sym (quit-caller f p below) ∙ e))
          (
            save_regs-IsValid p (omega (arith, v.older f p h below)) v,
            record {
              grows = save_regs-Extends.grows;
              same_link = save_regs-Extends.same_link;
              same_parent = save_regs-Extends.same_parent;
            },
          )
  ]

-- The frames that `find_frame` walks over are the ones below `f`, and it finds the nearest.
module _ (nodes : List TrieNode) (addr : ℕ) where
  pub find_frame-Nearest :
      (fuel f : ℕ) {g : ℕ} → find_frame fuel nodes f addr ≡ some g → Nearest nodes addr f g
  unfolding find_frame
  find_frame-Nearest zero f e = cc
  find_frame-Nearest (suc fuel) f {g} e = elim (Bool-cases ((borrow nodes f).link == addr)) [
    | inl hit ↦
        let same : some f ≡ some g = rw (hit, find_frame) at e in
        subst (Nearest nodes addr f) (some-injective _ _ same) (here ((==_iff _ _).0 hit))
    | inr miss ↦ elim (Option-cases (borrow nodes f).parent) [
      | inl top ↦ absurd (cc (rw (miss, find_frame, top) at e))
      | inr (p, below) ↦
          up (λ h. cc ((==_iff _ _).1 h)) below
            (find_frame-Nearest fuel p (rw (miss, find_frame, below) at e))
    ]
  ]
