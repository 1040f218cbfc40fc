-- ===== src/Gdbserver/Breakpoints.antt =====
-- `at_breakpoint` and the methods that set and clear breakpoints
-- (ckb-vm-debug-utils/src/gdbserver.rs).
use ckb_standalone_debugger.Prelude.{
  ℕ, ◌≡◌, ◌≢◌, ◌∙◌, refl, ap, Bool, true, false, not, ◌||◌, List, [], ◌∷◌, ◌++◌, ◌==◌, append-nil,
  ℕ_discrete, arith, Bool-cases, inl, inr,
}
use ckb_standalone_debugger.Vm.{Vm}
use ckb_standalone_debugger.Protocol.Types.{Breakpoint}
use ckb_standalone_debugger.Gdbserver.State.{GdbHandler, retain}

-- The derived `PartialEq`.
unfoldable pub Breakpoint-discrete : Discrete Breakpoint
Breakpoint-discrete = hlevel ℕ_discrete

unfoldable pub same_breakpoint : Breakpoint → Breakpoint → Bool
unfolding Breakpoint-discrete
same_breakpoint b c = elim (Breakpoint-discrete b c) [ yes e ↦ true | no e ↦ false ]

-- `iter().any(|b| b.addr == pc)`
unfoldable pub any_at : ℕ → List Breakpoint → Bool
any_at pc [] = false
any_at pc (b ∷ bs) = (b.addr == pc) || any_at pc bs

module _ {M D I : Type 0} (vm : Vm M D I) where
  unfoldable pub at_breakpoint : GdbHandler M → Bool
  unfolding any_at
  at_breakpoint h = any_at (vm.pc h.machine) h.breakpoints

module _ {M : Type 0} where
  unfoldable pub insert_software_breakpoint : Breakpoint → GdbHandler M → GdbHandler M
  insert_software_breakpoint b h = record h { breakpoints = h.breakpoints ++ b ∷ [] }

  unfoldable pub remove_software_breakpoint : Breakpoint → GdbHandler M → GdbHandler M
  unfolding retain same_breakpoint
  remove_software_breakpoint breakpoint h = record h {
    breakpoints = retain (λ b. not (same_breakpoint b breakpoint)) h.breakpoints;
  }

-- The breakpoints of `bs` other than `b`.
same_breakpoint_refl : (b : Breakpoint) → same_breakpoint b b ≡ true
unfolding same_breakpoint
same_breakpoint_refl b =
    elim (Breakpoint-discrete b b)
      as (λ (d : Dec (b ≡ b)). ◌≡◌ {A = Bool} (elim d [ yes e ↦ true | no e ↦ false ]) true) [
        | yes e ↦ refl
        | no n ↦ absurd (n refl)
      ]

retain-append {ℓ} :
    {A : Type ℓ} (keep : A → Bool) (xs ys : List A)
    → retain keep (xs ++ ys) ≡ retain keep xs ++ retain keep ys
unfolding retain
retain-append keep [] ys = refl
retain-append keep (x ∷ xs) ys = elim (Bool-cases (keep x)) [
  | inl k ↦ rw (k, retain-append keep xs ys)
  | inr k ↦ rw (k, retain-append keep xs ys)
]

any_at-append :
    (pc : ℕ) (bs cs : List Breakpoint) → any_at pc (bs ++ cs) ≡ (any_at pc bs || any_at pc cs)
unfolding any_at
any_at-append pc [] cs = refl
any_at-append pc (b ∷ bs) cs = ground (arith, any_at-append pc bs cs)

-- No breakpoint of the list is `b`.
abbrev pub Absent : Breakpoint → List Breakpoint → Type 0
Absent b [] = Unit
Absent b (c ∷ cs) = (c ≢ b) × Absent b cs

same_breakpoint-false : (b c : Breakpoint) → b ≢ c → same_breakpoint b c ≡ false
unfolding same_breakpoint
same_breakpoint-false b c h =
    elim (Breakpoint-discrete b c)
      as (λ (d : Dec (b ≡ c)). ◌≡◌ {A = Bool} (elim d [ yes e ↦ true | no e ↦ false ]) false) [
        | yes e ↦ absurd (h e)
        | no n ↦ refl
      ]

retain-Absent :
    (b : Breakpoint) (cs : List Breakpoint)
    → Absent b cs
    → retain (λ c. not (same_breakpoint c b)) cs ≡ cs
unfolding retain
retain-Absent b [] a = refl
retain-Absent b (c ∷ cs) (other, rest) =
    rw (same_breakpoint-false c b other, retain-Absent b cs rest)

module _ {M D I : Type 0} (vm : Vm M D I) (b : Breakpoint) (h : GdbHandler M) where
  retain_last :
      retain (λ c. not (same_breakpoint c b)) (h.breakpoints ++ b ∷ [])
      ≡ retain (λ c. not (same_breakpoint c b)) h.breakpoints ++ []
  unfolding retain
  retain_last = retain-append _ h.breakpoints (b ∷ []) ∙ (rw same_breakpoint_refl)

  -- Setting a breakpoint makes the machine stand at one exactly if it did before, or if the
  -- program counter is the new address.
  pub at_breakpoint-insert :
      at_breakpoint vm (insert_software_breakpoint b h)
      ≡ (at_breakpoint vm h || (b.addr == vm.pc h.machine))
  unfolding at_breakpoint insert_software_breakpoint
  at_breakpoint-insert = any_at-append _ h.breakpoints (b ∷ []) ∙ ground arith

  -- Clearing a breakpoint that was just set leaves what clearing it before would have left.
  pub remove-insert_breakpoint :
      remove_software_breakpoint b (insert_software_breakpoint b h) ≡ remove_software_breakpoint b h
  unfolding remove_software_breakpoint insert_software_breakpoint
  remove-insert_breakpoint = ap (λ bs. record h { breakpoints = bs }) (retain_last ∙ append-nil _)

  -- Setting a breakpoint that no breakpoint of the handler is equal to, and clearing it again, leaves
  -- the handler as it was.
  pub remove-insert_new_breakpoint :
      Absent b h.breakpoints → remove_software_breakpoint b (insert_software_breakpoint b h) ≡ h
  unfolding remove_software_breakpoint insert_software_breakpoint
  remove-insert_new_breakpoint absent =
      ap (λ bs. record h { breakpoints = bs })
        (retain_last ∙ append-nil _ ∙ retain-Absent b h.breakpoints absent)
