-- ===== src/Gdbstub/Points.antt =====
-- Breakpoints, watchpoints and registers of `GdbStubHandler`
-- (ckb-vm-debug-utils/src/gdbstub.rs).
use ckb_standalone_debugger.Prelude.{
  ℕ, zero, suc, ◌≡◌, refl, ◌==◌, ◌&&◌, Bool, true, false, Option, none, some, List, [], ◌∷◌, ◌++◌,
  ok, panic, length, if◌then◌else◌, arith, Bool-cases, inl, inr, Option-cases, ==_refl,
}
use ckb_standalone_debugger.Vm.{VmResult}
use ckb_standalone_debugger.Gdbstub.State.{
  GdbStubHandler, WatchKind, watch_write, watch_read, watch_read_write, contains,
}

-- `position` and `Vec::remove`, which panics out of range.
unfoldable pub position {ℓ} : {A : Type ℓ} → (A → Bool) → List A → Option ℕ
position test [] = none
position test (x ∷ xs) =
    let rest = position test xs in
    if test x then some 0 else elim rest [ none ↦ none | some i ↦ some (suc i) ]

unfoldable pub remove_at {ℓ} : {A : Type ℓ} → List A → ℕ → Option (List A)
remove_at [] i = none
remove_at (x ∷ xs) zero = some xs
remove_at (x ∷ xs) (suc i) = elim (remove_at xs i) [ none ↦ none | some ys ↦ some (x ∷ ys) ]

unfoldable pub same_kind : WatchKind → WatchKind → Bool
same_kind watch_write watch_write = true
same_kind watch_read watch_read = true
same_kind watch_read_write watch_read_write = true
same_kind _ _ = false

module _ {M D : Type 0} where
  unfoldable pub add_sw_breakpoint : ℕ → GdbStubHandler M D → VmResult Bool × GdbStubHandler M D
  add_sw_breakpoint addr h = (ok true, record h { breakpoints = h.breakpoints ++ addr ∷ [] })

  -- `Some(pos) => self.breakpoints.remove(pos)`
  unfoldable pub remove_breakpoint_at :
      Option ℕ → GdbStubHandler M D → VmResult Bool × GdbStubHandler M D
  unfolding remove_at
  remove_breakpoint_at none h = (ok false, h)
  remove_breakpoint_at (some pos) h = elim (remove_at h.breakpoints pos) [
    | some bs ↦ (ok true, record h { breakpoints = bs })
    | none ↦ (panic, h)
  ]

  unfoldable pub remove_sw_breakpoint : ℕ → GdbStubHandler M D → VmResult Bool × GdbStubHandler M D
  unfolding position remove_breakpoint_at
  remove_sw_breakpoint addr h = remove_breakpoint_at (position (λ x. x == addr) h.breakpoints) h

  unfoldable pub add_hw_watchpoint :
      ℕ → WatchKind → GdbStubHandler M D → VmResult Bool × GdbStubHandler M D
  add_hw_watchpoint addr kind h =
      (ok true, record h { watchpoints = h.watchpoints ++ (addr, kind) ∷ [] })

  -- The position is one of a watchpoint, and the removal is from the breakpoints, as written.
  unfoldable pub remove_hw_watchpoint :
      ℕ → WatchKind → GdbStubHandler M D → VmResult Bool × GdbStubHandler M D
  unfolding position remove_breakpoint_at same_kind
  remove_hw_watchpoint addr kind h =
      remove_breakpoint_at (position (λ w. (w.0 == addr) && same_kind w.1 kind) h.watchpoints) h

position-append_last :
    (xs : List ℕ) (a : ℕ)
    → contains xs a ≡ false
    → position (λ x. x == a) (xs ++ a ∷ []) ≡ some (length xs)
unfolding position
position-append_last [] a h = ground arith
position-append_last (x ∷ xs) a h = ground (arith, position-append_last xs a)

position_absent : (xs : List ℕ) (a : ℕ) → contains xs a ≡ false → position (λ x. x == a) xs ≡ none
unfolding position
position_absent [] a h = refl
position_absent (x ∷ xs) a h = ground (arith, position_absent xs a)

remove_at-append_last {ℓ} :
    {A : Type ℓ} (xs : List A) (a : A) → remove_at (xs ++ a ∷ []) (length xs) ≡ some xs
unfolding remove_at
remove_at-append_last [] a = refl
remove_at-append_last (x ∷ xs) a = rw (remove_at-append_last xs a)

module _ {M D : Type 0} (addr : ℕ) (h : GdbStubHandler M D) where
  -- Clearing a breakpoint that was not set before it was added gives back the handler, and
  -- answers that it was there.
  pub remove-add_sw_breakpoint :
      contains h.breakpoints addr ≡ false
      → remove_sw_breakpoint addr (add_sw_breakpoint addr h).1 ≡ (ok true, h)
  unfolding remove_sw_breakpoint add_sw_breakpoint
  remove-add_sw_breakpoint new = rw (
    position-append_last h.breakpoints addr new,
    remove_breakpoint_at,
    remove_at-append_last h.breakpoints addr,
  )

  -- Clearing a breakpoint that is not set changes nothing, and answers so.
  pub remove_sw_breakpoint_absent :
      contains h.breakpoints addr ≡ false → remove_sw_breakpoint addr h ≡ (ok false, h)
  unfolding remove_sw_breakpoint
  remove_sw_breakpoint_absent absent =
      rw (position_absent h.breakpoints addr absent, remove_breakpoint_at)

remove_breakpoint_at-watchpoints :
    {M D : Type 0} (p : Option ℕ) (h : GdbStubHandler M D)
    → (remove_breakpoint_at p h).1.watchpoints ≡ h.watchpoints
unfolding remove_breakpoint_at
remove_breakpoint_at-watchpoints none h = refl
remove_breakpoint_at-watchpoints (some pos) h = elim (Option-cases (remove_at h.breakpoints pos)) [
  | inl e ↦ rw (e, remove_breakpoint_at)
  | inr (bs, e) ↦ rw (e, remove_breakpoint_at)
]

position-append_some {ℓ} :
    {A : Type ℓ} (test : A → Bool) (xs : List A) (a : A)
    → test a ≡ true
    → (i : ℕ) × (position test (xs ++ a ∷ []) ≡ some i)
unfolding position
position-append_some test [] a h = (0, rw h)
position-append_some test (x ∷ xs) a h = elim (Bool-cases (test x)) [
  | inl hit ↦ (0, rw hit)
  | inr miss ↦ let (i, e) = position-append_some test xs a h in (suc i, rw (miss, e))
]

same_kind_refl : (k : WatchKind) → same_kind k k ≡ true
unfolding same_kind
same_kind_refl watch_write = refl
same_kind_refl watch_read = refl
same_kind_refl watch_read_write = refl

module _ {M D : Type 0} (addr : ℕ) (kind : WatchKind) (h : GdbStubHandler M D) where
  -- No watchpoint is ever removed: `remove_hw_watchpoint` leaves the watchpoints as they are.
  pub remove_hw_watchpoint-watchpoints :
      (remove_hw_watchpoint addr kind h).1.watchpoints ≡ h.watchpoints
  unfolding remove_hw_watchpoint
  remove_hw_watchpoint-watchpoints = remove_breakpoint_at-watchpoints _ h

  -- With no breakpoint set, to remove a watchpoint that was just added is a panic.
  pub remove-add_hw_watchpoint_panics :
      h.breakpoints ≡ []
      → (remove_hw_watchpoint addr kind (add_hw_watchpoint addr kind h).1).0 ≡ panic
  unfolding remove_hw_watchpoint add_hw_watchpoint
  remove-add_hw_watchpoint_panics none_set =
      let (i, e) =
        position-append_some (λ w. (w.0 == addr) && same_kind w.1 kind) h.watchpoints (addr, kind)
          (rw (same_kind_refl kind, ==_refl addr)) in
      rw (e, remove_breakpoint_at, none_set)
