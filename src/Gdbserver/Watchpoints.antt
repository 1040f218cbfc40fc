-- ===== src/Gdbserver/Watchpoints.antt =====
-- `WatchPointStatus::has_change`, `at_watchpoint` and the methods that set and clear watchpoints
-- (ckb-vm-debug-utils/src/gdbserver.rs).
pub mod Changes
use ckb_standalone_debugger.Prelude.{
  ℕ, zero, suc, ◌+◌, ◌≡◌, ◌≢◌, refl, ◌∙◌, ap, sym, Bool, true, false, not, ◌&&◌, ◌||◌, List, [],
  ◌∷◌, ◌++◌, Bytes, ◌==◌, if◌then◌else◌, ok, err, panic, arith, Bool-cases, inl, inr, bytes_eq,
  Outcome-cases, ==_iff,
}
use ckb_standalone_debugger.Vm.{Vm}
use ckb_standalone_debugger.Protocol.Types.{MemoryRegion, Watchpoint, Error, Handled}
use ckb_standalone_debugger.Gdbserver.State.{WatchPointStatus, watch, GdbHandler, retain}
use ckb_standalone_debugger.Gdbserver.Memory.{read_memory}

module _ {M D I : Type 0} (vm : Vm M D I) where
  abbrev pub region : Watchpoint → MemoryRegion
  region wp = record { address = wp.addr; length = wp.n_bytes }

  -- What `has_change` does with the bytes that it read. The first time it only takes them.
  unfoldable pub compare_contents : WatchPointStatus → Bytes → Bool × WatchPointStatus
  compare_contents w new_content =
      let changed = not (bytes_eq new_content w.contents) in
      (
        w.has_data && changed,
        record w { contents = (if changed then new_content else w.contents); has_data = true },
      )

  unfoldable pub has_change : WatchPointStatus → M → Handled Bool × WatchPointStatus × M
  unfolding compare_contents
  has_change w m =
      let (read, m') = read_memory vm (region w.watchpoint) m in
      elim read [
        | ok new_content ↦ let (result, w') = compare_contents w new_content in (ok result, w', m')
        | err e ↦ (err e, w, m')
        | panic ↦ (panic, w, m')
      ]

  -- The loop of `at_watchpoint`: `?` leaves it at the first read that fails.
  unfoldable pub check_watchpoints :
      List WatchPointStatus → M → Bool → Handled Bool × List WatchPointStatus × M
  unfolding has_change
  check_watchpoints [] m result = (ok result, [], m)
  check_watchpoints (w ∷ ws) m result =
      let (changed, w', m') = has_change w m in
      elim changed [
        | ok c ↦ let (r, ws', m'') = check_watchpoints ws m' (result || c) in (r, w' ∷ ws', m'')
        | err e ↦ (err e, w' ∷ ws, m')
        | panic ↦ (panic, w' ∷ ws, m')
      ]

  unfoldable pub at_watchpoint : GdbHandler M → Handled Bool × GdbHandler M
  unfolding check_watchpoints
  at_watchpoint h =
      let (r, ws, m) = check_watchpoints h.watchpoints h.machine false in
      (r, record h { watchpoints = ws; machine = m })

module _ {M : Type 0} where
  unfoldable pub insert_write_watchpoint : Watchpoint → GdbHandler M → GdbHandler M
  unfolding watch
  insert_write_watchpoint wp h = record h { watchpoints = h.watchpoints ++ watch wp ∷ [] }

  unfoldable pub remove_write_watchpoint : Watchpoint → GdbHandler M → GdbHandler M
  unfolding retain
  remove_write_watchpoint wp h = record h {
    watchpoints =
        retain (λ b. not (b.watchpoint.addr == wp.addr) || not (b.watchpoint.n_bytes == wp.n_bytes))
          h.watchpoints;
  }
