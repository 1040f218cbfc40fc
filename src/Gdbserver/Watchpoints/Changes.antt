-- ===== src/Gdbserver/Watchpoints/Changes.antt =====
-- What a watchpoint reports.
use ckb_standalone_debugger.Prelude.{
  ◌≡◌, refl, sym, Bool, true, not, ◌&&◌, ◌||◌, List, [], ◌∷◌, Bytes, ok, Bool-cases, inl, inr,
  bytes_eq, Outcome-cases, bytes_eq_sound,
}
use ckb_standalone_debugger.Vm.{Vm}
use ckb_standalone_debugger.Gdbserver.State.{WatchPointStatus}
use ckb_standalone_debugger.Gdbserver.Memory.{read_memory}
use ckb_standalone_debugger.Gdbserver.Watchpoints.{
  region, compare_contents, has_change, check_watchpoints,
}

module _ {M D I : Type 0} (vm : Vm M D I) where
  -- After a check of a watchpoint that could read its memory, it holds what it read.
  compare_contents-contents :
      (w : WatchPointStatus) (c : Bytes)
      → ((compare_contents vm w c).1.contents ≡ c)
        × ((compare_contents vm w c).1.has_data ≡ true)
        × ((compare_contents vm w c).1.watchpoint ≡ w.watchpoint)
  unfolding compare_contents
  compare_contents-contents w c = elim (Bool-cases (bytes_eq c w.contents)) [
    | inl same ↦ (rw same (sym (bytes_eq_sound c w.contents same)), refl, refl)
    | inr other ↦ (rw other, refl, refl)
  ]

  has_change_lem :
      (w : WatchPointStatus) (m : M) {c : Bytes}
      → (read_memory vm (region vm w.watchpoint) m).0 ≡ ok c
      → ((has_change vm w m).0 ≡ ok (w.has_data && not (bytes_eq c w.contents)))
        × ((has_change vm w m).1 ≡ (compare_contents vm w c).1)
  unfolding has_change compare_contents
  has_change_lem w m e = (rw (e, has_change), rw (e, has_change))

  -- A check of all watchpoints: every one is armed afterwards.
  abbrev pub Armed : List WatchPointStatus → Type 0
  Armed [] = Unit
  Armed (w ∷ ws) = (w.has_data ≡ true) × Armed ws

  has_change-armed :
      (w : WatchPointStatus) (m : M) {c : Bool}
      → (has_change vm w m).0 ≡ ok c
      → ((has_change vm w m).1.has_data ≡ true) × ((has_change vm w m).1.watchpoint ≡ w.watchpoint)
  unfolding has_change
  has_change-armed w m e = elim (Outcome-cases (read_memory vm (region vm w.watchpoint) m).0) [
    | inl (c, good) ↦
        let kept = compare_contents-contents w c in
        let same = (has_change_lem w m good).1 in (rw same kept.1, rw same kept.2)
    | inr (inl (x, bad)) ↦ absurd (cc (rw (bad, has_change) at e))
    | inr (inr gone) ↦ absurd (cc (rw (gone, has_change) at e))
  ]

  -- When a check of all watchpoints succeeds, every one of them is armed: the next check of each
  -- compares with what this one read.
  pub check_watchpoints-Armed :
      (ws : List WatchPointStatus) (m : M) (result : Bool) {r : Bool}
      → (check_watchpoints vm ws m result).0 ≡ ok r
      → Armed (check_watchpoints vm ws m result).1
  unfolding check_watchpoints
  check_watchpoints-Armed [] m result e = tt
  check_watchpoints-Armed (w ∷ ws) m result e = elim (Outcome-cases (has_change vm w m).0) [
    | inl (c, good) ↦
        rw (good, check_watchpoints)
          (
            (has_change-armed w m good).0,
            check_watchpoints-Armed ws (has_change vm w m).2 (result || c)
                (rw (good, check_watchpoints) at e),
          )
    | inr (inl (x, bad)) ↦ absurd (cc (rw (bad, check_watchpoints) at e))
    | inr (inr gone) ↦ absurd (cc (rw (gone, check_watchpoints) at e))
  ]
