-- ===== src/Gdbserver/State.antt =====
-- The fields of `GdbHandler` and `WatchPointStatus` (ckb-vm-debug-utils/src/gdbserver.rs). The
-- three `RefCell`s are the fields of one record, which the methods pass on.
use ckb_standalone_debugger.Prelude.{List, [], ◌∷◌, Bytes, Bool, false, replicate, if◌then◌else◌}
use ckb_standalone_debugger.Protocol.Types.{Breakpoint, Watchpoint}

pub record WatchPointStatus : Type 0 where
  pub watchpoint : Watchpoint
  pub contents : Bytes
  pub has_data : Bool

-- `WatchPointStatus::new`
unfoldable pub watch : Watchpoint → WatchPointStatus
watch wp = record { watchpoint = wp; contents = replicate wp.n_bytes 0; has_data = false }

pub record GdbHandler (M : Type 0) : Type 0 where
  pub machine : M
  pub breakpoints : List Breakpoint
  pub watchpoints : List WatchPointStatus

-- `GdbHandler::new`
unfoldable pub new : {M : Type 0} → M → GdbHandler M
new machine = record { machine = machine; breakpoints = []; watchpoints = [] }

-- `retain`
unfoldable pub retain {ℓ} : {A : Type ℓ} → (A → Bool) → List A → List A
retain keep [] = []
retain keep (x ∷ xs) = let rest = retain keep xs in if keep x then x ∷ rest else rest
