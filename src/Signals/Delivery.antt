-- ===== src/Signals/Delivery.antt =====
-- `_drain_self_pipe` and `_dispatch_signal` of `_base.py`.
use zuvloop.Base.{
  find, is_not_ready, ℕ, Bool, true, false, Option, none, some, List, [], ◌∷◌, ◌++◌, if◌then◌else◌,
  Exception, Result, ok, err,
}

-- `_dispatch_signal`: the entry that `call_soon` is given, if the signal has a handler.
unfoldable pub dispatch_signal : List (ℕ × ℕ) → ℕ → List ℕ
dispatch_signal handlers signum = elim (find signum handlers) [
  | none ↦ []
  | some entry ↦ entry ∷ []
]

-- `for signum in data: self._dispatch_signal(signum)`
unfoldable pub dispatch_all : List (ℕ × ℕ) → List ℕ → List ℕ
dispatch_all handlers [] = []
dispatch_all handlers (signum ∷ rest) =
    dispatch_signal handlers signum ++ dispatch_all handlers rest

-- What `_drain_self_pipe` leaves: the entries scheduled in this order, whether it stopped watching the
-- pipe, and the exception if one leaves it.
pub record Drained : Type 0 where
  pub scheduled : List ℕ
  pub unwatched : Bool
  pub raised : Option Exception

abbrev pub ahead : List ℕ → Drained → Drained
ahead entries d = record d { scheduled = entries ++ d.scheduled }

-- `_drain_self_pipe` over the answers of `sock.recv`.
unfoldable pub drain_self_pipe : List (ℕ × ℕ) → List (Result (List ℕ)) → Drained
drain_self_pipe handlers [] = record { scheduled = []; unwatched = false; raised = none }
drain_self_pipe handlers (ok [] ∷ answers) = record {
  scheduled = [];
  unwatched = true;
  raised = none;
}
drain_self_pipe handlers (ok (b ∷ bytes) ∷ answers) =
    ahead (dispatch_all handlers (b ∷ bytes)) (drain_self_pipe handlers answers)
drain_self_pipe handlers (err e ∷ answers) = record {
  scheduled = [];
  unwatched = false;
  raised = if is_not_ready e then none else some e;
}
