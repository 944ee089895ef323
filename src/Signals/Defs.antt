-- ===== src/Signals/Defs.antt =====
-- The state that all loops of a process share, and the delayed clean-up of a closed one.
use zuvloop.Base.{
  remove, find, ℕ, Bool, true, false, ◌&&◌, Option, none, some, List, [], ◌∷◌, ◌==◌, if◌then◌else◌,
}

-- What runs on a signal: the system's default (for SIGINT Python's), the loop's `_noop_signal_handler`,
-- or another handler of the application.
pub data Disposition : Type 0 where
  default_action noop_handler : Disposition
  other_handler : ℕ → Disposition

-- The descriptor that `signal.set_wakeup_fd` holds: none, the `_csock` of a loop, or another one.
pub data WakeupFd : Type 0 where
  no_fd : WakeupFd
  csock other_fd : ℕ → WakeupFd

-- Loops are numbers, and a loop's SignalOwner token has its number. `handlers` are the `_signal_handlers`
-- of each loop, `attached` its `_wakeup_fd_attached`, and `closed` says that its `_csock` is closed.
-- `pending` holds, for each loop whose clean-up is deferred, the signals to reset.
pub record Process : Type 0 where
  pub disposition : ℕ → Disposition
  pub wakeup_fd : WakeupFd
  pub owners : ℕ → Option ℕ
  pub fd_owner : Option ℕ
  pub finalized : ℕ → Bool
  pub handlers : ℕ → List (ℕ × ℕ)
  pub attached : ℕ → Bool
  pub closed : ℕ → Bool
  pub pending : List (ℕ × List ℕ)

abbrev pub set_at {ℓ} : {A : Type ℓ} → (ℕ → A) → ℕ → A → ℕ → A
set_at f i v j = if j == i then v else f j

-- `token is owner`
abbrev pub is_owner : Option ℕ → ℕ → Bool
is_owner none l = false
is_owner (some k) l = k == l

-- `owner is not None and owner.is_finalized()`
abbrev pub is_finalized : Option ℕ → (ℕ → Bool) → Bool
is_finalized none finalized = false
is_finalized (some k) finalized = finalized k

-- `signal.signal(sig, handler)` for the default handler, if the system takes it.
abbrev pub reset : ℕ → Process → Process
reset sig s = record s { disposition = set_at s.disposition sig default_action }

-- The loop of `_finish_deferred_signal_cleanup`: a signal whose reset fails keeps its owner.
unfoldable pub reset_owned : (ℕ → Bool) → ℕ → List ℕ → Process → Process
reset_owned resets l [] s = s
reset_owned resets l (sig ∷ sigs) s = reset_owned resets l sigs (
    if is_owner (s.owners sig) l && resets sig
    then record s {
      disposition = set_at s.disposition sig default_action;
      owners = set_at s.owners sig none;
    }
    else s)

-- Its beginning: the token is finalized, and the wakeup descriptor given up if it is the loop's.
unfoldable pub give_up_fd : ℕ → Process → Process
give_up_fd l s =
    if is_owner s.fd_owner l
    then record s { finalized = set_at s.finalized l true; wakeup_fd = no_fd; fd_owner = none }
    else record s { finalized = set_at s.finalized l true }

-- `_finish_deferred_signal_cleanup`; `resets` tells for which signals `signal.signal` succeeds. The
-- descriptor is closed whatever happens.
unfoldable pub finish_cleanup : (ℕ → Bool) → ℕ → List ℕ → Process → Process
finish_cleanup resets l sigs s =
    let s' = reset_owned resets l sigs (give_up_fd l s) in
    record s' { closed = set_at s'.closed l true }

-- A clean-up that was deferred runs, between any two Python calls of the main thread.
abbrev pub clean_up : Option (List ℕ) → (ℕ → Bool) → ℕ → Process → Process
clean_up none resets l s = s
clean_up (some sigs) resets l s =
    finish_cleanup resets l sigs (record s { pending = remove l s.pending })

-- The clean-ups that come at one place, each with what its resets meet.
unfoldable pub run_cleanups : List (ℕ × (ℕ → Bool)) → Process → Process
run_cleanups [] s = s
run_cleanups ((l, resets) ∷ later) s = run_cleanups later (clean_up (find l s.pending) resets l s)
