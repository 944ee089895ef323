-- ===== src/Signals/Wakeup.antt =====
-- `_attach_wakeup_fd`, `_restore_wakeup_fd` and `_detach_wakeup_fd` of `_base.py`.
use zuvloop.Signals.Defs.{
  run_cleanups, set_at, is_owner, is_finalized, csock, no_fd, WakeupFd, Process,
}
use zuvloop.Base.{
  ℕ, Bool, true, false, not, ◌&&◌, ◌||◌, Option, none, some, List, [], ◌∷◌, if◌then◌else◌, Result,
  ok, err,
}

-- `WakeupState`
pub record WakeupState : Type 0 where
  pub fd : WakeupFd
  pub owner : Option ℕ
  pub was_attached : Bool

abbrev pub is_empty : List (ℕ × ℕ) → Bool
is_empty [] = true
is_empty (x ∷ xs) = false

-- From the `signal.set_wakeup_fd` of `_attach_wakeup_fd` on, where `previous` owned the descriptor before.
abbrev pub attach_answered :
    Result (Unit {0}) → Option ℕ → Bool → ℕ → Process → Result (Option WakeupState) × Process
attach_answered (ok _) previous was l s = (
  ok (some (record { fd = s.wakeup_fd; owner = previous; was_attached = was })),
  record s { wakeup_fd = csock l; attached = set_at s.attached l true },
)
attach_answered (err e) previous was l s = (
  err e,
  (if is_finalized previous s.finalized
      then record s { wakeup_fd = no_fd; fd_owner = none }
      else record s { fd_owner = previous }),
)

-- `_attach_wakeup_fd`, with the clean-ups that come between publishing the token and the system's answer,
-- which is a success or an OSError.
unfoldable pub attach_wakeup_fd :
    Bool
    → Result (Unit {0})
    → List (ℕ × (ℕ → Bool))
    → ℕ
    → Process
    → Result (Option WakeupState) × Process
attach_wakeup_fd on_main answer between l s =
    if on_main && not (is_empty (s.handlers l))
    then attach_answered answer s.fd_owner (s.attached l) l
        (run_cleanups between (record s { fd_owner = some l }))
    else (ok none, s)

-- From the first `signal.set_wakeup_fd` of `_restore_wakeup_fd` on: `abandon` is what was found before it.
abbrev pub restore_answered : Bool → WakeupState → ℕ → Process → Process
restore_answered true w l s = record s {
  wakeup_fd = no_fd;
  fd_owner = none;
  attached = set_at s.attached l false;
}
restore_answered false w l s =
    if is_finalized w.owner s.finalized
    then record s { wakeup_fd = no_fd; fd_owner = none; attached = set_at s.attached l false }
    else record s {
      wakeup_fd = w.fd;
      fd_owner = w.owner;
      attached = set_at s.attached l w.was_attached;
    }

-- `_restore_wakeup_fd`, with the clean-ups that come between its test and the system's answer, and whether
-- the system takes the descriptor. The state that the last test of its source reads comes after these.
unfoldable pub restore_wakeup_fd :
    Option WakeupState → Bool → List (ℕ × (ℕ → Bool)) → ℕ → Process → Process
restore_wakeup_fd none taken between l s = s
restore_wakeup_fd (some w) taken between l s =
    restore_answered (is_finalized w.owner s.finalized || not taken) w l (run_cleanups between s)

-- `_detach_wakeup_fd`
unfoldable pub detach_wakeup_fd : Bool → ℕ → Process → Process
detach_wakeup_fd on_main l s =
    if on_main && s.attached l && is_empty (s.handlers l)
    then (if is_owner s.fd_owner l
        then record s { wakeup_fd = no_fd; fd_owner = none; attached = set_at s.attached l false }
        else record s { attached = set_at s.attached l false })
    else s
