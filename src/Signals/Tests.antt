-- ===== src/Signals/Tests.antt =====
-- The theorems on signals at concrete states, and some runs.
use zuvloop.Signals.Defs.{
  reset_owned, give_up_fd, finish_cleanup, no_fd, run_cleanups, default_action, Process,
}
use zuvloop.Signals.Wakeup.{detach_wakeup_fd, restore_wakeup_fd, attach_wakeup_fd}
use zuvloop.Signals.Handlers.{
  remove_all, roll_back, uncatchable, remove_signal_handler, close_signals, add_signal_handler,
  Meeting,
}
use zuvloop.Signals.Undoing.{add_signal_handler_refused, IsAlike, remove-add_signal_handler, quiet}
use zuvloop.Signals.Steps.{Reach, start, later, adds, wakeup_fd_open, new_process}
use zuvloop.Signals.Arriving.{drain_self_pipe_delivers, Schedules}
use zuvloop.Signals.Delivery.{drain_self_pipe}
use zuvloop.Base.{
  plain, blocking_io, os_error, refl, ℕ, ◌≡◌, Bool, true, false, ◌||◌, none, some, [], ◌∷◌, ok, err,
}

abbrev plain_process : Process
plain_process = new_process none (λ sig. default_action)

-- Loop 1 handles SIGINT; it is closed on another thread, and its clean-up waits.
abbrev one_handler : Process
one_handler = (add_signal_handler (quiet true (ok tt) (ok tt)) 2 7 1 plain_process).1

abbrev no_reset : ℕ → Bool
no_reset sig = false

abbrev abandoned : Process
abandoned = (close_signals false no_reset 1 one_handler).1

-- Loop 2 takes the signal over; the clean-up of loop 1 comes while it attaches its descriptor, and the
-- system refuses the signal.
abbrev refusal_meets_cleanup : Meeting
refusal_meets_cleanup = record {
  attach = ok tt;
  install = err (os_error plain 22);
  fd_taken = true;
  while_attaching = (1, λ sig. true) ∷ [];
  before_install = [];
  while_owner = [];
  while_fd = [];
}

abbrev after_refusal : Process
after_refusal = (add_signal_handler refusal_meets_cleanup 2 9 2 abandoned).1

stale_fd_abandoned :
    (after_refusal.wakeup_fd ≡ no_fd)
    × (after_refusal.fd_owner ≡ none)
    × (after_refusal.owners 2 ≡ none)
    × (after_refusal.closed 1 ≡ true)
unfolding new_process add_signal_handler attach_wakeup_fd run_cleanups roll_back restore_wakeup_fd
    close_signals remove_all remove_signal_handler detach_wakeup_fd finish_cleanup give_up_fd
    reset_owned
stale_fd_abandoned = (refl, refl, refl, refl)

one_handler-Reach : Reach none (λ sig. default_action) one_handler
unfolding new_process
one_handler-Reach = later start (adds (quiet true (ok tt) (ok tt)) 2 7 1 refl)

wakeup_fd_open_example :
    (one_handler.fd_owner ≡ some 1)
    × (one_handler.closed 1 ≡ false)
    × ((one_handler.attached 1 || one_handler.finalized 1) ≡ true)
unfolding new_process add_signal_handler attach_wakeup_fd run_cleanups
wakeup_fd_open_example = wakeup_fd_open 1 one_handler-Reach refl

add_signal_handler_refused_example :
    let refused =
      add_signal_handler (quiet false (err (os_error plain 9)) (ok tt)) 15 8 1 one_handler in
    let refused' =
      add_signal_handler (quiet true (ok tt) (err (os_error plain 9))) 15 8 1 one_handler in
    (refused.0 ≡ err uncatchable)
    × IsAlike one_handler refused.1
    × (refused'.0 ≡ err uncatchable)
    × IsAlike one_handler refused'.1
unfolding new_process add_signal_handler attach_wakeup_fd run_cleanups
add_signal_handler_refused_example =
    add_signal_handler_refused 15 8 1 one_handler refl refl false (os_error plain 9) (ok tt)

remove-add_signal_handler_example :
    let added = add_signal_handler (quiet true (ok tt) (ok tt)) 2 7 1 plain_process in
    let gone = remove_signal_handler true (λ sig. true) 2 1 added.1 in
    (added.0 ≡ ok tt)
    × (gone.0 ≡ ok true)
    × (gone.1.disposition 2 ≡ default_action)
    × (gone.1.owners 2 ≡ none)
    × (gone.1.handlers 1 ≡ [])
    × (gone.1.attached 1 ≡ false)
    × (gone.1.fd_owner ≡ none)
    × (gone.1.wakeup_fd ≡ no_fd)
unfolding new_process
remove-add_signal_handler_example =
    remove-add_signal_handler (λ sig. true) 2 7 1 2 plain_process refl refl refl refl

drain_self_pipe_delivers_example :
    let blocked =
      drain_self_pipe
        ((2, 7) ∷ (15, 8) ∷ [])
        (ok (15 ∷ 3 ∷ []) ∷ ok (2 ∷ []) ∷ err (os_error blocking_io 11) ∷ []) in
    let ended =
      drain_self_pipe ((2, 7) ∷ (15, 8) ∷ []) (ok (15 ∷ 3 ∷ []) ∷ ok (2 ∷ []) ∷ ok [] ∷ []) in
    Schedules ((2, 7) ∷ (15, 8) ∷ []) (15 ∷ 3 ∷ 2 ∷ []) blocked.scheduled
    × (blocked.unwatched ≡ false)
    × (blocked.raised ≡ none)
    × Schedules ((2, 7) ∷ (15, 8) ∷ []) (15 ∷ 3 ∷ 2 ∷ []) ended.scheduled
    × (ended.unwatched ≡ true)
    × (ended.raised ≡ none)
drain_self_pipe_delivers_example =
    drain_self_pipe_delivers ((2, 7) ∷ (15, 8) ∷ []) ((15, 3 ∷ []) ∷ (2, []) ∷ [])
      (os_error blocking_io 11) [] refl
