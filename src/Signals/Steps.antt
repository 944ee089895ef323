-- ===== src/Signals/Steps.antt =====
-- What the loops of a process do to its signal state, in any order.
use zuvloop.Signals.Adding.{Ready-beside, add_signal_handler-IsSettled}
use zuvloop.Signals.Ownership.{run_cleanups-IsSettled, Agree, IsSettled}
use zuvloop.Signals.Closing.{close_signals-IsSettled, remove_signal_handler-IsSettled}
use zuvloop.Signals.Safety.{
  detach_wakeup_fd-IsSettled, attach_wakeup_fd-Answered, Ready-IsSettled, Answered,
}
use zuvloop.Signals.Defs.{run_cleanups, other_fd, csock, no_fd, Process, WakeupFd, Disposition}
use zuvloop.Signals.Handlers.{close_signals, remove_signal_handler, add_signal_handler, Meeting}
use zuvloop.Signals.Wakeup.{detach_wakeup_fd, attach_wakeup_fd, WakeupState}
use zuvloop.Base.{
  ℕ, ◌≡◌, Bool, true, false, ◌||◌, Option, none, some, List, [], arith, Result, ok, err,
}

-- The steps of loop `l`, of the application, and of the clean-ups. `removes` is for an open loop.
pub data Step (s : Process) : Process → Type 0 where
  adds :
      (m : Meeting) (sig entry l : ℕ)
      → s.finalized l ≡ false
      → Step s (add_signal_handler m sig entry l s).1
  removes :
      (on_main : Bool) (resets : ℕ → Bool) (sig l : ℕ)
      → Step s (remove_signal_handler on_main resets sig l s).1
  runs :
      (on_main : Bool) (answer : Result (Unit {0})) (between : List (ℕ × (ℕ → Bool))) (l : ℕ)
      → s.finalized l ≡ false
      → Step s (attach_wakeup_fd on_main answer between l s).1
  stops : (on_main : Bool) (l : ℕ) → Step s (detach_wakeup_fd on_main l s)
  closes :
      (on_main : Bool) (resets : ℕ → Bool) (l : ℕ)
      → s.finalized l ≡ false
      → Step s (close_signals on_main resets l s).1
  cleans : (cs : List (ℕ × (ℕ → Bool))) → Step s (run_cleanups cs s)
  installs : (d : ℕ → Disposition) → Step s (record s { disposition = d })

-- The state of a process that has no loop yet, with the application's descriptor and dispositions.
unfoldable pub new_process : Option ℕ → (ℕ → Disposition) → Process
new_process fd d = record {
  disposition = d;
  wakeup_fd = elim fd [ none ↦ no_fd | some n ↦ other_fd n ];
  owners = λ sig. none;
  fd_owner = none;
  finalized = λ l. false;
  handlers = λ l. [];
  attached = λ l. false;
  closed = λ l. false;
  pending = [];
}

pub data Reach (fd : Option ℕ) (d : ℕ → Disposition) : Process → Type 0 where
  start : Reach fd d (new_process fd d)
  later : {s t : Process} → Reach fd d s → Step s t → Reach fd d t

new_process-IsSettled : (fd : Option ℕ) (d : ℕ → Disposition) → IsSettled (new_process fd d)
unfolding new_process
new_process-IsSettled none d = record {
  agrees = tt;
  is_attached = tt;
  closed_late = λ l c. cc;
  pending_late = λ l c. cc;
}
new_process-IsSettled (some n) d = record {
  agrees = tt;
  is_attached = tt;
  closed_late = λ l c. cc;
  pending_late = λ l c. cc;
}

Answered-IsSettled :
    (l : ℕ) (r : Result (Option WakeupState) × Process) → Answered l r → IsSettled r.1
Answered-IsSettled l (ok saved, s) h = Ready-IsSettled l saved s h
Answered-IsSettled l (err e, s) h = h

Step-IsSettled : {s t : Process} → Step s t → IsSettled s → IsSettled t
Step-IsSettled {s} (adds m sig entry l alive) h =
    add_signal_handler-IsSettled m sig entry l s alive h
Step-IsSettled {s} (removes on_main resets sig l) h =
    remove_signal_handler-IsSettled on_main resets sig l s h
Step-IsSettled {s} (runs on_main answer between l alive) h =
    Answered-IsSettled l (attach_wakeup_fd on_main answer between l s)
      (attach_wakeup_fd-Answered on_main answer between l s h alive)
Step-IsSettled {s} (stops on_main l) h = detach_wakeup_fd-IsSettled on_main l s h
Step-IsSettled {s} (closes on_main resets l alive) h =
    close_signals-IsSettled on_main resets l s alive h
Step-IsSettled (cleans cs) h = run_cleanups-IsSettled cs _ h
Step-IsSettled {s} (installs d) h = Ready-beside 0 none s d s.owners s.handlers h

Reach-IsSettled : {fd : Option ℕ} {d : ℕ → Disposition} {s : Process} → Reach fd d s → IsSettled s
Reach-IsSettled {fd} {d} start = new_process-IsSettled fd d
Reach-IsSettled (later r st) = Step-IsSettled st (Reach-IsSettled r)

Agree-csock :
    (fd : WakeupFd) (owner : Option ℕ) (closed : ℕ → Bool) (k : ℕ)
    → fd ≡ csock k
    → Agree fd owner closed
    → (owner ≡ some k) × (closed k ≡ false)
Agree-csock no_fd owner closed k e a = cc
Agree-csock (other_fd n) owner closed k e a = cc
Agree-csock (csock j) none closed k e a = absurd a
Agree-csock (csock j) (some l) closed k e a = ground arith

-- In every state that a process can reach by its loops' calls, by what the system answers them and by
-- deferred clean-ups, also between two Python calls of `add_signal_handler`: if the wakeup descriptor is
-- that of a loop, this loop's token owns it, the descriptor is not closed, and the loop has noted
-- that it is attached or has been finalized.
pub wakeup_fd_open :
    {fd : Option ℕ} {d : ℕ → Disposition} {s : Process} (k : ℕ)
    → Reach fd d s
    → s.wakeup_fd ≡ csock k
    → (s.fd_owner ≡ some k) × (s.closed k ≡ false) × ((s.attached k || s.finalized k) ≡ true)
wakeup_fd_open {s = s} k r e =
    let h = Reach-IsSettled r in
    let (own, fine) = Agree-csock s.wakeup_fd s.fd_owner s.closed k e h.agrees in
    (own, fine, rw own at h.is_attached)
