-- ===== src/Signals/Adding.antt =====
-- `add_signal_handler` and the wakeup descriptor, on every path.
use zuvloop.Base.{
  find, put, refl, ℕ, ◌≡◌, inl, inr, Bool, true, false, Option, none, some, List, Bool-cases,
  Result, ok, err,
}
use zuvloop.Signals.Ownership.{IsSettled-by, IsSettled}
use zuvloop.Signals.Wakeup.{attach_wakeup_fd, restore_wakeup_fd, WakeupState}
use zuvloop.Signals.Handlers.{
  put_back, install, installed, owner_back, Meeting, add_signal_handler, roll_back,
}
use zuvloop.Signals.Safety.{
  attach_wakeup_fd-Answered, restore_wakeup_fd-IsSettled, run_cleanups-Ready, Ready-IsSettled,
  Ready, Answered,
}
use zuvloop.Signals.Defs.{
  noop_handler, run_cleanups, default_action, set_at, is_finalized, Disposition, Process,
}

-- The wakeup descriptor has no part in what else changes.
pub Ready-beside :
    (l : ℕ) (saved : Option WakeupState) (s : Process) (d : ℕ → Disposition) (o : ℕ → Option ℕ)
    (hs : ℕ → List (ℕ × ℕ))
    → Ready l saved s
    → Ready l saved (record s { disposition = d; owners = o; handlers = hs })
Ready-beside l none s d o hs h =
    IsSettled-by s (record s { disposition = d; owners = o; handlers = hs }) refl refl refl refl
      refl refl h
Ready-beside l (some w) s d o hs h = record {
  window = record {
    own = h.window.own;
    alive = h.window.alive;
    closed_late = h.window.closed_late;
    pending_late = h.window.pending_late;
  };
  fd_is = h.fd_is;
  attached_is = h.attached_is;
  pair = h.pair;
  prior = h.prior;
}

owner_back-Ready :
    (previous : Option ℕ) (between : List (ℕ × (ℕ → Bool))) (sig l : ℕ) (saved : Option WakeupState)
    (s : Process)
    → Ready l saved s
    → Ready l saved (owner_back previous between sig s)
owner_back-Ready none between sig l saved s h =
    Ready-beside l saved s s.disposition (set_at s.owners sig none) s.handlers h
owner_back-Ready (some k) between sig l saved s h =
    let s' = run_cleanups between s in
    let h' = run_cleanups-Ready l saved between s h in
    elim (Bool-cases (s.finalized k)) [
      | inl dead ↦
          rw dead (Ready-beside l saved s s.disposition (set_at s.owners sig none) s.handlers h)
      | inr alive ↦ rw alive (elim (Bool-cases (s'.finalized k)) [
        | inl dead ↦ rw dead (
            Ready-beside l saved s' (set_at s'.disposition sig default_action)
              (set_at s'.owners sig none) s'.handlers h')
        | inr fine ↦
            rw fine (
              Ready-beside l saved s' s'.disposition (set_at s'.owners sig (some k)) s'.handlers h')
      ])
    ]

-- The rest of the roll-back, with the dispositions as they are then.
rest-IsSettled :
    (m : Meeting) (entry owner : Option ℕ) (saved : Option WakeupState) (sig l : ℕ) (s : Process)
    (d : ℕ → Disposition)
    → Ready l saved s
    → let hs = set_at s.handlers l (put_back entry sig (s.handlers l)) in
      IsSettled (
        restore_wakeup_fd saved m.fd_taken m.while_fd l
          (owner_back owner m.while_owner sig (record s { disposition = d; handlers = hs })))
rest-IsSettled m entry owner saved sig l s d h =
    let hs = set_at s.handlers l (put_back entry sig (s.handlers l)) in
    let s' = record s { disposition = d; handlers = hs } in
    restore_wakeup_fd-IsSettled saved m.fd_taken m.while_fd l
      (owner_back owner m.while_owner sig s')
      (owner_back-Ready owner m.while_owner sig l saved s' (Ready-beside l saved s d s.owners hs h))

roll_back-IsSettled :
    (m : Meeting) (entry owner : Option ℕ) (saved : Option WakeupState) (sig l : ℕ) (s : Process)
    → Ready l saved s
    → IsSettled (roll_back m entry owner saved sig l s)
unfolding roll_back
roll_back-IsSettled m entry owner saved sig l s h =
    elim (Bool-cases (is_finalized owner s.finalized)) [
      | inl dead ↦
          rw dead
            (rest-IsSettled m entry owner saved sig l s (set_at s.disposition sig default_action) h)
      | inr fine ↦ rw fine (rest-IsSettled m entry owner saved sig l s s.disposition h)
    ]

installed-IsSettled :
    (m : Meeting) (entry owner : Option ℕ) (saved : Option WakeupState) (sig l : ℕ) (s : Process)
    (answer : Result (Unit {0}))
    → Ready l saved s
    → IsSettled (installed m entry owner saved sig l s answer).1
installed-IsSettled m entry owner saved sig l s (ok u) h =
    Ready-IsSettled l saved (record s { disposition = set_at s.disposition sig noop_handler })
      (Ready-beside l saved s (set_at s.disposition sig noop_handler) s.owners s.handlers h)
installed-IsSettled m entry owner saved sig l s (err e) h =
    roll_back-IsSettled m entry owner saved sig l s h

install-IsSettled :
    (m : Meeting) (entry owner : Option ℕ) (sig l : ℕ) (r : Result (Option WakeupState) × Process)
    → Answered l r
    → IsSettled (install m entry owner sig l r).1
install-IsSettled m entry owner sig l (err e, s) h =
    roll_back-IsSettled m entry owner none sig l s h
install-IsSettled m entry owner sig l (ok saved, s) h =
    installed-IsSettled m entry owner saved sig l (run_cleanups m.before_install s) m.install
      (run_cleanups-Ready l saved m.before_install s h)

pub add_signal_handler-IsSettled :
    (m : Meeting) (sig entry l : ℕ) (s : Process)
    → s.finalized l ≡ false
    → IsSettled s
    → IsSettled (add_signal_handler m sig entry l s).1
unfolding add_signal_handler
add_signal_handler-IsSettled m sig entry l s alive h =
    let hs = set_at s.handlers l (put sig entry (s.handlers l)) in
    let os = set_at s.owners sig (some l) in
    let published = record s { handlers = hs; owners = os } in
    install-IsSettled m (find sig (s.handlers l)) (s.owners sig) sig l
      (attach_wakeup_fd true m.attach m.while_attaching l published)
      (attach_wakeup_fd-Answered true m.attach m.while_attaching l published
        (Ready-beside l none s s.disposition os hs h) alive)
