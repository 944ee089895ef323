-- ===== src/Signals/Undoing.antt =====
-- `add_signal_handler` undone: by its own roll-back, and by `remove_signal_handler`.
use zuvloop.Signals.Defs.{no_fd, default_action, csock, set_at, run_cleanups, is_finalized, Process}
use zuvloop.Signals.Wakeup.{
  detach_wakeup_fd, WakeupState, attach_answered, restore_wakeup_fd, attach_wakeup_fd, is_empty,
}
use mathlib.Core.Path.{sym, subst}
use zuvloop.Signals.Handlers.{
  remove_signal_handler, uncatchable, add_signal_handler, roll_back, owner_back, put_back, Meeting,
}
use zuvloop.Base.{
  ◌∙◌, err, ok, Exception, Bool, ap, find-put, find-remove, put, find, refl, ℕ, ◌≡◌, inl, inr, true,
  false, Option, none, some, List, [], ◌∷◌, arith, Option-cases, Result,
}

-- No clean-up comes between; `taken` is whether the system takes the previous descriptor back.
abbrev pub quiet : Bool → Result (Unit {0}) → Result (Unit {0}) → Meeting
quiet taken attach install = record {
  attach = attach;
  install = install;
  fd_taken = taken;
  while_attaching = [];
  before_install = [];
  while_owner = [];
  while_fd = [];
}

-- Two states that no call can tell apart, but for which order the handlers' dicts have: at each signal, loop
-- and for the descriptor.
pub record IsAlike (s s' : Process) : Type 0 where
  pub same_fd : s'.wakeup_fd ≡ s.wakeup_fd
  pub same_fd_owner : s'.fd_owner ≡ s.fd_owner
  pub same_disposition : (sig : ℕ) → s'.disposition sig ≡ s.disposition sig
  pub same_owner : (sig : ℕ) → s'.owners sig ≡ s.owners sig
  pub same_handler : (l sig : ℕ) → find sig (s'.handlers l) ≡ find sig (s.handlers l)
  pub same_attached : (l : ℕ) → s'.attached l ≡ s.attached l

is_empty-put : (k v : ℕ) (d : List (ℕ × ℕ)) → is_empty (put k v d) ≡ false
is_empty-put k v [] = refl
is_empty-put k v ((j, w) ∷ d) = ground arith

find-put_back :
    (sig entry j : ℕ) (d : List (ℕ × ℕ))
    → find j (put_back (find sig d) sig (put sig entry d)) ≡ find j d
find-put_back sig entry j d = elim (Option-cases (find sig d)) [
  | inl e ↦ rw e (ground (arith, find-remove sig j (put sig entry d), find-put sig j entry d))
  | inr (old, e) ↦
      rw e (ground (arith, find-put sig j old (put sig entry d), find-put sig j entry d))
]

owner_put_back :
    (owner : Option ℕ) (sig : ℕ) (s : Process)
    → is_finalized owner s.finalized ≡ false
    → owner_back owner [] sig s ≡ record s { owners = set_at s.owners sig owner }
unfolding run_cleanups
owner_put_back none sig s f = refl
owner_put_back (some k) sig s f = rw f refl

abbrev handlers_back : Option ℕ → ℕ → ℕ → Process → ℕ → List (ℕ × ℕ)
handlers_back entry sig l s = set_at s.handlers l (put_back entry sig (s.handlers l))

-- The roll-back where nothing is finalized.
roll_back-quiet :
    (taken : Bool) (a i : Result (Unit {0})) (entry owner : Option ℕ) (saved : Option WakeupState)
    (sig l : ℕ) (s : Process)
    → is_finalized owner s.finalized ≡ false
    → roll_back (quiet taken a i) entry owner saved sig l s
      ≡ restore_wakeup_fd saved taken [] l
          (record s { handlers = handlers_back entry sig l s; owners = set_at s.owners sig owner })
unfolding roll_back
roll_back-quiet taken a i entry owner saved sig l s f = rw f (
    ap (λ t. restore_wakeup_fd saved taken [] l t)
      (owner_put_back owner sig (record s { handlers = handlers_back entry sig l s }) f))

restore-quiet :
    (w : WakeupState) (l : ℕ) (s : Process)
    → is_finalized w.owner s.finalized ≡ false
    → restore_wakeup_fd (some w) true [] l s ≡ record s {
      wakeup_fd = w.fd;
      fd_owner = w.owner;
      attached = set_at s.attached l w.was_attached;
    }
unfolding restore_wakeup_fd run_cleanups
restore-quiet w l s f = rw f (rw f refl)

attach-quiet :
    (a : Result (Unit {0})) (l : ℕ) (s : Process)
    → is_empty (s.handlers l) ≡ false
    → attach_wakeup_fd true a [] l s
      ≡ attach_answered a s.fd_owner (s.attached l) l (record s { fd_owner = some l })
unfolding attach_wakeup_fd run_cleanups
attach-quiet a l s e = rw e refl

-- The state that a failed call leaves, written out.
abbrev undone : ℕ → ℕ → ℕ → Process → Process
undone sig entry l s =
    let hs = set_at s.handlers l (put sig entry (s.handlers l)) in
    record s {
      handlers = set_at hs l (put_back (find sig (s.handlers l)) sig (hs l));
      owners = set_at (set_at s.owners sig (some l)) sig (s.owners sig);
    }

put_back-IsAlike :
    (sig entry l : ℕ) (s : Process) (attached : ℕ → Bool)
    → ((k : ℕ) → attached k ≡ s.attached k)
    → IsAlike s (record (undone sig entry l s) { attached = attached })
put_back-IsAlike sig entry l s attached a = record {
  same_fd = refl;
  same_fd_owner = refl;
  same_disposition = λ j. refl;
  same_owner = λ j. ground arith;
  same_handler = λ k j. ground (arith, find-put_back sig entry j (s.handlers l));
  same_attached = a;
}

module _ (sig entry l : ℕ) (s : Process) (fine : is_finalized (s.owners sig) s.finalized ≡ false)
    (fine_fd : is_finalized s.fd_owner s.finalized ≡ false) where
  published : Process
  published = record s {
    handlers = set_at s.handlers l (put sig entry (s.handlers l));
    owners = set_at s.owners sig (some l);
  }

  attached_published :
      (a : Result (Unit {0}))
      → attach_wakeup_fd true a [] l published
        ≡ attach_answered a s.fd_owner (s.attached l) l (record published { fd_owner = some l })
  unfolding published
  attached_published a =
      attach-quiet a l published (ground (arith, is_empty-put sig entry (s.handlers l)))

  attach_refused :
      (taken : Bool) (e : Exception) (i : Result (Unit {0}))
      → add_signal_handler (quiet taken (err e) i) sig entry l s
        ≡ (err uncatchable, undone sig entry l s)
  unfolding add_signal_handler published restore_wakeup_fd
  attach_refused taken e i = rw (attached_published (err e)) (
      rw fine_fd (
        ap (λ t. (err uncatchable, t))
          (roll_back-quiet taken (err e) i (find sig (s.handlers l)) (s.owners sig) none sig l
            published fine)))

  install_refused :
      (e : Exception)
      → add_signal_handler (quiet true (ok tt) (err e)) sig entry l s ≡ (
        err uncatchable,
        record (undone sig entry l s) {
          attached = set_at (set_at s.attached l true) l (s.attached l);
        },
      )
  unfolding add_signal_handler published run_cleanups
  install_refused e =
      let w : WakeupState = record {
        fd = s.wakeup_fd;
        owner = s.fd_owner;
        was_attached = s.attached l;
      } in
      let busy = record published {
        fd_owner = some l;
        wakeup_fd = csock l;
        attached = set_at s.attached l true;
      } in
      rw (attached_published (ok tt)) (
        ap (λ t. (err uncatchable, t))
          (roll_back-quiet true (ok tt) (err e) (find sig (s.handlers l)) (s.owners sig) (some w)
              sig l busy fine
            ∙ restore-quiet w l
                (record busy {
                  handlers = handlers_back (find sig (s.handlers l)) sig l busy;
                  owners = set_at busy.owners sig (s.owners sig);
                })
                fine_fd))

  -- When no clean-up comes between, and neither the signal's owner nor the descriptor's is finalized: an
  -- `add_signal_handler` that the system refuses, at the descriptor, or at the signal where it then takes the
  -- previous wakeup descriptor back, raises RuntimeError, and leaves each signal's disposition, owner and handlers, the wakeup descriptor with its
  -- owner and what each loop notes of it as they were.
  pub add_signal_handler_refused :
      (taken : Bool) (e : Exception) (i : Result (Unit {0}))
      → let refused = add_signal_handler (quiet taken (err e) i) sig entry l s in
        let refused' = add_signal_handler (quiet true (ok tt) (err e)) sig entry l s in
        (refused.0 ≡ err uncatchable)
        × IsAlike s refused.1
        × (refused'.0 ≡ err uncatchable)
        × IsAlike s refused'.1
  add_signal_handler_refused taken e i = (
    ap (λ r. r.0) (attach_refused taken e i),
    subst (λ r. IsAlike s r.1) (sym (attach_refused taken e i))
        (put_back-IsAlike sig entry l s s.attached (λ k. refl)),
    ap (λ r. r.0) (install_refused e),
    subst (λ r. IsAlike s r.1) (sym (install_refused e))
        (put_back-IsAlike sig entry l s (set_at (set_at s.attached l true) l (s.attached l))
          (λ k. ground arith)),
  )

-- For a loop without handlers and a signal that has no owner and the default action, where no clean-up comes
-- between and the system takes it: after `add_signal_handler` and `remove_signal_handler`, which
-- returns True, each signal has the disposition and the owner that it had, and the loop has no handler
-- and holds no descriptor.
pub remove-add_signal_handler :
    (resets : ℕ → Bool) (sig entry l j : ℕ) (s : Process)
    → resets sig ≡ true
    → s.handlers l ≡ []
    → s.owners sig ≡ none
    → s.disposition sig ≡ default_action
    → let added = add_signal_handler (quiet true (ok tt) (ok tt)) sig entry l s in
      let gone = remove_signal_handler true resets sig l added.1 in
      (added.0 ≡ ok tt)
      × (gone.0 ≡ ok true)
      × (gone.1.disposition j ≡ s.disposition j)
      × (gone.1.owners j ≡ s.owners j)
      × (gone.1.handlers l ≡ [])
      × (gone.1.attached l ≡ false)
      × (gone.1.fd_owner ≡ none)
      × (gone.1.wakeup_fd ≡ no_fd)
unfolding add_signal_handler remove_signal_handler attach_wakeup_fd detach_wakeup_fd run_cleanups
remove-add_signal_handler resets sig entry l j s takes empty free default_is = ground arith
