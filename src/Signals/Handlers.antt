-- ===== src/Signals/Handlers.antt =====
-- `add_signal_handler`, `remove_signal_handler` and what `close` does about signals.
use zuvloop.Signals.Defs.{
  run_cleanups, finish_cleanup, noop_handler, reset, is_owner, is_finalized, set_at, Process,
}
use zuvloop.Signals.Wakeup.{
  restore_wakeup_fd, attach_wakeup_fd, is_empty, detach_wakeup_fd, WakeupState,
}
use zuvloop.Base.{
  value_error, put, keys, find, runtime_error, remove, ℕ, Bool, true, false, not, ◌||◌, Option,
  none, some, List, [], ◌∷◌, if◌then◌else◌, Exception, Result, ok, err,
}

abbrev pub put_back : Option ℕ → ℕ → List (ℕ × ℕ) → List (ℕ × ℕ)
put_back none sig d = remove sig d
put_back (some entry) sig d = put sig entry d

-- What the system answers to the calls of `add_signal_handler`, and the clean-ups that come at four places:
-- while the descriptor is attached, before `signal.signal` answers, while the owner is put back, and
-- while the descriptor is.
pub record Meeting : Type 0 where
  pub attach : Result (Unit {0})
  pub install : Result (Unit {0})
  pub fd_taken : Bool
  pub while_attaching : List (ℕ × (ℕ → Bool))
  pub before_install : List (ℕ × (ℕ → Bool))
  pub while_owner : List (ℕ × (ℕ → Bool))
  pub while_fd : List (ℕ × (ℕ → Bool))

-- The signal's owner in the `except` of `add_signal_handler`. The token that is put back is tested again
-- after the clean-ups.
abbrev pub owner_back : Option ℕ → List (ℕ × (ℕ → Bool)) → ℕ → Process → Process
owner_back none between sig s = record s { owners = set_at s.owners sig none }
owner_back (some k) between sig s =
    if s.finalized k
    then record s { owners = set_at s.owners sig none }
    else (let s' = run_cleanups between s in
        if s'.finalized k
        then reset sig (record s' { owners = set_at s'.owners sig none })
        else record s' { owners = set_at s'.owners sig (some k) })

-- The `except OSError` of `add_signal_handler`.
unfoldable pub roll_back :
    Meeting → Option ℕ → Option ℕ → Option WakeupState → ℕ → ℕ → Process → Process
roll_back m previous_entry previous_owner saved sig l s =
    let s' = if is_finalized previous_owner s.finalized then reset sig s else s in
    let s'' = record s' {
      handlers = set_at s'.handlers l (put_back previous_entry sig (s'.handlers l));
    } in
    restore_wakeup_fd saved m.fd_taken m.while_fd l
      (owner_back previous_owner m.while_owner sig s'')

abbrev pub uncatchable : Exception
uncatchable = runtime_error "sig cannot be caught"

-- What `signal.signal(sig, _noop_signal_handler)` answers.
abbrev pub installed :
    Meeting
    → Option ℕ
    → Option ℕ
    → Option WakeupState
    → ℕ
    → ℕ
    → Process
    → Result (Unit {0})
    → Result (Unit {0}) × Process
installed m previous_entry previous_owner saved sig l s (ok _) =
    (ok tt, record s { disposition = set_at s.disposition sig noop_handler })
installed m previous_entry previous_owner saved sig l s (err e) =
    (err uncatchable, roll_back m previous_entry previous_owner saved sig l s)

-- The `try` of `add_signal_handler` from where the descriptor is attached.
abbrev pub install :
    Meeting
    → Option ℕ
    → Option ℕ
    → ℕ
    → ℕ
    → Result (Option WakeupState) × Process
    → Result (Unit {0}) × Process
install m previous_entry previous_owner sig l (err e, s) =
    (err uncatchable, roll_back m previous_entry previous_owner none sig l s)
install m previous_entry previous_owner sig l (ok saved, s) =
    installed m previous_entry previous_owner saved sig l (run_cleanups m.before_install s)
      m.install

-- `add_signal_handler` past its checks, which let only an open loop on the main thread through; what
-- fails is an OSError.
unfoldable pub add_signal_handler : Meeting → ℕ → ℕ → ℕ → Process → Result (Unit {0}) × Process
add_signal_handler m sig entry l s =
    let published = record s {
      handlers = set_at s.handlers l (put sig entry (s.handlers l));
      owners = set_at s.owners sig (some l);
    } in
    install m (find sig (s.handlers l)) (s.owners sig) sig l
      (attach_wakeup_fd true m.attach m.while_attaching l published)

-- The end of `remove_signal_handler`.
abbrev pub forget : Bool → ℕ → ℕ → Process → Process
forget on_main sig l s = detach_wakeup_fd on_main l (record s {
  handlers = set_at s.handlers l (remove sig (s.handlers l));
  owners = if is_owner (s.owners sig) l then set_at s.owners sig none else s.owners;
})

-- The signal's default is put back if the loop owns it, and the system takes it or not.
abbrev pub forgetting : Bool → Bool → Bool → ℕ → ℕ → Process → Result Bool × Process
forgetting true true on_main sig l s = (ok true, forget on_main sig l (reset sig s))
forgetting true false on_main sig l s =
    (err (value_error "signal only works in main thread of the main interpreter"), s)
forgetting false takes on_main sig l s = (ok true, forget on_main sig l s)

abbrev pub removed : Option ℕ → Bool → (ℕ → Bool) → ℕ → ℕ → Process → Result Bool × Process
removed none on_main resets sig l s = (ok false, s)
removed (some entry) on_main resets sig l s =
    forgetting (is_owner (s.owners sig) l) (resets sig) on_main sig l s

-- `remove_signal_handler` of a valid signal; off the main thread `signal.signal` raises.
unfoldable pub remove_signal_handler : Bool → (ℕ → Bool) → ℕ → ℕ → Process → Result Bool × Process
remove_signal_handler on_main resets sig l s =
    removed (find sig (s.handlers l)) on_main resets sig l s

abbrev pub next_removal :
    Result Bool → Process → Result (Unit {0}) × Process → Result (Unit {0}) × Process
next_removal (ok b) s rest = rest
next_removal (err e) s rest = (err e, s)

-- The loop over the signals in `close`.
unfoldable pub remove_all : Bool → (ℕ → Bool) → List ℕ → ℕ → Process → Result (Unit {0}) × Process
remove_all on_main resets [] l s = (ok tt, s)
remove_all on_main resets (sig ∷ sigs) l s =
    let (r, s') = remove_signal_handler on_main resets sig l s in
    next_removal r s' (remove_all on_main resets sigs l s')

-- What the removals leave, at the end of `close`: undone by a clean-up now or, off the main thread, later.
abbrev pub deferred : Bool → (ℕ → Bool) → ℕ → List ℕ → Process → Process
deferred true resets l left s = finish_cleanup resets l left s
deferred false resets l left s = record s { pending = (l, left) ∷ s.pending }

abbrev pub torn_down : Bool → Bool → (ℕ → Bool) → ℕ → Process → Process
torn_down true on_main resets l s =
    deferred on_main resets l (keys (s.handlers l))
      (record s { handlers = set_at s.handlers l []; attached = set_at s.attached l false })
torn_down false on_main resets l s = record s { closed = set_at s.closed l true }

-- What `close` of an open loop does about signals. The result is the exception of the first removal that fails.
unfoldable pub close_signals : Bool → (ℕ → Bool) → ℕ → Process → Result (Unit {0}) × Process
close_signals on_main resets l s =
    let (r, s') =
      remove_all on_main resets (keys (s.handlers l)) l
        (record s { finalized = set_at s.finalized l true }) in
    (r, torn_down (not (is_empty (s'.handlers l)) || s'.attached l) on_main resets l s')
