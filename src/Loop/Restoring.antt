-- ===== src/Loop/Restoring.antt =====
-- What `run_forever` and `run_until_complete` leave behind.
use mathlib.Core.Path.{subst}
use zuvloop.Base.{
  inr, arith, sym, ap, inl, Option-cases, ◌+◌, ◌>>◌, ◌||◌, ◌∙◌, if◌then◌else◌, refl, some, none,
  ◌&&◌, Option, ℕ, ◌≡◌, not, Bool, true, false, Result, ok, err,
}
use zuvloop.Loop.Running.{
  completed, pending, ensured, done, allowed, result, check_closed, check_runnable, run_forever,
  run_until_complete, Task, finish, armed, metered, entered, sampled, monitored, detached,
  LoopState, Run,
}

abbrev is_err : Result Bool → Bool
is_err (ok b) = false
is_err (err e) = true

-- The questions for a provider, one after the other, raise.
abbrev raises : Result Bool → Result Bool → Bool
raises (err e) metrics = true
raises (ok b) metrics = is_err metrics

-- The run is entered, and a question for a provider raises.
abbrev pub is_stuck : Run → Result (Unit {0}) → Bool
is_stuck w (err e) = false
is_stuck w (ok _) = not (is_err w.attach) && raises w.instrumentation_provider w.metrics_provider

-- The thread's running loop and hooks are those from before, or, if the run is stuck, the loop's own.
abbrev Stands : ℕ → Bool → Option ℕ → ℕ → LoopState → Type 0
Stands self stuck running_loop hooks s =
    (s.running_loop ≡ (if stuck then some self else running_loop))
    × (s.hooks ≡ (if stuck then self else hooks))

-- If the run returned, then so did the C loop.
abbrev HasRun : Run → Result (Unit {0}) → Type 0
HasRun w (ok _) = w.run ≡ ok tt
HasRun w (err e) = Unit

abbrev Ends : Run → ℕ → Bool → Option ℕ → LoopState → Result (Unit {0}) × LoopState → Type 0
Ends w self stuck running_loop s (r, s') =
    Stands self stuck running_loop s.hooks s' × (s'.callbacks ≡ s.callbacks) × HasRun w r

has_run : (w : Run) (r : Result (Unit {0})) → w.run ≡ r → HasRun w r
has_run w (ok u) h = h
has_run w (err e) h = tt

detached-HasRun :
    (w : Run) (r answer : Result (Unit {0})) (s : LoopState)
    → HasRun w r
    → HasRun w (detached r answer s).0
detached-HasRun w r (ok u) s h = h
detached-HasRun w r (err e) s h = tt

detached_kept :
    (r answer : Result (Unit {0})) (s : LoopState)
    → let s' = (detached r answer s).1 in
      (s'.running_loop ≡ s.running_loop) × (s'.hooks ≡ s.hooks) × (s'.callbacks ≡ s.callbacks)
detached_kept r (ok u) s = (refl, refl, refl)
detached_kept r (err e) s = (refl, refl, refl)

sampled-HasRun :
    (w : Run) (start : Result (Unit {0})) (s : LoopState) → HasRun w (sampled start w.run s).0
sampled-HasRun w (err e) s = tt
sampled-HasRun w (ok u) s = has_run w w.run refl

monitored-HasRun :
    (w : Run) (set : Result (Unit {0})) (s : LoopState) → HasRun w (monitored w set s).0
monitored-HasRun w (err e) s = tt
monitored-HasRun w (ok u) s =
    sampled-HasRun w w.start_metrics (record s { monitoring = s.monitoring_armed })

sampled_callbacks :
    (start run : Result (Unit {0})) (s : LoopState)
    → (sampled start run s).1.callbacks ≡ s.callbacks
sampled_callbacks (err e) run s = refl
sampled_callbacks (ok u) run s = refl

monitored_callbacks :
    (w : Run) (set : Result (Unit {0})) (s : LoopState)
    → (monitored w set s).1.callbacks ≡ s.callbacks
monitored_callbacks w (err e) s = refl
monitored_callbacks w (ok u) s =
    sampled_callbacks w.start_metrics w.run (record s { monitoring = s.monitoring_armed })

finish-Ends :
    (w : Run) (self : ℕ) (s : LoopState) (end : Result (Unit {0}) × LoopState)
    → end.1.callbacks ≡ s.callbacks
    → HasRun w end.0
    → Ends w self false none s (finish w s.hooks end)
finish-Ends w self s (r, s') c h =
    let left : LoopState = record s' {
      monitoring = false;
      sampling = false;
      hooks = s.hooks;
      running_loop = none;
    } in
    let kept = detached_kept r w.detach left in
    ((kept.0, kept.1), kept.2 ∙ c, detached-HasRun w r w.detach left h)

metered-Ends :
    (w : Run) (self : ℕ) (answer : Result Bool) (s s' : LoopState)
    → s'.callbacks ≡ s.callbacks
    → s'.running_loop ≡ some self
    → s'.hooks ≡ self
    → Ends w self (is_err answer) none s (metered w s.hooks answer s')
metered-Ends w self (err e) s s' c l h = ((l, h), c, tt)
metered-Ends w self (ok b) s s' c l h =
    let s'' : LoopState = record s' { metrics_armed = b } in
    finish-Ends w self s (monitored w w.set_monitoring s'')
      (monitored_callbacks w w.set_monitoring s'' ∙ c) (monitored-HasRun w w.set_monitoring s'')

armed-Ends :
    (w : Run) (self : ℕ) (answer : Result Bool) (s s' : LoopState)
    → s'.callbacks ≡ s.callbacks
    → s'.running_loop ≡ some self
    → s'.hooks ≡ self
    → Ends w self (raises answer w.metrics_provider) none s (armed w s.hooks answer s')
armed-Ends w self (err e) s s' c l h = ((l, h), c, tt)
armed-Ends w self (ok b) s s' c l h =
    metered-Ends w self w.metrics_provider s (record s' { monitoring_armed = b }) c l h

entered-Ends :
    (w : Run) (self : ℕ) (attach : Result Bool) (s : LoopState)
    → s.running_loop ≡ none
    → Ends w self
        (not (is_err attach) && raises w.instrumentation_provider w.metrics_provider)
        none
        s
        (entered w self attach s)
entered-Ends w self (err e) s n = ((n, refl), refl, tt)
entered-Ends w self (ok b) s n =
    armed-Ends w self w.instrumentation_provider s
      (record s { attached = b || s.attached; running_loop = some self; hooks = self }) refl refl
      refl

check_runnable-none : (s : LoopState) → check_runnable s ≡ ok tt → s.running_loop ≡ none
unfolding check_runnable
check_runnable-none s h = elim (Option-cases s.running_loop) [
  | inl e ↦ e
  | inr (l, e) ↦ ground (arith, h, e)
]

allowed-Ends :
    (w : Run) (self : ℕ) (closed runnable : Result (Unit {0})) (s : LoopState)
    → (runnable ≡ ok tt → s.running_loop ≡ none)
    → Ends w self
        (is_stuck w (closed >> runnable))
        s.running_loop
        s
        (allowed w self (closed >> runnable) s)
allowed-Ends w self (err e) runnable s n = ((refl, refl), refl, tt)
allowed-Ends w self (ok u) (err e) s n = ((refl, refl), refl, tt)
allowed-Ends w self (ok u) (ok v) s n =
    subst (λ l. Ends w self (is_stuck w (ok tt)) l s (entered w self w.attach s)) (sym (n refl))
      (entered-Ends w self w.attach s (n refl))

run_forever-Ends :
    (w : Run) (self : ℕ) (s : LoopState)
    → Ends w self
        (is_stuck w (check_closed s >> check_runnable s))
        s.running_loop
        s
        (run_forever w self s)
unfolding run_forever
run_forever-Ends w self s =
    allowed-Ends w self (check_closed s) (check_runnable s) s (check_runnable-none s)

-- A result is that of the task, after a run that returned.
abbrev HasResult : Run → Task → Result ℕ → Type 0
HasResult w task (ok v) = (task ≡ done (ok v)) × (w.run ≡ ok tt)
HasResult w task (err e) = Unit

abbrev pub Completes : Run → ℕ → Task → Bool → LoopState → Result ℕ × LoopState → Type 0
Completes w self task stuck s (r, s') =
    Stands self stuck s.running_loop s.hooks s' × (s'.callbacks ≡ s.callbacks) × HasResult w task r

result-HasResult : (w : Run) (task : Task) → w.run ≡ ok tt → HasResult w task (result task)
result-HasResult w pending h = tt
result-HasResult w (done (ok v)) h = (refl, h)
result-HasResult w (done (err e)) h = tt

completed-Completes :
    (w : Run) (self : ℕ) (new_task stuck : Bool) (task : Task) (s : LoopState)
    (end : Result (Unit {0}) × LoopState)
    → Ends w self stuck s.running_loop (record s { callbacks = s.callbacks + 1 }) end
    → Completes w self task stuck s (completed new_task task end)
completed-Completes w self new_task stuck task s (ok u, s') (l, c, h) =
    (l, omega (arith, c), result-HasResult w task h)
completed-Completes w self new_task stuck task s (err e, s') (l, c, h) = (l, omega (arith, c), tt)

ensured-Completes :
    (w : Run) (self : ℕ) (new_task : Bool) (task : Task)
    (closed runnable ensure : Result (Unit {0})) (s : LoopState)
    → (closed ≡ check_closed s)
    → (runnable ≡ check_runnable s)
    → Completes w self task
        (is_stuck w (closed >> (runnable >> ensure)))
        s
        (ensured w self new_task task (closed >> (runnable >> ensure)) s)
unfolding check_closed check_runnable
ensured-Completes w self new_task task (err e) runnable ensure s c r = ((refl, refl), refl, tt)
ensured-Completes w self new_task task (ok u) (err e) ensure s c r = ((refl, refl), refl, tt)
ensured-Completes w self new_task task (ok u) (ok v) (err e) s c r = ((refl, refl), refl, tt)
ensured-Completes w self new_task task (ok u) (ok v) (ok x) s c r =
    let s' : LoopState = record s { callbacks = s.callbacks + 1 } in
    let e : is_stuck w (check_closed s' >> check_runnable s') ≡ is_stuck w (ok tt) =
      ap (is_stuck w) (ap (λ m. m >> check_runnable s) (sym c) ∙ sym r) in
    completed-Completes w self new_task (is_stuck w (ok tt)) task s (run_forever w self s') (
      subst (λ b. Ends w self b s.running_loop s' (run_forever w self s')) e
        (run_forever-Ends w self s'))

-- However `run_until_complete` ends: `_stop_when_done` is off the task again; the thread's running loop and its
-- hooks are those from before, unless the run was entered and a question for an OpenTelemetry provider raised,
-- where they stay the loop's own; and a result is that of the task, after a run that returned.
pub run_until_complete_restores :
    (w : Run) (self : ℕ) (new_task : Bool) (ensure : Result (Unit {0})) (task : Task)
    (s : LoopState)
    → Completes w self task
        (is_stuck w (check_closed s >> (check_runnable s >> ensure)))
        s
        (run_until_complete w self new_task ensure task s)
unfolding run_until_complete
run_until_complete_restores w self new_task ensure task s =
    ensured-Completes w self new_task task (check_closed s) (check_runnable s) ensure s refl refl
