-- ===== src/Loop/Running.antt =====
-- `run_forever` and `run_until_complete` of `_base.py`, up to what the C loop runs.
use zuvloop.Base.{
  cancelled, ◌>>◌, raise_if, runtime_error, ℕ, ◌+◌, ◌-◌, Bool, true, false, ◌&&◌, ◌||◌, Option,
  none, some, is_some, Result, ok, err,
}

-- The loop and the thread that it runs in: the thread's running loop and its hooks for asynchronous generators
-- are numbers, and `callbacks` counts how often `_stop_when_done` is on the task.
pub record LoopState : Type 0 where
  pub is_closed : Bool
  pub is_running : Bool
  pub running_loop : Option ℕ
  pub hooks : ℕ
  pub attached : Bool
  pub monitoring : Bool
  pub sampling : Bool
  pub monitoring_armed : Bool
  pub metrics_armed : Bool
  pub callbacks : ℕ
  pub retrieved : Bool

-- What one run meets: `attach` says whether the wakeup descriptor was attached, `run` how the C loop ends.
pub record Run : Type 0 where
  pub attach : Result Bool
  pub instrumentation_provider : Result Bool
  pub metrics_provider : Result Bool
  pub set_monitoring : Result (Unit {0})
  pub start_metrics : Result (Unit {0})
  pub run : Result (Unit {0})
  pub detach : Result (Unit {0})

unfoldable pub check_closed : LoopState → Result (Unit {0})
check_closed s = raise_if s.is_closed (runtime_error "Event loop is closed")

unfoldable pub check_runnable : LoopState → Result (Unit {0})
check_runnable s =
    raise_if s.is_running (runtime_error "This event loop is already running")
    >> raise_if (is_some s.running_loop)
        (runtime_error "Cannot run the event loop while another loop is running")

-- The `finally`: the last call can raise, and then its exception is the one that is seen.
abbrev pub detached :
    Result (Unit {0}) → Result (Unit {0}) → LoopState → Result (Unit {0}) × LoopState
detached r (ok _) s = (r, record s { attached = false })
detached r (err e) s = (err e, s)

abbrev pub finish : Run → ℕ → Result (Unit {0}) × LoopState → Result (Unit {0}) × LoopState
finish w old_hooks (r, s) =
    detached r w.detach
      (record s { monitoring = false; sampling = false; hooks = old_hooks; running_loop = none })

-- The `try`.
abbrev pub sampled :
    Result (Unit {0}) → Result (Unit {0}) → LoopState → Result (Unit {0}) × LoopState
sampled (err e) run s = (err e, s)
sampled (ok _) run s = (run, record s { sampling = true })

abbrev pub monitored : Run → Result (Unit {0}) → LoopState → Result (Unit {0}) × LoopState
monitored w (err e) s = (err e, s)
monitored w (ok _) s = sampled w.start_metrics w.run (record s { monitoring = s.monitoring_armed })

-- The two questions for a provider, which stand before the `try`.
abbrev pub metered : Run → ℕ → Result Bool → LoopState → Result (Unit {0}) × LoopState
metered w old_hooks (err e) s = (err e, s)
metered w old_hooks (ok armed) s =
    finish w old_hooks (monitored w w.set_monitoring (record s { metrics_armed = armed }))

abbrev pub armed : Run → ℕ → Result Bool → LoopState → Result (Unit {0}) × LoopState
armed w old_hooks (err e) s = (err e, s)
armed w old_hooks (ok answer) s =
    metered w old_hooks w.metrics_provider (record s { monitoring_armed = answer })

-- From the wakeup descriptor on, for the loop with this number.
abbrev pub entered : Run → ℕ → Result Bool → LoopState → Result (Unit {0}) × LoopState
entered w self (err e) s = (err e, s)
entered w self (ok attached) s =
    armed w s.hooks w.instrumentation_provider
      (record s { attached = attached || s.attached; running_loop = some self; hooks = self })

abbrev pub allowed : Run → ℕ → Result (Unit {0}) → LoopState → Result (Unit {0}) × LoopState
allowed w self (err e) s = (err e, s)
allowed w self (ok _) s = entered w self w.attach s

-- `run_forever`
unfoldable pub run_forever : Run → ℕ → LoopState → Result (Unit {0}) × LoopState
run_forever w self s = allowed w self (check_closed s >> check_runnable s) s

-- The task after the run, if it is done with a result or an exception.
pub data Task : Type 0 where
  pending : Task
  done : Result ℕ → Task

-- `task.done() and not task.cancelled()`
abbrev pub is_readable : Task → Bool
is_readable pending = false
is_readable (done (err cancelled)) = false
is_readable (done r) = true

-- `return task.result()`, after the check that there is one.
abbrev pub result : Task → Result ℕ
result pending = err (runtime_error "Event loop stopped before Future completed.")
result (done r) = r

abbrev pub completed : Bool → Task → Result (Unit {0}) × LoopState → Result ℕ × LoopState
completed new_task task (ok _, s) = (result task, record s { callbacks = s.callbacks - 1 })
completed new_task task (err e, s) = (
  err e,
  record s { callbacks = s.callbacks - 1; retrieved = s.retrieved || new_task && is_readable task },
)

abbrev pub ensured : Run → ℕ → Bool → Task → Result (Unit {0}) → LoopState → Result ℕ × LoopState
ensured w self new_task task (err e) s = (err e, s)
ensured w self new_task task (ok _) s =
    completed new_task task (run_forever w self (record s { callbacks = s.callbacks + 1 }))

-- `run_until_complete`: `ensure` is the answer of `ensure_future`, which makes a new task or not, and `task`
-- how the task stands after the run.
unfoldable pub run_until_complete :
    Run → ℕ → Bool → Result (Unit {0}) → Task → LoopState → Result ℕ × LoopState
run_until_complete w self new_task ensure task s =
    ensured w self new_task task (check_closed s >> (check_runnable s >> ensure)) s
