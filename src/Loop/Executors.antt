-- ===== src/Loop/Executors.antt =====
-- `run_in_executor`, `set_default_executor`, `shutdown_default_executor` and `_shutdown_executor` of `_base.py`.
use zuvloop.Base.{
  false, raise_if, runtime_error, ℕ, ◌+◌, Bool, true, Option, none, some, List, ◌∷◌, Exception,
  Result, ok, err,
}
use zuvloop.Loop.Closing.{finally}

-- The default executor, and whether its shutdown was asked for. An executor is a number; `made` are those that the
-- loop made itself, `shut` those that were told to shut down, and `replaced` those in whose place
-- `set_default_executor` put another.
pub record Executors : Type 0 where
  pub is_closed : Bool
  pub default : Option ℕ
  pub shutdown_called : Bool
  pub next : ℕ
  pub made : List ℕ
  pub shut : List ℕ
  pub replaced : List ℕ

-- The default executor, which is made when there is none.
abbrev pub default_of : Option ℕ → Executors → ℕ × Executors
default_of (some executor) s = (executor, s)
default_of none s =
    (s.next, record s { default = some s.next; next = s.next + 1; made = s.next ∷ s.made })

-- `executor.submit`: the result is the executor that has the work.
abbrev pub submitted : Result (Unit {0}) → ℕ × Executors → Result ℕ × Executors
submitted (ok _) (executor, s) = (ok executor, s)
submitted (err e) (executor, s) = (err e, s)

abbrev pub run_default : Result (Unit {0}) → Result (Unit {0}) → Executors → Result ℕ × Executors
run_default (err e) submit s = (err e, s)
run_default (ok _) submit s = submitted submit (default_of s.default s)

abbrev pub run_if_open :
    Result (Unit {0}) → Option ℕ → Result (Unit {0}) → Executors → Result ℕ × Executors
run_if_open (err e) given submit s = (err e, s)
run_if_open (ok _) (some executor) submit s = submitted submit (executor, s)
run_if_open (ok _) none submit s =
    run_default (raise_if s.shutdown_called (runtime_error "Executor shutdown has been called"))
      submit s

-- `run_in_executor`
unfoldable pub run_in_executor : Option ℕ → Result (Unit {0}) → Executors → Result ℕ × Executors
run_in_executor given submit s =
    run_if_open (raise_if s.is_closed (runtime_error "Event loop is closed")) given submit s

abbrev pub also_replaced : Option ℕ → List ℕ → List ℕ
also_replaced none replaced = replaced
also_replaced (some executor) replaced = executor ∷ replaced

-- `set_default_executor`, of an executor of the caller's.
unfoldable pub set_default_executor : ℕ → Executors → Executors
set_default_executor executor s = record s {
  default = some executor;
  replaced = also_replaced s.default s.replaced;
}

-- `shutdown_default_executor` up to its await: the executor that the new thread shuts down, if there is one.
unfoldable pub begin_shutdown : Executors → Option ℕ × Executors
begin_shutdown s = (s.default, record s { shutdown_called = true })

-- How waiting for the thread ends: it is done, the time is over and the warning has this answer, or the wait
-- raises.
pub data Waited : Type 0 where
  in_time : Waited
  timed_out : Result (Unit {0}) → Waited
  raising : Exception → Waited

abbrev pub tell_shutdown : ℕ → Executors → Executors
tell_shutdown executor s = record s { shut = executor ∷ s.shut }

-- `shutdown_default_executor` after its await. With the thread done it only joins it.
unfoldable pub end_shutdown : Waited → ℕ → Executors → Result (Unit {0}) × Executors
end_shutdown in_time executor s = (ok tt, s)
end_shutdown (timed_out (ok _)) executor s = (ok tt, tell_shutdown executor s)
end_shutdown (timed_out (err e)) executor s = (err e, s)
end_shutdown (raising e) executor s = (err e, s)

-- What the thread makes of `call_soon_threadsafe`: `is_closed` is read after it.
abbrev pub unless_closed : Bool → Result (Unit {0}) → Result (Unit {0})
unless_closed true (err (runtime_error m)) = ok tt
unless_closed is_closed r = r

-- `_shutdown_executor`, the thread.
unfoldable pub shutdown_executor :
    Result (Unit {0}) → Result (Unit {0}) → ℕ → Executors → Result (Unit {0}) × Executors
shutdown_executor shutdown call executor s =
    (finally shutdown (unless_closed s.is_closed call), tell_shutdown executor s)

abbrev pub drop_default : Option ℕ → Executors → Executors
drop_default none s = record s { is_closed = true }
drop_default (some executor) s =
    tell_shutdown executor (record s { is_closed = true; default = none })

abbrev pub drop_unless : Bool → Executors → Executors
drop_unless true s = s
drop_unless false s = drop_default s.default s

-- What `close` of a loop that does not run does about executors.
unfoldable pub close_executor : Executors → Executors
close_executor s = drop_unless s.is_closed s
