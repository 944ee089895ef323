-- ===== src/Loop/Accounting.antt =====
-- What becomes of the executors that the loop makes.
use zuvloop.Base.{
  List, ap, ◌+◌, runtime_error, err, ok, ◌≤◌, refl, String, not, if◌then◌else◌, raise_if, length, ℕ,
  ◌≡◌, ◌||◌, Bool, true, false, Option, none, some, [], arith, has, ◌==◌, Result,
}
use zuvloop.Loop.Executors.{
  in_time, raising, drop_default, drop_unless, timed_out, also_replaced, run_if_open, run_default,
  submitted, close_executor, shutdown_executor, end_shutdown, begin_shutdown, set_default_executor,
  default_of, run_in_executor, Executors, Waited,
}

-- Each call, and the thread, in any order. A caller's own executors have numbers too.
pub data Step (s : Executors) : Executors → Type 0 where
  runs : (given : Option ℕ) (submit : Result (Unit {0})) → Step s (run_in_executor given submit s).1
  sets : (executor : ℕ) → Step s (set_default_executor executor s)
  begins : Step s (begin_shutdown s).1
  waits : (w : Waited) (executor : ℕ) → Step s (end_shutdown w executor s).1
  shuts :
      (shutdown call : Result (Unit {0})) (executor : ℕ)
      → Step s (shutdown_executor shutdown call executor s).1
  closes : Step s (close_executor s)

pub data Reach : Executors → Type 0 where
  start :
      (next : ℕ)
      → Reach (record {
        is_closed = false;
        default = none;
        shutdown_called = false;
        next = next;
        made = [];
        shut = [];
        replaced = [];
      })
  later : {s t : Executors} → Reach s → Step s t → Reach t

abbrev pub is_default : ℕ → Option ℕ → Bool
is_default k none = false
is_default k (some executor) = k == executor

-- An executor that the loop made is its default, was told to shut down, or was replaced.
abbrev pub IsAccounted : ℕ → Executors → Type 0
IsAccounted k s =
    (not (has k s.made) || (is_default k s.default || (has k s.shut || has k s.replaced))) ≡ true

default_of-IsAccounted :
    (k : ℕ) (default : Option ℕ) (s : Executors)
    → s.default ≡ default
    → IsAccounted k s
    → IsAccounted k (default_of default s).1
default_of-IsAccounted k none s e h = ground (arith, e, h)
default_of-IsAccounted k (some x) s e h = h

submitted-IsAccounted :
    (k : ℕ) (submit : Result (Unit {0})) (end : ℕ × Executors)
    → IsAccounted k end.1
    → IsAccounted k (submitted submit end).1
submitted-IsAccounted k (ok u) (x, s) h = h
submitted-IsAccounted k (err e) (x, s) h = h

run_default-IsAccounted :
    (k : ℕ) (check submit : Result (Unit {0})) (s : Executors)
    → IsAccounted k s
    → IsAccounted k (run_default check submit s).1
run_default-IsAccounted k (ok u) submit s h =
    submitted-IsAccounted k submit (default_of s.default s)
      (default_of-IsAccounted k s.default s refl h)
run_default-IsAccounted k (err e) submit s h = h

run_if_open-IsAccounted :
    (k : ℕ) (check : Result (Unit {0})) (given : Option ℕ) (submit : Result (Unit {0}))
    (s : Executors)
    → IsAccounted k s
    → IsAccounted k (run_if_open check given submit s).1
run_if_open-IsAccounted k (err e) given submit s h = h
run_if_open-IsAccounted k (ok u) (some x) submit s h = submitted-IsAccounted k submit (x, s) h
run_if_open-IsAccounted k (ok u) none submit s h =
    run_default-IsAccounted k
      (raise_if s.shutdown_called (runtime_error "Executor shutdown has been called")) submit s h

replaced-IsAccounted :
    (k executor : ℕ) (default : Option ℕ) (s : Executors)
    → s.default ≡ default
    → IsAccounted k s
    → IsAccounted k
        (record s { default = some executor; replaced = also_replaced default s.replaced })
replaced-IsAccounted k executor none s e h = ground (arith, e, h)
replaced-IsAccounted k executor (some x) s e h = ground (arith, e, h)

end_shutdown-IsAccounted :
    (k : ℕ) (w : Waited) (executor : ℕ) (s : Executors)
    → IsAccounted k s
    → IsAccounted k (end_shutdown w executor s).1
unfolding end_shutdown
end_shutdown-IsAccounted k in_time executor s h = h
end_shutdown-IsAccounted k (timed_out (ok u)) executor s h = ground (arith, h)
end_shutdown-IsAccounted k (timed_out (err e)) executor s h = h
end_shutdown-IsAccounted k (raising e) executor s h = h

drop_default-IsAccounted :
    (k : ℕ) (default : Option ℕ) (s : Executors)
    → s.default ≡ default
    → IsAccounted k s
    → IsAccounted k (drop_default default s)
drop_default-IsAccounted k none s e h = h
drop_default-IsAccounted k (some x) s e h = ground (arith, e, h)

drop_unless-IsAccounted :
    (k : ℕ) (closed : Bool) (s : Executors) → IsAccounted k s → IsAccounted k (drop_unless closed s)
drop_unless-IsAccounted k true s h = h
drop_unless-IsAccounted k false s h = drop_default-IsAccounted k s.default s refl h

Step-IsAccounted : (k : ℕ) {s t : Executors} → Step s t → IsAccounted k s → IsAccounted k t
unfolding run_in_executor set_default_executor begin_shutdown shutdown_executor close_executor
Step-IsAccounted k {s} (runs given submit) h =
    run_if_open-IsAccounted k (raise_if s.is_closed (runtime_error "Event loop is closed")) given
      submit s h
Step-IsAccounted k {s} (sets executor) h = replaced-IsAccounted k executor s.default s refl h
Step-IsAccounted k {s} begins h = h
Step-IsAccounted k {s} (waits w executor) h = end_shutdown-IsAccounted k w executor s h
Step-IsAccounted k {s} (shuts shutdown call executor) h = ground (arith, h)
Step-IsAccounted k {s} closes h = drop_unless-IsAccounted k s.is_closed s h

Reach-IsAccounted : (k : ℕ) {s : Executors} → Reach s → IsAccounted k s
Reach-IsAccounted k (start next) = refl
Reach-IsAccounted k (later r st) = Step-IsAccounted k st (Reach-IsAccounted k r)

-- How many executors one call can make.
abbrev pub allowance : Bool → ℕ
allowance stopped = if stopped then 0 else 1

default_of_made :
    (default : Option ℕ) (s : Executors) → length (default_of default s).1.made ≤ length s.made + 1
default_of_made none s = omega arith
default_of_made (some x) s = omega arith

submitted_made :
    (submit : Result (Unit {0})) (end : ℕ × Executors) → (submitted submit end).1.made ≡ end.1.made
submitted_made (ok u) (x, s) = refl
submitted_made (err e) (x, s) = refl

run_default_made :
    (called : Bool) (submit : Result (Unit {0})) (s : Executors) (m : String)
    → length (run_default (raise_if called (runtime_error m)) submit s).1.made
      ≤ length s.made + allowance called
run_default_made true submit s m = omega arith
run_default_made false submit s m = omega (
  arith,
  default_of_made s.default s,
  ap (λ (l : List ℕ). length l) (submitted_made submit (default_of s.default s)),
)

run_if_open_made :
    (closed : Bool) (given : Option ℕ) (submit : Result (Unit {0})) (s : Executors) (m : String)
    → length (run_if_open (raise_if closed (runtime_error m)) given submit s).1.made
      ≤ length s.made + allowance (s.shutdown_called || closed)
run_if_open_made true given submit s m = ground arith
run_if_open_made false (some x) submit s m =
    omega (arith, ap (λ (l : List ℕ). length l) (submitted_made submit (x, s)))
run_if_open_made false none submit s m =
    ground (arith, run_default_made s.shutdown_called submit s "Executor shutdown has been called")

end_shutdown_made :
    (w : Waited) (executor : ℕ) (s : Executors) → (end_shutdown w executor s).1.made ≡ s.made
unfolding end_shutdown
end_shutdown_made in_time executor s = refl
end_shutdown_made (timed_out (ok u)) executor s = refl
end_shutdown_made (timed_out (err e)) executor s = refl
end_shutdown_made (raising e) executor s = refl

drop_default_made : (default : Option ℕ) (s : Executors) → (drop_default default s).made ≡ s.made
drop_default_made none s = refl
drop_default_made (some x) s = refl

drop_unless_made : (closed : Bool) (s : Executors) → (drop_unless closed s).made ≡ s.made
drop_unless_made true s = refl
drop_unless_made false s = drop_default_made s.default s

Step-made :
    {s t : Executors}
    → Step s t
    → length t.made ≤ length s.made + allowance (s.shutdown_called || s.is_closed)
unfolding run_in_executor set_default_executor begin_shutdown shutdown_executor close_executor
Step-made {s} (runs given submit) =
    run_if_open_made s.is_closed given submit s "Event loop is closed"
Step-made {s} (sets executor) = omega arith
Step-made {s} begins = omega arith
Step-made {s} (waits w executor) =
    omega (arith, ap (λ (l : List ℕ). length l) (end_shutdown_made w executor s))
Step-made {s} (shuts shutdown call executor) = omega arith
Step-made {s} closes = omega (arith, ap (λ (l : List ℕ). length l) (drop_unless_made s.is_closed s))

-- In every state that calls and the shutdown thread can reach in any order, each executor `k` that the loop made
-- is its default executor, was told to shut down or was replaced by `set_default_executor`, so that none
-- is forgotten; and a step makes at most one executor, and none once the shutdown was asked for or the loop
-- is closed.
pub executors-IsAccounted :
    (k : ℕ) {s t : Executors}
    → Reach s
    → Step s t
    → IsAccounted k t
      × (length t.made ≤ length s.made + allowance (s.shutdown_called || s.is_closed))
executors-IsAccounted k r st = (Step-IsAccounted k st (Reach-IsAccounted k r), Step-made st)
