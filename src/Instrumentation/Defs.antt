-- ===== src/Instrumentation/Defs.antt =====
-- `Instrumentation`, `_bounded`, `_safe_repr` and `capture_call_graph` of `_instrumentation.py`. A text is the list of
-- its code points.
use zuvloop.Base.Int.{ℤ, pos, negsuc}
use zuvloop.Base.{
  is_exit, leb, take, length, ◌>>=◌, ℕ, ◌-◌, Bool, true, false, Option, none, some, List, [], ◌∷◌,
  ◌++◌, if◌then◌else◌, Exception, Result, ok, err,
}

abbrev pub max_attribute_length : ℕ
max_attribute_length = 4096

-- `_bounded`: a text that is cut ends in an ellipsis.
unfoldable pub bounded : List ℕ → List ℕ
bounded value =
    if leb (length value) max_attribute_length
    then value
    else take (max_attribute_length - 1) value ++ (0x2026 ∷ [])

-- `except SystemExit, KeyboardInterrupt: raise` and `except BaseException`.
abbrev pub swallow {ℓ} : {A : Type ℓ} → A → Exception → Bool → Result A
swallow otherwise e true = err e
swallow otherwise e false = ok otherwise

-- The text that stands in for a `repr` that raised.
abbrev pub repr_failed : List ℕ → List ℕ
repr_failed name =
    b'<' ∷ name
    ++ (b' ' ∷ b'r' ∷ b'e' ∷ b'p' ∷ b'r' ∷ b' ' ∷ b'f' ∷ b'a' ∷ b'i' ∷ b'l' ∷ b'e' ∷ b'd' ∷ b'>'
        ∷ [])

-- `_safe_repr`, of a value whose type has this name.
unfoldable pub safe_repr : List ℕ → Result (List ℕ) → Result (List ℕ)
safe_repr name (ok repr) = ok (bounded repr)
safe_repr name (err e) = swallow (bounded (repr_failed name)) e (is_exit e)

-- A task: done, with its name and the place of its coroutine as a text, or not, with what
-- `format_call_graph` answers.
pub data CallTask : Type 0 where
  done : List ℕ → CallTask
  unfinished : Result (List ℕ) → CallTask

abbrev pub graph_of : CallTask → Result (Option (List ℕ))
graph_of (done description) = ok (some description)
graph_of (unfinished graph) = graph >>= λ text. ok (some text)

abbrev pub graph_if : Option CallTask → Result (Option (List ℕ))
graph_if none = ok none
graph_if (some task) = graph_of task

-- `capture_call_graph`: the task that the handle's callback is bound to, or else the current one.
unfoldable pub capture_call_graph :
    Option CallTask → Result (Option CallTask) → Result (Option (List ℕ))
capture_call_graph (some task) current = graph_of task
capture_call_graph none current = current >>= graph_if

-- The attributes of a span that are not constant.
pub record Attributes : Type 0 where
  pub callback : List ℕ
  pub duration : ℕ
  pub thread : ℕ
  pub cpu_time : Option ℤ
  pub call_graph : Option (List ℕ)

-- What is handed to OpenTelemetry: an increment, with the type of an exception or without, a duration, a
-- span and its end.
pub data Emitted : Type 0 where
  counted : Emitted
  counted_error : Option (List ℕ) → Emitted
  recorded : ℕ → Emitted
  span : Attributes → Emitted
  span_end : Emitted

-- What the calls of `report_slow_callback` answer.
pub record Telemetry : Type 0 where
  pub add : Result (Unit {0})
  pub record_duration : Result (Unit {0})
  pub provider : Result Bool
  pub bound_task : Option CallTask
  pub current_task : Result (Option CallTask)
  pub type_name : List ℕ
  pub repr : Result (List ℕ)
  pub start_span : Result (Unit {0})
  pub end_span : Result (Unit {0})
  pub thread : ℕ

-- A call with what it emits, before the later ones.
abbrev pub emit :
    Emitted
    → Result (Unit {0})
    → Result (Unit {0}) × List Emitted
    → Result (Unit {0}) × List Emitted
emit m (err e) later = (err e, m ∷ [])
emit m (ok _) (r, emitted) = (r, m ∷ emitted)

abbrev pub bounded_graph : Option (List ℕ) → Option (List ℕ)
bounded_graph none = none
bounded_graph (some graph) = some (bounded graph)

abbrev pub cpu_of : ℤ → Option ℤ
cpu_of (pos n) = some (pos n)
cpu_of (negsuc n) = none

-- The span, once its attributes are there.
abbrev pub spanned :
    Telemetry → ℕ → ℤ → Result (Option (List ℕ) × List ℕ) → Result (Unit {0}) × List Emitted
spanned w duration cpu_time (err e) = (err e, [])
spanned w duration cpu_time (ok (graph, callback)) =
    emit
      (span (record {
        callback = callback;
        duration = duration;
        thread = w.thread;
        cpu_time = cpu_of cpu_time;
        call_graph = bounded_graph graph;
      }))
      w.start_span (emit span_end w.end_span (ok tt, []))

abbrev pub traced_if : Telemetry → ℕ → ℤ → Result Bool → Result (Unit {0}) × List Emitted
traced_if w duration cpu_time (err e) = (err e, [])
traced_if w duration cpu_time (ok false) = (ok tt, [])
traced_if w duration cpu_time (ok true) = spanned w duration cpu_time (
    capture_call_graph w.bound_task w.current_task >>= λ graph.
    safe_repr w.type_name w.repr >>= λ callback. ok (graph, callback))

-- The `except` clauses.
abbrev pub contained : Result (Unit {0}) × List Emitted → Result (Unit {0}) × List Emitted
contained (ok _, emitted) = (ok tt, emitted)
contained (err e, emitted) = (swallow tt e (is_exit e), emitted)

-- `report_slow_callback`
unfoldable pub report_slow_callback : Telemetry → ℕ → ℤ → Result (Unit {0}) × List Emitted
report_slow_callback w duration cpu_time = contained (
    emit counted w.add
      (emit (recorded duration) w.record_duration (traced_if w duration cpu_time w.provider)))

-- `report_exception`: the context's exception, if it is one, with the name of its type.
unfoldable pub report_exception :
    Option (List ℕ) → Result (Unit {0}) → Result (Unit {0}) × List Emitted
report_exception error_type add = contained (emit (counted_error error_type) add (ok tt, []))
