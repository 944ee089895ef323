-- ===== src/Instrumentation/Bounds.antt =====
-- What a report can emit and raise.
use zuvloop.Base.{
  ◌∙◌, false, zero, ap, true, suc, err, refl, is_exit, Bool, some, ok, ◌>>=◌, ◌≡◌, none, ◌-◌,
  Option, Exception, ◌++◌, Result, leb→le, length-append, length-take, take, length, leb, ℕ, ◌≤◌,
  inl, inr, Bool-cases, List, [], ◌∷◌, arith,
}
use zuvloop.Instrumentation.Defs.{
  cpu_of, capture_call_graph, recorded, repr_failed, spanned, span_end, traced_if, swallow, counted,
  bounded_graph, contained, emit, span, Attributes, Telemetry, report_slow_callback, safe_repr,
  Emitted, max_attribute_length, bounded,
}
use zuvloop.Base.Int.{ℤ}
use zuvloop.Loop.Escaping.{EscapesOnlyExit}

bounded-le : (value : List ℕ) → length (bounded value) ≤ max_attribute_length
unfolding bounded
bounded-le value = elim (Bool-cases (leb (length value) max_attribute_length)) [
  | inl h ↦ rw h (leb→le (length value) max_attribute_length h)
  | inr h ↦
      rw h (omega (arith, length-append (take 4095 value) (0x2026 ∷ []), length-take 4095 value))
]

take-take_append :
    (n : ℕ) (value more : List ℕ) → n ≤ length value → take n (take n value ++ more) ≡ take n value
take-take_append zero value more h = refl
take-take_append (suc n) [] more h = absurd (omega (arith, h))
take-take_append (suc n) (x ∷ value) more h =
    ap (λ l. x ∷ l) (take-take_append n value more (omega (arith, h)))

-- A text that is not too long is kept, and of any other the first characters.
bounded_keeps :
    (value : List ℕ)
    → take (max_attribute_length - 1) (bounded value) ≡ take (max_attribute_length - 1) value
unfolding bounded
bounded_keeps value = elim (Bool-cases (leb (length value) max_attribute_length)) [
  | inl h ↦ rw h refl
  | inr h ↦ rw h (take-take_append 4095 value (0x2026 ∷ []) (ground (arith, h)))
]

-- The texts of a span fit.
abbrev GraphFits : Option (List ℕ) → Type 0
GraphFits none = Unit
GraphFits (some graph) = length graph ≤ max_attribute_length

abbrev pub IsBounded : Attributes → Type 0
IsBounded a = (length a.callback ≤ max_attribute_length) × GraphFits a.call_graph

-- What is emitted begins the list.
abbrev pub Begins : List Emitted → List Emitted → Type 0
Begins emitted all = (rest : List Emitted) × (emitted ++ rest ≡ all)

emit-Begins :
    (m : Emitted) (r : Result (Unit {0})) (later : Result (Unit {0}) × List Emitted)
    (all : List Emitted)
    → Begins later.1 all
    → Begins (emit m r later).1 (m ∷ all)
emit-Begins m (err e) (r, emitted) all h = (all, refl)
emit-Begins m (ok u) (r, emitted) all (rest, h) = (rest, ap (λ l. m ∷ l) h)

-- A span that would be sent, if none is.
abbrev blank : Attributes
blank = record { callback = []; duration = 0; thread = 0; cpu_time = none; call_graph = none }

blank-IsBounded : IsBounded blank
blank-IsBounded = (omega arith, tt)

-- A span with bounded texts and its end, or the beginning of that.
abbrev Spans : Result (Unit {0}) × List Emitted → Type 0
Spans end = (a : Attributes) × IsBounded a × Begins end.1 (span a ∷ span_end ∷ [])

bounded_graph-GraphFits : (graph : Option (List ℕ)) → GraphFits (bounded_graph graph)
bounded_graph-GraphFits none = tt
bounded_graph-GraphFits (some graph) = bounded-le graph

abbrev CallbackFits : Result (Option (List ℕ) × List ℕ) → Type 0
CallbackFits (ok (graph, callback)) = length callback ≤ max_attribute_length
CallbackFits (err e) = Unit

abbrev TextFits : Result (List ℕ) → Type 0
TextFits (ok text) = length text ≤ max_attribute_length
TextFits (err e) = Unit

swallow-TextFits :
    (text : List ℕ) (e : Exception) (b : Bool)
    → length text ≤ max_attribute_length
    → TextFits (swallow text e b)
swallow-TextFits text e true h = tt
swallow-TextFits text e false h = h

spanned-Spans :
    (w : Telemetry) (duration : ℕ) (cpu_time : ℤ) (texts : Result (Option (List ℕ) × List ℕ))
    → (CallbackFits texts)
    → Spans (spanned w duration cpu_time texts)
spanned-Spans w duration cpu_time (err e) h =
    (blank, blank-IsBounded, (span blank ∷ span_end ∷ [], refl))
spanned-Spans w duration cpu_time (ok (graph, callback)) h =
    let a : Attributes = record {
      callback = callback;
      duration = duration;
      thread = w.thread;
      cpu_time = cpu_of cpu_time;
      call_graph = bounded_graph graph;
    } in
    (
      a,
      (h, bounded_graph-GraphFits graph),
      emit-Begins (span a) w.start_span (emit span_end w.end_span (ok tt, [])) (span_end ∷ [])
          (emit-Begins span_end w.end_span (ok tt, []) [] ([], refl)),
    )

safe_repr-TextFits : (name : List ℕ) (repr : Result (List ℕ)) → TextFits (safe_repr name repr)
unfolding safe_repr
safe_repr-TextFits name (ok repr) = bounded-le repr
safe_repr-TextFits name (err e) =
    swallow-TextFits (bounded (repr_failed name)) e (is_exit e) (bounded-le (repr_failed name))

texts-CallbackFits :
    (graph : Result (Option (List ℕ))) (repr : Result (List ℕ))
    → TextFits repr
    → CallbackFits (graph >>= λ g. repr >>= λ callback. ok (g, callback))
texts-CallbackFits (err e) repr h = tt
texts-CallbackFits (ok g) (err e) h = tt
texts-CallbackFits (ok g) (ok callback) h = h

traced_if-Spans :
    (w : Telemetry) (duration : ℕ) (cpu_time : ℤ) (provider : Result Bool)
    → Spans (traced_if w duration cpu_time provider)
traced_if-Spans w duration cpu_time (err e) =
    (blank, blank-IsBounded, (span blank ∷ span_end ∷ [], refl))
traced_if-Spans w duration cpu_time (ok false) =
    (blank, blank-IsBounded, (span blank ∷ span_end ∷ [], refl))
traced_if-Spans w duration cpu_time (ok true) =
    let repr = safe_repr w.type_name w.repr in
    let graph = capture_call_graph w.bound_task w.current_task in
    spanned-Spans w duration cpu_time (graph >>= λ g. repr >>= λ callback. ok (g, callback))
      (texts-CallbackFits graph repr (safe_repr-TextFits w.type_name w.repr))

swallow-EscapesOnlyExit :
    (e : Exception) (b : Bool) → is_exit e ≡ b → EscapesOnlyExit (swallow tt e b)
swallow-EscapesOnlyExit e true h = h
swallow-EscapesOnlyExit e false h = tt

contained-EscapesOnlyExit :
    (end : Result (Unit {0}) × List Emitted)
    → EscapesOnlyExit (contained end).0 × ((contained end).1 ≡ end.1)
contained-EscapesOnlyExit (ok u, emitted) = (tt, refl)
contained-EscapesOnlyExit (err e, emitted) = (swallow-EscapesOnlyExit e (is_exit e) refl, refl)

-- Whatever OpenTelemetry, the handle's `repr` and the call graph do: a report of a slow callback raises nothing
-- but SystemExit and KeyboardInterrupt, and it emits an increment, the duration, a span and the span's end, or
-- the beginning of that; the callback and the call graph in the span have 4096 characters at most.
pub report_slow_callback-IsBounded :
    (w : Telemetry) (duration : ℕ) (cpu_time : ℤ)
    → let (r, emitted) = report_slow_callback w duration cpu_time in
      EscapesOnlyExit r
      × (a : Attributes) × IsBounded a
      × Begins emitted (counted ∷ recorded duration ∷ span a ∷ span_end ∷ [])
unfolding report_slow_callback
report_slow_callback-IsBounded w duration cpu_time =
    let traced = traced_if w duration cpu_time w.provider in
    let recording = emit (recorded duration) w.record_duration traced in
    let (a, fits, begins) = traced_if-Spans w duration cpu_time w.provider in
    let all =
      emit-Begins counted w.add recording (recorded duration ∷ span a ∷ span_end ∷ []) (
        emit-Begins (recorded duration) w.record_duration traced (span a ∷ span_end ∷ []) begins) in
    let (escapes, same) = contained-EscapesOnlyExit (emit counted w.add recording) in
    (escapes, a, fits, (all.0, ap (λ l. l ++ all.0) same ∙ all.1))
