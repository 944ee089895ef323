-- ===== src/Instrumentation/Tests.antt =====
-- The theorems on telemetry at concrete data.
use zuvloop.Base.{ℕ, ◌≡◌, refl, true, false, none, some, List, [], ◌∷◌, ok, err, system_exit, other}
use zuvloop.Base.Int.{pos, negsuc}
use zuvloop.Loop.Running.{LoopState}
use zuvloop.Loop.Escaping.{EscapesOnlyExit}
use zuvloop.Instrumentation.Defs.{
  Attributes, Telemetry, report_slow_callback, report_exception, capture_call_graph, safe_repr,
  bounded, done, counted, counted_error, recorded, span, span_end,
}
use zuvloop.Instrumentation.Bounds.{IsBounded, Begins, report_slow_callback-IsBounded}
use zuvloop.Instrumentation.Sampling.{
  Sample, on_sample, publish_metrics, instrumentation_provider_installed,
  tracing_provider_installed, metrics_provider_installed, proxy_tracer, proxy_meter,
}
use zuvloop.Instrumentation.Latch.{IsSampled, on_sample_latch}

-- A handle whose `repr` raises, in a task that is done.
abbrev failing_repr : Telemetry
failing_repr = record {
  add = ok tt;
  record_duration = ok tt;
  provider = ok true;
  bound_task = some (done (b'T' ∷ []));
  current_task = ok none;
  type_name = b'H' ∷ [];
  repr = err (other 3);
  start_span = ok tt;
  end_span = ok tt;
  thread = 7;
}

abbrev sent : Attributes
sent = record {
  callback =
      b'<' ∷ b'H' ∷ b' ' ∷ b'r' ∷ b'e' ∷ b'p' ∷ b'r' ∷ b' ' ∷ b'f' ∷ b'a' ∷ b'i' ∷ b'l' ∷ b'e'
      ∷ b'd' ∷ b'>' ∷ [];
  duration = 2;
  thread = 7;
  cpu_time = none;
  call_graph = some (b'T' ∷ []);
}

stands_in :
    report_slow_callback failing_repr 2 (negsuc 0)
    ≡ (ok tt, counted ∷ recorded 2 ∷ span sent ∷ span_end ∷ [])
unfolding report_slow_callback capture_call_graph safe_repr bounded
stands_in = refl

-- The handle's `repr` leaves the interpreter: there is no span.
leaves :
    report_slow_callback (record failing_repr { repr = err (system_exit) }) 2 (pos 1)
    ≡ (err (system_exit), counted ∷ recorded 2 ∷ [])
unfolding report_slow_callback capture_call_graph safe_repr bounded
leaves = refl

report_slow_callback-IsBounded_example :
    let (r, emitted) = report_slow_callback failing_repr 2 (negsuc 0) in
    EscapesOnlyExit r
    × (a : Attributes) × IsBounded a
    × Begins emitted (counted ∷ recorded 2 ∷ span a ∷ span_end ∷ [])
report_slow_callback-IsBounded_example = report_slow_callback-IsBounded failing_repr 2 (negsuc 0)

counts_an_error :
    report_exception (some (b'E' ∷ [])) (err (other 1))
    ≡ (ok tt, counted_error (some (b'E' ∷ [])) ∷ [])
unfolding report_exception
counts_an_error = refl

-- A provider of meters that was set, and a value without a gauge.
abbrev metered : Sample
metered = record {
  tracer = ok proxy_tracer;
  meter = ok (proxy_meter true);
  set_monitoring = ok tt;
  gauges = 1 ∷ 2 ∷ [];
  set_value = λ name. ok tt;
}

abbrev unarmed : LoopState
unarmed = record {
  is_closed = false;
  is_running = true;
  running_loop = some 1;
  hooks = 1;
  attached = true;
  monitoring = false;
  sampling = true;
  monitoring_armed = false;
  metrics_armed = false;
  callbacks = 0;
  retrieved = false;
}

abbrev readings : List (ℕ × ℕ)
readings = (1, 30) ∷ (3, 40) ∷ []

arms_and_publishes : on_sample metered readings unarmed ≡ (
  (err (other 1), (1, 30) ∷ []),
  record unarmed { monitoring = true; monitoring_armed = true; metrics_armed = true },
)
unfolding on_sample publish_metrics instrumentation_provider_installed tracing_provider_installed
    metrics_provider_installed
arms_and_publishes = refl

on_sample_latch_example : IsSampled metered readings unarmed (on_sample metered readings unarmed)
on_sample_latch_example = on_sample_latch metered readings unarmed refl
