-- ===== src/Instrumentation/Sampling.antt =====
-- The tests for providers and `publish_metrics` of `_instrumentation.py`, and `_on_sample` and `_on_slow_callback` of
-- `_base.py`.
use zuvloop.Loop.Running.{LoopState}
use zuvloop.Base.{other, ℕ, Bool, true, false, List, [], ◌∷◌, has, if◌then◌else◌, Result, ok, err}

-- What `get_tracer_provider` gives.
pub data TracerProvider : Type 0 where
  no_tracer proxy_tracer real_tracer : TracerProvider

-- What `get_meter_provider` gives: a proxy has an attribute for the real one, set or None.
pub data MeterProvider : Type 0 where
  no_meter real_meter : MeterProvider
  proxy_meter : Bool → MeterProvider

-- `tracing_provider_installed`
unfoldable pub tracing_provider_installed : Result TracerProvider → Result Bool
tracing_provider_installed (err e) = err e
tracing_provider_installed (ok no_tracer) = ok false
tracing_provider_installed (ok proxy_tracer) = ok false
tracing_provider_installed (ok real_tracer) = ok true

-- `metrics_provider_installed`
unfoldable pub metrics_provider_installed : Result MeterProvider → Result Bool
metrics_provider_installed (err e) = err e
metrics_provider_installed (ok no_meter) = ok false
metrics_provider_installed (ok real_meter) = ok true
metrics_provider_installed (ok (proxy_meter is_set)) = ok is_set

abbrev pub or_else : Result Bool → Result Bool → Result Bool
or_else (err e) later = err e
or_else (ok true) later = ok true
or_else (ok false) later = later

-- `instrumentation_provider_installed`
unfoldable pub instrumentation_provider_installed :
    Result TracerProvider → Result MeterProvider → Result Bool
instrumentation_provider_installed tracer meter =
    or_else (tracing_provider_installed tracer) (metrics_provider_installed meter)

-- `_gauge(name, _GAUGES[name]).set(value)`; a name without a gauge is a KeyError.
abbrev pub set_gauge : List ℕ → Result (Unit {0}) → ℕ → Result (Unit {0})
set_gauge gauges answer name = if has name gauges then answer else err (other 1)

-- One gauge before the later ones, with the names and values that were set.
abbrev pub published_one :
    Result (Unit {0}) → ℕ × ℕ → Result (Unit {0}) × List (ℕ × ℕ) → Result (Unit {0}) × List (ℕ × ℕ)
published_one (err e) item later = (err e, [])
published_one (ok _) item (r, values) = (r, item ∷ values)

-- `publish_metrics`: a snapshot has a name and a value for each gauge.
unfoldable pub publish_metrics :
    List ℕ → (ℕ → Result (Unit {0})) → List (ℕ × ℕ) → Result (Unit {0}) × List (ℕ × ℕ)
publish_metrics gauges answers [] = (ok tt, [])
publish_metrics gauges answers ((name, value) ∷ snapshot) =
    published_one (set_gauge gauges (answers name) name) (name, value)
      (publish_metrics gauges answers snapshot)

-- What one sample meets.
pub record Sample : Type 0 where
  pub tracer : Result TracerProvider
  pub meter : Result MeterProvider
  pub set_monitoring : Result (Unit {0})
  pub gauges : List ℕ
  pub set_value : ℕ → Result (Unit {0})

abbrev pub Sampled : Type 0
Sampled = (Result (Unit {0}) × List (ℕ × ℕ)) × LoopState

abbrev pub publish_if : Bool → Sample → List (ℕ × ℕ) → LoopState → Sampled
publish_if true w snapshot s = (publish_metrics w.gauges w.set_value snapshot, s)
publish_if false w snapshot s = ((ok tt, []), s)

abbrev pub arm_metrics : Result Bool → Sample → List (ℕ × ℕ) → LoopState → Sampled
arm_metrics (err e) w snapshot s = ((err e, []), s)
arm_metrics (ok armed) w snapshot s =
    publish_if armed w snapshot (record s { metrics_armed = armed })

abbrev pub metrics_answer : Bool → Sample → Result Bool
metrics_answer true w = ok true
metrics_answer false w = metrics_provider_installed w.meter

abbrev pub monitored_by : Result (Unit {0}) → Sample → List (ℕ × ℕ) → LoopState → Sampled
monitored_by (err e) w snapshot s = ((err e, []), s)
monitored_by (ok _) w snapshot s =
    arm_metrics (metrics_answer s.metrics_armed w) w snapshot (record s { monitoring = true })

abbrev pub arm_monitoring : Result Bool → Sample → List (ℕ × ℕ) → LoopState → Sampled
arm_monitoring (err e) w snapshot s = ((err e, []), s)
arm_monitoring (ok true) w snapshot s =
    monitored_by w.set_monitoring w snapshot (record s { monitoring_armed = true })
arm_monitoring (ok false) w snapshot s = arm_metrics (metrics_answer s.metrics_armed w) w snapshot s

abbrev pub sample_if : Bool → Sample → List (ℕ × ℕ) → LoopState → Sampled
sample_if true w snapshot s = arm_metrics (metrics_answer s.metrics_armed w) w snapshot s
sample_if false w snapshot s =
    arm_monitoring (instrumentation_provider_installed w.tracer w.meter) w snapshot s

-- `_on_sample`
unfoldable pub on_sample : Sample → List (ℕ × ℕ) → LoopState → Sampled
on_sample w snapshot s = sample_if s.monitoring_armed w snapshot s
