-- ===== src/Instrumentation/Latch.antt =====
-- What one sample does.
use zuvloop.Instrumentation.Sampling.{
  metrics_answer, arm_metrics, arm_monitoring, set_gauge, monitored_by, publish_if, sample_if,
  metrics_provider_installed, publish_metrics, on_sample, instrumentation_provider_installed,
  published_one, Sample, Sampled,
}
use zuvloop.Loop.Running.{LoopState}
use zuvloop.Base.{
  refl, ap, ℕ, ◌≡◌, Bool, true, false, not, ◌||◌, List, [], ◌∷◌, ◌++◌, arith, if◌then◌else◌, Result,
  ok, err,
}

-- A provider is there, if the question for it is answered.
abbrev pub is_there : Result Bool → Bool
is_there (ok b) = b
is_there (err e) = false

-- A sample that returns has published the snapshot exactly if the metrics are armed, and the callbacks are timed
-- exactly if they are armed; one that raises has published a beginning.
abbrev pub Publishes : Sample → List (ℕ × ℕ) → LoopState → Sampled → Type 0
Publishes w snapshot s ((ok u, values), s') =
    (values ≡ (if s'.metrics_armed then snapshot else []))
    × (s'.monitoring ≡ s'.monitoring_armed)
    × (s'.monitoring_armed
        ≡ (s.monitoring_armed || is_there (instrumentation_provider_installed w.tracer w.meter)))
    × (s'.metrics_armed ≡ (s.metrics_armed || is_there (metrics_provider_installed w.meter)))
Publishes w snapshot s ((err e, values), s') = (rest : List (ℕ × ℕ)) × (values ++ rest ≡ snapshot)

-- What was armed stays armed.
abbrev pub Keeps : LoopState → LoopState → Type 0
Keeps s s' =
    ((not s.monitoring_armed || s'.monitoring_armed) ≡ true)
    × ((not s.metrics_armed || s'.metrics_armed) ≡ true)

abbrev pub IsSampled : Sample → List (ℕ × ℕ) → LoopState → Sampled → Type 0
IsSampled w snapshot s end = Publishes w snapshot s end × Keeps s end.1

-- All values, or those before the one that raised.
abbrev Values : List (ℕ × ℕ) → Result (Unit {0}) × List (ℕ × ℕ) → Type 0
Values snapshot (ok u, values) = values ≡ snapshot
Values snapshot (err e, values) = (rest : List (ℕ × ℕ)) × (values ++ rest ≡ snapshot)

published_one-Values :
    (r : Result (Unit {0})) (item : ℕ × ℕ) (later : Result (Unit {0}) × List (ℕ × ℕ))
    (snapshot : List (ℕ × ℕ))
    → Values snapshot later
    → Values (item ∷ snapshot) (published_one r item later)
published_one-Values (err e) item later snapshot h = (item ∷ snapshot, refl)
published_one-Values (ok u) item (ok v, values) snapshot h = ap (λ l. item ∷ l) h
published_one-Values (ok u) item (err e, values) snapshot (rest, h) = (rest, ap (λ l. item ∷ l) h)

publish_metrics-Values :
    (gauges : List ℕ) (answers : ℕ → Result (Unit {0})) (snapshot : List (ℕ × ℕ))
    → Values snapshot (publish_metrics gauges answers snapshot)
unfolding publish_metrics
publish_metrics-Values gauges answers [] = refl
publish_metrics-Values gauges answers ((name, value) ∷ snapshot) =
    published_one-Values (set_gauge gauges (answers name) name) (name, value)
      (publish_metrics gauges answers snapshot) snapshot
      (publish_metrics-Values gauges answers snapshot)

module _ (w : Sample) (snapshot : List (ℕ × ℕ)) (s : LoopState) where
  -- What holds of the state once the metrics were looked at.
  record IsArmed (s' : LoopState) : Type 0 where
    timed : s'.monitoring ≡ s'.monitoring_armed
    monitoring :
        s'.monitoring_armed
        ≡ (s.monitoring_armed || is_there (instrumentation_provider_installed w.tracer w.meter))
    metrics : s'.metrics_armed ≡ (s.metrics_armed || is_there (metrics_provider_installed w.meter))

  published-IsSampled :
      (end : Result (Unit {0}) × List (ℕ × ℕ)) (s' : LoopState)
      → s'.metrics_armed ≡ true
      → IsArmed s'
      → Values snapshot end
      → IsSampled w snapshot s (end, s')
  published-IsSampled (ok u, values) s' m h v = (
    (rw m v, h.timed, h.monitoring, h.metrics),
    (ground (arith, h.monitoring), ground (arith, h.metrics)),
  )
  published-IsSampled (err e, values) s' m h v =
      (v, (ground (arith, h.monitoring), ground (arith, h.metrics)))

  publish_if-IsSampled :
      (armed : Bool) (s' : LoopState)
      → s'.metrics_armed ≡ armed
      → IsArmed s'
      → IsSampled w snapshot s (publish_if armed w snapshot s')
  publish_if-IsSampled true s' m h =
      published-IsSampled (publish_metrics w.gauges w.set_value snapshot) s' m h
        (publish_metrics-Values w.gauges w.set_value snapshot)
  publish_if-IsSampled false s' m h = (
    (rw m refl, h.timed, h.monitoring, h.metrics),
    (ground (arith, h.monitoring), ground (arith, h.metrics)),
  )

  -- The state before the metrics are looked at.
  arm_metrics-IsSampled :
      (before : Bool) (answer : Result Bool) (s' : LoopState)
      → s.metrics_armed ≡ before
      → s'.metrics_armed ≡ before
      → metrics_provider_installed w.meter ≡ answer
      → s'.monitoring ≡ s'.monitoring_armed
      → s'.monitoring_armed
        ≡ (s.monitoring_armed || is_there (instrumentation_provider_installed w.tracer w.meter))
      → IsSampled w snapshot s (arm_metrics (metrics_answer before w) w snapshot s')
  arm_metrics-IsSampled true answer s' b b' a t m =
      publish_if-IsSampled true (record s' { metrics_armed = true }) refl
        (record { timed = t; monitoring = m; metrics = ground (arith, b) })
  arm_metrics-IsSampled false (ok armed) s' b b' a t m = rw a (
      publish_if-IsSampled armed (record s' { metrics_armed = armed }) refl
        (record { timed = t; monitoring = m; metrics = ground (arith, b, a) }))
  arm_metrics-IsSampled false (err e) s' b b' a t m =
      rw a ((snapshot, refl), (ground (arith, m), ground (arith, b)))

  monitored_by-IsSampled :
      (set : Result (Unit {0}))
      → is_there (instrumentation_provider_installed w.tracer w.meter) ≡ true
      → IsSampled w snapshot s (monitored_by set w snapshot (record s { monitoring_armed = true }))
  monitored_by-IsSampled (err e) p = ((snapshot, refl), (ground arith, ground arith))
  monitored_by-IsSampled (ok u) p =
      arm_metrics-IsSampled s.metrics_armed (metrics_provider_installed w.meter)
        (record s { monitoring_armed = true; monitoring = true }) refl refl refl refl
        (ground (arith, p))

  arm_monitoring-IsSampled :
      (answer : Result Bool)
      → instrumentation_provider_installed w.tracer w.meter ≡ answer
      → s.monitoring_armed ≡ false
      → s.monitoring ≡ s.monitoring_armed
      → IsSampled w snapshot s (arm_monitoring answer w snapshot s)
  arm_monitoring-IsSampled (err e) p n t = ((snapshot, refl), (ground arith, ground arith))
  arm_monitoring-IsSampled (ok true) p n t = monitored_by-IsSampled w.set_monitoring (rw p refl)
  arm_monitoring-IsSampled (ok false) p n t =
      arm_metrics-IsSampled s.metrics_armed (metrics_provider_installed w.meter) s refl refl refl t
        (ground (arith, p, n))

  sample_if-IsSampled :
      (armed : Bool)
      → s.monitoring_armed ≡ armed
      → s.monitoring ≡ s.monitoring_armed
      → IsSampled w snapshot s (sample_if armed w snapshot s)
  sample_if-IsSampled true a t =
      arm_metrics-IsSampled s.metrics_armed (metrics_provider_installed w.meter) s refl refl refl t
        (ground (arith, a))
  sample_if-IsSampled false a t =
      arm_monitoring-IsSampled (instrumentation_provider_installed w.tracer w.meter) refl a t

  -- When callbacks are timed exactly if they are armed, as `run_forever` leaves it: a sample that returns keeps this,
  -- has armed what was armed or has a provider now, and has published its snapshot exactly if the metrics are
  -- armed; one that raises has published a beginning of it; and what was armed stays armed.
  pub on_sample_latch :
      s.monitoring ≡ s.monitoring_armed → IsSampled w snapshot s (on_sample w snapshot s)
  unfolding on_sample
  on_sample_latch t = sample_if-IsSampled s.monitoring_armed refl t
