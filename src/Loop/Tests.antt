-- ===== src/Loop/Tests.antt =====
-- The theorems on running a loop and on reporting at concrete data.
use zuvloop.Base.{
  ◌>>◌, none, Bool, true, Result, runtime_error, false, value_error, refl, ◌≡◌, some, [], ◌∷◌,
  Exception, ok, err,
}
use zuvloop.Loop.Restoring.{is_stuck, Completes, run_until_complete_restores}
use zuvloop.Loop.Running.{
  LoopState, Run, pending, done, run_until_complete, run_forever, check_closed, check_runnable,
}
use zuvloop.Loop.Escaping.{reporting_escapes, EscapesOnlyExit}
use zuvloop.Loop.Reporting.{custom, reported, call_exception_handler, Handler}

abbrev broken : Handler
broken c = err (value_error "broken")

abbrev logging : Handler
logging c = ok tt

reporting_escapes_example :
    EscapesOnlyExit (call_exception_handler (some broken) logging (reported 1)).0
reporting_escapes_example = reporting_escapes (some broken) logging (reported 1)

interrupted_handler :
    call_exception_handler (some (λ c. err Exception.keyboard_interrupt)) logging (reported 1)
    ≡ (err Exception.keyboard_interrupt, custom (reported 1) ∷ [])
unfolding call_exception_handler
interrupted_handler = refl

-- A loop that does not run, in a thread with other hooks.
abbrev idle : LoopState
idle = record {
  is_closed = false;
  is_running = false;
  running_loop = none;
  hooks = 3;
  attached = false;
  monitoring = false;
  sampling = false;
  monitoring_armed = false;
  metrics_armed = false;
  callbacks = 0;
  retrieved = false;
}

abbrev run_with : Result Bool → Run
run_with provider = record {
  attach = ok true;
  instrumentation_provider = provider;
  metrics_provider = ok false;
  set_monitoring = ok tt;
  start_metrics = ok tt;
  run = ok tt;
  detach = ok tt;
}

runs_through :
    run_until_complete (run_with (ok false)) 7 true (ok tt) (done (ok 42)) idle ≡ (ok 42, idle)
unfolding run_until_complete run_forever check_closed check_runnable
runs_through = refl

-- After a provider that cannot be loaded, the thread cannot run a loop.
refused_after :
    let stuck =
      (run_until_complete
        (run_with (err (runtime_error "provider")))
        7
        true
        (ok tt)
        pending
        idle).1 in
    (run_until_complete (run_with (ok false)) 7 true (ok tt) (done (ok 42)) stuck).0
    ≡ err (runtime_error "Cannot run the event loop while another loop is running")
unfolding run_until_complete run_forever check_closed check_runnable
refused_after = refl

run_until_complete_restores_example :
    Completes
      (run_with (ok false))
      7
      (done (ok 42))
      (is_stuck (run_with (ok false)) (check_closed idle >> (check_runnable idle >> ok tt)))
      idle
      (run_until_complete (run_with (ok false)) 7 true (ok tt) (done (ok 42)) idle)
run_until_complete_restores_example =
    run_until_complete_restores (run_with (ok false)) 7 true (ok tt) (done (ok 42)) idle
