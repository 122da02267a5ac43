-- ===== src/TimeHealth/Tests.antt =====
-- The theorems about src/time_health.rs at small inputs.
use c37_118_simulator.Prelude.{◌≡◌, ◌<◌, ◌+◌, ◌↔◌, true}
use c37_118_simulator.TimeHealth.{
  since_epoch, new_monitor, observe_boundary, is_degraded, observe_boundary_regression,
}

observe_boundary_regression_example :
    (is_degraded
        (observe_boundary
          (observe_boundary (new_monitor 20) (since_epoch 100) true).0
          (since_epoch 70)
          true).1
      ≡ true)
    ↔ (70 + (new_monitor 20).reporting_interval < 100)
observe_boundary_regression_example = observe_boundary_regression (new_monitor 20) 100 70
