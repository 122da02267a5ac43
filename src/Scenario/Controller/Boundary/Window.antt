-- ===== src/Scenario/Controller/Boundary/Window.antt =====
-- When an active scenario of src/scenario.rs has an effect: `is_effective_at` and `is_expired_at`.
use c37_118_simulator.Prelude.{
  ℕ, ◌+◌, ◌≤◌, ◌<◌, ◌≡◌, ◌↔◌, ◌⊎◌, ◌&&◌, not, refl, Bool, true, some, arith, leb, inl, inr,
}
use c37_118_simulator.Scenario.Types.{transient, sustained, ScenarioLifecycle}
use c37_118_simulator.Scenario.Catalog.Compiled.{IsCompiled}
use c37_118_simulator.Scenario.Controller.{ActiveScenarioAction}
use c37_118_simulator.Scenario.Controller.Boundary.{is_effective_at, is_expired_at, is_retained}

-- An active transient scenario with the duration `d` is kept at a boundary and has its effect there
-- exactly in the `d` boundaries that begin `start_frame_offset` after its first.
pub transient_window :
    (a : ActiveScenarioAction) (d i : ℕ)
    → a.scenario.lifecycle ≡ transient
    → a.scenario.duration_frames ≡ some d
    → ((is_retained a i ≡ some true) × (is_effective_at a i ≡ true)) ↔ (
        (a.first_eligible_boundary + a.scenario.start_frame_offset ≤ i)
        × (i < a.first_eligible_boundary + a.scenario.start_frame_offset + d))
unfolding is_retained is_expired_at is_effective_at
transient_window a d i l h = rw (l, h) (ground arith)

-- An active sustained scenario is kept at every boundary, and has its effect from
-- `start_frame_offset` boundaries after its first on.
pub sustained_window :
    (a : ActiveScenarioAction) (i : ℕ)
    → a.scenario.lifecycle ≡ sustained
    → (is_retained a i ≡ some true)
      × ((is_effective_at a i ≡ true)
          ↔ (a.first_eligible_boundary + a.scenario.start_frame_offset ≤ i))
unfolding is_retained is_effective_at
sustained_window a i l = rw (l) (refl, ground arith)

abbrev ended : ActiveScenarioAction → ℕ → ℕ → Bool
ended a i d =
    leb (a.first_eligible_boundary + a.scenario.start_frame_offset + d) i
    && leb (a.first_eligible_boundary + a.scenario.start_frame_offset) i

is_expired_at_value :
    (a : ActiveScenarioAction) (i d : ℕ)
    → a.scenario.duration_frames ≡ some d
    → is_expired_at a i ≡ some (ended a i d)
unfolding is_expired_at
is_expired_at_value a i d h = rw (h) (ground arith)

-- A scenario from a compiled catalog never ends the process when it is asked for its end.
pub is_retained-IsCompiled :
    (a : ActiveScenarioAction) (i : ℕ)
    → IsCompiled a.scenario
    → (b : Bool) × (is_retained a i ≡ some b)
unfolding is_retained
is_retained-IsCompiled a i k = elim (lifecycle-cases a.scenario.lifecycle) [
  | inl e ↦
      let (d, h, pos) = k.timed e in (not (ended a i d), rw (is_expired_at_value a i d h, e) refl)
  | inr e ↦ (true, rw (e) refl)
]
  where
    lifecycle-cases : (l : ScenarioLifecycle) → (l ≡ transient) ⊎ (l ≡ sustained)
    lifecycle-cases transient = inl refl
    lifecycle-cases sustained = inr refl
