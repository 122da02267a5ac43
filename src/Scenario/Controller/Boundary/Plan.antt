-- ===== src/Scenario/Controller/Boundary/Plan.antt =====
-- `frame_plan` of src/scenario.rs, read off the map of active scenarios.
use c37_118_simulator.Prelude.{
  ℕ, ◌≡◌, ◌↔◌, refl, Bool, true, false, ◌&&◌, ◌||◌, Option, none, some, List, [], ◌∷◌, arith, ◌==◌,
}
use c37_118_simulator.Prelude.Dict.{Dict, lookup, Sorted, lookup-After}
use c37_118_simulator.Scenario.Types.{
  ScenarioKind, degraded_time, missing_frames, ScenarioTarget, endpoint, pdc, target_key,
}
use c37_118_simulator.Scenario.Controller.{ActiveScenarioAction, ScenarioController}
use c37_118_simulator.Scenario.Controller.Boundary.{
  is_effective_at, endpoint_plan, is_disconnect, disconnected, frame_plan,
}

abbrev pub contains : ℕ → List ℕ → Bool
contains n [] = false
contains n (m ∷ ms) = (n == m) || contains n ms

-- Whether an active scenario disconnects at the boundary `i`.
abbrev pub disconnects : ℕ → Option ActiveScenarioAction → Bool
disconnects i none = false
disconnects i (some a) = is_disconnect a.scenario.kind && is_effective_at a i

contains-disconnected :
    (s n i : ℕ) (m : Dict ScenarioTarget ActiveScenarioAction)
    → Sorted m
    → contains n (disconnected s i m) ≡ disconnects i (lookup (pdc s n) m)
unfolding disconnected lookup
contains-disconnected s n i [] h = refl
contains-disconnected s n i ((endpoint u, a) ∷ m) h = contains-disconnected s n i m h.1
contains-disconnected s n i ((pdc u d, a) ∷ m) h =
    ground (arith, contains-disconnected s n i m h.1, lookup-After (pdc u d) m h.0)

-- An endpoint's scenario has the kind `kind` and its effect at the boundary `i`.
abbrev pub Shows : ScenarioKind → ℕ → Option ActiveScenarioAction → Type 0
Shows kind i o =
    (a : ActiveScenarioAction) × (o ≡ some a)
    × (a.scenario.kind ≡ kind)
    × (is_effective_at a i ≡ true)

effect-Shows :
    (i : ℕ) (o : Option ActiveScenarioAction)
    → (((endpoint_plan o i).omit_data ≡ true) ↔ Shows missing_frames i o)
      × (((endpoint_plan o i).degraded_time ≡ true) ↔ Shows degraded_time i o)
unfolding endpoint_plan
effect-Shows i none = (ground arith, ground arith)
effect-Shows i (some a) = (
  ((λ h. (a, refl, ground arith, ground arith)), λ h. ground arith),
  ((λ h. (a, refl, ground arith, ground arith)), λ h. ground arith),
)

-- The plan of a stream at a boundary disconnects exactly the connections whose target has an
-- active scenario that disconnects and has its effect there, where the map of active scenarios is
-- in the order of its keys.
pub frame_plan-disconnects :
    (s n i : ℕ) (c : ScenarioController)
    → Sorted c.active
    → c.current_sample_index ≡ some i
    → contains n (frame_plan s c).disconnect_pdc_connection_ids
      ≡ disconnects i (lookup (pdc s n) c.active)
unfolding frame_plan
frame_plan-disconnects s n i c sorted e = rw (e) (contains-disconnected s n i c.active sorted)

-- The plan of a stream at a boundary omits the data exactly where the scenario that is active for
-- the endpoint is one of missing frames and has its effect there, and degrades the time exactly
-- where it is one of degraded time.
pub frame_plan-Shows :
    (s i : ℕ) (c : ScenarioController)
    → c.current_sample_index ≡ some i
    → (((frame_plan s c).omit_data ≡ true) ↔ Shows missing_frames i (lookup (endpoint s) c.active))
      × (((frame_plan s c).degraded_time ≡ true)
          ↔ Shows degraded_time i (lookup (endpoint s) c.active))
unfolding frame_plan
frame_plan-Shows s i c e = rw (e) (effect-Shows i (lookup (endpoint s) c.active))
