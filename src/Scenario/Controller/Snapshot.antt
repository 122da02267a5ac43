-- ===== src/Scenario/Controller/Snapshot.antt =====
-- The views of `ScenarioController` in src/scenario.rs that its clients read.
use c37_118_simulator.Prelude.{ℕ, Bool, Option, List, map}
use c37_118_simulator.Prelude.Dict.{nat_key, contains_key}
use c37_118_simulator.Scenario.Types.{
  Text, Instant, ScenarioKind, ScenarioLifecycle, ScenarioTarget, target_key,
}
use c37_118_simulator.Scenario.Controller.{
  PreparedScenarioAction, PendingScenarioAction, ActiveScenarioAction, ScenarioController, M, done,
  ◌>>◌,
}
use c37_118_simulator.Scenario.Controller.Actions.{
  PreparedScenarioSnapshot, PendingScenarioSnapshot, prepared_snapshot, action_snapshot,
  discard_expired_preparations,
}

pub record ActiveScenarioSnapshot : Type 0 where
  pub target : ScenarioTarget
  pub scenario_name : Text
  pub kind : ScenarioKind
  pub lifecycle : ScenarioLifecycle
  pub start_frame_offset : ℕ
  pub first_eligible_boundary : ℕ
  pub actor_label : Option Text

pub record ScenarioControllerSnapshot : Type 0 where
  pub current_sample_index : Option ℕ
  pub prepared : List PreparedScenarioSnapshot
  pub pending : List PendingScenarioSnapshot
  pub active : List ActiveScenarioSnapshot

unfoldable pub prepared_actions_at : Instant → ScenarioController → List PreparedScenarioSnapshot
prepared_actions_at now c =
    map (λ (e : ℕ × PreparedScenarioAction). prepared_snapshot e.1 e.0 now) c.prepared

abbrev pub pending_snapshot : ScenarioTarget × PendingScenarioAction → PendingScenarioSnapshot
pending_snapshot (t, q) = record {
  target = t;
  action = action_snapshot q.action;
  actor_label = q.actor_label;
}

unfoldable pub pending_actions : ScenarioController → List PendingScenarioSnapshot
pending_actions c = map pending_snapshot c.pending

abbrev pub active_snapshot : ScenarioTarget × ActiveScenarioAction → ActiveScenarioSnapshot
active_snapshot (t, a) = record {
  target = t;
  scenario_name = a.scenario.name;
  kind = a.scenario.kind;
  lifecycle = a.scenario.lifecycle;
  start_frame_offset = a.scenario.start_frame_offset;
  first_eligible_boundary = a.first_eligible_boundary;
  actor_label = a.actor_label;
}

unfoldable pub active_scenarios : ScenarioController → List ActiveScenarioSnapshot
active_scenarios c = map active_snapshot c.active

unfoldable pub has_active_target : ScenarioTarget → ScenarioController → Bool
has_active_target target c = contains_key target c.active

abbrev pub view : Instant → ScenarioController → ScenarioControllerSnapshot
view now c = record {
  current_sample_index = c.current_sample_index;
  prepared = prepared_actions_at now c;
  pending = pending_actions c;
  active = active_scenarios c;
}

-- `ScenarioController::snapshot`
unfoldable pub snapshot : Instant → M ScenarioControllerSnapshot
snapshot now = do discard_expired_preparations now; λ c. done c (view now c)
