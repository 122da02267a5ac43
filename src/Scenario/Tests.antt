-- ===== src/Scenario/Tests.antt =====
-- The theorems about src/scenario.rs at a small catalog and controller.
use c37_118_simulator.Prelude.{
  ◌+◌, ◌≤◌, ◌<◌, ◌≡◌, ◌↔◌, refl, true, none, some, [], ◌∷◌, All, length, arith,
}
use c37_118_simulator.Prelude.Dict.{lookup, nat_key, insert}
use c37_118_simulator.Prelude.Dict.Laws.{lookup-nil}
use c37_118_simulator.Scenario.Types.{
  missing_frames, degraded_time, disconnect_pdc, transient, sustained, ScenarioDefinition,
  ScenarioCatalog, endpoint, pdc, target_key,
}
use c37_118_simulator.Scenario.Catalog.{
  RawScenarioCatalog, raw_missing_frames, raw_transient, compile_catalog, ok, compile_scenarios,
  validate_name, compile_scenario, compile_kind, compile_lifecycle, compile_duration,
  compile_optional_signal,
}
use c37_118_simulator.Scenario.Catalog.Compiled.{IsCompiled, Distinct, compile_catalog_lem}
use c37_118_simulator.Scenario.Controller.{
  activate, PreparedScenarioAction, ActiveScenarioAction, ScenarioController, done, new,
}
use c37_118_simulator.Scenario.Controller.Actions.{confirm, cancel, prepared_snapshot, add_prepared}
use c37_118_simulator.Scenario.Controller.Invariant.{
  Inv, Free, activates, add_prepared-Inv, new-Inv,
}
use c37_118_simulator.Scenario.Controller.Post.{Post}
use c37_118_simulator.Scenario.Controller.Confirm.{queued_snapshot, queue_in}
use c37_118_simulator.Scenario.Controller.Tokens.{
  HasRoom, Confirmed, Spent, confirm_succeeds, confirm_spends_token, cancel_succeeds,
  cancel_spends_token,
}
use c37_118_simulator.Scenario.Controller.Boundary.{is_effective_at, is_retained, frame_plan}
use c37_118_simulator.Scenario.Controller.Boundary.Window.{transient_window}
use c37_118_simulator.Scenario.Controller.Boundary.Plan.{
  contains, disconnects, Shows, frame_plan-disconnects, frame_plan-Shows,
}

-- Two missing frames, from one boundary after the first.
abbrev pub gap : ScenarioDefinition
gap = record {
  name = b'a' ∷ b'-' ∷ b'1' ∷ [];
  kind = missing_frames;
  start_frame_offset = 1;
  lifecycle = transient;
  duration_frames = some 2;
  signal = none;
}

abbrev pub catalog : ScenarioCatalog
catalog = record { version = 1; scenarios = gap ∷ [] }

abbrev pub raw_catalog : RawScenarioCatalog
raw_catalog = record {
  version = 1;
  scenarios =
      record {
        name = b'a' ∷ b'-' ∷ b'1' ∷ [];
        kind = raw_missing_frames;
        start_frame_offset = 1;
        lifecycle = raw_transient;
        duration_frames = some 2;
        signal = none;
      }
      ∷ [];
}

pub gap-IsCompiled : IsCompiled gap
gap-IsCompiled = record {
  named = (omega arith, omega arith, refl);
  timed = λ e. (2, refl, omega arith);
  untimed = λ e. absurd (ground (arith, e));
  silent = λ ne. refl;
  signalled = λ e. absurd (ground (arith, e));
}

abbrev start : ScenarioController
start = new catalog

start-Inv : Inv start
start-Inv = new-Inv catalog (gap-IsCompiled, tt)

abbrev asked : PreparedScenarioAction
asked = record { target = endpoint 7; action = activate gap; actor_label = none; expires_at = 100 }

asked-Free : Free start (endpoint 7) (activate gap)
unfolding new
asked-Free = record {
  not_prepared = lookup-nil (endpoint 7);
  not_pending = lookup-nil (endpoint 7);
  admissible = activates gap gap-IsCompiled (lookup-nil (endpoint 7));
}

abbrev ready : ScenarioController
ready = add_prepared (start.next_token + 1) asked start

ready-Inv : Inv ready
ready-Inv = add_prepared-Inv start asked start-Inv asked-Free

ready-HasRoom : HasRoom ready
unfolding new add_prepared insert
ready-HasRoom = omega arith

ready-known : lookup 1 ready.prepared ≡ some asked
unfolding new add_prepared insert lookup
ready-known = refl

confirm_succeeds_example :
    (c' : ScenarioController) × (confirm 1 50 ready ≡ done c' (queued_snapshot asked))
    × Confirmed ready 1 asked c'
confirm_succeeds_example =
    confirm_succeeds ready 1 asked 50 ready-Inv ready-HasRoom ready-known (omega arith)

confirm_spends_token_example : Post (λ c' _. Spent 1 c') (Spent 1) ⊥ (confirm 1 200 ready)
confirm_spends_token_example = confirm_spends_token ready 1 200 ready-Inv ready-HasRoom

cancel_succeeds_example :
    (c' : ScenarioController) × (cancel 1 50 ready ≡ done c' (prepared_snapshot asked 1 50))
    × (c'.pending ≡ ready.pending)
    × (c'.active ≡ ready.active)
cancel_succeeds_example =
    cancel_succeeds ready 1 asked 50 ready-Inv ready-HasRoom ready-known (omega arith)

cancel_spends_token_example : Post (λ c' _. Spent 1 c') (Spent 1) ⊥ (cancel 1 50 ready)
cancel_spends_token_example = cancel_spends_token ready 1 50 ready-Inv ready-HasRoom

abbrev waiting : ScenarioController
waiting = queue_in asked start

abbrev pub at_five : ScenarioController
at_five = record start {
  current_sample_index = some 5;
  active =
      (endpoint 7, record { scenario = gap; actor_label = none; first_eligible_boundary = 4 }) ∷ [];
}

abbrev pub running : ActiveScenarioAction
running = record { scenario = gap; actor_label = none; first_eligible_boundary = 4 }

transient_window_example :
    ((is_retained running 5 ≡ some true) × (is_effective_at running 5 ≡ true))
    ↔ ((4 + 1 ≤ 5) × (5 < 4 + 1 + 2))
transient_window_example = transient_window running 2 5 refl refl

abbrev held : ActiveScenarioAction
held = record {
  scenario = record gap { lifecycle = sustained; duration_frames = none };
  actor_label = none;
  first_eligible_boundary = 4;
}

frame_plan-Shows_example :
    (((frame_plan 7 at_five).omit_data ≡ true)
      ↔ Shows missing_frames 5 (lookup (endpoint 7) at_five.active))
    × (((frame_plan 7 at_five).degraded_time ≡ true)
        ↔ Shows degraded_time 5 (lookup (endpoint 7) at_five.active))
frame_plan-Shows_example = frame_plan-Shows 7 5 at_five refl

abbrev cut_at_five : ScenarioController
cut_at_five = record start {
  current_sample_index = some 5;
  active =
      (
        pdc 7 3,
        record {
          scenario = record gap { kind = disconnect_pdc };
          actor_label = none;
          first_eligible_boundary = 4;
        },
      )
      ∷ [];
}

frame_plan-disconnects_example :
    contains 3 (frame_plan 7 cut_at_five).disconnect_pdc_connection_ids
    ≡ disconnects 5 (lookup (pdc 7 3) cut_at_five.active)
frame_plan-disconnects_example = frame_plan-disconnects 7 3 5 cut_at_five (tt, tt) refl

pub raw_catalog_compiles : compile_catalog raw_catalog ≡ ok catalog
unfolding compile_catalog compile_scenarios validate_name compile_scenario compile_kind
    compile_lifecycle compile_duration compile_optional_signal
raw_catalog_compiles = refl

compile_catalog_lem_example :
    (catalog.version ≡ 1)
    × (length catalog.scenarios ≡ length raw_catalog.scenarios)
    × (0 < length catalog.scenarios)
    × (length catalog.scenarios ≤ 128)
    × All IsCompiled catalog.scenarios
    × Distinct catalog.scenarios
compile_catalog_lem_example = compile_catalog_lem raw_catalog catalog raw_catalog_compiles
