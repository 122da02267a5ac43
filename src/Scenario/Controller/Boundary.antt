-- ===== src/Scenario/Controller/Boundary.antt =====
-- `advance_boundary` and `frame_plan` of src/scenario.rs.
pub mod Window
pub mod Active
pub mod Advance
pub mod Plan
use c37_118_simulator.Prelude.{
  ℕ, ◌+◌, ◌-◌, Bool, true, false, not, ◌&&◌, ◌||◌, Option, none, some, List, [], ◌∷◌, length, ltb,
  leb, ◌==◌, if◌then◌else◌,
}
use c37_118_simulator.Prelude.Dict.{Dict, lookup, insert, remove}
use c37_118_simulator.Scenario.Types.{
  ScenarioKind, normal, degraded_time, missing_frames, disconnect_pdc, signal_excursion, recovery,
  ScenarioLifecycle, transient, sustained, SignalExcursion, ScenarioTarget, endpoint, pdc,
  target_key,
}
use c37_118_simulator.Scenario.Controller.{
  StoredScenarioAction, activate, clear, PendingScenarioAction, ActiveScenarioAction,
  ScenarioController, non_monotonic_boundary, Outcome, done, panicked, M, ◌>>=◌, ◌>>◌, return, get,
  guard, bump_revision,
}

-- `u64::checked_sub`
abbrev pub checked_sub : ℕ → ℕ → Option ℕ
checked_sub m n = if leb n m then some (m - n) else none

unfoldable pub is_effective_at : ActiveScenarioAction → ℕ → Bool
is_effective_at active sample_index =
    elim (checked_sub sample_index active.first_eligible_boundary) [
      | none ↦ false
      | some elapsed ↦ leb active.scenario.start_frame_offset elapsed
    ]

-- The end of `is_expired_at`: nothing where `expect` ends the process.
abbrev outlasts : Option ℕ → ℕ → Option Bool
outlasts none elapsed_since_start = none
outlasts (some duration) elapsed_since_start = some (leb duration elapsed_since_start)

unfoldable pub is_expired_at : ActiveScenarioAction → ℕ → Option Bool
is_expired_at active sample_index = elim (checked_sub sample_index active.first_eligible_boundary) [
  | none ↦ some false
  | some elapsed ↦ elim (checked_sub elapsed active.scenario.start_frame_offset) [
    | none ↦ some false
    | some elapsed_since_start ↦ outlasts active.scenario.duration_frames elapsed_since_start
  ]
]

-- The closure of `retain`: only a transient scenario is asked for its end.
abbrev is_retained_as : ScenarioLifecycle → Option Bool → Option Bool
is_retained_as sustained expired = some true
is_retained_as transient none = none
is_retained_as transient (some expired) = some (not expired)

unfoldable pub is_retained : ActiveScenarioAction → ℕ → Option Bool
is_retained active sample_index =
    is_retained_as active.scenario.lifecycle (is_expired_at active sample_index)

abbrev pub keep :
    ScenarioTarget
    → ActiveScenarioAction
    → Option Bool
    → Option (Dict ScenarioTarget ActiveScenarioAction)
    → Option (Dict ScenarioTarget ActiveScenarioAction)
keep t a none rest = none
keep t a (some keeps) none = none
keep t a (some true) (some m) = some ((t, a) ∷ m)
keep t a (some false) (some m) = some m

-- `self.active.retain(…)`
unfoldable pub retain_active :
    ℕ → Dict ScenarioTarget ActiveScenarioAction → Option (Dict ScenarioTarget ActiveScenarioAction)
retain_active sample_index [] = some []
retain_active sample_index ((t, a) ∷ m) =
    keep t a (is_retained a sample_index) (retain_active sample_index m)

abbrev pub with_active : Option (Dict ScenarioTarget ActiveScenarioAction) → M (Unit {0})
with_active none c = panicked
with_active (some m) c = done (record c { active = m }) tt

unfoldable pub expire_transient_actions : ℕ → M (Unit {0})
expire_transient_actions sample_index c = with_active (retain_active sample_index c.active) c

abbrev pub activated :
    PendingScenarioAction → ℕ → StoredScenarioAction → Option ActiveScenarioAction
activated q sample_index (activate scenario) = some (record {
  scenario = scenario;
  actor_label = q.actor_label;
  first_eligible_boundary = sample_index;
})
activated q sample_index clear = none

abbrev pub write :
    ScenarioTarget
    → Option ActiveScenarioAction
    → Dict ScenarioTarget ActiveScenarioAction
    → Dict ScenarioTarget ActiveScenarioAction
write t none m = remove t m
write t (some a) m = insert t a m

-- `for (target, action) in pending`
unfoldable pub apply_pending :
    ℕ
    → Dict ScenarioTarget PendingScenarioAction
    → Dict ScenarioTarget ActiveScenarioAction
    → Dict ScenarioTarget ActiveScenarioAction
apply_pending sample_index [] active = active
apply_pending sample_index ((t, q) ∷ pending) active =
    apply_pending sample_index pending (write t (activated q sample_index q.action) active)

unfoldable pub check_boundary : Option ℕ → ℕ → M (Unit {0})
check_boundary none sample_index c = done c tt
check_boundary (some previous) sample_index c =
    guard (ltb previous sample_index) (non_monotonic_boundary previous sample_index) c

abbrev pub take_pending : ℕ → ScenarioController → ScenarioController
take_pending sample_index c = record c {
  current_sample_index = some sample_index;
  pending = [];
  active = apply_pending sample_index c.pending c.active;
}

abbrev pub bump_if : Bool → M (Unit {0})
bump_if true c = bump_revision c
bump_if false c = done c tt

-- Everything after the queued actions are applied.
unfoldable pub settle : ℕ → Bool → M (Unit {0})
settle sample_index changed_lifecycle_records c =
    (expire_transient_actions sample_index >>= λ _ c'.
    bump_if (changed_lifecycle_records || not (length c'.active == length c.active)) c')
      c

unfoldable pub advance_boundary : ℕ → M (Unit {0})
advance_boundary sample_index = do
  c ← get
  check_boundary c.current_sample_index sample_index
  λ c'. settle sample_index (not (length c'.pending == 0)) (take_pending sample_index c')

pub record FramePlan : Type 0 where
  pub degraded_time : Bool
  pub omit_data : Bool
  pub signal : Option SignalExcursion
  pub disconnect_pdc_connection_ids : List ℕ

abbrev pub default_plan : FramePlan
default_plan = record {
  degraded_time = false;
  omit_data = false;
  signal = none;
  disconnect_pdc_connection_ids = [];
}

-- What the scenario of an endpoint does to its frame.
abbrev pub plan_effect : ScenarioKind → Option SignalExcursion → FramePlan → FramePlan
plan_effect degraded_time signal plan = record plan { degraded_time = true }
plan_effect missing_frames signal plan = record plan { omit_data = true }
plan_effect signal_excursion signal plan = record plan { signal = signal }
plan_effect kind signal plan = plan

unfoldable pub endpoint_plan : Option ActiveScenarioAction → ℕ → FramePlan
endpoint_plan none sample_index = default_plan
endpoint_plan (some active) sample_index =
    if is_effective_at active sample_index
    then plan_effect active.scenario.kind active.scenario.signal default_plan
    else default_plan

abbrev pub is_disconnect : ScenarioKind → Bool
is_disconnect disconnect_pdc = true
is_disconnect kind = false

abbrev pub cuts : ℕ → ℕ → ScenarioTarget → ActiveScenarioAction → Bool
cuts stream_id sample_index (endpoint s) active = false
cuts stream_id sample_index (pdc s connection) active =
    (s == stream_id) && is_disconnect active.scenario.kind && is_effective_at active sample_index

abbrev pub connection_of : ScenarioTarget → ℕ
connection_of (endpoint s) = 0
connection_of (pdc s connection) = connection

-- `for (target, active) in &self.active`
unfoldable pub disconnected : ℕ → ℕ → Dict ScenarioTarget ActiveScenarioAction → List ℕ
disconnected stream_id sample_index [] = []
disconnected stream_id sample_index ((t, a) ∷ m) =
    let rest = disconnected stream_id sample_index m in
    if cuts stream_id sample_index t a then connection_of t ∷ rest else rest

unfoldable pub frame_plan : ℕ → ScenarioController → FramePlan
frame_plan stream_id c = elim c.current_sample_index [
  | none ↦ default_plan
  | some sample_index ↦ record (endpoint_plan (lookup (endpoint stream_id) c.active) sample_index) {
    disconnect_pdc_connection_ids = disconnected stream_id sample_index c.active;
  }
]
