-- ===== src/Scenario/Controller.antt =====
-- `ScenarioController` of src/scenario.rs: its state, and the monad that its methods run in.
pub mod Actions
pub mod Invariant
pub mod Post
pub mod Discard
pub mod Confirm
pub mod Tokens
pub mod Prepare
pub mod PrepareClear
pub mod Snapshot
pub mod Boundary
pub mod Calls
use c37_118_simulator.Prelude.{
  ℕ, ◌+◌, ◌≡◌, Bool, true, false, Option, none, some, List, [], ltb, if◌then◌else◌,
}
use c37_118_simulator.Prelude.Dict.{Dict}
use c37_118_simulator.Scenario.Types.{
  Text, Instant, max_u64, ScenarioKind, ScenarioDefinition, ScenarioCatalog, ScenarioTarget,
  target_key,
}

pub data StoredScenarioAction : Type 0 where
  activate : ScenarioDefinition → StoredScenarioAction
  clear : StoredScenarioAction

pub record PreparedScenarioAction : Type 0 where
  pub target : ScenarioTarget
  pub action : StoredScenarioAction
  pub actor_label : Option Text
  pub expires_at : Instant

pub record PendingScenarioAction : Type 0 where
  pub action : StoredScenarioAction
  pub actor_label : Option Text

pub record ActiveScenarioAction : Type 0 where
  pub scenario : ScenarioDefinition
  pub actor_label : Option Text
  pub first_eligible_boundary : ℕ

pub record ScenarioController : Type 0 where
  pub catalog : ScenarioCatalog
  pub prepared : Dict ℕ PreparedScenarioAction
  pub prepared_targets : Dict ScenarioTarget ℕ
  pub pending : Dict ScenarioTarget PendingScenarioAction
  pub active : Dict ScenarioTarget ActiveScenarioAction
  pub current_sample_index : Option ℕ
  pub next_token : ℕ
  pub revision : ℕ

pub data ScenarioControllerError : Type 0 where
  invalid_target : ScenarioTarget → ScenarioControllerError
  invalid_scenario_name : Text → ScenarioControllerError
  invalid_actor_label : ℕ → ScenarioControllerError
  unknown_scenario : Text → ScenarioControllerError
  incompatible_target : ScenarioTarget → ScenarioKind → ScenarioControllerError
  target_busy : ScenarioTarget → ScenarioControllerError
  target_capacity_exceeded : ℕ → ScenarioControllerError
  no_active_scenario : ScenarioTarget → ScenarioControllerError
  clear_requires_sustained_scenario : ScenarioTarget → ScenarioControllerError
  unknown_token expired_token : ℕ → ScenarioControllerError
  token_space_exhausted token_expiry_overflow : ScenarioControllerError
  non_monotonic_boundary : ℕ → ℕ → ScenarioControllerError

-- A method takes `&mut self`: the controller that it leaves is there on an error too. A failed
-- `expect` ends the process.
pub data Outcome (A : Type 0) : Type 0 where
  done : ScenarioController → A → Outcome A
  failed : ScenarioController → ScenarioControllerError → Outcome A
  panicked : Outcome A

abbrev pub M : Type 0 → Type 0
M A = ScenarioController → Outcome A

abbrev pub bind_outcome : {A B : Type 0} → Outcome A → (A → M B) → Outcome B
bind_outcome (done c a) f = f a c
bind_outcome (failed c e) f = failed c e
bind_outcome panicked f = panicked

infixl 5 ◌>>=◌ ◌>>◌
abbrev pub ◌>>=◌ : {A B : Type 0} → M A → (A → M B) → M B
◌>>=◌ m f c = bind_outcome (m c) f

abbrev pub ◌>>◌ : {B : Type 0} → M (Unit {0}) → M B → M B
m >> k = m >>= λ _. k

abbrev pub return : {A : Type 0} → A → M A
return a c = done c a

abbrev pub get : M ScenarioController
get c = done c c

abbrev pub guard : Bool → ScenarioControllerError → M (Unit {0})
guard true e c = done c tt
guard false e c = failed c e

-- `ok_or`
abbrev pub ok_or : {A : Type 0} → Option A → ScenarioControllerError → M A
ok_or none e c = failed c e
ok_or (some a) e c = done c a

-- `expect`
abbrev pub expect : {A : Type 0} → Option A → M A
expect none c = panicked
expect (some a) c = done c a

-- `u64::checked_add(1)`
abbrev pub checked_suc : ℕ → Option ℕ
checked_suc n = if ltb n max_u64 then some (n + 1) else none

-- `self.revision = self.revision.checked_add(1).expect(…)`
unfoldable pub bump_revision : M (Unit {0})
bump_revision c = (expect (checked_suc c.revision) >>= λ r c. done (record c { revision = r }) tt) c

-- `ScenarioController::new`
unfoldable pub new : ScenarioCatalog → ScenarioController
new catalog = record {
  catalog = catalog;
  prepared = [];
  prepared_targets = [];
  pending = [];
  active = [];
  current_sample_index = none;
  next_token = 1;
  revision = 0;
}
