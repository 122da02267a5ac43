-- ===== src/Scenario/Controller/Actions.antt =====
-- The methods of `ScenarioController` in src/scenario.rs that prepare, confirm and cancel actions.
use c37_118_simulator.Prelude.{
  ℕ, ◌+◌, ◌-◌, ◌*◌, ◌/◌, ◌^◌, min, Bool, true, false, not, ◌&&◌, ◌||◌, Option, none, some, List, [],
  ◌∷◌, length, ltb, ◌==◌, if◌then◌else◌,
}
use c37_118_simulator.Prelude.Dict.{Dict, nat_key, lookup, insert, remove, contains_key}
use c37_118_simulator.Scenario.Types.{
  Text, Instant, max_u64, ScenarioKind, disconnect_pdc, ScenarioLifecycle, transient, sustained,
  ScenarioDefinition, ScenarioTarget, endpoint, pdc, stream_id, target_key,
}
use c37_118_simulator.Scenario.Catalog.{valid_name, find_scenario}
use c37_118_simulator.Scenario.Controller.{
  StoredScenarioAction, activate, clear, PreparedScenarioAction, ScenarioController, invalid_target,
  invalid_scenario_name, invalid_actor_label, unknown_scenario, incompatible_target, target_busy,
  target_capacity_exceeded, no_active_scenario, clear_requires_sustained_scenario, unknown_token,
  expired_token, token_space_exhausted, token_expiry_overflow, done, M, ◌>>=◌, ◌>>◌, return, get,
  guard, ok_or, checked_suc, bump_revision,
}

-- `ACTIVATION_TOKEN_TTL`, in nanoseconds.
abbrev pub activation_token_ttl : ℕ
activation_token_ttl = 60 * 10 ^ 9

-- An `Instant` of Linux counts its seconds in an `i64`.
abbrev pub instant_limit : ℕ
instant_limit = 2 ^ 63 * 10 ^ 9

abbrev pub max_scenario_targets : ℕ
max_scenario_targets = 150 * 3

abbrev pub max_scenario_actor_label_bytes : ℕ
max_scenario_actor_label_bytes = 64

pub data ScenarioAction : Type 0 where
  activate_named : Text → ScenarioAction
  clear_target : ScenarioAction

pub record PreparedScenarioSnapshot : Type 0 where
  pub token : ℕ
  pub confirm_expires_in_ms : ℕ
  pub target : ScenarioTarget
  pub action : ScenarioAction
  pub actor_label : Option Text

pub record PendingScenarioSnapshot : Type 0 where
  pub target : ScenarioTarget
  pub action : ScenarioAction
  pub actor_label : Option Text

-- `StoredScenarioAction::snapshot`
unfoldable pub action_snapshot : StoredScenarioAction → ScenarioAction
action_snapshot (activate s) = activate_named s.name
action_snapshot clear = clear_target

-- `Duration::as_millis` of what remains, cut to a `u64`.
unfoldable pub confirmation_expires_in_ms : Instant → Instant → ℕ
confirmation_expires_in_ms expires_at now = min ((expires_at - now) / 10 ^ 6) max_u64

-- `PreparedScenarioAction::snapshot`
unfoldable pub prepared_snapshot : PreparedScenarioAction → ℕ → Instant → PreparedScenarioSnapshot
prepared_snapshot p token now = record {
  token = token;
  confirm_expires_in_ms = confirmation_expires_in_ms p.expires_at now;
  target = p.target;
  action = action_snapshot p.action;
  actor_label = p.actor_label;
}

unfoldable pub validate_controller_target : ScenarioTarget → M (Unit {0})
validate_controller_target target = guard (not (stream_id target == 0)) (invalid_target target)

unfoldable pub validate_controller_name : Text → M (Unit {0})
validate_controller_name name = guard (valid_name name) (invalid_scenario_name name)

abbrev pub label_fits : Option Text → Bool
label_fits none = true
label_fits (some label) = not (ltb max_scenario_actor_label_bytes (length label))

unfoldable pub validate_actor_label : Option Text → M (Unit {0})
validate_actor_label label =
    guard (label_fits label) (invalid_actor_label max_scenario_actor_label_bytes)

abbrev pub is_compatible : ScenarioTarget → ScenarioKind → Bool
is_compatible (pdc s c) disconnect_pdc = true
is_compatible (pdc s c) kind = false
is_compatible (endpoint s) disconnect_pdc = false
is_compatible (endpoint s) kind = true

unfoldable pub validate_scenario_target : ScenarioTarget → ScenarioKind → M (Unit {0})
validate_scenario_target target kind =
    guard (is_compatible target kind) (incompatible_target target kind)

-- A token and its target leave the two maps together.
unfoldable pub drop_prepared : ℕ → PreparedScenarioAction → ScenarioController → ScenarioController
drop_prepared token p c = record c {
  prepared = remove token c.prepared;
  prepared_targets = remove p.target c.prepared_targets;
}

-- The tokens whose time is up at `now`, in the order of the map.
unfoldable pub expired_tokens : Instant → Dict ℕ PreparedScenarioAction → List ℕ
expired_tokens now [] = []
expired_tokens now ((token, p) ∷ m) =
    let rest = expired_tokens now m in if ltb now p.expires_at then rest else token ∷ rest

-- One turn of `for token in expired_tokens`, and the turns that follow.
unfoldable pub discard_found : ℕ → M (Unit {0}) → Option PreparedScenarioAction → M (Unit {0})
discard_found token rest none c = rest c
discard_found token rest (some p) c = (bump_revision >> rest) (drop_prepared token p c)

unfoldable pub discard_tokens : List ℕ → M (Unit {0})
discard_tokens [] c = done c tt
discard_tokens (token ∷ tokens) c =
    discard_found token (discard_tokens tokens) (lookup token c.prepared) c

unfoldable pub discard_expired_preparations : Instant → M (Unit {0})
discard_expired_preparations now c = discard_tokens (expired_tokens now c.prepared) c

-- The keys of a map, put into a set that is a map to nothing.
abbrev add_keys :
    {V : Type 0}
    → Dict ScenarioTarget V
    → Dict ScenarioTarget (Unit {0})
    → Dict ScenarioTarget (Unit {0})
add_keys [] set = set
add_keys ((target, v) ∷ m) set = add_keys m (insert target tt set)

unfoldable pub tracked_target_count : ScenarioController → ℕ
tracked_target_count c =
    length (add_keys c.prepared_targets (add_keys c.pending (add_keys c.active [])))

unfoldable pub tracks_target : ScenarioTarget → ScenarioController → Bool
tracks_target target c =
    contains_key target c.prepared_targets
    || contains_key target c.pending
    || contains_key target c.active

-- `Instant::checked_add`
abbrev pub checked_add_instant : Instant → ℕ → Option Instant
checked_add_instant now duration =
    if ltb (now + duration) instant_limit then some (now + duration) else none

-- What `prepare_action` writes once its checks have passed.
unfoldable pub add_prepared : ℕ → PreparedScenarioAction → ScenarioController → ScenarioController
add_prepared next_token p c = record c {
  next_token = next_token;
  prepared = insert c.next_token p c.prepared;
  prepared_targets = insert p.target c.next_token c.prepared_targets;
}

-- The end of `prepare_action`: the preparation is stored under the token.
abbrev pub store_prepared : PreparedScenarioAction → Instant → ℕ → ℕ → M PreparedScenarioSnapshot
store_prepared p now token next_token = do
  λ c'. bump_revision (add_prepared next_token p c')
  return (prepared_snapshot p token now)

abbrev pub asked_until :
    ScenarioTarget → StoredScenarioAction → Option Text → Instant → PreparedScenarioAction
asked_until target action actor_label expires_at = record {
  target = target;
  action = action;
  actor_label = actor_label;
  expires_at = expires_at;
}

-- The next token, once there is a time to expire at.
abbrev pub take_token :
    PreparedScenarioAction → Instant → ScenarioController → M PreparedScenarioSnapshot
take_token p now c = do
  next_token ← ok_or (checked_suc c.next_token) token_space_exhausted
  store_prepared p now c.next_token next_token

abbrev pub take_time :
    ScenarioTarget
    → StoredScenarioAction
    → Option Text
    → Instant
    → ScenarioController
    → M PreparedScenarioSnapshot
take_time target action actor_label now c = do
  expires_at ← ok_or (checked_add_instant now activation_token_ttl) token_expiry_overflow
  take_token (asked_until target action actor_label expires_at) now c

-- The capacity, once the target is not busy.
abbrev pub take_place :
    ScenarioTarget
    → StoredScenarioAction
    → Option Text
    → Instant
    → ScenarioController
    → M PreparedScenarioSnapshot
take_place target action actor_label now c = do
  guard (tracks_target target c || ltb (tracked_target_count c) max_scenario_targets)
      (target_capacity_exceeded max_scenario_targets)
  take_time target action actor_label now c

abbrev pub is_idle : ScenarioTarget → Bool → ScenarioController → Bool
is_idle target permits_active_target c = not (
    contains_key target c.prepared_targets
    || contains_key target c.pending
    || not permits_active_target && contains_key target c.active)

abbrev pub admit :
    ScenarioTarget
    → StoredScenarioAction
    → Option Text
    → Instant
    → Bool
    → ScenarioController
    → M PreparedScenarioSnapshot
admit target action actor_label now permits_active_target c = do
  guard (is_idle target permits_active_target c) (target_busy target)
  take_place target action actor_label now c

unfoldable pub prepare_action :
    ScenarioTarget
    → StoredScenarioAction
    → Option Text
    → Instant
    → Bool
    → M PreparedScenarioSnapshot
prepare_action target action actor_label now permits_active_target = do
  discard_expired_preparations now
  c ← get
  admit target action actor_label now permits_active_target c

-- The ends of `prepare_activation`, with the scenario found, and before it is looked up.
abbrev pub prepare_known :
    ScenarioTarget → Option Text → Instant → ScenarioDefinition → M PreparedScenarioSnapshot
prepare_known target actor_label now scenario = do
  validate_scenario_target target scenario.kind
  prepare_action target (activate scenario) actor_label now false

abbrev pub prepare_named :
    ScenarioTarget → Text → Option Text → Instant → M PreparedScenarioSnapshot
prepare_named target scenario_name actor_label now = do
  c ← get
  scenario ←
      ok_or (find_scenario scenario_name c.catalog.scenarios) (unknown_scenario scenario_name)
  prepare_known target actor_label now scenario

unfoldable pub prepare_activation :
    ScenarioTarget → Text → Option Text → Instant → M PreparedScenarioSnapshot
prepare_activation target scenario_name actor_label now = do
  validate_controller_target target
  validate_controller_name scenario_name
  validate_actor_label actor_label
  prepare_named target scenario_name actor_label now

abbrev pub is_sustained : ScenarioLifecycle → Bool
is_sustained transient = false
is_sustained sustained = true

-- The check that `prepare_clear` and `confirm` both make of an active scenario.
unfoldable pub check_clear : ScenarioTarget → M (Unit {0})
check_clear target = do
  c ← get
  active ← ok_or (lookup target c.active) (no_active_scenario target)
  guard (is_sustained active.scenario.lifecycle) (clear_requires_sustained_scenario target)

-- The end of `prepare_clear`, once expired preparations are gone.
abbrev pub prepare_clear_of : ScenarioTarget → Option Text → Instant → M PreparedScenarioSnapshot
prepare_clear_of target actor_label now = do
  c ← get
  guard (not (contains_key target c.prepared_targets || contains_key target c.pending))
      (target_busy target)
  check_clear target
  prepare_action target clear actor_label now true

unfoldable pub prepare_clear : ScenarioTarget → Option Text → Instant → M PreparedScenarioSnapshot
prepare_clear target actor_label now = do
  validate_controller_target target
  validate_actor_label actor_label
  discard_expired_preparations now
  prepare_clear_of target actor_label now

-- How `confirm` and `cancel` begin: the token is consumed whatever comes next.
unfoldable pub take_prepared : ℕ → M PreparedScenarioAction
take_prepared token = do
  c ← get
  p ← ok_or (lookup token c.prepared) (unknown_token token)
  λ c'. bump_revision (drop_prepared token p c')
  return p

unfoldable pub check_confirm : ScenarioTarget → StoredScenarioAction → M (Unit {0})
check_confirm target (activate scenario) = do
  c ← get
  guard (not (contains_key target c.pending || contains_key target c.active)) (target_busy target)
check_confirm target clear = do
  c ← get
  guard (not (contains_key target c.pending)) (target_busy target)
  check_clear target

unfoldable pub queue : PreparedScenarioAction → M PendingScenarioSnapshot
queue p c =
    done
      (record c {
        pending =
            insert p.target (record { action = p.action; actor_label = p.actor_label }) c.pending;
      })
      (record { target = p.target; action = action_snapshot p.action; actor_label = p.actor_label })

unfoldable pub confirm : ℕ → Instant → M PendingScenarioSnapshot
confirm token now = do
  p ← take_prepared token
  guard (ltb now p.expires_at) (expired_token token)
  discard_expired_preparations now
  check_confirm p.target p.action
  queue p

unfoldable pub cancel : ℕ → Instant → M PreparedScenarioSnapshot
cancel token now = do
  p ← take_prepared token
  guard (ltb now p.expires_at) (expired_token token)
  discard_expired_preparations now
  return (prepared_snapshot p token now)
