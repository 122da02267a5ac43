-- ===== src/Scenario/Catalog.antt =====
-- The catalog of src/scenario.rs: `compile_catalog` and what it calls. YAML parsing goes through
-- serde_yaml, so a catalog arrives here as the raw records that it fills.
pub mod Compiled
use c37_118_simulator.Prelude.{
  ℕ, ◌/◌, ◌%◌, ◌^◌, Bool, true, false, not, ◌&&◌, ◌||◌, Option, none, some, List, [], ◌∷◌, ◌++◌,
  length, ltb, leb, ◌==◌, if◌then◌else◌,
}
use c37_118_simulator.Scenario.Types.{
  Text, F32, ScenarioKind, normal, degraded_time, missing_frames, disconnect_pdc, signal_excursion,
  recovery, ScenarioLifecycle, transient, sustained, SignalExcursion, ScenarioDefinition,
  ScenarioCatalog, text_eqb,
}

-- One constructor for each message of `ScenarioCatalogError`.
pub data ScenarioCatalogError : Type 0 where
  unsupported_version no_scenarios too_many_scenarios duplicate_name invalid_name :
      ScenarioCatalogError
  zero_duration missing_duration unexpected_duration : ScenarioCatalogError
  missing_signal unexpected_signal signal_not_finite signal_without_change : ScenarioCatalogError

pub data CatalogResult (A : Type 0) : Type 0 where
  ok : A → CatalogResult A
  err : ScenarioCatalogError → CatalogResult A

infixl 5 ◌>>=◌ ◌>>◌
abbrev ◌>>=◌ : {A B : Type 0} → CatalogResult A → (A → CatalogResult B) → CatalogResult B
ok a >>= f = f a
err e >>= f = err e

abbrev ◌>>◌ : {B : Type 0} → CatalogResult (Unit {0}) → CatalogResult B → CatalogResult B
m >> k = m >>= λ _. k

abbrev guard : Bool → ScenarioCatalogError → CatalogResult (Unit {0})
guard true e = ok tt
guard false e = err e

pub data RawScenarioKind : Type 0 where
  raw_normal raw_degraded_time raw_missing_frames raw_disconnect_pdc raw_signal_excursion
        raw_recovery :
      RawScenarioKind

pub data RawScenarioLifecycle : Type 0 where
  raw_transient raw_sustained : RawScenarioLifecycle

pub record RawSignalExcursion : Type 0 where
  pub voltage_magnitude_delta : F32
  pub frequency_deviation_hz : F32
  pub rocof_hz_per_s : F32

pub record RawScenario : Type 0 where
  pub name : Text
  pub kind : RawScenarioKind
  pub start_frame_offset : ℕ
  pub lifecycle : RawScenarioLifecycle
  pub duration_frames : Option ℕ
  pub signal : Option RawSignalExcursion

pub record RawScenarioCatalog : Type 0 where
  pub version : ℕ
  pub scenarios : List RawScenario

-- `f32::is_finite`: the exponent is not all ones.
abbrev pub is_finite : F32 → Bool
is_finite bits = not (bits / 2 ^ 23 % 256 == 255)

-- `== 0.0`: both zeros.
abbrev pub is_zero : F32 → Bool
is_zero bits = bits % 2 ^ 31 == 0

abbrev pub is_name_byte : ℕ → Bool
is_name_byte b = leb b'a' b && leb b b'z' || leb b'0' b && leb b b'9' || b == b'-'

abbrev pub all_name_bytes : Text → Bool
all_name_bytes [] = true
all_name_bytes (b ∷ bs) = is_name_byte b && all_name_bytes bs

abbrev pub valid_name : Text → Bool
valid_name name = not (length name == 0) && not (ltb 64 (length name)) && all_name_bytes name

unfoldable pub validate_name : Text → CatalogResult (Unit {0})
validate_name name = guard (valid_name name) invalid_name

unfoldable pub compile_signal : RawSignalExcursion → CatalogResult SignalExcursion
compile_signal raw = do
  guard
      (is_finite raw.voltage_magnitude_delta
        && is_finite raw.frequency_deviation_hz
        && is_finite raw.rocof_hz_per_s)
      signal_not_finite
  guard
      (not (
        is_zero raw.voltage_magnitude_delta
        && is_zero raw.frequency_deviation_hz
        && is_zero raw.rocof_hz_per_s))
      signal_without_change
  ok (record {
    voltage_magnitude_delta = raw.voltage_magnitude_delta;
    frequency_deviation_hz = raw.frequency_deviation_hz;
    rocof_hz_per_s = raw.rocof_hz_per_s;
  })

unfoldable pub compile_kind : RawScenarioKind → ScenarioKind
compile_kind raw_normal = normal
compile_kind raw_degraded_time = degraded_time
compile_kind raw_missing_frames = missing_frames
compile_kind raw_disconnect_pdc = disconnect_pdc
compile_kind raw_signal_excursion = signal_excursion
compile_kind raw_recovery = recovery

unfoldable pub compile_lifecycle : RawScenarioLifecycle → ScenarioLifecycle
compile_lifecycle raw_transient = transient
compile_lifecycle raw_sustained = sustained

unfoldable pub compile_duration : ScenarioLifecycle → Option ℕ → CatalogResult (Option ℕ)
compile_duration transient (some duration) =
    if ltb 0 duration then ok (some duration) else err zero_duration
compile_duration transient none = err missing_duration
compile_duration sustained none = ok none
compile_duration sustained (some duration) = err unexpected_duration

abbrev map_some : CatalogResult SignalExcursion → CatalogResult (Option SignalExcursion)
map_some r = r >>= λ s. ok (some s)

unfoldable pub compile_optional_signal :
    ScenarioKind → Option RawSignalExcursion → CatalogResult (Option SignalExcursion)
unfolding compile_signal
compile_optional_signal signal_excursion (some signal) = map_some (compile_signal signal)
compile_optional_signal signal_excursion none = err missing_signal
compile_optional_signal kind (some signal) = err unexpected_signal
compile_optional_signal kind none = ok none

unfoldable pub compile_scenario : RawScenario → CatalogResult ScenarioDefinition
compile_scenario raw = do
  let kind = compile_kind raw.kind
  let lifecycle = compile_lifecycle raw.lifecycle
  duration_frames ← compile_duration lifecycle raw.duration_frames
  signal ← compile_optional_signal kind raw.signal
  ok (record {
    name = raw.name;
    kind = kind;
    start_frame_offset = raw.start_frame_offset;
    lifecycle = lifecycle;
    duration_frames = duration_frames;
    signal = signal;
  })

abbrev pub has_name : Text → List ScenarioDefinition → Bool
has_name name [] = false
has_name name (s ∷ ss) = text_eqb s.name name || has_name name ss

-- `for raw in catalog.scenarios`, with the vector that it fills.
unfoldable pub compile_scenarios :
    List RawScenario → List ScenarioDefinition → CatalogResult (List ScenarioDefinition)
compile_scenarios [] scenarios = ok scenarios
compile_scenarios (raw ∷ rest) scenarios = validate_name raw.name >>= λ _.
    guard (not (has_name raw.name scenarios)) duplicate_name >>= λ _.
    compile_scenario raw >>= λ s. compile_scenarios rest (scenarios ++ s ∷ [])

unfoldable pub compile_catalog : RawScenarioCatalog → CatalogResult ScenarioCatalog
compile_catalog catalog = do
  guard (catalog.version == 1) unsupported_version
  guard (not (length catalog.scenarios == 0)) no_scenarios
  guard (not (ltb 128 (length catalog.scenarios))) too_many_scenarios
  scenarios ← compile_scenarios catalog.scenarios []
  ok (record { version = catalog.version; scenarios = scenarios })

-- `ScenarioCatalog::scenario`
unfoldable pub find_scenario : Text → List ScenarioDefinition → Option ScenarioDefinition
find_scenario name [] = none
find_scenario name (s ∷ ss) = if text_eqb s.name name then some s else find_scenario name ss
