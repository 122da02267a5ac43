-- ===== src/Scenario/Types.antt =====
-- The data of src/scenario.rs. Names and labels are their UTF-8 bytes, an `f32` its bit pattern,
-- and an `Instant` the nanoseconds since a start that the program never names.
use c37_118_simulator.Prelude.{
  ℕ, ◌-◌, ◌^◌, ◌≡◌, ◌↔◌, refl, Bool, true, false, ◌&&◌, ◌||◌, Option, List, [], ◌∷◌, arith, ltb,
  ◌==◌,
}
use c37_118_simulator.Prelude.Dict.{Key}

abbrev pub Text : Type 0
Text = List ℕ

abbrev pub F32 : Type 0
F32 = ℕ

abbrev pub Instant : Type 0
Instant = ℕ

abbrev pub max_u64 : ℕ
max_u64 = 2 ^ 64 - 1

pub data ScenarioKind : Type 0 where
  normal degraded_time missing_frames disconnect_pdc signal_excursion recovery : ScenarioKind

pub data ScenarioLifecycle : Type 0 where
  transient sustained : ScenarioLifecycle

pub record SignalExcursion : Type 0 where
  pub voltage_magnitude_delta : F32
  pub frequency_deviation_hz : F32
  pub rocof_hz_per_s : F32

pub record ScenarioDefinition : Type 0 where
  pub name : Text
  pub kind : ScenarioKind
  pub start_frame_offset : ℕ
  pub lifecycle : ScenarioLifecycle
  pub duration_frames : Option ℕ
  pub signal : Option SignalExcursion

pub record ScenarioCatalog : Type 0 where
  pub version : ℕ
  pub scenarios : List ScenarioDefinition

pub data ScenarioTarget : Type 0 where
  endpoint : ℕ → ScenarioTarget
  pdc : ℕ → ℕ → ScenarioTarget

abbrev pub stream_id : ScenarioTarget → ℕ
stream_id (endpoint s) = s
stream_id (pdc s connection) = s

abbrev pub target_eqb : ScenarioTarget → ScenarioTarget → Bool
target_eqb (endpoint s) (endpoint t) = s == t
target_eqb (endpoint s) (pdc t d) = false
target_eqb (pdc s c) (endpoint t) = false
target_eqb (pdc s c) (pdc t d) = (s == t) && (c == d)

-- The derived order: endpoints first, then by the fields.
abbrev pub target_before : ScenarioTarget → ScenarioTarget → Bool
target_before (endpoint s) (endpoint t) = ltb s t
target_before (endpoint s) (pdc t d) = true
target_before (pdc s c) (endpoint t) = false
target_before (pdc s c) (pdc t d) = ltb s t || (s == t) && ltb c d

pub target_eqb_iff : (a b : ScenarioTarget) → (target_eqb a b ≡ true) ↔ (a ≡ b)
target_eqb_iff (endpoint s) (endpoint t) = ground arith
target_eqb_iff (endpoint s) (pdc t d) = ground arith
target_eqb_iff (pdc s c) (endpoint t) = ground arith
target_eqb_iff (pdc s c) (pdc t d) = ground arith

pub target_before_trans :
    (a b c : ScenarioTarget)
    → target_before a b ≡ true
    → target_before b c ≡ true
    → target_before a c ≡ true
target_before_trans (endpoint s) (endpoint t) (endpoint u) h k = ground arith
target_before_trans (endpoint s) b (pdc u e) h k = refl
target_before_trans (pdc s c) (pdc t d) (pdc u e) h k = ground arith
target_before_trans a b c h k = ground arith

pub target_before_irrefl : (a : ScenarioTarget) → target_before a a ≡ false
target_before_irrefl (endpoint s) = ground arith
target_before_irrefl (pdc s c) = ground arith

pub target_before_total :
    (a b : ScenarioTarget)
    → target_eqb a b ≡ false
    → target_before a b ≡ false
    → target_before b a ≡ true
target_before_total (endpoint s) (endpoint t) h k = ground arith
target_before_total (pdc s c) (pdc t d) h k = ground arith
target_before_total a b h k = ground arith

instance abbrev pub target_key : Key ScenarioTarget
target_key = record {
  eqb = target_eqb;
  before = target_before;
  eqb_iff = target_eqb_iff;
  before_trans = target_before_trans;
  before_irrefl = target_before_irrefl;
  before_total = target_before_total;
}

abbrev pub text_eqb : Text → Text → Bool
text_eqb [] [] = true
text_eqb [] (y ∷ ys) = false
text_eqb (x ∷ xs) [] = false
text_eqb (x ∷ xs) (y ∷ ys) = (x == y) && text_eqb xs ys

pub text_eqb_iff : (a b : Text) → (text_eqb a b ≡ true) ↔ (a ≡ b)
text_eqb_iff [] [] = ground arith
text_eqb_iff [] (y ∷ ys) = ground arith
text_eqb_iff (x ∷ xs) [] = ground arith
text_eqb_iff (x ∷ xs) (y ∷ ys) = ground (arith, text_eqb_iff xs ys)
