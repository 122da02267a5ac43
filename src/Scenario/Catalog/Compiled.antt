-- ===== src/Scenario/Catalog/Compiled.antt =====
-- What a compiled catalog is known to hold.
use c37_118_simulator.Prelude.{
  ℕ, ◌+◌, ◌≤◌, ◌<◌, ◌≡◌, ◌≢◌, refl, ap, ◌∙◌, Bool, true, false, not, Option, none, some, List, [],
  ◌∷◌, ◌++◌, length, length-append, All, All-append, arith,
}
use c37_118_simulator.Scenario.Types.{
  Text, SignalExcursion, ScenarioKind, signal_excursion, ScenarioLifecycle, transient, sustained,
  ScenarioDefinition, ScenarioCatalog, text_eqb, text_eqb_iff,
}
use c37_118_simulator.Scenario.Catalog.{
  CatalogResult, ok, err, ◌>>=◌, guard, duplicate_name, RawSignalExcursion, RawScenario,
  RawScenarioCatalog, all_name_bytes, validate_name, compile_duration, compile_optional_signal,
  compile_scenario, compile_scenarios, compile_catalog, has_name,
}

-- A compiled scenario: a transient one has a positive duration and a sustained one none; a signal
-- is there for the kind that needs it and for no other.
pub record IsCompiled (s : ScenarioDefinition) : Type 0 where
  pub named : (0 < length s.name) × (length s.name ≤ 64) × (all_name_bytes s.name ≡ true)
  pub timed : s.lifecycle ≡ transient → (d : ℕ) × (s.duration_frames ≡ some d) × (0 < d)
  pub untimed : s.lifecycle ≡ sustained → s.duration_frames ≡ none
  pub silent : s.kind ≢ signal_excursion → s.signal ≡ none
  pub signalled : s.kind ≡ signal_excursion → s.signal ≢ none

abbrev pub Distinct : List ScenarioDefinition → Type 0
Distinct [] = Unit {0}
Distinct (s ∷ ss) = (has_name s.name ss ≡ false) × Distinct ss

duration-timed :
    (l : ScenarioLifecycle) (d d' : Option ℕ)
    → compile_duration l d ≡ ok d'
    → l ≡ transient
    → (n : ℕ) × (d' ≡ some n) × (0 < n)
unfolding compile_duration
duration-timed transient (some d) d' h e = (d, ground arith, ground arith)
duration-timed transient none d' h e = absurd (ground arith)
duration-timed sustained d d' h e = absurd (cc)

duration-untimed :
    (l : ScenarioLifecycle) (d d' : Option ℕ)
    → compile_duration l d ≡ ok d'
    → l ≡ sustained
    → d' ≡ none
unfolding compile_duration
duration-untimed l d d' h e = ground arith

signal-silent :
    (k : ScenarioKind) (r : Option RawSignalExcursion) (s : Option SignalExcursion)
    → compile_optional_signal k r ≡ ok s
    → k ≢ signal_excursion
    → s ≡ none
unfolding compile_optional_signal
signal-silent k r s h ne = ground arith

signal-signalled :
    (k : ScenarioKind) (r : Option RawSignalExcursion) (s : Option SignalExcursion)
    → compile_optional_signal k r ≡ ok s
    → k ≡ signal_excursion
    → s ≢ none
unfolding compile_optional_signal
signal-signalled k r s h e = ground arith

name-valid :
    (n : Text)
    → validate_name n ≡ ok tt
    → (0 < length n) × (length n ≤ 64) × (all_name_bytes n ≡ true)
unfolding validate_name
name-valid n h = ground arith

-- The value that a first step hands on to the second, where both succeed.
record Passed {A B : Type 0} (first : CatalogResult A) (second : A → CatalogResult B) (last : B)
    : Type 0 where
  value : A
  first_ok : first ≡ ok value
  second_ok : second value ≡ ok last

>>=-Passed :
    {A B : Type 0} {last : B} (first : CatalogResult A) (second : A → CatalogResult B)
    → (first >>= second) ≡ ok last
    → Passed first second last
>>=-Passed (err reason) second same = absurd (ground (arith, same))
>>=-Passed (ok found) second same = record { value = found; first_ok = refl; second_ok = same }

guard-not : (b : Bool) (u : Unit {0}) → guard (not b) duplicate_name ≡ ok u → b ≡ false
guard-not b u h = ground arith

ok_unit : (m : CatalogResult (Unit {0})) (u : Unit {0}) → m ≡ ok u → m ≡ ok tt
ok_unit m u h = h

-- The fields of the result, as the steps of `compile_scenario` gave them.
record Steps (raw : RawScenario) (s : ScenarioDefinition) : Type 0 where
  name_kept : s.name ≡ raw.name
  duration_step : compile_duration s.lifecycle raw.duration_frames ≡ ok s.duration_frames
  signal_step : compile_optional_signal s.kind raw.signal ≡ ok s.signal

compile_scenario-Steps :
    (raw : RawScenario) (s : ScenarioDefinition) → compile_scenario raw ≡ ok s → Steps raw s
unfolding compile_scenario
compile_scenario-Steps raw s h = ground arith

compile_scenario-IsCompiled :
    (raw : RawScenario) (s : ScenarioDefinition)
    → validate_name raw.name ≡ ok tt
    → compile_scenario raw ≡ ok s
    → IsCompiled s
compile_scenario-IsCompiled raw s hn h = record {
  named = name-valid s.name (ap validate_name steps.name_kept ∙ hn);
  timed = duration-timed s.lifecycle raw.duration_frames s.duration_frames steps.duration_step;
  untimed = duration-untimed s.lifecycle raw.duration_frames s.duration_frames steps.duration_step;
  silent = signal-silent s.kind raw.signal s.signal steps.signal_step;
  signalled = signal-signalled s.kind raw.signal s.signal steps.signal_step;
}
  where
    steps : Steps raw s
    steps = compile_scenario-Steps raw s h

has_name-append :
    (n : Text) (ss : List ScenarioDefinition) (s : ScenarioDefinition)
    → has_name n ss ≡ false
    → text_eqb s.name n ≡ false
    → has_name n (ss ++ s ∷ []) ≡ false
has_name-append n [] s h e = ground arith
has_name-append n (t ∷ ss) s h e = ground (arith, has_name-append n ss s)

Distinct-append :
    (ss : List ScenarioDefinition) (s : ScenarioDefinition)
    → Distinct ss
    → has_name s.name ss ≡ false
    → Distinct (ss ++ s ∷ [])
Distinct-append [] s d h = (refl, tt)
Distinct-append (t ∷ ss) s d h = ground (
  arith,
  Distinct-append ss s,
  has_name-append t.name ss s,
  text_eqb_iff t.name s.name,
  text_eqb_iff s.name t.name,
)

compile_scenarios-Compiled :
    (raws : List RawScenario) (acc out : List ScenarioDefinition)
    → All IsCompiled acc
    → Distinct acc
    → compile_scenarios raws acc ≡ ok out
    → All IsCompiled out × Distinct out × (length out ≡ length acc + length raws)
unfolding compile_scenarios
compile_scenarios-Compiled [] acc out c d h = rw (← same) (c, d, omega arith)
  where
    same : acc ≡ out
    same = cc
compile_scenarios-Compiled (raw ∷ raws) acc out c d h =
    let first = >>=-Passed (validate_name raw.name) _ h in
    let t = first.value in
    let valid = first.first_ok in
    let second =
      >>=-Passed (guard (not (has_name raw.name acc)) duplicate_name) _ first.second_ok in
    let u = second.value in
    let fresh = second.first_ok in
    let third = >>=-Passed (compile_scenario raw) _ second.second_ok in
    let s = third.value in
    let compiled = third.first_ok in
    let h₃ = third.second_ok in
    let steps : Steps raw s = compile_scenario-Steps raw s compiled in
    let new_name : has_name s.name acc ≡ false =
      ap (λ n. has_name n acc) steps.name_kept ∙ guard-not (has_name raw.name acc) u fresh in
    let (all, distinct, count) =
      compile_scenarios-Compiled raws (acc ++ s ∷ []) out
        (All-append IsCompiled acc (s ∷ []) c (
          compile_scenario-IsCompiled raw s (ok_unit (validate_name raw.name) t valid) compiled,
          tt,
        ))
        (Distinct-append acc s d new_name) h₃ in
    (all, distinct, omega (arith, count, length-append acc (s ∷ [])))

record CatalogSteps (raw : RawScenarioCatalog) (c : ScenarioCatalog) : Type 0 where
  version_one : c.version ≡ 1
  some_given : 0 < length raw.scenarios
  few_given : length raw.scenarios ≤ 128
  scenarios_step : compile_scenarios raw.scenarios [] ≡ ok c.scenarios

compile_catalog-CatalogSteps :
    (raw : RawScenarioCatalog) (c : ScenarioCatalog)
    → compile_catalog raw ≡ ok c
    → CatalogSteps raw c
unfolding compile_catalog
compile_catalog-CatalogSteps raw c h = ground arith

-- A catalog that compiles has version 1, between 1 and 128 scenarios, as many as it was given, each
-- of them compiled as above, and no two of the same name.
pub compile_catalog_lem :
    (raw : RawScenarioCatalog) (c : ScenarioCatalog)
    → compile_catalog raw ≡ ok c
    → (c.version ≡ 1)
      × (length c.scenarios ≡ length raw.scenarios)
      × (0 < length c.scenarios)
      × (length c.scenarios ≤ 128)
      × All IsCompiled c.scenarios
      × Distinct c.scenarios
compile_catalog_lem raw c h =
    let steps : CatalogSteps raw c = compile_catalog-CatalogSteps raw c h in
    let (all, distinct, count) =
      compile_scenarios-Compiled raw.scenarios [] c.scenarios tt tt steps.scenarios_step in
    (
      steps.version_one,
      omega (arith, count),
      omega (arith, count, steps.some_given),
      omega (arith, count, steps.few_given),
      all,
      distinct,
    )
