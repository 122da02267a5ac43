-- ===== src/Config.antt =====
-- The profile of a fleet: the data and the checks of src/config.rs. The bits of an `f32` are a
-- number, and what the code asks of them is a parameter.
pub mod Compile
pub mod Ranges
pub mod Tests
use c37_118_simulator.Prelude.{
  ℕ, ◌+◌, ◌-◌, ◌*◌, ◌/◌, ◌%◌, ◌^◌, bit_or, ◌≡◌, Bool, true, false, not, ◌&&◌, ◌||◌, Option, none,
  some, List, [], ◌∷◌, ◌++◌, length, replicate, ltb, leb, ◌==◌, if◌then◌else◌, refl,
}
use c37_118_simulator.Prelude.Text.{Bytes, codes, is_empty, all, any, is_ascii_control}
use c37_118_simulator.Scenario.Types.{F32}
use c37_118_simulator.Server.Connection.{WireVersion, v2, v3, max_command_frame_bytes}

-- The operations of `f32` that the checks use, with the numbers that they compare against.
pub record Floats : Type 0 where
  pub is_finite : F32 → Bool
  pub at_most : F32 → F32 → Bool
  pub less : F32 → F32 → Bool
  pub plus : F32 → F32 → F32
  pub times : F32 → F32 → F32
  pub over : F32 → F32 → F32
  pub abs : F32 → F32
  pub round : F32 → F32
  pub to_u32 : F32 → ℕ
  pub zero_f : F32
  pub one_f : F32
  pub max_u16_f : F32
  pub max_u24_f : F32
  pub max_frequency_f : F32
  pub max_rocof_f : F32
  pub phunit_scale_f : F32

pub record SignalRecipe : Type 0 where
  pub nominal : F32
  pub variation : F32

pub record PhasorRecipe : Type 0 where
  pub voltage_magnitude : F32
  pub voltage_variation : F32
  pub voltage_class : F32
  pub voltage_scale : F32
  pub current_magnitude : F32
  pub current_variation : F32
  pub current_scale : F32

pub record RawLimits : Type 0 where
  pub max_logical_pmus : ℕ
  pub max_clients_per_endpoint : ℕ
  pub max_command_frame_bytes : ℕ
  pub requested_socket_receive_buffer_bytes : ℕ
  pub requested_socket_send_buffer_bytes : ℕ

-- An address is opaque: it is only passed on.
pub record Fleet : Type 0 where
  pub count : ℕ
  pub bind_address : ℕ
  pub first_listen_port : ℕ
  pub first_stream_id : ℕ
  pub first_pmu_id : ℕ
  pub pdc_name : Bytes
  pub pmu_name_prefix : Bytes
  pub protocol_version : ℕ
  pub v2_good_stat_pmu_ids : List ℕ
  pub data_rate_hz : ℕ
  pub time_base : ℕ
  pub nominal_frequency_hz : ℕ
  pub phasors : PhasorRecipe
  pub frequency_deviation_hz : SignalRecipe
  pub rocof_hz_per_s : SignalRecipe

pub record Profile : Type 0 where
  pub seed : ℕ
  pub limits : RawLimits
  pub fleet : Fleet

-- What is refused; a text names the field or the range.
pub data ConfigError : Type 0 where
  limit_out_of_range clients_not_two : ConfigError
  buffer_out_of_range name_length name_control not_printable : Bytes → ConfigError
  count_out_of_range unknown_protocol_version data_rate_not_50 time_base_too_large : ConfigError
  time_base_not_multiple nominal_frequency_unknown count_too_large : ConfigError
  identifier_overflow identifier_out_of_range : Bytes → ConfigError
  good_stat_not_v2 good_stat_unknown good_stat_duplicate : ConfigError
  not_finite not_positive negative variation_too_large magnitude_too_large : Bytes → ConfigError
  frequency_too_large rocof_too_large port_overflow port_zero index_too_large : ConfigError
  phunit_out_of_range : Bytes → ConfigError

-- A `Result`, or the end of the process at an `expect`.
pub data Configured (A : Type 0) : Type 0 where
  ok : A → Configured A
  err : ConfigError → Configured A
  panicked : Configured A

infixl 5 ◌>>=◌ ◌>>◌
abbrev pub ◌>>=◌ : {A B : Type 0} → Configured A → (A → Configured B) → Configured B
ok a >>= f = f a
err e >>= f = err e
panicked >>= f = panicked

abbrev pub ◌>>◌ : {B : Type 0} → Configured (Unit {0}) → Configured B → Configured B
m >> k = m >>= λ _. k

abbrev pub guard : Bool → ConfigError → Configured (Unit {0})
guard true e = ok tt
guard false e = err e

abbrev pub ok_or : {A : Type 0} → Option A → ConfigError → Configured A
ok_or none e = err e
ok_or (some a) e = ok a

abbrev pub expect : {A : Type 0} → Option A → Configured A
expect none = panicked
expect (some a) = ok a

pub >>=-eq-ok :
    {A B : Type 0} (m : Configured A) (f : A → Configured B) (b : B)
    → (m >>= f) ≡ ok b
    → (a : A) × (m ≡ ok a) × (f a ≡ ok b)
>>=-eq-ok (ok a) f b h = (a, refl, h)
>>=-eq-ok (err e) f b h = cc
>>=-eq-ok panicked f b h = cc

abbrev pub max_logical_pmus : ℕ
max_logical_pmus = 150

abbrev pub is_within : ℕ → ℕ → ℕ → Bool
is_within low high n = leb low n && leb n high

abbrev pub validate_buffer : Bytes → ℕ → Configured (Unit {0})
validate_buffer name n = guard (is_within 1 max_command_frame_bytes n) (buffer_out_of_range name)

unfoldable pub validate_limits : RawLimits → Configured (Unit {0})
validate_limits limits = do
  guard (is_within 1 max_logical_pmus limits.max_logical_pmus) limit_out_of_range
  guard (limits.max_clients_per_endpoint == 2) clients_not_two
  guard (is_within 18 max_command_frame_bytes limits.max_command_frame_bytes) limit_out_of_range
  validate_buffer (codes "limits.requested_socket_receive_buffer_bytes")
      limits.requested_socket_receive_buffer_bytes
  validate_buffer (codes "limits.requested_socket_send_buffer_bytes")
      limits.requested_socket_send_buffer_bytes

-- `WireVersion::try_from`
abbrev pub version_of : ℕ → Configured WireVersion
version_of n = if n == 2 then ok v2 else if n == 3 then ok v3 else err unknown_protocol_version

-- `u16::checked_add`
abbrev pub checked_add_u16 : ℕ → ℕ → Option ℕ
checked_add_u16 a b = if leb (a + b) 65535 then some (a + b) else none

unfoldable pub final_identifier : ℕ → ℕ → Bytes → Configured ℕ
final_identifier first offset name = do
  final_value ← ok_or (checked_add_u16 first offset) (identifier_overflow name)
  guard (not ((first == 0) || (final_value == 65535))) (identifier_out_of_range name)
  ok final_value

unfoldable pub encoded_name : Bytes → Bytes → Configured Bytes
encoded_name value field = do
  guard (not (is_empty value || ltb 255 (length value))) (name_length field)
  guard (not (any is_ascii_control value)) (name_control field)
  ok (length value ∷ value)

abbrev pub is_printable : ℕ → Bool
is_printable b = leb 0x20 b && leb b 0x7E

unfoldable pub v2_fixed_ascii : Bytes → Bytes → Configured Bytes
v2_fixed_ascii value field = do
  guard (not (is_empty value || ltb 16 (length value) || not (all is_printable value)))
      (not_printable field)
  ok (value ++ replicate (16 - length value) b' ')

abbrev pub contains_id : ℕ → List ℕ → Bool
contains_id n ns = any (λ m. m == n) ns

-- The loop over the identifiers, with those that it has seen.
unfoldable pub scan_good_stat : ℕ → ℕ → List ℕ → List ℕ → Configured (Unit {0})
scan_good_stat first final seen [] = ok tt
scan_good_stat first final seen (id ∷ ids) = do
  guard (leb first id && leb id final) good_stat_unknown
  guard (not (contains_id id seen)) good_stat_duplicate
  scan_good_stat first final (seen ++ id ∷ []) ids

abbrev pub is_v2 : WireVersion → Bool
is_v2 v2 = true
is_v2 v3 = false

unfoldable pub validate_v2_good_stat_pmu_ids : List ℕ → ℕ → ℕ → WireVersion → Configured (Unit {0})
validate_v2_good_stat_pmu_ids ids first final version = do
  guard (is_empty ids || is_v2 version) good_stat_not_v2
  scan_good_stat first final [] ids

module _ (f : Floats) where
  abbrev pub validate_finite : Bytes → F32 → Configured (Unit {0})
  validate_finite name value = guard (f.is_finite value) (not_finite name)

  abbrev pub validate_positive_finite : Bytes → F32 → Configured (Unit {0})
  validate_positive_finite name value = do
    validate_finite name value
    guard (not (f.at_most value f.zero_f)) (not_positive name)

  abbrev pub validate_non_negative : Bytes → F32 → Configured (Unit {0})
  validate_non_negative name value = do
    validate_finite name value
    guard (not (f.less value f.zero_f)) (negative name)

  abbrev pub validate_fixed_magnitude_range : Bytes → F32 → F32 → F32 → Configured (Unit {0})
  validate_fixed_magnitude_range name nominal variation scale =
      guard (not (f.less f.max_u16_f (f.over (f.plus nominal variation) scale)))
        (magnitude_too_large name)

  -- The checks of `validate_fleet` on the recipes of the signals.
  unfoldable pub validate_recipes :
      PhasorRecipe → SignalRecipe → SignalRecipe → Configured (Unit {0})
  validate_recipes p frequency rocof = do
    validate_positive_finite (codes "fleet.phasors.voltage_magnitude") p.voltage_magnitude
    validate_non_negative (codes "fleet.phasors.voltage_variation") p.voltage_variation
    guard (not (f.less p.voltage_magnitude p.voltage_variation))
        (variation_too_large (codes "fleet.phasors.voltage_variation"))
    validate_non_negative (codes "fleet.phasors.voltage_class") p.voltage_class
    validate_positive_finite (codes "fleet.phasors.voltage_scale") p.voltage_scale
    validate_fixed_magnitude_range (codes "fleet.phasors.voltage_magnitude") p.voltage_magnitude
        p.voltage_variation p.voltage_scale
    validate_positive_finite (codes "fleet.phasors.current_magnitude") p.current_magnitude
    validate_non_negative (codes "fleet.phasors.current_variation") p.current_variation
    guard (not (f.less p.current_magnitude p.current_variation))
        (variation_too_large (codes "fleet.phasors.current_variation"))
    validate_positive_finite (codes "fleet.phasors.current_scale") p.current_scale
    validate_fixed_magnitude_range (codes "fleet.phasors.current_magnitude") p.current_magnitude
        p.current_variation p.current_scale
    validate_finite (codes "fleet.frequency_deviation_hz.nominal") frequency.nominal
    validate_non_negative (codes "fleet.frequency_deviation_hz.variation") frequency.variation
    validate_finite (codes "fleet.rocof_hz_per_s.nominal") rocof.nominal
    validate_non_negative (codes "fleet.rocof_hz_per_s.variation") rocof.variation
    guard (not (f.less f.max_frequency_f (f.plus (f.abs frequency.nominal) frequency.variation)))
        frequency_too_large
    guard (not (f.less f.max_rocof_f (f.plus (f.abs rocof.nominal) rocof.variation)))
        rocof_too_large

  unfoldable pub v2_phunit : F32 → Bool → Bytes → Configured ℕ
  v2_phunit scale current field =
      let scaled = f.round (f.times scale f.phunit_scale_f) in
      guard (f.is_finite scaled && (f.at_most f.one_f scaled && f.at_most scaled f.max_u24_f))
        (phunit_out_of_range field)
      >> ok (bit_or (if current then 2 ^ 24 else 0) (f.to_u32 scaled))
